-- ===== src/Malloc.antt =====
-- lib/malloc.c: the kernel's allocator, whose buckets are pages cut into objects of one size.
pub mod Buckets
pub mod Directory
pub mod Objects
mod Tests
use linux.Common.{
  ℕ, zero, suc, ◌+◌, ◌-◌, ◌*◌, ◌/◌, ◌%◌, ◌^◌, Option, none, some, List, [], ◌∷◌, Bool, ltb, leb,
  ◌==◌, if◌then◌else◌,
}

abbrev pub page_size : ℕ
page_size = 4096

-- `struct bucket_desc`. The free objects, which the program links through their first words from
-- `freeptr` on, are a list of addresses, and the links `next` are the order of the chain.
pub record BucketDesc : Type 0 where
  pub page : ℕ
  pub freeptr : List ℕ
  pub refcnt : ℕ
  pub bucket_size : ℕ

-- The entries of `bucket_dir` up to the end marker: a size and its chain.
abbrev pub BucketDir : Type 0
BucketDir = List (ℕ × List BucketDesc)

abbrev pub bucket_dir : BucketDir
bucket_dir =
    (16, [])
    ∷ (32, [])
    ∷ (64, [])
    ∷ (128, [])
    ∷ (256, [])
    ∷ (512, [])
    ∷ (1024, [])
    ∷ (2048, [])
    ∷ (4096, [])
    ∷ []

-- The pages that `get_free_page` gives, one after the other, and the number of descriptors on
-- `free_bucket_desc`.
pub record Supply : Type 0 where
  pub pages : List ℕ
  pub descs : ℕ

pub data Outcome (A : Type 0) : Type 0 where
  done : A → Outcome A
  panicked : Outcome A

infixl 5 ◌>>=◌
abbrev pub ◌>>=◌ : {A B : Type 0} → Outcome A → (A → Outcome B) → Outcome B
done a >>= f = f a
panicked >>= f = panicked

-- A page, or `panic` where there is none.
abbrev pub get_free_page : Supply → Outcome (ℕ × Supply)
get_free_page s = elim (s.pages) [
  | [] ↦ Outcome.panicked
  | page ∷ pages ↦ Outcome.done (page, record s { pages = pages })
]

-- A page of 16-byte descriptors.
unfoldable pub init_bucket_desc : Supply → Outcome Supply
init_bucket_desc s = do
  (page, s') ← get_free_page s
  Outcome.done (record s' { descs = s'.descs + page_size / 16 })

-- The first `n` objects from `cp` on.
unfoldable pub objects : ℕ → ℕ → ℕ → List ℕ
objects zero size cp = []
objects (suc n) size cp = cp ∷ objects n size (cp + size)

-- A descriptor with its page, and the first object of that.
unfoldable pub bucket_page : ℕ → Supply → Outcome (ℕ × BucketDesc × Supply)
bucket_page size s = do
  (page, s') ← get_free_page s
  Outcome.done (
    page,
    record {
      page = page;
      freeptr = objects (page_size / size - 1) size (page + size);
      refcnt = 1;
      bucket_size = size;
    },
    record s' { descs = s'.descs - 1 },
  )

-- The same, with a page of descriptors first if there is none left.
unfoldable pub new_bucket : ℕ → Supply → Outcome (ℕ × BucketDesc × Supply)
new_bucket size s =
    let more = init_bucket_desc s in
    (if s.descs == 0 then more else Outcome.done s) >>= bucket_page size

-- The first descriptor with a free object, which gives its first one.
unfoldable pub take_object : List BucketDesc → Option (ℕ × List BucketDesc)
take_object [] = none
take_object (d ∷ rest) = elim (d.freeptr) [
  | x ∷ free ↦ some (x, record d { freeptr = free; refcnt = (d.refcnt + 1) % 2 ^ 16 } ∷ rest)
  | [] ↦ elim (take_object rest) [ none ↦ none | some (x, rest') ↦ some (x, d ∷ rest') ]
]

-- An object from the chain of one size.
unfoldable pub malloc_chain : ℕ → List BucketDesc → Supply → Outcome (ℕ × List BucketDesc × Supply)
malloc_chain size chain s = elim (take_object chain) [
  | some (x, chain') ↦ Outcome.done (x, chain', s)
  | none ↦ do (x, d, s') ← new_bucket size s; Outcome.done (x, d ∷ chain, s')
]

-- `malloc(len)`: from the first size that is large enough.
unfoldable pub malloc : ℕ → BucketDir → Supply → Outcome (ℕ × BucketDir × Supply)
malloc len [] s = Outcome.panicked
malloc len ((size, chain) ∷ dirs) s =
    let here = malloc_chain size chain s in
    let there = malloc len dirs s in
    if leb len size
    then (here >>= λ (x, chain', s'). Outcome.done (x, (size, chain') ∷ dirs, s'))
    else (there >>= λ (x, dirs', s'). Outcome.done (x, (size, chain) ∷ dirs', s'))

-- `obj & 0xfffff000`
abbrev pub page_of : ℕ → ℕ
page_of obj = obj / page_size * page_size

-- The object goes to its descriptor, in front of the free ones. A descriptor without objects in use
-- leaves the chain, and gives its page.
unfoldable pub put_object : ℕ → BucketDesc → List BucketDesc → List BucketDesc × Option ℕ
put_object obj d rest =
    let left = (d.refcnt + 2 ^ 16 - 1) % 2 ^ 16 in
    if left == 0
    then (rest, some d.page)
    else (record d { freeptr = obj ∷ d.freeptr; refcnt = left } ∷ rest, none)

-- The search for the page through one chain.
unfoldable pub free_chain : ℕ → List BucketDesc → Option (List BucketDesc × Option ℕ)
free_chain obj [] = none
free_chain obj (d ∷ rest) =
    let later = free_chain obj rest in
    if d.page == page_of obj
    then some (put_object obj d rest)
    else elim later [ none ↦ none | some (rest', page) ↦ some (d ∷ rest', page) ]

-- `free_page`, and the descriptor back on `free_bucket_desc`.
unfoldable pub give_back : Option ℕ → Supply → Supply
give_back none s = s
give_back (some page) s = record s { pages = page ∷ s.pages; descs = s.descs + 1 }

-- `free_s(obj, size)`: sizes below `size` are passed over.
unfoldable pub free_s : ℕ → ℕ → BucketDir → Supply → Outcome (BucketDir × Supply)
free_s obj size [] s = Outcome.panicked
free_s obj size ((bucket, chain) ∷ dirs) s =
    let later =
      free_s obj size dirs s >>= λ (dirs', s'). Outcome.done ((bucket, chain) ∷ dirs', s') in
    if ltb bucket size then later else elim (free_chain obj chain) [
      | some (chain', page) ↦ Outcome.done ((bucket, chain') ∷ dirs, give_back page s)
      | none ↦ later
    ]
