-- ===== src/Malloc/Objects.antt =====
-- The objects that `malloc` gives out.
use mathlib.Core.Path.{subst}
use linux.Common.{
  ℕ, zero, suc, ◌+◌, ◌-◌, ◌*◌, ◌/◌, ◌≤◌, ◌<◌, ◌⊎◌, Option, none, some, List, [], ◌∷◌, leb, ◌≡◌,
  arith, Bool-cases, inl, inr, Option-cases, length, Bool, true, false, if◌then◌else◌, ◌==◌,
}
use linux.Malloc.{
  BucketDesc, BucketDir, Supply, Outcome, ◌>>=◌, new_bucket, bucket_page, take_object, malloc_chain,
  malloc, page_size, objects, init_bucket_desc,
}

-- `x` is one of the objects that a page is cut into.
unfoldable pub IsObject : ℕ → ℕ → ℕ → Type 0
IsObject size page x = (i : ℕ) × (x ≡ page + i * size) × (i * size + size ≤ page_size)

unfoldable pub AllObjects : ℕ → ℕ → List ℕ → Type 0
AllObjects size page [] = Unit {0}
AllObjects size page (x ∷ xs) = IsObject size page x × AllObjects size page xs

-- The free objects of every descriptor in a chain are objects of its page.
unfoldable pub IsChain : ℕ → List BucketDesc → Type 0
IsChain size [] = Unit {0}
IsChain size (d ∷ rest) = AllObjects size d.page d.freeptr × IsChain size rest

-- All sizes are between 1 and a page.
unfoldable pub IsDir : BucketDir → Type 0
IsDir [] = Unit {0}
IsDir ((size, chain) ∷ dirs) = (1 ≤ size) × (size ≤ page_size) × IsChain size chain × IsDir dirs

suc_times : (i size : ℕ) → suc i * size ≡ i * size + size
suc_times i size = grind arith

one_more : (i n size : ℕ) → (i + suc n) * size ≤ page_size → i * size + size ≤ page_size
one_more i n size h = grind arith

next_step : (i n size : ℕ) → (i + suc n) * size ≤ page_size → (suc i + n) * size ≤ page_size
next_step i n size h = grind arith

objects-AllObjects :
    (n i size page cp : ℕ)
    → cp ≡ page + i * size
    → (i + n) * size ≤ page_size
    → AllObjects size page (objects n size cp)
unfolding objects AllObjects IsObject
objects-AllObjects zero i size page cp e h = tt
objects-AllObjects (suc n) i size page cp e h = (
  (i, e, one_more i n size h),
  objects-AllObjects n (suc i) size page (cp + size) (omega (arith, e, suc_times i size))
      (next_step i n size h),
)

whole : (size : ℕ) → 1 ≤ size → size ≤ page_size → (1 + (page_size / size - 1)) * size ≤ page_size
whole size h k = grind arith

-- `x` is one of the objects that the page of a descriptor in a chain is cut into.
unfoldable pub HasPiece : ℕ → ℕ → List BucketDesc → Type 0
HasPiece size x [] = ⊥
HasPiece size x (d ∷ rest) = IsObject size d.page x ⊎ HasPiece size x rest

-- `x` is such an object in the chain of the first size that is at least `len`.
unfoldable pub HasObject : ℕ → ℕ → BucketDir → Type 0
HasObject len x [] = ⊥
HasObject len x ((size, chain) ∷ dirs) =
    ((len ≤ size) × HasPiece size x chain) ⊎ ((size < len) × HasObject len x dirs)

-- What an allocation from a chain, and from the directory, gives.
unfoldable Takes : ℕ → Option (ℕ × List BucketDesc) → Type 0
Takes size none = Unit {0}
Takes size (some (x, chain)) = HasPiece size x chain × IsChain size chain

unfoldable Gives : ℕ → ℕ → Outcome (ℕ × List BucketDesc × Supply) → Type 0
Gives n size Outcome.panicked = n < 2
Gives n size (Outcome.done (x, chain, s)) = HasPiece size x chain × IsChain size chain

-- Every size is too small.
unfoldable pub TooLarge : ℕ → BucketDir → Type 0
TooLarge len [] = Unit {0}
TooLarge len ((size, chain) ∷ dirs) = (size < len) × TooLarge len dirs

-- `malloc` panics only where every size is too small or there are not two pages.
unfoldable pub Fits : ℕ → ℕ → BucketDir → Outcome (ℕ × BucketDir × Supply) → Type 0
Fits n len dirs Outcome.panicked = TooLarge len dirs ⊎ (n < 2)
Fits n len dirs (Outcome.done (x, dirs', s)) = HasObject len x dirs' × IsDir dirs'

take_nil-Takes : (size : ℕ) → Takes size (take_object [])
unfolding Takes take_object
take_nil-Takes size = tt

take_later-Takes :
    (size : ℕ) (d : BucketDesc) (o : Option (ℕ × List BucketDesc))
    → AllObjects size d.page d.freeptr
    → Takes size o
    → Takes size (elim o [ none ↦ none | some (x, rest') ↦ some (x, d ∷ rest') ])
unfolding Takes IsChain HasPiece
take_later-Takes size d none a h = tt
take_later-Takes size d (some (x, rest')) a (h, k) = (inr h, (a, k))

take_step-Takes :
    (size : ℕ) (d : BucketDesc) (free : List ℕ) (rest : List BucketDesc)
    → AllObjects size d.page free
    → IsChain size rest
    → Takes size (elim (take_object rest) [
      | none ↦ none
      | some (x, rest') ↦ some (x, record d { freeptr = free } ∷ rest')
    ])
    → Takes size (take_object (record d { freeptr = free } ∷ rest))
unfolding take_object Takes IsChain AllObjects HasPiece
take_step-Takes size d [] rest a c h = h
take_step-Takes size d (x ∷ free) rest (o, a) c h = (inl o, (a, c))

take_object-Takes :
    (size : ℕ) (chain : List BucketDesc) → IsChain size chain → Takes size (take_object chain)
unfolding IsChain
take_object-Takes size [] c = take_nil-Takes size
take_object-Takes size (d ∷ rest) (a, c) =
    take_step-Takes size d d.freeptr rest a c
      (take_later-Takes size d (take_object rest) a (take_object-Takes size rest c))

page-Gives :
    (n size : ℕ) (ps : List ℕ) (descs : ℕ) (chain : List BucketDesc)
    → n ≤ length ps + 1
    → 1 ≤ size
    → size ≤ page_size
    → IsChain size chain
    → Gives n size (
        bucket_page size (record { pages = ps; descs = descs }) >>= λ (x, d, s').
        Outcome.done (x, d ∷ chain, s'))
unfolding bucket_page Gives IsChain IsObject HasPiece
page-Gives n size [] descs chain l h k c = omega arith
page-Gives n size (p ∷ ps) descs chain l h k c = (
  inl (0, omega arith, omega (arith, k)),
  (objects-AllObjects (page_size / size - 1) 1 size p (p + size) (omega arith) (whole size h k), c),
)

-- A descriptor is to spare, and of `n` pages one at most has gone for it.
unfoldable Ready : ℕ → Outcome Supply → Type 0
Ready n Outcome.panicked = n < 2
Ready n (Outcome.done s) = n ≤ length s.pages + 1

init-Ready :
    (ps : List ℕ) (descs : ℕ)
    → Ready (length ps) (init_bucket_desc (record { pages = ps; descs = descs }))
unfolding Ready init_bucket_desc
init-Ready [] descs = omega arith
init-Ready (p ∷ ps) descs = omega arith

if-Ready :
    (b : Bool) (s : Supply)
    → Ready (length s.pages) (if b then init_bucket_desc s else Outcome.done s)
unfolding Ready
if-Ready true s = init-Ready s.pages s.descs
if-Ready false s = omega arith

bucket-Gives :
    (n size : ℕ) (o : Outcome Supply) (chain : List BucketDesc)
    → Ready n o
    → 1 ≤ size
    → size ≤ page_size
    → IsChain size chain
    → Gives n size (o >>= bucket_page size >>= λ (x, d, s'). Outcome.done (x, d ∷ chain, s'))
unfolding Gives Ready
bucket-Gives n size Outcome.panicked chain r h k c = r
bucket-Gives n size (Outcome.done s) chain r h k c = page-Gives n size s.pages s.descs chain r h k c

malloc_chain-Gives :
    (size : ℕ) (chain : List BucketDesc) (s : Supply)
    → 1 ≤ size
    → size ≤ page_size
    → IsChain size chain
    → Gives (length s.pages) size (malloc_chain size chain s)
unfolding Takes Gives new_bucket malloc_chain
malloc_chain-Gives size chain s h k c = elim (Option-cases (take_object chain)) [
  | inl e ↦
      rw (e, malloc_chain)
        (bucket-Gives (length s.pages) size _ chain (if-Ready (s.descs == 0) s) h k c)
  | inr ((x, chain'), e) ↦
      rw (e, malloc_chain) (subst (Takes size) e (take_object-Takes size chain c))
]

here-Fits :
    (n len size : ℕ) (chain : List BucketDesc) (dirs : BucketDir)
    (r : Outcome (ℕ × List BucketDesc × Supply))
    → len ≤ size
    → 1 ≤ size
    → size ≤ page_size
    → IsDir dirs
    → Gives n size r
    → Fits n len
        ((size, chain) ∷ dirs)
        (r >>= λ (x, chain', s'). Outcome.done (x, (size, chain') ∷ dirs, s'))
unfolding Fits Gives IsDir HasObject
here-Fits n len size chain dirs Outcome.panicked l h k d g = inr g
here-Fits n len size chain dirs (Outcome.done (x, chain', s')) l h k d (o, c) =
    (inl (l, o), (h, k, c, d))

there-Fits :
    (n len size : ℕ) (chain : List BucketDesc) (dirs : BucketDir)
    (r : Outcome (ℕ × BucketDir × Supply))
    → size < len
    → 1 ≤ size
    → size ≤ page_size
    → IsChain size chain
    → Fits n len dirs r
    → Fits n len
        ((size, chain) ∷ dirs)
        (r >>= λ (x, dirs', s'). Outcome.done (x, (size, chain) ∷ dirs', s'))
unfolding Fits IsDir HasObject TooLarge
there-Fits n len size chain dirs Outcome.panicked less h k c (inl t) = inl (less, t)
there-Fits n len size chain dirs Outcome.panicked less h k c (inr q) = inr q
there-Fits n len size chain dirs (Outcome.done (x, dirs', s')) less h k c (o, d) =
    (inr (less, o), (h, k, c, d))

-- In a directory whose sizes are between 1 and a page and whose free objects are pieces of their
-- pages: `malloc` panics only where every size is too small or there are not two pages. The address
-- that it gives otherwise is that of a piece of the page of a descriptor, which then stands in the
-- chain of the first size that is large enough, at a multiple of that size from the page's start and
-- not beyond its end; and the directory stays so.
pub malloc-Fits :
    (len : ℕ) (dirs : BucketDir) (s : Supply)
    → IsDir dirs
    → Fits (length s.pages) len dirs (malloc len dirs s)
unfolding malloc IsDir Fits TooLarge
malloc-Fits len [] s d = inl tt
malloc-Fits len ((size, chain) ∷ dirs) s (h, k, c, d) = elim (Bool-cases (leb len size)) [
  | inl e ↦
      rw (e, malloc)
        (here-Fits (length s.pages) len size chain dirs (malloc_chain size chain s)
          (ground (arith, e)) h k d (malloc_chain-Gives size chain s h k c))
  | inr e ↦
      rw (e, malloc)
        (there-Fits (length s.pages) len size chain dirs (malloc len dirs s) (ground (arith, e)) h k
          c (malloc-Fits len dirs s d))
]
