-- ===== src/Malloc/Buckets.antt =====
-- The descriptors of a chain: a page is found again, and an object goes back to its place.
use mathlib.Core.Path.{subst}
use linux.Common.{
  ℕ, ◌+◌, ◌%◌, ◌^◌, ◌≤◌, Option, none, some, List, [], ◌∷◌, ◌++◌, ◌==◌, if◌then◌else◌, ◌≡◌, ◌≢◌,
  refl, ap, sym, ◌∙◌, arith,
}
use linux.Malloc.{BucketDesc, BucketDir, Supply, take_object, page_of, put_object, free_chain}

-- How often `p` is in the list.
unfoldable pub count : ℕ → List ℕ → ℕ
count p [] = 0
count p (x ∷ xs) = (if x == p then 1 else 0) + count p xs

pub count-append : (p : ℕ) (xs ys : List ℕ) → count p (xs ++ ys) ≡ count p xs + count p ys
unfolding count
count-append p [] ys = omega arith
count-append p (x ∷ xs) ys = ground (arith, count-append p xs ys)

-- The free objects lie in the page `page`.
unfoldable pub AllInPage : ℕ → List ℕ → Type 0
AllInPage page [] = Unit {0}
AllInPage page (x ∷ xs) = (page_of x ≡ page) × AllInPage page xs

-- A descriptor in a chain: its free objects are in its page, and between 1 and 256 are in use.
pub record IsBucket (d : BucketDesc) : Type 0 where
  pub free_in_page : AllInPage d.page d.freeptr
  pub in_use : 1 ≤ d.refcnt
  pub not_over : d.refcnt ≤ 256

unfoldable pub AllBuckets : List BucketDesc → Type 0
AllBuckets [] = Unit {0}
AllBuckets (d ∷ rest) = IsBucket d × AllBuckets rest

unfoldable pub AllChains : BucketDir → Type 0
AllChains [] = Unit {0}
AllChains ((size, chain) ∷ dirs) = AllBuckets chain × AllChains dirs

unfoldable pub chain_pages : List BucketDesc → List ℕ
chain_pages [] = []
chain_pages (d ∷ rest) = d.page ∷ chain_pages rest

unfoldable pub pages : BucketDir → List ℕ
pages [] = []
pages ((size, chain) ∷ dirs) = chain_pages chain ++ pages dirs

unfoldable pub AllAligned : List ℕ → Type 0
AllAligned [] = Unit {0}
AllAligned (p ∷ ps) = (page_of p ≡ p) × AllAligned ps

-- No page is in two chains, or twice in one, or free as well, and there is a descriptor to spare.
pub record IsHeap (dirs : BucketDir) (s : Supply) : Type 0 where
  pub chains : AllChains dirs
  pub distinct : (p : ℕ) → count p (pages dirs) + count p s.pages ≤ 1
  pub aligned : AllAligned s.pages
  pub ready : 1 ≤ s.descs

-- A page that is in no descriptor of a chain is not found.
pub free_chain_miss :
    (chain : List BucketDesc) (x : ℕ)
    → count (page_of x) (chain_pages chain) ≡ 0
    → free_chain x chain ≡ none
unfolding free_chain count chain_pages
free_chain_miss [] x h = refl
free_chain_miss (d ∷ rest) x h =
    let later : count (page_of x) (chain_pages rest) ≡ 0 = ground (arith, h) in
    ground (arith, h, free_chain_miss rest x later)

-- What a chain gives comes from a page of the chain, and goes back to its place.
unfoldable pub Undone : List BucketDesc → Option (ℕ × List BucketDesc) → Type 0
Undone chain none = Unit {0}
Undone chain (some (x, chain')) =
    (free_chain x chain' ≡ some (chain, none)) × (1 ≤ count (page_of x) (chain_pages chain))

put_object_back :
    (d : BucketDesc) (x : ℕ) (free : List ℕ) (rest : List BucketDesc)
    → IsBucket d
    → d.freeptr ≡ x ∷ free
    → put_object x (record d { freeptr = free; refcnt = (d.refcnt + 1) % 2 ^ 16 }) rest
      ≡ (d ∷ rest, none)
unfolding put_object
put_object_back d x free rest b e = ground (arith, e, b.in_use, b.not_over)

take_object_nil : take_object [] ≡ none
unfolding take_object
take_object_nil = refl

-- One step of each search.
module _ (d : BucketDesc) (rest : List BucketDesc) where
  take_here :
      (x : ℕ) (free : List ℕ)
      → d.freeptr ≡ x ∷ free
      → take_object (d ∷ rest)
        ≡ some (x, record d { freeptr = free; refcnt = (d.refcnt + 1) % 2 ^ 16 } ∷ rest)
  unfolding take_object
  take_here x free e = ground (arith, e)

  take_nowhere : d.freeptr ≡ [] → take_object rest ≡ none → take_object (d ∷ rest) ≡ none
  unfolding take_object
  take_nowhere e h = ground (arith, e, h)

  take_there :
      (x : ℕ) (rest' : List BucketDesc)
      → d.freeptr ≡ []
      → take_object rest ≡ some (x, rest')
      → take_object (d ∷ rest) ≡ some (x, d ∷ rest')
  unfolding take_object
  take_there x rest' e h = ground (arith, e, h)

  pub free_here :
      (x : ℕ) → d.page ≡ page_of x → free_chain x (d ∷ rest) ≡ some (put_object x d rest)
  unfolding free_chain
  free_here x e = ground (arith, e)

  free_there :
      (x : ℕ) (rest' : List BucketDesc) (page : Option ℕ)
      → d.page ≢ page_of x
      → free_chain x rest ≡ some (rest', page)
      → free_chain x (d ∷ rest) ≡ some (d ∷ rest', page)
  unfolding free_chain
  free_there x rest' page e h = ground (arith, e, h)

take_first :
    (d : BucketDesc) (rest : List BucketDesc) (x : ℕ) (free : List ℕ)
    → IsBucket d
    → d.freeptr ≡ x ∷ free
    → Undone (d ∷ rest) (take_object (d ∷ rest))
unfolding Undone chain_pages count AllInPage
take_first d rest x free b e =
    let here : AllInPage d.page (x ∷ free) = subst (λ l. AllInPage d.page l) e b.free_in_page in
    let d' = record d { freeptr = free; refcnt = (d.refcnt + 1) % 2 ^ 16 } in
    rw (take_here d rest x free e) (
      free_here d' rest x (sym here.0) ∙ ap some (put_object_back d x free rest b e),
      ground (arith, here.0),
    )

take_later :
    (d : BucketDesc) (rest : List BucketDesc) (o : Option (ℕ × List BucketDesc))
    → d.freeptr ≡ []
    → ((p : ℕ) → count p (chain_pages (d ∷ rest)) ≤ 1)
    → take_object rest ≡ o
    → Undone rest o
    → Undone (d ∷ rest) (take_object (d ∷ rest))
unfolding Undone chain_pages count
take_later d rest none e u t h = rw (take_nowhere d rest e t) tt
take_later d rest (some (x, rest')) e u t (h, k) =
    let apart : d.page ≢ page_of x = λ q. absurd (ground (arith, u (page_of x), k, q)) in
    rw (take_there d rest x rest' e t) (free_there d rest' x rest none apart h, omega (arith, k))

take_step :
    (d : BucketDesc) (rest : List BucketDesc) (free : List ℕ)
    → d.freeptr ≡ free
    → IsBucket d
    → ((p : ℕ) → count p (chain_pages (d ∷ rest)) ≤ 1)
    → Undone rest (take_object rest)
    → Undone (d ∷ rest) (take_object (d ∷ rest))
take_step d rest [] e b u h = take_later d rest (take_object rest) e u refl h
take_step d rest (x ∷ free) e b u h = take_first d rest x free b e

pub take_object-Undone :
    (chain : List BucketDesc)
    → AllBuckets chain
    → ((p : ℕ) → count p (chain_pages chain) ≤ 1)
    → Undone chain (take_object chain)
unfolding AllBuckets chain_pages count Undone
take_object-Undone [] v u = rw take_object_nil tt
take_object-Undone (d ∷ rest) (b, v) u =
    take_step d rest d.freeptr refl b u (take_object-Undone rest v (λ p. omega (arith, u p)))
