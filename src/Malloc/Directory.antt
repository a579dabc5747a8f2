-- ===== src/Malloc/Directory.antt =====
-- `free_s` undoes `malloc`.
use mathlib.Core.Path.{subst}
use linux.Common.{
  ℕ, ◌+◌, ◌-◌, ◌/◌, ◌≤◌, Option, none, some, List, [], ◌∷◌, leb, ◌≡◌, refl, ap, sym, ◌∙◌, arith,
  Bool-cases, inl, inr, Option-cases,
}
use linux.Malloc.{
  BucketDesc, BucketDir, Supply, Outcome, ◌>>=◌, new_bucket, bucket_page, take_object, malloc_chain,
  malloc, page_of, put_object, free_chain, give_back, free_s, page_size, objects,
}
use linux.Malloc.Buckets.{
  AllBuckets, AllChains, chain_pages, pages, AllAligned, IsHeap, count, count-append, Undone,
  free_chain_miss, take_object-Undone, free_here,
}

-- One step of the search through the directory.
module _ (size obj : ℕ) (chain : List BucketDesc) (dirs : BucketDir) (s : Supply) where
  free_s_here :
      (given : ℕ) (chain' : List BucketDesc) (page : Option ℕ)
      → given ≤ size
      → free_chain obj chain ≡ some (chain', page)
      → free_s obj given ((size, chain) ∷ dirs) s
        ≡ Outcome.done ((size, chain') ∷ dirs, give_back page s)
  unfolding free_s
  free_s_here given chain' page l e = ground (arith, e)

  free_s_there :
      (given : ℕ) (dirs' : BucketDir) (s' : Supply)
      → free_chain obj chain ≡ none
      → free_s obj given dirs s ≡ Outcome.done (dirs', s')
      → free_s obj given ((size, chain) ∷ dirs) s ≡ Outcome.done ((size, chain) ∷ dirs', s')
  unfolding free_s
  free_s_there given dirs' s' e h = ground (arith, e, h)

  malloc_chain_old :
      (x : ℕ) (chain' : List BucketDesc)
      → take_object chain ≡ some (x, chain')
      → malloc_chain size chain s ≡ Outcome.done (x, chain', s)
  unfolding malloc_chain
  malloc_chain_old x chain' e = ground (arith, e)

  -- The descriptor of a new bucket in the page `p`, whose first object is in use.
  abbrev fresh : ℕ → BucketDesc
  fresh p = record {
    page = p;
    freeptr = objects (page_size / size - 1) size (p + size);
    refcnt = 1;
    bucket_size = size;
  }

  malloc_chain_new :
      (p : ℕ) (ps : List ℕ)
      → take_object chain ≡ none
      → s.pages ≡ p ∷ ps
      → 1 ≤ s.descs
      → malloc_chain size chain s
        ≡ Outcome.done (p, fresh p ∷ chain, record { pages = ps; descs = s.descs - 1 })
  unfolding malloc_chain new_bucket bucket_page
  malloc_chain_new p ps e h n = ground (arith, e, h, n)

  malloc_chain_full :
      take_object chain ≡ none
      → s.pages ≡ []
      → 1 ≤ s.descs
      → malloc_chain size chain s ≡ Outcome.panicked
  unfolding malloc_chain new_bucket bucket_page
  malloc_chain_full e h n = ground (arith, e, h, n)

given_back :
    (s : Supply) (p : ℕ) (ps : List ℕ)
    → s.pages ≡ p ∷ ps
    → 1 ≤ s.descs
    → give_back (some p) (record { pages = ps; descs = s.descs - 1 }) ≡ s
unfolding give_back
given_back s p ps h n = ground (arith, h, n)

put_fresh :
    (d : BucketDesc) (x : ℕ) (rest : List BucketDesc)
    → d.refcnt ≡ 1
    → put_object x d rest ≡ (rest, some d.page)
unfolding put_object
put_fresh d x rest e = ground (arith, e)

-- What the chain of one size gives, where a new bucket may be needed, goes back, too.
unfoldable Returns :
    ℕ → ℕ → List BucketDesc → BucketDir → Supply → Outcome (ℕ × List BucketDesc × Supply) → Type 0
Returns given size chain dirs s Outcome.panicked = Unit {0}
Returns given size chain dirs s (Outcome.done (x, chain', s')) =
    (free_s x given ((size, chain') ∷ dirs) s' ≡ Outcome.done ((size, chain) ∷ dirs, s))
    × (1 ≤ count (page_of x) (chain_pages chain) + count (page_of x) s.pages)

new-Returns :
    (given size : ℕ) (chain : List BucketDesc) (dirs : BucketDir) (s : Supply) (ps : List ℕ)
    → given ≤ size
    → take_object chain ≡ none
    → s.pages ≡ ps
    → 1 ≤ s.descs
    → AllAligned s.pages
    → Returns given size chain dirs s (malloc_chain size chain s)
unfolding Returns count AllAligned
new-Returns given size chain dirs s [] l e h n al =
    rw (malloc_chain_full size 0 chain dirs s e h n) tt
new-Returns given size chain dirs s (p ∷ ps) l e h n al =
    let al' : AllAligned (p ∷ ps) = subst AllAligned h al in
    let d = fresh size 0 chain dirs s p in
    let own : 1 ≤ count (page_of p) (p ∷ ps) = ground (arith, al'.0) in
    let free_counted : 1 ≤ count (page_of p) s.pages =
      subst (λ l. 1 ≤ count (page_of p) l) (sym h) own in
    let left : Supply = record { pages = ps; descs = s.descs - 1 } in
    let back : give_back (some p) left ≡ s = given_back s p ps h n in
    rw (malloc_chain_new size 0 chain dirs s p ps e h n) (
      free_s_here size p (d ∷ chain) dirs left given chain (some p) l
            (free_here d chain p (sym al'.0) ∙ ap some (put_fresh d p chain refl))
          ∙ ap (λ s. Outcome.done ((size, chain) ∷ dirs, s)) back,
      omega (arith, free_counted),
    )

malloc_chain-Returns :
    (given size : ℕ) (chain : List BucketDesc) (dirs : BucketDir) (s : Supply)
    → given ≤ size
    → AllBuckets chain
    → ((p : ℕ) → count p (chain_pages chain) ≤ 1)
    → 1 ≤ s.descs
    → AllAligned s.pages
    → Returns given size chain dirs s (malloc_chain size chain s)
unfolding Returns Undone give_back
malloc_chain-Returns given size chain dirs s l v u n al = elim (Option-cases (take_object chain)) [
  | inl e ↦ new-Returns given size chain dirs s s.pages l e refl n al
  | inr ((x, chain'), e) ↦
      let (h, k) : Undone chain (some (x, chain')) =
        subst (Undone chain) e (take_object-Undone chain v u) in
      rw (malloc_chain_old size x chain dirs s x chain' e)
        (free_s_here size x chain' dirs s given chain none l h, omega (arith, k))
]

unfoldable Restored : ℕ → BucketDir → Supply → Outcome (ℕ × BucketDir × Supply) → Type 0
Restored given dirs s Outcome.panicked = Unit {0}
Restored given dirs s (Outcome.done (x, dirs', s')) =
    (free_s x given dirs' s' ≡ Outcome.done (dirs, s))
    × (1 ≤ count (page_of x) (pages dirs) + count (page_of x) s.pages)

module _ (given size : ℕ) (chain : List BucketDesc) (dirs : BucketDir) (s : Supply) where
  -- From the chain of the first size.
  here-Restored :
      (r : Outcome (ℕ × List BucketDesc × Supply))
      → Returns given size chain dirs s r
      → Restored given
          ((size, chain) ∷ dirs)
          s
          (r >>= λ (x, chain', s'). Outcome.done (x, (size, chain') ∷ dirs, s'))
  unfolding Returns Restored pages
  here-Restored Outcome.panicked h = tt
  here-Restored (Outcome.done (x, chain', s')) (h, k) =
      (h, omega (arith, k, count-append (page_of x) (chain_pages chain) (pages dirs)))

  -- From a later one.
  there-Restored :
      (r : Outcome (ℕ × BucketDir × Supply))
      → ((p : ℕ) → count p (pages ((size, chain) ∷ dirs)) + count p s.pages ≤ 1)
      → Restored given dirs s r
      → Restored given
          ((size, chain) ∷ dirs)
          s
          (r >>= λ (x, dirs', s'). Outcome.done (x, (size, chain) ∷ dirs', s'))
  unfolding Restored pages
  there-Restored Outcome.panicked u h = tt
  there-Restored (Outcome.done (x, dirs', s')) u (h, k) =
      let sum = count-append (page_of x) (chain_pages chain) (pages dirs) in
      let miss : count (page_of x) (chain_pages chain) ≡ 0 = omega (arith, u (page_of x), k, sum) in
      (
        free_s_there size x chain dirs' s' given dirs s (free_chain_miss chain x miss) h,
        omega (arith, k, sum),
      )

malloc-Restored :
    (len given : ℕ) (dirs : BucketDir) (s : Supply)
    → given ≤ len
    → IsHeap dirs s
    → Restored given dirs s (malloc len dirs s)
unfolding malloc Restored AllChains pages
malloc-Restored len given [] s l w = tt
malloc-Restored len given ((size, chain) ∷ dirs) s l w = elim (Bool-cases (leb len size)) [
  | inl e ↦
      rw (e, malloc)
        (here-Restored given size chain dirs s (malloc_chain size chain s) (
          malloc_chain-Returns given size chain dirs s (ground (arith, e)) w.chains.0
            (λ p. omega (arith, w.distinct p, count-append p (chain_pages chain) (pages dirs)))
            w.ready w.aligned))
  | inr e ↦
      let later : IsHeap dirs s = record {
        chains = w.chains.1;
        distinct =
            λ p. omega (arith, w.distinct p, count-append p (chain_pages chain) (pages dirs));
        aligned = w.aligned;
        ready = w.ready;
      } in
      rw (e, malloc)
        (there-Restored given size chain dirs s (malloc len dirs s) w.distinct
          (malloc-Restored len given dirs s l later))
]

-- In a directory where no page is in two places, every page is aligned, every descriptor has its
-- free objects in its page and between 1 and 256 in use, and a descriptor is to spare: what `malloc`
-- gives out for `len` bytes, `free_s` takes back without a trace, whether the object is from an old
-- page or a new one, and whether it is told the size or any size from 0 to `len`.
pub malloc-free_s :
    (len given x : ℕ) (dirs dirs' : BucketDir) (s s' : Supply)
    → given ≤ len
    → IsHeap dirs s
    → malloc len dirs s ≡ Outcome.done (x, dirs', s')
    → free_s x given dirs' s' ≡ Outcome.done (dirs, s)
unfolding Restored
malloc-free_s len given x dirs dirs' s s' l w e =
    (subst (Restored given dirs s) e (malloc-Restored len given dirs s l w)).0
