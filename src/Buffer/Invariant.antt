-- ===== src/Buffer/Invariant.antt =====
-- fs/buffer.c: what holds of the queues of the cache.
use mathlib.Core.Path.{subst}
use linux.Common.{
  ℕ, ◌<◌, Bool, true, false, not, ◌&&◌, ◌||◌, none, some, List, [], ◌∷◌, ◌++◌, ◌==◌, ◌≡◌, ◌≢◌, sym,
  ap, ap₂, ◌∙◌, arith, ℕ_discrete, Bool-cases, inl, inr,
}
use linux.Buffer.{Head, Cache, hashfn, remove}
use linux.Buffer.Queues.{is_block, find_in}

-- Does a queue hold the buffer?
abbrev pub member : ℕ → List ℕ → Bool
member b [] = false
member b (x ∷ xs) = x == b || member b xs

abbrev pub queue_of : Cache → ℕ → List ℕ
queue_of c i = c.hash_table (hashfn (c.head i).b_dev (c.head i).b_blocknr)

-- The free list and the hash queues hold buffers only; each buffer with a device stands in the hash
-- queue of its block, which hold nothing else; and no two buffers hold one block.
pub record IsConsistent (n : ℕ) (c : Cache) : Type 0 where
  pub free : (i : ℕ) → member i c.free_list ≡ true → i < n
  pub queued : (i : ℕ) → i < n → (c.head i).b_dev ≢ 0 → member i (queue_of c i) ≡ true
  pub in_range : (h i : ℕ) → member i (c.hash_table h) ≡ true → i < n
  pub has_device : (h i : ℕ) → member i (c.hash_table h) ≡ true → (c.head i).b_dev ≢ 0
  pub in_place :
      (h i : ℕ)
      → member i (c.hash_table h) ≡ true
      → hashfn (c.head i).b_dev (c.head i).b_blocknr ≡ h
  pub unique :
      (i j : ℕ)
      → i < n
      → j < n
      → (c.head i).b_dev ≢ 0
      → (c.head i).b_dev ≡ (c.head j).b_dev
      → (c.head i).b_blocknr ≡ (c.head j).b_blocknr
      → i ≡ j

-- The queues and the blocks of the buffers are as before.
pub record SameBlocks (c c' : Cache) : Type 0 where
  pub same_dev : (i : ℕ) → (c'.head i).b_dev ≡ (c.head i).b_dev
  pub same_blocknr : (i : ℕ) → (c'.head i).b_blocknr ≡ (c.head i).b_blocknr
  pub same_free : c'.free_list ≡ c.free_list
  pub same_hash : c'.hash_table ≡ c.hash_table

pub SameBlocks-IsConsistent :
    {n : ℕ} {c c' : Cache} → SameBlocks c c' → IsConsistent n c → IsConsistent n c'
SameBlocks-IsConsistent {n} {c} {c'} s v = record {
  free = λ i m. v.free i (ap (member i) (sym s.same_free) ∙ m);
  queued = λ i l d.
      ap₂ (λ t k. member i (t k)) s.same_hash (ap₂ hashfn (s.same_dev i) (s.same_blocknr i))
      ∙ v.queued i l (λ z. d (s.same_dev i ∙ z));
  in_range = λ h i m. v.in_range h i (ap (λ t. member i (t h)) (sym s.same_hash) ∙ m);
  has_device = λ h i m e.
      v.has_device h i (ap (λ t. member i (t h)) (sym s.same_hash) ∙ m) (sym (s.same_dev i) ∙ e);
  in_place = λ h i m.
      ap₂ hashfn (s.same_dev i) (s.same_blocknr i)
      ∙ v.in_place h i (ap (λ t. member i (t h)) (sym s.same_hash) ∙ m);
  unique = λ i j l k d e f.
      v.unique i j l k (λ z. d (s.same_dev i ∙ z)) (sym (s.same_dev i) ∙ e ∙ s.same_dev j)
        (sym (s.same_blocknr i) ∙ f ∙ s.same_blocknr j);
}

pub member-remove : (i b : ℕ) (xs : List ℕ) → member i (remove b xs) ≡ (not (i == b) && member i xs)
member-remove i b [] = ground arith
member-remove i b (x ∷ xs) = ground (arith, member-remove i b xs)

pub member-append : (i b : ℕ) (xs : List ℕ) → member i (xs ++ b ∷ []) ≡ (b == i || member i xs)
member-append i b [] = ground arith
member-append i b (x ∷ xs) = ground (arith, member-append i b xs)

-- A search that fails has seen no buffer of the block.
pub find_in-none :
    (head : ℕ → Head) (dev block : ℕ) (bhs : List ℕ) (i : ℕ)
    → find_in head dev block bhs ≡ none
    → member i bhs ≡ true
    → is_block dev block (head i) ≡ false
unfolding find_in
find_in-none head dev block [] i e m = cc
find_in-none head dev block (b ∷ bs) i e m = elim (Bool-cases (is_block dev block (head b))) [
  | inl f ↦ absurd (ground arith)
  | inr f ↦ elim (ℕ_discrete b i) [
    | yes p ↦ subst (λ k. is_block dev block (head k) ≡ false) p f
    | no p ↦ find_in-none head dev block bs i (ground arith) (ground arith)
  ]
]

pub find_in-some :
    (head : ℕ → Head) (dev block : ℕ) (bhs : List ℕ) (i : ℕ)
    → find_in head dev block bhs ≡ some i
    → (member i bhs ≡ true) × (is_block dev block (head i) ≡ true)
unfolding find_in
find_in-some head dev block [] i e = absurd (ground arith)
find_in-some head dev block (b ∷ bs) i e = elim (Bool-cases (is_block dev block (head b))) [
  | inl f ↦
      let p : b ≡ i = ground arith in
      (ground arith, ap (λ k. is_block dev block (head k)) (sym p) ∙ f)
  | inr f ↦ let r = find_in-some head dev block bs i (ground arith) in (ground (arith, r.0), r.1)
]
