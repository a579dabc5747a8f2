-- ===== src/Buffer/Claim.antt =====
-- fs/buffer.c: the queues after a buffer has been claimed for a block.
use mathlib.Core.Path.{subst}
use linux.Common.{
  ℕ, ◌<◌, true, false, not, ◌&&◌, ◌||◌, none, ◌∷◌, ◌==◌, if◌then◌else◌, ◌≡◌, ◌≢◌, sym, ap, ap₂, ◌∙◌,
  arith, ℕ_discrete, Bool-cases, inl, inr, ==_iff,
}
use linux.Buffer.{Head, Cache, hashfn, remove}
use linux.Buffer.Queues.{claim, is_block, find_buffer, remove_from_queues, insert_into_queues}
use linux.Buffer.Invariant.{
  member, queue_of, IsConsistent, member-remove, member-append, find_in-none,
}

pub is_block-eq :
    (dev block : ℕ) (h : Head) → h.b_dev ≡ dev → h.b_blocknr ≡ block → is_block dev block h ≡ true
unfolding is_block
is_block-eq dev block h d b = ground arith

pub is_block-inv :
    (dev block : ℕ) (h : Head)
    → is_block dev block h ≡ true
    → (h.b_dev ≡ dev) × (h.b_blocknr ≡ block)
unfolding is_block
is_block-inv dev block h e = ground arith

-- The queues after a claim: the buffer has moved to the queue of its new block.
module _ (n dev block bh : ℕ) (c : Cache) (v : IsConsistent n c) (some_dev : dev ≢ 0) where
  claimed : Cache
  claimed = claim dev block bh c

  claimed-head_self : ((claimed.head bh).b_dev ≡ dev) × ((claimed.head bh).b_blocknr ≡ block)
  unfolding claimed claim remove_from_queues insert_into_queues
  claimed-head_self = ground arith

  claimed-head_ne :
      (i : ℕ)
      → i ≢ bh
      → ((claimed.head i).b_dev ≡ (c.head i).b_dev)
        × ((claimed.head i).b_blocknr ≡ (c.head i).b_blocknr)
  unfolding claimed claim remove_from_queues insert_into_queues
  claimed-head_ne i ne = ground arith

  claimed-free :
      (i : ℕ) → member i claimed.free_list ≡ (bh == i || not (i == bh) && member i c.free_list)
  unfolding claimed claim remove_from_queues insert_into_queues
  claimed-free i =
      member-append i bh (remove bh c.free_list)
      ∙ ap (λ b. bh == i || b) (member-remove i bh c.free_list)

  claimed-hash :
      (h : ℕ)
      → claimed.hash_table h ≡ (
          if h == hashfn dev block
          then bh
            ∷ (if h == hashfn (c.head bh).b_dev (c.head bh).b_blocknr
                then remove bh (c.hash_table h)
                else c.hash_table h)
          else if h == hashfn (c.head bh).b_dev (c.head bh).b_blocknr
          then remove bh (c.hash_table h)
          else c.hash_table h)
  unfolding claimed claim remove_from_queues insert_into_queues
  claimed-hash h = ground arith

  claimed-member_ne :
      (h i : ℕ) → i ≢ bh → member i (claimed.hash_table h) ≡ member i (c.hash_table h)
  claimed-member_ne h i ne =
      ap (member i) (claimed-hash h) ∙ ground (arith, member-remove i bh (c.hash_table h))

  -- The buffer stood in no queue but its block's.
  elsewhere :
      (h : ℕ)
      → h ≢ hashfn (c.head bh).b_dev (c.head bh).b_blocknr
      → member bh (c.hash_table h) ≡ false
  elsewhere h ne = elim (Bool-cases (member bh (c.hash_table h))) [
    | inl m ↦ absurd (ne (sym (v.in_place h bh m)))
    | inr m ↦ m
  ]

  claimed-member_self : (h : ℕ) → member bh (claimed.hash_table h) ≡ (h == hashfn dev block)
  claimed-member_self h =
      ap (member bh) (claimed-hash h)
      ∙ ground (arith, member-remove bh bh (c.hash_table h), elsewhere h)

  claimed-member_at : member bh (claimed.hash_table (hashfn dev block)) ≡ true
  claimed-member_at = claimed-member_self (hashfn dev block) ∙ ground arith

  module _ (fresh : find_buffer dev block c ≡ none) (in_range : bh < n) where
    -- No other buffer holds the block.
    alone : (i : ℕ) → i < n → (c.head i).b_dev ≡ dev → (c.head i).b_blocknr ≡ block → ⊥
    unfolding find_buffer
    alone i l d b =
        let at_i : member i (queue_of c i) ≡ true = v.queued i l (λ z. some_dev (sym d ∙ z)) in
        let at_block : member i (c.hash_table (hashfn dev block)) ≡ true =
          ap (λ k. member i (c.hash_table k)) (sym (ap₂ hashfn d b)) ∙ at_i in
        let no : is_block dev block (c.head i) ≡ false =
          find_in-none c.head dev block (c.hash_table (hashfn dev block)) i fresh at_block in
        let is_ : is_block dev block (c.head i) ≡ true = is_block-eq dev block (c.head i) d b in cc

    claimed_unique :
        (i j : ℕ)
        → i < n
        → j < n
        → (claimed.head i).b_dev ≢ 0
        → (claimed.head i).b_dev ≡ (claimed.head j).b_dev
        → (claimed.head i).b_blocknr ≡ (claimed.head j).b_blocknr
        → i ≡ j
    claimed_unique i j l k d e f = elim (ℕ_discrete i bh) [
      | yes p ↦ elim (ℕ_discrete j bh) [
        | yes q ↦ p ∙ sym q
        | no q ↦ absurd (
            alone j k
              (sym (claimed-head_ne j q).0
                ∙ sym e
                ∙ ap (λ x. (claimed.head x).b_dev) p
                ∙ claimed-head_self.0)
              (sym (claimed-head_ne j q).1
                ∙ sym f
                ∙ ap (λ x. (claimed.head x).b_blocknr) p
                ∙ claimed-head_self.1))
      ]
      | no p ↦ elim (ℕ_discrete j bh) [
        | yes q ↦ absurd (
            alone i l
              (sym (claimed-head_ne i p).0
                ∙ e
                ∙ ap (λ x. (claimed.head x).b_dev) q
                ∙ claimed-head_self.0)
              (sym (claimed-head_ne i p).1
                ∙ f
                ∙ ap (λ x. (claimed.head x).b_blocknr) q
                ∙ claimed-head_self.1))
        | no q ↦
            v.unique i j l k (λ z. d ((claimed-head_ne i p).0 ∙ z))
              (sym (claimed-head_ne i p).0 ∙ e ∙ (claimed-head_ne j q).0)
              (sym (claimed-head_ne i p).1 ∙ f ∙ (claimed-head_ne j q).1)
      ]
    ]

    claimed-queued :
        (i : ℕ) → i < n → (claimed.head i).b_dev ≢ 0 → member i (queue_of claimed i) ≡ true
    claimed-queued i l d = elim (ℕ_discrete i bh) [
      | yes p ↦
          subst (λ x. member x (queue_of claimed x) ≡ true) (sym p)
            (ap (λ k. member bh (claimed.hash_table k))
                (ap₂ hashfn claimed-head_self.0 claimed-head_self.1)
              ∙ claimed-member_at)
      | no p ↦
          ap (λ k. member i (claimed.hash_table k))
            (ap₂ hashfn (claimed-head_ne i p).0 (claimed-head_ne i p).1)
          ∙ claimed-member_ne (hashfn (c.head i).b_dev (c.head i).b_blocknr) i p
          ∙ v.queued i l (λ z. d ((claimed-head_ne i p).0 ∙ z))
    ]

    claimed-in_place :
        (h i : ℕ)
        → member i (claimed.hash_table h) ≡ true
        → hashfn (claimed.head i).b_dev (claimed.head i).b_blocknr ≡ h
    claimed-in_place h i m = elim (ℕ_discrete i bh) [
      | yes p ↦
          let at : (h == hashfn dev block) ≡ true =
            sym (claimed-member_self h) ∙ ap (λ x. member x (claimed.hash_table h)) (sym p) ∙ m in
          ap (λ x. hashfn (claimed.head x).b_dev (claimed.head x).b_blocknr) p
          ∙ ap₂ hashfn claimed-head_self.0 claimed-head_self.1
          ∙ sym ((==_iff h (hashfn dev block)).0 at)
      | no p ↦
          ap₂ hashfn (claimed-head_ne i p).0 (claimed-head_ne i p).1
          ∙ v.in_place h i (sym (claimed-member_ne h i p) ∙ m)
    ]

    claimed-has_device :
        (h i : ℕ) → member i (claimed.hash_table h) ≡ true → (claimed.head i).b_dev ≢ 0
    claimed-has_device h i m z = elim (ℕ_discrete i bh) [
      | yes p ↦ some_dev (sym claimed-head_self.0 ∙ ap (λ x. (claimed.head x).b_dev) (sym p) ∙ z)
      | no p ↦
          v.has_device h i (sym (claimed-member_ne h i p) ∙ m) (sym (claimed-head_ne i p).0 ∙ z)
    ]

    claimed-in_range : (h i : ℕ) → member i (claimed.hash_table h) ≡ true → i < n
    claimed-in_range h i m = elim (ℕ_discrete i bh) [
      | yes p ↦ omega (arith, p, in_range)
      | no p ↦ v.in_range h i (sym (claimed-member_ne h i p) ∙ m)
    ]

    -- A free buffer that is claimed for a block that no buffer holds leaves the queues consistent.
    pub claim-IsConsistent : IsConsistent n (claim dev block bh c)
    unfolding claimed
    claim-IsConsistent = record {
      free = λ i m. ground (arith, claimed-free i, v.free i);
      queued = claimed-queued;
      in_range = claimed-in_range;
      has_device = claimed-has_device;
      in_place = claimed-in_place;
      unique = claimed_unique;
    }
