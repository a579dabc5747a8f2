-- ===== src/Buffer/Ready.antt =====
-- fs/buffer.c: which buffer the walk along the free list takes.
use linux.Common.{
  ℕ, true, false, none, some, List, [], ◌∷◌, ◌++◌, ◌!=◌, ◌≡◌, ◌≢◌, refl, ◌⊎◌, inl, inr, Option,
  Bool-cases, ◌∙◌, arith,
}
use linux.Buffer.{Head}
use linux.Buffer.Queues.{choose, is_better, badness}

-- Every buffer of the list is in use, dirty or locked.
unfoldable pub NoneReady : (ℕ → Head) → List ℕ → Type 0
NoneReady head [] = Unit {0}
NoneReady head (b ∷ bs) =
    (((head b).b_count ≢ 0) ⊎ ((head b).b_dirt ≡ true) ⊎ ((head b).b_lock ≡ true))
    × NoneReady head bs

-- No candidate, or one that is dirty or locked.
unfoldable pub Weak : (ℕ → Head) → Option ℕ → Type 0
Weak head none = Unit {0}
Weak head (some b) = ((head b).b_dirt ≡ true) ⊎ ((head b).b_lock ≡ true)

Weak-beaten :
    (head : ℕ → Head) (best : Option ℕ) (bh : ℕ)
    → Weak head best
    → (head bh).b_dirt ≡ false
    → (head bh).b_lock ≡ false
    → is_better head bh best ≡ true
unfolding Weak is_better badness
Weak-beaten head none bh w d l = refl
Weak-beaten head (some b) bh (inl e) d l = ground arith
Weak-beaten head (some b) bh (inr e) d l = ground arith

-- The walk takes a buffer that is ready, whichever candidate that is not it has met before.
choose-ready :
    (head : ℕ → Head) (best : Option ℕ) (bh : ℕ) (rest : List ℕ)
    → Weak head best
    → (head bh).b_count ≡ 0
    → (head bh).b_dirt ≡ false
    → (head bh).b_lock ≡ false
    → choose head best (bh ∷ rest) ≡ some bh
unfolding choose badness
choose-ready head best bh rest w n d l = ground (arith, Weak-beaten head best bh w d l)

-- A candidate that is not ready leaves one that is not ready, either way.
choose-Weak :
    (head : ℕ → Head) (best : Option ℕ) (b : ℕ) (rest : List ℕ)
    → Weak head (some b)
    → (choose head best (b ∷ rest) ≡ choose head best rest)
      ⊎ (choose head best (b ∷ rest) ≡ choose head (some b) rest)
unfolding choose Weak badness
choose-Weak head best b rest (inl e) = elim (Bool-cases ((head b).b_count != 0)) [
  | inl u ↦ inl (rw (u, choose) refl)
  | inr u ↦ elim (Bool-cases (is_better head b best)) [
    | inl g ↦ inr (ground arith)
    | inr g ↦ inl (ground arith)
  ]
]
choose-Weak head best b rest (inr e) = elim (Bool-cases ((head b).b_count != 0)) [
  | inl u ↦ inl (rw (u, choose) refl)
  | inr u ↦ elim (Bool-cases (is_better head b best)) [
    | inl g ↦ inr (ground arith)
    | inr g ↦ inl (ground arith)
  ]
]

choose-used :
    (head : ℕ → Head) (best : Option ℕ) (b : ℕ) (rest : List ℕ)
    → (head b).b_count ≢ 0
    → choose head best (b ∷ rest) ≡ choose head best rest
unfolding choose
choose-used head best b rest u = ground arith

candidate-Weak :
    (head : ℕ → Head) (b : ℕ)
    → ((head b).b_dirt ≡ true) ⊎ ((head b).b_lock ≡ true)
    → Weak head (some b)
unfolding Weak
candidate-Weak head b x = x

pub none-Weak : (head : ℕ → Head) → Weak head none
unfolding Weak
none-Weak head = tt

pub choose-first :
    (head : ℕ → Head) (best : Option ℕ) (before : List ℕ) (bh : ℕ) (rest : List ℕ)
    → Weak head best
    → NoneReady head before
    → (head bh).b_count ≡ 0
    → (head bh).b_dirt ≡ false
    → (head bh).b_lock ≡ false
    → choose head best (before ++ bh ∷ rest) ≡ some bh
unfolding NoneReady
choose-first head best [] bh rest w u n d l = choose-ready head best bh rest w n d l
choose-first head best (b ∷ before) bh rest w (inl x, u) n d l =
    choose-used head best b (before ++ bh ∷ rest) x
    ∙ choose-first head best before bh rest w u n d l
choose-first head best (b ∷ before) bh rest w (inr x, u) n d l =
    let weak : Weak head (some b) = candidate-Weak head b x in
    elim (choose-Weak head best b (before ++ bh ∷ rest) weak) [
      | inl e ↦ e ∙ choose-first head best before bh rest w u n d l
      | inr e ↦ e ∙ choose-first head (some b) before bh rest weak u n d l
    ]
