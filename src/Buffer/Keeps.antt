-- ===== src/Buffer/Keeps.antt =====
-- fs/buffer.c: what the functions on the cache keep, whatever happens while they sleep.
use linux.Common.{
  ℕ, Bool, true, false, ◌||◌, Option, none, some, List, [], ◌∷◌, ◌==◌, if◌then◌else◌, ◌≡◌, refl,
  arith, Bool-cases, Option-cases, inl, inr,
}
use linux.Blk.{find_empty, limit, read, write, reada, writea}
use linux.Buffer.{Head, Cache, set_head}
use linux.Buffer.Steps.{Result, Step, and_then, return, panic, modify, sleep_on, on_null}
use linux.Buffer.Queues.{wait_on_buffer, locks}
use linux.Buffer.Requests.{submit_entry, take_entry, locked_request, ll_rw_block}
use linux.Buffer.Invariant.{IsConsistent, SameBlocks, SameBlocks-IsConsistent}

-- No promise.
abbrev pub Any : {A : Type 0} → A → Cache → Type 0
Any a c = Unit {0}

module _ (n : ℕ) where
  -- Each of the states that the caller finds when it wakes up is consistent.
  unfoldable pub EachConsistent : List Cache → Type 0
  EachConsistent [] = Unit {0}
  EachConsistent (w ∷ ws) = IsConsistent n w × EachConsistent ws

  -- A call that returns leaves a consistent cache, with a result and a cache of which `P` holds.
  unfoldable pub Ensures : {A : Type 0} → (A → Cache → Type 0) → Result A → Type 0
  Ensures P (Result.done a ws c) = P a c × IsConsistent n c × EachConsistent ws
  Ensures P Result.asleep = Unit {0}
  Ensures P Result.panicked = Unit {0}
  Ensures P Result.no_fuel = Unit {0}

  -- A step started in a consistent cache.
  unfoldable pub Keeps : {A : Type 0} → (A → Cache → Type 0) → Step A → Type 0
  Keeps P m =
      (ws : List Cache) (c : Cache) → IsConsistent n c → EachConsistent ws → Ensures P (m ws c)

  pub and_then-Ensures :
      {A B : Type 0} (Q : A → Cache → Type 0) (P : B → Cache → Type 0) (r : Result A)
      (f : A → Step B)
      → Ensures Q r
      → ((a : A) (ws : List Cache) (c : Cache)
          → Q a c
          → IsConsistent n c
          → EachConsistent ws
          → Ensures P (f a ws c))
      → Ensures P (and_then r f)
  unfolding Ensures
  and_then-Ensures Q P (Result.done a ws c) f h k = k a ws c h.0 h.1 h.2
  and_then-Ensures Q P Result.asleep f h k = tt
  and_then-Ensures Q P Result.panicked f h k = tt
  and_then-Ensures Q P Result.no_fuel f h k = tt

  pub wait_on_buffer-Keeps : (bh : ℕ) → Keeps Any (wait_on_buffer bh)
  unfolding Keeps Ensures EachConsistent wait_on_buffer
  wait_on_buffer-Keeps bh [] c v e = elim (Bool-cases (c.head bh).b_lock) [
    | inl l ↦ rw l tt
    | inr l ↦ rw l (tt, v, e)
  ]
  wait_on_buffer-Keeps bh (w ∷ ws) c v e = elim (Bool-cases (c.head bh).b_lock) [
    | inl l ↦ rw l (wait_on_buffer-Keeps bh ws w e.0 e.1)
    | inr l ↦ rw l (tt, v, e)
  ]

  -- A change of a buffer that is not its block keeps the blocks of all.
  pub set_head-SameBlocks :
      (bh : ℕ) (h : Head) (c : Cache)
      → h.b_dev ≡ (c.head bh).b_dev
      → h.b_blocknr ≡ (c.head bh).b_blocknr
      → SameBlocks c (set_head bh h c)
  set_head-SameBlocks bh h c d b = record {
    same_dev = λ i. ground arith;
    same_blocknr = λ i. ground arith;
    same_free = refl;
    same_hash = refl;
  }

  pub sleep_on-Keeps : Keeps Any sleep_on
  unfolding Keeps Ensures EachConsistent
  sleep_on-Keeps [] c v e = tt
  sleep_on-Keeps (w ∷ ws) c v e = (tt, e.0, e.1)

  -- Branches.
  pub if-Keeps :
      {A : Type 0} (P : A → Cache → Type 0) (b : Bool) (m k : Step A)
      → Keeps P m
      → Keeps P k
      → Keeps P (if b then m else k)
  if-Keeps P true m k hm hk = hm
  if-Keeps P false m k hm hk = hk

  pub on_null-Keeps :
      {A B : Type 0} (P : B → Cache → Type 0) (o : Option A) (k : Step B) (f : A → Step B)
      → (o ≡ none → Keeps P k)
      → ((a : A) → o ≡ some a → Keeps P (f a))
      → Keeps P (on_null o k f)
  on_null-Keeps P none k f hk hf = hk refl
  on_null-Keeps P (some a) k f hk hf = hf a refl

  pub return-Keeps : {A : Type 0} (a : A) → Keeps Any (return a)
  unfolding Keeps Ensures
  return-Keeps a ws c v e = (tt, v, e)

  pub panic-Keeps : (A : Type 0) → Keeps {A = A} Any panic
  unfolding Keeps Ensures
  panic-Keeps A ws c v e = tt

  pub modify-Keeps : (f : Cache → Cache) → ((c : Cache) → SameBlocks c (f c)) → Keeps Any (modify f)
  unfolding Keeps Ensures
  modify-Keeps f h ws c v e = (tt, SameBlocks-IsConsistent (h c) v, e)

  submit_entry-SameBlocks : (rw bh k : ℕ) (c : Cache) → SameBlocks c (submit_entry rw bh k c)
  unfolding submit_entry
  submit_entry-SameBlocks cmd bh k c = record {
    same_dev = λ i. ground arith;
    same_blocknr = λ i. ground arith;
    same_free = refl;
    same_hash = refl;
  }

  locks-SameBlocks : (b : Bool) (bh : ℕ) (c : Cache) → SameBlocks c (locks b bh c)
  locks-SameBlocks b bh c = set_head-SameBlocks bh (record (c.head bh) { b_lock = b }) c refl refl

  take_entry-Keeps : (cmd : ℕ) (rw_ahead : Bool) (bh : ℕ) → Keeps Any (take_entry cmd rw_ahead bh)
  unfolding Keeps Ensures EachConsistent take_entry
  take_entry-Keeps cmd rw_ahead bh [] c v e =
      elim (Option-cases (find_empty (limit cmd) c.request)) [
        | inr (k, f) ↦
            rw (f, take_entry)
              (tt, SameBlocks-IsConsistent (submit_entry-SameBlocks cmd bh k c) v, e)
        | inl f ↦
            rw (f, take_entry)
              (elim (Bool-cases rw_ahead) [
                | inl a ↦ rw a (tt, SameBlocks-IsConsistent (locks-SameBlocks false bh c) v, e)
                | inr a ↦ rw a tt
              ])
      ]
  take_entry-Keeps cmd rw_ahead bh (w ∷ ws) c v e =
      elim (Option-cases (find_empty (limit cmd) c.request)) [
        | inr (k, f) ↦
            rw (f, take_entry)
              (tt, SameBlocks-IsConsistent (submit_entry-SameBlocks cmd bh k c) v, e)
        | inl f ↦
            rw (f, take_entry)
              (elim (Bool-cases rw_ahead) [
                | inl a ↦ rw a (tt, SameBlocks-IsConsistent (locks-SameBlocks false bh c) v, e)
                | inr a ↦ rw a (take_entry-Keeps cmd rw_ahead bh ws w e.0 e.1)
              ])
      ]

  locked_request-Keeps :
      (cmd : ℕ) (rw_ahead : Bool) (bh : ℕ) → Keeps Any (locked_request cmd rw_ahead bh)
  unfolding Keeps locked_request
  locked_request-Keeps cmd rw_ahead bh ws c v e =
      and_then-Ensures Any Any (wait_on_buffer bh ws c) _ (wait_on_buffer-Keeps bh ws c v e)
        (λ a ws' c' q v' e'.
          let locked = locks true bh c' in
          let v'' : IsConsistent n locked =
            SameBlocks-IsConsistent (locks-SameBlocks true bh c') v' in
          if-Keeps Any _ (modify (locks false bh)) (take_entry cmd rw_ahead bh)
            (modify-Keeps (locks false bh) (locks-SameBlocks false bh))
            (take_entry-Keeps cmd rw_ahead bh) ws' locked v'' e')

  pub ll_rw_block-Keeps :
      (request_fn : ℕ → Bool) (cmd bh : ℕ) → Keeps Any (ll_rw_block request_fn cmd bh)
  unfolding Keeps ll_rw_block
  ll_rw_block-Keeps request_fn cmd bh ws c v e =
      let command =
        if cmd == reada || cmd == writea then (if cmd == reada then read else write) else cmd in
      let rw_ahead = cmd == reada || cmd == writea in
      if-Keeps Any _ (return tt) _ (return-Keeps tt)
        (if-Keeps Any _ panic (locked_request command rw_ahead bh) (panic-Keeps _)
          (locked_request-Keeps command rw_ahead bh))
        ws c v e
