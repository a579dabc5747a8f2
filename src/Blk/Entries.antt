-- ===== src/Blk/Entries.antt =====
-- The entries of the request table that `make_request` takes.
use linux.Common.{
  ℕ, ◌%◌, ◌≤◌, ◌<◌, zero, suc, Option, none, some, List, [], ◌∷◌, Bool, true, false, if◌then◌else◌,
  arith, ◌≡◌, ◌≢◌, refl, ap, sym, ◌∙◌, Bool-cases, inl, inr, ◌⊎◌, get_elem?, set, ℕ_discrete,
}
use linux.Blk.{
  Request, Device, Made, is_free, find_empty, limit, read, unlock_buffer, new_request, submit,
  take_entry,
}

up_to :
    (requests : List Request) (n i : ℕ)
    → i < suc n
    → is_free (get_elem? requests n) ≡ false
    → (i < n → is_free (get_elem? requests i) ≡ false)
    → is_free (get_elem? requests i) ≡ false
up_to requests n i l e h = elim (ℕ_discrete i n) [ yes q ↦ rw q e | no q ↦ h (omega (arith, q)) ]

-- The search for an entry finds the last free one of the first `n`, and finds none only if all of
-- them are taken.
pub find_empty_lem :
    (n : ℕ) (requests : List Request)
    → ((find_empty n requests ≡ none) × ((i : ℕ) → i < n → is_free (get_elem? requests i) ≡ false))
      ⊎ ((k : ℕ) × (find_empty n requests ≡ some k)
          × (k < n)
          × (is_free (get_elem? requests k) ≡ true)
          × ((i : ℕ) → k < i → i < n → is_free (get_elem? requests i) ≡ false))
unfolding find_empty
find_empty_lem zero requests = inl (refl, λ i h. absurd (omega arith))
find_empty_lem (suc n) requests = elim (Bool-cases (is_free (get_elem? requests n))) [
  | inl e ↦ inr (n, rw (e, find_empty) refl, omega arith, e, λ i h l. absurd (omega arith))
  | inr e ↦ elim (find_empty_lem n requests) [
    | inl (f, taken) ↦ inl (rw (e, find_empty) f, λ i l. up_to requests n i l e (taken i))
    | inr (k, f, l, free, taken) ↦
        inr
          (k, rw (e, find_empty) f, omega arith, free, λ i h m. up_to requests n i m e (taken i h))
  ]
]

-- The last third of the table holds reads only.
unfoldable pub HasRoom : Device → Type 0
HasRoom d =
    (i : ℕ) (r : Request)
    → 21 ≤ i
    → get_elem? d.requests i ≡ some r
    → is_free (some r) ≡ false
    → r.cmd ≡ read

-- The buffer is locked in each of the states.
unfoldable pub EachLocked : List Device → Type 0
EachLocked [] = Unit {0}
EachLocked (d ∷ ds) = (d.bh.b_lock ≡ true) × EachLocked ds

unfoldable pub EachHasRoom : List Device → Type 0
EachHasRoom [] = Unit {0}
EachHasRoom (d ∷ ds) = HasRoom d × EachHasRoom ds

set_self :
    (xs : List Request) (k : ℕ) (r : Request)
    → is_free (get_elem? xs k) ≡ true
    → get_elem? (set xs k r) k ≡ some r
unfolding is_free
set_self [] k r h = absurd (ground (arith, h))
set_self (x ∷ xs) zero r h = refl
set_self (x ∷ xs) (suc k) r h = set_self xs k r h

set_ne :
    (xs : List Request) (k i : ℕ) (r : Request) → k ≢ i → get_elem? (set xs k r) i ≡ get_elem? xs i
set_ne [] k i r h = refl
set_ne (x ∷ xs) zero zero r h = absurd (h refl)
set_ne (x ∷ xs) zero (suc i) r h = refl
set_ne (x ∷ xs) (suc k) zero r h = refl
set_ne (x ∷ xs) (suc k) (suc i) r h = set_ne xs k i r (λ e. h (ap suc e))

-- How a call for `rw` ends.
unfoldable pub IsMade : ℕ → Made → Type 0
IsMade rw (Made.dropped d) = HasRoom d
IsMade rw (Made.queued k d) =
    HasRoom d
    × (k < limit (rw % 2))
    × (get_elem? d.requests k ≡ some (new_request (rw % 2) d.bh))
    × (d.bh.b_lock ≡ true)
    × (d.bh.b_dirt ≡ false)
IsMade rw Made.asleep = rw < 2
IsMade rw Made.panicked = 3 < rw

read_of_limit : (c k : ℕ) → 21 ≤ k → k < limit c → c ≡ read
unfolding limit
read_of_limit c k h l = ground arith

abbrev cmd_of : Option Request → ℕ
cmd_of none = 0
cmd_of (some r) = r.cmd

submit-IsMade :
    (rw' c k : ℕ) (d : Device)
    → c ≡ rw' % 2
    → k < limit c
    → is_free (get_elem? d.requests k) ≡ true
    → d.bh.b_lock ≡ true
    → HasRoom d
    → IsMade rw' (Made.queued k (submit c k d))
unfolding IsMade submit HasRoom
submit-IsMade rw' c k d e l f b room =
    let req = new_request c d.bh in
    let stored = set_self d.requests k req f in
    let reads : 21 ≤ k → c ≡ read = λ h. read_of_limit c k h l in
    (
      (λ i r h q t. elim (ℕ_discrete k i) [
        | yes s ↦
            ap cmd_of (sym q ∙ ap (λ j. get_elem? (set d.requests k req) j) (sym s) ∙ stored)
            ∙ reads (omega (arith, s))
        | no s ↦ room i r h (sym (set_ne d.requests k i req s) ∙ q) t
      ]),
      (rw (sym e) l),
      (stored ∙ ap (λ c. some (new_request c d.bh)) e),
      b,
      refl,
    )

pub no_room :
    (rw' : ℕ) (ahead : Bool) (d : Device) (rest : Made)
    → HasRoom d
    → IsMade rw' rest
    → IsMade rw' (if ahead then Made.dropped (unlock_buffer d) else rest)
unfolding IsMade HasRoom
no_room rw' true d rest room h = room
no_room rw' false d rest room h = h

asleep_or :
    (rw' : ℕ) (ahead : Bool) (d : Device)
    → (ahead ≡ false → rw' < 2)
    → HasRoom d
    → IsMade rw' (if ahead then Made.dropped (unlock_buffer d) else Made.asleep)
unfolding IsMade HasRoom
asleep_or rw' true d a room = room
asleep_or rw' false d a room = a refl

pub take_entry-IsMade :
    (rw' c : ℕ) (ahead : Bool) (waits : List Device) (d : Device)
    → c ≡ rw' % 2
    → (ahead ≡ false → rw' < 2)
    → d.bh.b_lock ≡ true
    → EachLocked waits
    → HasRoom d
    → EachHasRoom waits
    → IsMade rw' (take_entry c ahead waits d)
unfolding take_entry EachHasRoom EachLocked
take_entry-IsMade rw' c ahead [] d e a b bs room rooms =
    elim (find_empty_lem (limit c) d.requests) [
      | inl (f, taken) ↦ rw (f, take_entry) (asleep_or rw' ahead d a room)
      | inr (k, f, l, free, taken) ↦ rw (f, take_entry) (submit-IsMade rw' c k d e l free b room)
    ]
take_entry-IsMade rw' c ahead (w ∷ ws) d e a b bs room rooms =
    let rest = take_entry-IsMade rw' c ahead ws w e a bs.0 bs.1 rooms.0 rooms.1 in
    elim (find_empty_lem (limit c) d.requests) [
      | inl (f, taken) ↦ rw (f, take_entry) (no_room rw' ahead d _ room rest)
      | inr (k, f, l, free, taken) ↦ rw (f, take_entry) (submit-IsMade rw' c k d e l free b room)
    ]
