-- ===== src/Blk/Requests.antt =====
-- How a call of `make_request` ends.
use linux.Common.{
  ℕ, ◌%◌, ◌<◌, zero, suc, Option, none, some, List, [], ◌∷◌, Bool, true, false, ◌&&◌, ◌||◌, not,
  ◌==◌, if◌then◌else◌, arith, ◌≡◌, ◌≢◌, refl, Bool-cases, inl, inr,
}
use linux.Blk.{Device, Made, read, write, locks, lock_buffer, locked_request, make_request}
use linux.Blk.Entries.{HasRoom, EachHasRoom, EachLocked, IsMade, take_entry-IsMade, no_room}

-- Once the lock is taken.
unfoldable IsLocked : Option Device → Type 0
IsLocked none = Unit {0}
IsLocked (some d) = HasRoom d × (d.bh.b_lock ≡ true)

take_lock :
    (d : Device) (rest : Option Device)
    → HasRoom d
    → IsLocked rest
    → IsLocked (if d.bh.b_lock then rest else some (locks true d))
unfolding IsLocked HasRoom
take_lock d rest room h = elim (Bool-cases d.bh.b_lock) [
  | inl e ↦ rw e h
  | inr e ↦ rw e (room, refl)
]

lock_buffer-IsLocked :
    (sleeps : List Device) (d : Device)
    → HasRoom d
    → EachHasRoom sleeps
    → IsLocked (lock_buffer sleeps d)
unfolding lock_buffer EachHasRoom IsLocked
lock_buffer-IsLocked [] d room rooms = take_lock d none room tt
lock_buffer-IsLocked (w ∷ ws) d room rooms =
    take_lock d (lock_buffer ws w) room (lock_buffer-IsLocked ws w rooms.0 rooms.1)

unlocked : (sleeps : List Device) (d : Device) → d.bh.b_lock ≡ false → lock_buffer sleeps d ≢ none
unfolding lock_buffer
unlocked [] d e h = absurd (ground (arith, e, h))
unlocked (w ∷ ws) d e h = absurd (ground (arith, e, h))

IsMade-asleep : (rw' : ℕ) → rw' < 2 → IsMade rw' Made.asleep
unfolding IsMade
IsMade-asleep rw' h = h

locked_request-IsMade :
    (rw' c : ℕ) (ahead : Bool) (waits : List Device) (o : Option Device)
    → c ≡ rw' % 2
    → (ahead ≡ false → rw' < 2)
    → (o ≡ none → rw' < 2)
    → EachLocked waits
    → IsLocked o
    → EachHasRoom waits
    → IsMade rw' (locked_request c ahead waits o)
unfolding locked_request IsLocked
locked_request-IsMade rw' c ahead waits none e a n locked room rooms = IsMade-asleep rw' (n refl)
locked_request-IsMade rw' c ahead waits (some d) e a n locked (room, held) rooms =
    no_room rw' (c == write && not d.bh.b_dirt || c == read && d.bh.b_uptodate) d _ room
      (take_entry-IsMade rw' c ahead waits d e a held locked room rooms)

unless_locked :
    (rw' : ℕ) (b : Bool) (d : Device) (rest : Made)
    → HasRoom d
    → (b ≡ false → IsMade rw' rest)
    → IsMade rw' (if b then Made.dropped d else rest)
unfolding IsMade
unless_locked rw' true d rest room h = room
unless_locked rw' false d rest room h = h refl

IsMade-panicked : (rw' : ℕ) → 3 < rw' → IsMade rw' Made.panicked
unfolding IsMade
IsMade-panicked rw' h = h

ahead-IsMade :
    (rw' c : ℕ) (sleeps waits : List Device) (d : Device)
    → c ≡ rw' % 2
    → HasRoom d
    → EachHasRoom sleeps
    → EachHasRoom waits
    → EachLocked waits
    → IsMade rw'
        (if d.bh.b_lock then Made.dropped d else locked_request c true waits (lock_buffer sleeps d))
ahead-IsMade rw' c sleeps waits d e room rooms rooms' held =
    unless_locked rw' d.bh.b_lock d _ room (λ h.
      locked_request-IsMade rw' c true waits (lock_buffer sleeps d) e
        (λ q. absurd (ground (arith, q))) (λ q. absurd (unlocked sleeps d h q)) held
        (lock_buffer-IsLocked sleeps d room rooms) rooms')

bad_command :
    (rw' : ℕ) (sleeps waits : List Device) (d : Device)
    → 3 < rw'
    → make_request rw' sleeps waits d ≡ Made.panicked
unfolding make_request
bad_command rw' sleeps waits d h = ground arith

-- `make_request` in a state where the last third of the entries holds reads only, as in the states
-- after its sleeps, where in its second loop its buffer is still locked: it keeps that third for
-- reads. It calls `panic` only for a command that is none of the four, and waits beyond those states
-- only for a plain read or write. If it makes a request, then the entry lies below the command's
-- limit and holds the request, with READA and WRITEA made plain, and the buffer is left locked and
-- clean.
pub make_request-IsMade :
    (rw' : ℕ) (sleeps waits : List Device) (d : Device)
    → HasRoom d
    → EachHasRoom sleeps
    → EachHasRoom waits
    → EachLocked waits
    → IsMade rw' (make_request rw' sleeps waits d)
unfolding make_request
make_request-IsMade zero sleeps waits d room rooms rooms' held =
    locked_request-IsMade 0 read false waits (lock_buffer sleeps d) refl (λ e. omega arith)
      (λ e. omega arith) held (lock_buffer-IsLocked sleeps d room rooms) rooms'
make_request-IsMade (suc zero) sleeps waits d room rooms rooms' held =
    locked_request-IsMade 1 write false waits (lock_buffer sleeps d) refl (λ e. omega arith)
      (λ e. omega arith) held (lock_buffer-IsLocked sleeps d room rooms) rooms'
make_request-IsMade (suc (suc zero)) sleeps waits d room rooms rooms' held =
    ahead-IsMade 2 read sleeps waits d refl room rooms rooms' held
make_request-IsMade (suc (suc (suc zero))) sleeps waits d room rooms rooms' held =
    ahead-IsMade 3 write sleeps waits d refl room rooms rooms' held
make_request-IsMade (suc (suc (suc (suc n)))) sleeps waits d room rooms rooms' held =
    let big : 3 < suc (suc (suc (suc n))) = omega arith in
    rw (bad_command (suc (suc (suc (suc n)))) sleeps waits d big) (IsMade-panicked _ big)
