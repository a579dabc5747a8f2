-- ===== src/Signal/Actions.antt =====
-- The table of signal actions: what the system calls on it keep, and that SIGKILL cannot be caught.
use linux.Common.{
  ℕ, zero, suc, ◌-◌, ◌^◌, ◌≤◌, ◌<◌, bit_and, bit_or, List, [], ◌∷◌, false, ◌==◌, ◌!=◌,
  if◌then◌else◌, get_or, set, length, arith, ◌≡◌, ◌≢◌, refl, ap, get_or-set_self, get_or-set_ne,
  ◌∙◌, ℕ_discrete, ◌⊎◌, inl, inr, Bool-cases,
}
use linux.Common.Int.{ℤ, pos, negsuc, pos_part}
use linux.Sched.{TaskState, sigkill, sigstop, signal_bit}
use linux.Signal.{
  Process, Sigaction, Registers, Memory, Machine, Outcome, action_of, set_action, default_action,
  sys_ssetmask, sys_sigsuspend, sys_signal, sys_sigaction, is_refused, masked, stop, by_default,
  invoke, do_signal,
}

-- What can happen to the signals of a process: its own calls, a signal that is sent to it, and one
-- that is delivered.
pub data Event : Type 0 where
  ssetmask : ℕ → Event
  suspends : ℕ → ℕ → ℕ → Event
  signal : ℤ → ℕ → ℕ → Event
  sigaction : ℤ → Sigaction → Event
  sent : ℕ → Event
  delivered : ℕ → ℕ → Process → Registers → Memory → Event

unfoldable pub happen : Event → Process → Process
happen (Event.ssetmask newmask) p = (sys_ssetmask newmask p).1
happen (Event.suspends restart old new) p = (sys_sigsuspend restart old new p).current
happen (Event.signal n handler restorer) p = (sys_signal n handler restorer p).1
happen (Event.sigaction n action) p = (sys_sigaction n action p).2
happen (Event.sent n) p = record p { signal = bit_or p.signal (signal_bit n) }
happen (Event.delivered n orig_eax parent registers memory) p =
    (do_signal n orig_eax
      (record { current = p; parent = parent; registers = registers; memory = memory })).1.current

unfoldable pub happen_all : List Event → Process → Process
happen_all [] p = p
happen_all (e ∷ es) p = happen_all es (happen e p)

-- Signal `k` has its default action.
unfoldable pub IsDefault : ℕ → Process → Type 0
IsDefault k p = (action_of k p).sa_handler ≡ 0

get_or-clear :
    (xs : List Sigaction) (i j : ℕ) (a : Sigaction)
    → a.sa_handler ≡ 0
    → (get_or xs j default_action).sa_handler ≡ 0
    → (get_or (set xs i a) j default_action).sa_handler ≡ 0
get_or-clear [] i j a h k = refl
get_or-clear (x ∷ xs) zero zero a h k = h
get_or-clear (x ∷ xs) zero (suc j) a h k = k
get_or-clear (x ∷ xs) (suc i) zero a h k = k
get_or-clear (x ∷ xs) (suc i) (suc j) a h k = get_or-clear xs i j a h k

set_action-IsDefault :
    (n k : ℕ) (a : Sigaction) (p : Process)
    → n - 1 ≢ k - 1
    → IsDefault k p
    → IsDefault k (set_action n a p)
unfolding IsDefault
set_action-IsDefault n k a p h d =
    ap (λ s. s.sa_handler) (get_or-set_ne p.sigaction (n - 1) (k - 1) a default_action h) ∙ d

-- A signal number that is not refused is in the table, and is neither SIGKILL nor SIGSTOP.
accepted :
    (n : ℤ)
    → is_refused n ≡ false
    → (pos_part n - 1 ≢ sigkill - 1)
      × (pos_part n - 1 ≢ sigstop - 1)
      × (pos_part n - 1 < 32)
      × (1 ≤ pos_part n)
unfolding is_refused
accepted (pos n) h = (ground arith, ground arith, ground arith, ground arith)
accepted (negsuc n) h = ground arith

-- Signals whose action cannot be set.
IsFixed : ℕ → Type 0
IsFixed k = (k ≡ sigkill) ⊎ (k ≡ sigstop)

fixed_apart : (k : ℕ) (n : ℤ) → IsFixed k → is_refused n ≡ false → pos_part n - 1 ≢ k - 1
unfolding IsFixed
fixed_apart k n (inl e) h = rw e ((accepted n h).0)
fixed_apart k n (inr e) h = rw e ((accepted n h).1)

do_signal-IsDefault :
    (k n orig_eax : ℕ) (m : Machine)
    → IsDefault k m.current
    → IsDefault k (do_signal n orig_eax m).1.current
unfolding do_signal by_default invoke stop IsDefault
do_signal-IsDefault k n orig_eax m d =
    let left =
      get_or-clear m.current.sigaction (n - 1) (k - 1)
        (record (action_of n m.current) { sa_handler = 0 }) refl d in
    ground (arith, left, d)

-- Whatever a process calls and whichever signals reach it, SIGKILL and SIGSTOP keep their default
-- actions.
happen-IsDefault :
    (k : ℕ) (e : Event) (p : Process) → IsFixed k → IsDefault k p → IsDefault k (happen e p)
unfolding happen sys_sigsuspend IsFixed IsDefault sys_signal sys_sigaction sys_ssetmask
happen-IsDefault k (Event.ssetmask newmask) p f d = d
happen-IsDefault k (Event.suspends restart old new) p f d = ground (arith, d)
happen-IsDefault k (Event.signal n handler restorer) p f d = elim (Bool-cases (is_refused n)) [
  | inl e ↦ rw (e, happen, sys_signal) d
  | inr e ↦
      rw (e, happen, sys_signal) (set_action-IsDefault (pos_part n) k _ p (fixed_apart k n f e) d)
]
happen-IsDefault k (Event.sigaction n action) p f d = elim (Bool-cases (is_refused n)) [
  | inl e ↦ rw (e, happen, sys_sigaction) d
  | inr e ↦
      rw (e, happen, sys_sigaction)
        (set_action-IsDefault (pos_part n) k _ p (fixed_apart k n f e) d)
]
happen-IsDefault k (Event.sent n) p f d = d
happen-IsDefault k (Event.delivered n orig_eax parent registers memory) p f d =
    do_signal-IsDefault k n orig_eax
      (record { current = p; parent = parent; registers = registers; memory = memory }) d

happen_all-IsDefault :
    (k : ℕ) (es : List Event) (p : Process)
    → IsFixed k
    → IsDefault k p
    → IsDefault k (happen_all es p)
unfolding happen_all
happen_all-IsDefault k [] p f d = d
happen_all-IsDefault k (e ∷ es) p f d =
    happen_all-IsDefault k es (happen e p) f (happen-IsDefault k e p f d)

-- A process whose SIGKILL has the default action ends with that signal when it is delivered,
-- whatever calls it has made and whichever signals it has had before.
pub do_signal-sigkill :
    (es : List Event) (p : Process) (orig_eax : ℕ) (m : Machine)
    → IsDefault sigkill p
    → m.current ≡ happen_all es p
    → (do_signal sigkill orig_eax m).0 ≡ Outcome.exits sigkill
unfolding do_signal by_default IsDefault IsFixed
do_signal-sigkill es p orig_eax m d e =
    let kept : IsDefault sigkill m.current =
      rw e (happen_all-IsDefault sigkill es p (inl refl) d) in
    rw kept refl

-- SIGSTOP stops the process in the same way, and tells its parent by SIGCHLD unless the parent has
-- asked not to be told.
pub do_signal-sigstop :
    (es : List Event) (p : Process) (orig_eax : ℕ) (m : Machine)
    → IsDefault sigstop p
    → m.current ≡ happen_all es p
    → let r = do_signal sigstop orig_eax m in
      (r.0 ≡ Outcome.next_signal)
      × (r.1.current.state ≡ TaskState.stopped)
      × (r.1.current.exit_code ≡ sigstop)
      × (r.1.parent.signal ≡ (
          if bit_and (action_of 17 m.parent).sa_flags 1 != 0
          then m.parent.signal
          else bit_or m.parent.signal (2 ^ 16)))
unfolding do_signal by_default stop IsDefault IsFixed
do_signal-sigstop es p orig_eax m d e =
    let kept : IsDefault sigstop m.current =
      rw e (happen_all-IsDefault sigstop es p (inr refl) d) in
    ground (arith, kept)

sys_sigaction-accepted :
    (n : ℤ) (a : Sigaction) (p : Process)
    → is_refused n ≡ false
    → sys_sigaction n a p
      ≡ (pos 0, action_of (pos_part n) p, set_action (pos_part n) (masked (pos_part n) a) p)
unfolding sys_sigaction
sys_sigaction-accepted n a p h = rw h refl

-- An action that `sys_sigaction` has set is what the next call for that signal gives back, with the
-- signal itself in its mask, or no mask at all under SA_NOMASK. The calls for the other signals
-- give what they gave before.
pub sys_sigaction-sys_sigaction :
    (n k : ℤ) (a b : Sigaction) (p : Process)
    → length p.sigaction ≡ 32
    → is_refused n ≡ false
    → is_refused k ≡ false
    → (sys_sigaction k b (sys_sigaction n a p).2).1
      ≡ (if pos_part k == pos_part n then masked (pos_part n) a else (sys_sigaction k b p).1)
sys_sigaction-sys_sigaction n k a b p l h h' =
    let i = pos_part n in
    let j = pos_part k in
    let s = masked i a in
    rw
      (
        sys_sigaction-accepted n a p h,
        sys_sigaction-accepted k b p h',
        sys_sigaction-accepted k b (set_action i s p) h',
      )
      (elim (ℕ_discrete j i) [
        | yes e ↦
            let self =
              get_or-set_self p.sigaction (i - 1) s default_action
                (omega (arith, l, accepted n h)) in
            rw e (ground (arith, self))
        | no e ↦
            let apart : i - 1 ≢ j - 1 = λ q. e (omega (arith, accepted n h, accepted k h')) in
            ground (arith, e, get_or-set_ne p.sigaction (i - 1) (j - 1) s default_action apart)
      ])
