-- ===== src/Exit/Reap.antt =====
-- kernel/exit.c: what `sys_waitpid` finds among the children.
use mathlib.Core.Path.{subst}
use linux.Common.{
  ℕ, zero, suc, ◌+◌, ◌%◌, ◌^◌, ◌≤◌, ◌<◌, Bool, true, false, ◌||◌, Option, none, some, List, [], ◌∷◌,
  ◌++◌, leb, ◌==◌, length, ◌≡◌, ◌≢◌, refl, sym, ap, ◌∙◌, arith, Bool-cases, ◌⊎◌, inl, inr,
}
use linux.Common.Int.{ℤ, to_u32}
use linux.Sched.{TaskState, nr_tasks}
use linux.Exit.{Task, Table, slot, deref}
use linux.Exit.Tree.{change, release, unlink}
use linux.Exit.Siblings.{slot-change}
use linux.Exit.Unlink.{slot-unlink}
use linux.Exit.Wait.{
  echild, is_asked, is_reported, Waited, Passed, reap, look_at, pass, sys_waitpid,
}

-- The tasks from one on, each the older sibling of the one before.
unfoldable pub Chain : Task → Table → Option ℕ → List ℕ → Type 0
Chain null ts none [] = Unit {0}
Chain null ts none (q ∷ l) = ⊥
Chain null ts (some p) [] = ⊥
Chain null ts (some p) (q ∷ l) = (p ≡ q) × Chain null ts (deref null (slot ts p)).osptr l

-- The pass goes on after a child in this state: it is stopped, but not to be reported, or it runs.
unfoldable pub GoesOn : ℕ → Task → TaskState → Type 0
GoesOn options t TaskState.stopped = is_reported options t ≡ false
GoesOn options t TaskState.zombie = ⊥
GoesOn options t _ = Unit {0}

-- A child that is not asked for, or after which the pass goes on.
unfoldable pub IsPassed : Task → ℕ → ℤ → ℕ → Table → ℕ → Type 0
IsPassed null current pid options ts p =
    let t = deref null (slot ts p) in
    (is_asked pid (deref null (slot ts current)) t ≡ false) ⊎ GoesOn options t t.state

-- A child that is not asked for, or is stopped and not to be reported.
unfoldable pub IsOverlooked : Task → ℕ → ℤ → ℕ → Table → ℕ → Type 0
IsOverlooked null current pid options ts p =
    let t = deref null (slot ts p) in
    (is_asked pid (deref null (slot ts current)) t ≡ false)
    ⊎ ((t.state ≡ TaskState.stopped) × (is_reported options t ≡ false))

unfoldable pub Each : (ℕ → Type 0) → List ℕ → Type 0
Each P [] = Unit {0}
Each P (x ∷ xs) = P x × Each P xs

module _ (null : Task) (current : ℕ) (pid : ℤ) (options : ℕ) (ts : Table) where
  look_at-GoesOn :
      (p : ℕ) (t : Task) (s : TaskState) (flag : Bool) (rest : Bool → Passed)
      → GoesOn options t s
      → (f : Bool) × (look_at current options p t s ts flag rest ≡ rest f)
  unfolding look_at GoesOn
  look_at-GoesOn p t TaskState.running flag rest g = (true, refl)
  look_at-GoesOn p t TaskState.interruptible flag rest g = (true, refl)
  look_at-GoesOn p t TaskState.uninterruptible flag rest g = (true, refl)
  look_at-GoesOn p t TaskState.zombie flag rest g = absurd g
  look_at-GoesOn p t TaskState.stopped flag rest g = (flag, rw g refl)

  pass-over :
      (n p : ℕ) (flag : Bool)
      → IsPassed null current pid options ts p
      → (f : Bool) × (pass null current pid options (suc n) (some p) flag ts
          ≡ pass null current pid options n (deref null (slot ts p)).osptr f ts)
  unfolding pass IsPassed
  pass-over n p flag (inl e) = (flag, rw e refl)
  pass-over n p flag (inr g) =
      let t = deref null (slot ts p) in
      let rest : Bool → Passed = λ f. pass null current pid options n t.osptr f ts in
      let (f, e) = look_at-GoesOn p t t.state flag rest g in
      elim (Bool-cases (is_asked pid (deref null (slot ts current)) t)) [
        | inl a ↦ (f, rw a e)
        | inr a ↦ (flag, rw a refl)
      ]

  pass-over_stopped :
      (n p : ℕ) (flag : Bool)
      → IsOverlooked null current pid options ts p
      → pass null current pid options (suc n) (some p) flag ts
        ≡ pass null current pid options n (deref null (slot ts p)).osptr flag ts
  unfolding pass IsOverlooked look_at
  pass-over_stopped n p flag (inl e) = rw e refl
  pass-over_stopped n p flag (inr (s, r)) =
      elim (Bool-cases (is_asked pid (deref null (slot ts current)) (deref null (slot ts p)))) [
        | inl a ↦ rw (a, s, r) refl
        | inr a ↦ rw a refl
      ]

  pass-none :
      (n : ℕ) (flag : Bool) → pass null current pid options n none flag ts ≡ Passed.ended flag
  unfolding pass
  pass-none n flag = refl

  pass-zombie :
      (n p : ℕ) (t : Task) (flag : Bool)
      → slot ts p ≡ some t
      → is_asked pid (deref null (slot ts current)) t ≡ true
      → t.state ≡ TaskState.zombie
      → pass null current pid options (suc n) (some p) flag ts ≡ Passed.left (reap current p t ts)
  unfolding pass look_at
  pass-zombie n p t flag e a z = rw (e, a, z) refl

  pass-overlooked :
      (n : ℕ) (o : Option ℕ) (l : List ℕ) (flag : Bool)
      → Chain null ts o l
      → Each (IsOverlooked null current pid options ts) l
      → length l ≤ n
      → pass null current pid options n o flag ts ≡ Passed.ended flag
  unfolding Chain Each
  pass-overlooked n none [] flag h v k = pass-none n flag
  pass-overlooked n none (q ∷ l) flag h v k = absurd h
  pass-overlooked n (some p) [] flag h v k = absurd h
  pass-overlooked zero (some p) (q ∷ l) flag h v k = absurd (omega arith)
  pass-overlooked (suc n) (some p) (q ∷ l) flag h v k =
      pass-over_stopped n p flag (subst (IsOverlooked null current pid options ts) (sym h.0) v.0)
      ∙ pass-overlooked n (deref null (slot ts p)).osptr l flag h.1 v.1 (omega arith)

  -- The pass gets as far as the first child after which it does not go on.
  pass-reaches :
      (n : ℕ) (o : Option ℕ) (before : List ℕ) (p : ℕ) (after : List ℕ) (flag : Bool)
      → Chain null ts o (before ++ p ∷ after)
      → Each (IsPassed null current pid options ts) before
      → length before < n
      → (m : ℕ) × (f : Bool) × (pass null current pid options n o flag ts
          ≡ pass null current pid options (suc m) (some p) f ts)
  unfolding Chain Each
  pass-reaches n none [] p after flag h v k = absurd h
  pass-reaches n none (q ∷ before) p after flag h v k = absurd h
  pass-reaches zero (some i) before p after flag h v k = absurd (omega arith)
  pass-reaches (suc n) (some i) [] p after flag h v k =
      (n, flag, ap (λ j. pass null current pid options (suc n) (some j) flag ts) h.0)
  pass-reaches (suc n) (some i) (q ∷ before) p after flag h v k =
      let (f, e) =
        pass-over n i flag (subst (IsPassed null current pid options ts) (sym h.0) v.0) in
      let (m, g, d) =
        pass-reaches n (deref null (slot ts i)).osptr before p after f h.1 v.1 (omega arith) in
      (m, g, e ∙ d)

sys_waitpid-ended :
    (null : Task) (current : ℕ) (pid : ℤ) (options : ℕ) (ws : List Table) (ts : Table)
    → pass null current pid options nr_tasks (deref null (slot ts current)).cptr false ts
      ≡ Passed.ended false
    → sys_waitpid null current pid options ws ts ≡ Waited.returned echild none ts
unfolding sys_waitpid
sys_waitpid-ended null current pid options [] ts p = rw (p, sys_waitpid) refl
sys_waitpid-ended null current pid options (w ∷ ws) ts p = rw (p, sys_waitpid) refl

sys_waitpid-left :
    (null : Task) (current : ℕ) (pid : ℤ) (options : ℕ) (ws : List Table) (ts : Table) (r : Waited)
    → pass null current pid options nr_tasks (deref null (slot ts current)).cptr false ts
      ≡ Passed.left r
    → sys_waitpid null current pid options ws ts ≡ r
unfolding sys_waitpid
sys_waitpid-left null current pid options [] ts r p = rw (p, sys_waitpid) refl
sys_waitpid-left null current pid options (w ∷ ws) ts r p = rw (p, sys_waitpid) refl

-- Where every child is of no interest to the call, or is stopped and need not be reported,
-- sys_waitpid gives -ECHILD at once: it does not wait for a stopped child to go on. Every child is of
-- interest to a call with the pid -1, and those in the group -pid to one with a pid below -1.
pub sys_waitpid-echild :
    (null : Task) (current : ℕ) (pid : ℤ) (options : ℕ) (children : List ℕ) (ws : List Table)
    (ts : Table)
    → Chain null ts (deref null (slot ts current)).cptr children
    → length children ≤ nr_tasks
    → Each (IsOverlooked null current pid options ts) children
    → sys_waitpid null current pid options ws ts ≡ Waited.returned echild none ts
sys_waitpid-echild null current pid options children ws ts h k v =
    sys_waitpid-ended null current pid options ws ts (
      pass-overlooked null current pid options ts nr_tasks (deref null (slot ts current)).cptr
        children false h v k)

release-there :
    (current p : ℕ) (t : Task) (ts : Table)
    → slot ts p ≡ some t
    → 1 ≤ p
    → p < nr_tasks
    → p ≢ current
    → release current p ts ≡ some (unlink p t.parent t.osptr t.ysptr ts)
unfolding release
release-there current p t ts e l m n =
    let other : (p == current) ≡ false = ground arith in
    let in_table : (p == 0 || leb nr_tasks p) ≡ false = ground arith in rw (other, in_table, e) refl

reap-clears :
    (current p : ℕ) (t : Task) (ts : Table)
    → slot ts p ≡ some t
    → 1 ≤ p
    → p < nr_tasks
    → p ≢ current
    → (ts' : Table) × (reap current p t ts ≡ Waited.returned t.pid (some (to_u32 t.exit_code)) ts')
      × (slot ts' p ≡ none)
unfolding reap
reap-clears current p t ts e l m n =
    let add : Task → Task = λ q. record q {
      cutime = (q.cutime + t.utime) % 2 ^ 32;
      cstime = (q.cstime + t.stime) % 2 ^ 32;
    } in
    let there : slot (change current add ts) p ≡ some t =
      slot-change ts current p add ∙ ground arith in
    let ts' = unlink p t.parent t.osptr t.ysptr (change current add ts) in
    let freed = release-there current p t (change current add ts) there l m n in
    (
      ts',
      rw (reap, freed) refl,
      slot-unlink (change current add ts) p p t.parent t.osptr t.ysptr ∙ ground arith,
    )

-- The youngest zombie among the children that the call asks for, where the younger ones are not
-- asked for, run, or are stopped and not to be reported: sys_waitpid returns its process id and its
-- exit code at once, whatever the options are, and its slot is empty. With the pid -1 the call asks
-- for every child, and with a pid below -1 for those in the group -pid.
pub sys_waitpid-reaps :
    (null : Task) (current : ℕ) (pid : ℤ) (options : ℕ) (before : List ℕ) (p : ℕ) (after : List ℕ)
    (t : Task) (ws : List Table) (ts : Table)
    → Chain null ts (deref null (slot ts current)).cptr (before ++ p ∷ after)
    → length before < nr_tasks
    → Each (IsPassed null current pid options ts) before
    → slot ts p ≡ some t
    → is_asked pid (deref null (slot ts current)) t ≡ true
    → t.state ≡ TaskState.zombie
    → 1 ≤ p
    → p < nr_tasks
    → p ≢ current
    → (ts' : Table) × (sys_waitpid null current pid options ws ts
        ≡ Waited.returned t.pid (some (to_u32 t.exit_code)) ts')
      × (slot ts' p ≡ none)
sys_waitpid-reaps null current pid options before p after t ws ts h k v e a z l m n =
    let youngest = (deref null (slot ts current)).cptr in
    let (i, f, q) =
      pass-reaches null current pid options ts nr_tasks youngest before p after false h v k in
    let (ts', r, empty) = reap-clears current p t ts e l m n in
    let found = q ∙ pass-zombie null current pid options ts i p t f e a z in
    (ts', sys_waitpid-left null current pid options ws ts (reap current p t ts) found ∙ r, empty)
