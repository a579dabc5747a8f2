-- ===== src/Sys/Ids.antt =====
-- A process without privileges keeps to the ids it has.
use linux.Common.{
  ==_iff, ℕ, ◌^◌, ◌<◌, Bool, true, false, ◌||◌, arith, ◌≡◌, List, [], ◌∷◌, Option, some, none,
  Bool-cases, inl, inr,
}
use linux.Common.Int.{ℤ}
use linux.Sys.{
  Task, suser, is_id, short16, eperm, set_rgid, set_egid, sys_setregid, sys_setgid, set_ruid,
  set_euid, sys_setreuid, sys_setuid,
}
use linux.Sys.Rules.{guarded, unprivileged, either, one_of_three, same_id, one_of_two}

pub data Call : Type 0 where
  setregid : ℤ → ℤ → Call
  setgid : ℤ → Call
  setreuid : ℤ → ℤ → Call
  setuid : ℤ → Call

unfoldable pub call : Call → Task → ℤ × Task
call (Call.setregid rgid egid) t = sys_setregid rgid egid t
call (Call.setgid gid) t = sys_setgid gid t
call (Call.setreuid ruid euid) t = sys_setreuid ruid euid t
call (Call.setuid uid) t = sys_setuid uid t

unfoldable pub calls : List Call → Task → Task
calls [] t = t
calls (c ∷ cs) t = calls cs (call c t).1

-- The ids of a process are among the users `u` and the groups `g`.
pub record IsWithin (u g : ℕ → Bool) (t : Task) : Type 0 where
  pub uid_in : u t.uid ≡ true
  pub euid_in : u t.euid ≡ true
  pub suid_in : u t.suid ≡ true
  pub gid_in : g t.gid ≡ true
  pub egid_in : g t.egid ≡ true
  pub sgid_in : g t.sgid ≡ true

-- `u` and `g` are sets of short words, and root is not among the users.
pub record IsUser (u g : ℕ → Bool) : Type 0 where
  pub no_root : u 0 ≡ false
  pub users_short : (n : ℕ) → u n ≡ true → n < 2 ^ 16
  pub groups_short : (n : ℕ) → g n ≡ true → n < 2 ^ 16

module _ (u g : ℕ → Bool) (s : IsUser u g) where
  not_suser : (t : Task) → IsWithin u g t → suser t ≡ false
  not_suser t w = elim (Bool-cases (suser t)) [
    | inr e ↦ e
    | inl e ↦
        let root : t.euid ≡ 0 = (==_iff _ _).0 e in
        let in_u : u 0 ≡ true = rw⁻¹ root w.euid_in in absurd (ground (arith, in_u, s.no_root))
  ]

  user_id : (a : ℤ) (n : ℕ) → u n ≡ true → is_id a n ≡ true → u (short16 a) ≡ true
  user_id a n h e = same_id u a n (s.users_short n h) h e

  group_id : (a : ℤ) (n : ℕ) → g n ≡ true → is_id a n ≡ true → g (short16 a) ≡ true
  group_id a n h e = same_id g a n (s.groups_short n h) h e

  -- One id, or two, that a call compares with, where the caller is not privileged.
  module _ (f : ℕ → Bool) (a : ℤ) (t : Task) (w : IsWithin u g t) where
    one_id :
        (n : ℕ)
        → (is_id a n ≡ true → f (short16 a) ≡ true)
        → (is_id a n || suser t) ≡ true
        → f (short16 a) ≡ true
    one_id n rule e = elim (either (is_id a n) (suser t) e) [
      | inl q ↦ rule q
      | inr q ↦ absurd (ground (arith, q, not_suser t w))
    ]

    two_ids :
        (m n : ℕ)
        → (is_id a m ≡ true → f (short16 a) ≡ true)
        → (is_id a n ≡ true → f (short16 a) ≡ true)
        → (is_id a m || is_id a n || suser t) ≡ true
        → f (short16 a) ≡ true
    two_ids m n rule rule' e = elim (one_of_three (is_id a m) (is_id a n) (suser t) e) [
      | inl q ↦ rule q
      | inr q ↦ one_id n rule' q
    ]

  Kept : ℤ × Task → Type 0
  Kept r = IsWithin u g r.1

  KeptIfSome : Option Task → Type 0
  KeptIfSome none = Unit {0}
  KeptIfSome (some t) = IsWithin u g t

  set_rgid-Kept : (a : ℤ) (t : Task) → IsWithin u g t → KeptIfSome (set_rgid a t)
  unfolding set_rgid KeptIfSome
  set_rgid-Kept a t w =
      guarded KeptIfSome _ _ (some (record t { gid = short16 a })) none (some t)
        (λ e. record {
          uid_in = w.uid_in;
          euid_in = w.euid_in;
          suid_in = w.suid_in;
          gid_in = one_id g a t w t.gid (group_id a t.gid w.gid_in) e;
          egid_in = w.egid_in;
          sgid_in = w.sgid_in;
        })
        tt w

  set_egid-Kept : (a : ℤ) (t : Task) → IsWithin u g t → Kept (set_egid a t)
  unfolding set_egid Kept
  set_egid-Kept a t w =
      guarded Kept _ _ _ _ _
        (λ e.
          let q =
            two_ids g a t w t.gid t.egid (group_id a t.gid w.gid_in) (group_id a t.egid w.egid_in)
              e in
          record {
            uid_in = w.uid_in;
            euid_in = w.euid_in;
            suid_in = w.suid_in;
            gid_in = w.gid_in;
            egid_in = q;
            sgid_in = q;
          })
        w w

  set_ruid-Kept : (a : ℤ) (t : Task) → IsWithin u g t → KeptIfSome (set_ruid a t)
  unfolding set_ruid KeptIfSome
  set_ruid-Kept a t w =
      guarded KeptIfSome _ _ (some (record t { uid = short16 a })) none (some t)
        (λ e. record {
          uid_in =
              two_ids u a t w t.euid t.uid (user_id a t.euid w.euid_in) (user_id a t.uid w.uid_in)
                e;
          euid_in = w.euid_in;
          suid_in = w.suid_in;
          gid_in = w.gid_in;
          egid_in = w.egid_in;
          sgid_in = w.sgid_in;
        })
        tt w

  set_euid-Kept :
      (old : ℕ) (a : ℤ) (t : Task) → u old ≡ true → IsWithin u g t → Kept (set_euid old a t)
  unfolding set_euid Kept
  set_euid-Kept old a t h w =
      guarded Kept _ _ _ _ _
        (λ e.
          let q = two_ids u a t w old t.euid (user_id a old h) (user_id a t.euid w.euid_in) e in
          record {
            uid_in = w.uid_in;
            euid_in = q;
            suid_in = q;
            gid_in = w.gid_in;
            egid_in = w.egid_in;
            sgid_in = w.sgid_in;
          })
        (record {
          uid_in = h;
          euid_in = w.euid_in;
          suid_in = w.suid_in;
          gid_in = w.gid_in;
          egid_in = w.egid_in;
          sgid_in = w.sgid_in;
        })
        w

  sys_setgid-Kept : (a : ℤ) (t : Task) → IsWithin u g t → Kept (sys_setgid a t)
  unfolding sys_setgid Kept
  sys_setgid-Kept a t w =
      unprivileged Kept _ _ _ _ _ (not_suser t w)
        (λ e.
          let q =
            one_of_two g a t.gid t.sgid (group_id a t.gid w.gid_in) (group_id a t.sgid w.sgid_in)
              e in
          record {
            uid_in = w.uid_in;
            euid_in = w.euid_in;
            suid_in = w.suid_in;
            gid_in = w.gid_in;
            egid_in = q;
            sgid_in = w.sgid_in;
          })
        w

  sys_setuid-Kept : (a : ℤ) (t : Task) → IsWithin u g t → Kept (sys_setuid a t)
  unfolding sys_setuid Kept
  sys_setuid-Kept a t w =
      unprivileged Kept _ _ _ _ _ (not_suser t w)
        (λ e.
          let q =
            one_of_two u a t.uid t.suid (user_id a t.uid w.uid_in) (user_id a t.suid w.suid_in) e in
          record {
            uid_in = w.uid_in;
            euid_in = q;
            suid_in = w.suid_in;
            gid_in = w.gid_in;
            egid_in = w.egid_in;
            sgid_in = w.sgid_in;
          })
        w

  then_Kept :
      (o : Option Task) (t : Task) (h : Task → ℤ × Task)
      → IsWithin u g t
      → ((t : Task) → IsWithin u g t → Kept (h t))
      → KeptIfSome o
      → Kept (elim o [ none ↦ (eperm, t) | some t' ↦ h t' ])
  unfolding KeptIfSome Kept
  then_Kept none t h w f q = w
  then_Kept (some t') t h w f q = f t' q

  call-Kept : (c : Call) (t : Task) → IsWithin u g t → Kept (call c t)
  unfolding call sys_setregid sys_setreuid
  call-Kept (Call.setregid a b) t w =
      then_Kept (set_rgid a t) t (set_egid b) w (λ t' w'. set_egid-Kept b t' w')
        (set_rgid-Kept a t w)
  call-Kept (Call.setgid a) t w = sys_setgid-Kept a t w
  call-Kept (Call.setreuid a b) t w =
      then_Kept (set_ruid a t) t (set_euid t.uid b) w
        (λ t' w'. set_euid-Kept t.uid b t' w.uid_in w') (set_ruid-Kept a t w)
  call-Kept (Call.setuid a) t w = sys_setuid-Kept a t w

  -- A process whose user ids are all in a set of short words without root's, and its group ids in
  -- another one, keeps them there whatever ids it asks for, in whatever order.
  pub calls-IsWithin : (cs : List Call) (t : Task) → IsWithin u g t → IsWithin u g (calls cs t)
  unfolding calls Kept
  calls-IsWithin [] t w = w
  calls-IsWithin (c ∷ cs) t w = calls-IsWithin cs (call c t).1 (call-Kept c t w)
