-- ===== src/Sys.antt =====
-- kernel/sys.c: the user and group ids of the current process.
pub mod Ids
pub mod Groups
pub mod Limits
pub mod Session
pub mod Membership
pub mod Rules
mod Tests
use linux.Common.{
  Option, none, some, ℕ, ◌%◌, ◌^◌, Bool, true, false, ◌&&◌, ◌||◌, ◌==◌, if◌then◌else◌,
}
use linux.Common.Int.{ℤ, pos, negsuc, ltb_ℤ, to_u32}

-- The fields of `struct task_struct` for ids, each an unsigned short.
pub record Task : Type 0 where
  pub uid : ℕ
  pub euid : ℕ
  pub suid : ℕ
  pub gid : ℕ
  pub egid : ℕ
  pub sgid : ℕ

abbrev pub suser : Task → Bool
suser t = t.euid == 0

-- An `int` compared with an unsigned short, and stored in one.
abbrev pub is_id : ℤ → ℕ → Bool
is_id (pos a) b = a == b
is_id (negsuc a) b = false

unfoldable pub short16 : ℤ → ℕ
short16 a = to_u32 a % 2 ^ 16

abbrev pub eperm : ℤ
eperm = negsuc 0

-- The change of `gid`: none if it is not allowed.
unfoldable pub set_rgid : ℤ → Task → Option Task
set_rgid rgid t =
    if ltb_ℤ (pos 0) rgid
    then (if is_id rgid t.gid || suser t then some (record t { gid = short16 rgid }) else none)
    else some t

unfoldable pub set_egid : ℤ → Task → ℤ × Task
set_egid egid t =
    if ltb_ℤ (pos 0) egid
    then (if is_id egid t.gid || is_id egid t.egid || suser t
        then (pos 0, record t { egid = short16 egid; sgid = short16 egid })
        else (eperm, t))
    else (pos 0, t)

unfoldable pub sys_setregid : ℤ → ℤ → Task → ℤ × Task
sys_setregid rgid egid t = elim (set_rgid rgid t) [ none ↦ (eperm, t) | some t' ↦ set_egid egid t' ]

unfoldable pub sys_setgid : ℤ → Task → ℤ × Task
sys_setgid gid t =
    let id = short16 gid in
    if suser t
    then (pos 0, record t { gid = id; egid = id; sgid = id })
    else if is_id gid t.gid || is_id gid t.sgid
    then (pos 0, record t { egid = id })
    else (eperm, t)

-- The change of `uid`: none if it is not allowed.
unfoldable pub set_ruid : ℤ → Task → Option Task
set_ruid ruid t =
    if ltb_ℤ (pos 0) ruid
    then (if is_id ruid t.euid || is_id ruid t.uid || suser t
        then some (record t { uid = short16 ruid })
        else none)
    else some t

unfoldable pub set_euid : ℕ → ℤ → Task → ℤ × Task
set_euid old_ruid euid t =
    if ltb_ℤ (pos 0) euid
    then (if is_id euid old_ruid || is_id euid t.euid || suser t
        then (pos 0, record t { euid = short16 euid; suid = short16 euid })
        else (eperm, record t { uid = old_ruid }))
    else (pos 0, t)

unfoldable pub sys_setreuid : ℤ → ℤ → Task → ℤ × Task
sys_setreuid ruid euid t = elim (set_ruid ruid t) [
  | none ↦ (eperm, t)
  | some t' ↦ set_euid t.uid euid t'
]

unfoldable pub sys_setuid : ℤ → Task → ℤ × Task
sys_setuid uid t =
    let id = short16 uid in
    if suser t
    then (pos 0, record t { uid = id; euid = id; suid = id })
    else if is_id uid t.uid || is_id uid t.suid
    then (pos 0, record t { euid = id })
    else (eperm, t)
