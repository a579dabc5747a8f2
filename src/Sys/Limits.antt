-- ===== src/Sys/Limits.antt =====
-- kernel/sys.c: the resource limits of the current process, and its data segment's end.
use linux.Common.{
  ℕ, ◌+◌, ◌-◌, ◌*◌, ◌/◌, ◌%◌, ◌^◌, Bool, false, not, ◌&&◌, ◌||◌, ltb, leb, ◌==◌, if◌then◌else◌, ◌≡◌,
  ◌≢◌, refl, arith,
}
use linux.Common.Int.{
  ℤ, pos, negsuc, ◌+ℤ◌, ◌*ℤ◌, ◌≤ℤ◌, ltb_ℤ, leb_ℤ, to_u32, pos_part, neg_part, pos-*ℤ, pos-+ℤ,
}
use linux.Sys.{eperm}
use linux.Sys.Groups.{einval}

abbrev pub rlim_nlimits : ℕ
rlim_nlimits = 6

abbrev pub same : ℤ → ℤ → Bool
same a b = pos_part a == pos_part b && neg_part a == neg_part b

-- `struct task_struct` as 32-bit words, numbered from `rlim[0].rlim_cur` on. The fields before `rlim`
-- have negative numbers: the word -10 holds `uid` and `euid`, -9 `suid` and `gid`.
abbrev pub TaskWords : Type 0
TaskWords = ℤ → ℤ

abbrev pub put_word : ℤ → ℤ → TaskWords → TaskWords
put_word i v task j = if same i j then v else task j

abbrev pub uid_word : ℤ
uid_word = negsuc 9

unfoldable pub uid_of : TaskWords → ℕ
uid_of task = to_u32 (task uid_word) % 2 ^ 16

unfoldable pub euid_of : TaskWords → ℕ
euid_of task = to_u32 (task uid_word) / 2 ^ 16

-- `rlim_cur` and `rlim_max` of `current->rlim[resource]`.
abbrev pub cur_word : ℤ → ℤ
cur_word resource = pos 2 *ℤ resource

abbrev pub max_word : ℤ → ℤ
max_word resource = pos 2 *ℤ resource +ℤ pos 1

unfoldable pub sys_getrlimit : ℤ → TaskWords → ℤ × ℤ × ℤ
sys_getrlimit resource task =
    if leb_ℤ (pos rlim_nlimits) resource
    then (einval, pos 0, pos 0)
    else (pos 0, task (cur_word resource), task (max_word resource))

-- The new limits are what the call's pointer points to.
unfoldable pub sys_setrlimit : ℤ → ℤ → ℤ → TaskWords → ℤ × TaskWords
sys_setrlimit resource new_cur new_max task =
    let old_max = task (max_word resource) in
    let stored = put_word (max_word resource) new_max (put_word (cur_word resource) new_cur task) in
    if leb_ℤ (pos rlim_nlimits) resource
    then (einval, task)
    else if (ltb_ℤ old_max new_cur || ltb_ℤ old_max new_max) && not (euid_of task == 0)
    then (eperm, task)
    else (pos 0, stored)

-- The program's break; `end_code` and `start_stack` are unsigned, so is their difference.
unfoldable pub sys_brk : ℕ → ℕ → ℕ → ℕ → ℕ
sys_brk end_code start_stack brk end_data_seg =
    if leb end_code end_data_seg && ltb end_data_seg ((start_stack + 2 ^ 32 - 16384) % 2 ^ 32)
    then end_data_seg
    else brk

max_word-pos : (r : ℕ) → max_word (pos r) ≡ pos (2 * r + 1)
max_word-pos r = rw (pos-*ℤ 2 r, pos-+ℤ (2 * r) 1) refl

cur_word-pos : (r : ℕ) → cur_word (pos r) ≡ pos (2 * r)
cur_word-pos r = pos-*ℤ 2 r

-- A call without privileges never raises a hard limit: for a resource of the table, every word of
-- the limits that held a hard limit holds the same or a smaller one after the call, and the ids do
-- not change.
pub sys_setrlimit-hard :
    (resource : ℕ) (new_cur new_max : ℤ) (task : TaskWords) (other : ℕ)
    → euid_of task ≢ 0
    → let task' = (sys_setrlimit (pos resource) new_cur new_max task).1 in
      (task' (max_word (pos other)) ≤ℤ task (max_word (pos other)))
      × (task' uid_word ≡ task uid_word)
unfolding sys_setrlimit
sys_setrlimit-hard resource new_cur new_max task other n =
    rw (max_word-pos resource, max_word-pos other, cur_word-pos resource) (ground (arith, n))

-- A negative resource is not refused: a process whose `gid` is below 2^15 (the word that holds it
-- is not negative) sets its user id and effective user id to 0 with one call, whatever they were.
pub sys_setrlimit-negative :
    (task : TaskWords)
    → pos 0 ≤ℤ task (max_word (negsuc 4))
    → (task' : TaskWords) × (sys_setrlimit (negsuc 4) (pos 0) (pos 0) task ≡ (pos 0, task'))
      × (uid_of task' ≡ 0)
      × (euid_of task' ≡ 0)
unfolding sys_setrlimit ◌*ℤ◌ ◌+ℤ◌ uid_of euid_of to_u32
sys_setrlimit-negative task h =
    let refused : ltb_ℤ (task (negsuc 8)) (pos 0) ≡ false = ground (arith, h) in
    rw (refused) (put_word (negsuc 8) (pos 0) (put_word (negsuc 9) (pos 0) task), refl, refl, refl)
