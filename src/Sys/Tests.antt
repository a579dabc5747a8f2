-- ===== src/Sys/Tests.antt =====
-- The theorem about the ids of kernel/sys.c at a concrete input, and runs of its functions.
use linux.Common.{
  ℕ, ◌+◌, ◌*◌, ◌^◌, Bool, true, ◌||◌, ◌==◌, ◌≡◌, ◌≢◌, refl, arith, List, [], ◌∷◌, replicate, none,
  some, if◌then◌else◌,
}
use linux.Common.Int.{ℤ, pos, negsuc, ◌+ℤ◌, ◌*ℤ◌, ◌≤ℤ◌, to_u32}
use linux.Sched.{TaskState}
use linux.Exit
use linux.Exit.{Table}
use linux.Sys.{
  Task, short16, set_rgid, set_egid, sys_setregid, set_ruid, set_euid, sys_setreuid, sys_setuid,
}
use linux.Sys.Groups.{Words, nogroup, sys_getgroups, sys_setgroups, in_group_p}
use linux.Sys.Membership.{sys_setgroups-sys_getgroups}
use linux.Sys.Limits.{
  TaskWords, same, uid_word, uid_of, euid_of, max_word, sys_setrlimit, sys_brk, sys_setrlimit-hard,
  sys_setrlimit-negative,
}
use linux.Sys.Session.{
  is_movable, move, is_found, setpgid_from, sys_setpgid, Moves, sys_setpgid-Moves,
}
use linux.Sys.Ids.{Call, call, calls, IsWithin, IsUser, calls-IsWithin}

-- A program of user 5 that user 7 has started.
abbrev started : Task
started = record { uid = 7; euid = 5; suid = 5; gid = 3; egid = 3; sgid = 3 }

abbrev users : ℕ → Bool
users n = n == 5 || n == 7

abbrev groups : ℕ → Bool
groups n = n == 3

users-IsUser : IsUser users groups
users-IsUser = record {
  no_root = refl;
  users_short = λ n h. ground (arith, h);
  groups_short = λ n h. ground (arith, h);
}

started-IsWithin : IsWithin users groups started
started-IsWithin = record {
  uid_in = refl;
  euid_in = refl;
  suid_in = refl;
  gid_in = refl;
  egid_in = refl;
  sgid_in = refl;
}

-- It swaps its ids, asks for root's, and swaps back.
abbrev swaps : List Call
swaps = Call.setreuid (pos 5) (pos 7) ∷ Call.setuid (pos 0) ∷ Call.setreuid (pos 7) (pos 5) ∷ []

calls_run : calls swaps started ≡ started
unfolding calls call sys_setreuid set_ruid set_euid sys_setuid short16 to_u32
calls_run = refl

-- The real group can only be set to what it is.
setregid_runs :
    sys_setregid (pos 3) (pos 9) (record started { gid = 4 })
    ≡ (negsuc 0, record started { gid = 4 })
unfolding sys_setregid set_rgid set_egid short16 to_u32
setregid_runs = refl

calls-IsWithin_example : IsWithin users groups (calls swaps started)
calls-IsWithin_example = calls-IsWithin users groups users-IsUser swaps started started-IsWithin

-- A caller's groups 100, 101 and so on.
abbrev given : Words
given n = 100 + n

abbrev no_words : Words
no_words n = 0

sys_setgroups-sys_getgroups_example :
    (table : List ℤ) × (back : Words) × (sys_setgroups true (pos 3) given (replicate 32 nogroup)
      ≡ (pos 0, table))
    × (sys_getgroups (pos 5) table no_words ≡ (pos 3, back))
    × (back 2 ≡ 102)
    × (in_group_p 7 102 table ≡ true)
sys_setgroups-sys_getgroups_example =
    sys_setgroups-sys_getgroups given no_words 3 5 7 2 (replicate 32 nogroup) (omega arith)
      (omega arith) refl (omega arith)

-- User 5 of group 3, with every other word, each limit among them, 1000.
abbrev user_words : TaskWords
user_words i =
    if same i uid_word
    then pos (5 * 2 ^ 16 + 5)
    else if same i (negsuc 8)
    then pos (3 * 2 ^ 16 + 5)
    else pos 1000

user_words-euid : euid_of user_words ≡ 5
unfolding euid_of to_u32
user_words-euid = refl

not_root : euid_of user_words ≢ 0
not_root e = omega (arith, user_words-euid, e)

sys_setrlimit-hard_example :
    let task' = (sys_setrlimit (pos 2) (pos 10) (pos 20) user_words).1 in
    (task' (max_word (pos 2)) ≤ℤ user_words (max_word (pos 2)))
    × (task' uid_word ≡ user_words uid_word)
sys_setrlimit-hard_example = sys_setrlimit-hard 2 (pos 10) (pos 20) user_words 2 not_root

limit_word : pos 0 ≤ℤ user_words (max_word (negsuc 4))
unfolding ◌+ℤ◌ ◌*ℤ◌
limit_word = omega arith

sys_setrlimit-negative_example :
    (task' : TaskWords) × (sys_setrlimit (negsuc 4) (pos 0) (pos 0) user_words ≡ (pos 0, task'))
    × (uid_of task' ≡ 0)
    × (euid_of task' ≡ 0)
sys_setrlimit-negative_example = sys_setrlimit-negative user_words limit_word

brk_runs : sys_brk 4096 65536 8192 12288 ≡ 12288
unfolding sys_brk
brk_runs = refl

-- A shell in slot 1 moves its child in slot 2 to a group of its own.
abbrev process : ℕ → Exit.Task
process id = record {
  state = TaskState.running;
  signal = 0;
  exit_code = pos 0;
  sa_handler = λ n. 0;
  euid = 5;
  pid = pos id;
  pgrp = pos 7;
  session = pos 7;
  leader = id == 7;
  parent = 1;
  cptr = none;
  ysptr = none;
  osptr = none;
  utime = 0;
  stime = 0;
  cutime = 0;
  cstime = 0;
  blocked = 0;
  tty = pos 0;
}

abbrev tasks : Table
tasks = none ∷ some (process 7) ∷ some (process 8) ∷ []

setpgid_runs : (sys_setpgid (process 0) tasks 1 (process 7) (pos 8) (pos 8)).0 ≡ pos 0
unfolding sys_setpgid setpgid_from is_found move is_movable
setpgid_runs = refl

sys_setpgid-Moves_example :
    Moves
      (process 0)
      tasks
      1
      (process 7)
      (sys_setpgid (process 0) tasks 1 (process 7) (pos 8) (pos 8))
sys_setpgid-Moves_example = sys_setpgid-Moves (process 0) tasks 1 (process 7) (pos 8) (pos 8)
