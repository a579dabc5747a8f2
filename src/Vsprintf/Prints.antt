-- ===== src/Vsprintf/Prints.antt =====
-- kernel/vsprintf.c: where there are words enough to print, `vsprintf` prints.
use linux.Common.{ℕ, ◌+◌, ◌≤◌, false, Option, some, List, [], ◌∷◌, ◌++◌, ◌==◌, ◌≡◌, length}
use linux.Vsprintf.Format.{Argument, Written, Printed, printed}
use linux.Vsprintf.Words.{AllWords, NoString}

-- One conversion that has worked: what it leaves of the format and of the arguments.
record IsConverted (args : List Argument) (o : Option (List ℕ × Written)) : Type 0 where
  rest : List ℕ
  written : Written
  is_converted : o ≡ some (rest, written)
  words : AllWords written.args
  enough : length args ≤ length written.args + 3
  clean : NoString rest

-- The loop has printed `text` and more.
Prints : List ℕ → Printed → Type 0
Prints text p = (more : List ℕ) × (stored : List (ℕ × ℕ)) × (p ≡ printed (text ++ more) stored)

-- No `%`.
unfoldable pub NoPercent : List ℕ → Type 0
NoPercent [] = Unit {0}
NoPercent (c ∷ s) = ((c == 37) ≡ false) × NoPercent s
