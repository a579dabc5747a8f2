-- ===== src/Buffer/Steps.antt =====
-- How code that works on the cache ends, and its steps in sequence.
use linux.Common.{List, [], ◌∷◌, Option, none, some}
use linux.Buffer.{Cache}

-- A function returns, sleeps where the states that it finds when it wakes up run out, or calls
-- `panic`; or the fuel of the model runs out.
pub data Result (A : Type 0) : Type 0 where
  done : A → List Cache → Cache → Result A
  asleep : Result A
  panicked : Result A
  no_fuel : Result A

-- The list holds the states of the cache that the caller finds when it wakes up, one for each sleep.
abbrev pub Step : Type 0 → Type 0
Step A = List Cache → Cache → Result A

abbrev pub return : {A : Type 0} → A → Step A
return a ws c = Result.done a ws c

abbrev pub panic : {A : Type 0} → Step A
panic ws c = Result.panicked

-- A panic prints a message in place of its result.
abbrev pub and_then : {A B : Type 0} → Result A → (A → Step B) → Result B
and_then (Result.done a ws c) f = f a ws c
and_then Result.asleep f = Result.asleep
and_then Result.panicked f = Result.panicked
and_then Result.no_fuel f = Result.no_fuel

infixl 5 ◌>>=◌ ◌>>◌
abbrev pub ◌>>=◌ : {A B : Type 0} → Step A → (A → Step B) → Step B
◌>>=◌ m f ws c = and_then (m ws c) f

abbrev pub ◌>>◌ : {A B : Type 0} → Step A → Step B → Step B
◌>>◌ m k ws c = and_then (m ws c) (λ a. k)

-- The cache as it is, and a change of it.
abbrev pub get : Step Cache
get ws c = Result.done c ws c

abbrev pub modify : (Cache → Cache) → Step (Unit {0})
modify f ws c = Result.done tt ws (f c)

-- `sleep_on`: the next state.
abbrev pub sleep_on : Step (Unit {0})
sleep_on [] c = Result.asleep
sleep_on (w ∷ ws) c = Result.done tt ws w

-- A branch on a pointer.
abbrev pub on_null : {A B : Type 0} → Option A → Step B → (A → Step B) → Step B
on_null none k f = k
on_null (some a) k f = f a
