-- ===== src/Signal/Frame.antt =====
-- What `do_signal` puts on the user's stack for a handler, and the masks.
use linux.Common.{
  ℕ, zero, suc, ◌+◌, ◌-◌, ◌*◌, ◌%◌, ◌^◌, ◌≤◌, ◌<◌, bit_and, List, [], ◌∷◌, ◌++◌, ◌!=◌,
  if◌then◌else◌, length, arith, ◌≡◌, refl, ap, ap₂, ◌∙◌, sym, max,
}
use linux.Common.Bits.{bit, bit-bit_or}
use linux.Signal.{
  Process, Sigaction, Registers, Memory, Machine, Outcome, action_of, restart_call, invoke,
  do_signal, put_fs_long, put_longs, stacked, longs, sa_nomask,
}

-- The `n` long words from address `a` on.
unfoldable pub get_longs : ℕ → ℕ → Memory → List ℕ
get_longs zero a memory = []
get_longs (suc n) a memory = memory a ∷ get_longs n (a + 4) memory

put_longs-below :
    (vals : List ℕ) (a e : ℕ) (memory : Memory) → a < e → put_longs vals e memory a ≡ memory a
unfolding put_longs put_fs_long
put_longs-below [] a e memory h = refl
put_longs-below (v ∷ vals) a e memory h =
    put_longs-below vals a (e + 4) (put_fs_long v e memory) (omega arith) ∙ ground arith

put_longs-above :
    (vals : List ℕ) (a e : ℕ) (memory : Memory)
    → e + 4 * length vals ≤ a
    → put_longs vals e memory a ≡ memory a
unfolding put_longs put_fs_long
put_longs-above [] a e memory h = refl
put_longs-above (v ∷ vals) a e memory h =
    put_longs-above vals a (e + 4) (put_fs_long v e memory) (omega arith) ∙ ground arith

get_longs-put_longs :
    (vals : List ℕ) (e : ℕ) (memory : Memory)
    → get_longs (length vals) e (put_longs vals e memory) ≡ vals
unfolding put_longs get_longs put_fs_long
get_longs-put_longs [] e memory = refl
get_longs-put_longs (v ∷ vals) e memory =
    ap₂ ◌∷◌ (put_longs-below vals e (e + 4) (put_fs_long v e memory) (omega arith) ∙ ground arith)
      (get_longs-put_longs vals (e + 4) (put_fs_long v e memory))

length-stacked :
    (n : ℕ) (sa : Sigaction) (p : Process) (r : Registers) → length (stacked n sa p r) ≡ longs sa
unfolding stacked
length-stacked n sa p r = ground arith

restart_call-esp :
    (n flags orig_eax : ℕ) (r : Registers) → (restart_call n flags orig_eax r).esp ≡ r.esp
unfolding restart_call
restart_call-esp n flags orig_eax r = ground arith

longs_le : (sa : Sigaction) → longs sa ≤ 8
longs_le sa = ground arith

wrapped : (e k : ℕ) → 4 * k ≤ e → e < 2 ^ 32 → (2 ^ 32 + e - 4 * k) % 2 ^ 32 ≡ e - 4 * k
wrapped e k h l = omega arith

-- What `invoke` does to the machine.
module _ (n : ℕ) (m : Machine) (k : 32 ≤ m.registers.esp) (l : m.registers.esp < 2 ^ 32) where
  abbrev sa : Sigaction
  sa = action_of n m.current

  abbrev top : ℕ
  top = (2 ^ 32 + m.registers.esp - 4 * longs sa) % 2 ^ 32

  top_lem : top + 4 * longs sa ≡ m.registers.esp
  top_lem =
      omega (arith, wrapped m.registers.esp (longs sa) (omega (arith, longs_le sa)) l, longs_le sa)

  invoke-esp : (invoke n m).1.registers.esp + 4 * longs sa ≡ m.registers.esp
  unfolding invoke
  invoke-esp = top_lem

  invoke-words :
      let r = (invoke n m).1 in
      get_longs (longs sa) r.registers.esp r.memory ≡ stacked n sa m.current m.registers
  unfolding invoke
  invoke-words =
      ap (λ c. get_longs c top (put_longs (stacked n sa m.current m.registers) top m.memory))
        (sym (length-stacked n sa m.current m.registers))
      ∙ get_longs-put_longs (stacked n sa m.current m.registers) top m.memory

  invoke-above : (a : ℕ) → m.registers.esp ≤ a → (invoke n m).1.memory a ≡ m.memory a
  unfolding invoke
  invoke-above a h =
      put_longs-above (stacked n sa m.current m.registers) a top m.memory
        (omega (arith, length-stacked n sa m.current m.registers, top_lem))

  invoke-blocked :
      (i : ℕ)
      → bit i (invoke n m).1.current.blocked ≡ max (bit i m.current.blocked) (bit i sa.sa_mask)
  unfolding invoke
  invoke-blocked i = bit-bit_or i m.current.blocked sa.sa_mask

invoke-handler : (n : ℕ) (m : Machine) → (invoke n m).0 ≡ Outcome.handler
unfolding invoke
invoke-handler n m = refl

invoke-eip :
    (n : ℕ) (m : Machine) → (invoke n m).1.registers.eip ≡ (action_of n m.current).sa_handler
unfolding invoke
invoke-eip n m = refl

invokes :
    (n orig_eax : ℕ) (m : Machine)
    → 2 ≤ (action_of n m.current).sa_handler
    → do_signal n orig_eax m
      ≡ invoke n (record m {
        registers = restart_call n (action_of n m.current).sa_flags orig_eax m.registers;
      })
unfolding do_signal
invokes n orig_eax m h = ground arith

-- A signal with a handler, and room for 8 words on the user's stack: the handler is entered with the
-- restorer's address, the signal's number, the mask unless SA_NOMASK is set, and the registers on
-- its stack, the instruction pointer last; what lies above the old stack pointer is not touched, and
-- the mask gets the action's own mask besides.
pub do_signal-stack :
    (n orig_eax : ℕ) (m : Machine)
    → let sa = action_of n m.current in
      let regs = restart_call n sa.sa_flags orig_eax m.registers in
      let r = (do_signal n orig_eax m).1 in
      2 ≤ sa.sa_handler
      → 32 ≤ m.registers.esp
      → m.registers.esp < 2 ^ 32
      → ((do_signal n orig_eax m).0 ≡ Outcome.handler)
        × (r.registers.eip ≡ sa.sa_handler)
        × (r.registers.esp + 4 * longs sa ≡ m.registers.esp)
        × (get_longs (longs sa) r.registers.esp r.memory
            ≡ sa.sa_restorer
                ∷ n
                ∷ (if bit_and sa.sa_flags sa_nomask != 0 then [] else m.current.blocked ∷ [])
              ++ regs.eax ∷ regs.ecx ∷ regs.edx ∷ regs.eflags ∷ regs.eip ∷ [])
        × ((a : ℕ) → m.registers.esp ≤ a → r.memory a ≡ m.memory a)
        × ((i : ℕ) → bit i r.current.blocked ≡ max (bit i m.current.blocked) (bit i sa.sa_mask))
unfolding stacked
do_signal-stack n orig_eax m h k l =
    let sa = action_of n m.current in
    let regs = restart_call n sa.sa_flags orig_eax m.registers in
    let same = restart_call-esp n sa.sa_flags orig_eax m.registers in
    let m' = record m { registers = regs } in
    let k' : 32 ≤ regs.esp = rw same k in
    let l' : regs.esp < 2 ^ 32 = rw same l in
    rw (invokes n orig_eax m h) (
      invoke-handler n m',
      invoke-eip n m',
      invoke-esp n m' k' l' ∙ same,
      invoke-words n m' k' l',
      (λ a q. invoke-above n m' k' l' a (omega (arith, q, same))),
      invoke-blocked n m' k' l',
    )
