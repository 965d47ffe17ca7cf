-- ===== src/Strings/Tests.antt =====
-- Calls on small memories, and the theorems at them.
use hyu_ele.Prelude.{ℕ, ◌+◌, ◌≡◌, ◌<◌, refl, arith, false, if◌then◌else◌, ltb}
use hyu_ele.Strings.{Memory, memmove, memset, safestrcpy, copy_up, copy_down, stosb, stosl}
use hyu_ele.Strings.Move.{within, memmove_lem, safestrcpy_lem}

-- The bytes 1 to 9 at the addresses 1 to 9, and zeros behind them.
abbrev memory : Memory
memory x = if ltb x 10 then x else 0

-- Two overlapping copies, one for each direction.
moves_run : (memmove 3 1 5 memory 7 ≡ 5) × (memmove 1 3 5 memory 5 ≡ 7)
unfolding memmove copy_up copy_down
moves_run = (refl, refl)

sets_run : (memset 4 300 4 memory 6 ≡ 44) × (memset 5 300 4 memory 6 ≡ 44)
unfolding memset stosb stosl
sets_run = (refl, refl)

memmove_lem_example : memmove 3 1 5 memory 7 ≡ 5
memmove_lem_example = memmove_lem 3 1 5 memory 7

safestrcpy_lem_example :
    ((x : ℕ) → within 20 3 x ≡ false → safestrcpy 20 5 3 memory x ≡ memory x)
    × (j : ℕ) × (j < 3)
    × (safestrcpy 20 5 3 memory (20 + j) ≡ 0)
safestrcpy_lem_example = safestrcpy_lem 20 5 3 memory (omega arith)
