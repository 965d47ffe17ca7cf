-- ===== src/Console.antt =====
-- Console input: `consoleintr` and `consoleread` of xv6-public/console.c, with `cons.lock` held.
-- A `uint` wraps at 2^32. The echo of characters, the wakeup of readers and `procdump` itself are left
-- out; a reader that would sleep returns what it has copied.
pub mod Lines
pub mod Read
mod Tests
use hyu_ele.Prelude.{
  ℕ, zero, suc, ◌+◌, ◌-◌, ◌%◌, Bool, true, false, not, ◌&&◌, ◌||◌, ◌==◌, ltb, if◌then◌else◌, List,
  [], ◌∷◌,
}
use hyu_ele.Prelude.Maps.{update}

abbrev pub input_buf : ℕ
input_buf = 128

abbrev pub word_size : ℕ
word_size = 4294967296

-- `C('P')`, `C('U')`, `C('H')` and `C('D')`.
abbrev pub ctrl_p : ℕ
ctrl_p = 16

abbrev pub ctrl_u : ℕ
ctrl_u = 21

abbrev pub ctrl_h : ℕ
ctrl_h = 8

abbrev pub ctrl_d : ℕ
ctrl_d = 4

pub record Input : Type 0 where
  pub buf : ℕ → ℕ
  pub r : ℕ
  pub w : ℕ
  pub e : ℕ

abbrev pub before : ℕ → ℕ
before k = (k + word_size - 1) % word_size

-- The loop of `C('U')`; the buffer has `INPUT_BUF` characters.
unfoldable pub kill_line : ℕ → Input → Input
kill_line zero i = i
kill_line (suc k) i =
    let rest = kill_line k (record i { e = before i.e }) in
    if not (i.e == i.w) && not (i.buf (before i.e % input_buf) == b'\n') then rest else i

-- A character goes into the buffer, and ends a line or not.
unfoldable pub store_char : ℕ → Input → Input
store_char c i =
    let i1 = record i { buf = update i.buf (i.e % input_buf) c; e = (i.e + 1) % word_size } in
    if c == b'\n' || c == ctrl_d || i1.e == (i1.r + input_buf) % word_size
    then record i1 { w = i1.e }
    else i1

-- The `switch` of `consoleintr`.
unfoldable pub console_key : ℕ → Input → Input
console_key c i =
    if c == ctrl_p
    then i
    else if c == ctrl_u
    then kill_line input_buf i
    else if c == ctrl_h || c == 127
    then (if i.e == i.w then i else record i { e = before i.e })
    else if not (c == 0) && ltb ((i.e + word_size - i.r) % word_size) input_buf
    then store_char (if c == b'\r' then b'\n' else c) i
    else i

-- Over the characters that `getc` gives; whether `procdump` follows.
unfoldable pub consoleintr : List ℕ → Bool → Input → Bool × Input
consoleintr [] dump i = (dump, i)
consoleintr (c ∷ cs) dump i = consoleintr cs (dump || c == ctrl_p) (console_key c i)

pub data ConsoleRead : Type 0 where
  got : List ℕ → Input → ConsoleRead
  was_killed : Input → ConsoleRead
  waits : List ℕ → Input → ConsoleRead

abbrev pub copied_first : ℕ → ConsoleRead → ConsoleRead
copied_first c (got cs i) = got (c ∷ cs) i
copied_first c (was_killed i) = was_killed i
copied_first c (waits cs i) = waits (c ∷ cs) i

-- With `n` characters left to read; `some_copied` is `n < target`.
unfoldable pub consoleread : Bool → ℕ → Bool → Input → ConsoleRead
consoleread killed zero some_copied i = got [] i
consoleread killed (suc n) some_copied i =
    let c = i.buf (i.r % input_buf) in
    let i1 = record i { r = (i.r + 1) % word_size } in
    let rest = consoleread killed n true i1 in
    if i.r == i.w
    then (if killed then was_killed i else waits [] i)
    else if c == ctrl_d
    then got [] (if some_copied then record i1 { r = before i1.r } else i1)
    else if c == b'\n'
    then got (c ∷ []) i1
    else copied_first c rest
