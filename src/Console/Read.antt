-- ===== src/Console/Read.antt =====
-- `consoleread` on the characters that are ready, and lines from the keyboard to the reader.
use hyu_ele.Prelude.{
  ℕ, zero, suc, ◌+◌, ◌%◌, ◌≡◌, ◌≢◌, ◌<◌, inl, inr, refl, sym, ap, ◌∙◌, arith, Bool, true, false,
  not, ◌&&◌, ◌||◌, ◌==◌, ltb, if◌then◌else◌, Bool-cases, List, [], ◌∷◌, ◌++◌, length, length-append,
}
use mathlib.Core.List.{append_assoc, append-nil}
use hyu_ele.Prelude.Maps.{has}
use hyu_ele.Console.{
  input_buf, word_size, ctrl_p, ctrl_u, ctrl_h, ctrl_d, Input, before, console_key, consoleintr,
  ConsoleRead, got, was_killed, waits, copied_first, consoleread,
}
use hyu_ele.Console.Lines.{Chars-shift, Holds, ends_line, keyed, console_key-Holds}

-- What is read, what stays ready, and whether the reader is done.
pub record Taken : Type 0 where
  pub out : List ℕ
  pub rest : List ℕ
  pub done : Bool

abbrev pub read_ready : ℕ → Bool → List ℕ → Taken
read_ready zero copied rs = record { out = []; rest = rs; done = true }
read_ready (suc n) copied [] = record { out = []; rest = []; done = false }
read_ready (suc n) copied (c ∷ cs) =
    let more = read_ready n true cs in
    if c == ctrl_d
    then record { out = []; rest = if copied then c ∷ cs else cs; done = true }
    else if c == b'\n'
    then record { out = c ∷ []; rest = cs; done = true }
    else record more { out = c ∷ more.out }

abbrev pub answer : Bool → Taken → Input → ConsoleRead
answer killed t j = if t.done then got t.out j else if killed then was_killed j else waits t.out j

copied_first-answer :
    (c : ℕ) (killed : Bool) (t : Taken) (j : Input)
    → copied_first c (answer killed t j) ≡ answer killed (record t { out = c ∷ t.out }) j
copied_first-answer c killed t j = elim (Bool-cases t.done) [
  | inl e ↦ rw (e, answer) refl
  | inr e ↦ elim (Bool-cases killed) [
    | inl k ↦ rw (e, k, answer) refl
    | inr k ↦ rw (e, k, answer) refl
  ]
]

-- One character is read.
take_one :
    (i : Input) (c : ℕ) (rs ps : List ℕ)
    → Holds i (c ∷ rs) ps
    → Holds (record i { r = (i.r + 1) % word_size }) rs ps
      × (i.buf (i.r % input_buf) ≡ c)
      × ((i.r == i.w) ≡ false)
take_one i c rs ps h =
    let ra = h.ready in
    let ed = h.edited in
    let b = h.read_bound in
    let ro = h.room in
    (
      record {
        chars =
            Chars-shift i.buf (i.r + 1) ((i.r + 1) % word_size) (rs ++ ps) (omega arith) h.chars.1;
        read_bound = omega arith;
        ready = omega arith;
        edited = omega arith;
        room = omega arith;
        one_line = h.one_line;
      },
      h.chars.0,
      let n : i.r ≢ i.w = λ z. omega arith in ground arith,
    )

-- `consoleread` reads the ready characters up to a newline, a control-D or the end of the caller's
-- buffer; a control-D behind other characters stays, one alone is taken. If the ready characters are used
-- up first, it gives up when the process was killed and waits otherwise.
pub consoleread_lem :
    (killed : Bool) (n : ℕ) (copied : Bool) (i : Input) (rs ps : List ℕ)
    → Holds i rs ps
    → (j : Input) × Holds j (read_ready n copied rs).rest ps
      × (consoleread killed n copied i ≡ answer killed (read_ready n copied rs) j)
unfolding consoleread
consoleread_lem killed zero copied i rs ps h = (i, h, refl)
consoleread_lem killed (suc n) copied i [] ps h =
    let ra = h.ready in
    let b = h.read_bound in
    let same : i.r ≡ i.w = omega arith in
    let t : (i.r == i.w) ≡ true = ground arith in (i, h, rw (t, consoleread) refl)
consoleread_lem killed (suc n) copied i (c ∷ cs) ps h =
    let (h1, at, t) = take_one i c cs ps h in
    let i1 = record i { r = (i.r + 1) % word_size } in
    elim (Bool-cases (c == ctrl_d)) [
      | inl d ↦ elim (Bool-cases copied) [
        | inl k ↦
            let back : before ((i.r + 1) % word_size) ≡ i.r = let b = h.read_bound in omega arith in
            (
              i,
              rw (d, k) h,
              rw (t, at, d, k, consoleread) (ap (λ x. got [] (record i { r = x })) back),
            )
        | inr k ↦ (i1, rw (d, k) h1, rw (t, at, d, k, consoleread) refl)
      ]
      | inr d ↦ elim (Bool-cases (c == b'\n')) [
        | inl l ↦ (i1, rw (d, l) h1, rw (t, at, d, l, consoleread) refl)
        | inr l ↦
            let (j, hj, e) = consoleread_lem killed n true i1 cs ps h1 in
            (
              j,
              rw (d, l) hj,
              rw (t, at, d, l, consoleread)
                  (ap (copied_first c) e ∙ copied_first-answer c killed (read_ready n true cs) j),
            )
      ]
    ]

-- Characters that are put into a line as they are.
abbrev pub is_text : ℕ → Bool
is_text c = not (has c (ctrl_p ∷ ctrl_u ∷ ctrl_h ∷ 127 ∷ 0 ∷ b'\r' ∷ b'\n' ∷ ctrl_d ∷ []))

abbrev pub all_text : List ℕ → Bool
all_text [] = true
all_text (c ∷ cs) = is_text c && all_text cs

keyed-text :
    (c : ℕ) (rs ps : List ℕ)
    → is_text c ≡ true
    → length rs + length ps + 1 < input_buf
    → keyed c rs ps ≡ (rs, ps ++ (c ∷ []))
keyed-text c rs ps h lt =
    let p : (c == ctrl_p) ≡ false = ground arith in
    let u : (c == ctrl_u) ≡ false = ground arith in
    let b : (c == ctrl_h || c == 127) ≡ false = ground arith in
    let z : (not (c == 0) && ltb (length rs + length ps) input_buf) ≡ true = ground arith in
    let r : (c == b'\r') ≡ false = ground arith in
    let e : ends_line c rs ps ≡ false = ground arith in rw (p, u, b, z, r, e) refl

keyed-newline :
    (rs ps : List ℕ)
    → length rs + length ps < input_buf
    → keyed b'\n' rs ps ≡ (rs ++ (ps ++ (b'\n' ∷ [])), [])
keyed-newline rs ps lt =
    let z : ltb (length rs + length ps) input_buf ≡ true = ground arith in rw z refl

type_text :
    (cs : List ℕ) (dump : Bool) (i : Input) (rs ps : List ℕ)
    → Holds i rs ps
    → all_text cs ≡ true
    → length rs + length ps + length cs < input_buf
    → Holds (consoleintr (cs ++ (b'\n' ∷ [])) dump i).1 (rs ++ ((ps ++ cs) ++ (b'\n' ∷ []))) []
unfolding consoleintr
type_text [] dump i rs ps h t lt =
    let e = keyed-newline rs ps (omega arith) in
    let k = console_key-Holds b'\n' i rs ps h in rw (append-nil ps) (rw e at k)
type_text (c ∷ cs) dump i rs ps h t lt =
    let l = length-append ps (c ∷ []) in
    let e = keyed-text c rs ps (ground arith) (omega arith) in
    let k : Holds (console_key c i) rs (ps ++ (c ∷ [])) = rw e at (console_key-Holds c i rs ps h) in
    rw (sym (append_assoc ps (c ∷ []) cs)) (
      type_text cs (dump || c == ctrl_p) (console_key c i) rs (ps ++ (c ∷ [])) k (ground arith)
        (omega arith))

read_ready-line :
    (cs : List ℕ) (n : ℕ) (copied : Bool) (rs : List ℕ)
    → all_text cs ≡ true
    → length cs < n
    → read_ready n copied (cs ++ (b'\n' ∷ rs))
      ≡ record { out = cs ++ (b'\n' ∷ []); rest = rs; done = true }
read_ready-line cs zero copied rs t lt = absurd (omega arith)
read_ready-line [] (suc n) copied rs t lt = refl
read_ready-line (c ∷ cs) (suc n) copied rs t lt =
    let d : (c == ctrl_d) ≡ false = ground arith in
    let l : (c == b'\n') ≡ false = ground arith in
    rw (d, l)
      (ap {A = Taken} (λ x. record x { out = c ∷ x.out })
        (read_ready-line cs n true rs (ground arith) (omega arith)))

-- A line of text that is typed on a console where nothing is left, ended by a newline and short enough
-- for the buffer, is what the next `consoleread` with room for it returns, and nothing is left again.
pub consoleintr-consoleread :
    (killed : Bool) (cs : List ℕ) (n : ℕ) (i : Input)
    → Holds i [] []
    → all_text cs ≡ true
    → length cs + 1 < input_buf
    → length cs < n
    → (j : Input) × (consoleread killed n false (consoleintr (cs ++ (b'\n' ∷ [])) false i).1
        ≡ got (cs ++ (b'\n' ∷ [])) j)
      × Holds j [] []
consoleintr-consoleread killed cs n i h t le lt =
    let i1 = (consoleintr (cs ++ (b'\n' ∷ [])) false i).1 in
    let ready : Holds i1 (cs ++ (b'\n' ∷ [])) [] = type_text cs false i [] [] h t (omega arith) in
    let (j, hj, e) = consoleread_lem killed n false i1 (cs ++ (b'\n' ∷ [])) [] ready in
    let q = read_ready-line cs n false [] t lt in (j, e ∙ ap (λ x. answer killed x j) q, rw q at hj)
