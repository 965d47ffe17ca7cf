-- ===== src/Shell/Levels.antt =====
-- Parsing pipes, backgrounds, lists and brackets that were printed.
use hyu_ele.Prelude.{
  ℕ, zero, suc, ◌+◌, ◌-◌, ◌≡◌, ◌≤◌, refl, ap, ◌∙◌, arith, Bool, true, false, List, [], ◌∷◌, ◌++◌,
}
use mathlib.Core.List.{append_assoc}
use hyu_ele.Shell.{
  Cmd, pipecmd, listcmd, backcmd, Token, gettoken, head_in, peek, parse_backs, parseline, parsepipe,
  parseexec, Parsed, ok, bind,
}
use hyu_ele.Shell.Printer.{
  IsPrintable, at_line, amp, piped, atom, show, Tight, Tight-cons, Tight-show,
}
use hyu_ele.Shell.Tokens.{
  peek-as, gettoken-symbol, parseredirs-stop, parse_backs-stop, parse_backs-back,
}
use hyu_ele.Shell.Args.{stops, ends, pipe_ends, stops-Tight, AtomWith}

-- With `n` units of fuel a printed command is read back in front of a string that ends it.
abbrev pub AtomOf : Cmd → ℕ → Type 0
AtomOf c n =
    (k : ℕ) (s : List ℕ) → stops ends s ≡ true → n ≤ k → parseexec k (show atom c ++ s) ≡ ok c s

abbrev pub PipeOf : Cmd → ℕ → Type 0
PipeOf c n =
    (k : ℕ) (s : List ℕ)
    → stops pipe_ends s ≡ true
    → n ≤ k
    → parsepipe k (show piped c ++ s) ≡ ok c s

abbrev pub LineOf : Cmd → ℕ → Type 0
LineOf c n =
    (k : ℕ) (s : List ℕ)
    → stops (b')' ∷ []) s ≡ true
    → n ≤ k
    → parseline k (show at_line c ++ s) ≡ ok c s

-- `parsepipe` reads the part in front of the signs `&`, and `parse_backs` those.
abbrev pub AmpOf : Cmd → ℕ → Type 0
AmpOf c n =
    (k : ℕ) (s : List ℕ)
    → stops pipe_ends s ≡ true
    → n ≤ k
    → (c0 : Cmd) × (s0 : List ℕ) × (i : ℕ) × (parsepipe k (show amp c ++ s) ≡ ok c0 s0)
      × ((m : ℕ) → parse_backs (i + m) c0 s0 ≡ parse_backs m c s)
      × (i ≤ n)

pub AtomWith-AtomOf : (c : Cmd) (n : ℕ) → AtomWith c n → AtomOf c (n + 1)
AtomWith-AtomOf c n a k s st le =
    let t = stops-Tight s (wider s st) in
    a k 1 s c s (wider s st) le (parseredirs-stop 0 c s t (no_arrow s st)) st
  where
    wider : (s : List ℕ) → stops ends s ≡ true → stops (b'<' ∷ b'>' ∷ ends) s ≡ true
    wider [] h = refl
    wider (c ∷ cs) h = ground arith

    no_arrow : (s : List ℕ) → stops ends s ≡ true → head_in (b'<' ∷ b'>' ∷ []) s ≡ false
    no_arrow [] h = refl
    no_arrow (c ∷ cs) h = ground arith

-- What a string does not start with, and that it has no white space in front.
pipe_stop :
    (s : List ℕ)
    → stops pipe_ends s ≡ true
    → Tight s × (head_in (b'|' ∷ []) s ≡ false) × (stops ends s ≡ true)
pipe_stop [] h = (stops-Tight [] refl, refl, refl)
pipe_stop (c ∷ cs) h = (stops-Tight (c ∷ cs) (ground arith), ground arith, ground arith)

line_stop :
    (s : List ℕ)
    → stops (b')' ∷ []) s ≡ true
    → Tight s
      × (head_in (b';' ∷ []) s ≡ false)
      × (head_in (b'&' ∷ []) s ≡ false)
      × (stops pipe_ends s ≡ true)
line_stop [] h = (stops-Tight [] refl, refl, refl, refl)
line_stop (c ∷ cs) h =
    (stops-Tight (c ∷ cs) (ground arith), ground arith, ground arith, ground arith)

abbrev pipe_from : ℕ → Cmd → Bool × List ℕ → Parsed
pipe_from k c p = elim p.0 [
  | false ↦ ok c p.1
  | true ↦ bind (parsepipe k (gettoken p.1).rest) (λ d s3. ok (pipecmd c d) s3)
]

parsepipe_step :
    (k : ℕ) (s : List ℕ)
    → parsepipe (suc k) s ≡ bind (parseexec k s) (λ c s1. pipe_from k c (peek (b'|' ∷ []) s1))
unfolding parsepipe
parsepipe_step k s = refl

pub PipeOf-single : (c : Cmd) (n : ℕ) → AtomOf c n → show piped c ≡ show atom c → PipeOf c (n + 1)
PipeOf-single c n a e zero s st le = absurd (omega arith)
PipeOf-single c n a e (suc k) s st le =
    let (t, no_pipe, stop) = pipe_stop s st in
    ap (λ z. parsepipe (suc k) (z ++ s)) e
    ∙ parsepipe_step k (show atom c ++ s)
    ∙ ap (λ z. bind z (λ c s1. pipe_from k c (peek (b'|' ∷ []) s1))) (a k s stop (omega arith))
    ∙ ap (pipe_from k c) (peek-as (b'|' ∷ []) s false t no_pipe)

pub PipeOf-pipe :
    (a b : Cmd) (n m : ℕ)
    → IsPrintable b
    → AtomOf a n
    → PipeOf b m
    → PipeOf (pipecmd a b) (n + m + 1)
PipeOf-pipe a b n m p x y zero s st le = absurd (omega arith)
PipeOf-pipe a b n m p x y (suc k) s st le =
    let (t, no_pipe, stop) = pipe_stop s st in
    let rest = show piped b ++ s in
    let tight = Tight-show piped b s p t in
    ap (parsepipe (suc k)) (append_assoc (show atom a) (b'|' ∷ show piped b) s)
    ∙ parsepipe_step k (show atom a ++ (b'|' ∷ rest))
    ∙ ap (λ z. bind z (λ c s1. pipe_from k c (peek (b'|' ∷ []) s1)))
        (x k (b'|' ∷ rest) refl (omega arith))
    ∙ ap (pipe_from k a) (peek-as (b'|' ∷ []) (b'|' ∷ rest) true (Tight-cons b'|' rest refl) refl)
    ∙ ap (λ (z : Token). bind (parsepipe k z.rest) (λ d s3. ok (pipecmd a d) s3))
        (gettoken-symbol b'|' rest refl tight)
    ∙ ap (λ z. bind z (λ d s3. ok (pipecmd a d) s3)) (y k s st (omega arith))

pub AmpOf-single : (c : Cmd) (n : ℕ) → PipeOf c n → show amp c ≡ show piped c → AmpOf c n
AmpOf-single c n a e k s st le = (
  c,
  s,
  0,
  ap (λ z. parsepipe k (z ++ s)) e ∙ a k s st le,
  λ m. ap (λ z. parse_backs z c s) (let q : 0 + m ≡ m = omega arith in q),
  omega arith,
)

pub AmpOf-back : (c : Cmd) (n : ℕ) → AmpOf c n → AmpOf (backcmd c) (n + 1)
AmpOf-back c n a k s st le =
    let (c0, s0, i, e, f, b) = a k (b'&' ∷ s) refl (omega arith) in
    let (t, x, y) = pipe_stop s st in
    (
      c0,
      s0,
      i + 1,
      ap (parsepipe k) (append_assoc (show amp c) (b'&' ∷ []) s) ∙ e,
      λ m.
          ap (λ z. parse_backs z c0 s0) (let q : i + 1 + m ≡ i + suc m = omega arith in q)
          ∙ f (suc m)
          ∙ parse_backs-back m c s t,
      omega arith,
    )

abbrev line_tail : ℕ → Cmd → Bool × List ℕ → Parsed
line_tail k d p = elim p.0 [
  | false ↦ ok d p.1
  | true ↦ bind (parseline k (gettoken p.1).rest) (λ e s4. ok (listcmd d e) s4)
]

abbrev line_from : ℕ → Cmd → List ℕ → Parsed
line_from k c s = bind (parse_backs k c s) (λ d s2. line_tail k d (peek (b';' ∷ []) s2))

parseline_step : (k : ℕ) (s : List ℕ) → parseline (suc k) s ≡ bind (parsepipe k s) (line_from k)
unfolding parseline
parseline_step k s = refl

-- `parseline` up to the sign `;` or the end.
parseline-amp :
    (c : Cmd) (n k : ℕ) (s : List ℕ)
    → AmpOf c n
    → stops pipe_ends s ≡ true
    → head_in (b'&' ∷ []) s ≡ false
    → n + 1 ≤ k
    → parseline (suc k) (show amp c ++ s) ≡ line_tail k c (peek (b';' ∷ []) s)
parseline-amp c n k s a st black le =
    let (c0, s0, i, e, f, b) = a k s st (omega arith) in
    let (t, x, y) = pipe_stop s st in
    let m = k - i - 1 in
    let q : k ≡ i + suc m = omega arith in
    let backs : parse_backs k c0 s0 ≡ ok c s =
      ap (λ z. parse_backs z c0 s0) q ∙ f (suc m) ∙ parse_backs-stop m c s t black in
    parseline_step k (show amp c ++ s)
    ∙ ap (λ z. bind z (line_from k)) e
    ∙ ap (λ z. bind z (λ d s2. line_tail k d (peek (b';' ∷ []) s2))) backs

pub LineOf-single : (c : Cmd) (n : ℕ) → AmpOf c n → show at_line c ≡ show amp c → LineOf c (n + 2)
LineOf-single c n a e zero s st le = absurd (omega arith)
LineOf-single c n a e (suc k) s st le =
    let (t, no_list, no_amp, stop) = line_stop s st in
    ap (λ z. parseline (suc k) (z ++ s)) e
    ∙ parseline-amp c n k s a stop no_amp (omega arith)
    ∙ ap (line_tail k c) (peek-as (b';' ∷ []) s false t no_list)

pub LineOf-list :
    (a b : Cmd) (n m : ℕ)
    → IsPrintable b
    → AmpOf a n
    → LineOf b m
    → LineOf (listcmd a b) (n + m + 2)
LineOf-list a b n m p x y zero s st le = absurd (omega arith)
LineOf-list a b n m p x y (suc k) s st le =
    let (t, no_list, no_amp, stop) = line_stop s st in
    let rest = show at_line b ++ s in
    let tight = Tight-show at_line b s p t in
    ap (parseline (suc k)) (append_assoc (show amp a) (b';' ∷ show at_line b) s)
    ∙ parseline-amp a n k (b';' ∷ rest) x refl refl (omega arith)
    ∙ ap (line_tail k a) (peek-as (b';' ∷ []) (b';' ∷ rest) true (Tight-cons b';' rest refl) refl)
    ∙ ap (λ (z : Token). bind (parseline k z.rest) (λ e s4. ok (listcmd a e) s4))
        (gettoken-symbol b';' rest refl tight)
    ∙ ap (λ z. bind z (λ e s4. ok (listcmd a e) s4)) (y k s st (omega arith))
