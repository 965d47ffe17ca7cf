-- ===== src/Shell/RoundTrip.antt =====
-- Every command that can be typed is printed and read back.
use hyu_ele.Prelude.{
  ℕ, zero, suc, ◌+◌, ◌*◌, ◌≡◌, ◌≤◌, refl, sym, ap, ◌∙◌, arith, Bool, true, false, not, List, [],
  ◌∷◌, ◌++◌, length, length-append,
}
use mathlib.Core.List.{append_assoc, append-nil}
use hyu_ele.Shell.{
  Cmd, execcmd, redircmd, pipecmd, listcmd, backcmd, Token, gettoken, peek, parseredirs, parseline,
  parseexec, parseblock, parsecmd, enough, Parsed, ok, panic, bind, no_block, missing_paren,
  leftovers, skip_white,
}
use hyu_ele.Shell.Printer.{
  IsPrintable, Level, at_line, amp, piped, atom, bracket, is_line, is_loose, is_atom, arrow, words,
  show, Tight-cons, Tight-show,
}
use hyu_ele.Shell.Tokens.{peek-as, gettoken-symbol, parseredirs-more}
use hyu_ele.Shell.Args.{
  stops-Tight, exec_from, parseexec_step, AtomWith, exec-AtomWith, redir-AtomWith,
}
use hyu_ele.Shell.Levels.{
  AtomOf, PipeOf, AmpOf, LineOf, AtomWith-AtomOf, PipeOf-single, PipeOf-pipe, AmpOf-single,
  AmpOf-back, LineOf-single, LineOf-list,
}

abbrev block_close : ℕ → Cmd → Bool × List ℕ → Parsed
block_close k c p = elim p.0 [
  | false ↦ panic missing_paren
  | true ↦ parseredirs k c (gettoken p.1).rest
]

abbrev block_open : ℕ → Bool × List ℕ → Parsed
block_open k p = elim p.0 [
  | false ↦ panic no_block
  | true ↦ bind (parseline k (gettoken p.1).rest) (λ c s2. block_close k c (peek (b')' ∷ []) s2))
]

parseblock_step : (k : ℕ) (s : List ℕ) → parseblock (suc k) s ≡ block_open k (peek (b'(' ∷ []) s)
unfolding parseblock
parseblock_step k s = refl

-- A command in brackets.
atom-bracket :
    (c : Cmd) (n : ℕ)
    → IsPrintable c
    → LineOf c n
    → show atom c ≡ b'(' ∷ (show at_line c ++ (b')' ∷ []))
    → AtomWith c (n + 2)
atom-bracket c n p x e zero j s d r f le re st = absurd (omega arith)
atom-bracket c n p x e (suc zero) j s d r f le re st = absurd (omega arith)
atom-bracket c n p x e (suc (suc k)) j s d r f le re st =
    let rest = show at_line c ++ (b')' ∷ s) in
    let close = Tight-cons b')' s refl in
    let open_peek = peek-as (b'(' ∷ []) (b'(' ∷ rest) true (Tight-cons b'(' rest refl) refl in
    ap (λ z. parseexec (suc (suc k)) (z ++ s)) e
    ∙ ap (λ z. parseexec (suc (suc k)) (b'(' ∷ z)) (append_assoc (show at_line c) (b')' ∷ []) s)
    ∙ parseexec_step (suc k) (b'(' ∷ rest)
    ∙ ap (exec_from (suc k)) open_peek
    ∙ parseblock_step k (b'(' ∷ rest)
    ∙ ap (block_open k) open_peek
    ∙ ap (λ (z : Token). bind (parseline k z.rest) (λ c s2. block_close k c (peek (b')' ∷ []) s2)))
        (gettoken-symbol b'(' rest refl (Tight-show at_line c (b')' ∷ s) p close))
    ∙ ap (λ z. bind z (λ c s2. block_close k c (peek (b')' ∷ []) s2)))
        (x k (b')' ∷ s) refl (omega arith))
    ∙ ap (block_close k c) (peek-as (b')' ∷ []) (b')' ∷ s) true close refl)
    ∙ ap (λ (z : Token). parseredirs k c z.rest) (gettoken-symbol b')' s refl (stops-Tight s f))
    ∙ parseredirs-more j k c s d r re (omega arith)

-- The fuel that reading a command takes.
abbrev need : Cmd → ℕ
need (execcmd ws) = length ws + 2
need (redircmd c f m d) = need c + 1
need (pipecmd a b) = need a + need b + 8
need (listcmd a b) = need a + need b + 10
need (backcmd c) = need c + 7

bracketed :
    (c : Cmd) (n : ℕ)
    → IsPrintable c
    → LineOf c n
    → show atom c ≡ b'(' ∷ (show at_line c ++ (b')' ∷ []))
    → n + 2 ≤ need c
    → AtomWith c (need c)
bracketed c n p line e le k j s d r f l = atom-bracket c n p line e k j s d r f (omega arith)

record Reads (c : Cmd) : Type 0 where
  with_redirs : AtomWith c (need c)
  bare : AtomOf c (need c + 1)
  as_pipe : PipeOf c (need c + 2)
  as_amp : AmpOf c (need c + 2)
  as_line : LineOf c (need c + 4)

-- A command that needs no brackets anywhere, or always outside of lines.
Reads-simple :
    (c : Cmd)
    → AtomWith c (need c)
    → show piped c ≡ show atom c
    → show amp c ≡ show piped c
    → show at_line c ≡ show amp c
    → Reads c
Reads-simple c a e f g =
    let b = AtomWith-AtomOf c (need c) a in
    let p : PipeOf c (need c + 2) =
      λ k s st le. PipeOf-single c (need c + 1) b e k s st (omega arith) in
    let q = AmpOf-single c (need c + 2) p f in
    record {
      with_redirs = a;
      bare = b;
      as_pipe = p;
      as_amp = q;
      as_line = λ k s st le. LineOf-single c (need c + 2) q g k s st (omega arith);
    }

Reads-show : (c : Cmd) → IsPrintable c → Reads c
Reads-show (execcmd ws) p = Reads-simple (execcmd ws) (exec-AtomWith ws p) refl refl refl
Reads-show (redircmd c f m d) p =
    let ih = Reads-show c p.0 in
    Reads-simple (redircmd c f m d) (redir-AtomWith c f m d (need c) p.1 p.2 p.3 ih.with_redirs)
      refl refl refl
Reads-show (pipecmd a b) p =
    let x = Reads-show a p.0 in
    let y = Reads-show b p.1 in
    let c = pipecmd a b in
    let low = PipeOf-pipe a b (need a + 1) (need b + 2) p.1 x.bare y.as_pipe in
    let low_amp = AmpOf-single c _ low refl in
    let line = LineOf-single c _ low_amp refl in
    let whole = bracketed c _ p line refl (omega arith) in
    let pipe : PipeOf c (need c + 2) = λ k s st le. low k s st (omega arith) in
    record {
      with_redirs = whole;
      bare = AtomWith-AtomOf c (need c) whole;
      as_pipe = pipe;
      as_amp = AmpOf-single c (need c + 2) pipe refl;
      as_line = λ k s st le. line k s st (omega arith);
    }
Reads-show (listcmd a b) p =
    let x = Reads-show a p.0 in
    let y = Reads-show b p.1 in
    let c = listcmd a b in
    let line = LineOf-list a b (need a + 2) (need b + 4) p.1 x.as_amp y.as_line in
    let whole = bracketed c _ p line refl (omega arith) in
    let bare = AtomWith-AtomOf c (need c) whole in
    let pipe : PipeOf c (need c + 2) =
      λ k s st le. PipeOf-single c (need c + 1) bare refl k s st (omega arith) in
    record {
      with_redirs = whole;
      bare = bare;
      as_pipe = pipe;
      as_amp = AmpOf-single c (need c + 2) pipe refl;
      as_line = λ k s st le. line k s st (omega arith);
    }
Reads-show (backcmd c0) p =
    let x = Reads-show c0 p in
    let c = backcmd c0 in
    let low = AmpOf-back c0 (need c0 + 2) x.as_amp in
    let line = LineOf-single c _ low refl in
    let whole = bracketed c _ p line refl (omega arith) in
    let bare = AtomWith-AtomOf c (need c) whole in
    let pipe : PipeOf c (need c + 2) =
      λ k s st le. PipeOf-single c (need c + 1) bare refl k s st (omega arith) in
    record {
      with_redirs = whole;
      bare = bare;
      as_pipe = pipe;
      as_amp = λ k s st le.
          let (c1, s1, i, e, f, b) = low k s st (omega arith) in (c1, s1, i, e, f, omega arith);
      as_line = λ k s st le. line k s st (omega arith);
    }

length-bracket : (b : Bool) (s : List ℕ) → length s ≤ length (bracket b s)
length-bracket true s = let e = length-append s (b')' ∷ []) in omega arith
length-bracket false s = omega arith

need-le : (l : Level) (c : Cmd) → need c ≤ 16 * length (show l c) + 2
need-le l (execcmd ws) = let q = many ws in omega arith
  where
    many : (ws : List (List ℕ)) → length ws ≤ length (words ws)
    many [] = omega arith
    many (w ∷ ws) = let ih = many ws in let e = length-append w (b' ' ∷ words ws) in omega arith
need-le l (redircmd c f m d) =
    let ih = need-le atom c in
    let e = length-append (show atom c) (arrow d ∷ (f ++ (b' ' ∷ []))) in omega arith
need-le l (pipecmd a b) =
    let x = need-le atom a in
    let y = need-le piped b in
    let e = length-append (show atom a) (b'|' ∷ show piped b) in
    let o = length-bracket (is_atom l) (show atom a ++ (b'|' ∷ show piped b)) in omega arith
need-le l (listcmd a b) =
    let x = need-le amp a in
    let y = need-le at_line b in
    let e = length-append (show amp a) (b';' ∷ show at_line b) in
    let o = length-bracket (not (is_line l)) (show amp a ++ (b';' ∷ show at_line b)) in omega arith
need-le l (backcmd c) =
    let x = need-le amp c in
    let e = length-append (show amp c) (b'&' ∷ []) in
    let o = length-bracket (not (is_loose l)) (show amp c ++ (b'&' ∷ [])) in omega arith

-- A command of words that is printed, with brackets where the grammar needs them, is read by `parsecmd`
-- as the same command.
pub parsecmd-show : (c : Cmd) → IsPrintable c → parsecmd (show at_line c) ≡ ok c []
unfolding parsecmd peek skip_white
parsecmd-show c p =
    let s = show at_line c in
    let r =
      (Reads-show c p).as_line (enough s) [] refl (let q = need-le at_line c in omega arith) in
    let e : parseline (enough s) s ≡ ok c [] = ap (parseline (enough s)) (sym (append-nil s)) ∙ r in
    ap
      (λ z.
        bind z (λ c s1. elim (peek [] s1).1 [ [] ↦ ok c [] | d ∷ ds ↦ panic (leftovers (d ∷ ds)) ]))
      e
