-- ===== src/Shell/Printer.antt =====
-- A printer of commands, the inverse of the parser of xv6-public/sh.c.
use hyu_ele.Prelude.{
  ℕ, ◌≡◌, ◌<◌, ◌≤◌, refl, arith, Bool, true, false, not, ◌&&◌, ◌||◌, ◌==◌, if◌then◌else◌, List, [],
  ◌∷◌, ◌++◌, length,
}
use mathlib.Core.List.{append_assoc}
use hyu_ele.Prelude.Maps.{has}
use hyu_ele.Shell.{
  whitespace, symbols, maxargs, Cmd, execcmd, redircmd, pipecmd, listcmd, backcmd, skip_white,
}

-- The characters of words.
abbrev pub is_plain : ℕ → Bool
is_plain c = not (has c whitespace || has c symbols)

abbrev pub all_plain : List ℕ → Bool
all_plain [] = true
all_plain (c ∷ cs) = is_plain c && all_plain cs

abbrev pub is_word : List ℕ → Bool
is_word [] = false
is_word (c ∷ cs) = is_plain c && all_plain cs

abbrev pub are_words : List (List ℕ) → Bool
are_words [] = true
are_words (w ∷ ws) = is_word w && are_words ws

-- The commands that can be typed: arguments and files are words, there are less than `MAXARGS`
-- arguments, and a redirection is `<` or `>`.
abbrev pub IsPrintable : Cmd → Type 0
IsPrintable (execcmd ws) = (are_words ws ≡ true) × (length ws < maxargs)
IsPrintable (redircmd c f m d) =
    IsPrintable c × (is_word f ≡ true) × (d ≤ 1) × (m ≡ (if d == 0 then 0 else 513))
IsPrintable (pipecmd l r) = IsPrintable l × IsPrintable r
IsPrintable (listcmd l r) = IsPrintable l × IsPrintable r
IsPrintable (backcmd c) = IsPrintable c

-- What a command may be without brackets: anything, all but `;`, all but `;` and `&`, or neither of
-- them nor `|`.
pub data Level : Type 0 where
  at_line amp piped atom : Level

abbrev pub is_line : Level → Bool
is_line at_line = true
is_line _ = false

abbrev pub is_loose : Level → Bool
is_loose at_line = true
is_loose amp = true
is_loose _ = false

abbrev pub is_atom : Level → Bool
is_atom atom = true
is_atom _ = false

abbrev pub bracket : Bool → List ℕ → List ℕ
bracket b s = if b then b'(' ∷ (s ++ (b')' ∷ [])) else s

abbrev pub words : List (List ℕ) → List ℕ
words [] = []
words (w ∷ ws) = w ++ (b' ' ∷ words ws)

abbrev pub arrow : ℕ → ℕ
arrow d = if d == 0 then b'<' else b'>'

abbrev pub show : Level → Cmd → List ℕ
show l (execcmd ws) = words ws
show l (redircmd c f m d) = show atom c ++ (arrow d ∷ (f ++ (b' ' ∷ [])))
show l (pipecmd a b) = bracket (is_atom l) (show atom a ++ (b'|' ∷ show piped b))
show l (listcmd a b) = bracket (not (is_line l)) (show amp a ++ (b';' ∷ show at_line b))
show l (backcmd c) = bracket (not (is_loose l)) (show amp c ++ (b'&' ∷ []))

-- No white space in front.
abbrev pub Tight : List ℕ → Type 0
Tight s = skip_white s ≡ s

pub Tight-cons : (c : ℕ) (cs : List ℕ) → has c whitespace ≡ false → Tight (c ∷ cs)
unfolding skip_white
Tight-cons c cs e = rw e refl

Tight-append : (xs ys zs : List ℕ) → Tight (xs ++ (ys ++ zs)) → Tight ((xs ++ ys) ++ zs)
Tight-append xs ys zs t = rw (append_assoc xs ys zs) t

Tight-bracket : (b : Bool) (s t : List ℕ) → Tight (s ++ t) → Tight (bracket b s ++ t)
Tight-bracket true s t h = Tight-cons b'(' ((s ++ (b')' ∷ [])) ++ t) refl
Tight-bracket false s t h = h

pub Tight-word : (w s : List ℕ) → is_word w ≡ true → Tight (w ++ s)
Tight-word [] s h = absurd (ground arith)
Tight-word (c ∷ cs) s h = Tight-cons c (cs ++ s) (ground arith)

pub Tight-words :
    (ws : List (List ℕ)) (s : List ℕ) → are_words ws ≡ true → Tight s → Tight (words ws ++ s)
Tight-words [] s h t = t
Tight-words (w ∷ ws) s h t =
    Tight-append w (b' ' ∷ words ws) s (Tight-word w ((b' ' ∷ words ws) ++ s) (ground arith))

arrow_black : (d : ℕ) → has (arrow d) whitespace ≡ false
arrow_black d = ground arith

pub Tight-show :
    (l : Level) (c : Cmd) (s : List ℕ) → IsPrintable c → Tight s → Tight (show l c ++ s)
Tight-show l (execcmd ws) s p t = Tight-words ws s p.0 t
Tight-show l (redircmd c f m d) s p t =
    Tight-append (show atom c) (arrow d ∷ (f ++ (b' ' ∷ []))) s (
      Tight-show atom c ((arrow d ∷ (f ++ (b' ' ∷ []))) ++ s) p.0
        (Tight-cons (arrow d) _ (arrow_black d)))
Tight-show l (pipecmd a b) s p t =
    Tight-bracket (is_atom l) (show atom a ++ (b'|' ∷ show piped b)) s (
      Tight-append (show atom a) (b'|' ∷ show piped b) s (
        Tight-show atom a ((b'|' ∷ show piped b) ++ s) p.0
          (Tight-cons b'|' (show piped b ++ s) refl)))
Tight-show l (listcmd a b) s p t =
    Tight-bracket (not (is_line l)) (show amp a ++ (b';' ∷ show at_line b)) s (
      Tight-append (show amp a) (b';' ∷ show at_line b) s (
        Tight-show amp a ((b';' ∷ show at_line b) ++ s) p.0
          (Tight-cons b';' (show at_line b ++ s) refl)))
Tight-show l (backcmd c) s p t = Tight-bracket (not (is_loose l)) (show amp c ++ (b'&' ∷ [])) s (
    Tight-append (show amp c) (b'&' ∷ []) s
      (Tight-show amp c ((b'&' ∷ []) ++ s) p (Tight-cons b'&' s refl)))
