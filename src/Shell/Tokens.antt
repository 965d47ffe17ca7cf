-- ===== src/Shell/Tokens.antt =====
-- What `gettoken`, `peek` and `parseredirs` do at the front of a printed command.
use hyu_ele.Prelude.{
  ℕ, zero, suc, ◌≡◌, ◌≤◌, inl, inr, refl, ap, ◌∙◌, arith, Bool, true, false, ◌||◌, ◌==◌,
  if◌then◌else◌, Bool-cases, List, [], ◌∷◌, ◌++◌,
}
use hyu_ele.Prelude.Maps.{has}
use hyu_ele.Shell.{
  whitespace, symbols, Cmd, redircmd, backcmd, skip_white, span_word, Token, token_at, gettoken,
  head_in, peek, redirected, parseredirs, parse_backs, Parsed, ok, panic, missing_file,
}
use hyu_ele.Shell.Printer.{all_plain, is_word, Tight, Tight-cons, Tight-word, arrow}

pub peek-Tight : (toks s : List ℕ) → Tight s → peek toks s ≡ (head_in toks s, s)
unfolding peek
peek-Tight toks s t = rw t refl

span_word-plain : (w s : List ℕ) → all_plain w ≡ true → span_word (w ++ (b' ' ∷ s)) ≡ (w, b' ' ∷ s)
unfolding span_word
span_word-plain [] s h = refl
span_word-plain (c ∷ cs) s h =
    let e : (has c whitespace || has c symbols) ≡ false = ground arith in
    rw (e, span_word-plain cs s (ground arith)) refl

-- A word and the space behind it.
pub gettoken-word :
    (w s : List ℕ)
    → is_word w ≡ true
    → Tight s
    → gettoken (w ++ (b' ' ∷ s)) ≡ record { ret = b'a'; word = w; rest = s }
unfolding gettoken token_at
gettoken-word [] s h t = absurd (ground arith)
gettoken-word (c ∷ cs) s h t =
    let tight : skip_white (c ∷ (cs ++ (b' ' ∷ s))) ≡ c ∷ (cs ++ (b' ' ∷ s)) =
      Tight-cons c _ (ground arith) in
    let no : has c (b'|' ∷ b'(' ∷ b')' ∷ b';' ∷ b'&' ∷ b'<' ∷ []) ≡ false = ground arith in
    let gt : (c == b'>') ≡ false = ground arith in
    let sp : span_word (c ∷ (cs ++ (b' ' ∷ s))) ≡ (c ∷ cs, b' ' ∷ s) =
      span_word-plain (c ∷ cs) s (ground arith) in
    let sk : skip_white (b' ' ∷ s) ≡ s = unfold skip_white in t in rw (tight, no, gt, sp, sk) refl

-- A symbol of one character.
pub gettoken-symbol :
    (c : ℕ) (s : List ℕ)
    → has c (b'|' ∷ b'(' ∷ b')' ∷ b';' ∷ b'&' ∷ b'<' ∷ []) ≡ true
    → Tight s
    → gettoken (c ∷ s) ≡ record { ret = c; word = c ∷ []; rest = s }
unfolding gettoken token_at
gettoken-symbol c s h t =
    let tight : skip_white (c ∷ s) ≡ c ∷ s = Tight-cons c s (ground arith) in rw (tight, h, t) refl

-- The arrow of a redirection in front of a word.
pub gettoken-arrow :
    (d : ℕ) (w s : List ℕ)
    → is_word w ≡ true
    → gettoken (arrow d ∷ (w ++ s)) ≡ record { ret = arrow d; word = arrow d ∷ []; rest = w ++ s }
unfolding gettoken token_at
gettoken-arrow d [] s h = absurd (ground arith)
gettoken-arrow d (c ∷ cs) s h = elim (Bool-cases (d == 0)) [
  | inl z ↦ rw z (gettoken-symbol b'<' ((c ∷ cs) ++ s) refl (Tight-word (c ∷ cs) s h))
  | inr z ↦
      let tight : skip_white (c ∷ (cs ++ s)) ≡ c ∷ (cs ++ s) = Tight-word (c ∷ cs) s h in
      let front : skip_white (b'>' ∷ c ∷ (cs ++ s)) ≡ b'>' ∷ c ∷ (cs ++ s) =
        Tight-cons b'>' _ refl in
      let gt : (c == b'>') ≡ false = ground arith in rw (z, front, gt, tight) refl
]

pub peek-as : (toks s : List ℕ) (b : Bool) → Tight s → head_in toks s ≡ b → peek toks s ≡ (b, s)
peek-as toks s b t e = peek-Tight toks s t ∙ ap (λ x. (x, s)) e

abbrev arrows : List ℕ
arrows = b'<' ∷ b'>' ∷ []

-- The rest of a round of `parseredirs`, from the two tokens and from what `peek` says.
abbrev redirect : ℕ → Cmd → Token → Token → Parsed
redirect k c t u = elim (u.ret == b'a') [
  | true ↦ parseredirs k (redirected t.ret c u.word) u.rest
  | false ↦ panic missing_file
]

abbrev redirs_from : ℕ → Cmd → Bool × List ℕ → Parsed
redirs_from k c p = elim p.0 [
  | false ↦ ok c p.1
  | true ↦ redirect k c (gettoken p.1) (gettoken (gettoken p.1).rest)
]

parseredirs_step :
    (k : ℕ) (c : Cmd) (s : List ℕ) → parseredirs (suc k) c s ≡ redirs_from k c (peek arrows s)
unfolding parseredirs
parseredirs_step k c s = refl

-- `parseredirs` in front of something else than a redirection.
pub parseredirs-stop :
    (k : ℕ) (c : Cmd) (s : List ℕ)
    → Tight s
    → head_in (b'<' ∷ b'>' ∷ []) s ≡ false
    → parseredirs (suc k) c s ≡ ok c s
parseredirs-stop k c s t e =
    parseredirs_step k c s ∙ ap (redirs_from k c) (peek-as arrows s false t e)

redirected-arrow :
    (d m : ℕ) (c : Cmd) (w : List ℕ)
    → d ≤ 1
    → m ≡ (if d == 0 then 0 else 513)
    → redirected (arrow d) c w ≡ redircmd c w m d
unfolding redirected
redirected-arrow d m c w le e = elim (Bool-cases (d == 0)) [
  | inl z ↦ let a : d ≡ 0 = ground arith in let b : m ≡ 0 = ground arith in rw (a, b) refl
  | inr z ↦ let a : d ≡ 1 = ground arith in let b : m ≡ 513 = ground arith in rw (a, b) refl
]

-- `parseredirs` in front of a printed redirection.
pub parseredirs-arrow :
    (k d m : ℕ) (c : Cmd) (w s : List ℕ)
    → is_word w ≡ true
    → d ≤ 1
    → m ≡ (if d == 0 then 0 else 513)
    → Tight s
    → parseredirs (suc k) c (arrow d ∷ (w ++ (b' ' ∷ s))) ≡ parseredirs k (redircmd c w m d) s
parseredirs-arrow k d m c w s h le e t =
    let str = arrow d ∷ (w ++ (b' ' ∷ s)) in
    parseredirs_step k c str
    ∙ ap (redirs_from k c)
        (peek-as arrows str true (Tight-cons (arrow d) _ (ground arith)) (ground arith))
    ∙ ap (λ x. redirect k c x (gettoken x.rest)) (gettoken-arrow d w (b' ' ∷ s) h)
    ∙ ap
        (λ x.
          redirect k c (record { ret = arrow d; word = arrow d ∷ []; rest = w ++ (b' ' ∷ s) }) x)
        (gettoken-word w s h t)
    ∙ ap (λ x. parseredirs k x s) (redirected-arrow d m c w le e)

abbrev redirect_if : ℕ → Cmd → List ℕ → Bool → Parsed
redirect_if k c s b = elim b [ true ↦ parseredirs k c s | false ↦ panic missing_file ]

module _ (j k : ℕ) (d : Cmd) (r : List ℕ)
    (ih : (x : Cmd) (s : List ℕ) → parseredirs j x s ≡ ok d r → parseredirs k x s ≡ ok d r) where
  redirect_if-more :
      (c : Cmd) (s : List ℕ) (b : Bool)
      → redirect_if j c s b ≡ ok d r
      → redirect_if k c s b ≡ ok d r
  redirect_if-more c s true e = ih c s e
  redirect_if-more c s false e = absurd (ground arith)

  redirs_from-more :
      (c : Cmd) (p : Bool × List ℕ) → redirs_from j c p ≡ ok d r → redirs_from k c p ≡ ok d r
  redirs_from-more c (false, s) e = e
  redirs_from-more c (true, s) e =
      let t = gettoken s in
      let u = gettoken t.rest in
      redirect_if-more (redirected t.ret c u.word) u.rest (u.ret == b'a') e

-- What `parseredirs` finds it finds with more rounds.
pub parseredirs-more :
    (j k : ℕ) (c : Cmd) (s : List ℕ) (d : Cmd) (r : List ℕ)
    → parseredirs j c s ≡ ok d r
    → j ≤ k
    → parseredirs k c s ≡ ok d r
unfolding parseredirs
parseredirs-more zero k c s d r e le = absurd (ground arith)
parseredirs-more (suc j) zero c s d r e le = absurd (omega arith)
parseredirs-more (suc j) (suc k) c s d r e le =
    redirs_from-more j k d r (λ x t q. parseredirs-more j k x t d r q (omega arith)) c
      (peek arrows s) e

abbrev backs_from : ℕ → Cmd → Bool × List ℕ → Parsed
backs_from k c p = elim p.0 [
  | false ↦ ok c p.1
  | true ↦ parse_backs k (backcmd c) (gettoken p.1).rest
]

parse_backs_step :
    (k : ℕ) (c : Cmd) (s : List ℕ) → parse_backs (suc k) c s ≡ backs_from k c (peek (b'&' ∷ []) s)
unfolding parse_backs
parse_backs_step k c s = refl

-- `while(peek(ps, es, "&"))` in front of something else.
pub parse_backs-stop :
    (k : ℕ) (c : Cmd) (s : List ℕ)
    → Tight s
    → head_in (b'&' ∷ []) s ≡ false
    → parse_backs (suc k) c s ≡ ok c s
parse_backs-stop k c s t e =
    parse_backs_step k c s ∙ ap (backs_from k c) (peek-as (b'&' ∷ []) s false t e)

pub parse_backs-back :
    (k : ℕ) (c : Cmd) (s : List ℕ)
    → Tight s
    → parse_backs (suc k) c (b'&' ∷ s) ≡ parse_backs k (backcmd c) s
parse_backs-back k c s t =
    parse_backs_step k c (b'&' ∷ s)
    ∙ ap (backs_from k c) (peek-as (b'&' ∷ []) (b'&' ∷ s) true (Tight-cons b'&' s refl) refl)
    ∙ ap (λ (x : Token). parse_backs k (backcmd c) x.rest) (gettoken-symbol b'&' s refl t)
