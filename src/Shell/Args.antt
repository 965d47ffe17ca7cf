-- ===== src/Shell/Args.antt =====
-- Parsing a command without pipes that was printed: arguments and redirections.
use hyu_ele.Prelude.{
  ℕ, zero, suc, ◌+◌, ◌≡◌, ◌<◌, ◌≤◌, refl, ap, ◌∙◌, arith, Bool, true, false, not, ◌==◌, leb,
  if◌then◌else◌, List, [], ◌∷◌, ◌++◌, length,
}
use mathlib.Core.List.{append_assoc}
use hyu_ele.Prelude.Maps.{has}
use hyu_ele.Shell.{
  maxargs, Cmd, execcmd, redircmd, skip_white, Token, token_at, gettoken, head_in, peek,
  parseredirs, add_arg, parse_args, parseexec, parseblock, Parsed, ok, panic, bind, syntax,
  too_many_args,
}
use hyu_ele.Shell.Printer.{
  is_word, are_words, IsPrintable, atom, words, arrow, show, Tight, Tight-cons, Tight-word,
  Tight-words,
}
use hyu_ele.Shell.Tokens.{
  peek-as, gettoken-word, parseredirs-stop, parseredirs-arrow, parseredirs-more,
}

-- The string ends here, or with one of the characters.
abbrev pub stops : List ℕ → List ℕ → Bool
stops toks [] = true
stops toks (c ∷ cs) = has c toks

-- What ends the arguments of a command, and a pipe.
abbrev pub ends : List ℕ
ends = b'|' ∷ b')' ∷ b'&' ∷ b';' ∷ []

abbrev pub pipe_ends : List ℕ
pipe_ends = b')' ∷ b'&' ∷ b';' ∷ []

pub stops-Tight : (s : List ℕ) → stops (b'<' ∷ b'>' ∷ ends) s ≡ true → Tight s
unfolding skip_white
stops-Tight [] h = refl
stops-Tight (c ∷ cs) h = Tight-cons c cs (ground arith)

-- Parts of `parse_args`, `parseexec`, `parseblock`, `parsepipe` and `parseline` behind their first call.
abbrev args_if : ℕ → ℕ → Cmd → Token → Bool → Parsed
args_if k argc c t b = elim b [
  | true ↦ ok c t.rest
  | false ↦ elim (not (t.ret == b'a')) [
    | true ↦ panic syntax
    | false ↦ elim (leb maxargs (argc + 1)) [
      | true ↦ panic too_many_args
      | false ↦
          bind (parseredirs k (add_arg t.word c) t.rest) (λ d s2. parse_args k (argc + 1) d s2)
    ]
  ]
]

abbrev args_from : ℕ → ℕ → Cmd → Bool × List ℕ → Parsed
args_from k argc c p = elim p.0 [
  | true ↦ ok c p.1
  | false ↦ args_if k argc c (gettoken p.1) ((gettoken p.1).ret == 0)
]

parse_args_step :
    (k argc : ℕ) (c : Cmd) (s : List ℕ)
    → parse_args (suc k) argc c s ≡ args_from k argc c (peek ends s)
unfolding parse_args
parse_args_step k argc c s = refl

parse_args-stop :
    (k argc : ℕ) (c : Cmd) (s : List ℕ)
    → 1 ≤ k
    → stops ends s ≡ true
    → parse_args k argc c s ≡ ok c s
parse_args-stop zero argc c s le h = absurd (omega arith)
parse_args-stop (suc k) argc c [] le h =
    (unfold parse_args peek skip_white gettoken token_at in refl)
parse_args-stop (suc k) argc c (x ∷ xs) le h =
    parse_args_step k argc c (x ∷ xs)
    ∙ ap (args_from k argc c) (peek-as ends (x ∷ xs) true (stops-Tight (x ∷ xs) (ground arith)) h)

-- One argument.
parse_args-word :
    (k argc : ℕ) (c : Cmd) (w s : List ℕ)
    → is_word w ≡ true
    → argc + 1 < maxargs
    → Tight s
    → parse_args (suc k) argc c (w ++ (b' ' ∷ s))
      ≡ bind (parseredirs k (add_arg w c) s) (λ d s2. parse_args k (argc + 1) d s2)
parse_args-word k argc c [] s h lt t = absurd (ground arith)
parse_args-word k argc c (x ∷ xs) s h lt t =
    let str = (x ∷ xs) ++ (b' ' ∷ s) in
    let full : leb maxargs (argc + 1) ≡ false = ground arith in
    parse_args_step k argc c str
    ∙ ap (args_from k argc c)
        (peek-as ends str false (Tight-word (x ∷ xs) (b' ' ∷ s) h) (ground arith))
    ∙ ap (λ z. args_if k argc c z (z.ret == 0)) (gettoken-word (x ∷ xs) s h t)
    ∙ rw (full, args_if) refl

words_head :
    (w : List ℕ) (ws : List (List ℕ)) (s : List ℕ)
    → are_words (w ∷ ws) ≡ true
    → (head_in (b'<' ∷ b'>' ∷ []) (words (w ∷ ws) ++ s) ≡ false)
      × (head_in (b'(' ∷ []) (words (w ∷ ws) ++ s) ≡ false)
words_head [] ws s h = absurd (ground arith)
words_head (c ∷ cs) ws s h = (ground arith, ground arith)

-- All arguments of a command, and its redirections.
parse_args-words :
    (ws : List (List ℕ)) (pre : List (List ℕ)) (w : List ℕ) (k argc j : ℕ) (s : List ℕ) (d : Cmd)
    (r : List ℕ)
    → are_words (w ∷ ws) ≡ true
    → argc + length (w ∷ ws) < maxargs
    → Tight s
    → length (w ∷ ws) + j < k
    → parseredirs j (execcmd (pre ++ (w ∷ ws))) s ≡ ok d r
    → stops ends r ≡ true
    → parse_args k argc (execcmd pre) (words (w ∷ ws) ++ s) ≡ ok d r
unfolding add_arg
parse_args-words ws pre w zero argc j s d r h lt t le e st = absurd (omega arith)
parse_args-words [] pre w (suc k) argc j s d r h lt t le e st =
    let more : parseredirs k (execcmd (pre ++ (w ∷ []))) s ≡ ok d r =
      parseredirs-more j k _ s d r e (omega arith) in
    ap (parse_args (suc k) argc (execcmd pre)) (append_assoc w (b' ' ∷ []) s)
    ∙ parse_args-word k argc (execcmd pre) w s (ground arith) (omega arith) t
    ∙ ap (λ z. bind z (λ d s2. parse_args k (argc + 1) d s2)) more
    ∙ parse_args-stop k (argc + 1) d r (omega arith) st
parse_args-words (v ∷ ws) pre w (suc zero) argc j s d r h lt t le e st = absurd (omega arith)
parse_args-words (v ∷ ws) pre w (suc (suc k)) argc j s d r h lt t le e st =
    let more = words (v ∷ ws) ++ s in
    let tight = Tight-words (v ∷ ws) s (ground arith) t in
    let c = execcmd (pre ++ (w ∷ [])) in
    ap (parse_args (suc (suc k)) argc (execcmd pre)) (append_assoc w (b' ' ∷ words (v ∷ ws)) s)
    ∙ parse_args-word (suc k) argc (execcmd pre) w more (ground arith) (omega arith) tight
    ∙ ap (λ z. bind z (λ d s2. parse_args (suc k) (argc + 1) d s2))
        (parseredirs-stop k c more tight (words_head v ws s (ground arith)).0)
    ∙ parse_args-words ws (pre ++ (w ∷ [])) v (suc k) (argc + 1) j s d r (ground arith)
        (omega arith) t (omega arith)
        (ap (λ z. parseredirs j (execcmd z) s) (append_assoc pre (w ∷ []) (v ∷ ws)) ∙ e) st

abbrev pub exec_from : ℕ → Bool × List ℕ → Parsed
exec_from k p = elim p.0 [
  | true ↦ parseblock k p.1
  | false ↦ bind (parseredirs k (execcmd []) p.1) (λ c s2. parse_args k 0 c s2)
]

pub parseexec_step : (k : ℕ) (s : List ℕ) → parseexec (suc k) s ≡ exec_from k (peek (b'(' ∷ []) s)
unfolding parseexec
parseexec_step k s = refl

-- A command without pipes, with redirections that `parseredirs` finds behind it.
abbrev pub AtomWith : Cmd → ℕ → Type 0
AtomWith c n =
    (k j : ℕ) (s : List ℕ) (d : Cmd) (r : List ℕ)
    → stops (b'<' ∷ b'>' ∷ ends) s ≡ true
    → n + j ≤ k
    → parseredirs j c s ≡ ok d r
    → stops ends r ≡ true
    → parseexec k (show atom c ++ s) ≡ ok d r

pub exec-AtomWith :
    (ws : List (List ℕ)) → IsPrintable (execcmd ws) → AtomWith (execcmd ws) (length ws + 2)
exec-AtomWith ws p zero j s d r f le e st = absurd (omega arith)
exec-AtomWith ws p (suc zero) j s d r f le e st = absurd (omega arith)
exec-AtomWith [] p (suc (suc k)) j s d r f le e st =
    parseexec_step (suc k) s
    ∙ ap (exec_from (suc k)) (peek-as (b'(' ∷ []) s false (stops-Tight s f) (not_open s f))
    ∙ ap (λ z. bind z (λ c s2. parse_args (suc k) 0 c s2))
        (parseredirs-more j (suc k) (execcmd []) s d r e (omega arith))
    ∙ parse_args-stop (suc k) 0 d r (omega arith) st
  where
    not_open : (s : List ℕ) → stops (b'<' ∷ b'>' ∷ ends) s ≡ true → head_in (b'(' ∷ []) s ≡ false
    not_open [] h = refl
    not_open (c ∷ cs) h = ground arith
exec-AtomWith (w ∷ ws) p (suc (suc k)) j s d r f le e st =
    let str = words (w ∷ ws) ++ s in
    let tight = Tight-words (w ∷ ws) s p.0 (stops-Tight s f) in
    let (no_arrow, no_open) = words_head w ws s p.0 in
    parseexec_step (suc k) str
    ∙ ap (exec_from (suc k)) (peek-as (b'(' ∷ []) str false tight no_open)
    ∙ ap (λ z. bind z (λ c s2. parse_args (suc k) 0 c s2))
        (parseredirs-stop k (execcmd []) str tight no_arrow)
    ∙ parse_args-words ws [] w (suc k) 0 j s d r p.0 (let q = p.1 in omega arith) (stops-Tight s f)
        (omega arith) e st

pub redir-AtomWith :
    (c : Cmd) (f : List ℕ) (m d n : ℕ)
    → is_word f ≡ true
    → d ≤ 1
    → m ≡ (if d == 0 then 0 else 513)
    → AtomWith c n
    → AtomWith (redircmd c f m d) (n + 1)
redir-AtomWith c f m d n h le1 me a k j s x r fo le e st =
    ap (parseexec k) (append_assoc (show atom c) (arrow d ∷ (f ++ (b' ' ∷ []))) s)
    ∙ ap (λ z. parseexec k (show atom c ++ (arrow d ∷ z))) (append_assoc f (b' ' ∷ []) s)
    ∙ a k (suc j) (arrow d ∷ (f ++ (b' ' ∷ s))) x r (ground arith) (omega arith)
        (parseredirs-arrow j d m c f s h le1 me (stops-Tight s fo) ∙ e) st
