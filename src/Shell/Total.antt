-- ===== src/Shell/Total.antt =====
-- The parser ends on every string.
use hyu_ele.Prelude.{
  ℕ, zero, suc, ◌+◌, ◌*◌, ◌≡◌, ◌≢◌, ◌<◌, ◌≤◌, ◌⊎◌, inl, inr, refl, sym, ◌∙◌, arith, Bool, true,
  false, not, ◌||◌, ◌==◌, leb, if◌then◌else◌, Bool-cases, List, [], ◌∷◌, length,
}
use hyu_ele.Prelude.Maps.{has}
use hyu_ele.Shell.{
  whitespace, symbols, maxargs, Cmd, execcmd, backcmd, skip_white, span_word, Token, token_at,
  gettoken, head_in, peek, redirected, parseredirs, add_arg, parse_args, parse_backs, parseline,
  parsepipe, parseexec, parseblock, parsecmd, enough, Parsed, ok, panic, bind, out_of_fuel,
  missing_file, syntax, too_many_args, no_block, missing_paren, leftovers,
}

length-skip : (s : List ℕ) → length (skip_white s) ≤ length s
unfolding skip_white
length-skip [] = omega arith
length-skip (c ∷ cs) = let ih = length-skip cs in ground arith

skip-skip : (s : List ℕ) → skip_white (skip_white s) ≡ skip_white s
unfolding skip_white
skip-skip [] = refl
skip-skip (c ∷ cs) = elim (Bool-cases (has c whitespace)) [
  | inl e ↦ rw e (skip-skip cs)
  | inr e ↦ rw (e, skip_white) (rw e refl)
]

length-span : (s : List ℕ) → length (span_word s).1 ≤ length s
unfolding span_word
length-span [] = omega arith
length-span (c ∷ cs) = let ih = length-span cs in ground arith

length-span_word :
    (c : ℕ) (cs : List ℕ)
    → (has c whitespace || has c symbols) ≡ false
    → length (span_word (c ∷ cs)).1 < length (c ∷ cs)
unfolding span_word
length-span_word c cs e = let b = length-span cs in rw (e, span_word) (omega arith)

-- A token is not empty.
length-token_at :
    (c : ℕ) (cs : List ℕ)
    → has c whitespace ≡ false
    → length (token_at (c ∷ cs)).rest < length (c ∷ cs)
unfolding token_at
length-token_at c cs e = elim (Bool-cases (has c (b'|' ∷ b'(' ∷ b')' ∷ b';' ∷ b'&' ∷ b'<' ∷ []))) [
  | inl one ↦ rw (one, token_at) (omega arith)
  | inr one ↦ elim (Bool-cases (c == b'>')) [
    | inl two ↦ rw (one, two, token_at) (arrow cs)
    | inr two ↦ let b = length-span_word c cs (ground arith) in rw (one, two, token_at) b
  ]
]
  where
    arrow :
        (cs : List ℕ)
        → length
            (elim cs as (λ x. Token) [
              | [] ↦ record { ret = c; word = c ∷ []; rest = [] }
              | d ∷ ds ↦
                  if d == b'>'
                  then record { ret = b'+'; word = c ∷ d ∷ []; rest = ds }
                  else record { ret = c; word = c ∷ []; rest = d ∷ ds }
            ]).rest
          < length (c ∷ cs)
    arrow [] = omega arith
    arrow (d ∷ ds) = ground arith

skip-head :
    (s : List ℕ)
    → (skip_white s ≡ [])
      ⊎ ((c : ℕ) × (cs : List ℕ) × (skip_white s ≡ c ∷ cs) × (has c whitespace ≡ false))
unfolding skip_white
skip-head [] = inl refl
skip-head (c ∷ cs) = elim (Bool-cases (has c whitespace)) [
  | inl e ↦ rw e (skip-head cs)
  | inr e ↦ inr (c, cs, rw e refl, e)
]

-- `gettoken` reads something, unless nothing is left.
gettoken_lem :
    (s : List ℕ)
    → (length (gettoken s).rest ≤ length s)
      × (((skip_white s ≡ []) × ((gettoken s).ret ≡ 0)) ⊎ (length (gettoken s).rest < length s))
unfolding gettoken
gettoken_lem s = elim (skip-head s) [
  | inl e ↦
      (rw e (unfold token_at skip_white in omega arith), inl (e, rw e (unfold token_at in refl)))
  | inr (c, cs, e, b) ↦
      let a = length-token_at c cs b in
      let d = length-skip (token_at (c ∷ cs)).rest in
      let l = length-skip s in
      let m : length (c ∷ cs) ≤ length s = rw e at l in
      (rw e (omega arith), inr (rw e (omega arith)))
]

-- The token that `peek` has seen.
gettoken-peek :
    (toks s : List ℕ) → (peek toks s).0 ≡ true → length (gettoken (peek toks s).1).rest < length s
unfolding peek
gettoken-peek toks s h = elim (gettoken_lem (skip_white s)).1 [
  | inl (e, z) ↦ absurd (
      let q : skip_white s ≡ [] = sym (skip-skip s) ∙ e in
      let w : head_in toks [] ≡ true = rw q at h in ground arith)
  | inr lt ↦ let l = length-skip s in omega arith
]

-- A result with at most `n` characters left, or a panic of the program.
abbrev pub Fits : ℕ → Parsed → Type 0
Fits n (ok c r) = length r ≤ n
Fits n (panic m) = m ≢ out_of_fuel

Fits-bind :
    (n m : ℕ) (r : Parsed) (f : Cmd → List ℕ → Parsed)
    → Fits n r
    → ((c : Cmd) (s : List ℕ) → length s ≤ n → Fits m (f c s))
    → Fits m (bind r f)
Fits-bind n m (ok c s) f h g = g c s h
Fits-bind n m (panic e) f h g = h

Fits-if :
    (n : ℕ) (b : Bool) (x y : Parsed)
    → (b ≡ true → Fits n x)
    → (b ≡ false → Fits n y)
    → Fits n (elim b [ true ↦ x | false ↦ y ])
Fits-if n true x y h k = h refl
Fits-if n false x y h k = k refl

Fits-le : (n m : ℕ) (r : Parsed) → n ≤ m → Fits n r → Fits m r
Fits-le n m (ok c r) le h = omega arith
Fits-le n m (panic e) le h = h

length-peek : (toks s : List ℕ) → length (peek toks s).1 ≤ length s
unfolding peek
length-peek toks s = length-skip s

parseredirs-Fits :
    (k : ℕ) (c : Cmd) (s : List ℕ) → length s < k → Fits (length s) (parseredirs k c s)
unfolding parseredirs
parseredirs-Fits zero c s lt = absurd (omega arith)
parseredirs-Fits (suc k) c s lt =
    let toks : List ℕ = b'<' ∷ b'>' ∷ [] in
    let s1 = (peek toks s).1 in
    let t = gettoken s1 in
    let u = gettoken t.rest in
    Fits-if (length s) (peek toks s).0 _ (ok c s1)
      (λ e.
        let a = gettoken-peek toks s e in
        let b = (gettoken_lem t.rest).0 in
        Fits-if (length s) (u.ret == b'a') _ (panic missing_file)
          (λ q.
            Fits-le (length u.rest) (length s) _ (omega arith)
              (parseredirs-Fits k (redirected t.ret c u.word) u.rest (omega arith)))
          (λ q z. ground arith))
      (λ e. length-peek toks s)

parse_args-Fits :
    (k argc : ℕ) (c : Cmd) (s : List ℕ) → length s < k → Fits (length s) (parse_args k argc c s)
unfolding parse_args
parse_args-Fits zero argc c s lt = absurd (omega arith)
parse_args-Fits (suc k) argc c s lt =
    let toks : List ℕ = b'|' ∷ b')' ∷ b'&' ∷ b';' ∷ [] in
    let s1 = (peek toks s).1 in
    let t = gettoken s1 in
    let low = length-peek toks s in
    let g = gettoken_lem s1 in
    Fits-if (length s) (peek toks s).0 (ok c s1) _ (λ e. low)
      (λ e.
        Fits-if (length s) (t.ret == 0) (ok c t.rest) _ (λ z. omega arith)
          (λ z.
            Fits-if (length s) (not (t.ret == b'a')) (panic syntax) _ (λ q w. ground arith)
              (λ q.
                Fits-if (length s) (leb maxargs (argc + 1)) (panic too_many_args) _
                  (λ w v. ground arith)
                  (λ w.
                    let less : length t.rest < length s1 = elim g.1 [
                      | inl x ↦ absurd (let y = x.1 in ground arith)
                      | inr lt2 ↦ lt2
                    ] in
                    Fits-bind (length t.rest) (length s) (parseredirs k (add_arg t.word c) t.rest) _
                      (parseredirs-Fits k (add_arg t.word c) t.rest (omega arith))
                      (λ d s2 le.
                        Fits-le (length s2) (length s) _ (omega arith)
                          (parse_args-Fits k (argc + 1) d s2 (omega arith)))))))

parse_backs-Fits :
    (k : ℕ) (c : Cmd) (s : List ℕ) → length s < k → Fits (length s) (parse_backs k c s)
unfolding parse_backs
parse_backs-Fits zero c s lt = absurd (omega arith)
parse_backs-Fits (suc k) c s lt =
    let toks : List ℕ = b'&' ∷ [] in
    let t = gettoken (peek toks s).1 in
    Fits-if (length s) (peek toks s).0 _ (ok c (peek toks s).1)
      (λ e.
        let a = gettoken-peek toks s e in
        Fits-le (length t.rest) (length s) _ (omega arith)
          (parse_backs-Fits k (backcmd c) t.rest (omega arith)))
      (λ e. length-peek toks s)

mutual
  unfolding parseline parsepipe parseexec parseblock

  parseline-Fits : (k : ℕ) (s : List ℕ) → 4 * length s + 4 ≤ k → Fits (length s) (parseline k s)
  parseline-Fits zero s le = absurd (omega arith)
  parseline-Fits (suc k) s le =
      Fits-bind (length s) (length s) (parsepipe k s) _ (parsepipe-Fits k s (omega arith))
        (λ c s1 l1.
          Fits-bind (length s) (length s) (parse_backs k c s1) _
            (Fits-le (length s1) (length s) _ l1 (parse_backs-Fits k c s1 (omega arith)))
            (λ d s2 l2.
              let toks : List ℕ = b';' ∷ [] in
              let t = gettoken (peek toks s2).1 in
              let low = length-peek toks s2 in
              Fits-if (length s) (peek toks s2).0 _ (ok d (peek toks s2).1)
                (λ e.
                  let a = gettoken-peek toks s2 e in
                  Fits-bind (length s) (length s) (parseline k t.rest) _
                    (Fits-le (length t.rest) (length s) _ (omega arith)
                      (parseline-Fits k t.rest (omega arith)))
                    (λ x s4 l4. l4))
                (λ e. omega arith)))

  parsepipe-Fits : (k : ℕ) (s : List ℕ) → 4 * length s + 3 ≤ k → Fits (length s) (parsepipe k s)
  parsepipe-Fits zero s le = absurd (omega arith)
  parsepipe-Fits (suc k) s le =
      Fits-bind (length s) (length s) (parseexec k s) _ (parseexec-Fits k s (omega arith))
        (λ c s1 l1.
          let toks : List ℕ = b'|' ∷ [] in
          let t = gettoken (peek toks s1).1 in
          let low = length-peek toks s1 in
          Fits-if (length s) (peek toks s1).0 _ (ok c (peek toks s1).1)
            (λ e.
              let a = gettoken-peek toks s1 e in
              Fits-bind (length s) (length s) (parsepipe k t.rest) _
                (Fits-le (length t.rest) (length s) _ (omega arith)
                  (parsepipe-Fits k t.rest (omega arith)))
                (λ x s3 l3. l3))
            (λ e. omega arith))

  parseexec-Fits : (k : ℕ) (s : List ℕ) → 4 * length s + 2 ≤ k → Fits (length s) (parseexec k s)
  parseexec-Fits zero s le = absurd (omega arith)
  parseexec-Fits (suc k) s le =
      let toks : List ℕ = b'(' ∷ [] in
      let s1 = (peek toks s).1 in
      let low = length-peek toks s in
      Fits-if (length s) (peek toks s).0 (parseblock k s1) _
        (λ e. Fits-le (length s1) (length s) _ low (parseblock-Fits k s1 (omega arith)))
        (λ e.
          Fits-bind (length s1) (length s) (parseredirs k (execcmd []) s1) _
            (parseredirs-Fits k (execcmd []) s1 (omega arith))
            (λ c s2 l2.
              Fits-le (length s2) (length s) _ (omega arith)
                (parse_args-Fits k 0 c s2 (omega arith))))

  parseblock-Fits : (k : ℕ) (s : List ℕ) → 4 * length s + 1 ≤ k → Fits (length s) (parseblock k s)
  parseblock-Fits zero s le = absurd (omega arith)
  parseblock-Fits (suc k) s le =
      let toks : List ℕ = b'(' ∷ [] in
      let t = gettoken (peek toks s).1 in
      Fits-if (length s) (peek toks s).0 _ (panic no_block)
        (λ e.
          let a = gettoken-peek toks s e in
          Fits-bind (length t.rest) (length s) (parseline k t.rest) _
            (parseline-Fits k t.rest (omega arith))
            (λ c s2 l2.
              let ends : List ℕ = b')' ∷ [] in
              let u = gettoken (peek ends s2).1 in
              Fits-if (length s) (peek ends s2).0 _ (panic missing_paren)
                (λ q.
                  let b = gettoken-peek ends s2 q in
                  Fits-le (length u.rest) (length s) _ (omega arith)
                    (parseredirs-Fits k c u.rest (omega arith)))
                (λ q z. ground arith)))
        (λ e z. ground arith)

-- `parsecmd` ends on every string: it gives a command for the whole string or one of the program's
-- panics, and never runs out of the fuel that stands for its calls and rounds.
pub parsecmd_total : (s : List ℕ) → Fits 0 (parsecmd s)
unfolding parsecmd
parsecmd_total s =
    Fits-bind (length s) 0 (parseline (enough s) s) _ (parseline-Fits (enough s) s (omega arith))
      (λ c s1 l. finish c (peek [] s1).1)
  where
    finish :
        (c : Cmd) (r : List ℕ)
        → Fits 0 (elim r as (λ x. Parsed) [ [] ↦ ok c [] | d ∷ ds ↦ panic (leftovers (d ∷ ds)) ])
    finish c [] = omega arith
    finish c (d ∷ ds) = λ z. ground arith
