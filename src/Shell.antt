-- ===== src/Shell.antt =====
-- The command parser of xv6-public/sh.c: `gettoken`, `peek`, `parsecmd` and the functions between.
-- A string is the list of its bytes in front of the closing zero. A word between two pointers `q` and
-- `eq` is the list of its bytes, which is what `nulterminate` makes of it.
pub mod Printer
pub mod Tokens
pub mod Args
pub mod Levels
pub mod RoundTrip
pub mod Total
mod Tests
use hyu_ele.Prelude.{
  ℕ, zero, suc, ◌+◌, ◌*◌, Bool, true, false, not, ◌||◌, ◌==◌, leb, if◌then◌else◌, List, [], ◌∷◌,
  ◌++◌, length,
}
use hyu_ele.Prelude.Maps.{has}

-- `whitespace`, `symbols`, and the word token.
abbrev pub whitespace : List ℕ
whitespace = b' ' ∷ b'\t' ∷ b'\r' ∷ b'\n' ∷ 11 ∷ []

abbrev pub symbols : List ℕ
symbols = b'<' ∷ b'|' ∷ b'>' ∷ b'&' ∷ b';' ∷ b'(' ∷ b')' ∷ []

abbrev pub maxargs : ℕ
maxargs = 10

-- The `panic` calls, and the loops' rounds, which have no counterpart in the program.
pub data Fault : Type 0 where
  missing_file : Fault
  no_block : Fault
  missing_paren : Fault
  syntax : Fault
  too_many_args : Fault
  leftovers : List ℕ → Fault
  out_of_fuel : Fault

pub data Cmd : Type 0 where
  execcmd : List (List ℕ) → Cmd
  redircmd : Cmd → List ℕ → ℕ → ℕ → Cmd
  pipecmd : Cmd → Cmd → Cmd
  listcmd : Cmd → Cmd → Cmd
  backcmd : Cmd → Cmd

-- A command with the rest of the string, or a panic.
pub data Parsed : Type 0 where
  ok : Cmd → List ℕ → Parsed
  panic : Fault → Parsed

abbrev pub bind : Parsed → (Cmd → List ℕ → Parsed) → Parsed
bind (ok c s) f = f c s
bind (panic m) f = panic m

-- `while(s < es && strchr(whitespace, *s)) s++;`
unfoldable pub skip_white : List ℕ → List ℕ
skip_white [] = []
skip_white (c ∷ cs) = let rest = skip_white cs in if has c whitespace then rest else c ∷ cs

-- `while(s < es && !strchr(whitespace, *s) && !strchr(symbols, *s)) s++;`
unfoldable pub span_word : List ℕ → List ℕ × List ℕ
span_word [] = ([], [])
span_word (c ∷ cs) =
    let (w, r) = span_word cs in
    if has c whitespace || has c symbols then ([], c ∷ cs) else (c ∷ w, r)

pub record Token : Type 0 where
  pub ret : ℕ
  pub word : List ℕ
  pub rest : List ℕ

-- The `switch` of `gettoken`, behind the white space.
unfoldable pub token_at : List ℕ → Token
token_at [] = record { ret = 0; word = []; rest = [] }
token_at (c ∷ cs) =
    if has c (b'|' ∷ b'(' ∷ b')' ∷ b';' ∷ b'&' ∷ b'<' ∷ [])
    then record { ret = c; word = c ∷ []; rest = cs }
    else if c == b'>'
    then (elim cs [
      | [] ↦ record { ret = c; word = c ∷ []; rest = [] }
      | d ∷ ds ↦
          if d == b'>'
          then record { ret = b'+'; word = c ∷ d ∷ []; rest = ds }
          else record { ret = c; word = c ∷ []; rest = d ∷ ds }
    ])
    else record { ret = b'a'; word = (span_word (c ∷ cs)).0; rest = (span_word (c ∷ cs)).1 }

unfoldable pub gettoken : List ℕ → Token
gettoken s = let t = token_at (skip_white s) in record t { rest = skip_white t.rest }

abbrev pub head_in : List ℕ → List ℕ → Bool
head_in toks [] = false
head_in toks (c ∷ cs) = has c toks

-- Whether the next character is one of `toks`, and the string without the white space before it.
unfoldable pub peek : List ℕ → List ℕ → Bool × List ℕ
peek toks s = (head_in toks (skip_white s), skip_white s)

-- `O_RDONLY` is 0 and `O_WRONLY|O_CREATE` 513.
unfoldable pub redirected : ℕ → Cmd → List ℕ → Cmd
redirected tok c w =
    if tok == b'<'
    then redircmd c w 0 0
    else if tok == b'>' || tok == b'+'
    then redircmd c w 513 1
    else c

unfoldable pub parseredirs : ℕ → Cmd → List ℕ → Parsed
parseredirs zero c s = panic out_of_fuel
parseredirs (suc k) c s =
    let (b, s1) = peek (b'<' ∷ b'>' ∷ []) s in
    elim b [
      | false ↦ ok c s1
      | true ↦
          let t = gettoken s1 in
          let u = gettoken t.rest in
          elim (u.ret == b'a') [
            | true ↦ parseredirs k (redirected t.ret c u.word) u.rest
            | false ↦ panic missing_file
          ]
    ]

-- `cmd->argv[argc] = q`, where `cmd` is the `execcmd` under the redirections.
unfoldable pub add_arg : List ℕ → Cmd → Cmd
add_arg w (execcmd args) = execcmd (args ++ (w ∷ []))
add_arg w (redircmd c f m d) = redircmd (add_arg w c) f m d
add_arg w (pipecmd l r) = pipecmd l r
add_arg w (listcmd l r) = listcmd l r
add_arg w (backcmd c) = backcmd c

-- The loop of `parseexec`.
unfoldable pub parse_args : ℕ → ℕ → Cmd → List ℕ → Parsed
parse_args zero argc c s = panic out_of_fuel
parse_args (suc k) argc c s =
    let (b, s1) = peek (b'|' ∷ b')' ∷ b'&' ∷ b';' ∷ []) s in
    elim b [
      | true ↦ ok c s1
      | false ↦
          let t = gettoken s1 in
          elim (t.ret == 0) [
            | true ↦ ok c t.rest
            | false ↦ elim (not (t.ret == b'a')) [
              | true ↦ panic syntax
              | false ↦ elim (leb maxargs (argc + 1)) [
                | true ↦ panic too_many_args
                | false ↦
                    bind (parseredirs k (add_arg t.word c) t.rest)
                      (λ d s2. parse_args k (argc + 1) d s2)
              ]
            ]
          ]
    ]

-- `while(peek(ps, es, "&"))` of `parseline`.
unfoldable pub parse_backs : ℕ → Cmd → List ℕ → Parsed
parse_backs zero c s = panic out_of_fuel
parse_backs (suc k) c s =
    let (b, s1) = peek (b'&' ∷ []) s in
    elim b [ false ↦ ok c s1 | true ↦ parse_backs k (backcmd c) (gettoken s1).rest ]

-- Each call and each round of a loop costs one unit of the first argument.
unfoldable mutual
  pub parseline : ℕ → List ℕ → Parsed
  parseline zero s = panic out_of_fuel
  parseline (suc k) s = bind (parsepipe k s) (λ c s1. bind (parse_backs k c s1) (λ d s2.
      let (b, s3) = peek (b';' ∷ []) s2 in
      elim b [
        | false ↦ ok d s3
        | true ↦ bind (parseline k (gettoken s3).rest) (λ e s4. ok (listcmd d e) s4)
      ]))

  pub parsepipe : ℕ → List ℕ → Parsed
  parsepipe zero s = panic out_of_fuel
  parsepipe (suc k) s = bind (parseexec k s) (λ c s1.
      let (b, s2) = peek (b'|' ∷ []) s1 in
      elim b [
        | false ↦ ok c s2
        | true ↦ bind (parsepipe k (gettoken s2).rest) (λ d s3. ok (pipecmd c d) s3)
      ])

  pub parseexec : ℕ → List ℕ → Parsed
  parseexec zero s = panic out_of_fuel
  parseexec (suc k) s =
      let (b, s1) = peek (b'(' ∷ []) s in
      elim b [
        | true ↦ parseblock k s1
        | false ↦ bind (parseredirs k (execcmd []) s1) (λ c s2. parse_args k 0 c s2)
      ]

  pub parseblock : ℕ → List ℕ → Parsed
  parseblock zero s = panic out_of_fuel
  parseblock (suc k) s =
      let (b, s1) = peek (b'(' ∷ []) s in
      elim b [
        | false ↦ panic no_block
        | true ↦ bind (parseline k (gettoken s1).rest) (λ c s2.
            let (d, s3) = peek (b')' ∷ []) s2 in
            elim d [ false ↦ panic missing_paren | true ↦ parseredirs k c (gettoken s3).rest ])
      ]

abbrev pub enough : List ℕ → ℕ
enough s = 16 * length s + 16

unfoldable pub parsecmd : List ℕ → Parsed
parsecmd s = bind (parseline (enough s) s) (λ c s1.
    let (b, s2) = peek [] s1 in elim s2 [ [] ↦ ok c [] | d ∷ ds ↦ panic (leftovers (d ∷ ds)) ])
