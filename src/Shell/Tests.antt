-- ===== src/Shell/Tests.antt =====
-- Command lines, and the theorems at one.
use hyu_ele.Prelude.{ℕ, ◌≡◌, ◌∷◌, [], List, refl, arith}
use hyu_ele.Shell.{
  Cmd, execcmd, redircmd, pipecmd, listcmd, backcmd, skip_white, span_word, token_at, gettoken,
  peek, redirected, parseredirs, add_arg, parse_args, parse_backs, parseline, parsepipe, parseexec,
  parseblock, parsecmd, ok, panic, missing_paren,
}
use hyu_ele.Shell.Printer.{at_line, show}
use hyu_ele.Shell.RoundTrip.{parsecmd-show}
use hyu_ele.Shell.Total.{Fits, parsecmd_total}

abbrev word : ℕ → List ℕ
word c = c ∷ b'x' ∷ []

-- `ax bx | (cx & ; dx > ex)`
abbrev command : Cmd
command = pipecmd (execcmd (word b'a' ∷ word b'b' ∷ [])) (
    listcmd (backcmd (execcmd (word b'c' ∷ [])))
      (redircmd (execcmd (word b'd' ∷ [])) (word b'e') 513 1))

parsecmd-show_example : parsecmd (show at_line command) ≡ ok command []
parsecmd-show_example =
    parsecmd-show command
      ((refl, omega arith), ((refl, omega arith), ((refl, omega arith), refl, omega arith, refl)))

-- `(a`
abbrev unclosed : List ℕ
unclosed = b'(' ∷ b'a' ∷ []

parsecmd_total_example : Fits 0 (parsecmd unclosed)
parsecmd_total_example = parsecmd_total unclosed

reports : parsecmd unclosed ≡ panic missing_paren
unfolding parsecmd parseline parsepipe parseexec parseblock parse_args parse_backs parseredirs peek
    gettoken token_at span_word skip_white add_arg
reports = refl

-- `a>b` and `a>>b` are the same command.
no_append : parsecmd (b'a' ∷ b'>' ∷ b'b' ∷ []) ≡ parsecmd (b'a' ∷ b'>' ∷ b'>' ∷ b'b' ∷ [])
unfolding parsecmd parseline parsepipe parseexec parseblock parse_args parse_backs parseredirs
    redirected peek gettoken token_at span_word skip_white add_arg
no_append = refl
