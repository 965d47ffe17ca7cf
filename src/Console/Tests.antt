-- ===== src/Console/Tests.antt =====
-- A console whose counters are about to wrap, and the theorems at it.
use hyu_ele.Prelude.{ℕ, ◌≡◌, ◌∷◌, [], ◌++◌, List, refl, arith, false}
use hyu_ele.Console.{Input, console_key, consoleintr, consoleread, got}
use hyu_ele.Console.Lines.{Holds, console_key-Holds}
use hyu_ele.Console.Read.{consoleintr-consoleread}

abbrev idle : Input
idle = record { buf = λ i. 0; r = 4294967294; w = 4294967294; e = 4294967294 }

idle-Holds : Holds idle [] []
idle-Holds = record {
  chars = tt;
  read_bound = omega arith;
  ready = refl;
  edited = refl;
  room = omega arith;
  one_line = refl;
}

console_key-Holds_example : Holds (console_key b'a' idle) [] (b'a' ∷ [])
console_key-Holds_example = console_key-Holds b'a' idle [] [] idle-Holds

-- `abc` and a newline, across the end of the counters.
abbrev text : List ℕ
text = b'a' ∷ b'b' ∷ b'c' ∷ []

consoleintr-consoleread_example :
    (j : Input) × (consoleread false 10 false (consoleintr (text ++ (b'\n' ∷ [])) false idle).1
      ≡ got (text ++ (b'\n' ∷ [])) j)
    × Holds j [] []
consoleintr-consoleread_example =
    consoleintr-consoleread false text 10 idle idle-Holds refl (omega arith) (omega arith)
