-- ===== src/Files/Tests.antt =====
-- A table with one open file, and the theorem at it.
use hyu_ele.Prelude.{ℕ, ◌∷◌, [], List, arith, ◌==◌, if◌then◌else◌}
use hyu_ele.Files.{Files, fd_none, fd_pipe}
use hyu_ele.Files.Counts.{Counted, Kept, ops-Counted}

-- The file 1 is a pipe with two references.
abbrev table : Files
table = record {
  kind = λ f. if f == 1 then fd_pipe else fd_none;
  ref = λ f. if f == 1 then 2 else 0;
}

abbrev holders : List ℕ
holders = 1 ∷ 1 ∷ []

table-Counted : Counted table holders
table-Counted f = ground arith

ops-Counted_example : Kept table holders
ops-Counted_example = ops-Counted table holders table-Counted
