-- ===== src/Pipe/Tests.antt =====
-- A pipe with its counters just below 2^32, and the theorems at it.
use hyu_ele.Prelude.{ℕ, ◌≡◌, ◌≤◌, ◌<◌, refl, arith, true, false, List, [], ◌∷◌, ◌==◌, if◌then◌else◌}
use hyu_ele.Pipe.{Pipe, wrote, pipe_write, pipe_read, got, waits}
use hyu_ele.Pipe.Queue.{Holds, Full, pipe_write-Holds, pipe_read-Holds}
use hyu_ele.Pipe.Stream.{InOrder, run, new_trace, write, read, run-InOrder}

abbrev pipe : Pipe
pipe = record {
  data_at = λ _. 0;
  nread = 4294967295;
  nwrite = 4294967295;
  readopen = true;
  writeopen = true;
}

pipe-Holds : Holds pipe []
pipe-Holds = record { bytes = tt; read_bound = omega arith; count = refl; room = omega arith }

abbrev three : List ℕ
three = 7 ∷ 8 ∷ 9 ∷ []

pipe_write-Holds_example :
    (3 ≤ 512 → (q : Pipe) × (pipe_write false three pipe ≡ wrote q) × Holds q three)
    × (512 < 3 → Full false [] three pipe)
pipe_write-Holds_example = pipe_write-Holds false three [] pipe pipe-Holds

abbrev stocked : Pipe
stocked = record pipe { data_at = λ i. if i == 511 then 7 else 8; nwrite = 1 }

stocked-Holds : Holds stocked (7 ∷ 8 ∷ [])
stocked-Holds = record {
  bytes = (refl, (refl, tt));
  read_bound = omega arith;
  count = refl;
  room = omega arith;
}

run-InOrder_example :
    InOrder (run (write false three ∷ read false 2 ∷ write true three ∷ []) (new_trace pipe))
run-InOrder_example = run-InOrder (write false three ∷ read false 2 ∷ write true three ∷ []) pipe

pipe_read-Holds_example :
    (false ≡ true → pipe_read false 1 stocked ≡ waits)
    × (false ≡ false → (q : Pipe) × (pipe_read false 1 stocked ≡ got (7 ∷ []) q) × Holds q (8 ∷ []))
pipe_read-Holds_example = pipe_read-Holds false 1 (7 ∷ 8 ∷ []) stocked stocked-Holds
