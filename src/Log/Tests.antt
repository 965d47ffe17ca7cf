-- ===== src/Log/Tests.antt =====
-- A log with one transaction, and the theorems at it.
use hyu_ele.Prelude.{
  ℕ, ◌≡◌, ◌≢◌, refl, ◌≤◌, ◌<◌, ◌⊎◌, inr, arith, none, some, true, false, [], ◌∷◌, ◌==◌,
  if◌then◌else◌,
}
use hyu_ele.Log.{
  Block, Log, State, committed, find_logged, log_write, bwrite, copy_block, write_log_from,
  write_log, install_from, install_trans, put_blocks, take_blocks, write_head, read_head,
  recover_from_log, initlog, commit, reboot, boots, begin_op, end_op, set_committing, sync,
}
use hyu_ele.Log.Loops.{IsValid}
use hyu_ele.Log.Finish.{Clean, Committed}
use hyu_ele.Log.Commit.{Coherent, commit_prefix}
use hyu_ele.Log.Crash.{super_of, crash_safe}
use hyu_ele.Log.Write.{log_write-IsValid, log_write-Coherent}
use hyu_ele.Log.Reserve.{
  Running, with_log, begins, writes, absorbs, Reach, here, next, Reserved, Reach-Reserved,
  log_write-safe,
}
use hyu_ele.Log.Progress.{end_op-begin_op}

-- The log lies at the blocks 2 to 61. Block 100 is logged: its buffer holds fives, the disk noughts.
abbrev zeros : Block
zeros = λ _. 0

abbrev fives : Block
fives = λ _. 5

abbrev empty_log : Log
empty_log = record {
  start = 2;
  size = 60;
  outstanding = 0;
  committing = false;
  dev = 1;
  lh = record { n = 0; block = λ _. 0 };
}

abbrev one_log : Log
one_log = record empty_log { lh = record { n = 1; block = λ _. 100 } }

abbrev state : Log → ℕ → State
state l w = record {
  log = l;
  cache = λ a. if a == 100 then fives else zeros;
  dirty = λ a. a == 100;
  disk = λ _. zeros;
  writes_left = w;
}

one_log-IsValid : IsValid one_log
one_log-IsValid = record {
  fits = omega arith;
  outside = λ i h. omega arith;
  apart = λ i j h k e. omega arith;
}

one-Coherent : (w : ℕ) → Coherent (state one_log w)
one-Coherent w a out not_named = let ne : a ≢ 100 = not_named 0 (omega arith) in ground arith

-- With three writes the transaction is installed, with one it is lost.
commit_runs :
    ((commit (state one_log 4)).disk 100 7 ≡ 5) × ((commit (state one_log 1)).disk 100 7 ≡ 0)
unfolding commit write_log write_log_from install_trans install_from copy_block write_head
    put_blocks bwrite
commit_runs = (refl, refl)

-- With two writes the header is on disk, and recovery installs the transaction.
recovery_runs :
    (initlog 1 (super_of (state one_log 2)) (reboot 9 (commit (state one_log 2)))).disk 100 7 ≡ 5
unfolding commit write_log write_log_from install_trans install_from copy_block write_head
    put_blocks bwrite initlog reboot recover_from_log read_head take_blocks
recovery_runs = refl

commit_prefix_example :
    (2 ≤ 1 → Clean 2 60 (λ _. zeros) (commit (state one_log 2)).disk)
    × (1 < 2
        → 2 ≤ 3
        → Committed 2 60 1 (λ _. 100) (state one_log 2).cache (commit (state one_log 2)).disk)
    × (3 < 2 → Clean 2 60 (state one_log 2).cache (commit (state one_log 2)).disk)
commit_prefix_example = commit_prefix (state one_log 2) one_log-IsValid refl (one-Coherent 2)

crash_safe_example :
    (initlog 1 (super_of (state one_log 2)) (
        reboot 2 (boots (super_of (state one_log 2)) (1 ∷ 0 ∷ []) (commit (state one_log 2))))).disk
      100
    ≡ fives
crash_safe_example =
    crash_safe (state one_log 2) (1 ∷ 0 ∷ []) 2 one_log-IsValid refl (one-Coherent 2) (omega arith)
      100 (inr (omega arith))

-- An operation logs block 100.
abbrev running_log : Log
running_log = record empty_log { outstanding = 1 }

abbrev written : State
written = record (state running_log 9) {
  log = record running_log { lh = record { n = 1; block = λ i. if i == 0 then 100 else 0 } };
  dirty = λ a. if a == 100 then true else a == 100;
}

log_write_runs_once : log_write 100 (state running_log 9) ≡ some written
unfolding log_write find_logged
log_write_runs_once = refl

running-IsValid : IsValid running_log
running-IsValid = record {
  fits = omega arith;
  outside = λ i h. absurd (omega arith);
  apart = λ i j h. absurd (omega arith);
}

log_write-IsValid_example : IsValid written.log
log_write-IsValid_example =
    log_write-IsValid (state running_log 9) 100 written log_write_runs_once running-IsValid
      (inr (omega arith))

-- One operation in the log.
abbrev quiet : State
quiet = state empty_log 9

abbrev idle : Running
idle = record { state = quiet; credits = [] }

idle-Reserved : Reserved idle
idle-Reserved = record { counted = refl; fits = omega arith; each = tt }

abbrev begun : Running
begun = record { state = with_log running_log quiet; credits = 20 ∷ [] }

-- It logs block 100, and writes the same block once more.
abbrev twice : State
twice = record written {
  log = record running_log {
    lh = record { n = 1; block = λ i. if i == 0 then 100 else if i == 0 then 100 else 0 };
  };
  dirty = λ a. if a == 100 then true else written.dirty a;
}

log_write_runs_twice : log_write 100 written ≡ some twice
unfolding log_write find_logged
log_write_runs_twice = refl

path : Reach idle (record { state = twice; credits = 19 ∷ [] })
unfolding begin_op
path =
    next
      (next (next here (begins quiet [] running_log refl))
        (writes begun.state written [] [] 19 100 log_write_runs_once refl))
      (absorbs written twice [] [] 19 100 log_write_runs_twice refl)

Reach-Reserved_example : Reserved (record { state = twice; credits = 19 ∷ [] })
Reach-Reserved_example = Reach-Reserved idle-Reserved path

log_write-safe_example :
    ((r : State) × (log_write 200 twice ≡ some r))
    ⊎ ((19 ≤ 1) × (60 ≤ 2) × (log_write 200 twice ≡ none))
log_write-safe_example = log_write-safe twice [] [] 19 200 idle-Reserved path refl

abbrev ending : State
ending = state running_log 9

end_op-begin_op_example :
    let (full, l) = end_op running_log in
    (full ≡ false → begin_op l ≡ some (record l { outstanding = 1 }))
    × (full ≡ true
        → (begin_op l ≡ none)
          × (sync (with_log l ending)
              ≡ committed (set_committing false (commit (set_committing true (with_log l ending)))))
          × (begin_op (set_committing false (commit (set_committing true (with_log l ending)))).log
              ≢ none))
end_op-begin_op_example = end_op-begin_op ending refl refl

log_write-Coherent_example : Coherent written
log_write-Coherent_example =
    log_write-Coherent (state running_log 9) 100 written log_write_runs_once
      (λ a out ne _. ground arith)
