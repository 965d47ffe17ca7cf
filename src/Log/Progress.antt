-- ===== src/Log/Progress.antt =====
-- After the last running operation the log takes a new one, at once or after the commit.
use hyu_ele.Prelude.{◌≡◌, ◌≢◌, arith, some, none, true, false}
use hyu_ele.Log.{State, committed, set_committing, commit, begin_op, end_op, sync, sync_wait}
use hyu_ele.Log.Reserve.{with_log, commit-log}

-- When the last operation ends, while no commit is in progress and no `sync` is pending, either `begin_op` admits another at once, or `end_op` asks for a commit;
-- then `begin_op` waits, the commit does not, and after it `begin_op` admits an operation.
pub end_op-begin_op :
    (s : State)
    → s.log.outstanding ≡ 1
    → s.log.committing ≡ false
    → let (full, l) = end_op s.log in
      (full ≡ false → begin_op l ≡ some (record l { outstanding = 1 }))
      × (full ≡ true
          → (begin_op l ≡ none)
            × (sync (with_log l s)
                ≡ committed (set_committing false (commit (set_committing true (with_log l s)))))
            × (begin_op (set_committing false (commit (set_committing true (with_log l s)))).log
                ≢ none))
unfolding end_op begin_op sync sync_wait set_committing
end_op-begin_op s o c = (
  λ e. ground arith,
  λ e. (
    ground arith,
    ground arith,
    ground (arith, commit-log (set_committing true (with_log (end_op s.log).1 s))),
  ),
)
