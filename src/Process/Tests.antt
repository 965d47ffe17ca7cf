-- ===== src/Process/Tests.antt =====
-- A table of two processes and a thread, and the theorems at it.
use hyu_ele.Prelude.{
  ℕ, ◌+◌, ◌-◌, ◌/◌, ◌≡◌, ◌≢◌, ◌≤◌, ◌∷◌, [], refl, arith, true, false, ◌==◌, ltb, if◌then◌else◌,
  some,
}
use hyu_ele.Mlfq.{Ptr, null, nproc, NodeState}
use hyu_ele.Sched.State.{
  Double, ProcState, unused, sleeping, running, Proc, Procs, get_highest_master, master_of,
}
use hyu_ele.Process.{
  Machine, procs, is_zombie, is_unused, exit_finish, wait, reaped, reap, first_unused, allocproc,
  fork, fork_into, find_pid, kill,
}
use hyu_ele.Process.Exit.{Exited, exit_finish_lem}
use hyu_ele.Process.Wake.{sleeps_on}
use hyu_ele.Process.Wait.{Answer, Child, wait_lem, exit-wait}
use hyu_ele.Process.Fork.{Forked, Below, fork_lem, fork-Below}
use hyu_ele.Process.Kill.{Killed, kill_lem}
use hyu_ele.Process.Threads.{thread_create, thread_exit, thread_join, joined}
use hyu_ele.Process.Threads.Links.{ThreadList}
use hyu_ele.Process.Threads.Create.{Created, thread_create_lem}
use hyu_ele.Process.Threads.Join.{thread_exit-join}

-- Numbers in place of doubles.
abbrev numbers : Double
numbers = record {
  D = ℕ;
  add = ◌+◌;
  quotient = λ a b c. a / (b - c);
  of_nat = λ n. n;
  neg_one = 1000000;
  lt = ltb;
  eqb = ◌==◌;
}

abbrev proc : ProcState → ℕ → Ptr → ℕ → ℕ → Ptr → Ptr → Ptr → Proc numbers
proc s pid parent chan tid master prev next = record {
  state = s;
  pid = pid;
  parent = parent;
  chan = chan;
  killed = false;
  schedmode = 0;
  path = 0;
  fixedshare = 0;
  pathlevel = 0;
  tid = tid;
  master = master;
  prev_thread = prev;
  next_thread = next;
  turn = null;
}

-- Process 1 waits for its child 2, which has the thread 3.
abbrev table : Procs numbers
table x =
    if x == 1
    then proc sleeping 1 0 1 0 0 0 0
    else if x == 2
    then proc running 2 1 0 0 0 0 3
    else if x == 3
    then proc running 2 0 0 7 2 2 0
    else proc unused 0 0 0 0 0 0 0

abbrev machine : Machine numbers
machine = record {
  sched = record {
    procs = table;
    queue = record {
      nodes = λ x. record {
        prev = 0;
        next = 0;
        self = 0;
        state = NodeState.unused;
        level = 0;
        exec_time = 0;
      };
      headers = λ i. 65 + i;
      mnode = λ p. null;
    };
    default_stride = 1;
    default_path = 0;
    default_highpr = null;
    mlfq_stride = 5;
    mlfq_path = 0;
    mlfq_highpr = null;
    slice_cnt = 0;
    tick_cnt = 0;
    allottime = λ i. 5;
    slice = λ i. 1;
    fixedmin = null;
  };
  kstack = λ x. 0;
  pgdir = λ x. 0;
  sz = λ x. 16384;
  originalbase = λ x. 8192;
  retval = λ x. 0;
  emptystacks = λ x i. 0;
  emptystackcnt = λ x. 0;
  nextpid = 3;
  nexttid = 8;
  initproc = 1;
  held = true;
  mem_held = false;
}

exit_finish_lem_example : Exited numbers 2 machine
exit_finish_lem_example = exit_finish_lem numbers 2 machine

wait_lem_example : Answer numbers 1 machine (wait numbers 1 machine)
wait_lem_example = wait_lem numbers 1 machine

exit-wait_example :
    let after = exit_finish numbers 2 machine in
    (sleeps_on numbers 1 (procs numbers after 1) ≡ false)
    × (z : ℕ) × Child numbers 1 after z
    × (is_zombie (procs numbers after z).state ≡ true)
    × (wait numbers 1 after ≡ reaped (procs numbers after z).pid (reap numbers z after))
exit-wait_example =
    exit-wait numbers 2 1 machine (omega arith) (omega arith) (omega arith) (omega arith)
      (λ e. omega arith) refl

fork_lem_example : Forked numbers 2 5 6 machine (fork numbers 2 5 6 machine)
fork_lem_example = fork_lem numbers 2 5 6 machine

machine-Below : Below numbers machine
machine-Below x a b u = ground arith

fork-Below_example :
    Below numbers (fork numbers 2 5 6 machine).1
    × ((p x : ℕ)
        → (fork numbers 2 5 6 machine).0 ≡ some p
        → 1 ≤ x
        → x ≤ nproc
        → is_unused (table x).state ≡ false
        → (table x).pid ≢ p)
fork-Below_example = fork-Below numbers 2 5 6 machine machine-Below (omega arith)

-- A child that is forked into an entry that `kill(0)` has marked is killed from the start.
born_killed : (procs numbers (fork numbers 2 5 6 (kill numbers 0 machine).1).1 4).killed ≡ true
unfolding fork fork_into allocproc first_unused kill find_pid get_highest_master master_of
born_killed = refl

kill_lem_example : Killed numbers 2 machine (kill numbers 2 machine)
kill_lem_example = kill_lem numbers 2 machine

table-ThreadList : ThreadList numbers table (2 ∷ 3 ∷ [])
table-ThreadList = record {
  chain = (
    record { forth = λ h. absurd (h refl); back = λ h. refl },
    (
      record { forth = λ h. refl; back = λ h. refl },
      record { forth = λ h. refl; back = λ h. absurd (h refl) },
    ),
  );
  no_repeat = refl;
}

thread_create_lem_example :
    ((thread_create numbers 2 5 true machine).0 ≡ some 8)
    × (np : Ptr) × Created numbers 2 np []
        (3 ∷ [])
        machine
        (thread_create numbers 2 5 true machine).1
thread_create_lem_example =
    thread_create_lem numbers 2 5 4 machine [] (3 ∷ []) (λ e. omega arith)
      (omega arith, omega arith, refl) table-ThreadList (λ y h. ground arith)

thread_exit-join_example :
    (m2 : Machine numbers) × (thread_join numbers 2 7 false (thread_exit numbers 3 42 machine)
      ≡ joined 42 m2)
    × ThreadList numbers (procs numbers m2) (2 ∷ [])
    × ((procs numbers m2 3).state ≡ unused)
thread_exit-join_example =
    thread_exit-join numbers 2 42 7 false machine [] 3 [] table-ThreadList (λ e. omega arith) refl
      (λ x h. ground arith) (omega arith)
