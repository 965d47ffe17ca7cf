-- ===== src/Sched/Tests.antt =====
-- A table of four processes, and the theorems at it.
use hyu_ele.Prelude.{
  ℕ, ◌+◌, ◌-◌, ◌/◌, ◌≡◌, ◌≢◌, ◌≤◌, ◌∷◌, [], List, refl, arith, true, false, ◌==◌, ltb,
  if◌then◌else◌,
}
use hyu_ele.Mlfq.{Ptr, null, nproc, Nodes, MlfqNode, NodeState, unused, used, header}
use hyu_ele.Sched.State.{Double, ProcState, sleeping, runnable, running, Proc, Procs, Sched}
use hyu_ele.Sched.Vals.{choose_by_mlfq, update_vals}
use hyu_ele.Sched.Run.{found, out_of_fuel, turn_loop, cpu_share, share_total}
use hyu_ele.Sched.Turns.{NextTo, turn_loop_lem, turn_loop-hangs}
use hyu_ele.Sched.Walk.{choose_by_mlfq_lem, Picks, whole}
use hyu_ele.Sched.Scan.{Lowest, update_vals-Lowest}
use hyu_ele.Sched.Share.{table_sum, granted, is_running}
use hyu_ele.Sched.Share.Grant.{cpu_share_lem}
use hyu_ele.Prelude.Maps.{has}
use hyu_ele.Mlfq.Links.{IsList}

-- Numbers in place of doubles.
abbrev numbers : Double
numbers = record {
  D = ℕ;
  add = ◌+◌;
  quotient = λ a b c. a / (b - c);
  of_nat = λ n. n;
  neg_one = 1000000;
  lt = ltb;
  eqb = ◌==◌;
}

abbrev proc : ProcState → ℕ → Ptr → Ptr → Proc numbers
proc s mode master next = record {
  state = s;
  pid = 1;
  parent = null;
  chan = 0;
  killed = false;
  schedmode = mode;
  path = 0;
  fixedshare = 0;
  pathlevel = 0;
  tid = 0;
  master = master;
  prev_thread = null;
  next_thread = next;
  turn = null;
}

-- Process 1 has the threads 2 and 3; 3 can run.
abbrev threads : Procs numbers
threads x =
    if x == 1
    then proc sleeping 0 0 2
    else if x == 2
    then proc sleeping 0 1 3
    else if x == 3
    then proc runnable 0 1 0
    else proc sleeping 0 0 0

threads-NextTo : NextTo numbers threads (1 ∷ 2 ∷ 3 ∷ []) null
threads-NextTo = (λ e. omega arith, refl, (λ e. omega arith, refl, (λ e. omega arith, refl, tt)))

turn_loop_lem_example : turn_loop numbers 3 1 2 2 threads ≡ found 3
turn_loop_lem_example =
    turn_loop_lem numbers threads 3 1 2 (1 ∷ []) (3 ∷ []) 3 threads-NextTo refl refl (omega arith)
      refl

-- Processes 4 to 64 sleep and are alone.
turn_loop-hangs_example : turn_loop numbers 1000 4 4 4 threads ≡ out_of_fuel
turn_loop-hangs_example =
    turn_loop-hangs numbers threads 1000 4 [] (λ e. omega arith, refl, tt) refl refl

-- Four headers and, on level 0, the node 1 of the sleeping process 2 and the node 2 of process 3.
abbrev node_at : Ptr → Ptr → Ptr → NodeState → MlfqNode
node_at prev next self state = record {
  prev = prev;
  next = next;
  self = self;
  state = state;
  level = 0;
  exec_time = 0;
}

abbrev nodes : Nodes
nodes x =
    if x == 65
    then node_at 0 1 0 header
    else if x == 1
    then node_at 65 2 2 used
    else if x == 2
    then node_at 1 66 3 used
    else if x == 66
    then node_at 2 67 0 header
    else if x == 67
    then node_at 66 68 0 header
    else if x == 68
    then node_at 67 0 0 header
    else node_at 0 0 0 unused

abbrev state : Sched numbers
state = record {
  procs = threads;
  queue = record { nodes = nodes; headers = λ i. 65 + i; mnode = λ p. p - 1 };
  default_stride = 1;
  default_path = 0;
  default_highpr = null;
  mlfq_stride = 5;
  mlfq_path = 0;
  mlfq_highpr = null;
  slice_cnt = 0;
  tick_cnt = 0;
  allottime = λ i. if i == 0 then 5 else if i == 1 then 10 else 1000;
  slice = λ i. if i == 0 then 1 else if i == 1 then 2 else 4;
  fixedmin = null;
}

abbrev behind : List Ptr
behind = 1 ∷ 2 ∷ 66 ∷ 67 ∷ 68 ∷ []

nodes-IsList : IsList nodes (65 ∷ behind)
nodes-IsList = record {
  chain = (
    record { forth = λ h. absurd (h refl); back = λ h. refl },
    (
      record { forth = λ h. refl; back = λ h. refl },
      (
        record { forth = λ h. refl; back = λ h. refl },
        (
          record { forth = λ h. refl; back = λ h. refl },
          (
            record { forth = λ h. refl; back = λ h. refl },
            (
              record { forth = λ h. refl; back = λ h. refl },
              record { forth = λ h. refl; back = λ h. absurd (h refl) },
            ),
          ),
        ),
      ),
    ),
  );
  no_repeat = refl;
}

choose_by_mlfq_lem_example :
    let (m, r) = choose_by_mlfq numbers state in
    (m ≡ 2)
    × Picks numbers threads nodes (whole numbers state behind) m
    × IsList r.queue.nodes (65 ∷ behind)
choose_by_mlfq_lem_example = choose_by_mlfq_lem numbers state behind nodes-IsList (omega arith) refl

update_vals-Lowest_example : Lowest numbers threads nproc (update_vals numbers state).default_highpr
update_vals-Lowest_example = update_vals-Lowest numbers state

-- Process 1 runs and its threads 2 and 3 can run.
abbrev at_work : Procs numbers
at_work x =
    if x == 1
    then proc running 0 0 2
    else if x == 2
    then proc runnable 0 1 3
    else if x == 3
    then proc runnable 0 1 0
    else proc sleeping 0 0 0

abbrev calling : Sched numbers
calling = record state { procs = at_work }

at_work-NextTo : NextTo numbers at_work (1 ∷ 2 ∷ 3 ∷ []) null
at_work-NextTo = (λ e. omega arith, refl, (λ e. omega arith, refl, (λ e. omega arith, refl, tt)))

one_runs : (x : ℕ) → is_running (at_work x).state ≡ true → x ≡ 1
one_runs x = ground arith

have_master : (x : Ptr) → has x (2 ∷ 3 ∷ []) ≡ true → (at_work x).master ≢ null
have_master x = ground arith

cpu_share_lem_example :
    let (ok, r) = cpu_share numbers 1 15 calling in
    if ok then table_sum nproc (granted numbers r.procs) ≤ 20 else r ≡ calling
cpu_share_lem_example =
    cpu_share_lem numbers 1 15 (2 ∷ 3 ∷ []) calling refl one_runs at_work-NextTo (omega arith)
      have_master (omega arith)

-- When process 4 has a share of 1, an overflow lets `cpu_share(2147483647)` pass.
abbrev shared : Procs numbers
shared x = if x == 4 then record (proc sleeping 1 0 0) { fixedshare = 1 } else at_work x

overflow_passes : (cpu_share numbers 1 2147483647 (record state { procs = shared })).0 ≡ true
unfolding cpu_share share_total
overflow_passes = refl
