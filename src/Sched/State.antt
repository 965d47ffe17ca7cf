-- ===== src/Sched/State.antt =====
-- The state of the scheduler of xv6-public/proc.c and proc.h, and `get_highest_master`.
-- Process `ptable.proc[i]` has the address `i + 1`; 0 is null. The pass values are C doubles, which
-- enter as a parameter; `ptable.lock` is held throughout, so each function is one step.
use hyu_ele.Prelude.{ℕ, zero, suc, Bool, true, false, ◌==◌, if◌then◌else◌}
use hyu_ele.Prelude.Maps.{update}
use hyu_ele.Mlfq.{Ptr, null, Queue, nproc}

-- The double arithmetic that the code uses.
pub record Double : Type 1 where
  pub D : Type 0
  pub add : D → D → D
  -- `(double)a / (double)(b - c)`
  pub quotient : ℕ → ℕ → ℕ → D
  pub of_nat : ℕ → D
  pub neg_one : D
  pub lt : D → D → Bool
  pub eqb : D → D → Bool

pub data ProcState : Type 0 where
  unused embryo sleeping runnable running zombie : ProcState

abbrev pub is_runnable : ProcState → Bool
is_runnable runnable = true
is_runnable _ = false

abbrev pub is_sleeping : ProcState → Bool
is_sleeping sleeping = true
is_sleeping _ = false

module _ (F : Double) where
  -- The fields of `struct proc` that the scheduler reads or writes; `mnode` is kept in the queue.
  pub record Proc : Type 0 where
    pub state : ProcState
    pub pid : ℕ
    pub parent : Ptr
    pub chan : ℕ
    pub killed : Bool
    pub schedmode : ℕ
    pub path : F.D
    pub fixedshare : ℕ
    pub pathlevel : ℕ
    pub tid : ℕ
    pub master : Ptr
    pub prev_thread : Ptr
    pub next_thread : Ptr
    pub turn : Ptr

  -- `ptable.proc`, `defaultvmp`, `mlfqvmp`, the queue and `fixedmin`.
  pub record Sched : Type 0 where
    pub procs : Ptr → Proc
    pub queue : Queue
    pub default_stride : F.D
    pub default_path : F.D
    pub default_highpr : Ptr
    pub mlfq_stride : F.D
    pub mlfq_path : F.D
    pub mlfq_highpr : Ptr
    pub slice_cnt : ℕ
    pub tick_cnt : ℕ
    pub allottime : ℕ → ℕ
    pub slice : ℕ → ℕ
    pub fixedmin : Ptr

  abbrev pub Procs : Type 0
  Procs = Ptr → Proc

  -- `while(q->master) q = q->master;` with a bound on the rounds.
  unfoldable pub master_of : ℕ → Ptr → Procs → Ptr
  master_of zero q ps = q
  master_of (suc k) q ps =
      let up = master_of k (ps q).master ps in if (ps q).master == null then q else up

  -- A chain of masters has at most `NPROC` processes.
  unfoldable pub get_highest_master : Ptr → Procs → Ptr
  get_highest_master p ps = master_of nproc p ps

  unfoldable pub get_min_proc : Ptr → Ptr → Procs → Ptr
  get_min_proc a b ps =
      if a == null
      then b
      else if b == null
      then a
      else if F.lt (ps b).path (ps a).path
      then b
      else a

  abbrev pub set_path : Ptr → F.D → Procs → Procs
  set_path p d ps = update ps p (record (ps p) { path = d })
