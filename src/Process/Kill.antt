-- ===== src/Process/Kill.antt =====
-- `kill`: who is marked.
use hyu_ele.Prelude.{
  ℕ, zero, suc, ◌+◌, ◌≡◌, ◌≢◌, ◌≤◌, ◌<◌, inl, inr, refl, arith, Bool, true, false, ◌==◌, Bool-cases,
  Option, none, some,
}
use hyu_ele.Mlfq.{Ptr, nproc}
use hyu_ele.Sched.State.{Double, is_sleeping, runnable, Procs, get_highest_master}
use hyu_ele.Process.{Machine, procs, with_procs, mark_killed, find_pid, kill}

module _ (F : Double) where
  -- The entry that `find_pid` finds.
  data Found (pid p k : ℕ) (ps : Procs F) : Option Ptr → Type 0 where
    at_entry :
        (z : ℕ)
        → p ≤ z
        → z < p + k
        → (ps z).pid ≡ pid
        → ((x : ℕ) → p ≤ x → x < z → (ps x).pid ≢ pid)
        → Found pid p k ps (some z)
    nowhere : ((x : ℕ) → p ≤ x → x < p + k → (ps x).pid ≢ pid) → Found pid p k ps none

  Found-next :
      (pid p k : ℕ) (ps : Procs F) (o : Option Ptr)
      → (ps p).pid ≢ pid
      → Found pid (p + 1) k ps o
      → Found pid p (suc k) ps o
  Found-next pid p k ps o n (at_entry z a b e all) =
      at_entry z (omega arith) (omega arith) e (λ x c d. elim (Bool-cases (x == p)) [
        | inl q ↦ let same : x ≡ p = ground arith in rw same n
        | inr q ↦ all x (ground arith) d
      ])
  Found-next pid p k ps o n (nowhere all) = nowhere (λ x c d. elim (Bool-cases (x == p)) [
    | inl q ↦ let same : x ≡ p = ground arith in rw same n
    | inr q ↦ all x (ground arith) (omega arith)
  ])

  find_pid_lem : (k p pid : ℕ) (ps : Procs F) → Found pid p k ps (find_pid F k p pid ps)
  unfolding find_pid
  find_pid_lem zero p pid ps = nowhere (λ x a b. absurd (omega arith))
  find_pid_lem (suc k) p pid ps = elim (Bool-cases ((ps p).pid == pid)) [
    | inl e ↦
        rw e (at_entry p (omega arith) (omega arith) (ground arith) (λ x a b. absurd (omega arith)))
    | inr e ↦ rw e (Found-next pid p k ps _ (λ q. ground arith) (find_pid_lem k (p + 1) pid ps))
  ]

  -- The process `top` of the table was killed.
  pub record Marked (top : Ptr) (m m1 : Machine F) : Type 0 where
    pub dies : (procs F m1 top).killed ≡ true
    pub awake : is_sleeping (procs F m1 top).state ≡ false
    pub same_entry :
        procs F m1 top ≡ record (procs F m top) { killed = true; state = (procs F m1 top).state }
    pub stays :
        is_sleeping (procs F m top).state ≡ false → (procs F m1 top).state ≡ (procs F m top).state
    pub woken : is_sleeping (procs F m top).state ≡ true → (procs F m1 top).state ≡ runnable
    pub others : (x : ℕ) → x ≢ top → procs F m1 x ≡ procs F m x
    pub unlocked : m1.held ≡ false

  -- The two branches of `kill`.
  pub data Killed (pid : ℕ) (m : Machine F) (r : Bool × Machine F) : Type 0 where
    killed :
        (z : ℕ)
        → 1 ≤ z
        → z ≤ nproc
        → (procs F m z).pid ≡ pid
        → ((x : ℕ) → 1 ≤ x → x < z → (procs F m x).pid ≢ pid)
        → r.0 ≡ true
        → Marked (get_highest_master F z (procs F m)) m r.1
        → Killed pid m r
    nobody :
        ((x : ℕ) → 1 ≤ x → x ≤ nproc → (procs F m x).pid ≢ pid)
        → r ≡ (false, record m { held = false })
        → Killed pid m r

  marked :
      (top : Ptr) (m : Machine F)
      → Marked top m (record (with_procs F (mark_killed F top (procs F m)) m) { held = false })
  marked top m = record {
    dies = ground arith;
    awake = ground arith;
    same_entry = ground arith;
    stays = λ s. ground arith;
    woken = λ s. ground arith;
    others = λ x n. ground arith;
    unlocked = refl;
  }

  abbrev act : ℕ → Machine F → Option Ptr → Bool × Machine F
  act pid m o = elim o [
    | none ↦ (false, record m { held = false })
    | some p ↦ (
      true,
      record (with_procs F (mark_killed F (get_highest_master F p (procs F m)) (procs F m)) m) {
        held = false;
      },
    )
  ]

  from_Found :
      (pid : ℕ) (m : Machine F) (o : Option Ptr)
      → Found pid 1 nproc (procs F m) o
      → Killed pid m (act pid m o)
  from_Found pid m o (nowhere all) = nobody (λ x a b. all x a (omega arith)) refl
  from_Found pid m o (at_entry z a b e all) =
      killed z a (omega arith) e all refl (marked (get_highest_master F z (procs F m)) m)

  -- `kill` of a pid that a table entry has marks the master of the first such entry: it is killed and
  -- runnable if it slept, while its state stays as it was if it did not sleep, and nothing else of it or
  -- of another entry changes. Without such an entry it returns -1 and
  -- changes no process.
  pub kill_lem : (pid : ℕ) (m : Machine F) → Killed pid m (kill F pid m)
  unfolding kill
  kill_lem pid m =
      from_Found pid m (find_pid F nproc 1 pid (procs F m)) (find_pid_lem nproc 1 pid (procs F m))
