-- ===== src/Sched/Run.antt =====
-- One turn of `scheduler`, and the system calls `cpu_share`, `run_MLFQ` and `getlev` of
-- xv6-public/proc.c.
use hyu_ele.Prelude.{
  ℕ, zero, suc, ◌+◌, ◌%◌, Bool, true, false, not, ◌&&◌, ◌||◌, ◌==◌, ltb, leb, if◌then◌else◌,
}
use hyu_ele.Prelude.Maps.{update}
use hyu_ele.Mlfq.{
  Ptr, null, nproc, delete, lower_level, requeue, priority_boost, init_headers, enqueue,
}
use hyu_ele.Sched.State.{
  Double, running, Procs, Sched, is_runnable, is_sleeping, get_highest_master, set_path,
}
use hyu_ele.Sched.Vals.{choose_by_stride, get_min_path}

-- How the search for a runnable thread ends.
pub data Turn : Type 0 where
  found : Ptr → Turn
  not_found : Turn
  out_of_fuel : Turn

-- Comparison of an int, given by its 32 bits, with 20 and with 0.
abbrev pub over_limit : ℕ → Bool
over_limit x = ltb 20 x && ltb x 2147483648

abbrev pub not_positive : ℕ → Bool
not_positive x = x == 0 || leb 2147483648 x

module _ (F : Double) where
  -- `while(1)` over the threads of `p` from `q` on; `start` is `p->turn`. The first argument bounds
  -- the rounds.
  unfoldable pub turn_loop : ℕ → Ptr → Ptr → Ptr → Procs F → Turn
  turn_loop zero p start q ps = out_of_fuel
  turn_loop (suc k) p start q ps =
      let q1 = if q == null then p else q in
      let q2 = (ps q1).next_thread in
      let rest = turn_loop k p start q2 ps in
      if is_runnable (ps q1).state then found q1 else if q2 == start then not_found else rest

  -- `p->turn = q->next_thread ? q->next_thread : p`
  unfoldable pub set_turn : Ptr → Ptr → Procs F → Procs F
  set_turn p q ps =
      update ps p
        (record (ps p) { turn = if (ps q).next_thread == null then p else (ps q).next_thread })

  -- The branch of `scheduler` for a process `p` in mode 2: the clock of the queue and the slice.
  unfoldable pub charge_mlfq : Ptr → Sched F → Sched F
  charge_mlfq p s =
      let m = s.queue.mnode p in
      let n = s.queue.nodes m in
      let s1 = record s {
        mlfq_path = F.add s.mlfq_path s.mlfq_stride;
        slice_cnt = s.slice_cnt + 1;
        queue = record s.queue {
          nodes = update s.queue.nodes m (record n { exec_time = n.exec_time + 1 });
        };
        tick_cnt = s.tick_cnt + 1;
      } in
      let n1 = s1.queue.nodes m in
      let s2 =
        if leb (s1.slice n1.level) s1.slice_cnt || not (is_runnable (s1.procs p).state)
        then (let q =
              if leb (s1.allottime n1.level) n1.exec_time
              then (let r = lower_level m s1.queue in
                  record r { nodes = update r.nodes m (record (r.nodes m) { exec_time = 0 }) })
              else requeue m s1.queue in
            record s1 { queue = q; slice_cnt = 0; mlfq_highpr = null })
        else s1 in
      if s2.slice_cnt == 100
      then record s2 { slice_cnt = 0; queue = priority_boost s2.queue }
      else s2

  -- The branches for the modes 0 and 1 share the search; then each charges its clock.
  unfoldable pub charge_default : Ptr → Sched F → Sched F
  charge_default p s = record s {
    default_path = F.add s.default_path s.default_stride;
    procs = update s.procs p (record (s.procs p) { pathlevel = (s.procs p).pathlevel + 1 });
  }

  unfoldable pub charge_fixed : Ptr → Sched F → Sched F
  charge_fixed p s = record s {
    procs = set_path F p (F.add (s.procs p).path (F.quotient 100 (s.procs p).fixedshare 0)) s.procs;
  }

  -- What a turn of the loop `while((p = choosebystride()) != 0)` does before `swtch`.
  pub data Outcome : Type 0 where
    idle : Sched F → Outcome
    again : Sched F → Outcome
    run : Ptr → Sched F → Outcome
    hang : Outcome

  unfoldable pub start_run : Ptr → Sched F → Outcome
  start_run q s =
      run q (record s { procs = update s.procs q (record (s.procs q) { state = running }) })

  unfoldable pub run_thread : ℕ → Ptr → (Sched F → Sched F) → Sched F → Outcome
  run_thread fuel p charge s = elim (turn_loop fuel p (s.procs p).turn (s.procs p).turn s.procs) [
    | found q ↦ start_run q (charge (record s { procs = set_turn p q s.procs }))
    | not_found ↦ again s
    | out_of_fuel ↦ hang
  ]

  unfoldable pub scheduler_turn : ℕ → Sched F → Outcome
  scheduler_turn fuel s0 =
      let (p, s) = choose_by_stride F s0 in
      if p == null
      then idle s
      else if (s.procs p).schedmode == 0
      then run_thread fuel p (charge_default p) s
      else if (s.procs p).schedmode == 1
      then run_thread fuel p (charge_fixed p) s
      else if (s.procs p).schedmode == 2
      then start_run p (charge_mlfq p s)
      else start_run p s

  -- The total of the loop in `cpu_share`, over the first `k` processes: an int, by its 32 bits.
  unfoldable pub share_total : ℕ → Procs F → ℕ
  share_total zero ps = 0
  share_total (suc k) ps =
      let p = ps (suc k) in
      (share_total k ps
        + (if p.schedmode == 1 && (is_runnable p.state || is_sleeping p.state) && p.master == null
            then p.fixedshare
            else 0))
      % 4294967296

  -- `while(p)` over a list of threads, with a bound on the rounds.
  unfoldable pub fix_threads : ℕ → Ptr → Sched F → Sched F
  fix_threads zero p s = s
  fix_threads (suc k) p s =
      let q = s.queue in
      let s1 = record s {
        queue =
            if (s.procs p).schedmode == 2
            then record q { nodes = delete (q.mnode p) q.nodes }
            else q;
        procs = update s.procs p (record (s.procs p) { schedmode = 1 });
      } in
      let rest = fix_threads k (s1.procs p).next_thread s1 in if p == null then s else rest

  -- `cpu_share(n)` of the process `me`; `n` is an int, by its 32 bits. The result is false for -1 and
  -- true for 0.
  unfoldable pub cpu_share : Ptr → ℕ → Sched F → Bool × Sched F
  cpu_share me n s =
      let total = share_total nproc s.procs in
      if not_positive n || over_limit ((total + n) % 4294967296)
      then (false, s)
      else (let p = get_highest_master F me s.procs in
          let s1 = record s { procs = update s.procs p (record (s.procs p) { fixedshare = n }) } in
          let (d, s2) = get_min_path F s1 in
          (true, fix_threads nproc p (record s2 { procs = set_path F p d s2.procs })))

  -- `initmlfq`.
  unfoldable pub init_mlfq : Sched F → Sched F
  init_mlfq s =
      if s.queue.headers 0 == null
      then (let s1 = record s {
        queue = init_headers s.queue;
        allottime = update (update (update s.allottime 0 5) 1 10) 2 1000;
        slice = update (update (update s.slice 0 1) 1 2) 2 4;
        mlfq_highpr = null;
        mlfq_path = F.of_nat 0;
        mlfq_stride = F.of_nat 5;
        slice_cnt = 0;
        tick_cnt = 0;
      } in
          let (d, s2) = get_min_path F s1 in record s2 { mlfq_path = d })
      else s

  unfoldable pub queue_threads : ℕ → Ptr → Sched F → Sched F
  queue_threads zero p s = s
  queue_threads (suc k) p s =
      let s1 = record s {
        procs = update s.procs p (record (s.procs p) { schedmode = 2 });
        queue = enqueue p s.queue;
      } in
      let rest = queue_threads k (s1.procs p).next_thread s1 in if p == null then s else rest

  unfoldable pub run_mlfq : Ptr → Sched F → Sched F
  run_mlfq me s =
      let s1 = if s.queue.headers 0 == null then init_mlfq s else s in
      let s2 =
        if F.eqb s1.mlfq_path F.neg_one
        then (let (d, t) = get_min_path F s1 in record t { mlfq_path = d })
        else s1 in
      queue_threads nproc (get_highest_master F me s2.procs) s2
