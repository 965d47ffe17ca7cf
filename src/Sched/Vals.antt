-- ===== src/Sched/Vals.antt =====
-- `updatevals`, `choosebymlfq` and `choosebystride` of xv6-public/proc.c: who runs next.
use hyu_ele.Prelude.{
  ℕ, zero, suc, ◌+◌, Bool, true, not, ◌&&◌, ◌||◌, ◌==◌, ltb, if◌then◌else◌, Option, none, some,
}
use hyu_ele.Prelude.Maps.{update}
use hyu_ele.Mlfq.{Ptr, null, Nodes, nproc, is_used, slab_end, delete}
use hyu_ele.Sched.State.{
  Double, Procs, Sched, is_runnable, is_sleeping, get_highest_master, get_min_proc, set_path,
}

module _ (F : Double) where
  -- The variables of the loop in `updatevals`; `min2` is a level or -1, here `none`.
  pub record Scan : Type 0 where
    pub min : F.D
    pub min2 : Option ℕ
    pub highpr : Ptr
    pub fixed : Ptr
    pub total : ℕ
    pub mlfqcnt : ℕ
    pub mastercnt : ℕ

  abbrev pub below : ℕ → Option ℕ → Bool
  below n none = true
  below n (some m) = ltb n m

  -- One round, for a process in the state RUNNABLE with the highest master `h`.
  unfoldable pub scan_runnable : Ptr → Ptr → Procs F → Scan → Scan
  scan_runnable p h ps a =
      let c = record a {
        mastercnt = if (ps p).master == null then a.mastercnt + 1 else a.mastercnt;
      } in
      if (ps h).schedmode == 0
      then if below (ps h).pathlevel c.min2
        then record c { min2 = some (ps h).pathlevel; highpr = h }
        else c
      else if (ps h).schedmode == 1
      then (let d = record c {
        total = if (ps p).master == null then c.total + (ps p).fixedshare else c.total;
      } in
          if F.eqb d.min F.neg_one || F.lt (ps h).path d.min
          then record d { fixed = h; min = (ps h).path }
          else d)
      else record c { mlfqcnt = c.mlfqcnt + 1 }

  unfoldable pub scan_step : Ptr → Procs F → Scan → Scan
  scan_step p ps a =
      if is_runnable (ps p).state then scan_runnable p (get_highest_master F p ps) ps a else a

  -- `for(p = ptable.proc; p < &ptable.proc[NPROC]; p++)`: the first `k` entries, in order.
  unfoldable pub scan : ℕ → Procs F → Scan → Scan
  scan zero ps a = a
  scan (suc k) ps a = scan_step (suc k) ps (scan k ps a)

  abbrev pub scan_start : Scan
  scan_start = record {
    min = F.neg_one;
    min2 = none;
    highpr = null;
    fixed = null;
    total = 0;
    mlfqcnt = 0;
    mastercnt = 0;
  }

  -- The loop of `choosebymlfq`: the node chosen, and the slab without the nodes of processes that
  -- neither run nor sleep. The first argument bounds the rounds.
  unfoldable pub choose_walk : ℕ → Ptr → Procs F → Nodes → Ptr × Nodes
  choose_walk zero m ps f = (null, f)
  choose_walk (suc k) m ps f =
      let skip = choose_walk k (f m).next ps f in
      let drop = choose_walk k (f m).next ps (delete m f) in
      let st = (ps (f m).self).state in
      if m == null
      then (null, f)
      else if not (is_used (f m).state)
      then skip
      else if not (is_runnable st) && not (is_sleeping st)
      then drop
      else if is_runnable st
      then (m, f)
      else skip

  unfoldable pub choose_by_mlfq : Sched F → Ptr × Sched F
  choose_by_mlfq s =
      let q = s.queue in
      if q.headers 0 == null
      then (null, s)
      else if not (s.mlfq_highpr == null)
          && is_runnable (s.procs (q.nodes s.mlfq_highpr).self).state
      then (s.mlfq_highpr, s)
      else (let (m, f) = choose_walk slab_end (q.headers 0) s.procs q.nodes in
          (
            m,
            record s {
              queue = record q {
                nodes = f;
                headers =
                    if (f (q.headers 0)).next == null then update q.headers 0 null else q.headers;
              };
            },
          ))

  -- The part of `updatevals` behind the loop.
  unfoldable pub update_paths : Scan → Sched F → Sched F
  update_paths a s =
      let s1 = record s { default_highpr = a.highpr; fixedmin = a.fixed } in
      let s2 =
        if s1.default_highpr == null
        then s1
        else record s1 { procs = set_path F s1.default_highpr s1.default_path s1.procs } in
      if a.mlfqcnt == 0
      then record s2 { mlfq_path = F.neg_one; default_stride = F.quotient 100 100 a.total }
      else (let p = get_min_proc F s2.fixedmin s2.default_highpr s2.procs in
          record s2 {
            mlfq_path =
                if F.eqb s2.mlfq_path F.neg_one
                then (if p == null then F.of_nat 0 else (s2.procs p).path)
                else s2.mlfq_path;
            default_stride = F.quotient 100 80 a.total;
          })

  unfoldable pub update_vals : Sched F → Sched F
  update_vals s =
      let (m, s') = choose_by_mlfq (update_paths (scan nproc s.procs scan_start) s) in
      record s' { mlfq_highpr = m }

  unfoldable pub choose_by_stride : Sched F → Ptr × Sched F
  choose_by_stride s =
      let s1 = update_vals s in
      let s2 =
        if s1.default_highpr == null
        then s1
        else record s1 { procs = set_path F s1.default_highpr s1.default_path s1.procs } in
      if s2.mlfq_highpr == null
      then (get_min_proc F s2.fixedmin s2.default_highpr s2.procs, s2)
      else (let h = (s2.queue.nodes s2.mlfq_highpr).self in
          let s3 = record s2 { procs = set_path F h s2.mlfq_path s2.procs } in
          (get_min_proc F s3.fixedmin (get_min_proc F h s3.default_highpr s3.procs) s3.procs, s3))

  unfoldable pub get_min_path : Sched F → F.D × Sched F
  get_min_path s =
      let (p, s') = choose_by_stride s in (if p == null then F.of_nat 0 else (s'.procs p).path, s')

  unfoldable pub get_min_pathlevel : Sched F → ℕ
  get_min_pathlevel s = if s.default_highpr == null then 0 else (s.procs s.default_highpr).pathlevel
