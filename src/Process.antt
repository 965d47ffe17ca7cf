-- ===== src/Process.antt =====
-- Processes of xv6-public/proc.c: `allocproc`, `userinit`, `growproc`, `fork`, `exit`, `wait`, `kill`,
-- `sleep`, `wakeup1` and `yield`.
-- The process table is that of Sched. `held` and `mem_held` say whether `ptable.lock` and `memlock` are
-- held when a call returns. What `kalloc`, `copyuvm2` and `allocuvm` return is an argument: a page or
-- page directory, 0 for failure, or whether there was memory. Trap frames, names, open files and the
-- current directory are left out.
pub mod Threads
pub mod Wake
pub mod Exit
pub mod Wait
pub mod Fork
pub mod Kill
mod Tests
use hyu_ele.Prelude.{
  ℕ, zero, suc, ◌+◌, ◌-◌, ◌%◌, Bool, true, false, not, ◌&&◌, ◌||◌, ◌==◌, ltb, leb, if◌then◌else◌,
  Option, none, some,
}
use hyu_ele.Prelude.Maps.{update}
use hyu_ele.Mlfq.{Ptr, null, nproc}
use hyu_ele.Sched.State.{
  Double, ProcState, unused, embryo, sleeping, runnable, running, zombie, Proc, Procs, Sched,
  is_sleeping, get_highest_master,
}
use hyu_ele.Sched.Vals.{update_vals, get_min_pathlevel}

abbrev pub is_unused : ProcState → Bool
is_unused unused = true
is_unused _ = false

abbrev pub is_zombie : ProcState → Bool
is_zombie zombie = true
is_zombie _ = false

module _ (F : Double) where
  -- The table and the fields of `struct proc` that the scheduler does not use.
  pub record Machine : Type 0 where
    pub sched : Sched F
    pub kstack : Ptr → ℕ
    pub pgdir : Ptr → ℕ
    pub sz : Ptr → ℕ
    pub originalbase : Ptr → ℕ
    pub retval : Ptr → ℕ
    pub emptystacks : Ptr → ℕ → ℕ
    pub emptystackcnt : Ptr → ℕ
    pub nextpid : ℕ
    pub nexttid : ℕ
    pub initproc : Ptr
    pub held : Bool
    pub mem_held : Bool

  abbrev pub procs : Machine → Procs F
  procs m = m.sched.procs

  abbrev pub with_procs : Procs F → Machine → Machine
  with_procs ps m = record m { sched = record m.sched { procs = ps } }

  abbrev pub put : Ptr → Proc F → Machine → Machine
  put p q m = with_procs (update (procs m) p q) m

  -- `for(p = ptable.proc; p < &ptable.proc[NPROC]; p++) if(p->state == UNUSED) goto found;`
  unfoldable pub first_unused : ℕ → Ptr → Procs F → Option Ptr
  first_unused zero p ps = none
  first_unused (suc k) p ps =
      let rest = first_unused k (p + 1) ps in if is_unused (ps p).state then some p else rest

  -- The process found, or null; `page` is what `kalloc` returns.
  unfoldable pub allocproc : ℕ → Machine → Ptr × Machine
  allocproc page m = elim (first_unused nproc 1 (procs m)) [
    | none ↦ (null, record m { held = false })
    | some p ↦
        let m1 = record (put p (record (procs m p) { state = embryo; pid = m.nextpid }) m) {
          nextpid = (m.nextpid + 1) % 4294967296;
          held = false;
        } in
        let m2 = record m1 { kstack = update m1.kstack p page } in
        if page == 0 then (null, put p (record (procs m2 p) { state = unused }) m2) else (p, m2)
  ]

  -- `none` is the panic "out of memory?", or a process that is null.
  unfoldable pub userinit : ℕ → ℕ → Machine → Option Machine
  userinit page dir m =
      let (p, m1) = allocproc page m in
      if p == null || dir == 0
      then none
      else (let m2 =
            record (put p (record (procs m1 p) { state = runnable; schedmode = 0; turn = p }) m1) {
              initproc = p;
              pgdir = update m1.pgdir p dir;
              sz = update m1.sz p 4096;
            } in
          let s = update_vals F m2.sched in
          let level =
            if s.default_highpr == null then 0 else (s.procs s.default_highpr).pathlevel in
          some (record m2 {
            sched = record s {
              procs = update s.procs p (record (s.procs p) { pathlevel = level });
            };
            held = false;
          }))

  -- `growproc(n)`, for `n` upwards or downwards; `room` says whether `allocuvm` gets its memory. Its
  -- result is the new size, 0 for failure; `deallocuvm` down to nothing counts as failure, and leaves
  -- the size as it is when `sz + n` wraps below 0.
  unfoldable pub growproc : Ptr → Bool → ℕ → Bool → Machine → Option ℕ × Machine
  growproc me up n room m =
      let master = get_highest_master F me (procs m) in
      let old = m.sz master in
      let new =
        if n == 0
        then old
        else if up
        then (if room then old + n else 0)
        else if ltb old n
        then old
        else old - n in
      if not (n == 0) && new == 0 then (none, record m { mem_held = true }) else (
        some new,
        record m {
          sz =
              if (procs m me).master == null
              then update m.sz me new
              else update (update m.sz me new) master new;
          mem_held = false;
        },
      )

  -- `fork` after `allocproc` has made the entry `np`; `dir` is what `copyuvm2` returns.
  unfoldable pub fork_into : Ptr → Ptr → ℕ → Machine → Option ℕ × Machine
  fork_into me np dir m =
      let top = get_highest_master F me (procs m) in
      let m1 = record m {
        held = true;
        sz = update m.sz me (m.sz top);
        emptystacks =
            update m.emptystacks np (λ i.
              if ltb i (m.emptystackcnt top) then m.emptystacks top i else m.emptystacks np i);
        emptystackcnt = update m.emptystackcnt np (m.emptystackcnt top);
      } in
      if dir == 0
      then (
        none,
        record (put np (record (procs m1 np) { state = unused }) m1) {
          kstack = update m1.kstack np 0;
          pgdir = update m1.pgdir np 0;
        },
      )
      else (
        some (procs m1 np).pid,
        record (put np
            (record (procs m1 np) {
              parent = me;
              state = runnable;
              turn = np;
              schedmode = 0;
              pathlevel = get_min_pathlevel F m1.sched;
              tid = 0;
              prev_thread = null;
              next_thread = null;
            })
            m1) { pgdir = update m1.pgdir np dir; sz = update m1.sz np (m1.sz me); held = false },
      )

  -- `fork` of the process `me`: the pid of the child, or none for -1.
  unfoldable pub fork : Ptr → ℕ → ℕ → Machine → Option ℕ × Machine
  fork me page dir m =
      let (np, m1) = allocproc page m in if np == null then (none, m1) else fork_into me np dir m1

  -- The part of `sleep` in front of `sched`; a channel is the address of what is waited for.
  unfoldable pub go_sleep : Ptr → ℕ → Machine → Machine
  go_sleep me chan m = put me (record (procs m me) { chan = chan; state = sleeping }) m

  unfoldable pub yield : Ptr → Machine → Machine
  yield me m = put me (record (procs m me) { state = runnable }) m

  -- The loop of `wakeup1` over the first `k` entries.
  unfoldable pub wakeup_first : ℕ → ℕ → Procs F → Procs F
  wakeup_first zero chan ps = ps
  wakeup_first (suc k) chan ps =
      let qs = wakeup_first k chan ps in
      if is_sleeping (qs (suc k)).state && (qs (suc k)).chan == chan
      then update qs (suc k) (record (qs (suc k)) { state = runnable })
      else qs

  unfoldable pub wakeup1 : ℕ → Procs F → Procs F
  wakeup1 chan ps = wakeup_first nproc chan ps

  -- The mark of `kill`, `exit` and others: killed, and awake.
  abbrev pub mark_killed : Ptr → Procs F → Procs F
  mark_killed p ps = update ps p (record (ps p) {
    killed = true;
    state = if is_sleeping (ps p).state then runnable else (ps p).state;
  })

  unfoldable pub find_pid : ℕ → Ptr → ℕ → Procs F → Option Ptr
  find_pid zero p pid ps = none
  find_pid (suc k) p pid ps =
      let rest = find_pid k (p + 1) pid ps in if (ps p).pid == pid then some p else rest

  -- The result is false for -1.
  unfoldable pub kill : ℕ → Machine → Bool × Machine
  kill pid m = elim (find_pid nproc 1 pid (procs m)) [
    | none ↦ (false, record m { held = false })
    | some p ↦ (
      true,
      record (with_procs (mark_killed (get_highest_master F p (procs m)) (procs m)) m) {
        held = false;
      },
    )
  ]

  -- "Pass abandoned children to init", over the first `k` entries.
  unfoldable pub reparent : ℕ → Ptr → Ptr → Procs F → Procs F
  reparent zero me init ps = ps
  reparent (suc k) me init ps =
      let qs = reparent k me init ps in
      let rs = update qs (suc k) (record (qs (suc k)) { parent = init }) in
      if (qs (suc k)).parent == me
      then if is_zombie (qs (suc k)).state then wakeup1 init rs else rs
      else qs

  -- `exit` from the second `acquire(&ptable.lock)` on.
  unfoldable pub exit_finish : Ptr → Machine → Machine
  exit_finish me m =
      let top = get_highest_master F me (procs m) in
      let a =
        if (procs m me).parent == null then procs m else wakeup1 (procs m me).parent (procs m) in
      let b =
        if (a me).master == null
        then a
        else wakeup1 top
            (if (a me).killed then a else update a top (record (a top) { killed = true })) in
      let c = reparent nproc me m.initproc b in
      record (with_procs (update c me (record (c me) { state = zombie })) m) { held = true }

  -- How the scan of `wait` over the table ends.
  pub data Kids : Type 0 where
    no_kids : Kids
    live_kids : Kids
    zombie_kid : Ptr → Kids

  unfoldable pub scan_kids : ℕ → Ptr → Ptr → Bool → Procs F → Kids
  scan_kids zero p me havekids ps = if havekids then live_kids else no_kids
  scan_kids (suc k) p me havekids ps =
      let rest = scan_kids k (p + 1) me (havekids || (ps p).parent == me) ps in
      if (ps p).parent == me && is_zombie (ps p).state then zombie_kid p else rest

  -- The outcomes of one round of `wait`: a pid, -1, or `sleep`.
  pub data Waited : Type 0 where
    reaped : ℕ → Machine → Waited
    refused : Machine → Waited
    asleep : Machine → Waited

  unfoldable pub reap : Ptr → Machine → Machine
  reap p m =
      record (put p (record (procs m p) { pid = 0; parent = null; killed = false; state = unused })
        m) {
          kstack = update m.kstack p 0;
          emptystackcnt = update m.emptystackcnt p 0;
          held = false;
        }

  unfoldable pub wait : Ptr → Machine → Waited
  wait me m = elim (scan_kids nproc 1 me false (procs m)) [
    | zombie_kid p ↦ reaped (procs m p).pid (reap p m)
    | no_kids ↦ refused (record m { held = false })
    | live_kids ↦
        if (procs m me).killed
        then refused (record m { held = false })
        else asleep (go_sleep me me m)
  ]
