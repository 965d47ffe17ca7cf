-- ===== src/Process/Threads.antt =====
-- Threads of xv6-public/proc.c: `thread_create`, `thread_exit`, `thread_join`, `dealloc_thread`,
-- `dealloc_other_threads`, `sleep_other_threads`, and the loop of `exit` over the threads.
pub mod Create
pub mod Join
pub mod Links
use hyu_ele.Prelude.{
  ℕ, zero, suc, ◌+◌, ◌-◌, ◌%◌, Bool, true, false, not, ◌&&◌, ◌||◌, ◌==◌, ltb, leb, if◌then◌else◌,
  Option, none, some,
}
use hyu_ele.Prelude.Maps.{update}
use hyu_ele.Mlfq.{Ptr, null, nproc, enqueue}
use hyu_ele.Sched.State.{
  Double, ProcState, unused, embryo, sleeping, runnable, running, zombie, Proc, Procs, Sched,
  is_runnable, is_sleeping, get_highest_master,
}
use hyu_ele.Sched.Vals.{get_min_pathlevel}
use hyu_ele.Process.{
  Machine, procs, put, with_procs, is_zombie, allocproc, wakeup1, mark_killed, go_sleep,
}

module _ (F : Double) where
  -- The thread list: `np` goes in behind `me`.
  unfoldable pub link_thread : Ptr → Ptr → Procs F → Procs F
  link_thread me np ps =
      let next = (ps me).next_thread in
      let a = if next == null then ps else update ps next (record (ps next) { prev_thread = np }) in
      let b = update a np (record (a np) { prev_thread = me; next_thread = (a me).next_thread }) in
      update b me (record (b me) { next_thread = np })

  -- "delete from the thread linked list"
  unfoldable pub unlink_thread : Ptr → Procs F → Procs F
  unlink_thread w ps =
      let prev = (ps w).prev_thread in
      let a =
        if prev == null
        then ps
        else update ps prev (record (ps prev) { next_thread = (ps w).next_thread }) in
      let next = (a w).next_thread in
      if next == null
      then a
      else update a next (record (a next) { prev_thread = (a w).prev_thread })

  -- The base of the new stack, and the machine without it among the empty ones.
  unfoldable pub take_stack : Ptr → Ptr → Machine F → ℕ × Machine F
  take_stack me top m =
      let m1 = record m { sz = update m.sz me (m.sz top) } in
      let n = m1.emptystackcnt top in
      if ltb 0 n
      then (
        m1.emptystacks top (n - 1),
        record m1 { emptystackcnt = update m1.emptystackcnt top (n - 1) },
      )
      else (m1.sz me, m1)

  -- `thread_create` from `np->pgdir = curproc->pgdir` on; `stop` is the end of the new stack.
  unfoldable pub start_thread : Ptr → Ptr → ℕ → Machine F → Machine F
  start_thread me np stop m =
      let ps1 =
        update (procs F m) np
          (record (procs F m np) { master = me; pid = (procs F m me).pid; tid = m.nexttid }) in
      let ps2 = link_thread me np ps1 in
      let ps3 =
        update ps2 np (record (ps2 np) { state = runnable; schedmode = (ps2 me).schedmode }) in
      let s1 = record m.sched {
        procs = ps3;
        queue = if (ps3 np).schedmode == 2 then enqueue np m.sched.queue else m.sched.queue;
      } in
      record m {
        sched = record s1 {
          procs = update ps3 np (record (ps3 np) { pathlevel = get_min_pathlevel F s1 });
        };
        pgdir = update m.pgdir np (m.pgdir me);
        sz = update m.sz np stop;
        originalbase = update m.originalbase np (stop - 8192);
        retval = update m.retval np 0;
        nexttid = (m.nexttid + 1) % 4294967296;
        held = false;
      }

  -- The thread id, which the source stores in `*thread` while it returns 0, or none for -1. `page` is what `kalloc` returns; `room` says whether `allocuvm` gets
  -- the two pages.
  unfoldable pub thread_create : Ptr → ℕ → Bool → Machine F → Option ℕ × Machine F
  thread_create me page room m =
      let (np, m1) = allocproc F page m in
      if np == null
      then (none, m1)
      else (let top = get_highest_master F me (procs F m1) in
          let (base, m2) =
            take_stack me top
              (record m1 { nextpid = (m1.nextpid + 4294967295) % 4294967296; mem_held = true }) in
          if not room
          then (none, m2)
          else (let stop = base + 8192 in
              let m3 = record m2 {
                sz = if ltb (m2.sz me) stop then update (update m2.sz me stop) top stop else m2.sz;
                mem_held = false;
              } in
              (some m3.nexttid, start_thread me np stop m3)))

  -- `thread_exit` from `curproc->retval = retval` on.
  unfoldable pub thread_exit : Ptr → ℕ → Machine F → Machine F
  thread_exit me value m =
      let a = wakeup1 F (procs F m me).master (procs F m) in
      let b = wakeup1 F (a me).parent a in
      record (with_procs F (update b me (record (b me) { state = zombie })) m) {
        retval = update m.retval me value;
        held = true;
      }

  -- False for -1.
  unfoldable pub dealloc_thread : Ptr → Machine F → Bool × Machine F
  dealloc_thread w m =
      if (procs F m w).master == null
      then (false, m)
      else (let top = get_highest_master F w (procs F m) in
          let base = m.originalbase w in
          let n = m.emptystackcnt top in
          let m1 =
            record (put F w
              (record (procs F m w) {
                pid = 0;
                parent = null;
                master = null;
                killed = false;
                state = unused;
                turn = null;
                tid = 0;
                fixedshare = 0;
              })
              m) { kstack = update m.kstack w 0; emptystackcnt = update m.emptystackcnt w 0 } in
          let m2 =
            if ltb (base + 8192) (m1.sz top)
            then record m1 {
              emptystacks =
                  update m1.emptystacks top
                    (update (m1.emptystacks top) (m1.emptystackcnt top) base);
              emptystackcnt = update m1.emptystackcnt top (m1.emptystackcnt top + 1);
            }
            else record m1 { sz = update m1.sz top (m1.sz top - 8192) } in
          let q = m2.sched.queue in
          (
            true,
            record m2 {
              originalbase = update m2.originalbase w 0;
              sched = record m2.sched {
                procs = unlink_thread w (procs F m2);
                queue = record q { mnode = update q.mnode w null };
              };
              mem_held = false;
            },
          ))

  -- One round of `thread_join`: the return value, -1, or `sleep`; `found` is kept from round to round.
  pub data Joined : Type 0 where
    joined : ℕ → Machine F → Joined
    refused : Machine F → Joined
    asleep : Bool → Machine F → Joined

  unfoldable pub join_walk : ℕ → Ptr → ℕ → Bool → Ptr → Machine F → Joined
  join_walk zero p tid found me m = asleep found (go_sleep F me me m)
  join_walk (suc k) p tid found me m =
      let f = found || (procs F m p).tid == tid in
      let rest = join_walk k (procs F m p).next_thread tid f me m in
      let m1 = (dealloc_thread p m).1 in
      if p == null
      then (if not found || (procs F m me).killed
          then refused (record m { held = false })
          else asleep found (go_sleep F me me m))
      else if (procs F m p).tid == tid && is_zombie (procs F m p).state
      then joined (m1.retval p) (record m1 { retval = update m1.retval p 0; held = false })
      else rest

  -- A list of threads has fewer than `NPROC` members.
  unfoldable pub thread_join : Ptr → ℕ → Bool → Machine F → Joined
  thread_join me tid found m = join_walk nproc (procs F m me).next_thread tid found me m

  -- The inner loop of `exit`: whether a thread is left, and the machine.
  unfoldable pub end_threads : ℕ → Ptr → Bool → Machine F → Bool × Machine F
  end_threads zero p found m = (found, m)
  end_threads (suc k) p found m =
      let gone = (dealloc_thread p m).1 in
      let marked = with_procs F (mark_killed F p (procs F m)) m in
      let after_gone = end_threads k (procs F gone p).next_thread found gone in
      let after_marked = end_threads k (procs F marked p).next_thread true marked in
      if p == null
      then (found, m)
      else if is_zombie (procs F m p).state
      then after_gone
      else after_marked

  -- One round of the outer loop: true when `exit` goes on, false when it sleeps.
  unfoldable pub exit_threads : Ptr → Machine F → Bool × Machine F
  exit_threads me m =
      let (found, m1) = end_threads nproc (procs F m me).next_thread false m in
      if not ((procs F m me).master == null)
      then (true, record m { held = false })
      else if found
      then (false, go_sleep F me me m1)
      else (true, record m1 { held = false })

  -- The loop of the second branch of `dealloc_other_threads`, which makes each thread a zombie first.
  unfoldable pub drop_threads : ℕ → Ptr → Machine F → Machine F
  drop_threads zero p m = m
  drop_threads (suc k) p m =
      let m1 = (dealloc_thread p (put F p (record (procs F m p) { state = zombie }) m)).1 in
      let rest = drop_threads k (procs F m1 p).next_thread m1 in if p == null then m else rest

  -- True: `wait()` follows.
  unfoldable pub dealloc_other_threads : Ptr → Machine F → Bool × Machine F
  dealloc_other_threads me m =
      if (procs F m me).master == null
      then (false, record (drop_threads nproc (procs F m me).next_thread m) { held = false })
      else (let p = get_highest_master F me (procs F m) in
          let a = update (procs F m) me (record (procs F m me) { parent = (procs F m p).parent }) in
          let b = update a p (record (a p) { parent = me }) in
          let next = (b me).next_thread in
          let c =
            if next == null
            then b
            else update b next (record (b next) { prev_thread = (b me).prev_thread }) in
          let prev = (c me).prev_thread in
          let d =
            if prev == null
            then c
            else update c prev (record (c prev) { next_thread = (c me).next_thread }) in
          let e =
            update d me (record (d me) { prev_thread = null; next_thread = null; master = null }) in
          (true, record (with_procs F (mark_killed F p e) m) { held = false }))

  unfoldable pub sleep_walk : ℕ → Ptr → Ptr → Procs F → Procs F
  sleep_walk zero p self ps = ps
  sleep_walk (suc k) p self ps =
      let qs =
        if not (p == self) && is_runnable (ps p).state
        then update ps p (record (ps p) { state = sleeping })
        else ps in
      let rest = sleep_walk k (qs p).next_thread self qs in if p == null then ps else rest

  unfoldable pub sleep_other_threads : Ptr → Machine F → Machine F
  sleep_other_threads self m =
      record (with_procs F
        (sleep_walk nproc (get_highest_master F self (procs F m)) self (procs F m)) m) {
          held = false;
        }
