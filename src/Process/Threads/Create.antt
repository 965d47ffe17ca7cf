-- ===== src/Process/Threads/Create.antt =====
-- `thread_create` puts a new thread into the list of its process.
use hyu_ele.Prelude.{
  ℕ, zero, suc, ◌+◌, ◌%◌, ◌≡◌, ◌≢◌, ◌≤◌, ◌<◌, ◌⊎◌, inl, inr, refl, ap, ◌∙◌, arith, true, false,
  ◌==◌, ltb, if◌then◌else◌, List, ◌∷◌, ◌++◌, Bool-cases, Option, none, some,
}
use hyu_ele.Prelude.Maps.{has, has-append, update}
use hyu_ele.Mlfq.{Ptr, null, nproc}
use hyu_ele.Sched.State.{Double, runnable, embryo, Procs, get_highest_master}
use hyu_ele.Process.{Machine, procs, is_unused, first_unused, allocproc}
use hyu_ele.Process.Threads.{link_thread, take_stack, start_thread, thread_create}
use hyu_ele.Process.Threads.Links.{ThreadList, ThreadList-same, link_thread-list}

module _ (F : Double) where
  pub first_unused_lem :
      (k p : ℕ) (ps : Procs F)
      → ((z : ℕ) × (first_unused F k p ps ≡ some z)
          × (is_unused (ps z).state ≡ true)
          × (p ≤ z)
          × (z < p + k))
        ⊎ ((first_unused F k p ps ≡ none)
            × ((x : ℕ) → p ≤ x → x < p + k → is_unused (ps x).state ≡ false))
  unfolding first_unused
  first_unused_lem zero p ps = inr (refl, λ x a b. absurd (omega arith))
  first_unused_lem (suc k) p ps = elim (Bool-cases (is_unused (ps p).state)) [
    | inl u ↦ inl (p, rw u refl, u, omega arith, omega arith)
    | inr u ↦ elim (first_unused_lem k (p + 1) ps) [
      | inl (z, e, v, a, b) ↦ inl (z, rw u e, v, omega arith, omega arith)
      | inr (e, all) ↦ inr (
        rw u e,
        λ x a b. elim (Bool-cases (x == p)) [
          | inl q ↦ let same : x ≡ p = ground arith in rw same u
          | inr q ↦ all x (ground arith) (omega arith)
        ],
      )
    ]
  ]

  -- The machine after `allocproc` has found the entry `z` and got a page.
  abbrev pub allocated : ℕ → Ptr → Machine F → Machine F
  allocated page z m = record m {
    sched = record m.sched {
      procs = update (procs F m) z (record (procs F m z) { state = embryo; pid = m.nextpid });
    };
    nextpid = (m.nextpid + 1) % 4294967296;
    held = false;
    kstack = update m.kstack z page;
  }

  -- A table entry that `allocproc` may take.
  abbrev pub Slot : Machine F → ℕ → Type 0
  Slot m z = (1 ≤ z) × (z ≤ nproc) × (is_unused (procs F m z).state ≡ true)

  -- With a free entry and a page `allocproc` takes a free entry.
  pub allocproc_runs :
      (page x : ℕ) (m : Machine F)
      → page ≢ 0
      → Slot m x
      → (z : ℕ) × (allocproc F page m ≡ (z, allocated page z m)) × Slot m z
  unfolding allocproc
  allocproc_runs page x m np s = elim (first_unused_lem nproc 1 (procs F m)) [
    | inl (z, e, u, a, b) ↦
        let n : (page == 0) ≡ false = ground arith in
        (z, rw (e, n, allocproc) refl, (a, omega arith, u))
    | inr (e, all) ↦ absurd (cc (all x s.0 (omega arith), s.2))
  ]

  link_thread-data :
      (me np : Ptr) (ps : Procs F) (x : ℕ)
      → let q = link_thread F me np ps x in
        (q.master ≡ (ps x).master) × (q.pid ≡ (ps x).pid) × (q.tid ≡ (ps x).tid)
  unfolding link_thread
  link_thread-data me np ps x = (ground arith, ground arith, ground arith)

  take_stack-sched :
      (me top : Ptr) (m : Machine F)
      → ((take_stack F me top m).1.sched ≡ m.sched)
        × ((take_stack F me top m).1.nexttid ≡ m.nexttid)
  unfolding take_stack
  take_stack-sched me top m = (ground arith, ground arith)

  -- A thread that was just made.
  pub record Started (ps qs : Procs F) (me np t : ℕ) : Type 0 where
    pub runs : (qs np).state ≡ runnable
    pub master : (qs np).master ≡ me
    pub pid : (qs np).pid ≡ (ps me).pid
    pub tid : (qs np).tid ≡ t

  start_thread_lem :
      (me np stop : ℕ) (m : Machine F) (xs ys : List Ptr)
      → ThreadList F (procs F m) (xs ++ (me ∷ ys))
      → np ≢ null
      → has np (xs ++ (me ∷ ys)) ≡ false
      → me ≢ np
      → ThreadList F (procs F (start_thread F me np stop m)) (xs ++ (me ∷ np ∷ ys))
        × Started (procs F m) (procs F (start_thread F me np stop m)) me np m.nexttid
  unfolding start_thread
  start_thread_lem me np stop m xs ys is nn out ne =
      let ps1 =
        update (procs F m) np
          (record (procs F m np) { master = me; pid = (procs F m me).pid; tid = m.nexttid }) in
      let (a, b, c) = link_thread-data me np ps1 np in
      (
        ThreadList-same F (link_thread F me np ps1) (procs F (start_thread F me np stop m))
            (xs ++ (me ∷ np ∷ ys)) (λ x h. ground arith)
            (link_thread-list F ps1 xs me np ys
              (ThreadList-same F (procs F m) ps1 (xs ++ (me ∷ ys)) (λ x h. ground arith) is) nn
              out),
        record {
          runs = ground arith;
          master = ground arith;
          pid = ground arith;
          tid = ground arith;
        },
      )

  -- What `thread_create` starts the thread from.
  record Ready (me np : Ptr) (m : Machine F) (r : Option ℕ × Machine F) : Type 0 where
    stop : ℕ
    from : Machine F
    result : r ≡ (some from.nexttid, start_thread F me np stop from)
    table : procs F from ≡ procs F m
    tids : from.nexttid ≡ m.nexttid
    pids : from.nextpid ≡ (m.nextpid + 4294967295) % 4294967296

  thread_create_starts :
      (me page np : ℕ) (m m1 : Machine F)
      → allocproc F page m ≡ (np, m1)
      → np ≢ null
      → Ready me np m1 (thread_create F me page true m)
  unfolding thread_create take_stack
  thread_create_starts me page np m m1 e n =
      let top = get_highest_master F me (procs F m1) in
      let taken =
        take_stack F me top
          (record m1 { nextpid = (m1.nextpid + 4294967295) % 4294967296; mem_held = true }) in
      let m2 = taken.1 in
      let s = taken.0 + 8192 in
      let m3 = record m2 {
        sz = if ltb (m2.sz me) s then update (update m2.sz me s) top s else m2.sz;
        mem_held = false;
      } in
      let nn : (np == null) ≡ false = ground arith in
      record {
        stop = s;
        from = m3;
        result = rw (e, nn, thread_create) refl;
        table = ground arith;
        tids = ground arith;
        pids = ground arith;
      }

  -- A machine after `thread_create` has made the thread `np`.
  pub record Created (me np : Ptr) (xs ys : List Ptr) (m m1 : Machine F) : Type 0 where
    pub was_free : Slot m np
    pub list : ThreadList F (procs F m1) (xs ++ (me ∷ np ∷ ys))
    pub started : Started (procs F m) (procs F m1) me np m.nexttid
    pub next_tid : m1.nexttid ≡ (m.nexttid + 1) % 4294967296
    pub next_pid : m1.nextpid ≡ m.nextpid % 4294967296

  wraps_back : (n : ℕ) → ((n + 1) % 4294967296 + 4294967295) % 4294967296 ≡ n % 4294967296
  wraps_back n = omega arith

  start_thread-next :
      (me np stop : ℕ) (m : Machine F)
      → ((start_thread F me np stop m).nexttid ≡ (m.nexttid + 1) % 4294967296)
        × ((start_thread F me np stop m).nextpid ≡ m.nextpid)
  unfolding start_thread
  start_thread-next me np stop m = (refl, refl)

  -- `thread_create` with memory and a free table entry, called by a member of a thread list whose members
  -- are in use, returns `nexttid`. It puts a new thread directly behind the caller, runnable, with the
  -- caller as its master, the caller's pid and the returned thread id, and uses up that id but no pid; the two counters have 32 bits.
  pub thread_create_lem :
      (me page x : ℕ) (m : Machine F) (xs ys : List Ptr)
      → page ≢ 0
      → Slot m x
      → ThreadList F (procs F m) (xs ++ (me ∷ ys))
      → ((y : Ptr) → has y (xs ++ (me ∷ ys)) ≡ true → is_unused (procs F m y).state ≡ false)
      → ((thread_create F me page true m).0 ≡ some m.nexttid)
        × (np : Ptr) × Created me np xs ys m (thread_create F me page true m).1
  thread_create_lem me page x m xs ys pn slot is used =
      let (z, e, s) = allocproc_runs page x m pn slot in
      let nn : z ≢ null = λ q. absurd (let low = s.0 in ground arith) in
      let out : has z (xs ++ (me ∷ ys)) ≡ false = elim (Bool-cases (has z (xs ++ (me ∷ ys)))) [
        | inl h ↦ let u = used z h in let v = s.2 in absurd (ground arith)
        | inr h ↦ h
      ] in
      let ne : me ≢ z = λ q. ground (arith, has-append z xs (me ∷ ys)) in
      let r = thread_create_starts me page z m (allocated page z m) e nn in
      let list : ThreadList F (procs F r.from) (xs ++ (me ∷ ys)) = rw r.table (
        ThreadList-same F (procs F m) (procs F (allocated page z m)) (xs ++ (me ∷ ys))
          (λ y h. ground arith) is) in
      let (l, st) = start_thread_lem me z r.stop r.from xs ys list nn out ne in
      let (nt, npid) = start_thread-next me z r.stop r.from in
      (
        ap (λ w. w.0) r.result ∙ ap some r.tids,
        z,
        rw r.result (record {
          was_free = s;
          list = l;
          started = record {
            runs = st.runs;
            master = st.master;
            pid = st.pid ∙ ap (λ w. (w me).pid) r.table ∙ ground arith;
            tid = st.tid ∙ r.tids;
          };
          next_tid = nt ∙ ap (λ w. (w + 1) % 4294967296) r.tids;
          next_pid = npid ∙ r.pids ∙ wraps_back m.nextpid;
        }),
      )
