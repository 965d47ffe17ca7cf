-- ===== src/Process/Threads/Join.antt =====
-- `thread_join` finds the value that the thread passed to `thread_exit`.
use hyu_ele.Prelude.{
  ℕ, zero, suc, ◌≡◌, ◌≢◌, ◌<◌, refl, sym, ap, subst, ◌∙◌, arith, Bool, true, false, ◌&&◌, ◌||◌,
  ◌==◌, List, [], ◌∷◌, ◌++◌, length,
}
use hyu_ele.Prelude.Maps.{has, distinct-delete, update}
use hyu_ele.Mlfq.{Ptr, null, nproc}
use hyu_ele.Mlfq.Chain.{Chain, first}
use hyu_ele.Mlfq.Links.{next-eq}
use hyu_ele.Sched.State.{Double, unused, zombie, Proc, Procs}
use hyu_ele.Process.{Machine, procs, is_zombie, wakeup1}
use hyu_ele.Process.Wake.{wakeup1_lem}
use hyu_ele.Process.Threads.{
  thread_exit, dealloc_thread, unlink_thread, Joined, joined, join_walk, thread_join,
}
use hyu_ele.Process.Threads.Links.{view, ThreadList, ThreadList-same, unlink_thread-list}

module _ (F : Double) where
  -- The thread that `join_walk` takes.
  unlink_thread-data :
      (w : Ptr) (ps : Procs F) (x : ℕ)
      → ((unlink_thread F w ps x).state ≡ (ps x).state)
        × ((unlink_thread F w ps x).master ≡ (ps x).master)
  unfolding unlink_thread
  unlink_thread-data w ps x = (ground arith, ground arith)

  -- `dealloc_thread` on a thread of a list.
  pub dealloc_thread_lem :
      (m : Machine F) (xs : List Ptr) (w : Ptr) (ys : List Ptr)
      → (procs F m w).master ≢ null
      → ThreadList F (procs F m) (xs ++ (w ∷ ys))
      → has w (xs ++ ys) ≡ false
      → let m1 = (dealloc_thread F w m).1 in
        ThreadList F (procs F m1) (xs ++ ys)
        × ((procs F m1 w).state ≡ unused)
        × ((procs F m1 w).master ≡ null)
        × ((x : Ptr) → m1.retval x ≡ m.retval x)
  unfolding dealloc_thread
  dealloc_thread_lem m xs w ys nm is out =
      let ps1 = update (procs F m) w (record (procs F m w) {
        pid = 0;
        parent = null;
        master = null;
        killed = false;
        state = unused;
        turn = null;
        tid = 0;
        fixedshare = 0;
      }) in
      let (a, b) = unlink_thread-data w ps1 w in
      let list : ThreadList F (unlink_thread F w ps1) (xs ++ ys) =
        unlink_thread-list F ps1 xs w ys
          (ThreadList-same F (procs F m) ps1 (xs ++ (w ∷ ys)) (λ x h. ground arith) is) out in
      (
        ThreadList-same F (unlink_thread F w ps1) (procs F (dealloc_thread F w m).1) (xs ++ ys)
            (λ x h. ground arith) list,
        ground arith,
        ground arith,
        λ x. ground arith,
      )

  -- The machine in which `thread_join` returns.
  abbrev pub taken : Ptr → Machine F → Joined F
  taken w m =
      let m1 = (dealloc_thread F w m).1 in
      joined (m1.retval w) (record m1 { retval = update m1.retval w 0; held = false })

  join_walk_lem :
      (k q tid me : ℕ) (found : Bool) (m : Machine F) (xs : List Ptr) (w : Ptr) (ys : List Ptr)
      → Chain (view F (procs F m)) q (xs ++ (w ∷ ys)) null
      → has null (xs ++ (w ∷ ys)) ≡ false
      → ((x : Ptr) → has x xs ≡ true → (procs F m x).tid ≢ tid)
      → ((procs F m w).tid ≡ tid) × (is_zombie (procs F m w).state ≡ true)
      → length xs < k
      → join_walk F k (first (xs ++ (w ∷ ys)) null) tid found me m ≡ taken w m
  unfolding join_walk
  join_walk_lem zero q tid me found m xs w ys c n other here lt = absurd (omega arith)
  join_walk_lem (suc k) q tid me found m [] w ys c n other here lt =
      let z : (w == null) ≡ false = ground arith in
      let t : (((procs F m w).tid == tid) && is_zombie (procs F m w).state) ≡ true = ground arith in
      rw (z, t) refl
  join_walk_lem (suc k) q tid me found m (x ∷ xs) w ys c n other here lt =
      let z : (x == null) ≡ false = ground arith in
      let d = other x (ground arith) in
      let t : (((procs F m x).tid == tid) && is_zombie (procs F m x).state) ≡ false =
        ground arith in
      let nx : x ≢ null = λ e. ground arith in
      let f = found || (procs F m x).tid == tid in
      rw (z, t)
        (subst (λ y. join_walk F k y tid f me m ≡ taken w m)
          (sym (next-eq (view F (procs F m)) x (xs ++ (w ∷ ys)) nx c.1))
          (join_walk_lem k x tid me f m xs w ys c.1 (ground arith) (λ y h. other y (ground arith))
            here (omega arith)))

  -- `thread_exit` leaves this of a process.
  record Kept (p q : Proc F) : Type 0 where
    prev : q.prev_thread ≡ p.prev_thread
    next : q.next_thread ≡ p.next_thread
    tid : q.tid ≡ p.tid
    master : q.master ≡ p.master

  Kept-wakeup1 : (chan : ℕ) (ps : Procs F) (x : ℕ) → Kept (ps x) (wakeup1 F chan ps x)
  Kept-wakeup1 chan ps x = record {
    prev = ground (arith, wakeup1_lem F chan ps x);
    next = ground (arith, wakeup1_lem F chan ps x);
    tid = ground (arith, wakeup1_lem F chan ps x);
    master = ground (arith, wakeup1_lem F chan ps x);
  }

  Kept-trans : {p q r : Proc F} → Kept p q → Kept q r → Kept p r
  Kept-trans a b = record {
    prev = b.prev ∙ a.prev;
    next = b.next ∙ a.next;
    tid = b.tid ∙ a.tid;
    master = b.master ∙ a.master;
  }

  Kept-thread_exit :
      (w value : ℕ) (m : Machine F) (x : ℕ)
      → Kept (procs F m x) (procs F (thread_exit F w value m) x)
  unfolding thread_exit
  Kept-thread_exit w value m x =
      let a = wakeup1 F (procs F m w).master (procs F m) in
      let k =
        Kept-trans (Kept-wakeup1 (procs F m w).master (procs F m) x)
          (Kept-wakeup1 (a w).parent a x) in
      let b = wakeup1 F (a w).parent a in
      let z : Kept (b x) (update b w (record (b w) { state = zombie }) x) = record {
        prev = ground arith;
        next = ground arith;
        tid = ground arith;
        master = ground arith;
      } in
      Kept-trans k z

  thread_exit-value :
      (w value : ℕ) (m : Machine F)
      → ((thread_exit F w value m).retval w ≡ value)
        × ((procs F (thread_exit F w value m) w).state ≡ zombie)
  unfolding thread_exit
  thread_exit-value w value m = (ground arith, ground arith)

  -- When a thread of a process has called `thread_exit` with a value, `thread_join` of its thread id by
  -- the first thread of the list, if no thread before it has the same id, returns that value, takes the
  -- thread out of the list and frees its table entry.
  pub thread_exit-join :
      (me value tid : ℕ) (found : Bool) (m : Machine F) (xs : List Ptr) (w : Ptr) (ys : List Ptr)
      → ThreadList F (procs F m) (me ∷ (xs ++ (w ∷ ys)))
      → (procs F m w).master ≢ null
      → (procs F m w).tid ≡ tid
      → ((x : Ptr) → has x xs ≡ true → (procs F m x).tid ≢ tid)
      → length xs < nproc
      → (m2 : Machine F) × (thread_join F me tid found (thread_exit F w value m) ≡ joined value m2)
        × ThreadList F (procs F m2) (me ∷ (xs ++ ys))
        × ((procs F m2 w).state ≡ unused)
  unfolding thread_join
  thread_exit-join me value tid found m xs w ys is master here other lt =
      let m1 = thread_exit F w value m in
      let kept = λ (x : ℕ). Kept-thread_exit w value m x in
      let (v, z) = thread_exit-value w value m in
      let list : ThreadList F (procs F m1) (me ∷ (xs ++ (w ∷ ys))) =
        ThreadList-same F (procs F m) (procs F m1) (me ∷ (xs ++ (w ∷ ys)))
          (λ x h. let k = kept x in (k.prev, k.next)) is in
      let nn : me ≢ null = λ e. let d = list.no_repeat in ground arith in
      let alone : has w (me ∷ (xs ++ ys)) ≡ false =
        (distinct-delete (me ∷ xs) w ys (let d = list.no_repeat in ground arith)).1 in
      let (l, u, ma, r) =
        dealloc_thread_lem m1 (me ∷ xs) w ys (λ e. master (sym (kept w).master ∙ e)) list alone in
      let found_it =
        join_walk_lem nproc me tid me found m1 xs w ys list.chain.1
          (let d = list.no_repeat in ground arith) (λ x h e. other x h (sym (kept x).tid ∙ e))
          ((kept w).tid ∙ here, ground arith) lt in
      let m2 = (dealloc_thread F w m1).1 in
      let m3 = record m2 { retval = update m2.retval w 0; held = false } in
      let q = next-eq (view F (procs F m1)) me (xs ++ (w ∷ ys)) nn list.chain.1 in
      (
        m3,
        subst (λ y. join_walk F nproc y tid found me m1 ≡ joined value m3) (sym q)
            (found_it ∙ ap (λ b. joined b m3) (r w ∙ v)),
        l,
        u,
      )
