-- ===== src/Process/Fork.antt =====
-- `fork` on all its branches, and the process ids that it gives out.
use hyu_ele.Prelude.{
  ℕ, ◌+◌, ◌%◌, ◌≡◌, ◌≢◌, ◌≤◌, ◌<◌, inl, inr, refl, arith, true, false, ◌==◌, Bool-cases, Option,
  none, some,
}
use hyu_ele.Prelude.Maps.{update}
use hyu_ele.Mlfq.{Ptr, null, nproc}
use hyu_ele.Sched.State.{Double, unused, runnable}
use hyu_ele.Process.{Machine, procs, is_unused, first_unused, allocproc, fork, fork_into}
use hyu_ele.Process.Threads.Create.{first_unused_lem, allocated, Slot}

-- The child `z` that `fork` leaves.
pub record Child (F : Double) (me z : Ptr) (m m1 : Machine F) : Type 0 where
  pub runs : (procs F m1 z).state ≡ runnable
  pub pid : (procs F m1 z).pid ≡ m.nextpid
  pub parent : (procs F m1 z).parent ≡ me
  pub tid : (procs F m1 z).tid ≡ 0
  pub alone : ((procs F m1 z).prev_thread ≡ null) × ((procs F m1 z).next_thread ≡ null)
  pub killed : (procs F m1 z).killed ≡ (procs F m z).killed
  pub size : m1.sz z ≡ m1.sz me
  pub unlocked : m1.held ≡ false

module _ (F : Double) (me page dir : ℕ) (m : Machine F) where
  -- The branches of `fork`.
  pub data Forked (r : Option ℕ × Machine F) : Type 0 where
    full :
        ((x : ℕ) → 1 ≤ x → x ≤ nproc → is_unused (procs F m x).state ≡ false)
        → r ≡ (none, record m { held = false })
        → Forked r
    no_page :
        (z : ℕ)
        → Slot F m z
        → page ≡ 0
        → r.0 ≡ none
        → ((procs F r.1 z).state ≡ unused) × ((x : ℕ) → x ≢ z → procs F r.1 x ≡ procs F m x)
        → (r.1.held ≡ false) × (r.1.nextpid ≡ (m.nextpid + 1) % 4294967296)
        → Forked r
    no_memory :
        (z : ℕ)
        → Slot F m z
        → page ≢ 0
        → dir ≡ 0
        → r.0 ≡ none
        → ((procs F r.1 z).state ≡ unused) × ((x : ℕ) → x ≢ z → procs F r.1 x ≡ procs F m x)
        → (r.1.held ≡ true) × (r.1.nextpid ≡ (m.nextpid + 1) % 4294967296)
        → Forked r
    forked :
        (z : ℕ)
        → Slot F m z
        → page ≢ 0
        → dir ≢ 0
        → r.0 ≡ some m.nextpid
        → Child F me z m r.1
        → ((x : ℕ) → x ≢ z → procs F r.1 x ≡ procs F m x)
        → r.1.nextpid ≡ (m.nextpid + 1) % 4294967296
        → Forked r

  no_entry :
      first_unused F nproc 1 (procs F m) ≡ none
      → fork F me page dir m ≡ (none, record m { held = false })
  unfolding fork allocproc
  no_entry e = rw (e, fork, allocproc) refl

  -- The machine after `allocproc` got no page.
  abbrev unpaged : ℕ → Machine F
  unpaged z =
      let m1 = allocated F 0 z m in
      record m1 {
        sched = record m1.sched {
          procs = update (procs F m1) z (record (procs F m1 z) { state = unused });
        };
      }

  unpaged-fork :
      (z : ℕ)
      → first_unused F nproc 1 (procs F m) ≡ some z
      → page ≡ 0
      → fork F me page dir m ≡ (none, unpaged z)
  unfolding fork allocproc
  unpaged-fork z e p = rw (e, p, fork, allocproc) refl

  paged_fork :
      (z : ℕ)
      → first_unused F nproc 1 (procs F m) ≡ some z
      → (page == 0) ≡ false
      → (z == null) ≡ false
      → fork F me page dir m ≡ fork_into F me z dir (allocated F page z m)
  unfolding fork allocproc
  paged_fork z e p n = rw (e, p, n, fork, allocproc) refl

  from_no_page :
      (z : ℕ)
      → Slot F m z
      → page ≡ 0
      → (r : Option ℕ × Machine F) → r ≡ (none, unpaged z)
      → Forked r
  from_no_page z s p r e =
      rw e (no_page z s p refl (ground arith, λ x n. ground arith) (refl, refl))

  from_no_memory :
      (z : ℕ)
      → Slot F m z
      → page ≢ 0
      → (dir == 0) ≡ true
      → Forked (fork_into F me z dir (allocated F page z m))
  unfolding fork_into
  from_no_memory z s pn d =
      rw (d, fork_into)
        (no_memory z s pn (ground arith) refl (ground arith, λ x n. ground arith) (refl, refl))

  from_Forked :
      (z : ℕ)
      → Slot F m z
      → page ≢ 0
      → (dir == 0) ≡ false
      → Forked (fork_into F me z dir (allocated F page z m))
  unfolding fork_into
  from_Forked z s pn d =
      rw (d, fork_into)
        (forked z s pn (λ q. ground arith) (ground arith)
          (record {
            runs = ground arith;
            pid = ground arith;
            parent = ground arith;
            tid = ground arith;
            alone = (ground arith, ground arith);
            killed = ground arith;
            size = ground arith;
            unlocked = refl;
          })
          (λ x n. ground arith) refl)

  taken_entry :
      (z : ℕ)
      → first_unused F nproc 1 (procs F m) ≡ some z
      → Slot F m z
      → Forked (fork F me page dir m)
  taken_entry z e s = elim (Bool-cases (page == 0)) [
    | inl p ↦ let q : page ≡ 0 = ground arith in from_no_page z s q _ (unpaged-fork z e q)
    | inr p ↦
        let n : (z == null) ≡ false = let low = s.0 in ground arith in
        let pn : page ≢ 0 = λ q. ground arith in
        elim (Bool-cases (dir == 0)) [
          | inl d ↦ rw (paged_fork z e p n) (from_no_memory z s pn d)
          | inr d ↦ rw (paged_fork z e p n) (from_Forked z s pn d)
        ]
  ]

  -- `fork` on all its branches: -1 with the table as it was if no entry is free, and with the entry freed
  -- again if there is no page or no memory, where the last branch returns with `ptable.lock` held; else
  -- the child gets `nextpid`, the caller as its parent, no threads, and the `killed` flag that its table
  -- entry had before. All other entries are as they were.
  pub fork_lem : Forked (fork F me page dir m)
  fork_lem = elim (first_unused_lem F nproc 1 (procs F m)) [
    | inl (z, e, u, a, b) ↦ taken_entry z e (a, omega arith, u)
    | inr (e, all) ↦ rw (no_entry e) (full (λ x a b. all x a (omega arith)) refl)
  ]

-- The pids in use have been given out.
abbrev pub Below : (F : Double) → Machine F → Type 0
Below F m =
    (x : ℕ)
    → 1 ≤ x
    → x ≤ nproc
    → is_unused (procs F m x).state ≡ false
    → (procs F m x).pid < m.nextpid

module _ (F : Double) (me page dir : ℕ) (m : Machine F) (below : Below F m)
    (small : m.nextpid < 2147483647) where
  put_Below :
      (z : ℕ) (m1 : Machine F)
      → ((x : ℕ) → x ≢ z → procs F m1 x ≡ procs F m x)
      → m1.nextpid ≡ (m.nextpid + 1) % 4294967296
      → (is_unused (procs F m1 z).state ≡ false → (procs F m1 z).pid < m1.nextpid)
      → Below F m1
  put_Below z m1 same next own x a b u = elim (Bool-cases (x == z)) [
    | inl e ↦ let q : x ≡ z = ground arith in rw q (own (rw q at u))
    | inr e ↦
        let n : x ≢ z = λ q. ground arith in
        let q = below x a b (rw (same x n) at u) in rw (same x n) (omega arith)
  ]

  from_outcome :
      (r : Option ℕ × Machine F)
      → Forked F me page dir m r
      → Below F r.1
        × ((p x : ℕ)
            → r.0 ≡ some p
            → 1 ≤ x
            → x ≤ nproc
            → is_unused (procs F m x).state ≡ false
            → (procs F m x).pid ≢ p)
  from_outcome r (full all e) = (rw e below, λ p x q. absurd (ground arith))
  from_outcome r (no_page z s p n (u, same) (h, next)) =
      (put_Below z r.1 same next (λ v. absurd (cc (v, u))), λ p x q. absurd (ground arith))
  from_outcome r (no_memory z s pn p n (u, same) (h, next)) =
      (put_Below z r.1 same next (λ v. absurd (cc (v, u))), λ p x q. absurd (ground arith))
  from_outcome r (forked z s pn dn e c same next) = (
    put_Below z r.1 same next (λ v. let q = c.pid in omega arith),
    λ p x q a b u. let low = below x a b u in λ w. absurd (ground arith),
  )

  -- If all pids in use are below `nextpid`, and the int `nextpid` is below its maximum, they are so after `fork` whichever way it ends, and a pid
  -- that it returns is not that of any process or thread that was in use.
  pub fork-Below :
      Below F (fork F me page dir m).1
      × ((p x : ℕ)
          → (fork F me page dir m).0 ≡ some p
          → 1 ≤ x
          → x ≤ nproc
          → is_unused (procs F m x).state ≡ false
          → (procs F m x).pid ≢ p)
  fork-Below = from_outcome (fork F me page dir m) (fork_lem F me page dir m)
