-- ===== src/Sched/Share/Grant.antt =====
-- What `cpu_share` and its loop over the threads of a process do to the table.
use hyu_ele.Prelude.{
  ℕ, zero, suc, ◌+◌, ◌%◌, ◌<◌, ◌≡◌, ◌≢◌, refl, ◌≤◌, arith, ◌∙◌, ap, sym, Bool, true, false, ◌||◌,
  ◌&&◌, List, [], ◌∷◌, Bool-cases, inl, inr, ◌==◌, if◌then◌else◌, length,
}
use hyu_ele.Prelude.Maps.{has, update}
use hyu_ele.Mlfq.{Ptr, null, nproc, delete}
use hyu_ele.Mlfq.Chain.{first}
use hyu_ele.Sched.State.{
  Double, ProcState, Procs, Sched, is_runnable, is_sleeping, get_highest_master, master_of,
  set_path,
}
use hyu_ele.Sched.Vals.{get_min_path}
use hyu_ele.Sched.Run.{share_total, fix_threads, not_positive, over_limit, cpu_share}
use hyu_ele.Sched.Turns.{NextTo}
use hyu_ele.Sched.Share.{
  is_running, table_sum, table_sum-add, counted, granted, share_total-sum, Same, Same-path,
  Same-trans, Same-min_path,
}

module _ (F : Double) where
  NextTo-same :
      (ps qs : Procs F) (xs : List Ptr) (e : Ptr)
      → ((x : Ptr) → (qs x).next_thread ≡ (ps x).next_thread)
      → NextTo F ps xs e
      → NextTo F qs xs e
  NextTo-same ps qs [] e h c = tt
  NextTo-same ps qs (x ∷ xs) e h (n, s, c) = (n, h x ∙ s, NextTo-same ps qs xs e h c)

  -- One process of the table after the loop over the threads `ts`.
  record Fixed (ps qs : Procs F) (ts : List Ptr) (x : ℕ) : Type 0 where
    state : (qs x).state ≡ (ps x).state
    schedmode : (qs x).schedmode ≡ (if has x ts then 1 else (ps x).schedmode)
    fixedshare : (qs x).fixedshare ≡ (ps x).fixedshare
    master : (qs x).master ≡ (ps x).master

  Fixed-nil : (ps : Procs F) (x : ℕ) → Fixed ps ps [] x
  Fixed-nil ps x = record { state = refl; schedmode = refl; fixedshare = refl; master = refl }

  abbrev set_fixed : Ptr → Procs F → Procs F
  set_fixed p ps = update ps p (record (ps p) { schedmode = 1 })

  Fixed-cons :
      (ps qs : Procs F) (t : Ptr) (ts : List Ptr) (x : ℕ)
      → Fixed (set_fixed t ps) qs ts x
      → Fixed ps qs (t ∷ ts) x
  Fixed-cons ps qs t ts x h = record {
    state = ground (arith, h.state);
    schedmode = ground (arith, h.schedmode);
    fixedshare = ground (arith, h.fixedshare);
    master = ground (arith, h.master);
  }

  fix_threads-Fixed :
      (k : ℕ) (s : Sched F) (ts : List Ptr) (x : ℕ)
      → NextTo F s.procs ts null
      → length ts ≤ k
      → Fixed s.procs (fix_threads F k (first ts null) s).procs ts x
  unfolding fix_threads
  fix_threads-Fixed zero s [] x c le = Fixed-nil s.procs x
  fix_threads-Fixed (suc k) s [] x c le = Fixed-nil s.procs x
  fix_threads-Fixed zero s (t ∷ ts) x c le = absurd (omega arith)
  fix_threads-Fixed (suc k) s (t ∷ ts) x (n, e, c) le =
      let q = s.queue in
      let s1 = record s {
        queue =
            if (s.procs t).schedmode == 2
            then record q { nodes = delete (q.mnode t) q.nodes }
            else q;
        procs = set_fixed t s.procs;
      } in
      let same : (y : Ptr) → (set_fixed t s.procs y).next_thread ≡ (s.procs y).next_thread =
        λ y. ground arith in
      let rest =
        fix_threads-Fixed k s1 ts x (NextTo-same s.procs (set_fixed t s.procs) ts null same c)
          (omega arith) in
      let z : (t == null) ≡ false = ground arith in
      let y : (set_fixed t s.procs t).next_thread ≡ first ts null = same t ∙ e in
      rw (z, y) (Fixed-cons s.procs _ t ts x rest)

  master_of-top :
      (k : ℕ) (p : Ptr) (ps : Procs F) → (ps p).master ≡ null → master_of F (suc k) p ps ≡ p
  unfolding master_of
  master_of-top k p ps e = ground arith

  granted-same :
      (ps qs : Procs F) (x : ℕ)
      → (qs x).state ≡ (ps x).state
      → (qs x).schedmode ≡ (ps x).schedmode
      → (qs x).fixedshare ≡ (ps x).fixedshare
      → (qs x).master ≡ (ps x).master
      → is_running (ps x).state ≡ false
      → granted F qs x ≡ counted F ps x
  granted-same ps qs x a b c d e =
      rw (a, b, c, d, e) (drop_last (is_runnable (ps x).state) (is_sleeping (ps x).state))
    where
      drop_last :
          (r l : Bool)
          → (if (ps x).schedmode == 1 && (r || l || false) && (ps x).master == null
              then (ps x).fixedshare
              else 0)
            ≡ (if (ps x).schedmode == 1 && (r || l) && (ps x).master == null
                then (ps x).fixedshare
                else 0)
      drop_last true l = refl
      drop_last false true = refl
      drop_last false false = refl

  granted-slave : (qs : Procs F) (x : ℕ) → (qs x).master ≢ null → granted F qs x ≡ 0
  granted-slave qs x m = ground arith

  granted-le : (qs : Procs F) (x n : ℕ) → (qs x).fixedshare ≡ n → granted F qs x ≤ n
  granted-le qs x n e = ground (arith, e)

  if_eq : (y a b : ℕ) → (if y == y then a else b) ≡ a
  if_eq y a b = ground arith

  not_running : (s : ProcState) → ¬ (is_running s ≡ true) → is_running s ≡ false
  not_running s n = ground arith

  module _ (me n : ℕ) (ts : List Ptr) (s : Sched F) (top : (s.procs me).master ≡ null)
      (runs : (x : ℕ) → is_running (s.procs x).state ≡ true → x ≡ me)
      (threads : NextTo F s.procs (me ∷ ts) null) (len : length (me ∷ ts) ≤ nproc)
      (slaves : (x : Ptr) → has x ts ≡ true → (s.procs x).master ≢ null) where
    -- A process of the table after a call that grants the share.
    record Shared (qs : Procs F) (x : ℕ) : Type 0 where
      state : (qs x).state ≡ (s.procs x).state
      schedmode : (qs x).schedmode ≡ (if has x (me ∷ ts) then 1 else (s.procs x).schedmode)
      fixedshare : (qs x).fixedshare ≡ (if x == me then n else (s.procs x).fixedshare)
      master : (qs x).master ≡ (s.procs x).master

    others : (qs : Procs F) (x : ℕ) → Shared qs x → x ≢ me → granted F qs x ≤ counted F s.procs x
    others qs x h ne = elim (Bool-cases (has x ts)) [
      | inl e ↦ let z = granted-slave qs x (λ m. slaves x e (sym h.master ∙ m)) in omega (arith, z)
      | inr e ↦
          let y : has x (me ∷ ts) ≡ false = has-tail x ne e in
          let z =
            granted-same s.procs qs x h.state
              (h.schedmode ∙ ap (λ b. if b then 1 else (s.procs x).schedmode) y)
              (h.fixedshare ∙ if_ne x n (s.procs x).fixedshare ne) h.master
              (not_running (s.procs x).state (λ r. ne (runs x r))) in
          omega (arith, z)
    ]
      where
        has-tail : (y : ℕ) → y ≢ me → has y ts ≡ false → has y (me ∷ ts) ≡ false
        has-tail y d e = rw e (ground arith)

        if_ne : (y a b : ℕ) → y ≢ me → (if y == me then a else b) ≡ b
        if_ne y a b d = ground arith

    own : (qs : Procs F) → Shared qs me → granted F qs me ≤ n
    own qs h = granted-le qs me n (h.fixedshare ∙ if_eq me n (s.procs me).fixedshare)

    abbrev given : Sched F
    given = record s { procs = update s.procs me (record (s.procs me) { fixedshare = n }) }

    abbrev paid : Sched F
    paid = let (d, s2) = get_min_path F given in record s2 { procs = set_path F me d s2.procs }

    Same-paid : (x : ℕ) → Same F given.procs paid.procs x
    Same-paid x =
        Same-trans F (Same-min_path F given x)
          (Same-path F me (get_min_path F given).0 (get_min_path F given).1.procs x)

    all_Shared : (x : ℕ) → Shared (fix_threads F nproc me paid).procs x
    all_Shared x =
        let a = Same-paid x in
        let next : (y : Ptr) → (paid.procs y).next_thread ≡ (s.procs y).next_thread =
          λ y. ground (arith, (Same-paid y).next_thread) in
        let f =
          fix_threads-Fixed nproc paid (me ∷ ts) x
            (NextTo-same s.procs paid.procs (me ∷ ts) null next threads) len in
        record {
          state = f.state ∙ a.state ∙ ground arith;
          schedmode = ground (arith, f.schedmode, a.schedmode);
          fixedshare = f.fixedshare ∙ a.fixedshare ∙ ground arith;
          master = f.master ∙ a.master ∙ ground arith;
        }

    in_all :
        table_sum nproc (counted F s.procs) + n ≤ 20
        → table_sum nproc (granted F (fix_threads F nproc me paid).procs) ≤ 20
    in_all le =
        let qs = (fix_threads F nproc me paid).procs in
        omega (
          arith,
          table_sum-add nproc (counted F s.procs) (granted F qs) me n
              (λ x a b ne. others qs x (all_Shared x) ne) (own qs (all_Shared me)),
        )

    highest : get_highest_master F me s.procs ≡ me
    unfolding get_highest_master
    highest = master_of-top 63 me s.procs top

    -- `cpu_share(n)` of `me`, a main thread with the other threads `ts`, while no other process runs and
    -- `n` and the shares that are counted add up to less than 2^31, either returns -1 and changes nothing,
    -- or it returns 0 and the shares of the main threads in fixed-share mode that run, can run or sleep
    -- are at most 20 percent together.
    pub cpu_share_lem :
        table_sum nproc (counted F s.procs) + n < 2147483648
        → (let (ok, r) = cpu_share F me n s in
            if ok then table_sum nproc (granted F r.procs) ≤ 20 else r ≡ s)
    unfolding cpu_share
    cpu_share_lem lt =
        let t = share_total F nproc s.procs in
        let sum : t ≡ table_sum nproc (counted F s.procs) =
          share_total-sum F nproc s.procs (omega arith) in
        elim (Bool-cases (not_positive n || over_limit ((t + n) % 4294967296))) [
          | inl e ↦ rw e refl
          | inr e ↦
              let small : (t + n) % 4294967296 ≡ t + n = omega arith in
              let le : table_sum nproc (counted F s.procs) + n ≤ 20 = ground arith in
              rw (e, highest) (in_all le)
        ]
