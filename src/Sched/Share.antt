-- ===== src/Sched/Share.antt =====
-- `cpu_share` never grants more than 20 percent in all.
pub mod Grant
use hyu_ele.Prelude.{
  ℕ, zero, suc, ◌+◌, ◌≡◌, ◌≢◌, refl, ◌≤◌, ◌<◌, arith, ◌∙◌, ap, sym, subst, Bool, true, false, ◌||◌,
  ◌&&◌, List, [], ◌∷◌, Bool-cases, inl, inr, ◌⊎◌, ◌==◌, ltb, if◌then◌else◌, length,
}
use native.Mathlib.Decide.{ℕ_discrete}
use hyu_ele.Prelude.Maps.{has, update, distinct}
use hyu_ele.Mlfq.{Ptr, null, nproc}
use hyu_ele.Mlfq.Chain.{first}
use hyu_ele.Sched.State.{
  Double, ProcState, running, Proc, Procs, Sched, is_runnable, is_sleeping, get_highest_master,
  master_of, set_path,
}
use hyu_ele.Sched.Vals.{
  Scan, scan, scan_start, update_paths, update_vals, choose_by_mlfq, choose_by_stride, get_min_path,
}
use hyu_ele.Sched.Run.{share_total, fix_threads, cpu_share}
use hyu_ele.Sched.Turns.{NextTo}

abbrev pub is_running : ProcState → Bool
is_running running = true
is_running _ = false

-- The sum of the first `k` entries of a table that starts at 1.
abbrev pub table_sum : ℕ → (ℕ → ℕ) → ℕ
table_sum zero f = 0
table_sum (suc k) f = table_sum k f + f (suc k)

table_sum-le :
    (k : ℕ) (f g : ℕ → ℕ) → ((x : ℕ) → 1 ≤ x → x ≤ k → g x ≤ f x) → table_sum k g ≤ table_sum k f
table_sum-le zero f g h = omega arith
table_sum-le (suc k) f g h = omega (
  arith,
  table_sum-le k f g (λ x a b. h x a (omega arith)),
  h (suc k) (omega arith) (omega arith),
)

-- One entry may exceed its bound by `n`.
pub table_sum-add :
    (k : ℕ) (f g : ℕ → ℕ) (p n : ℕ)
    → ((x : ℕ) → 1 ≤ x → x ≤ k → x ≢ p → g x ≤ f x)
    → g p ≤ n
    → table_sum k g ≤ table_sum k f + n
table_sum-add zero f g p n h e = omega arith
table_sum-add (suc k) f g p n h e = elim (ℕ_discrete (suc k) p) [
  | yes q ↦ omega (
    arith,
    table_sum-le k f g (λ x a b. h x a (omega arith) (omega arith)),
    subst (λ z. g z ≤ n) (sym q) e,
  )
  | no q ↦ omega (
    arith,
    table_sum-add k f g p n (λ x a b. h x a (omega arith)) e,
    h (suc k) (omega arith) (omega arith) q,
  )
]

module _ (F : Double) where
  -- What a process adds to the total of `cpu_share`; with the running ones, what is granted in all.
  abbrev pub counted : Procs F → ℕ → ℕ
  counted ps x =
      let p = ps x in
      if p.schedmode == 1 && (is_runnable p.state || is_sleeping p.state) && p.master == null
      then p.fixedshare
      else 0

  abbrev pub granted : Procs F → ℕ → ℕ
  granted ps x =
      let p = ps x in
      if p.schedmode == 1
        && (is_runnable p.state || is_sleeping p.state || is_running p.state)
        && p.master == null
      then p.fixedshare
      else 0

  -- Without overflow the total is the sum.
  pub share_total-sum :
      (k : ℕ) (ps : Procs F)
      → table_sum k (counted ps) < 4294967296
      → share_total F k ps ≡ table_sum k (counted ps)
  unfolding share_total
  share_total-sum zero ps lt = refl
  share_total-sum (suc k) ps lt = rw (share_total-sum k ps (omega arith)) (omega arith)

  -- Two tables agree in what is granted, but for the modes.
  pub record Same (ps qs : Procs F) (x : ℕ) : Type 0 where
    pub state : (qs x).state ≡ (ps x).state
    pub schedmode : (qs x).schedmode ≡ (ps x).schedmode
    pub fixedshare : (qs x).fixedshare ≡ (ps x).fixedshare
    pub master : (qs x).master ≡ (ps x).master
    pub next_thread : (qs x).next_thread ≡ (ps x).next_thread

  pub Same-path : (p : Ptr) (d : F.D) (ps : Procs F) (x : ℕ) → Same ps (set_path F p d ps) x
  Same-path p d ps x = record {
    state = ground arith;
    schedmode = ground arith;
    fixedshare = ground arith;
    master = ground arith;
    next_thread = ground arith;
  }

  pub Same-trans : {ps qs rs : Procs F} {x : ℕ} → Same ps qs x → Same qs rs x → Same ps rs x
  Same-trans a b = record {
    state = b.state ∙ a.state;
    schedmode = b.schedmode ∙ a.schedmode;
    fixedshare = b.fixedshare ∙ a.fixedshare;
    master = b.master ∙ a.master;
    next_thread = b.next_thread ∙ a.next_thread;
  }

  Same-refl : (ps : Procs F) (x : ℕ) → Same ps ps x
  Same-refl ps x = record {
    state = refl;
    schedmode = refl;
    fixedshare = refl;
    master = refl;
    next_thread = refl;
  }

  Same-if_path :
      (b : Bool) (p : Ptr) (d : F.D) (ps : Procs F) (x : ℕ)
      → Same ps (if b then ps else set_path F p d ps) x
  Same-if_path true p d ps x = Same-refl ps x
  Same-if_path false p d ps x = Same-path p d ps x

  choose_by_mlfq-procs : (s : Sched F) → (choose_by_mlfq F s).1.procs ≡ s.procs
  unfolding choose_by_mlfq
  choose_by_mlfq-procs s = ground arith

  update_paths-procs :
      (a : Scan F) (s : Sched F)
      → (update_paths F a s).procs
        ≡ (if a.highpr == null then s.procs else set_path F a.highpr s.default_path s.procs)
  unfolding update_paths
  update_paths-procs a s = ground arith

  Same-update_vals : (s : Sched F) (x : ℕ) → Same s.procs (update_vals F s).procs x
  unfolding update_vals
  Same-update_vals s x =
      let a = scan F nproc s.procs (scan_start F) in
      subst (λ qs. Same s.procs qs x)
        (sym (choose_by_mlfq-procs (update_paths F a s) ∙ update_paths-procs a s))
        (Same-if_path (a.highpr == null) a.highpr s.default_path s.procs x)

  -- The two assignments of a pass value in `choosebystride`.
  abbrev put_default : Sched F → Sched F
  put_default s =
      if s.default_highpr == null
      then s
      else record s { procs = set_path F s.default_highpr s.default_path s.procs }

  abbrev put_mlfq : Sched F → Sched F
  put_mlfq s =
      if s.mlfq_highpr == null
      then s
      else record s { procs = set_path F (s.queue.nodes s.mlfq_highpr).self s.mlfq_path s.procs }

  Same-put_default : (s : Sched F) (x : ℕ) → Same s.procs (put_default s).procs x
  Same-put_default s x = elim (Bool-cases (s.default_highpr == null)) [
    | inl e ↦ rw e (Same-refl s.procs x)
    | inr e ↦ rw e (Same-path s.default_highpr s.default_path s.procs x)
  ]

  Same-put_mlfq : (s : Sched F) (x : ℕ) → Same s.procs (put_mlfq s).procs x
  Same-put_mlfq s x = elim (Bool-cases (s.mlfq_highpr == null)) [
    | inl e ↦ rw e (Same-refl s.procs x)
    | inr e ↦ rw e (Same-path (s.queue.nodes s.mlfq_highpr).self s.mlfq_path s.procs x)
  ]

  choose_by_stride-puts :
      (s : Sched F) → (choose_by_stride F s).1 ≡ put_mlfq (put_default (update_vals F s))
  unfolding choose_by_stride
  choose_by_stride-puts s =
      elim (Bool-cases ((put_default (update_vals F s)).mlfq_highpr == null)) [
        | inl e ↦ rw e refl
        | inr e ↦ rw e refl
      ]

  -- `getminpath` changes pass values only.
  pub Same-min_path : (s : Sched F) (x : ℕ) → Same s.procs (get_min_path F s).1.procs x
  unfolding get_min_path
  Same-min_path s x =
      let s1 = update_vals F s in
      subst (λ (t : Sched F). Same s.procs t.procs x) (sym (choose_by_stride-puts s))
        (Same-trans (Same-update_vals s x)
          (Same-trans (Same-put_default s1 x) (Same-put_mlfq (put_default s1) x)))
