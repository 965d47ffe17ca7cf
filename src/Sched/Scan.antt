-- ===== src/Sched/Scan.antt =====
-- The scan of `updatevals` over the process table finds the processes to run next.
use hyu_ele.Prelude.{
  ℕ, zero, suc, ◌≡◌, refl, ◌≤◌, arith, sym, subst, true, false, Option, none, some, Bool-cases, inl,
  inr, ◌⊎◌, ◌==◌,
}
use mathlib.Core.Path.{subst₂}
use native.Mathlib.Decide.{ℕ_discrete}
use hyu_ele.Mlfq.{Ptr, null, nproc}
use hyu_ele.Sched.State.{Double, Sched, Procs, is_runnable, get_highest_master}
use hyu_ele.Sched.Vals.{
  Scan, scan_start, scan, scan_step, scan_runnable, below, update_paths, update_vals,
  choose_by_mlfq,
}

-- From the first `n` numbers to one more.
up_to :
    (n : ℕ) (P : ℕ → Type 0)
    → ((q : ℕ) → 1 ≤ q → q ≤ n → P q)
    → P (suc n)
    → (q : ℕ) → 1 ≤ q
    → q ≤ suc n
    → P q
up_to n P all last q lo hi = elim (ℕ_discrete q (suc n)) [
  | yes e ↦ subst P (sym e) last
  | no ne ↦ all q lo (omega arith)
]

module _ (F : Double) (ps : Procs F) where
  abbrev pub top : Ptr → Ptr
  top q = get_highest_master F q ps

  -- The process `q` can run, and its highest master is scheduled in the mode `k`.
  abbrev pub Candidate : ℕ → Ptr → Type 0
  Candidate k q = (is_runnable (ps q).state ≡ true) × ((ps (top q)).schedmode ≡ k)

  -- Of the first `n` processes of the table, `highpr` is the highest master of a candidate of mode 0,
  -- and no candidate's has a lower level; or there is no candidate and `highpr` is null.
  abbrev pub Lowest : ℕ → Ptr → Type 0
  Lowest n h =
      ((p : ℕ) × (1 ≤ p)
        × (p ≤ n)
        × Candidate 0 p
        × (h ≡ top p)
        × ((q : ℕ) → 1 ≤ q → q ≤ n → Candidate 0 q → (ps h).pathlevel ≤ (ps (top q)).pathlevel))
      ⊎ ((h ≡ null) × ((q : ℕ) → 1 ≤ q → q ≤ n → ¬ (Candidate 0 q)))

  abbrev pub level : Ptr → ℕ
  level h = (ps h).pathlevel

  -- The same of the scan, with the level that it keeps.
  Kept : ℕ → Ptr → Option ℕ → Type 0
  Kept n h l =
      ((p : ℕ) × (1 ≤ p)
        × (p ≤ n)
        × Candidate 0 p
        × (h ≡ top p)
        × (l ≡ some (level (top p)))
        × ((q : ℕ) → 1 ≤ q → q ≤ n → Candidate 0 q → level (top p) ≤ level (top q)))
      ⊎ ((h ≡ null) × (l ≡ none) × ((q : ℕ) → 1 ≤ q → q ≤ n → ¬ (Candidate 0 q)))

  -- A process that is no candidate changes nothing.
  Kept-other :
      (n : ℕ) (h : Ptr) (l : Option ℕ) → ¬ (Candidate 0 (suc n)) → Kept n h l → Kept (suc n) h l
  unfolding Kept
  Kept-other n h l out (inl (p, lo, hi, c, e, m, best)) =
      inl (p, lo, omega arith, c, e, m, up_to n _ best (λ d. absurd (out d)))
  Kept-other n h l out (inr (e, m, empty)) = inr (e, m, up_to n _ empty out)

  Kept-new :
      (n : ℕ) (h : Ptr) (l : Option ℕ)
      → Candidate 0 (suc n)
      → below F (level (top (suc n))) l ≡ true
      → Kept n h l
      → Kept (suc n) (top (suc n)) (some (level (top (suc n))))
  unfolding Kept
  Kept-new n h l c less (inl (p, lo, hi, d, e, m, best)) =
      let lt : level (top (suc n)) ≤ level (top p) = ground arith in
      inl (
        suc n,
        omega arith,
        omega arith,
        c,
        refl,
        refl,
        up_to n _ (λ q a b k. omega (arith, best q a b k)) (λ _. omega arith),
      )
  Kept-new n h l c less (inr (e, m, empty)) = inl (
    suc n,
    omega arith,
    omega arith,
    c,
    refl,
    refl,
    up_to n _ (λ q a b k. absurd (empty q a b k)) (λ _. omega arith),
  )

  Kept-worse :
      (n : ℕ) (h : Ptr) (l : Option ℕ)
      → below F (level (top (suc n))) l ≡ false
      → Kept n h l
      → Kept (suc n) h l
  unfolding Kept
  Kept-worse n h l more (inl (p, lo, hi, d, e, m, best)) =
      let ge : level (top p) ≤ level (top (suc n)) = ground arith in
      inl (p, lo, omega arith, d, e, m, up_to n _ best (λ _. omega arith))
  Kept-worse n h l more (inr (e, m, empty)) = absurd (ground arith)

  -- A process of another mode leaves the choice for mode 0.
  other_mode :
      (n : ℕ) (a : Scan F)
      → Kept (suc n) a.highpr a.min2
      → is_runnable (ps (suc n)).state ≡ true
      → ((ps (top (suc n))).schedmode == 0) ≡ false
      → let b = scan_step F (suc n) ps a in Kept (suc n) b.highpr b.min2
  unfolding scan_step scan_runnable
  other_mode n a k r m =
      let e : (scan_step F (suc n) ps a).highpr ≡ a.highpr = ground arith in
      let f : (scan_step F (suc n) ps a).min2 ≡ a.min2 = ground arith in
      subst₂ (λ h l. Kept (suc n) h l) (sym e) (sym f) k

  Kept-step :
      (n : ℕ) (a : Scan F)
      → Kept n a.highpr a.min2
      → let b = scan_step F (suc n) ps a in Kept (suc n) b.highpr b.min2
  unfolding scan_step scan_runnable
  Kept-step n a k = elim (Bool-cases (is_runnable (ps (suc n)).state)) [
    | inl r ↦ elim (Bool-cases ((ps (top (suc n))).schedmode == 0)) [
      | inl m ↦ elim (Bool-cases (below F (ps (top (suc n))).pathlevel a.min2)) [
        | inl l ↦ rw (r, m, l) (Kept-new n a.highpr a.min2 (r, ground arith) l k)
        | inr l ↦ rw (r, m, l) (Kept-worse n a.highpr a.min2 l k)
      ]
      | inr m ↦ other_mode n a (Kept-other n a.highpr a.min2 (λ c. ground arith) k) r m
    ]
    | inr r ↦ rw r (Kept-other n a.highpr a.min2 (λ c. ground arith) k)
  ]

  scan-Kept : (n : ℕ) → let a = scan F n ps (scan_start F) in Kept n a.highpr a.min2
  unfolding scan Kept
  scan-Kept zero = inr (refl, refl, λ q lo hi. absurd (omega arith))
  scan-Kept (suc n) = Kept-step n (scan F n ps (scan_start F)) (scan-Kept n)

  pub scan-Lowest : Lowest nproc (scan F nproc ps (scan_start F)).highpr
  unfolding Kept
  scan-Lowest = elim (scan-Kept nproc) [
    | inl (p, lo, hi, c, e, m, best) ↦ inl (p, lo, hi, c, e, λ q a b d. rw e (best q a b d))
    | inr (e, m, empty) ↦ inr (e, empty)
  ]

module _ (F : Double) (s : Sched F) where
  highpr-scan : (update_vals F s).default_highpr ≡ (scan F nproc s.procs (scan_start F)).highpr
  unfolding update_vals update_paths choose_by_mlfq
  highpr-scan = ground arith

  -- `updatevals` sets `defaultvmp.highpr` to the highest master of a runnable process whose mode is
  -- the default one, with the lowest `pathlevel` of all of these, and to null only if there is none.
  pub update_vals-Lowest : Lowest F s.procs nproc (update_vals F s).default_highpr
  update_vals-Lowest = subst (Lowest F s.procs nproc) (sym highpr-scan) (scan-Lowest F s.procs)
