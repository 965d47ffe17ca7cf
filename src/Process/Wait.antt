-- ===== src/Process/Wait.antt =====
-- `wait` on all branches, and after an `exit`.
use hyu_ele.Prelude.{
  ℕ, zero, suc, ◌+◌, ◌≡◌, ◌≢◌, ◌≤◌, ◌<◌, ◌⊎◌, inl, inr, refl, sym, ◌∙◌, arith, Bool, true, false,
  ◌&&◌, ◌||◌, ◌==◌, if◌then◌else◌, Bool-cases,
}
use hyu_ele.Mlfq.{Ptr, nproc}
use hyu_ele.Sched.State.{Double, Procs}
use hyu_ele.Process.{
  is_zombie, Machine, procs, exit_finish, Kids, no_kids, live_kids, zombie_kid, scan_kids, Waited,
  wait, reaped, refused, asleep, reap, go_sleep,
}
use hyu_ele.Process.Wake.{sleeps_on}
use hyu_ele.Process.Exit.{exit_finish_lem}

module _ (F : Double) (me : Ptr) (ps : Procs F) where
  -- What the scan finds in the `k` entries from `p` on; `have` says whether a child was seen before.
  abbrev Scanned : ℕ → Ptr → Bool → Kids F → Type 0
  Scanned k p have no_kids = (have ≡ false) × ((x : ℕ) → p ≤ x → x < p + k → (ps x).parent ≢ me)
  Scanned k p have live_kids =
      ((have ≡ true) ⊎ ((x : ℕ) × (p ≤ x) × (x < p + k) × ((ps x).parent ≡ me)))
      × ((x : ℕ) → p ≤ x → x < p + k → (ps x).parent ≡ me → is_zombie (ps x).state ≡ false)
  Scanned k p have (zombie_kid z) =
      (p ≤ z) × (z < p + k) × ((ps z).parent ≡ me) × (is_zombie (ps z).state ≡ true)

  Scanned-next :
      (k : ℕ) (p : Ptr) (have : Bool) (r : Kids F)
      → ((ps p).parent == me && is_zombie (ps p).state) ≡ false
      → Scanned k (p + 1) (have || (ps p).parent == me) r
      → Scanned (suc k) p have r
  Scanned-next k p have no_kids n (h, all) = (
    ground arith,
    λ x a b. elim (Bool-cases (x == p)) [
      | inl e ↦ let same : x ≡ p = ground arith in rw same (ground arith)
      | inr e ↦ all x (ground arith) (omega arith)
    ],
  )
  Scanned-next k p have live_kids n (h, all) = (
    elim h [
      | inr (x, a, b, e) ↦ inr (x, omega arith, omega arith, e)
      | inl e ↦ elim (Bool-cases have) [
        | inl g ↦ inl g
        | inr g ↦ inr (p, omega arith, omega arith, ground arith)
      ]
    ],
    λ x a b e. elim (Bool-cases (x == p)) [
      | inl q ↦
          let same : x ≡ p = ground arith in
          rw same (let e' : (ps p).parent ≡ me = rw same at e in ground arith)
      | inr q ↦ all x (ground arith) (omega arith) e
    ],
  )
  Scanned-next k p have (zombie_kid z) n (a, b, e, s) = (omega arith, omega arith, e, s)

  scan_kids-Scanned :
      (k : ℕ) (p : Ptr) (have : Bool) → Scanned k p have (scan_kids F k p me have ps)
  unfolding scan_kids
  scan_kids-Scanned zero p true = (inl refl, λ x a b. absurd (omega arith))
  scan_kids-Scanned zero p false = (refl, λ x a b. absurd (omega arith))
  scan_kids-Scanned (suc k) p have =
      elim (Bool-cases ((ps p).parent == me && is_zombie (ps p).state)) [
        | inl e ↦ rw e (omega arith, omega arith, ground arith, ground arith)
        | inr e ↦ rw e (
            Scanned-next k p have (scan_kids F k (p + 1) me (have || (ps p).parent == me) ps) e
              (scan_kids-Scanned k (p + 1) (have || (ps p).parent == me)))
      ]

module _ (F : Double) (me : Ptr) (m : Machine F) where
  -- `p` is a child of the process.
  abbrev pub Child : ℕ → Type 0
  Child x = (1 ≤ x) × (x ≤ nproc) × ((procs F m x).parent ≡ me)

  -- The branches of `wait`.
  pub data Answer (w : Waited F) : Type 0 where
    takes :
        (z : ℕ)
        → Child z
        → is_zombie (procs F m z).state ≡ true
        → w ≡ reaped (procs F m z).pid (reap F z m)
        → Answer w
    childless : ((x : ℕ) → ¬ (Child x)) → w ≡ refused (record m { held = false }) → Answer w
    waits :
        (x : ℕ)
        → Child x
        → ((y : ℕ) → Child y → is_zombie (procs F m y).state ≡ false)
        → w ≡ (
            if (procs F m me).killed
            then refused (record m { held = false })
            else asleep (go_sleep F me me m))
        → Answer w

  abbrev answer : Kids F → Waited F
  answer k = elim k [
    | zombie_kid p ↦ reaped (procs F m p).pid (reap F p m)
    | no_kids ↦ refused (record m { held = false })
    | live_kids ↦
        if (procs F m me).killed
        then refused (record m { held = false })
        else asleep (go_sleep F me me m)
  ]

  from_scan : (k : Kids F) → Scanned F me (procs F m) nproc 1 false k → Answer (answer k)
  from_scan no_kids (h, all) = childless (λ x c. all x c.0 (omega arith) c.2) refl
  from_scan live_kids (inl h, all) = absurd (ground arith)
  from_scan live_kids (inr (x, a, b, e), all) =
      waits x (a, omega arith, e) (λ y c. all y c.0 (omega arith) c.2) refl
  from_scan (zombie_kid z) (a, b, e, s) = takes z (a, omega arith, e) s refl

  -- `wait` frees a zombie child and returns its pid if there is one; it returns -1 if there is no child at
  -- all, or if no child is a zombie and the process was killed; else it goes to sleep.
  pub wait_lem : Answer (wait F me m)
  unfolding wait
  wait_lem =
      from_scan (scan_kids F nproc 1 me false (procs F m))
        (scan_kids-Scanned F me (procs F m) nproc 1 false)

-- After `exit` of a child the parent does not sleep in `wait` any more, and the next round of its
-- `wait` returns the pid of a zombie child.
pub exit-wait :
    (F : Double) (me parent : Ptr) (m : Machine F)
    → 1 ≤ me
    → me ≤ nproc
    → 1 ≤ parent
    → parent ≤ nproc
    → parent ≢ me
    → (procs F m me).parent ≡ parent
    → let after = exit_finish F me m in
      (sleeps_on F parent (procs F after parent) ≡ false)
      × (z : ℕ) × Child F parent after z
      × (is_zombie (procs F after z).state ≡ true)
      × (wait F parent after ≡ reaped (procs F after z).pid (reap F z after))
exit-wait F me parent m a b c d ne e =
    let after = exit_finish F me m in
    let x = exit_finish_lem F me m in
    let kid : (procs F after me).parent ≡ parent = x.same_parent (λ z. ne (sym e ∙ z)) ∙ e in
    let z : is_zombie (procs F after me).state ≡ true = let g = x.is_gone in ground arith in
    let (y, g, s, q) = taken after (a, b, kid) z (wait_lem F parent after) in
    (rw e at (x.parent_awake (λ n. absurd (omega arith)) parent ne c d), y, g, s, q)
  where
    taken :
        (t : Machine F)
        → Child F parent t me
        → is_zombie (procs F t me).state ≡ true
        → Answer F parent t (wait F parent t)
        → (z : ℕ) × Child F parent t z
          × (is_zombie (procs F t z).state ≡ true)
          × (wait F parent t ≡ reaped (procs F t z).pid (reap F z t))
    taken t k z (takes y c s q) = (y, c, s, q)
    taken t k z (childless all q) = absurd (all me k)
    taken t k z (waits y c all q) = let w = all me k in absurd (ground arith)
