-- ===== src/Sched/Walk.antt =====
-- `choosebymlfq` walks the queue: it drops the nodes of processes that are gone and stops at the
-- first node whose process is runnable.
use hyu_ele.Prelude.{
  ℕ, zero, suc, ◌≡◌, ◌≢◌, refl, ◌≤◌, arith, ◌∙◌, sym, subst, Bool, true, false, not, ◌&&◌, List, [],
  ◌∷◌, ◌++◌, length, Bool-cases, inl, inr, ◌⊎◌, ◌==◌, if◌then◌else◌,
}
use mathlib.Core.List.{append_assoc}
use hyu_ele.Prelude.Maps.{has, ne_of_has, distinct_right}
use hyu_ele.Mlfq.{Ptr, null, Nodes, is_used, remove, delete, slab_end}
use hyu_ele.Mlfq.Chain.{first}
use hyu_ele.Mlfq.Links.{IsList, at}
use hyu_ele.Mlfq.Links.Remove.{remove-IsList}
use hyu_ele.Mlfq.Fields.{IsList-same, remove-SameData}
use hyu_ele.Sched.State.{Double, Sched, Procs, is_runnable, is_sleeping}
use hyu_ele.Sched.Vals.{choose_walk, choose_by_mlfq}

-- `delete` is `remove` as far as the list goes.
delete-IsList :
    (f : Nodes) (xs : List Ptr) (m : Ptr) (ys : List Ptr)
    → IsList f (xs ++ (m ∷ ys))
    → IsList (delete m f) (xs ++ ys)
unfolding delete
delete-IsList f xs m ys is =
    IsList-same (remove m f) _ (xs ++ ys) (λ x _. ground arith) (remove-IsList f xs m ys is)

delete-other :
    (f : Nodes) (m x : Ptr)
    → x ≢ m
    → ((delete m f x).state ≡ (f x).state) × ((delete m f x).self ≡ (f x).self)
unfolding delete
delete-other f m x ne = let d = remove-SameData m f in ground (arith, d.state x, d.self x)

not_null : {x : Ptr} → x ≢ null → (x == null) ≡ false
not_null {x} ne = ground arith

module _ (F : Double) (ps : Procs F) where
  -- The process of the node can run; it neither runs nor sleeps, so that the node is to go.
  abbrev pub ready : Nodes → Ptr → Bool
  ready f x = is_runnable (ps (f x).self).state

  abbrev pub gone : Nodes → Ptr → Bool
  gone f x = not (ready f x) && not (is_sleeping (ps (f x).self).state)

  -- The node to run, or null.
  abbrev pub pick : Nodes → List Ptr → Ptr
  pick f [] = null
  pick f (x ∷ xs) = if is_used (f x).state && ready f x then x else pick f xs

  -- The nodes that stay in the list: those in front of the chosen node lose the dead ones.
  abbrev pub kept : Nodes → List Ptr → List Ptr
  kept f [] = []
  kept f (x ∷ xs) =
      if is_used (f x).state && ready f x
      then x ∷ xs
      else if is_used (f x).state && gone f x
      then kept f xs
      else x ∷ kept f xs

  pick-same :
      (f g : Nodes) (xs : List Ptr)
      → ((x : Ptr) → has x xs ≡ true → ((g x).state ≡ (f x).state) × ((g x).self ≡ (f x).self))
      → (pick g xs ≡ pick f xs) × (kept g xs ≡ kept f xs)
  pick-same f g [] same = (refl, refl)
  pick-same f g (x ∷ xs) same =
      let (s, t) = same x (ground arith) in
      let (p, k) = pick-same f g xs (λ y h. same y (ground arith)) in rw (s, t, p, k) (refl, refl)

  Walked : ℕ → Ptr → Nodes → Ptr → List Ptr → Type 0
  Walked k m f p ys = ((choose_walk F k m ps f).0 ≡ p) × IsList (choose_walk F k m ps f).1 ys

  skipped :
      (k : ℕ) (f : Nodes) (front : List Ptr) (x : Ptr) (xs : List Ptr)
      → (f x).next ≡ first xs null
      → Walked k (first xs null) f (pick f xs) ((front ++ (x ∷ [])) ++ kept f xs)
      → Walked k (f x).next f (pick f xs) (front ++ (x ∷ kept f xs))
  unfolding Walked
  skipped k f front x xs e w =
      subst (λ m. Walked k m f (pick f xs) (front ++ (x ∷ kept f xs))) (sym e)
        (w.0, (simp append_assoc at w.1))

  dropped :
      (k : ℕ) (f : Nodes) (front : List Ptr) (x : Ptr) (xs : List Ptr)
      → (f x).next ≡ first xs null
      → IsList f (front ++ (x ∷ xs))
      → Walked k (first xs null) (delete x f) (pick (delete x f) xs) (front ++ kept (delete x f) xs)
      → Walked k (f x).next (delete x f) (pick f xs) (front ++ kept f xs)
  unfolding Walked
  dropped k f front x xs e is w =
      let out = distinct_right (null ∷ front) (x ∷ xs) is.no_repeat in
      let (p, l) =
        pick-same f (delete x f) xs
          (λ y h. delete-other f x y (ne_of_has y x xs h (ground arith))) in
      subst (λ m. Walked k m (delete x f) (pick f xs) (front ++ kept f xs)) (sym e)
        (
          w.0 ∙ p,
          subst (λ ys. IsList (choose_walk F k (first xs null) ps (delete x f)).1 (front ++ ys)) l
              w.1,
        )

  choose_walk_lem :
      (k : ℕ) (f : Nodes) (front xs : List Ptr)
      → IsList f (front ++ xs)
      → length xs ≤ k
      → ((choose_walk F k (first xs null) ps f).0 ≡ pick f xs)
        × IsList (choose_walk F k (first xs null) ps f).1 (front ++ kept f xs)
  unfolding choose_walk Walked
  choose_walk_lem zero f front [] is le = (refl, is)
  choose_walk_lem (suc k) f front [] is le = (refl, is)
  choose_walk_lem zero f front (x ∷ xs) is le = absurd (omega arith)
  choose_walk_lem (suc k) f front (x ∷ xs) is le =
      let a = at f front x xs is in
      let n : (x == null) ≡ false = not_null a.ne_null in
      let skip =
        skipped k f front x xs a.next_eq
          (choose_walk_lem k f (front ++ (x ∷ [])) xs (simp append_assoc is) (omega arith)) in
      elim (Bool-cases (is_used (f x).state)) [
        | inl u ↦ elim (Bool-cases (ready f x)) [
          | inl r ↦ rw (n, u, r) (refl, is)
          | inr r ↦ elim (Bool-cases (is_sleeping (ps (f x).self).state)) [
            | inl sl ↦ rw (n, u, r, sl) skip
            | inr sl ↦
                rw (n, u, r, sl)
                  (dropped k f front x xs a.next_eq is (
                    choose_walk_lem k (delete x f) front xs (delete-IsList f front x xs is)
                      (omega arith)))
          ]
        ]
        | inr u ↦ rw (n, u) skip
      ]

  -- `m` is in the list, in use and its process can run; or it is null and the list has no such node.
  abbrev pub Picks : Nodes → List Ptr → Ptr → Type 0
  Picks f xs m =
      ((has m xs ≡ true) × (is_used (f m).state && ready f m ≡ true))
      ⊎ ((m ≡ null) × ((x : Ptr) → has x xs ≡ true → is_used (f x).state && ready f x ≡ false))

  Picks-cons :
      (f : Nodes) (x : Ptr) (xs : List Ptr) (m : Ptr) (b : Bool)
      → (is_used (f x).state && ready f x) ≡ b
      → Picks f xs m
      → Picks f (x ∷ xs) (if b then x else m)
  Picks-cons f x xs m true e h = inl (ground arith, e)
  Picks-cons f x xs m false e (inl (h, u)) = inl (ground arith, u)
  Picks-cons f x xs m false e (inr (z, h)) = inr (
    z,
    λ y k. elim (Bool-cases (y == x)) [
      | inl q ↦ let same : y ≡ x = ground arith in rw same e
      | inr q ↦ h y (ground arith)
    ],
  )

  pick-Picks : (f : Nodes) (xs : List Ptr) → Picks f xs (pick f xs)
  pick-Picks f [] = inr (refl, λ x h. cc)
  pick-Picks f (x ∷ xs) =
      Picks-cons f x xs (pick f xs) (is_used (f x).state && ready f x) refl (pick-Picks f xs)

module _ (F : Double) (s : Sched F) (xs : List Ptr) where
  abbrev pub whole : List Ptr
  whole = s.queue.headers 0 ∷ xs

  module _ (is : IsList s.queue.nodes whole) (le : length whole ≤ slab_end)
      (stale : not (s.mlfq_highpr == null) && ready F s.procs s.queue.nodes s.mlfq_highpr
        ≡ false) where
    head_not_null : (s.queue.headers 0 == null) ≡ false
    head_not_null = not_null (at s.queue.nodes [] (s.queue.headers 0) xs is).ne_null

    chosen :
        ((choose_by_mlfq F s).0 ≡ pick F s.procs s.queue.nodes whole)
        × IsList (choose_by_mlfq F s).1.queue.nodes (kept F s.procs s.queue.nodes whole)
    unfolding choose_by_mlfq
    chosen =
        let (m, l) = choose_walk_lem F s.procs slab_end s.queue.nodes [] whole is le in
        rw (head_not_null, stale) (m, l)

    -- `choosebymlfq`, when the last choice cannot go on, chooses the first node in use whose process
    -- can run, and null only when there is none; of the nodes in front of it those of processes that
    -- neither run nor sleep leave the list, and the order of the others stays.
    pub choose_by_mlfq_lem :
        let (m, r) = choose_by_mlfq F s in
        (m ≡ pick F s.procs s.queue.nodes whole)
        × Picks F s.procs s.queue.nodes whole m
        × IsList r.queue.nodes (kept F s.procs s.queue.nodes whole)
    choose_by_mlfq_lem = (
      chosen.0,
      subst (Picks F s.procs s.queue.nodes whole) (sym chosen.0)
          (pick-Picks F s.procs s.queue.nodes whole),
      chosen.1,
    )
