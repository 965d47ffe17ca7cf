-- ===== src/Sched/Turns.antt =====
-- The search for a runnable thread goes round the threads of a process, from its `turn` on.
use hyu_ele.Prelude.{
  ℕ, zero, suc, ◌+◌, ◌≡◌, ◌≢◌, refl, ◌≤◌, arith, ◌∙◌, sym, ap, true, false, List, [], ◌∷◌, ◌++◌,
  Option, none, some, Option-cases, ◌-◌, length, length-append, Bool-cases, inl, inr, if◌then◌else◌,
}
use hyu_ele.Prelude.Maps.{has, distinct, distinct_right, distinct_apart}
use hyu_ele.Mlfq.{Ptr, null}
use hyu_ele.Mlfq.Chain.{first}
use hyu_ele.Sched.State.{Double, Procs, is_runnable}
use hyu_ele.Sched.Run.{found, not_found, out_of_fuel, turn_loop}

abbrev or_else : Option Ptr → Option Ptr → Option Ptr
or_else none b = b
or_else (some a) b = some a

module _ (F : Double) (ps : Procs F) where
  -- The `next_thread` pointers lead through `xs` to `e`.
  abbrev pub NextTo : List Ptr → Ptr → Type 0
  NextTo [] e = Unit {0}
  NextTo (x ∷ xs) e = (x ≢ null) × ((ps x).next_thread ≡ first xs e) × NextTo xs e

  -- The first runnable thread of a list.
  abbrev pub first_runnable : List Ptr → Option Ptr
  first_runnable [] = none
  first_runnable (x ∷ xs) = if is_runnable (ps x).state then some x else first_runnable xs

  NextTo-split :
      (xs : List Ptr) (y : Ptr) (ys : List Ptr) (e : Ptr)
      → NextTo (xs ++ (y ∷ ys)) e
      → NextTo xs y × NextTo (y ∷ ys) e
  NextTo-split [] y ys e c = (tt, c)
  NextTo-split (x ∷ []) y ys e (n, s, c) = ((n, s, tt), c)
  NextTo-split (x ∷ z ∷ xs) y ys e (n, s, c) =
      let (l, r) = NextTo-split (z ∷ xs) y ys e c in ((n, s, l), r)

  first_runnable-append :
      (xs ys : List Ptr)
      → first_runnable (xs ++ ys) ≡ or_else (first_runnable xs) (first_runnable ys)
  first_runnable-append [] ys = refl
  first_runnable-append (x ∷ xs) ys = elim (Bool-cases (is_runnable (ps x).state)) [
    | inl e ↦ rw e
    | inr e ↦ rw e (first_runnable-append xs ys)
  ]

  module _ (p start : Ptr) where
    -- From `q` to the end of the list.
    walk_end :
        (k : ℕ) (q : Ptr) (rest : List Ptr)
        → NextTo (q ∷ rest) null
        → has start rest ≡ false
        → start ≢ null
        → ((r : Ptr)
            → first_runnable (q ∷ rest) ≡ some r
            → length (q ∷ rest) ≤ k
            → turn_loop F k p start q ps ≡ found r)
          × (first_runnable (q ∷ rest) ≡ none
              → (j : ℕ) → k ≡ length (q ∷ rest) + j
              → turn_loop F k p start q ps ≡ turn_loop F j p start null ps)
    unfolding turn_loop
    walk_end zero q rest c out ns = (λ r e le. absurd (omega arith), λ e j le. absurd (omega arith))
    walk_end (suc k) q [] (nq, nx, c) out ns =
        (λ r e le. ground arith, λ e j le. let same : k ≡ j = omega arith in ground (arith))
    walk_end (suc k) q (x ∷ rest) (nq, nx, c) out ns =
        let (some_case, none_case) = walk_end k x rest c (ground arith) ns in
        (
          λ r e le. ground (arith, some_case r),
          λ e j le.
              let e' : first_runnable (x ∷ rest) ≡ none = ground arith in
              ground (arith, none_case e' j (omega arith)),
        )

    -- From the head of the list up to `start`, which ends the search.
    walk_to :
        (k : ℕ) (q : Ptr) (rest : List Ptr)
        → NextTo (q ∷ rest) start
        → has start rest ≡ false
        → length (q ∷ rest) ≤ k
        → turn_loop F k p start q ps
          ≡ elim (first_runnable (q ∷ rest)) [ none ↦ not_found | some r ↦ found r ]
    unfolding turn_loop
    walk_to zero q rest c out le = absurd (omega arith)
    walk_to (suc k) q [] (nq, nx, c) out le = ground arith
    walk_to (suc k) q (x ∷ rest) (nq, nx, c) out le =
        ground (arith, walk_to k x rest c (ground arith))

    -- The search starts over at the head.
    from_null : (k : ℕ) → p ≢ null → turn_loop F k p start null ps ≡ turn_loop F k p start p ps
    unfolding turn_loop
    from_null zero np = refl
    from_null (suc k) np = ground arith

  search_wraps :
      (fuel : ℕ) (p start : Ptr) (before after : List Ptr) (r : Ptr)
      → NextTo (before ++ (start ∷ after)) null
      → distinct (before ++ (start ∷ after)) ≡ true
      → first (before ++ (start ∷ after)) null ≡ p
      → length (before ++ (start ∷ after)) ≤ fuel
      → or_else (first_runnable (start ∷ after)) (first_runnable before) ≡ some r
      → turn_loop F fuel p start start ps ≡ found r
  search_wraps fuel p start [] after r c d e le h =
      let (some_case, none_case) = walk_end p start fuel start after c (ground arith) c.0 in
      some_case r (or_none (first_runnable (start ∷ after)) h) le
    where
      or_none : (o : Option Ptr) → or_else o none ≡ some r → o ≡ some r
      or_none none q = q
      or_none (some a) q = q
  search_wraps fuel p start (b ∷ bs) after r c d e le h =
      let (front, back) = NextTo-split (b ∷ bs) start after null c in
      let back_distinct = distinct_right (b ∷ bs) (start ∷ after) d in
      let m = length-append (b ∷ bs) (start ∷ after) in
      let (some_case, none_case) = walk_end p start fuel start after back (ground arith) back.0 in
      elim (Option-cases (first_runnable (start ∷ after))) [
        | inl none_behind ↦
            none_case none_behind (fuel - length (start ∷ after)) (omega arith)
            ∙ from_null p start (fuel - length (start ∷ after)) (λ z. front.0 (e ∙ z))
            ∙ ap (λ (q : Ptr). turn_loop F (fuel - length (start ∷ after)) p start q ps) (sym e)
            ∙ walk_to p start (fuel - length (start ∷ after)) b bs front
                (start_out bs (distinct_apart (b ∷ bs) (start ∷ after) start d)) (omega arith)
            ∙ ap (λ (o : Option Ptr). elim o [ none ↦ not_found | some q ↦ found q ])
                (rw none_behind at h)
        | inr (q, found_behind) ↦ some_case r (found_behind ∙ (rw found_behind at h)) (omega arith)
      ]
    where
      start_out :
          (zs : List Ptr)
          → (has start (b ∷ zs) ≡ true → has start (start ∷ after) ≡ false)
          → has start zs ≡ false
      start_out zs apart = ground arith

  -- The thread that `scheduler` runs for a process is the first runnable one in the order that starts
  -- at its `turn`, goes to the end of the list of threads and on from the head: whenever some thread
  -- of the list is runnable, the search ends and finds it.
  pub turn_loop_lem :
      (fuel : ℕ) (p start : Ptr) (before after : List Ptr) (r : Ptr)
      → NextTo (before ++ (start ∷ after)) null
      → distinct (before ++ (start ∷ after)) ≡ true
      → first (before ++ (start ∷ after)) null ≡ p
      → length (before ++ (start ∷ after)) ≤ fuel
      → first_runnable ((start ∷ after) ++ before) ≡ some r
      → turn_loop F fuel p start start ps ≡ found r
  turn_loop_lem fuel p start before after r c d e le h =
      search_wraps fuel p start before after r c d e le
        (sym (first_runnable-append (start ∷ after) before) ∙ h)

  hang_from :
      (p : Ptr) (after : List Ptr)
      → NextTo (p ∷ after) null
      → has p after ≡ false
      → first_runnable (p ∷ after) ≡ none
      → (fuel : ℕ) (q : Ptr) (rest : List Ptr) → NextTo (q ∷ rest) null
      → has p rest ≡ false
      → first_runnable (q ∷ rest) ≡ none
      → turn_loop F fuel p p q ps ≡ out_of_fuel
  unfolding turn_loop
  hang_from p after c out h zero q rest cq oq hq = refl
  hang_from p after c out h (suc k) q [] cq oq hq =
      ground (arith, from_null p p k c.0, hang_from p after c out h k p after c out h)
  hang_from p after c out h (suc k) q (x ∷ rest) cq oq hq =
      let ih = hang_from p after c out h k x rest cq.2 (ground arith) (ground arith) in
      ground (arith, ih)

  -- When the turn is at the head of the list and no thread is runnable, the search never ends, however
  -- many rounds it is given.
  pub turn_loop-hangs :
      (fuel : ℕ) (p : Ptr) (after : List Ptr)
      → NextTo (p ∷ after) null
      → distinct (p ∷ after) ≡ true
      → first_runnable (p ∷ after) ≡ none
      → turn_loop F fuel p p p ps ≡ out_of_fuel
  turn_loop-hangs fuel p after c d h =
      hang_from p after c (ground arith) h fuel p after c (ground arith) h
