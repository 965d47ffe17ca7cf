-- ===== src/Mlfq/Boost.antt =====
-- `priorityboost`: the headers 1 and 2 move behind all nodes, and a walk resets the nodes.
use hyu_ele.Mlfq.Chain
use hyu_ele.Mlfq.Chain.{Chain, first}
use hyu_ele.Prelude.{
  fun_ext, sym, Bool, zero, suc, not, ◌&&◌, ◌||◌, ◌≤◌, length, ℕ, ◌≡◌, ◌≢◌, refl, ◌∙◌, ap, List, [],
  ◌∷◌, ◌++◌, arith, true, false, ◌==◌, Bool-cases, inl, inr, if◌then◌else◌,
}
use mathlib.Core.List.{append_assoc}
use hyu_ele.Prelude.Maps.{has, has-append, distinct, update}
use hyu_ele.Mlfq.{
  Ptr, null, MlfqNode, Nodes, Queue, header, is_used, MlfqNode, slab_end, boost_walk, boost_header,
  priority_boost,
}
use hyu_ele.Mlfq.Links.{IsList}
use hyu_ele.Mlfq.Links.Remove.{move-IsList}
use hyu_ele.Mlfq.Fields.{SameData, SameData-trans, IsList-same}
use hyu_ele.Mlfq.Levels.{levels, OnLevel, Holds, move_before, move_before-SameData}

-- What the walk makes of a node.
pub boosted : MlfqNode → MlfqNode
boosted n =
    if is_used n.state && not (n.level == 1) then record n { level = 0; exec_time = 0 } else n

boosted_links : (n : MlfqNode) → ((boosted n).next ≡ n.next) × ((boosted n).prev ≡ n.prev)
unfolding boosted
boosted_links n = ground arith

boosted-marked : (n : MlfqNode) → n.state ≡ header → (boosted n).state ≡ header
unfolding boosted
boosted-marked n e = ground arith

abbrev walked : Nodes → Ptr → Nodes
walked f m = update f m (boosted (f m))

eq_refl : (m : Ptr) → (m == m) ≡ true
eq_refl m = ground arith

update_self : (f : Nodes) (m : Ptr) → update f m (f m) ≡ f
update_self f m =
    fun_ext λ x. elim (Bool-cases (x == m)) [ inl e ↦ rw e (ap f (ground arith)) | inr e ↦ rw e ]

walked-eq :
    (b : Bool) (f : Nodes) (m : Ptr) (n : MlfqNode)
    → (if b then update f m n else f) ≡ update f m (if b then n else f m)
walked-eq true f m n = refl
walked-eq false f m n = sym (update_self f m)

next-walked : (f : Nodes) (m : Ptr) → (walked f m m).next ≡ (f m).next
next-walked f m = ground (arith, boosted_links (f m))

boost_walk-suc :
    (k : ℕ) (m : Ptr) (f : Nodes)
    → m ≢ null
    → boost_walk (suc k) m f ≡ boost_walk k (f m).next (walked f m)
unfolding boost_walk boosted
boost_walk-suc k m f ne =
    let g : (if is_used (f m).state && not ((f m).level == 1)
          then update f m (record (f m) { level = 0; exec_time = 0 })
          else f)
        ≡ walked f m =
      walked-eq (is_used (f m).state && not ((f m).level == 1)) f m
        (record (f m) { level = 0; exec_time = 0 }) in
    let not_null : (m == null) ≡ false = ground arith in rw (not_null, g, next-walked f m)

boost_walk-null : (k : ℕ) (f : Nodes) → boost_walk k null f ≡ f
unfolding boost_walk
boost_walk-null zero f = refl
boost_walk-null (suc k) f = refl

next_first :
    (f : Nodes) (y : Ptr) (ys : List Ptr)
    → y ≢ null
    → Chain f y ys null
    → (f y).next ≡ first ys null
next_first f y [] ne c = c.forth ne
next_first f y (z ∷ zs) ne c = c.0.forth ne

walk_cons :
    (f : Nodes) (y : Ptr) (ys : List Ptr) (x : Ptr)
    → has y ys ≡ false
    → (if has x ys then boosted (walked f y x) else walked f y x)
      ≡ (if has x (y ∷ ys) then boosted (f x) else f x)
walk_cons f y ys x out = elim (Bool-cases (x == y)) [
  | inl e ↦ let same : x ≡ y = ground arith in rw (same, out, eq_refl y) refl
  | inr e ↦ rw e
]

-- With enough rounds the walk visits the nodes of the list, and no others.
boost_walk-eq :
    (k : ℕ) (f : Nodes) (a : Ptr) (xs : List Ptr)
    → Chain f a xs null
    → distinct (null ∷ xs) ≡ true
    → length xs ≤ k
    → (x : Ptr) → boost_walk k (first xs null) f x ≡ (if has x xs then boosted (f x) else f x)
boost_walk-eq k f a [] c d le x = rw (boost_walk-null k f)
boost_walk-eq zero f a (y ∷ ys) c d le x = absurd (omega arith)
boost_walk-eq (suc k) f a (y ∷ ys) c d le x =
    let tail : Chain (walked f y) y ys null =
      Chain.frame f (walked f y) y ys null (λ _. next-walked f y) (λ h. absurd (h refl))
        (λ z h. (ground (arith, boosted_links (f y)), ground (arith, boosted_links (f y)))) c.1 in
    let ny : y ≢ null = λ e. ground arith in
    let step : boost_walk (suc k) y f ≡ boost_walk k (first ys null) (walked f y) =
      boost_walk-suc k y f ny ∙ ap (λ p. boost_walk k p (walked f y)) (next_first f y ys ny c.1) in
    rw (step, boost_walk-eq k (walked f y) y ys tail (ground arith) (omega arith) x)
      (walk_cons f y ys x (ground arith))

-- All nodes behind the first header, and the other headers at the end.
abbrev pub gathering : (ℕ → Ptr) → List Ptr → List Ptr → List Ptr → List Ptr
gathering h a b c = h 0 ∷ (a ++ (b ++ (c ++ (h 1 ∷ h 2 ∷ h 3 ∷ []))))

-- The state that `priorityboost` leaves: all nodes of the three levels stand between the first and
-- the second header; those of the levels 0 and 2 restart at level 0, and those of level 1 keep
-- their level and their time.
module _ (q : Queue) (a b c : List Ptr) (h : Holds q (levels a b c)) where
  abbrev h0 : Ptr
  h0 = q.headers 0

  abbrev h1 : Ptr
  h1 = q.headers 1

  abbrev h2 : Ptr
  h2 = q.headers 2

  abbrev h3 : Ptr
  h3 = q.headers 3

  abbrev gathered : List Ptr
  gathered = gathering q.headers a b c

  abbrev relinked : Nodes
  relinked = move_before h2 h1 (move_before h3 h2 q.nodes)

  relinked-IsList : IsList relinked gathered
  relinked-IsList =
      let first_move =
        move-IsList q.nodes (h0 ∷ (a ++ (h1 ∷ b))) h2 c h3 [] (simp append_assoc h.list) in
      simp append_assoc at (
        move-IsList (move_before h3 h2 q.nodes) (h0 ∷ a) h1 (b ++ c) h2 (h3 ∷ [])
          (simp append_assoc (simp append_assoc at first_move)))

  relinked-SameData : SameData q.nodes relinked
  relinked-SameData =
      SameData-trans (move_before-SameData h3 h2 q.nodes)
        (move_before-SameData h2 h1 (move_before h3 h2 q.nodes))

  priority_boost-nodes : (priority_boost q).nodes ≡ boost_walk slab_end h0 relinked
  unfolding priority_boost boost_header
  priority_boost-nodes = let ne : (h0 == null) ≡ false = ground arith in rw ne

  module _ (fits : length gathered ≤ slab_end) where
    after :
        (x : Ptr)
        → (priority_boost q).nodes x ≡ (if has x gathered then boosted (relinked x) else relinked x)
    after x =
        ap (λ (g : Nodes). g x) priority_boost-nodes
        ∙ boost_walk-eq slab_end relinked null gathered relinked-IsList.chain
            relinked-IsList.no_repeat fits x

    -- A node of level `i` that is not 1 restarts at level 0.
    reset :
        (i : ℕ) (xs : List Ptr)
        → i ≢ 1
        → ((x : Ptr) → has x xs ≡ true → has x gathered ≡ true)
        → OnLevel q.nodes i xs
        → OnLevel (priority_boost q).nodes 0 xs
    unfolding boosted
    reset i [] ne sub on = tt
    reset i (x ∷ xs) ne sub (lv, st, on) =
        let s = relinked-SameData in
        let there = sub x (ground arith) in
        (
          ground (arith, after x, s.level x, s.state x),
          ground (arith, after x, s.level x, s.state x),
          reset i xs ne (λ y k. sub y (ground arith)) on,
        )

    keep :
        (xs : List Ptr)
        → ((x : Ptr) → has x xs ≡ true → has x gathered ≡ true)
        → OnLevel q.nodes 1 xs
        → OnLevel (priority_boost q).nodes 1 xs
    unfolding boosted
    keep [] sub on = tt
    keep (x ∷ xs) sub (lv, st, on) =
        let s = relinked-SameData in
        (
          ground (arith, after x, s.level x, s.state x),
          ground (arith, after x, s.level x, s.state x),
          keep xs (λ y k. sub y (ground arith)) on,
        )

    all_links :
        (x : Ptr)
        → has x gathered ≡ true
        → (((priority_boost q).nodes x).next ≡ (relinked x).next)
          × (((priority_boost q).nodes x).prev ≡ (relinked x).prev)
    all_links x k = ground (arith, after x, boosted_links (relinked x))

    has-gathered : (x : Ptr) → (has x a || (has x b || has x c)) ≡ true → has x gathered ≡ true
    has-gathered x k = ground (
      arith,
      has-append x a (b ++ (c ++ (h1 ∷ h2 ∷ h3 ∷ []))),
      has-append x b (c ++ (h1 ∷ h2 ∷ h3 ∷ [])),
      has-append x c (h1 ∷ h2 ∷ h3 ∷ []),
    )

    -- On a queue whose nodes carry the number of the level they stand on, and which is no longer than the
    -- slab, `priorityboost` gathers all nodes between the first two headers, in the order of the levels; those of
    -- the levels 0 and 2 get level 0, and those of level 1 keep level 1.
    pub priority_boost_lem :
        IsList (priority_boost q).nodes gathered
        × OnLevel (priority_boost q).nodes 0 a
        × OnLevel (priority_boost q).nodes 1 b
        × OnLevel (priority_boost q).nodes 0 c
    priority_boost_lem = (
      IsList-same relinked (priority_boost q).nodes gathered all_links relinked-IsList,
      reset 0 a (λ e. cc) (λ x k. has-gathered x (ground arith)) h.on0,
      keep b (λ x k. has-gathered x (ground arith)) h.on1,
      reset 2 c (λ e. cc) (λ x k. has-gathered x (ground arith)) h.on2,
    )
