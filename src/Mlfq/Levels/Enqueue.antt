-- ===== src/Mlfq/Levels/Enqueue.antt =====
-- A process enters the queue: `allocmlfqnode`, and `insertafter` behind the first header.
use hyu_ele.Prelude.{
  ℕ, ◌+◌, ◌<◌, ◌≤◌, zero, suc, ◌⊎◌, ◌≡◌, ◌≢◌, refl, ◌∙◌, ap, List, [], ◌∷◌, ◌++◌, arith, false,
  ◌==◌, Bool-cases, inl, inr,
}
use hyu_ele.Prelude.Maps.{has, has-append, ne_of_has}
use hyu_ele.Mlfq.{
  Ptr, MlfqNode, Nodes, Queue, used, is_unused, unused, nproc, insert_after, slab_end, find_unused,
  alloc_mlfq_node, enqueue, insert_after,
}
use hyu_ele.Mlfq.Links.{IsList, insert_after-IsList}
use hyu_ele.Mlfq.Fields.{insert_after-SameData, IsList-same}
use hyu_ele.Mlfq.Levels.{Levels, layout, OnLevel, Holds, OnLevel-same}

-- `allocmlfqnode` takes the first unused node at or behind `m`, or runs off the end of the slab.
pub find_unused_lem :
    (k : ℕ) (m : Ptr) (f : Nodes)
    → ((f (find_unused k m f)).state ≡ unused)
        × (m ≤ find_unused k m f)
        × (find_unused k m f < m + k)
      ⊎ (find_unused k m f ≡ m + k) × ((x : Ptr) → m ≤ x → x < m + k → (f x).state ≢ unused)
unfolding find_unused
find_unused_lem zero m f = inr (omega arith, λ x a b. absurd (omega arith))
find_unused_lem (suc k) m f = elim (Bool-cases (is_unused (f m).state)) [
  | inl free ↦ rw free (inl (ground arith, omega arith, omega arith))
  | inr taken ↦ rw taken (elim (find_unused_lem k (suc m) f) [
    | inl (s, a, b) ↦ inl (s, omega arith, omega arith)
    | inr (e, none_free) ↦ inr (
      omega arith,
      λ x a b. elim (Bool-cases (x == m)) [
        | inl here ↦ λ u. ground arith
        | inr there ↦ none_free x (ground arith) (omega arith)
      ],
    )
  ])
]

abbrev pub slot : Queue → Ptr
slot q = find_unused (nproc + 4) 1 q.nodes

module _ (q : Queue) (l : Levels) where
  used-OnLevel :
      (f : Nodes) (m : Ptr) (i : ℕ) (xs : List Ptr)
      → (f m).state ≡ unused
      → OnLevel f i xs
      → has m xs ≡ false
  used-OnLevel f m i [] u on = refl
  used-OnLevel f m i (x ∷ xs) u (lv, st, on) = ground (arith, used-OnLevel f m i xs u on)

  -- An unused node stands nowhere in the list.
  fresh : (m : Ptr) → (q.nodes m).state ≡ unused → Holds q l → has m (layout q.headers l) ≡ false
  fresh m u h = ground (
    arith,
    used-OnLevel q.nodes m 0 l.l0 u h.on0,
    used-OnLevel q.nodes m 1 l.l1 u h.on1,
    used-OnLevel q.nodes m 2 l.l2 u h.on2,
    h.marked 0,
    h.marked 1,
    h.marked 2,
    h.marked 3,
    has-append m l.l0 (q.headers 1 ∷ (l.l1 ++ (q.headers 2 ∷ (l.l2 ++ (q.headers 3 ∷ []))))),
    has-append m l.l1 (q.headers 2 ∷ (l.l2 ++ (q.headers 3 ∷ []))),
    has-append m l.l2 (q.headers 3 ∷ []),
  )

  -- Where some node is unused, `allocmlfqnode` finds one in the slab.
  slot-unused :
      (x : Ptr)
      → 1 ≤ x
      → x < slab_end
      → (q.nodes x).state ≡ unused
      → ((q.nodes (slot q)).state ≡ unused) × (1 ≤ slot q) × (slot q < slab_end)
  slot-unused x a b u = elim (find_unused_lem (nproc + 4) 1 q.nodes) [
    | inl (s, c, d) ↦ (s, c, omega arith)
    | inr (e, none_free) ↦ absurd (none_free x a (omega arith) u)
  ]

  abbrev entered : Ptr → Nodes
  entered p = (alloc_mlfq_node p q).1.nodes

  entered-other : (p x : Ptr) → x ≢ slot q → entered p x ≡ q.nodes x
  unfolding alloc_mlfq_node
  entered-other p x ne = ground arith

  entered-slot :
      (p : Ptr)
      → ((entered p (slot q)).level ≡ 0)
        × ((entered p (slot q)).state ≡ used)
        × ((entered p (slot q)).self ≡ p)
  unfolding alloc_mlfq_node
  entered-slot p = ground arith

  entered-OnLevel :
      (p : Ptr) (i : ℕ) (xs : List Ptr)
      → has (slot q) xs ≡ false
      → OnLevel q.nodes i xs
      → OnLevel (insert_after (q.headers 0) (slot q) (entered p)) i xs
  entered-OnLevel p i xs out on =
      let d = insert_after-SameData (q.headers 0) (slot q) (entered p) in
      OnLevel-same q.nodes (insert_after (q.headers 0) (slot q) (entered p)) i xs
        (λ x h.
          let e = entered-other p x (ne_of_has x (slot q) xs h out) in
          (
            d.level x ∙ ap (λ (n : MlfqNode). n.level) e,
            d.state x ∙ ap (λ (n : MlfqNode). n.state) e,
          ))
        on

  entered-IsList :
      (p : Ptr)
      → (q.nodes (slot q)).state ≡ unused
      → Holds q l
      → IsList (entered p) (layout q.headers l)
  entered-IsList p u h =
      IsList-same q.nodes (entered p) (layout q.headers l)
        (λ x k.
          let e =
            entered-other p x (ne_of_has x (slot q) (layout q.headers l) k (fresh (slot q) u h)) in
          (ap (λ (n : MlfqNode). n.next) e, ap (λ (n : MlfqNode). n.prev) e))
        h.list

  enqueue_lem : (p : Ptr) → (enqueue p q).nodes ≡ insert_after (q.headers 0) (slot q) (entered p)
  unfolding enqueue alloc_mlfq_node
  enqueue_lem p = refl

  enqueue-headers : (p : Ptr) → (enqueue p q).headers ≡ q.headers
  unfolding enqueue alloc_mlfq_node
  enqueue-headers p = refl

  -- A process that enters the queue is given an unused node of the slab, which becomes the first of
  -- level 0; all other nodes keep their places and levels, and the process points at its node.
  pub enqueue-Holds :
      (p x : Ptr)
      → Holds q l
      → 1 ≤ x
      → x < slab_end
      → (q.nodes x).state ≡ unused
      → Holds (enqueue p q) (record l { l0 = slot q ∷ l.l0 })
        × ((enqueue p q).mnode p ≡ slot q)
        × (((enqueue p q).nodes (slot q)).self ≡ p)
  unfolding enqueue alloc_mlfq_node
  enqueue-Holds p x h a b u =
      let (su, lo, hi) = slot-unused x a b u in
      let out = fresh (slot q) su h in
      let d = insert_after-SameData (q.headers 0) (slot q) (entered p) in
      let parts = out_parts out in
      (
        record {
          list =
              insert_after-IsList (entered p) [] (q.headers 0)
                (l.l0 ++ (q.headers 1 ∷ (l.l1 ++ (q.headers 2 ∷ (l.l2 ++ (q.headers 3 ∷ []))))))
                (slot q) (λ e. absurd (omega arith)) out (entered-IsList p su h);
          on0 = (
            d.level (slot q) ∙ (entered-slot p).0,
            d.state (slot q) ∙ (entered-slot p).1,
            entered-OnLevel p 0 l.l0 parts.0 h.on0,
          );
          on1 = entered-OnLevel p 1 l.l1 parts.1 h.on1;
          on2 = entered-OnLevel p 2 l.l2 parts.2 h.on2;
          marked = λ i lt.
              d.state (q.headers i)
              ∙ ap (λ (n : MlfqNode). n.state)
                  (entered-other p (q.headers i) (λ e. ground (arith, h.marked i lt)))
              ∙ h.marked i lt;
        },
        ground arith,
        d.self (slot q) ∙ (entered-slot p).2,
      )
    where
      out_parts :
          has (slot q) (layout q.headers l) ≡ false
          → (has (slot q) l.l0 ≡ false) × (has (slot q) l.l1 ≡ false) × (has (slot q) l.l2 ≡ false)
      out_parts out = ground (
        arith,
        has-append (slot q) l.l0
            (q.headers 1 ∷ (l.l1 ++ (q.headers 2 ∷ (l.l2 ++ (q.headers 3 ∷ []))))),
        has-append (slot q) l.l1 (q.headers 2 ∷ (l.l2 ++ (q.headers 3 ∷ []))),
        has-append (slot q) l.l2 (q.headers 3 ∷ []),
      )
