-- ===== src/Mlfq/Levels/Requeue.antt =====
-- The end of a time slice: `scheduler` sends the node to the end of its own level.
use hyu_ele.Prelude.{ℕ, ◌+◌, ◌<◌, ◌≡◌, ◌∙◌, ap, List, [], ◌∷◌, ◌++◌}
use mathlib.Core.List.{append_assoc}
use hyu_ele.Mlfq.{Ptr, Nodes, Queue, header, requeue, insert_before, remove}
use hyu_ele.Mlfq.Links.Remove.{move-IsList}
use hyu_ele.Mlfq.Fields.{remove-SameData}
use hyu_ele.Mlfq.Levels.{
  Levels, levels, OnLevel, Holds, OnLevel-append, OnLevel-split, OnLevel-same, move_before,
  move_before-SameData,
}

-- `m` goes to the end of its level.
pub data Rotate (m : Ptr) : Levels → Levels → Type 0 where
  in0 :
      (a b l1 l2 : List Ptr)
      → Rotate m (levels (a ++ (m ∷ b)) l1 l2) (levels (a ++ (b ++ (m ∷ []))) l1 l2)
  in1 :
      (l0 a b l2 : List Ptr)
      → Rotate m (levels l0 (a ++ (m ∷ b)) l2) (levels l0 (a ++ (b ++ (m ∷ []))) l2)
  in2 :
      (l0 l1 a b : List Ptr)
      → Rotate m (levels l0 l1 (a ++ (m ∷ b))) (levels l0 l1 (a ++ (b ++ (m ∷ []))))

requeue_lem :
    (m : Ptr) (q : Queue) (i : ℕ)
    → (q.nodes m).level ≡ i
    → requeue m q ≡ record q { nodes = move_before (q.headers (i + 1)) m q.nodes }
unfolding requeue
requeue_lem m q i e =
    let d : (remove m q.nodes m).level ≡ i = (remove-SameData m q.nodes).level m ∙ e in
    ap (λ (k : ℕ). record q { nodes = insert_before (q.headers (k + 1)) m (remove m q.nodes) }) d

module _ (q : Queue) (m : Ptr) where
  OnLevel-moved :
      (h : Ptr) (i : ℕ) (xs : List Ptr)
      → OnLevel q.nodes i xs
      → OnLevel (move_before h m q.nodes) i xs
  OnLevel-moved h i xs on =
      let d = move_before-SameData h m q.nodes in
      OnLevel-same q.nodes (move_before h m q.nodes) i xs (λ x _. (d.level x, d.state x)) on

  -- The level in which `m` stands has the same nodes, and so the same numbers.
  OnLevel-rotate :
      (f : Nodes) (i : ℕ) (a b : List Ptr)
      → OnLevel f i (a ++ (m ∷ b))
      → OnLevel f i (a ++ (b ++ (m ∷ [])))
  OnLevel-rotate f i a b on =
      let (on_a, on_m) = OnLevel-split f i a (m ∷ b) on in
      OnLevel-append f i a (b ++ (m ∷ [])) on_a
        (OnLevel-append f i b (m ∷ []) on_m.2 (on_m.0, on_m.1, tt))

  moved_marked :
      (h : Ptr)
      → ((i : ℕ) → i < 4 → (q.nodes (q.headers i)).state ≡ header)
      → (i : ℕ) → i < 4
      → (move_before h m q.nodes (q.headers i)).state ≡ header
  moved_marked h mk i lt = (move_before-SameData h m q.nodes).state (q.headers i) ∙ mk i lt

  level-of : (f : Nodes) (i : ℕ) (a b : List Ptr) → OnLevel f i (a ++ (m ∷ b)) → (f m).level ≡ i
  level-of f i a b on = (OnLevel-split f i a (m ∷ b) on).1.0

  -- `remove` and `insertBefore` in front of the next header send a node to the end of its own level:
  -- the order of all others, the levels and the links are kept.
  pub requeue-Holds : {l l' : Levels} → Rotate m l l' → Holds q l → Holds (requeue m q) l'
  requeue-Holds (in0 a b l1 l2) h =
      let t = q.headers 1 in
      let rest = l1 ++ (q.headers 2 ∷ (l2 ++ (q.headers 3 ∷ []))) in
      rw (requeue_lem m q 0 (level-of q.nodes 0 a b h.on0)) (record {
        list =
            simp append_assoc
              (move-IsList q.nodes (q.headers 0 ∷ a) m b t rest (simp append_assoc at h.list));
        on0 =
            OnLevel-rotate (move_before t m q.nodes) 0 a b (OnLevel-moved t 0 (a ++ (m ∷ b)) h.on0);
        on1 = OnLevel-moved t 1 l1 h.on1;
        on2 = OnLevel-moved t 2 l2 h.on2;
        marked = moved_marked t h.marked;
      })
  requeue-Holds (in1 l0 a b l2) h =
      let t = q.headers 2 in
      rw (requeue_lem m q 1 (level-of q.nodes 1 a b h.on1)) (record {
        list = simp append_assoc (
            simp append_assoc at (
              move-IsList q.nodes (q.headers 0 ∷ (l0 ++ (q.headers 1 ∷ a))) m b t
                (l2 ++ (q.headers 3 ∷ [])) (simp append_assoc (simp append_assoc at h.list))));
        on0 = OnLevel-moved t 0 l0 h.on0;
        on1 =
            OnLevel-rotate (move_before t m q.nodes) 1 a b (OnLevel-moved t 1 (a ++ (m ∷ b)) h.on1);
        on2 = OnLevel-moved t 2 l2 h.on2;
        marked = moved_marked t h.marked;
      })
  requeue-Holds (in2 l0 l1 a b) h =
      let t = q.headers 3 in
      rw (requeue_lem m q 2 (level-of q.nodes 2 a b h.on2)) (record {
        list = simp append_assoc (
            simp append_assoc at (
              move-IsList q.nodes (q.headers 0 ∷ (l0 ++ (q.headers 1 ∷ (l1 ++ (q.headers 2 ∷ a)))))
                m b t [] (simp append_assoc (simp append_assoc at h.list))));
        on0 = OnLevel-moved t 0 l0 h.on0;
        on1 = OnLevel-moved t 1 l1 h.on1;
        on2 =
            OnLevel-rotate (move_before t m q.nodes) 2 a b (OnLevel-moved t 2 (a ++ (m ∷ b)) h.on2);
        marked = moved_marked t h.marked;
      })
