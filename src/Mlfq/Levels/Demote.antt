-- ===== src/Mlfq/Levels/Demote.antt =====
-- `lowerlevel` moves a node to the end of the next level.
use hyu_ele.Prelude.{ℕ, ◌+◌, ◌<◌, ◌≡◌, ◌≢◌, List, [], ◌∷◌, ◌++◌, arith, false}
use mathlib.Core.List.{append_assoc}
use hyu_ele.Prelude.Maps.{has, has-append, update}
use hyu_ele.Mlfq.{Ptr, Nodes, Queue, used, header, lower_level}
use hyu_ele.Mlfq.Links.{IsList}
use hyu_ele.Mlfq.Links.Remove.{move-IsList, outside}
use hyu_ele.Mlfq.Fields.{IsList-same}
use hyu_ele.Mlfq.Levels.{
  Levels, levels, OnLevel, Holds, OnLevel-append, OnLevel-split, OnLevel-other, move_before,
  move_before-SameData,
}

-- `m` goes to the end of the next lower level; at the lowest it stays where it is.
pub data Demote (m : Ptr) : Levels → Levels → Type 0 where
  from0 :
      (a b l1 l2 : List Ptr)
      → Demote m (levels (a ++ (m ∷ b)) l1 l2) (levels (a ++ b) (l1 ++ (m ∷ [])) l2)
  from1 :
      (l0 a b l2 : List Ptr)
      → Demote m (levels l0 (a ++ (m ∷ b)) l2) (levels l0 (a ++ b) (l2 ++ (m ∷ [])))
  from2 :
      (l0 l1 a b : List Ptr) → Demote m (levels l0 l1 (a ++ (m ∷ b))) (levels l0 l1 (a ++ (m ∷ b)))

-- What `lowerlevel` does above the lowest level.
pub lower_level_lem :
    (m : Ptr) (q : Queue) (i : ℕ)
    → (q.nodes m).level ≡ i
    → i ≢ 2
    → let g = move_before (q.headers (i + 2)) m q.nodes in
      lower_level m q ≡ record q { nodes = update g m (record (g m) { level = (g m).level + 1 }) }
unfolding lower_level
lower_level_lem m q i e ne = ground arith

module _ (q : Queue) (m : Ptr) where
  abbrev lowered : Ptr → Nodes
  lowered h =
      let g = move_before h m q.nodes in update g m (record (g m) { level = (g m).level + 1 })

  lowered-IsList :
      (h : Ptr) (xs : List Ptr) → IsList (move_before h m q.nodes) xs → IsList (lowered h) xs
  lowered-IsList h xs is =
      IsList-same (move_before h m q.nodes) (lowered h) xs (λ x _. ground arith) is

  lowered-OnLevel :
      (h : Ptr) (i : ℕ) (xs : List Ptr)
      → has m xs ≡ false
      → OnLevel q.nodes i xs
      → OnLevel (lowered h) i xs
  lowered-OnLevel h i xs out on =
      OnLevel-other q.nodes _ m i xs (move_before-SameData h m q.nodes) _ out on

  lowered-new :
      (h : Ptr) (i : ℕ)
      → (q.nodes m).level ≡ i
      → (q.nodes m).state ≡ used
      → OnLevel (lowered h) (i + 1) (m ∷ [])
  lowered-new h i e s =
      let d = move_before-SameData h m q.nodes in
      (ground (arith, d.level m), ground (arith, d.state m), tt)

  lowered-marked :
      (h : Ptr)
      → ((i : ℕ) → i < 4 → (q.nodes (q.headers i)).state ≡ header)
      → (i : ℕ) → i < 4
      → (lowered h (q.headers i)).state ≡ header
  lowered-marked h mk i lt =
      let d = move_before-SameData h m q.nodes in
      ground (arith, d.state (q.headers i), d.state m, mk i lt)

  demote0 :
      (a b l1 l2 : List Ptr)
      → Holds q (levels (a ++ (m ∷ b)) l1 l2)
      → Holds (lower_level m q) (levels (a ++ b) (l1 ++ (m ∷ [])) l2)
  demote0 a b l1 l2 h =
      let (on_a, on_m) = OnLevel-split q.nodes 0 a (m ∷ b) h.on0 in
      let t = q.headers 2 in
      let mid = b ++ (q.headers 1 ∷ l1) in
      let rest = l2 ++ (q.headers 3 ∷ []) in
      let before : IsList q.nodes ((q.headers 0 ∷ a) ++ (m ∷ (mid ++ (t ∷ rest)))) =
        simp append_assoc (simp append_assoc at h.list) in
      let after = move-IsList q.nodes (q.headers 0 ∷ a) m mid t rest before in
      let (out_a, out_mid, out_rest) = outside q.nodes (q.headers 0 ∷ a) m mid (t ∷ rest) before in
      rw (lower_level_lem m q 0 on_m.0 (λ e. cc)) (record {
        list = simp append_assoc (simp append_assoc at (lowered-IsList t _ after));
        on0 =
            lowered-OnLevel t 0 (a ++ b)
              (ground (arith, has-append m a b, has-append m b (q.headers 1 ∷ l1)))
              (OnLevel-append q.nodes 0 a b on_a on_m.2);
        on1 =
            OnLevel-append (lowered t) 1 l1 (m ∷ [])
              (lowered-OnLevel t 1 l1 (ground (arith, has-append m b (q.headers 1 ∷ l1))) h.on1)
              (lowered-new t 0 on_m.0 on_m.1);
        on2 = lowered-OnLevel t 2 l2 (ground (arith, has-append m l2 (q.headers 3 ∷ []))) h.on2;
        marked = lowered-marked t h.marked;
      })

  demote1 :
      (l0 a b l2 : List Ptr)
      → Holds q (levels l0 (a ++ (m ∷ b)) l2)
      → Holds (lower_level m q) (levels l0 (a ++ b) (l2 ++ (m ∷ [])))
  demote1 l0 a b l2 h =
      let (on_a, on_m) = OnLevel-split q.nodes 1 a (m ∷ b) h.on1 in
      let t = q.headers 3 in
      let front = q.headers 0 ∷ (l0 ++ (q.headers 1 ∷ a)) in
      let mid = b ++ (q.headers 2 ∷ l2) in
      let before : IsList q.nodes (front ++ (m ∷ (mid ++ (t ∷ [])))) =
        simp append_assoc (simp append_assoc at h.list) in
      let after = move-IsList q.nodes front m mid t [] before in
      let (out_a, out_mid, out_rest) = outside q.nodes front m mid (t ∷ []) before in
      rw (lower_level_lem m q 1 on_m.0 (λ e. cc)) (record {
        list = simp append_assoc (simp append_assoc at (lowered-IsList t _ after));
        on0 = lowered-OnLevel t 0 l0 (ground (arith, has-append m l0 (q.headers 1 ∷ a))) h.on0;
        on1 =
            lowered-OnLevel t 1 (a ++ b)
              (ground (
                arith,
                has-append m a b,
                has-append m l0 (q.headers 1 ∷ a),
                has-append m b (q.headers 2 ∷ l2),
              ))
              (OnLevel-append q.nodes 1 a b on_a on_m.2);
        on2 =
            OnLevel-append (lowered t) 2 l2 (m ∷ [])
              (lowered-OnLevel t 2 l2 (ground (arith, has-append m b (q.headers 2 ∷ l2))) h.on2)
              (lowered-new t 1 on_m.0 on_m.1);
        marked = lowered-marked t h.marked;
      })

  -- At the lowest level `lowerlevel` returns at once.
  demote2 :
      (l0 l1 a b : List Ptr)
      → Holds q (levels l0 l1 (a ++ (m ∷ b)))
      → Holds (lower_level m q) (levels l0 l1 (a ++ (m ∷ b)))
  unfolding lower_level
  demote2 l0 l1 a b h =
      let (on_a, on_m) = OnLevel-split q.nodes 2 a (m ∷ b) h.on2 in
      let stays : lower_level m q ≡ q = ground arith in rw stays h

  -- On a queue whose nodes carry the number of the level they stand on, `lowerlevel` moves a node
  -- from anywhere in its level to the end of the next level, and the lowest level keeps its nodes;
  -- the list stays well linked and the level numbers stay right.
  pub lower_level-Holds : {l l' : Levels} → Demote m l l' → Holds q l → Holds (lower_level m q) l'
  lower_level-Holds (from0 a b l1 l2) h = demote0 a b l1 l2 h
  lower_level-Holds (from1 l0 a b l2) h = demote1 l0 a b l2 h
  lower_level-Holds (from2 l0 l1 a b) h = demote2 l0 l1 a b h
