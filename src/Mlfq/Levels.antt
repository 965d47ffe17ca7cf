-- ===== src/Mlfq/Levels.antt =====
-- The three levels between the headers.
pub mod Demote
pub mod Requeue
pub mod Enqueue
pub mod Init
use hyu_ele.Prelude.{
  ℕ, ◌+◌, ◌<◌, ◌≡◌, ◌≢◌, refl, ◌∙◌, ap, List, [], ◌∷◌, ◌++◌, arith, true, false, ◌==◌, Bool-cases,
  inl, inr, if◌then◌else◌,
}
use mathlib.Core.List.{append_assoc}
use hyu_ele.Prelude.Maps.{has, has-append, update, ne_of_has, distinct-delete}
use hyu_ele.Mlfq.{
  Ptr, null, MlfqNode, Nodes, Queue, used, header, lower_level, insert_before, insert_after, remove,
}
use hyu_ele.Mlfq.Links.{IsList}
use hyu_ele.Mlfq.Links.Remove.{move-IsList, outside}
use hyu_ele.Mlfq.Fields.{
  SameData, insert_before-SameData, remove-SameData, SameData-trans, IsList-same,
}

-- The nodes of the levels 0, 1 and 2, in the order of the list.
pub record Levels : Type 0 where
  pub l0 : List Ptr
  pub l1 : List Ptr
  pub l2 : List Ptr

abbrev pub levels : List Ptr → List Ptr → List Ptr → Levels
levels a b c = record { l0 = a; l1 = b; l2 = c }

-- The whole list, headers included.
abbrev pub layout : (ℕ → Ptr) → Levels → List Ptr
layout h l = h 0 ∷ (l.l0 ++ (h 1 ∷ (l.l1 ++ (h 2 ∷ (l.l2 ++ (h 3 ∷ []))))))

abbrev pub OnLevel : Nodes → ℕ → List Ptr → Type 0
OnLevel f i [] = Unit {0}
OnLevel f i (x ∷ xs) = ((f x).level ≡ i) × ((f x).state ≡ used) × OnLevel f i xs

-- The list of the queue is `l`, every node carries the number of the level that it stands on, and
-- the four header nodes are marked as such.
pub record Holds (q : Queue) (l : Levels) : Type 0 where
  pub list : IsList q.nodes (layout q.headers l)
  pub on0 : OnLevel q.nodes 0 l.l0
  pub on1 : OnLevel q.nodes 1 l.l1
  pub on2 : OnLevel q.nodes 2 l.l2
  pub marked : (i : ℕ) → i < 4 → (q.nodes (q.headers i)).state ≡ header

pub OnLevel-append :
    (f : Nodes) (i : ℕ) (xs ys : List Ptr)
    → OnLevel f i xs
    → OnLevel f i ys
    → OnLevel f i (xs ++ ys)
OnLevel-append f i [] ys a b = b
OnLevel-append f i (x ∷ xs) ys (l, s, a) b = (l, s, OnLevel-append f i xs ys a b)

pub OnLevel-split :
    (f : Nodes) (i : ℕ) (xs ys : List Ptr)
    → OnLevel f i (xs ++ ys)
    → OnLevel f i xs × OnLevel f i ys
OnLevel-split f i [] ys a = (tt, a)
OnLevel-split f i (x ∷ xs) ys (l, s, a) = let (u, v) = OnLevel-split f i xs ys a in ((l, s, u), v)

pub OnLevel-same :
    (f g : Nodes) (i : ℕ) (xs : List Ptr)
    → ((x : Ptr) → has x xs ≡ true → ((g x).level ≡ (f x).level) × ((g x).state ≡ (f x).state))
    → OnLevel f i xs
    → OnLevel g i xs
OnLevel-same f g i [] same a = tt
OnLevel-same f g i (x ∷ xs) same (l, s, a) =
    let e = same x (ground arith) in
    (e.0 ∙ l, e.1 ∙ s, OnLevel-same f g i xs (λ y h. same y (ground arith)) a)

-- Elsewhere than at `m` the fields are those of `f`.
pub OnLevel-other :
    (f g : Nodes) (m : Ptr) (i : ℕ) (xs : List Ptr)
    → SameData f g
    → (n : MlfqNode) → has m xs ≡ false
    → OnLevel f i xs
    → OnLevel (update g m n) i xs
OnLevel-other f g m i xs s n out =
    OnLevel-same f (update g m n) i xs (λ x h. other x (ne_of_has x m xs h out))
  where
    other :
        (x : Ptr)
        → x ≢ m
        → ((update g m n x).level ≡ (f x).level) × ((update g m n x).state ≡ (f x).state)
    other x ne = ground (arith, s.level x, s.state x)

abbrev pub move_before : Ptr → Ptr → Nodes → Nodes
move_before h m f = insert_before h m (remove m f)

pub move_before-SameData : (h m : Ptr) (f : Nodes) → SameData f (move_before h m f)
move_before-SameData h m f =
    SameData-trans (remove-SameData m f) (insert_before-SameData h m (remove m f))
