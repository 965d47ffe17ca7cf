-- ===== src/Mlfq/Fields.antt =====
-- What the link operations leave alone.
use hyu_ele.Prelude.{◌≡◌, true, refl, List, arith, ◌∙◌}
use hyu_ele.Mlfq.{Ptr, null, Nodes, insert_after, insert_before, remove}
use hyu_ele.Prelude.Maps.{has}
use hyu_ele.Mlfq.Chain
use hyu_ele.Mlfq.Chain.{Chain, last, first}
use hyu_ele.Mlfq.Links.{IsList}

-- Fields other than the links are left as they are.
pub record SameData (f g : Nodes) : Type 0 where
  pub level : (x : Ptr) → (g x).level ≡ (f x).level
  pub state : (x : Ptr) → (g x).state ≡ (f x).state
  pub self : (x : Ptr) → (g x).self ≡ (f x).self
  pub exec_time : (x : Ptr) → (g x).exec_time ≡ (f x).exec_time

pub insert_before-SameData : (t m : Ptr) (f : Nodes) → SameData f (insert_before t m f)
unfolding insert_before
insert_before-SameData t m f = record {
  level = ground arith;
  state = ground arith;
  self = ground arith;
  exec_time = ground arith;
}

pub insert_after-SameData : (t m : Ptr) (f : Nodes) → SameData f (insert_after t m f)
unfolding insert_after
insert_after-SameData t m f = record {
  level = ground arith;
  state = ground arith;
  self = ground arith;
  exec_time = ground arith;
}

pub remove-SameData : (m : Ptr) (f : Nodes) → SameData f (remove m f)
unfolding remove
remove-SameData m f = record {
  level = ground arith;
  state = ground arith;
  self = ground arith;
  exec_time = ground arith;
}

pub SameData-trans : {f g h : Nodes} → SameData f g → SameData g h → SameData f h
SameData-trans s t = record {
  level = λ x. t.level x ∙ s.level x;
  state = λ x. t.state x ∙ s.state x;
  self = λ x. t.self x ∙ s.self x;
  exec_time = λ x. t.exec_time x ∙ s.exec_time x;
}

-- Links that are left alone keep the list.
pub IsList-same :
    (f g : Nodes) (xs : List Ptr)
    → ((x : Ptr) → has x xs ≡ true → ((g x).next ≡ (f x).next) × ((g x).prev ≡ (f x).prev))
    → IsList f xs
    → IsList g xs
IsList-same f g xs same is = record {
  chain = Chain.frame f g null xs null (λ h. absurd (h refl)) (λ h. absurd (h refl)) same is.chain;
  no_repeat = is.no_repeat;
}
