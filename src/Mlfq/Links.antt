-- ===== src/Mlfq/Links.antt =====
-- `insertafter`, `insertBefore` and `remove` as operations on the list of addresses.
pub mod Remove
use hyu_ele.Prelude.{
  ℕ, ◌≡◌, ◌≢◌, refl, sym, Bool, true, false, List, [], ◌∷◌, ◌++◌, arith, ◌==◌, ◌||◌, ◌∙◌,
  if◌then◌else◌, Bool-cases, inl, inr,
}
use hyu_ele.Prelude.Maps.{
  has, has-append, distinct, distinct_left, distinct_right, distinct_apart, distinct-insert,
  distinct-delete,
}
use mathlib.Core.List.{append_assoc, append-nil}
use hyu_ele.Mlfq.{Ptr, null, Nodes, insert_after, insert_before, remove}
use hyu_ele.Mlfq.Chain
use hyu_ele.Mlfq.Chain.{Chain, last, first}

-- A list from null to null of distinct addresses, none of them null.
pub record IsList (f : Nodes) (xs : List Ptr) : Type 0 where
  pub chain : Chain f null xs null
  pub no_repeat : distinct (null ∷ xs) ≡ true

-- `g` has `m` linked in between `p` and `q`.
record Splice (f g : Nodes) (p m q : Ptr) : Type 0 where
  m_next : (g m).next ≡ q
  m_prev : (g m).prev ≡ p
  p_next : p ≢ null → (g p).next ≡ m
  q_prev : q ≢ null → (g q).prev ≡ m
  same_next : (x : Ptr) → x ≢ m → x ≢ p → (g x).next ≡ (f x).next
  same_prev : (x : Ptr) → x ≢ m → x ≢ q → (g x).prev ≡ (f x).prev

insert_before-Splice :
    (t m : Ptr) (f : Nodes)
    → t ≢ null
    → t ≢ m
    → (f t).prev ≢ m
    → Splice f (insert_before t m f) (f t).prev m t
unfolding insert_before
insert_before-Splice t m f nt ne np = record {
  m_next = ground arith;
  m_prev = ground arith;
  p_next = ground arith;
  q_prev = ground arith;
  same_next = ground arith;
  same_prev = ground arith;
}

insert_after-Splice :
    (t m : Ptr) (f : Nodes)
    → t ≢ null
    → t ≢ m
    → (f t).next ≢ m
    → Splice f (insert_after t m f) t m (f t).next
unfolding insert_after
insert_after-Splice t m f nt ne np = record {
  m_next = ground arith;
  m_prev = ground arith;
  p_next = ground arith;
  q_prev = ground arith;
  same_next = ground arith;
  same_prev = ground arith;
}

-- The chain behind the new node.
Splice-right :
    (f g : Nodes) (p m : Ptr) (ys : List Ptr)
    → Splice f g p m (first ys null)
    → distinct ys ≡ true
    → has p ys ≡ false
    → has m ys ≡ false
    → ((xs : List Ptr) × (a : Ptr) × Chain f a (xs ++ ys) null)
    → Chain g m ys null
Splice-right f g p m [] s d hp hm c = record { forth = λ _. s.m_next; back = λ h. absurd (h refl) }
Splice-right f g p m (y ∷ ys) s d hp hm (xs, a, c) = (
  record { forth = λ _. s.m_next; back = s.q_prev },
  Chain.frame f g y ys null (λ _. s.same_next y (ground arith) (ground arith))
      (λ h. absurd (h refl))
      (λ x h.
        (s.same_next x (ground arith) (ground arith), s.same_prev x (ground arith) (ground arith)))
      (Chain.split f a xs y ys null c).1,
)

first_out :
    (xs ys : List Ptr) (x : Ptr)
    → distinct (null ∷ (xs ++ ys)) ≡ true
    → has x xs ≡ true
    → x ≢ first ys null
first_out xs [] x d h = λ e. ground (arith, has-append null xs [])
first_out xs (y ∷ ys) x d h = λ e. ground (arith, distinct_apart xs (y ∷ ys) x)

Splice-IsList :
    (f g : Nodes) (xs : List Ptr) (m : Ptr) (ys : List Ptr)
    → m ≢ null
    → has m (xs ++ ys) ≡ false
    → Splice f g (last null xs) m (first ys null)
    → IsList f (xs ++ ys)
    → IsList g (xs ++ (m ∷ ys))
Splice-IsList f g xs m ys nm out s is = record {
  chain = Chain.append g null xs m ys null left right;
  no_repeat = distinct-insert (null ∷ xs) m ys is.no_repeat (ground arith);
}
  where
    apart : (x : Ptr) → has x (null ∷ xs) ≡ true → x ≢ m
    apart x h = λ e. ground (arith, has-append m xs ys)

    left : Chain g null xs m
    left =
        Chain.retarget f g null xs (first ys null) m (distinct_left (null ∷ xs) ys is.no_repeat)
          s.p_next (λ _. s.m_prev) (λ x h. s.same_next x (apart x h))
          (λ x h. s.same_prev x (apart x (ground arith)) (first_out xs ys x is.no_repeat h))
          (Chain.left_part f null xs ys null is.chain)

    right : Chain g m ys null
    right =
        Splice-right f g (last null xs) m ys s (distinct_right (null ∷ xs) ys is.no_repeat)
          (distinct_apart (null ∷ xs) ys (last null xs) is.no_repeat (Chain.has-last null xs))
          (ground (arith, has-append m xs ys)) (xs, null, is.chain)

-- The neighbours of `t`.
prev-eq :
    (f : Nodes) (a : Ptr) (xs : List Ptr) (t : Ptr)
    → t ≢ null
    → Chain f a xs t
    → (f t).prev ≡ last a xs
prev-eq f a [] t nt c = c.back nt
prev-eq f a (x ∷ xs) t nt c = prev-eq f x xs t nt c.1

pub next-eq :
    (f : Nodes) (t : Ptr) (ys : List Ptr)
    → t ≢ null
    → Chain f t ys null
    → (f t).next ≡ first ys null
next-eq f t [] nt c = c.forth nt
next-eq f t (y ∷ ys) nt c = c.0.forth nt

-- Parts of a list with `t` in it.
pub record At (f : Nodes) (xs : List Ptr) (t : Ptr) (ys : List Ptr) : Type 0 where
  pub ne_null : t ≢ null
  pub prev_eq : (f t).prev ≡ last null xs
  pub next_eq : (f t).next ≡ first ys null
  pub left_has : has (last null xs) (null ∷ xs) ≡ true

pub at :
    (f : Nodes) (xs : List Ptr) (t : Ptr) (ys : List Ptr) → IsList f (xs ++ (t ∷ ys)) → At f xs t ys
at f xs t ys is =
    let nt : t ≢ null = λ e. ground (arith, has-append null xs (t ∷ ys)) in
    let (l, r) = Chain.split f null xs t ys null is.chain in
    record {
      ne_null = nt;
      prev_eq = prev-eq f null xs t nt l;
      next_eq = next-eq f t ys nt r;
      left_has = Chain.has-last null xs;
    }

last-snoc : (a : Ptr) (xs : List Ptr) (t : Ptr) → last a (xs ++ (t ∷ [])) ≡ t
last-snoc a [] t = refl
last-snoc a (x ∷ xs) t = last-snoc x xs t

first_ne : {m : Ptr} (zs : List Ptr) → m ≢ null → has m zs ≡ false → first zs null ≢ m
first_ne [] nm h = λ e. nm (sym e)
first_ne (z ∷ zs) nm h = λ e. ground arith

module _ (f : Nodes) (xs : List Ptr) (t : Ptr) (ys : List Ptr) (m : Ptr) (nm : m ≢ null)
    (out : has m (xs ++ (t ∷ ys)) ≡ false) (is : IsList f (xs ++ (t ∷ ys))) where
  apart_left : (x : Ptr) → has x (null ∷ xs) ≡ true → x ≢ m
  apart_left x h = λ e. ground (arith, has-append m xs (t ∷ ys))

  apart_right : first ys null ≢ m
  apart_right = first_ne ys nm (ground (arith, has-append m xs (t ∷ ys)))

  -- `insertBefore(target, mover)` puts the mover directly in front of the target.
  pub insert_before-IsList : IsList (insert_before t m f) (xs ++ (m ∷ t ∷ ys))
  insert_before-IsList =
      let a = at f xs t ys is in
      let np = apart_left (last null xs) a.left_has in
      Splice-IsList f _ xs m (t ∷ ys) nm out
        (rw a.prev_eq at (
          insert_before-Splice t m f a.ne_null (λ e. ground (arith, has-append m xs (t ∷ ys)))
            (rw a.prev_eq np)))
        is

  -- `insertafter(target, mover)` puts the mover directly behind the target.
  pub insert_after-IsList : IsList (insert_after t m f) (xs ++ (t ∷ m ∷ ys))
  insert_after-IsList =
      let a = at f xs t ys is in
      let sp : Splice f (insert_after t m f) t m (first ys null) = rw a.next_eq at (
        insert_after-Splice t m f a.ne_null (λ e. ground (arith, has-append m xs (t ∷ ys)))
          (rw a.next_eq apart_right)) in
      rw (append_assoc xs (t ∷ []) (m ∷ ys)) at (
        Splice-IsList f (insert_after t m f) (xs ++ (t ∷ [])) m ys nm
          (rw (append_assoc xs (t ∷ []) ys) out) (rw (last-snoc null xs t) sp)
          (rw (append_assoc xs (t ∷ []) ys) is))
