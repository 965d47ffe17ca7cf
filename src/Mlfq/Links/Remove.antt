-- ===== src/Mlfq/Links/Remove.antt =====
-- `remove`, and the move of a node further down the list.
use hyu_ele.Prelude.{◌≡◌, ◌≢◌, refl, true, false, List, [], ◌∷◌, ◌++◌, arith}
use hyu_ele.Prelude.Maps.{
  has, has-append, distinct, distinct_left, distinct_right, distinct_apart, distinct-delete,
}
use mathlib.Core.List.{append_assoc, append-nil}
use hyu_ele.Mlfq.{Ptr, null, Nodes, insert_before, remove}
use hyu_ele.Mlfq.Chain
use hyu_ele.Mlfq.Chain.{Chain, last, first}
use hyu_ele.Mlfq.Links.{IsList, first_out, at, first_ne, insert_before-IsList}

-- `g` is `f` with `m` unlinked from between `p` and `q`.
record Unsplice (f g : Nodes) (p m q : Ptr) : Type 0 where
  p_next : p ≢ null → (g p).next ≡ q
  q_prev : q ≢ null → (g q).prev ≡ p
  same_next : (x : Ptr) → x ≢ m → x ≢ p → (g x).next ≡ (f x).next
  same_prev : (x : Ptr) → x ≢ m → x ≢ q → (g x).prev ≡ (f x).prev

remove-Unsplice :
    (m : Ptr) (f : Nodes)
    → (f m).prev ≢ m
    → (f m).next ≢ m
    → Unsplice f (remove m f) (f m).prev m (f m).next
unfolding remove
remove-Unsplice m f np nq = record {
  p_next = ground arith;
  q_prev = ground arith;
  same_next = ground arith;
  same_prev = ground arith;
}

Unsplice-Chain :
    (f g : Nodes) (xs : List Ptr) (m : Ptr) (ys : List Ptr)
    → Unsplice f g (last null xs) m (first ys null)
    → distinct (null ∷ (xs ++ ys)) ≡ true
    → m ≢ null
    → has m (xs ++ ys) ≡ false
    → Chain f null xs m
    → Chain f m ys null
    → Chain g null (xs ++ ys) null
Unsplice-Chain f g xs m [] s d nm out l r = rw append-nil (
    Chain.retarget f g null xs m null (distinct_left (null ∷ xs) [] d) s.p_next
      (λ h. absurd (h refl)) (λ x h. s.same_next x (λ e. ground (arith, has-append m xs [])))
      (λ x h. s.same_prev x (λ e. ground (arith, has-append m xs [])) (first_out xs [] x d h)) l)
Unsplice-Chain f g xs m (y ∷ ys) s d nm out l r =
    Chain.append g null xs y ys null
      (Chain.retarget f g null xs m y (distinct_left (null ∷ xs) (y ∷ ys) d) s.p_next s.q_prev
        (λ x h. s.same_next x (λ e. ground (arith, has-append m xs (y ∷ ys))))
        (λ x h.
          s.same_prev x (λ e. ground (arith, has-append m xs (y ∷ ys)))
            (first_out xs (y ∷ ys) x d h))
        l)
      (Chain.frame f g y ys null
        (λ _.
          s.same_next y (λ e. ground (arith, has-append m xs (y ∷ ys))) (apart y (ground arith)))
        (λ h. absurd (h refl))
        (λ x h. (
          s.same_next x (λ e. ground (arith, has-append m xs (y ∷ ys))) (apart x (ground arith)),
          s.same_prev x (λ e. ground (arith, has-append m xs (y ∷ ys))) (λ e. ground (arith, tail)),
        ))
        r.1)
  where
    tail : distinct (y ∷ ys) ≡ true
    tail = distinct_right (null ∷ xs) (y ∷ ys) d

    apart : (x : Ptr) → has x (y ∷ ys) ≡ true → x ≢ last null xs
    apart x h = λ e.
        ground (arith, distinct_apart (null ∷ xs) (y ∷ ys) (last null xs), Chain.has-last null xs)

module _ (f : Nodes) (xs : List Ptr) (m : Ptr) (ys : List Ptr)
    (is : IsList f (xs ++ (m ∷ ys))) where
  -- `remove` takes the node out and leaves the order of the others.
  pub remove-IsList : IsList (remove m f) (xs ++ ys)
  remove-IsList =
      let a = at f xs m ys is in
      let (d, out) = distinct-delete (null ∷ xs) m ys is.no_repeat in
      let (l, r) = Chain.split f null xs m ys null is.chain in
      let np : last null xs ≢ m = λ e. ground (arith, a.left_has, has-append m xs ys) in
      let nq : first ys null ≢ m =
        first_ne ys (λ e. a.ne_null e) (ground (arith, has-append m xs ys)) in
      record {
        chain =
            Unsplice-Chain f (remove m f) xs m ys
              (rw (a.prev_eq, a.next_eq) at
                (remove-Unsplice m f (rw a.prev_eq np) (rw a.next_eq nq)))
              d a.ne_null (ground arith) l r;
        no_repeat = d;
      }

-- The node `m` is taken out and put in front of `h`, further down the list.
pub move-IsList :
    (f : Nodes) (xs : List Ptr) (m : Ptr) (mid : List Ptr) (h : Ptr) (ys : List Ptr)
    → IsList f (xs ++ (m ∷ (mid ++ (h ∷ ys))))
    → IsList (insert_before h m (remove m f)) (xs ++ (mid ++ (m ∷ h ∷ ys)))
move-IsList f xs m mid h ys is =
    let (d, out) = distinct-delete (null ∷ xs) m (mid ++ (h ∷ ys)) is.no_repeat in
    let a = at f xs m (mid ++ (h ∷ ys)) is in
    rw (append_assoc xs mid (m ∷ h ∷ ys)) at (
      insert_before-IsList (remove m f) (xs ++ mid) h ys m a.ne_null
        (rw (append_assoc xs mid (h ∷ ys)) (ground arith))
        (rw (append_assoc xs mid (h ∷ ys)) (remove-IsList f xs m (mid ++ (h ∷ ys)) is)))

pub outside :
    (f : Nodes) (xs : List Ptr) (m : Ptr) (mid ys : List Ptr)
    → IsList f (xs ++ (m ∷ (mid ++ ys)))
    → (has m xs ≡ false) × (has m mid ≡ false) × (has m ys ≡ false)
outside f xs m mid ys is =
    let (d, out) = distinct-delete (null ∷ xs) m (mid ++ ys) is.no_repeat in
    ground (arith, has-append m (null ∷ xs) (mid ++ ys), has-append m mid ys)
