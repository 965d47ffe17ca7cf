-- ===== src/Mlfq/Chain.antt =====
-- Doubly linked lists of mlfq nodes: what the pointers of a list of addresses have to be.
use hyu_ele.Prelude.{◌≡◌, ◌≢◌, sym, true, List, [], ◌∷◌, ◌++◌, arith, ◌∙◌}
use hyu_ele.Prelude.Maps.{has, distinct, ne_of_has}
use hyu_ele.Mlfq.{Ptr, null, Nodes}

-- `a` is followed by `b`; either may be null at an end of the list.
pub record Edge (f : Nodes) (a b : Ptr) : Type 0 where
  pub forth : a ≢ null → (f a).next ≡ b
  pub back : b ≢ null → (f b).prev ≡ a

-- From `a` the list leads through `xs` to `b`.
abbrev pub Chain : Nodes → Ptr → List Ptr → Ptr → Type 0
Chain f a [] b = Edge f a b
Chain f a (x ∷ xs) b = Edge f a x × Chain f x xs b

-- `g` has the links of `f` at the right of `a` and at the left of `b`.
pub frame-Edge :
    (f g : Nodes) (a b : Ptr)
    → (a ≢ null → (g a).next ≡ (f a).next)
    → (b ≢ null → (g b).prev ≡ (f b).prev)
    → Edge f a b
    → Edge g a b
frame-Edge f g a b n p e = record { forth = λ h. n h ∙ e.forth h; back = λ h. p h ∙ e.back h }

pub frame :
    (f g : Nodes) (a : Ptr) (xs : List Ptr) (b : Ptr)
    → (a ≢ null → (g a).next ≡ (f a).next)
    → (b ≢ null → (g b).prev ≡ (f b).prev)
    → ((x : Ptr) → has x xs ≡ true → ((g x).next ≡ (f x).next) × ((g x).prev ≡ (f x).prev))
    → Chain f a xs b
    → Chain g a xs b
frame f g a [] b n p same c = frame-Edge f g a b n p c
frame f g a (x ∷ xs) b n p same c =
    let e = same x (ground arith) in
    (
      frame-Edge f g a x n (λ _. e.1) c.0,
      frame f g x xs b (λ _. e.0) p (λ y h. same y (ground arith)) c.1,
    )

pub append :
    (f : Nodes) (a : Ptr) (xs : List Ptr) (y : Ptr) (ys : List Ptr) (b : Ptr)
    → Chain f a xs y
    → Chain f y ys b
    → Chain f a (xs ++ (y ∷ ys)) b
append f a [] y ys b c d = (c, d)
append f a (x ∷ xs) y ys b c d = (c.0, append f x xs y ys b c.1 d)

pub split :
    (f : Nodes) (a : Ptr) (xs : List Ptr) (y : Ptr) (ys : List Ptr) (b : Ptr)
    → Chain f a (xs ++ (y ∷ ys)) b
    → Chain f a xs y × Chain f y ys b
split f a [] y ys b c = c
split f a (x ∷ xs) y ys b c = let (l, r) = split f x xs y ys b c.1 in ((c.0, l), r)

-- The last address of `xs`, or `a`.
abbrev pub last : Ptr → List Ptr → Ptr
last a [] = a
last a (x ∷ xs) = last x xs

-- The first address of `xs`, or `b`.
abbrev pub first : List Ptr → Ptr → Ptr
first [] b = b
first (x ∷ xs) b = x

pub has-last : (a : Ptr) (xs : List Ptr) → has (last a xs) (a ∷ xs) ≡ true
has-last a [] = ground arith
has-last a (x ∷ xs) = ground (arith, has-last x xs)

-- The end `b` of the list is exchanged for `c`.
pub retarget :
    (f g : Nodes) (a : Ptr) (xs : List Ptr) (b c : Ptr)
    → distinct (a ∷ xs) ≡ true
    → (last a xs ≢ null → (g (last a xs)).next ≡ c)
    → (c ≢ null → (g c).prev ≡ last a xs)
    → ((x : Ptr) → has x (a ∷ xs) ≡ true → x ≢ last a xs → (g x).next ≡ (f x).next)
    → ((x : Ptr) → has x xs ≡ true → (g x).prev ≡ (f x).prev)
    → Chain f a xs b
    → Chain g a xs c
retarget f g a [] b c d n p same_next same_prev e = record { forth = n; back = p }
retarget f g a (x ∷ xs) b c d n p same_next same_prev e = (
  frame-Edge f g a x (λ _. same_next a (ground arith) (ne_of_has' (has-last x xs)))
      (λ _. same_prev x (ground arith)) e.0,
  retarget f g x xs b c (ground arith) n p (λ y h. same_next y (ground arith))
      (λ y h. same_prev y (ground arith)) e.1,
)
  where
    ne_of_has' : has (last x xs) (x ∷ xs) ≡ true → a ≢ last x xs
    ne_of_has' h = λ q. ne_of_has (last x xs) a (x ∷ xs) h (ground arith) (sym q)

pub left_part :
    (f : Nodes) (a : Ptr) (xs ys : List Ptr) (b : Ptr)
    → Chain f a (xs ++ ys) b
    → Chain f a xs (first ys b)
left_part f a [] [] b c = c
left_part f a [] (y ∷ ys) b c = c.0
left_part f a (x ∷ xs) ys b c = (c.0, left_part f x xs ys b c.1)
