-- ===== src/Prelude/Maps.antt =====
-- Memory as a function of the address, and Boolean membership in a list of addresses.
use Prim.Native.Nat.{ℕ}
use mathlib.Core.Path.{◌≡◌, refl}
use mathlib.Core.Logic.{◌≢◌}
use mathlib.Core.Bool.{Bool, true, false, not, ◌&&◌, ◌||◌}
use mathlib.Core.List.{List, [], ◌∷◌, ◌++◌}
use native.Mathlib.Omega.{arith}
use hyu_ele.Prelude.Tests.{◌==◌, if◌then◌else◌}

-- `f` with the value at `k` replaced.
abbrev pub update {ℓ} : {A : Type ℓ} → (ℕ → A) → ℕ → A → ℕ → A
update f k v j = if j == k then v else f j

abbrev pub has : ℕ → List ℕ → Bool
has a [] = false
has a (x ∷ xs) = (a == x) || has a xs

-- No element stands twice.
abbrev pub distinct : List ℕ → Bool
distinct [] = true
distinct (x ∷ xs) = not (has x xs) && distinct xs

pub has-append : (a : ℕ) (xs ys : List ℕ) → has a (xs ++ ys) ≡ (has a xs || has a ys)
has-append a [] ys = refl
has-append a (x ∷ xs) ys = ground (arith, has-append a xs ys)

pub ne_of_has : (a b : ℕ) (xs : List ℕ) → has a xs ≡ true → has b xs ≡ false → a ≢ b
ne_of_has a b [] h k = λ _. ground arith
ne_of_has a b (x ∷ xs) h k = λ e. ground arith

-- The parts of a list without repetitions have none, and share no element.
pub distinct_left : (xs ys : List ℕ) → distinct (xs ++ ys) ≡ true → distinct xs ≡ true
distinct_left [] ys d = refl
distinct_left (x ∷ xs) ys d = ground (arith, distinct_left xs ys, has-append x xs ys)

pub distinct_right : (xs ys : List ℕ) → distinct (xs ++ ys) ≡ true → distinct ys ≡ true
distinct_right [] ys d = d
distinct_right (x ∷ xs) ys d = ground (arith, distinct_right xs ys)

pub distinct_apart :
    (xs ys : List ℕ) (a : ℕ) → distinct (xs ++ ys) ≡ true → has a xs ≡ true → has a ys ≡ false
distinct_apart [] ys a d h = ground arith
distinct_apart (x ∷ xs) ys a d h = ground (arith, distinct_apart xs ys a, has-append x xs ys)

pub distinct-insert :
    (xs : List ℕ) (m : ℕ) (ys : List ℕ)
    → distinct (xs ++ ys) ≡ true
    → has m (xs ++ ys) ≡ false
    → distinct (xs ++ (m ∷ ys)) ≡ true
distinct-insert [] m ys d h = ground arith
distinct-insert (x ∷ xs) m ys d h =
    ground (arith, distinct-insert xs m ys, has-append x xs ys, has-append x xs (m ∷ ys))

pub distinct-delete :
    (xs : List ℕ) (m : ℕ) (ys : List ℕ)
    → distinct (xs ++ (m ∷ ys)) ≡ true
    → (distinct (xs ++ ys) ≡ true) × (has m (xs ++ ys) ≡ false)
distinct-delete [] m ys d = ground arith
distinct-delete (x ∷ xs) m ys d = ground (
  arith,
  distinct-delete xs m ys,
  has-append x xs ys,
  has-append x xs (m ∷ ys),
  has-append m xs ys,
)
