-- ===== src/Strings/Compare.antt =====
-- What `strncmp`, `memcmp` and `strncpy` say of two strings.
use hyu_ele.Prelude.{
  ℕ, zero, suc, ◌+◌, ◌≡◌, ◌≤◌, ◌<◌, ◌⊎◌, ◌↔◌, inl, inr, refl, ◌∙◌, arith, Bool, true, false, ◌||◌,
  ◌==◌, if◌then◌else◌, Bool-cases,
}
use native.Mathlib.Decide.{ℕ_discrete}
use hyu_ele.Prelude.Maps.{update}
use hyu_ele.Strings.{Memory, strncmp, memcmp, zero_fill, strncpy}
use hyu_ele.Strings.Move.{within}

-- The strings at `p` and `q` agree in their first `n` bytes, or up to a zero in both.
abbrev pub Agree : ℕ → ℕ → ℕ → Memory → Type 0
Agree zero p q m = Unit {0}
Agree (suc n) p q m = (m p ≡ m q) × ((m p ≡ 0) ⊎ Agree n (p + 1) (q + 1) m)

-- `strncmp`, and with it `namecmp`, returns zero exactly for strings that agree in their first `n`
-- bytes or up to the end of both.
pub strncmp_lem : (n p q : ℕ) (m : Memory) → let (a, b) = strncmp p q n m in (a ≡ b) ↔ Agree n p q m
unfolding strncmp
strncmp_lem zero p q m = (λ e. tt, λ e. refl)
strncmp_lem (suc n) p q m =
    let (there, back) = strncmp_lem n (p + 1) (q + 1) m in
    elim (ℕ_discrete (m p) 0) [
      | yes z ↦ let f : (m p == 0) ≡ true = ground arith in rw f (λ e. (e, inl z), λ e. e.0)
      | no z ↦
          let f : (m p == 0) ≡ false = ground arith in
          elim (ℕ_discrete (m p) (m q)) [
            | yes s ↦
                let g : (m p == m q) ≡ true = ground arith in
                rw (f, g)
                  (
                    λ e. (s, inr (there e)),
                    λ (_, r). elim r [ inl e ↦ absurd (z e) | inr a ↦ back a ],
                  )
            | no s ↦
                let g : (m p == m q) ≡ false = ground arith in
                rw (f, g) (λ e. absurd (s e), λ e. e.0)
          ]
    ]

-- `memcmp` returns zero exactly when all `n` bytes agree, zeros among them or not.
pub memcmp_lem :
    (n p q : ℕ) (m : Memory)
    → let (a, b) = memcmp p q n m in (a ≡ b) ↔ ((i : ℕ) → i < n → m (p + i) ≡ m (q + i))
unfolding memcmp
memcmp_lem zero p q m = (λ e i lt. absurd (omega arith), λ e. refl)
memcmp_lem (suc n) p q m =
    let (there, back) = memcmp_lem n (p + 1) (q + 1) m in
    elim (ℕ_discrete (m p) (m q)) [
      | yes s ↦
          let g : (m p == m q) ≡ true = ground arith in
          rw g (λ e. extend s (there e), λ e. back (λ i lt. shift i (e (suc i) (omega arith))))
      | no s ↦
          let g : (m p == m q) ≡ false = ground arith in
          rw g (λ e. absurd (s e), λ e. first_byte (e 0 (omega arith)))
    ]
  where
    shift : (i : ℕ) → m (p + suc i) ≡ m (q + suc i) → m (p + 1 + i) ≡ m (q + 1 + i)
    shift i h =
        let a : p + suc i ≡ p + 1 + i = omega arith in
        let b : q + suc i ≡ q + 1 + i = omega arith in rw (a, b) at h

    first_byte : m (p + 0) ≡ m (q + 0) → m p ≡ m q
    first_byte h =
        let a : p + 0 ≡ p = omega arith in let b : q + 0 ≡ q = omega arith in rw (a, b) at h

    extend :
        m p ≡ m q
        → ((i : ℕ) → i < n → m (p + 1 + i) ≡ m (q + 1 + i))
        → (i : ℕ) → i < suc n
        → m (p + i) ≡ m (q + i)
    extend s h zero lt =
        let a : p + 0 ≡ p = omega arith in let b : q + 0 ≡ q = omega arith in rw (a, b) s
    extend s h (suc i) lt =
        let a : p + suc i ≡ p + 1 + i = omega arith in
        let b : q + suc i ≡ q + 1 + i = omega arith in rw (a, b) (h i (omega arith))

-- One of the first `j` bytes of the string is its end.
abbrev pub ended : ℕ → ℕ → Memory → Bool
ended t zero m = false
ended t (suc j) m = m t == 0 || ended (t + 1) j m

ended-update :
    (j s t c : ℕ) (m : Memory) → (s < t) ⊎ (t + j ≤ s) → ended t j (update m s c) ≡ ended t j m
ended-update zero s t c m apart = refl
ended-update (suc j) s t c m apart =
    let ih = ended-update j s (t + 1) c m (closer apart) in ground (arith, ih)
  where
    closer : (s < t) ⊎ (t + suc j ≤ s) → (s < t + 1) ⊎ (t + 1 + j ≤ s)
    closer (inl a) = inl (omega arith)
    closer (inr a) = inr (omega arith)

zero_fill_lem :
    (k s : ℕ) (m : Memory) (x : ℕ) → zero_fill s k m x ≡ (if within s k x then 0 else m x)
unfolding zero_fill
zero_fill_lem zero s m x = ground arith
zero_fill_lem (suc k) s m x = zero_fill_lem k (s + 1) (update m s 0) x ∙ ground arith

-- `strncpy` between ranges that do not overlap writes the `n` bytes from `s` on: those of the source up
-- to its end, and zeros behind it; it changes nothing else.
pub strncpy_lem :
    (n s t : ℕ) (m : Memory)
    → (s + n ≤ t) ⊎ (t + n ≤ s)
    → ((x : ℕ) → within s n x ≡ false → strncpy s t n m x ≡ m x)
      × ((j : ℕ) → j < n → strncpy s t n m (s + j) ≡ (if ended t j m then 0 else m (t + j)))
unfolding strncpy
strncpy_lem zero s t m apart = (λ x out. refl, λ j lt. absurd (omega arith))
strncpy_lem (suc n) s t m apart =
    let (keeps, gives) = strncpy_lem n (s + 1) (t + 1) (update m s (m t)) (closer apart) in
    elim (Bool-cases (m t == 0)) [
      | inl e ↦ rw e (
        λ x out. zero_fill_lem n (s + 1) (update m s (m t)) x ∙ ground arith,
        λ j lt. zero_fill_lem n (s + 1) (update m s (m t)) (s + j) ∙ zeros j e lt,
      )
      | inr e ↦ rw e (λ x out. keeps x (ground arith) ∙ ground arith, copies e keeps gives)
    ]
  where
    closer : (s + suc n ≤ t) ⊎ (t + suc n ≤ s) → (s + 1 + n ≤ t + 1) ⊎ (t + 1 + n ≤ s + 1)
    closer (inl a) = inl (omega arith)
    closer (inr a) = inr (omega arith)

    zeros :
        (j : ℕ)
        → (m t == 0) ≡ true
        → j < suc n
        → (if within (s + 1) n (s + j) then 0 else update m s (m t) (s + j))
          ≡ (if ended t j m then 0 else m (t + j))
    zeros zero e lt = ground arith
    zeros (suc j) e lt = ground arith

    beside : (j : ℕ) → j < n → (s < t + 1) ⊎ (t + 1 + j ≤ s)
    beside j lt = elim apart [ inl a ↦ inl (omega arith) | inr a ↦ inr (omega arith) ]

    copies :
        (m t == 0) ≡ false
        → ((x : ℕ)
            → within (s + 1) n x ≡ false
            → strncpy (s + 1) (t + 1) n (update m s (m t)) x ≡ update m s (m t) x)
        → ((j : ℕ)
            → j < n
            → strncpy (s + 1) (t + 1) n (update m s (m t)) (s + 1 + j)
              ≡ (if ended (t + 1) j (update m s (m t)) then 0 else update m s (m t) (t + 1 + j)))
        → (j : ℕ) → j < suc n
        → strncpy (s + 1) (t + 1) n (update m s (m t)) (s + j)
          ≡ (if ended t j m then 0 else m (t + j))
    copies e keeps gives zero lt =
        let z : t + 0 ≡ t = omega arith in keeps (s + 0) (ground arith) ∙ ground arith
    copies e keeps gives (suc j) lt =
        let z : s + suc j ≡ s + 1 + j = omega arith in
        let same = ended-update j s (t + 1) (m t) m (beside j (omega arith)) in
        let y : update m s (m t) (t + 1 + j) ≡ m (t + suc j) = elim apart [
          | inl a ↦ ground arith
          | inr a ↦ ground arith
        ] in
        rw (z, e) (gives j (omega arith) ∙ (rw (same, y) refl))
