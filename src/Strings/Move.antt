-- ===== src/Strings/Move.antt =====
-- What `memmove`, `memset` and the string copies leave in memory.
use hyu_ele.Prelude.{
  ℕ, zero, suc, ◌+◌, ◌-◌, ◌*◌, ◌/◌, ◌%◌, ◌≡◌, ◌≤◌, ◌<◌, ◌⊎◌, inl, inr, ap, ◌∙◌, arith, Bool, false,
  ◌&&◌, ◌==◌, ltb, leb, if◌then◌else◌, Bool-cases,
}
use hyu_ele.Prelude.Maps.{update}
use hyu_ele.Strings.{
  Memory, copy_up, copy_down, memmove, stosb, stosl, memset, safe_loop, safestrcpy,
}

-- The address lies in the `n` bytes from `d` on.
abbrev pub within : ℕ → ℕ → ℕ → Bool
within d n x = leb d x && ltb x (d + n)

-- The memory where the `n` bytes from `d` on are those from `s` on.
abbrev pub moved : ℕ → ℕ → ℕ → Memory → Memory
moved d s n m x = if within d n x then m (s + (x - d)) else m x

moved-up :
    (n d s : ℕ) (m : Memory) (x : ℕ)
    → (d ≤ s) ⊎ (s + suc n ≤ d)
    → moved (d + 1) (s + 1) n (update m d (m s)) x ≡ moved d s (suc n) m x
moved-up n d s m x apart = elim (Bool-cases (within d (suc n) x)) [
  | inl e ↦ elim (Bool-cases (x == d)) [
    | inl f ↦ let z : s + (x - d) ≡ s = ground arith in rw z (ground arith)
    | inr f ↦ let z : s + 1 + (x - (d + 1)) ≡ s + (x - d) = ground arith in rw z (ground arith)
  ]
  | inr e ↦ ground arith
]

copy_up-moved :
    (n d s : ℕ) (m : Memory) (x : ℕ) → (d ≤ s) ⊎ (s + n ≤ d) → copy_up n d s m x ≡ moved d s n m x
unfolding copy_up
copy_up-moved zero d s m x apart = ground arith
copy_up-moved (suc n) d s m x apart =
    copy_up-moved n (d + 1) (s + 1) (update m d (m s)) x (closer apart) ∙ moved-up n d s m x apart
  where
    closer : (d ≤ s) ⊎ (s + suc n ≤ d) → (d + 1 ≤ s + 1) ⊎ (s + 1 + n ≤ d + 1)
    closer (inl a) = inl (omega arith)
    closer (inr a) = inr (omega arith)

moved-down :
    (n d s : ℕ) (m : Memory) (x : ℕ)
    → s < d
    → moved d s n (update m (d + n) (m (s + n))) x ≡ moved d s (suc n) m x
moved-down n d s m x lt = elim (Bool-cases (x == d + n)) [
  | inl f ↦ let z : s + (x - d) ≡ s + n = ground arith in rw z (ground arith)
  | inr f ↦ ground arith
]

copy_down-moved :
    (n d s : ℕ) (m : Memory) (x : ℕ) → s < d → copy_down n (d + n) (s + n) m x ≡ moved d s n m x
unfolding copy_down
copy_down-moved zero d s m x lt = ground arith
copy_down-moved (suc n) d s m x lt =
    let a : d + suc n - 1 ≡ d + n = omega arith in
    let b : s + suc n - 1 ≡ s + n = omega arith in
    rw (a, b) (copy_down-moved n d s (update m (d + n) (m (s + n))) x lt ∙ moved-down n d s m x lt)

-- `memmove` puts the `n` bytes that were at `src` to `dst` and changes nothing else, also when the
-- two ranges overlap.
pub memmove_lem : (dst src n : ℕ) (m : Memory) (x : ℕ) → memmove dst src n m x ≡ moved dst src n m x
unfolding memmove
memmove_lem dst src n m x = elim (Bool-cases (ltb src dst && ltb dst (src + n))) [
  | inl e ↦ rw e (copy_down-moved n dst src m x (ground arith))
  | inr e ↦ rw e (
      copy_up-moved n dst src m x (elim (Bool-cases (leb dst src)) [
        | inl a ↦ inl (ground arith)
        | inr a ↦ inr (ground arith)
      ]))
]

-- The memory where the `n` bytes from `d` on are `b`.
abbrev pub filled : ℕ → ℕ → ℕ → Memory → Memory
filled d b n m x = if within d n x then b else m x

stosb-filled : (n d c : ℕ) (m : Memory) (x : ℕ) → stosb d c n m x ≡ filled d (c % 256) n m x
unfolding stosb
stosb-filled zero d c m x = ground arith
stosb-filled (suc n) d c m x = stosb-filled n (d + 1) c (update m d (c % 256)) x ∙ ground arith

-- The four bytes of a word made of one byte.
word_bytes :
    (b : ℕ)
    → b < 256
    → let w = b * 16777216 + b * 65536 + b * 256 + b in
      (w % 256 ≡ b) × (w / 256 % 256 ≡ b) × (w / 65536 % 256 ≡ b) × (w / 16777216 % 256 ≡ b)
word_bytes b lt = (omega arith, omega arith, omega arith, omega arith)

four :
    (b d n : ℕ) (m : Memory) (x : ℕ)
    → filled (d + 4) b n (update (update (update (update m d b) (d + 1) b) (d + 2) b) (d + 3) b) x
      ≡ filled d b (4 + n) m x
four b d n m x = ground arith

stosl-filled :
    (n d b : ℕ) (m : Memory) (x : ℕ)
    → b < 256
    → stosl d (b * 16777216 + b * 65536 + b * 256 + b) n m x ≡ filled d b (4 * n) m x
unfolding stosl
stosl-filled zero d b m x lt = ground arith
stosl-filled (suc n) d b m x lt =
    let (w0, w1, w2, w3) = word_bytes b lt in
    let z : 4 * suc n ≡ 4 + 4 * n = omega arith in
    rw (w0, w1, w2, w3, z) (stosl-filled n (d + 4) b _ x lt ∙ four b d (4 * n) m x)

-- `memset` fills the `n` bytes from `dst` on with the low byte of `c` and changes nothing else, by
-- words or by bytes.
pub memset_lem :
    (dst c n : ℕ) (m : Memory) (x : ℕ) → memset dst c n m x ≡ filled dst (c % 256) n m x
unfolding memset
memset_lem dst c n m x = elim (Bool-cases (dst % 4 == 0 && n % 4 == 0)) [
  | inl e ↦
      let z : 4 * (n / 4) ≡ n = ground arith in
      rw e (
        stosl-filled (n / 4) dst (c % 256) m x (omega arith)
        ∙ ap (λ k. filled dst (c % 256) k m x) z)
  | inr e ↦ rw e (stosb-filled n dst c m x)
]

safe_loop-bounds :
    (k s t : ℕ) (m : Memory)
    → ((x : ℕ) → within s (suc k) x ≡ false → safe_loop s t k m x ≡ m x)
      × (j : ℕ) × (j ≤ k)
      × (safe_loop s t k m (s + j) ≡ 0)
unfolding safe_loop
safe_loop-bounds zero s t m = (λ x out. ground arith, 0, omega arith, ground arith)
safe_loop-bounds (suc k) s t m =
    let (keeps, j, le, nul) = safe_loop-bounds k (s + 1) (t + 1) (update m s (m t)) in
    elim (Bool-cases (m t == 0)) [
      | inl e ↦ (λ x out. ground arith, 1, omega arith, ground arith)
      | inr e ↦ (
        λ x out. ground (arith, keeps x),
        suc j,
        omega arith,
        let z : s + suc j ≡ s + 1 + j = omega arith in rw (e, z) nul,
      )
    ]

-- `safestrcpy` writes only to the `n` bytes from `s` on and leaves a zero among them.
pub safestrcpy_lem :
    (s t n : ℕ) (m : Memory)
    → 1 ≤ n
    → ((x : ℕ) → within s n x ≡ false → safestrcpy s t n m x ≡ m x)
      × (j : ℕ) × (j < n)
      × (safestrcpy s t n m (s + j) ≡ 0)
unfolding safestrcpy
safestrcpy_lem s t n m pos =
    let z : suc (n - 1) ≡ n = omega arith in
    let e : (n == 0) ≡ false = ground arith in
    let (keeps, j, le, nul) = safe_loop-bounds (n - 1) s t m in
    rw e (λ x out. keeps x (rw z out), j, omega arith, nul)
