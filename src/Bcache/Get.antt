-- ===== src/Bcache/Get.antt =====
-- `bget` keeps one buffer for a block, and buffers that are in use.
use hyu_ele.Prelude.{
  ℕ, ◌+◌, ◌≡◌, ◌≢◌, ◌≤◌, ◌⊎◌, inl, inr, refl, ap, ◌∙◌, arith, true, false, not, ◌&&◌, ◌==◌,
  if◌then◌else◌, List, [], ◌∷◌, ◌++◌, Option, none, some, Bool-cases,
}
use hyu_ele.Bcache.{Buf, is_block, is_free, find_cached, recycle, bget}

-- How many buffers hold the block, and how many of these are in use.
abbrev pub copies : ℕ → ℕ → List Buf → ℕ
copies d n [] = 0
copies d n (b ∷ bs) = (if is_block d n b then 1 else 0) + copies d n bs

abbrev pub pinned : ℕ → ℕ → List Buf → ℕ
pinned d n [] = 0
pinned d n (b ∷ bs) = (if is_block d n b && not (is_free b) then 1 else 0) + pinned d n bs

-- No block of a device is held twice; buffers that were never used have the device 0.
abbrev pub Unique : List Buf → Type 0
Unique l = (d n : ℕ) → d ≢ 0 → copies d n l ≤ 1

-- The way from one list to the next for the blocks `e`, `m` when the block `d`, `n` is asked for.
record Step (d n : ℕ) (l r : List Buf) (x : Buf) : Type 0 where
  asked : is_block d n x ≡ true
  used : 1 ≤ x.refcnt
  present : 1 ≤ copies d n r
  copies_le : (e m : ℕ) → copies e m r ≤ copies e m l + (if e == d && m == n then 1 else 0)
  pinned_ge : (e m : ℕ) → pinned e m l ≤ pinned e m r

Step-cons : (d n : ℕ) (l r : List Buf) (x b : Buf) → Step d n l r x → Step d n (b ∷ l) (b ∷ r) x
Step-cons d n l r x b h = record {
  asked = h.asked;
  used = h.used;
  present = let p = h.present in omega arith;
  copies_le = λ e m. let p = h.copies_le e m in omega arith;
  pinned_ge = λ e m. let p = h.pinned_ge e m in omega arith;
}

-- What the first loop does.
find_cached-Step :
    (d n : ℕ) (l : List Buf)
    → ((find_cached d n l ≡ none) × (copies d n l ≡ 0))
      ⊎ ((x : Buf) × (r : List Buf) × (find_cached d n l ≡ some (x, r))
          × Step d n l r x
          × ((e m : ℕ) → copies e m r ≡ copies e m l))
unfolding find_cached
find_cached-Step d n [] = inl (refl, refl)
find_cached-Step d n (b ∷ bs) = elim (Bool-cases (is_block d n b)) [
  | inl e ↦ inr (
    record b { refcnt = b.refcnt + 1 },
    record b { refcnt = b.refcnt + 1 } ∷ bs,
    rw e refl,
    record {
      asked = e;
      used = omega arith;
      present = rw e (omega arith);
      copies_le = λ f m. omega arith;
      pinned_ge = λ f m. ground arith;
    },
    λ f m. refl,
  )
  | inr e ↦ elim (find_cached-Step d n bs) [
    | inl (q, z) ↦ inl (rw (e, q) refl, rw (e, z) refl)
    | inr (x, r, q, s, c) ↦
        inr (x, b ∷ r, rw (e, q) refl, Step-cons d n bs r x b s, λ f m. rw (c f m) refl)
  ]
]

abbrev pub AllHeld : List Buf → Type 0
AllHeld [] = Unit {0}
AllHeld (b ∷ bs) = (is_free b ≡ false) × AllHeld bs

-- The buffer taken is the last free one, and keeps its place.
pub record Recycled (d n : ℕ) (l : List Buf) (x : Buf) (r : List Buf) : Type 0 where
  pub front : List Buf
  pub old : Buf
  pub back : List Buf
  pub split : l ≡ front ++ (old ∷ back)
  pub was_free : is_free old ≡ true
  pub none_behind : AllHeld back
  pub same_slot : x.slot ≡ old.slot
  pub result : r ≡ front ++ (x ∷ back)

Recycled-cons :
    (d n : ℕ) (l : List Buf) (x : Buf) (r : List Buf) (b : Buf)
    → Recycled d n l x r
    → Recycled d n (b ∷ l) x (b ∷ r)
Recycled-cons d n l x r b h = record {
  front = b ∷ h.front;
  old = h.old;
  back = h.back;
  split = ap (λ z. b ∷ z) h.split;
  was_free = h.was_free;
  none_behind = h.none_behind;
  same_slot = h.same_slot;
  result = ap (λ z. b ∷ z) h.result;
}

abbrev taken : ℕ → ℕ → Buf → Buf
taken d n b = record b { dev = d; blockno = n; valid = false; dirty = false; refcnt = 1 }

Step-taken :
    (d n : ℕ) (b : Buf) (bs : List Buf)
    → is_free b ≡ true
    → Step d n (b ∷ bs) (taken d n b ∷ bs) (taken d n b)
Step-taken d n b bs f = record {
  asked = ground arith;
  used = omega arith;
  present = let e : is_block d n (taken d n b) ≡ true = ground arith in rw e (omega arith);
  copies_le = λ e m. ground arith;
  pinned_ge = λ e m. ground arith;
}

recycle-Recycled :
    (d n : ℕ) (l : List Buf)
    → ((recycle d n l ≡ none) × AllHeld l)
      ⊎ ((x : Buf) × (r : List Buf) × (recycle d n l ≡ some (x, r))
          × Step d n l r x
          × Recycled d n l x r)
unfolding recycle
recycle-Recycled d n [] = inl (refl, tt)
recycle-Recycled d n (b ∷ bs) = elim (recycle-Recycled d n bs) [
  | inl (q, held) ↦ elim (Bool-cases (is_free b)) [
    | inl f ↦ inr (
      taken d n b,
      taken d n b ∷ bs,
      rw (q, f) refl,
      Step-taken d n b bs f,
      record {
        front = [];
        old = b;
        back = bs;
        split = refl;
        was_free = f;
        none_behind = held;
        same_slot = refl;
        result = refl;
      },
    )
    | inr f ↦ inl (rw (q, f) refl, (f, held))
  ]
  | inr (x, r, q, s, k) ↦
      inr (x, b ∷ r, rw q refl, Step-cons d n bs r x b s, Recycled-cons d n bs x r b k)
]

-- What `bget` returns.
pub record Got (d n : ℕ) (l : List Buf) (x : Buf) (r : List Buf) : Type 0 where
  pub asked : is_block d n x ≡ true
  pub counted : 1 ≤ x.refcnt
  pub unique : Unique r
  pub once : copies d n r ≡ 1
  pub kept : (e m : ℕ) → pinned e m l ≤ pinned e m r
  pub evicts : copies d n l ≡ 0 → Recycled d n l x r

key_refl : (d n : ℕ) → (d == d && n == n) ≡ true
key_refl d n = ground arith

other_key : (d n e m : ℕ) → (e == d && m == n) ≡ true → (e ≡ d) × (m ≡ n)
other_key d n e m h = ground arith

new-Unique :
    (d n : ℕ) (l r : List Buf) (x : Buf) → Unique l → copies d n l ≡ 0 → Step d n l r x → Unique r
new-Unique d n l r x u z s e m ne = elim (Bool-cases (e == d && m == n)) [
  | inl k ↦
      let le = s.copies_le e m in
      let (p, q) = other_key d n e m k in
      let none_yet : copies e m l ≡ 0 = rw (p, q) z in
      let le' : copies e m r ≤ copies e m l + 1 = rw k at le in omega arith
  | inr k ↦
      let le = s.copies_le e m in
      let le' : copies e m r ≤ copies e m l + 0 = rw k at le in omega (arith, u e m ne)
]

bget-hit :
    (d n : ℕ) (l : List Buf) (r : Buf × List Buf) → find_cached d n l ≡ some r → bget d n l ≡ some r
unfolding bget
bget-hit d n l r q =
    ap (λ (o : Option (Buf × List Buf)). elim o [ some z ↦ some z | none ↦ recycle d n l ]) q

bget-miss : (d n : ℕ) (l : List Buf) → find_cached d n l ≡ none → bget d n l ≡ recycle d n l
unfolding bget
bget-miss d n l q =
    ap (λ (o : Option (Buf × List Buf)). elim o [ some z ↦ some z | none ↦ recycle d n l ]) q

-- When no block of a device is held twice, `bget` of a block of a device panics only if the block is not
-- held and every buffer is counted or dirty. Otherwise it returns a buffer for the block with a
-- count; the block is then held just once, no block is held twice, no buffer in use is lost, and if
-- the block was not held, the buffer is the last in the order of use that is neither counted nor
-- dirty.
pub bget_lem :
    (d n : ℕ) (l : List Buf)
    → Unique l
    → d ≢ 0
    → ((bget d n l ≡ none) × (copies d n l ≡ 0) × AllHeld l)
      ⊎ ((x : Buf) × (r : List Buf) × (bget d n l ≡ some (x, r)) × Got d n l x r)
bget_lem d n l u nd = elim (find_cached-Step d n l) [
  | inl (q, z) ↦ elim (recycle-Recycled d n l) [
    | inl (p, held) ↦ inl (bget-miss d n l q ∙ p, z, held)
    | inr (x, r, p, s, k) ↦ inr (
      x,
      r,
      bget-miss d n l q ∙ p,
      record {
        asked = s.asked;
        counted = s.used;
        unique = new-Unique d n l r x u z s;
        once = let v = new-Unique d n l r x u z s d n nd in let w = s.present in omega arith;
        kept = s.pinned_ge;
        evicts = λ _. k;
      },
    )
  ]
  | inr (x, r, q, s, c) ↦ inr (
    x,
    r,
    bget-hit d n l (x, r) q,
    record {
      asked = s.asked;
      counted = s.used;
      unique = λ e m ne. omega (arith, c e m, u e m ne);
      once = let v = u d n nd in let w = s.present in omega (arith, c d n);
      kept = s.pinned_ge;
      evicts = λ z. let w = s.present in absurd (omega (arith, c d n));
    },
  )
]
