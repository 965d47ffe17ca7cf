-- ===== src/Fs/Blocks.antt =====
-- The walk through indirect blocks allocates where it has to and changes nothing else.
use hyu_ele.Prelude.{
  ℕ, zero, suc, ◌+◌, ◌≡◌, ◌≢◌, inl, inr, refl, sym, ap, subst, ◌∙◌, arith, Bool, true, false, ◌==◌,
  ◌&&◌, if◌then◌else◌, List, [], ◌∷◌, length, Option, none, some, Bool-cases, Option-cases,
}
use hyu_ele.Prelude.Maps.{update}
use hyu_ele.Log.{State, log_write}
use hyu_ele.Fs.{
  Disk, word, put_block, bitmap_block, log_block, bzero, find_free, balloc, entry, walk,
}

-- Block 0 is in use. A block of level 0 holds data, one of level `l + 1` pointers to blocks in use of level
-- `l`: a single, double or triple indirect block has level 1, 2 or 3.
pub record Safe (level : ℕ → ℕ) (s : Disk) : Type 0 where
  pub boot : s.used 0 ≡ true
  pub closed :
      (a i l : ℕ)
      → s.used a ≡ true
      → level a ≡ suc l
      → word s a i ≢ 0
      → (s.used (word s a i) ≡ true) × (level (word s a i) ≡ l)

-- What is in use stays so, with its level, and its words other than 0 stay.
pub record Extends (k l : ℕ → ℕ) (s t : Disk) : Type 0 where
  pub kept_used : (a : ℕ) → s.used a ≡ true → t.used a ≡ true
  pub kept_level : (a : ℕ) → s.used a ≡ true → l a ≡ k a
  pub kept_word : (a i : ℕ) → s.used a ≡ true → word s a i ≢ 0 → word t a i ≡ word s a i

pub Extends-refl : (k : ℕ → ℕ) (s : Disk) → Extends k k s s
Extends-refl k s = record {
  kept_used = λ a u. u;
  kept_level = λ a u. refl;
  kept_word = λ a i u n. refl;
}

pub Extends-trans :
    {k l m : ℕ → ℕ} {s t u : Disk} → Extends k l s t → Extends l m t u → Extends k m s u
Extends-trans {k} {l} {m} {s} {t} x y = record {
  kept_used = λ a h. y.kept_used a (x.kept_used a h);
  kept_level = λ a h. y.kept_level a (x.kept_used a h) ∙ x.kept_level a h;
  kept_word = λ a i h n.
      let e = x.kept_word a i h n in y.kept_word a i (x.kept_used a h) (λ z. n (sym e ∙ z)) ∙ e;
}

find_free-unused : (k b c : ℕ) (used : ℕ → Bool) → find_free k b used ≡ some c → used c ≡ false
unfolding find_free
find_free-unused zero b c used e = absurd (ground arith)
find_free-unused (suc k) b c used e = elim (Bool-cases (used b)) [
  | inl u ↦ find_free-unused k (b + 1) c used (rw u at e)
  | inr u ↦ let q : b ≡ c = ground arith in subst (λ z. used z ≡ false) q u
]

pub some_injective : {A : Type 0} {a b : A} → some a ≡ some b → a ≡ b
some_injective {A} {a} e = ap (λ o. elim o [ none ↦ a | some x ↦ x ]) e

pub none-some : {A : Type 0} {a : A} (o : Option A) → o ≡ none → o ≢ some a
none-some o n e = ground arith

-- `log_write` changes neither the bitmap nor a word.
record Like (s t : Disk) : Type 0 where
  used : t.used ≡ s.used
  words : word t ≡ word s

log_write-cache : (b : ℕ) (s r : State) → log_write b s ≡ some r → r.cache ≡ s.cache
unfolding log_write
log_write-cache b s r e = ground arith

log_block_lem : (b : ℕ) (s t : Disk) → log_block b s ≡ some t → Like s t
unfolding log_block
log_block_lem b s t e = elim (Option-cases (log_write b s.trans)) [
  | inl n ↦ absurd (none-some _ refl (rw n at e))
  | inr (r, q) ↦
      let same : record s { trans = r } ≡ t = some_injective (rw q at e) in
      record {
        used = ap (λ (d : Disk). d.used) (sym same);
        words = ap (λ (d : Disk). word d) (sym same) ∙ log_write-cache b s.trans r q;
      }
]

-- What `balloc` leaves when it succeeds.
record Fresh (s t : Disk) (b : ℕ) : Type 0 where
  free : s.used b ≡ false
  used : (a : ℕ) → t.used a ≡ (if a == b then true else s.used a)
  words : (a i : ℕ) → word t a i ≡ (if a == b then 0 else word s a i)

balloc_lem : (s t : Disk) (b : ℕ) → balloc s ≡ some (b, t) → Fresh s t b
unfolding balloc bzero
balloc_lem s t b e = elim (Option-cases (find_free s.size 0 s.used)) [
  | inl n ↦ absurd (none-some _ refl (rw n at e))
  | inr (c, q) ↦
      let s0 : Disk = record s { used = update s.used c true } in
      elim (Option-cases (log_block (bitmap_block c s) s0)) [
        | inl n ↦ absurd (none-some _ refl (rw (q, n) at e))
        | inr (s1, p) ↦ elim (Option-cases (log_block c (put_block c (λ _. 0) s1))) [
          | inl n ↦ absurd (none-some _ refl (rw (q, p, n) at e))
          | inr (s2, o) ↦
              let x = log_block_lem _ s0 s1 p in
              let y = log_block_lem _ (put_block c (λ _. 0) s1) s2 o in
              let pair : (c, s2) ≡ (b, t) = some_injective (rw (q, p, o) at e) in
              let u : s2.used ≡ update s.used c true = y.used ∙ x.used in
              let w : word s2 ≡ update (word s) c (λ _. 0) =
                y.words ∙ ap (λ (f : ℕ → ℕ → ℕ). update f c (λ _. 0)) x.words in
              subst (λ (v : ℕ × Disk). Fresh s v.1 v.0) pair
                (record {
                  free = find_free-unused s.size 0 c s.used q;
                  used = λ a. ap (λ (f : ℕ → Bool). f a) u ∙ ground arith;
                  words = λ a i. ap (λ (f : ℕ → ℕ → ℕ). f a i) w ∙ ground arith;
                })
        ]
      ]
]

ne_used : (s : Disk) (a b : ℕ) → s.used a ≡ true → s.used b ≡ false → (a == b) ≡ false
ne_used s a b u v = ground arith

-- The result `b`, of level `l`, of a call on a safe disk.
pub record Maps (k : ℕ → ℕ) (s : Disk) (m : ℕ → ℕ) (t : Disk) (b l : ℕ) : Type 0 where
  pub safe : Safe m t
  pub extends : Extends k m s t
  pub in_use : t.used b ≡ true
  pub has_level : m b ≡ l
  pub not_zero : b ≢ 0

module _ (k : ℕ → ℕ) (s t : Disk) (b l : ℕ) (h : Safe k s) (f : Fresh s t b) where
  abbrev leveled : ℕ → ℕ
  leveled = update k b l

  fresh_word : (a i : ℕ) → (a == b) ≡ false → word t a i ≡ word s a i
  fresh_word a i n = f.words a i ∙ rw n refl

  fresh_used : (a : ℕ) → (a == b) ≡ false → t.used a ≡ s.used a
  fresh_used a n = f.used a ∙ rw n refl

  fresh_level : (a : ℕ) → (a == b) ≡ false → leveled a ≡ k a
  fresh_level a n = rw n refl

  fresh-Safe : Safe leveled t
  fresh-Safe = record {
    boot = fresh_used 0 (ne_used s 0 b h.boot f.free) ∙ h.boot;
    closed = λ a i m v e n. elim (Bool-cases (a == b)) [
      | inl q ↦ absurd (n (f.words a i ∙ rw q refl))
      | inr q ↦
          let w = fresh_word a i q in
          let (x, y) =
            h.closed a i m (sym (fresh_used a q) ∙ v) (sym (fresh_level a q) ∙ e)
              (λ z. n (w ∙ z)) in
          let ne = ne_used s (word s a i) b x f.free in
          rw w (fresh_used (word s a i) ne ∙ x, fresh_level (word s a i) ne ∙ y)
    ];
  }

  fresh-Maps : Maps k s leveled t b l
  fresh-Maps = record {
    safe = fresh-Safe;
    extends = record {
      kept_used = λ a v. fresh_used a (ne_used s a b v f.free) ∙ v;
      kept_level = λ a v. fresh_level a (ne_used s a b v f.free);
      kept_word = λ a i v n. fresh_word a i (ne_used s a b v f.free);
    };
    in_use = f.used b ∙ ground arith;
    has_level = ground arith;
    not_zero = λ z. let q = ne_used s 0 b h.boot f.free in absurd (ground arith);
  }

-- A block that was just allocated, as a block of any level.
pub balloc-Maps :
    (k : ℕ → ℕ) (s t : Disk) (b l : ℕ)
    → Safe k s
    → balloc s ≡ some (b, t)
    → Maps k s (update k b l) t b l
balloc-Maps k s t b l h e = fresh-Maps k s t b l h (balloc_lem s t b e)

-- A pointer is put into a block.
module _ (k m : ℕ → ℕ) (s r t : Disk) (p i b l : ℕ) (x : Maps k s m r b l) (u : s.used p ≡ true)
    (z : word s p i ≡ 0) (lp : k p ≡ suc l)
    (like : Like (put_block p (update (word r p) i b) r) t) where
  put_words : (a j : ℕ) → word t a j ≡ (if (a == p) && (j == i) then b else word r a j)
  put_words a j = ap (λ (f : ℕ → ℕ → ℕ). f a j) like.words ∙ ground arith

  put_used : (a : ℕ) → t.used a ≡ r.used a
  put_used a = ap (λ (f : ℕ → Bool). f a) like.used

  put-Safe : Safe m t
  put-Safe = record {
    boot = put_used 0 ∙ x.safe.boot;
    closed = λ a j n v e d. elim (Bool-cases ((a == p) && (j == i))) [
      | inl q ↦
          let w : word t a j ≡ b = put_words a j ∙ rw q refl in
          let same : a ≡ p = ground arith in
          let mp : m a ≡ suc l = ap m same ∙ x.extends.kept_level p u ∙ lp in
          rw w (put_used b ∙ x.in_use, x.has_level ∙ omega arith)
      | inr q ↦
          let w : word t a j ≡ word r a j = put_words a j ∙ rw q refl in
          let (y, o) = x.safe.closed a j n (sym (put_used a) ∙ v) e (λ g. d (w ∙ g)) in
          rw w (put_used (word r a j) ∙ y, o)
    ];
  }

  put-Maps : Maps k s m t b l × (word t p i ≡ b)
  put-Maps = (
    record {
      safe = put-Safe;
      extends = record {
        kept_used = λ a v. put_used a ∙ x.extends.kept_used a v;
        kept_level = x.extends.kept_level;
        kept_word = λ a j v n. elim (Bool-cases ((a == p) && (j == i))) [
          | inl q ↦
              let sa : a ≡ p = ground arith in
              let sj : j ≡ i = ground arith in
              absurd (n (ap (λ y. word s y j) sa ∙ ap (word s p) sj ∙ z))
          | inr q ↦ put_words a j ∙ rw q (x.extends.kept_word a j v n)
        ];
      };
      in_use = put_used b ∙ x.in_use;
      has_level = x.has_level;
      not_zero = x.not_zero;
    },
    put_words p i ∙ ground arith,
  )

-- `entry` on a block of pointers in use.
entry-Maps :
    (k : ℕ → ℕ) (s t : Disk) (p i b l : ℕ)
    → Safe k s
    → s.used p ≡ true
    → k p ≡ suc l
    → entry p i s ≡ some (b, t)
    → (m : ℕ → ℕ) × Maps k s m t b l × (word t p i ≡ b)
unfolding entry
entry-Maps k s t p i b l h u lp e = elim (Bool-cases (word s p i == 0)) [
  | inl z ↦ elim (Option-cases (balloc s)) [
    | inl n ↦ absurd (none-some _ refl (rw (z, n) at e))
    | inr ((c, r), q) ↦ elim (Option-cases (log_block p (put_block p (update (word r p) i c) r))) [
      | inl n ↦ absurd (none-some _ refl (rw (z, q, n) at e))
      | inr (v, o) ↦
          let pair : (c, v) ≡ (b, t) = some_injective (rw (z, q, o) at e) in
          let w : word s p i ≡ 0 = ground arith in
          let (x, y) =
            put-Maps k (update k c l) s r v p i c l (balloc-Maps k s r c l h q) u w lp
              (log_block_lem p (put_block p (update (word r p) i c) r) v o) in
          subst (λ (y : ℕ × Disk). (m : ℕ → ℕ) × Maps k s m y.1 y.0 l × (word y.1 p i ≡ y.0)) pair
            (update k c l, x, y)
    ]
  ]
  | inr z ↦
      let pair : (word s p i, s) ≡ (b, t) = some_injective (rw z at e) in
      let w : word s p i ≢ 0 = ground arith in
      let (x, y) = h.closed p i l u lp w in
      subst (λ (v : ℕ × Disk). (m : ℕ → ℕ) × Maps k s m v.1 v.0 l × (word v.1 p i ≡ v.0)) pair
        (
          k,
          record { safe = h; extends = Extends-refl k s; in_use = x; has_level = y; not_zero = w },
          refl,
        )
]

-- What is found down the same indices without allocation; 0 if a pointer is missing.
abbrev pub look : List ℕ → ℕ → Disk → ℕ
look [] a s = a
look (i ∷ is) a s = if word s a i == 0 then 0 else look is (word s a i) s

-- Pointers that are found stay.
pub look-Extends :
    (is : List ℕ) (a : ℕ) (k m : ℕ → ℕ) (s t : Disk)
    → Safe k s
    → Extends k m s t
    → s.used a ≡ true
    → k a ≡ length is
    → look is a s ≢ 0
    → look is a t ≡ look is a s
look-Extends [] a k m s t h x u d n = refl
look-Extends (i ∷ is) a k m s t h x u d n = elim (Bool-cases (word s a i == 0)) [
  | inl z ↦ absurd (n (rw z refl))
  | inr z ↦
      let w : word s a i ≢ 0 = ground arith in
      let same = x.kept_word a i u w in
      let (y, o) = h.closed a i (length is) u d w in
      rw (same, z) (look-Extends is (word s a i) k m s t h x y o (rw z at n))
]

pub walk-Maps :
    (is : List ℕ) (a b : ℕ) (k : ℕ → ℕ) (s t : Disk)
    → Safe k s
    → s.used a ≡ true
    → a ≢ 0
    → k a ≡ length is
    → walk is a s ≡ some (b, t)
    → (m : ℕ → ℕ) × Maps k s m t b 0 × (look is a t ≡ b)
unfolding walk
walk-Maps [] a b k s t h u n d e =
    subst (λ (v : ℕ × Disk). (m : ℕ → ℕ) × Maps k s m v.1 v.0 0 × (a ≡ v.0)) (some_injective e)
      (
        k,
        record { safe = h; extends = Extends-refl k s; in_use = u; has_level = d; not_zero = n },
        refl,
      )
walk-Maps (i ∷ is) a b k s t h u n d e = elim (Option-cases (entry a i s)) [
  | inl z ↦ absurd (none-some _ refl (rw z at e))
  | inr ((c, r), q) ↦
      let (m, x, w) = entry-Maps k s r a i c (length is) h u d q in
      let (o, y, l) = walk-Maps is c b m r t x.safe x.in_use x.not_zero x.has_level (rw q at e) in
      let cn : word r a i ≢ 0 = λ z. x.not_zero (sym w ∙ z) in
      let there : word t a i ≡ c = y.extends.kept_word a i (x.extends.kept_used a u) cn ∙ w in
      let z : (c == 0) ≡ false = let nz = x.not_zero in ground arith in
      (
        o,
        record {
          safe = y.safe;
          extends = Extends-trans x.extends y.extends;
          in_use = y.in_use;
          has_level = y.has_level;
          not_zero = y.not_zero;
        },
        rw (there, z) l,
      )
]
