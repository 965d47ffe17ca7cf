-- ===== src/Fs/Paths.antt =====
-- `bmap`: the block numbers of a file and the pointers that lead to its blocks.
use hyu_ele.Prelude.{
  ℕ, ◌+◌, ◌-◌, ◌*◌, ◌/◌, ◌%◌, ◌≡◌, ◌≢◌, ◌≤◌, ◌<◌, inl, inr, refl, sym, ap, subst, ◌∙◌, arith, true,
  false, ◌==◌, ltb, if◌then◌else◌, List, [], ◌∷◌, length, Option, none, some, Bool-cases,
  Option-cases,
}
use hyu_ele.Prelude.Maps.{update}
use hyu_ele.Fs.{Disk, Inode, balloc, inode_entry, walk, from_inode, bmap, ndirect, maxfile}
use hyu_ele.Fs.Blocks.{
  Safe, Extends, Extends-refl, Extends-trans, Maps, balloc-Maps, walk-Maps, look, look-Extends,
  some_injective, none-some,
}

-- The pointer of the inode and the indices in indirect blocks that lead to block `bn` of a file.
abbrev pub path : ℕ → Option (ℕ × List ℕ)
path bn =
    if ltb bn ndirect
    then some (bn, [])
    else if ltb (bn - 10) 128
    then some (10, (bn - 10) ∷ [])
    else if ltb (bn - 10 - 128) 16384
    then some (11, ((bn - 10 - 128) / 128) ∷ ((bn - 10 - 128) % 128) ∷ [])
    else if ltb (bn - 10 - 128 - 16384) 2097152
    then some (
      12,
      ((bn - 10 - 128 - 16384) / 16384)
          ∷ ((bn - 10 - 128 - 16384) % 16384 / 128)
          ∷ ((bn - 10 - 128 - 16384) % 128)
          ∷ [],
    )
    else none

abbrev pub along : Inode → Disk → Option (ℕ × List ℕ) → Option (ℕ × Inode × Disk)
along ip s none = none
along ip s (some (r, is)) = from_inode r is ip s

pub bmap-path : (ip : Inode) (bn : ℕ) (s : Disk) → bmap ip bn s ≡ along ip s (path bn)
unfolding bmap
bmap-path ip bn s = elim (Bool-cases (ltb bn 10)) [
  | inl a ↦ rw a refl
  | inr a ↦ elim (Bool-cases (ltb (bn - 10) 128)) [
    | inl b ↦ rw (a, b) refl
    | inr b ↦ elim (Bool-cases (ltb (bn - 10 - 128) 16384)) [
      | inl c ↦ rw (a, b, c) refl
      | inr c ↦ elim (Bool-cases (ltb (bn - 10 - 128 - 16384) 2097152)) [
        | inl d ↦ rw (a, b, c, d) refl
        | inr d ↦ rw (a, b, c, d) refl
      ]
    ]
  ]
]

-- The block number that belongs to such indices.
abbrev number : Option (ℕ × List ℕ) → ℕ
number none = maxfile
number (some (r, [])) = r
number (some (r, a ∷ [])) = 10 + a
number (some (r, a ∷ b ∷ [])) = 138 + a * 128 + b
number (some (r, a ∷ b ∷ c ∷ xs)) = 16522 + a * 16384 + b * 128 + c

abbrev pub AllBelow : List ℕ → Type 0
AllBelow [] = Unit {0}
AllBelow (i ∷ is) = (i < 128) × AllBelow is

abbrev pub InRange : Option (ℕ × List ℕ) → Type 0
InRange none = ⊥
InRange (some (r, is)) = (r < 13) × AllBelow is × (length is ≤ 3)

number-path : (bn : ℕ) → bn < maxfile → (number (path bn) ≡ bn) × InRange (path bn)
number-path bn lt = elim (Bool-cases (ltb bn 10)) [
  | inl a ↦ rw a (refl, (ground arith, tt, ground arith))
  | inr a ↦ elim (Bool-cases (ltb (bn - 10) 128)) [
    | inl b ↦ rw (a, b) (ground arith, (ground arith, (ground arith, tt), ground arith))
    | inr b ↦ elim (Bool-cases (ltb (bn - 10 - 128) 16384)) [
      | inl c ↦
          rw (a, b, c)
            (ground arith, (ground arith, (ground arith, (ground arith, tt)), ground arith))
      | inr c ↦
          let d : ltb (bn - 10 - 128 - 16384) 2097152 ≡ true = ground arith in
          rw (a, b, c, d)
            (
              ground arith,
              (ground arith, (ground arith, (ground arith, (ground arith, tt))), ground arith),
            )
    ]
  ]
]

-- The level of the blocks that the pointers of an inode lead to.
abbrev pub depth : ℕ → ℕ
depth i = if i == 10 then 1 else if i == 11 then 2 else if i == 12 then 3 else 0

abbrev Deep : Option (ℕ × List ℕ) → Type 0
Deep none = Unit {0}
Deep (some (r, is)) = depth r ≡ length is

path-Deep : (bn : ℕ) → Deep (path bn)
path-Deep bn = elim (Bool-cases (ltb bn 10)) [
  | inl a ↦ rw a (ground arith)
  | inr a ↦ elim (Bool-cases (ltb (bn - 10) 128)) [
    | inl b ↦ rw (a, b) refl
    | inr b ↦ elim (Bool-cases (ltb (bn - 10 - 128) 16384)) [
      | inl c ↦ rw (a, b, c) refl
      | inr c ↦ elim (Bool-cases (ltb (bn - 10 - 128 - 16384) 2097152)) [
        | inl d ↦ rw (a, b, c, d) refl
        | inr d ↦ rw (a, b, c, d) tt
      ]
    ]
  ]
]

-- `bmap` goes from a pointer of the inode through at most three indirect blocks, along indices below
-- 128; different block numbers of a file have different such paths.
pub bmap-path_apart :
    (ip : Inode) (s : Disk) (m n : ℕ)
    → m < maxfile
    → n < maxfile
    → (bmap ip m s ≡ along ip s (path m)) × InRange (path m) × (path m ≡ path n → m ≡ n)
bmap-path_apart ip s m n lm ln =
    let (a, r) = number-path m lm in
    let (b, _) = number-path n ln in (bmap-path ip m s, r, λ e. sym a ∙ ap number e ∙ b)

path-none : (bn : ℕ) → maxfile ≤ bn → path bn ≡ none
path-none bn le =
    let a : ltb bn 10 ≡ false = ground arith in
    let b : ltb (bn - 10) 128 ≡ false = ground arith in
    let c : ltb (bn - 10 - 128) 16384 ≡ false = ground arith in
    let d : ltb (bn - 10 - 128 - 16384) 2097152 ≡ false = ground arith in rw (a, b, c, d) refl

-- `bmap` panics on a block number from `MAXFILE` on.
bmap-none : (ip : Inode) (bn : ℕ) (s : Disk) → maxfile ≤ bn → bmap ip bn s ≡ none
bmap-none ip bn s le = bmap-path ip bn s ∙ ap (along ip s) (path-none bn le)

-- The block found on a path without allocation, 0 if there is none.
abbrev pub found_at : Option (ℕ × List ℕ) → Inode → Disk → ℕ
found_at none ip s = 0
found_at (some (r, is)) ip s = if ip.addrs r == 0 then 0 else look is (ip.addrs r) s

abbrev pub found : ℕ → Inode → Disk → ℕ
found bn ip s = found_at (path bn) ip s

-- The disk is safe, and the inode points at blocks in use of the levels that belong to its pointers.
pub record FileSafe (k : ℕ → ℕ) (ip : Inode) (s : Disk) : Type 0 where
  pub disk : Safe k s
  pub roots : (i : ℕ) → ip.addrs i ≢ 0 → (s.used (ip.addrs i) ≡ true) × (k (ip.addrs i) ≡ depth i)

-- What a successful call of `bmap` gives.
pub record Mapped (k : ℕ → ℕ) (bn : ℕ) (ip : Inode) (s : Disk) (m : ℕ → ℕ) (jp : Inode) (t : Disk)
    (b : ℕ) : Type 0 where
  pub safe : FileSafe m jp t
  pub same_levels : (a : ℕ) → s.used a ≡ true → m a ≡ k a
  pub in_use : t.used b ≡ true
  pub is_data : m b ≡ 0
  pub not_zero : b ≢ 0
  pub is_found : found bn jp t ≡ b
  pub others : (n : ℕ) → found n ip s ≢ 0 → found n jp t ≡ found n ip s

-- The inode keeps its pointers.
KeepsRoots : Inode → Inode → Type 0
KeepsRoots ip jp = (i : ℕ) → ip.addrs i ≢ 0 → jp.addrs i ≡ ip.addrs i

record Rooted (k : ℕ → ℕ) (ip : Inode) (s : Disk) (r : ℕ) (m : ℕ → ℕ) (jp : Inode) (t : Disk)
    (a : ℕ) : Type 0 where
  maps : Maps k s m t a (depth r)
  roots : (i : ℕ) → jp.addrs i ≢ 0 → (t.used (jp.addrs i) ≡ true) × (m (jp.addrs i) ≡ depth i)
  here : jp.addrs r ≡ a
  keeps : KeepsRoots ip jp

inode_entry-Rooted :
    (k : ℕ → ℕ) (r : ℕ) (ip : Inode) (s : Disk) (a : ℕ) (jp : Inode) (t : Disk)
    → FileSafe k ip s
    → inode_entry r ip s ≡ some (a, jp, t)
    → (m : ℕ → ℕ) × Rooted k ip s r m jp t a
unfolding inode_entry KeepsRoots
inode_entry-Rooted k r ip s a jp t h e = elim (Bool-cases (ip.addrs r == 0)) [
  | inl z ↦ elim (Option-cases (balloc s)) [
    | inl n ↦ absurd (none-some _ refl (rw (z, n) at e))
    | inr ((c, u), q) ↦
        let pair : (c, record ip { addrs = update ip.addrs r c }, u) ≡ (a, jp, t) =
          some_injective (rw (z, q) at e) in
        let x = balloc-Maps k s u c (depth r) h.disk q in
        let w : ip.addrs r ≡ 0 = ground arith in
        subst (λ (v : ℕ × Inode × Disk). (m : ℕ → ℕ) × Rooted k ip s r m v.1 v.2 v.0) pair
          (
            update k c (depth r),
            record {
              maps = x;
              roots = new_roots c u x.in_use x.has_level x.extends;
              here = ground arith;
              keeps = λ i n. ground arith;
            },
          )
  ]
  | inr z ↦
      let w : ip.addrs r ≢ 0 = ground arith in
      let pair : (ip.addrs r, ip, s) ≡ (a, jp, t) = some_injective (rw z at e) in
      let (y, o) = h.roots r w in
      subst (λ (v : ℕ × Inode × Disk). (m : ℕ → ℕ) × Rooted k ip s r m v.1 v.2 v.0) pair
        (
          k,
          record {
            maps = record {
              safe = h.disk;
              extends = Extends-refl k s;
              in_use = y;
              has_level = o;
              not_zero = w;
            };
            roots = h.roots;
            here = refl;
            keeps = λ i n. refl;
          },
        )
]
  where
    new_roots :
        (c : ℕ) (u : Disk) {m : ℕ → ℕ}
        → u.used c ≡ true
        → m c ≡ depth r
        → Extends k m s u
        → (i : ℕ) → update ip.addrs r c i ≢ 0
        → (u.used (update ip.addrs r c i) ≡ true) × (m (update ip.addrs r c i) ≡ depth i)
    new_roots c u {m} v d x i n = elim (Bool-cases (i == r)) [
      | inl q ↦ let same : i ≡ r = ground arith in rw q (v, d ∙ ap depth (sym same))
      | inr q ↦
          let (y, o) = h.roots i (rw q at n) in
          rw q (x.kept_used (ip.addrs i) y, x.kept_level (ip.addrs i) y ∙ o)
    ]

found_at-keeps :
    (k m : ℕ → ℕ) (p : Option (ℕ × List ℕ)) (ip jp : Inode) (s t : Disk)
    → FileSafe k ip s
    → Deep p
    → KeepsRoots ip jp
    → Extends k m s t
    → found_at p ip s ≢ 0
    → found_at p jp t ≡ found_at p ip s
unfolding KeepsRoots
found_at-keeps k m none ip jp s t h d g x n = refl
found_at-keeps k m (some (r, is)) ip jp s t h d g x n = elim (Bool-cases (ip.addrs r == 0)) [
  | inl z ↦ absurd (n (rw z refl))
  | inr z ↦
      let w : ip.addrs r ≢ 0 = ground arith in
      let (y, o) = h.roots r w in
      rw (g r w, z) (look-Extends is (ip.addrs r) k m s t h.disk x y (o ∙ d) (rw z at n))
]

record Along (k : ℕ → ℕ) (p : Option (ℕ × List ℕ)) (ip : Inode) (s : Disk) (m : ℕ → ℕ) (jp : Inode)
    (t : Disk) (b : ℕ) : Type 0 where
  safe : FileSafe m jp t
  maps : Maps k s m t b 0
  is_found : found_at p jp t ≡ b
  keeps : KeepsRoots ip jp

along-Mapped :
    (k : ℕ → ℕ) (p : Option (ℕ × List ℕ)) (ip : Inode) (s : Disk) (b : ℕ) (jp : Inode) (t : Disk)
    → FileSafe k ip s
    → Deep p
    → along ip s p ≡ some (b, jp, t)
    → (m : ℕ → ℕ) × Along k p ip s m jp t b
unfolding from_inode
along-Mapped k none ip s b jp t h d e = absurd (none-some _ refl e)
along-Mapped k (some (r, is)) ip s b jp t h d e = elim (Option-cases (inode_entry r ip s)) [
  | inl n ↦ absurd (none-some _ refl (rw n at e))
  | inr ((a, kp, u), q) ↦ elim (Option-cases (walk is a u)) [
    | inl n ↦ absurd (none-some _ refl (rw (q, n) at e))
    | inr ((c, v), w) ↦
        let (m, root) = inode_entry-Rooted k r ip s a kp u h q in
        let y = root.maps in
        let (o, x, l) = walk-Maps is a c m u v y.safe y.in_use y.not_zero (y.has_level ∙ d) w in
        let pair : (c, kp, v) ≡ (b, jp, t) = some_injective (rw (q, w) at e) in
        let z : (a == 0) ≡ false = let nz = y.not_zero in ground arith in
        subst (λ (g : ℕ × Inode × Disk). (f : ℕ → ℕ) × Along k (some (r, is)) ip s f g.1 g.2 g.0)
          pair
          (
            o,
            record {
              safe = record {
                disk = x.safe;
                roots = λ i n.
                    let (i1, i2) = root.roots i n in
                    (
                      x.extends.kept_used (kp.addrs i) i1,
                      x.extends.kept_level (kp.addrs i) i1 ∙ i2,
                    );
              };
              maps = record {
                safe = x.safe;
                extends = Extends-trans y.extends x.extends;
                in_use = x.in_use;
                has_level = x.has_level;
                not_zero = x.not_zero;
              };
              is_found = rw (root.here, z) l;
              keeps = root.keeps;
            },
          )
  ]
]

-- On a disk where the single, double and triple indirect blocks in use point at blocks in use of the level
-- below, and the inode at blocks of the level of each pointer: when `bmap` succeeds, the block that it
-- returns is a data block in use and is found from then on as block `bn` of the file; every block of the
-- file that could be found before is found unchanged, whatever was allocated; the blocks that were in
-- use keep their levels, and the disk is as described again.
pub bmap-Mapped :
    (k : ℕ → ℕ) (ip : Inode) (bn : ℕ) (s : Disk) (b : ℕ) (jp : Inode) (t : Disk)
    → FileSafe k ip s
    → bmap ip bn s ≡ some (b, jp, t)
    → (m : ℕ → ℕ) × Mapped k bn ip s m jp t b
bmap-Mapped k ip bn s b jp t h e =
    let (m, a) =
      along-Mapped k (path bn) ip s b jp t h (path-Deep bn) (sym (bmap-path ip bn s) ∙ e) in
    let x = a.maps in
    (
      m,
      record {
        safe = a.safe;
        same_levels = x.extends.kept_level;
        in_use = x.in_use;
        is_data = x.has_level;
        not_zero = x.not_zero;
        is_found = a.is_found;
        others = λ i n. found_at-keeps k m (path i) ip jp s t h (path-Deep i) a.keeps x.extends n;
      },
    )
