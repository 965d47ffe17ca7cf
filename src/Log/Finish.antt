-- ===== src/Log/Finish.antt =====
-- What the disk says of a transaction, and the last part of `commit`, which `recover_from_log` shares:
-- install the blocks, then clear the header.
use hyu_ele.Prelude.{ℕ, zero, suc, ◌+◌, ◌≡◌, ◌≢◌, refl, ◌≤◌, ◌<◌, ◌⊎◌, inl, inr, arith, ◌∙◌, ap}
use hyu_ele.Log.{
  Block, Log, State, with_n, bwrite, install_trans, put_blocks, take_blocks, write_head,
}
use native.Mathlib.Decide.{ℕ_discrete}
use hyu_ele.Log.Loops.{IsValid, Installed, install_trans-Installed}

-- The blocks that are not the log's.
abbrev pub Outside : ℕ → ℕ → ℕ → Type 0
Outside start size a = (a < start) ⊎ (start + size ≤ a)

-- The header on disk is empty, and outside the log the disk holds `x`.
pub record Clean (start size : ℕ) (x disk : ℕ → Block) : Type 0 where
  pub no_commit : disk start 0 ≡ 0
  pub home : (a : ℕ) → Outside start size a → disk a ≡ x a

-- The header on disk names the blocks, the log holds what `x` has there, and the disk holds `x` at
-- all blocks that are neither the log's nor named.
pub record Committed (start size n : ℕ) (block : ℕ → ℕ) (x disk : ℕ → Block) : Type 0 where
  pub header_n : disk start 0 ≡ n
  pub header_block : (i : ℕ) → i < n → disk start (suc i) ≡ block i
  pub logged : (i : ℕ) → i < n → disk (start + i + 1) ≡ x (block i)
  pub home : (a : ℕ) → Outside start size a → ((i : ℕ) → i < n → a ≢ block i) → disk a ≡ x a

pub put_blocks-zero : (k : ℕ) (b : ℕ → ℕ) (w : Block) → put_blocks k b w 0 ≡ w 0
unfolding put_blocks
put_blocks-zero zero b w = refl
put_blocks-zero (suc k) b w = ground (arith, put_blocks-zero k b w)

pub put_blocks-suc :
    (k : ℕ) (b : ℕ → ℕ) (w : Block) (i : ℕ) → i < k → put_blocks k b w (suc i) ≡ b i
unfolding put_blocks
put_blocks-suc zero b w i h = absurd (omega arith)
put_blocks-suc (suc k) b w i h = ground (arith, put_blocks-suc k b w i)

pub take_blocks-lt :
    (k : ℕ) (w : Block) (b : ℕ → ℕ) (i : ℕ) → i < k → take_blocks k w b i ≡ w (suc i)
unfolding take_blocks
take_blocks-lt zero w b i h = absurd (omega arith)
take_blocks-lt (suc k) w b i h = ground (arith, take_blocks-lt k w b i)

-- Whether a block is among the first `n` of a table.
pub named :
    (n : ℕ) (b : ℕ → ℕ) (a : ℕ) → ((i : ℕ) × (i < n) × (a ≡ b i)) ⊎ ((i : ℕ) → i < n → a ≢ b i)
named zero b a = inr (λ i h. absurd (omega arith))
named (suc n) b a = elim (named n b a) [
  | inl (i, h, e) ↦ inl (i, omega arith, e)
  | inr none_below ↦ elim (ℕ_discrete a (b n)) [
    | yes e ↦ inl (n, omega arith, e)
    | no ne ↦ inr (λ i h. elim (ℕ_discrete i n) [
      | yes e ↦ λ q. ne (q ∙ ap b e)
      | no up ↦ none_below i (omega arith)
    ])
  ]
]

-- `install_trans(); log.lh.n = 0; write_head();`
abbrev pub finish : State → State
finish s = write_head (with_n 0 (install_trans s))

module _ (s : State) (x : ℕ → Block) (v : IsValid s.log)
    (c : Committed s.log.start s.log.size s.log.lh.n s.log.lh.block x s.disk)
    (held : (i : ℕ) → i < s.log.lh.n → s.cache (s.log.start + i + 1) ≡ x (s.log.lh.block i)) where
  abbrev mid : State
  mid = install_trans s

  installed : Installed s s.log.lh.n mid
  installed = install_trans-Installed s v

  -- With enough writes everything is at home and the header is empty.
  pub finish-Clean : s.log.lh.n < s.writes_left → Clean s.log.start s.log.size x (finish s).disk
  unfolding write_head put_blocks bwrite
  finish-Clean w =
      let r = installed in
      let e = ap (λ (l : Log). l.start) r.log in
      record {
        no_commit = ground (arith, r.left);
        home = λ a out. elim (named s.log.lh.n s.log.lh.block a) [
          | inl (i, h, q) ↦ ground (arith, r.left, r.on_disk i, held i, v.fits)
          | inr not_named ↦
              ground (arith, r.left, r.disk_else a not_named, c.home a out not_named, v.fits)
        ];
      }

  -- A block of the log is not named.
  not_home :
      (a : ℕ)
      → s.log.start ≤ a
      → a < s.log.start + s.log.size
      → (i : ℕ) → i < s.log.lh.n
      → a ≢ s.log.lh.block i
  not_home a lo hi i h e = omega (arith, v.outside i h)

  -- With fewer writes the transaction stays recoverable.
  pub finish-Committed :
      s.writes_left ≤ s.log.lh.n
      → Committed s.log.start s.log.size s.log.lh.n s.log.lh.block x (finish s).disk
  unfolding write_head put_blocks bwrite
  finish-Committed w =
      let r = installed in
      record {
        header_n = ground (
          arith,
          r.left,
          r.disk_else s.log.start (not_home s.log.start (omega arith) (omega (arith, v.fits))),
          c.header_n,
        );
        header_block = λ i h. ground (
          arith,
          r.left,
          r.disk_else s.log.start (not_home s.log.start (omega arith) (omega (arith, v.fits))),
          c.header_block i,
        );
        logged = λ i h. ground (
          arith,
          r.left,
          r.disk_else (s.log.start + i + 1)
              (not_home (s.log.start + i + 1) (omega arith) (omega (arith, v.fits))),
          c.logged i,
        );
        home = λ a out not_named.
            ground (arith, r.left, r.disk_else a not_named, c.home a out not_named);
      }

-- The transaction that the header on disk names has distinct blocks outside the log, which has room.
pub record Geometry (start size n : ℕ) (block : ℕ → ℕ) : Type 0 where
  pub fits : n < size
  pub outside : (i : ℕ) → i < n → Outside start size (block i)
  pub apart : (i j : ℕ) → i < n → j < n → block i ≡ block j → i ≡ j

-- The same transaction under other names.
pub Committed-rename :
    {start size n m : ℕ} {b b' : ℕ → ℕ} {x d : ℕ → Block}
    → Committed start size n b x d
    → n ≡ m
    → ((i : ℕ) → i < n → b i ≡ b' i)
    → Committed start size m b' x d
Committed-rename {b} {b'} {x} c e same = record {
  header_n = c.header_n ∙ e;
  header_block = λ i h. c.header_block i (omega arith) ∙ same i (omega arith);
  logged = λ i h. c.logged i (omega arith) ∙ ap x (same i (omega arith));
  home = λ a out not_named. c.home a out (λ i h q. not_named i (omega arith) (q ∙ same i h));
}

-- An empty transaction is a clean disk.
pub Committed-empty :
    {start size : ℕ} {b : ℕ → ℕ} {x d : ℕ → Block}
    → Clean start size x d
    → Committed start size 0 b x d
Committed-empty c = record {
  header_n = c.no_commit;
  header_block = λ i h. absurd (omega arith);
  logged = λ i h. absurd (omega arith);
  home = λ a out _. c.home a out;
}

pub Clean-empty :
    {start size : ℕ} {b : ℕ → ℕ} {x d : ℕ → Block}
    → Committed start size 0 b x d
    → Clean start size x d
Clean-empty c = record {
  no_commit = c.header_n;
  home = λ a out. c.home a out (λ i h. absurd (omega arith));
}
