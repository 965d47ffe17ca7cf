-- ===== src/Log/Write.antt =====
-- `log_write` records a block once, and keeps the log fit for `commit`.
use hyu_ele.Prelude.{
  ℕ, zero, suc, ◌+◌, ◌-◌, ◌≡◌, ◌≢◌, ◌≤◌, ◌<◌, ◌⊎◌, ◌↔◌, inl, inr, arith, ◌∙◌, sym, ap, none, some,
  false, Bool-cases, Option-cases, ◌==◌, if◌then◌else◌,
}
use native.Mathlib.Decide.{ℕ_discrete}
use hyu_ele.Log.{Log, State, log_size, find_logged, log_write}
use hyu_ele.Log.Loops.{IsValid}
use hyu_ele.Log.Finish.{Outside}
use hyu_ele.Log.Commit.{Coherent}

-- The search stops at the first index that holds `b`, or at the end.
find_logged_lem :
    (k i : ℕ) (blocks : ℕ → ℕ) (b : ℕ)
    → let j = find_logged k i blocks b in
      (i ≤ j) × (j ≤ i + k) × (j < i + k → blocks j ≡ b) × ((m : ℕ) → i ≤ m → m < j → blocks m ≢ b)
unfolding find_logged
find_logged_lem zero i blocks b =
    (omega arith, omega arith, λ h. absurd (omega arith), λ m h k. absurd (omega arith))
find_logged_lem (suc k) i blocks b = elim (Bool-cases (blocks i == b)) [
  | inl e ↦ rw e (omega arith, omega arith, λ h. ground arith, λ m h k. absurd (omega arith))
  | inr e ↦
      let (lo, hi, at, before) = find_logged_lem k (suc i) blocks b in
      rw e (omega arith, omega arith, λ h. at (omega arith), λ m h k q. first m h k q e before)
]
  where
    first :
        (m : ℕ)
        → i ≤ m
        → m < find_logged k (suc i) blocks b
        → blocks m ≡ b
        → (blocks i == b) ≡ false
        → ((m' : ℕ) → suc i ≤ m' → m' < find_logged k (suc i) blocks b → blocks m' ≢ b)
        → ⊥
    first m h k' q e before = elim (Bool-cases (m == i)) [
      | inl here ↦ ground arith
      | inr there ↦ before m (ground arith) k' q
    ]

-- A block number is in the log header.
abbrev pub Named : Log → ℕ → Type 0
Named l a = (i : ℕ) × (i < l.lh.n) × (l.lh.block i ≡ a)

module _ (s : State) (b : ℕ) (r : State) (done : log_write b s ≡ some r) where
  abbrev at : ℕ
  at = find_logged s.log.lh.n 0 s.log.lh.block b

  -- What a call that does not panic found, and what it leaves.
  record Written : Type 0 where
    room : s.log.lh.n < s.log.size - 1
    limit : s.log.lh.n < log_size
    inside : 1 ≤ s.log.outstanding
    size : r.log.size ≡ s.log.size
    start : r.log.start ≡ s.log.start
    outstanding : r.log.outstanding ≡ s.log.outstanding
    entry : (i : ℕ) → r.log.lh.block i ≡ (if i == at then b else s.log.lh.block i)
    count : r.log.lh.n ≡ (if at == s.log.lh.n then s.log.lh.n + 1 else s.log.lh.n)
    cache : r.cache ≡ s.cache
    disk : r.disk ≡ s.disk

  written : Written
  unfolding log_write
  written = record {
    room = ground arith;
    limit = ground arith;
    inside = ground arith;
    size = ground arith;
    start = ground arith;
    outstanding = ground arith;
    entry = ground arith;
    count = ground arith;
    cache = ground arith;
    disk = ground arith;
  }

  -- The entry `at`: either the block was logged there, or `at` is the first free entry.
  found :
      (at ≤ s.log.lh.n)
      × (at < s.log.lh.n → s.log.lh.block at ≡ b)
      × ((m : ℕ) → m < at → s.log.lh.block m ≢ b)
  found =
      let (lo, hi, is, before) = find_logged_lem s.log.lh.n 0 s.log.lh.block b in
      (omega arith, λ h. is (omega arith), λ m h. before m (omega arith) h)

  apart-written :
      IsValid s.log
      → (i j : ℕ) → i < r.log.lh.n
      → j < r.log.lh.n
      → r.log.lh.block i ≡ r.log.lh.block j
      → i ≡ j
  apart-written v i j h k e =
      let w = written in
      let (hi, is, before) = found in
      ground (arith, w.entry i, w.entry j, w.count, v.apart i j, is, before i, before j)

  Outside-written :
      IsValid s.log
      → Outside s.log.start s.log.size b
      → (i : ℕ) → i < r.log.lh.n
      → Outside r.log.start r.log.size (r.log.lh.block i)
  Outside-written v out i h =
      let w = written in
      let (hi, is, before) = found in
      elim (Bool-cases (i == at)) [
        | inl e ↦ rw (w.entry i, e, w.start, w.size) out
        | inr e ↦ rw (w.entry i, e, w.start, w.size) (v.outside i (ground (arith, w.count)))
      ]

  -- `log_write` of a block outside the log keeps the entries of the header distinct and outside the
  -- log, and leaves room for the header.
  pub log_write-IsValid : IsValid s.log → Outside s.log.start s.log.size b → IsValid r.log
  log_write-IsValid v out =
      let w = written in
      record {
        fits = ground (arith, w.room, w.count, w.size);
        outside = Outside-written v out;
        apart = apart-written v;
      }

  -- The header names the block and what it named before, nothing else, and grows by one entry only if
  -- the block is new to it.
  pub log_write-Named :
      ((a : ℕ) → Named r.log a ↔ ((a ≡ b) ⊎ Named s.log a))
      × (Named s.log b → r.log.lh.n ≡ s.log.lh.n)
      × (¬ Named s.log b → r.log.lh.n ≡ s.log.lh.n + 1)
  log_write-Named =
      let w = written in
      let (hi, is, before) = found in
      (
        λ a. (
          λ (i, h, e). elim (Bool-cases (i == at)) [
            | inl q ↦ inl (ground (arith, w.entry i))
            | inr q ↦ inr (i, ground (arith, w.count), ground (arith, w.entry i))
          ],
          elim [
            | inl e ↦ (at, ground (arith, w.count), ground (arith, w.entry at))
            | inr n ↦ (
              n.0,
              ground (arith, w.count, n.1),
              elim (Bool-cases (n.0 == at)) [
                | inl q ↦ ground (arith, w.entry n.0, is, n.1, n.2)
                | inr q ↦ ground (arith, w.entry n.0, n.2)
              ],
            )
          ],
        ),
        λ (i, h, e). ground (arith, w.count, before i),
        λ new. elim (ℕ_discrete at s.log.lh.n) [
          | yes q ↦ ground (arith, w.count)
          | no q ↦ absurd (new (at, omega arith, is (omega arith)))
        ],
      )

  -- If only the buffer of `b` differed from the disk outside the transaction, `log_write` makes the
  -- cache coherent again.
  pub log_write-Coherent :
      ((a : ℕ)
        → Outside s.log.start s.log.size a
        → a ≢ b
        → ((i : ℕ) → i < s.log.lh.n → a ≢ s.log.lh.block i)
        → s.disk a ≡ s.cache a)
      → Coherent r
  log_write-Coherent h a out not_named =
      let w = written in
      let named = log_write-Named.0 a in
      ap (λ (d : ℕ → ℕ → ℕ). d a) w.disk
      ∙ h a (ground (arith, w.start, w.size))
          (λ e. let (i, k, q) = named.1 (inl e) in not_named i k (sym q))
          (λ i k e. let (j, k', q) = named.1 (inr (i, k, sym e)) in not_named j k' (sym q))
      ∙ sym (ap (λ (d : ℕ → ℕ → ℕ). d a) w.cache)

  -- In short: the header grows by at most one entry.
  pub log_write_grows : (r.log.lh.n ≤ s.log.lh.n + 1) × (r.log.outstanding ≡ s.log.outstanding)
  log_write_grows = let w = written in (ground (arith, w.count), w.outstanding)

log_write-ne-none :
    (s : State) (b : ℕ)
    → s.log.lh.n < log_size
    → s.log.lh.n < s.log.size - 1
    → 1 ≤ s.log.outstanding
    → log_write b s ≢ none
unfolding log_write
log_write-ne-none s b h k o = ground arith

-- Without the two panics the call succeeds.
pub log_write_runs :
    (s : State) (b : ℕ)
    → s.log.lh.n < log_size
    → s.log.lh.n < s.log.size - 1
    → 1 ≤ s.log.outstanding
    → (r : State) × (log_write b s ≡ some r)
log_write_runs s b h k o = elim (Option-cases (log_write b s)) [
  | inl fails ↦ absurd (log_write-ne-none s b h k o fails)
  | inr runs ↦ runs
]

-- One entry short of a full log the call panics, whatever it is to log.
pub log_write_full : (s : State) (b : ℕ) → s.log.size - 1 ≤ s.log.lh.n → log_write b s ≡ none
unfolding log_write
log_write_full s b h = ground arith
