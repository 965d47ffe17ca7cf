-- ===== src/Log/Loops.antt =====
-- The two copying loops of the log, with a budget of disk writes.
use hyu_ele.Prelude.{ℕ, zero, suc, ◌+◌, ◌-◌, ◌≡◌, ◌≢◌, refl, ◌≤◌, ◌<◌, ◌⊎◌, arith, sym, subst}
use hyu_ele.Log.{
  Log, State, bwrite, copy_block, write_log_from, write_log, install_from, install_trans,
}

-- The logged blocks are distinct, none lies in the log, and the log has room for them.
pub record IsValid (l : Log) : Type 0 where
  pub fits : l.lh.n < l.size
  pub outside : (i : ℕ) → i < l.lh.n → (l.lh.block i < l.start) ⊎ (l.start + l.size ≤ l.lh.block i)
  pub apart : (i j : ℕ) → i < l.lh.n → j < l.lh.n → l.lh.block i ≡ l.lh.block j → i ≡ j

-- After `t` rounds of `write_log`, started in `s`.
pub record Logged (s : State) (t : ℕ) (r : State) : Type 0 where
  pub log : r.log ≡ s.log
  pub left : r.writes_left ≡ s.writes_left - t
  pub copied : (i : ℕ) → i < t → r.cache (s.log.start + i + 1) ≡ s.cache (s.log.lh.block i)
  pub on_disk :
      (i : ℕ)
      → i < t
      → i < s.writes_left
      → r.disk (s.log.start + i + 1) ≡ s.cache (s.log.lh.block i)
  pub cache_else :
      (a : ℕ) → (a ≤ s.log.start) ⊎ (s.log.start + s.log.size ≤ a) → r.cache a ≡ s.cache a
  pub disk_else : (a : ℕ) → (a ≤ s.log.start) ⊎ (s.log.start + s.log.size ≤ a) → r.disk a ≡ s.disk a

module _ (s : State) (v : IsValid s.log) where
  Logged-step :
      (t : ℕ) (r : State)
      → t < s.log.lh.n
      → Logged s t r
      → Logged s (suc t) (copy_block (s.log.start + t + 1) (s.log.lh.block t) r)
  unfolding copy_block bwrite
  Logged-step t r lt l = record {
    log = l.log;
    left = ground (arith, l.left);
    copied = λ i h. ground (arith, l.copied i, l.cache_else (s.log.lh.block t), v.outside t lt);
    on_disk = λ i h w.
        ground (arith, l.left, l.on_disk i, l.cache_else (s.log.lh.block t), v.outside t lt);
    cache_else = λ a h. ground (arith, l.cache_else a, v.fits);
    disk_else = λ a h. ground (arith, l.disk_else a, v.fits);
  }

  Logged-loop :
      (k t j : ℕ) (r : State)
      → t + k ≡ j
      → j ≤ s.log.lh.n
      → Logged s t r
      → Logged s j (write_log_from k t r)
  unfolding write_log_from
  Logged-loop zero t j r e le l = let e' : t ≡ j = omega arith in rw (← e') l
  Logged-loop (suc k) t j r e le l = Logged-loop k (suc t) j _ (omega arith) le (
      subst (λ (g : Log). Logged s (suc t) (copy_block (g.start + t + 1) (g.lh.block t) r))
        (sym l.log) (Logged-step t r (omega arith) l))

  pub write_log-Logged : Logged s s.log.lh.n (write_log s)
  unfolding write_log
  write_log-Logged = Logged-loop s.log.lh.n 0 s.log.lh.n s (omega arith) (omega arith) (record {
    log = refl;
    left = omega arith;
    copied = λ i h. absurd (omega arith);
    on_disk = λ i h w. absurd (omega arith);
    cache_else = λ a h. refl;
    disk_else = λ a h. refl;
  })

-- After `t` rounds of `install_trans`, started in `s`.
pub record Installed (s : State) (t : ℕ) (r : State) : Type 0 where
  pub log : r.log ≡ s.log
  pub left : r.writes_left ≡ s.writes_left - t
  pub copied : (i : ℕ) → i < t → r.cache (s.log.lh.block i) ≡ s.cache (s.log.start + i + 1)
  pub on_disk :
      (i : ℕ)
      → i < t
      → i < s.writes_left
      → r.disk (s.log.lh.block i) ≡ s.cache (s.log.start + i + 1)
  pub cache_else : (a : ℕ) → ((i : ℕ) → i < t → a ≢ s.log.lh.block i) → r.cache a ≡ s.cache a
  pub disk_else : (a : ℕ) → ((i : ℕ) → i < t → a ≢ s.log.lh.block i) → r.disk a ≡ s.disk a

module _ (s : State) (v : IsValid s.log) where
  -- The block of the log that round `t` reads has not been written.
  source_kept :
      (t : ℕ) (r : State)
      → t < s.log.lh.n
      → Installed s t r
      → r.cache (s.log.start + t + 1) ≡ s.cache (s.log.start + t + 1)
  source_kept t r lt l =
      l.cache_else (s.log.start + t + 1) (λ i h e. omega (arith, v.outside i (omega arith), v.fits))

  Installed-step :
      (t : ℕ) (r : State)
      → t < s.log.lh.n
      → Installed s t r
      → Installed s (suc t) (copy_block (s.log.lh.block t) (s.log.start + t + 1) r)
  unfolding copy_block bwrite
  Installed-step t r lt l = record {
    log = l.log;
    left = ground (arith, l.left);
    copied = λ i h. ground (arith, l.copied i, source_kept t r lt l, v.apart i t);
    on_disk = λ i h w. ground (arith, l.left, l.on_disk i, source_kept t r lt l, v.apart i t);
    cache_else = λ a h. ground (arith, l.cache_else a (λ i b. h i (omega arith)), h t);
    disk_else = λ a h. ground (arith, l.disk_else a (λ i b. h i (omega arith)), h t);
  }

  Installed-loop :
      (k t j : ℕ) (r : State)
      → t + k ≡ j
      → j ≤ s.log.lh.n
      → Installed s t r
      → Installed s j (install_from k t r)
  unfolding install_from
  Installed-loop zero t j r e le l = let e' : t ≡ j = omega arith in rw (← e') l
  Installed-loop (suc k) t j r e le l = Installed-loop k (suc t) j _ (omega arith) le (
      subst (λ (g : Log). Installed s (suc t) (copy_block (g.lh.block t) (g.start + t + 1) r))
        (sym l.log) (Installed-step t r (omega arith) l))

  pub install_trans-Installed : Installed s s.log.lh.n (install_trans s)
  unfolding install_trans
  install_trans-Installed =
      Installed-loop s.log.lh.n 0 s.log.lh.n s (omega arith) (omega arith) (record {
        log = refl;
        left = omega arith;
        copied = λ i h. absurd (omega arith);
        on_disk = λ i h w. absurd (omega arith);
        cache_else = λ a h. refl;
        disk_else = λ a h. refl;
      })
