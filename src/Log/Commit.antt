-- ===== src/Log/Commit.antt =====
-- `commit`, interrupted by a power failure after any number of disk writes.
use hyu_ele.Prelude.{
  ℕ, zero, suc, ◌+◌, ◌-◌, ◌≡◌, ◌≢◌, refl, ◌≤◌, ◌<◌, arith, ◌∙◌, sym, subst, ap, lt→ltb,
}
use native.Mathlib.Decide.{dec_lt}
use hyu_ele.Prelude.Maps.{update}
use hyu_ele.Log.{
  Block, Log, State, with_n, bwrite, copy_block, write_head, write_log, install_from, install_trans,
  commit,
}
use hyu_ele.Log.Loops.{IsValid, Logged, write_log-Logged}
use hyu_ele.Log.Finish.{
  Outside, Clean, Committed, put_blocks-zero, put_blocks-suc, finish, finish-Clean,
  finish-Committed,
}

-- Without disk writes left nothing reaches the disk.
install_frozen :
    (k t : ℕ) (s : State)
    → s.writes_left ≡ 0
    → ((install_from k t s).disk ≡ s.disk) × ((install_from k t s).writes_left ≡ 0)
unfolding install_from copy_block bwrite
install_frozen zero t s e = (refl, e)
install_frozen (suc k) t s e =
    let ih =
      install_frozen k (suc t) (copy_block (s.log.lh.block t) (s.log.start + t + 1) s)
        (ground arith) in
    ground (arith, ih)

write_head_frozen :
    (s : State)
    → s.writes_left ≡ 0
    → ((write_head s).disk ≡ s.disk) × ((write_head s).writes_left ≡ 0)
unfolding write_head bwrite
write_head_frozen s e = ground arith

finish_frozen : (s : State) → s.writes_left ≡ 0 → (finish s).disk ≡ s.disk
unfolding install_trans
finish_frozen s e =
    let (d, w) = install_frozen s.log.lh.n 0 s e in
    (write_head_frozen (with_n 0 (install_trans s)) w).0 ∙ d

module _ (s : State) (v : IsValid s.log) where
  abbrev logged : State
  logged = write_log s

  abbrev headed : State
  headed = write_head logged

  logs : Logged s s.log.lh.n logged
  logs = write_log-Logged s v

  headed-log : headed.log ≡ s.log
  unfolding write_head bwrite
  headed-log = logs.log

  headed-left : headed.writes_left ≡ s.writes_left - s.log.lh.n - 1
  unfolding write_head bwrite
  headed-left = ground (arith, logs.left)

  headed-cache :
      (i : ℕ) → i < s.log.lh.n → headed.cache (s.log.start + i + 1) ≡ s.cache (s.log.lh.block i)
  unfolding write_head bwrite
  headed-cache i h = let l = logs in ground (arith, l.copied i)

  module _ (w : s.log.lh.n < s.writes_left)
      (coherent : (a : ℕ)
        → Outside s.log.start s.log.size a
        → ((i : ℕ) → i < s.log.lh.n → a ≢ s.log.lh.block i)
        → s.disk a ≡ s.cache a) where
    headed-Committed :
        Committed s.log.start s.log.size s.log.lh.n s.log.lh.block s.cache headed.disk
    unfolding write_head bwrite
    headed-Committed =
        let l = logs in
        record {
          header_n = ground (
            arith,
            l.left,
            put_blocks-zero s.log.lh.n s.log.lh.block
                (update (logged.cache s.log.start) 0 s.log.lh.n),
          );
          header_block = λ i h. ground (
            arith,
            l.left,
            put_blocks-suc s.log.lh.n s.log.lh.block
                (update (logged.cache s.log.start) 0 s.log.lh.n) i,
          );
          logged = λ i h. ground (arith, l.left, l.on_disk i);
          home = λ a out not_named.
              ground (arith, l.left, l.disk_else a, coherent a out not_named, v.fits);
        }

    headed-IsValid : IsValid headed.log
    headed-IsValid = subst IsValid (sym headed-log) v

    headed-Committed' :
        Committed headed.log.start headed.log.size headed.log.lh.n headed.log.lh.block s.cache
          headed.disk
    headed-Committed' =
        subst (λ (g : Log). Committed g.start g.size g.lh.n g.lh.block s.cache headed.disk)
          (sym headed-log) headed-Committed

    headed-held :
        (i : ℕ)
        → i < headed.log.lh.n
        → headed.cache (headed.log.start + i + 1) ≡ s.cache (headed.log.lh.block i)
    headed-held =
        subst
          (λ (g : Log).
            (i : ℕ) → i < g.lh.n → headed.cache (g.start + i + 1) ≡ s.cache (g.lh.block i))
          (sym headed-log) headed-cache

    same_n : headed.log.lh.n ≡ s.log.lh.n
    same_n = ap (λ (g : Log). g.lh.n) headed-log

    enough_writes :
        s.log.lh.n + s.log.lh.n + 1 < s.writes_left
        → Clean s.log.start s.log.size s.cache (finish headed).disk
    enough_writes b =
        subst (λ (g : Log). Clean g.start g.size s.cache (finish headed).disk) headed-log
          (finish-Clean headed s.cache headed-IsValid headed-Committed' headed-held
            (omega (arith, headed-left, same_n)))

    some_writes :
        s.writes_left ≤ s.log.lh.n + s.log.lh.n + 1
        → Committed s.log.start s.log.size s.log.lh.n s.log.lh.block s.cache (finish headed).disk
    some_writes b =
        subst (λ (g : Log). Committed g.start g.size g.lh.n g.lh.block s.cache (finish headed).disk)
          headed-log
          (finish-Committed headed s.cache headed-IsValid headed-Committed' headed-held
            (omega (arith, headed-left, same_n)))

  few_writes :
      s.writes_left ≤ s.log.lh.n
      → s.disk s.log.start 0 ≡ 0
      → Clean s.log.start s.log.size s.disk (finish headed).disk
  few_writes w e =
      let l = logs in
      let gone : logged.writes_left ≡ 0 = omega (arith, l.left) in
      let (d, left) = write_head_frozen logged gone in
      let same : (finish headed).disk ≡ logged.disk = finish_frozen headed left ∙ d in
      rw same (record {
        no_commit = ap (λ (b : Block). b 0) (l.disk_else s.log.start (omega arith)) ∙ e;
        home = λ a out. l.disk_else a (omega arith);
      })

  commit-finish : 0 < s.log.lh.n → commit s ≡ finish headed
  unfolding commit
  commit-finish h = rw (lt→ltb 0 s.log.lh.n h)

  commit-empty : s.log.lh.n ≡ 0 → commit s ≡ s
  unfolding commit
  commit-empty e = ground arith

-- Blocks outside the log that are not in the transaction are in the cache as they are on disk.
abbrev pub Coherent : State → Type 0
Coherent s =
    (a : ℕ)
    → Outside s.log.start s.log.size a
    → ((i : ℕ) → i < s.log.lh.n → a ≢ s.log.lh.block i)
    → s.disk a ≡ s.cache a

-- `commit` of a transaction of `n` blocks, where the disk takes only so many more writes: with at
-- most `n` it leaves the old disk, with at most `2n + 1` a committed transaction, and with more the
-- new disk with an empty header.
pub commit_prefix :
    (s : State)
    → IsValid s.log
    → s.disk s.log.start 0 ≡ 0
    → Coherent s
    → (s.writes_left ≤ s.log.lh.n → Clean s.log.start s.log.size s.disk (commit s).disk)
      × (s.log.lh.n < s.writes_left
          → s.writes_left ≤ s.log.lh.n + s.log.lh.n + 1
          → Committed s.log.start s.log.size s.log.lh.n s.log.lh.block s.cache (commit s).disk)
      × (s.log.lh.n + s.log.lh.n + 1 < s.writes_left
          → Clean s.log.start s.log.size s.cache (commit s).disk)
commit_prefix s v e coherent = elim (dec_lt 0 s.log.lh.n) [
  | yes h ↦ rw (commit-finish s v h) (
    λ w. few_writes s v w e,
    λ w b. some_writes s v w coherent b,
    λ b. enough_writes s v (omega arith) coherent b,
  )
  | no h ↦ rw (commit-empty s v (omega arith)) (
    λ w. record { no_commit = e; home = λ a out. refl },
    λ w b. record {
      header_n = omega (arith, e);
      header_block = λ i k. absurd (omega arith);
      logged = λ i k. absurd (omega arith);
      home = λ a out no_name. coherent a out no_name;
    },
    λ b. record { no_commit = e; home = λ a out. coherent a out (λ i k. absurd (omega arith)) },
  )
]
