-- ===== src/Log.antt =====
-- The redo log of xv6-public/log.c, over the buffer cache and the disk.
-- A block is its 128 words, so `struct logheader` is word 0 (`n`) and the words `i + 1` (`block[i]`).
-- `cache b` is what `bread` returns for block `b`; `bwrite` (bio.c) carries it to the disk. A power
-- failure is a budget of disk writes: after `writes_left` writes the disk stays as it is.
-- Locks and wakeups are left out: each function below runs between an acquire and the next release
-- or sleep, and `begin_op` and `sync` say when they would sleep.
pub mod Commit
pub mod Crash
pub mod Finish
pub mod Loops
pub mod Progress
pub mod Recover
pub mod Reserve
mod Tests
pub mod Write
use hyu_ele.Prelude.{
  ℕ, zero, suc, ◌+◌, ◌-◌, ◌*◌, Bool, true, false, Option, none, some, ◌==◌, ltb, leb, if◌then◌else◌,
  ◌||◌, ◌&&◌, List, [], ◌∷◌,
}
use hyu_ele.Prelude.Maps.{update}

abbrev pub Block : Type 0
Block = ℕ → ℕ

abbrev pub max_op_blocks : ℕ
max_op_blocks = 20

abbrev pub log_size : ℕ
log_size = max_op_blocks * 3

pub record LogHeader : Type 0 where
  pub n : ℕ
  pub block : ℕ → ℕ

pub record Log : Type 0 where
  pub start : ℕ
  pub size : ℕ
  pub outstanding : ℕ
  pub committing : Bool
  pub dev : ℕ
  pub lh : LogHeader

pub record State : Type 0 where
  pub log : Log
  pub cache : ℕ → Block
  pub dirty : ℕ → Bool
  pub disk : ℕ → Block
  pub writes_left : ℕ

abbrev pub with_n : ℕ → State → State
with_n k s = record s { log = record s.log { lh = record s.log.lh { n = k } } }

-- `bwrite` of the buffer of block `b`; the disk driver clears `B_DIRTY`.
unfoldable pub bwrite : ℕ → State → State
bwrite b s = record s {
  dirty = update s.dirty b false;
  disk = if s.writes_left == 0 then s.disk else update s.disk b (s.cache b);
  writes_left = s.writes_left - 1;
}

-- `memmove(to->data, from->data, BSIZE); bwrite(to);`
unfoldable pub copy_block : ℕ → ℕ → State → State
copy_block to from s = bwrite to (record s { cache = update s.cache to (s.cache from) })

-- `for (tail = ...; tail < log.lh.n; tail++)` with the rounds left as the first argument.
unfoldable pub write_log_from : ℕ → ℕ → State → State
write_log_from zero tail s = s
write_log_from (suc k) tail s =
    write_log_from k (suc tail) (copy_block (s.log.start + tail + 1) (s.log.lh.block tail) s)

unfoldable pub write_log : State → State
write_log s = write_log_from s.log.lh.n 0 s

unfoldable pub install_from : ℕ → ℕ → State → State
install_from zero tail s = s
install_from (suc k) tail s =
    install_from k (suc tail) (copy_block (s.log.lh.block tail) (s.log.start + tail + 1) s)

unfoldable pub install_trans : State → State
install_trans s = install_from s.log.lh.n 0 s

-- `hb->block[i] = log.lh.block[i]` for the first `k` entries.
unfoldable pub put_blocks : ℕ → (ℕ → ℕ) → Block → Block
put_blocks zero blocks w = w
put_blocks (suc k) blocks w = update (put_blocks k blocks w) (suc k) (blocks k)

unfoldable pub write_head : State → State
write_head s =
    let h = s.log.lh in
    let w = put_blocks h.n h.block (update (s.cache s.log.start) 0 h.n) in
    bwrite s.log.start (record s { cache = update s.cache s.log.start w })

-- `log.lh.block[i] = lh->block[i]` for the first `k` entries.
unfoldable pub take_blocks : ℕ → Block → (ℕ → ℕ) → ℕ → ℕ
take_blocks zero w blocks = blocks
take_blocks (suc k) w blocks = update (take_blocks k w blocks) k (w (suc k))

unfoldable pub read_head : State → State
read_head s =
    let w = s.cache s.log.start in
    record s {
      log = record s.log { lh = record { n = w 0; block = take_blocks (w 0) w s.log.lh.block } };
    }

unfoldable pub recover_from_log : State → State
recover_from_log s = write_head (with_n 0 (install_trans (read_head s)))

-- What `initlog` reads from the super block.
pub record SuperBlock : Type 0 where
  pub logstart : ℕ
  pub nlog : ℕ

unfoldable pub initlog : ℕ → SuperBlock → State → State
initlog dev sb s =
    recover_from_log
      (record s { log = record s.log { start = sb.logstart; size = sb.nlog; dev = dev } })

unfoldable pub commit : State → State
commit s =
    if ltb 0 s.log.lh.n then write_head (with_n 0 (install_trans (write_head (write_log s)))) else s

-- `none`: the caller sleeps on the log and tries again when it is woken.
unfoldable pub begin_op : Log → Option Log
begin_op l =
    if l.committing
    then none
    else if ltb log_size (l.lh.n + (l.outstanding + 1) * max_op_blocks)
    then none
    else some (record l { outstanding = l.outstanding + 1 })

-- The new state, and whether the caller has to call `sync`.
unfoldable pub end_op : Log → Bool × Log
end_op l =
    let o = l.outstanding - 1 in
    let full = o == 0 && ltb log_size (l.lh.n + max_op_blocks) in
    (full, record l { outstanding = o; committing = full || l.committing })

-- The loop of `log_write` over the logged block numbers: the index where it stops.
unfoldable pub find_logged : ℕ → ℕ → (ℕ → ℕ) → ℕ → ℕ
find_logged zero i blocks b = i
find_logged (suc k) i blocks b =
    let rest = find_logged k (suc i) blocks b in if blocks i == b then i else rest

-- `none` is a panic. The buffer of block `b` holds its new contents in `cache` already.
unfoldable pub log_write : ℕ → State → Option State
log_write b s =
    let h = s.log.lh in
    if leb log_size h.n || leb (s.log.size - 1) h.n
    then none
    else if ltb s.log.outstanding 1
    then none
    else (let i = find_logged h.n 0 h.block b in
        some (record s {
          log = record s.log {
            lh = record { n = if i == h.n then h.n + 1 else h.n; block = update h.block i b };
          };
          dirty = update s.dirty b true;
        }))

-- The outcomes of `sync`: nothing to do (-1), a wait for the operations that run, or a commit (0).
pub data Synced : Type 0 where
  empty : Synced
  waiting : State → Synced
  committed : State → Synced

unfoldable pub set_committing : Bool → State → State
set_committing b s = record s { log = record s.log { committing = b } }

-- `while(log.outstanding) sleep(...)`, and what follows when it ends.
unfoldable pub sync_wait : State → Synced
unfolding set_committing
sync_wait s =
    if s.log.outstanding == 0 then committed (set_committing false (commit s)) else waiting s

unfoldable pub sync : State → Synced
unfolding set_committing
sync s = if ltb 0 s.log.lh.n then sync_wait (set_committing true s) else empty

unfoldable pub get_log_num : State → ℕ
get_log_num s = s.log.lh.n

-- Power returns: memory is zeroed, the buffer cache reads the disk, and `w` disk writes are left.
unfoldable pub reboot : ℕ → State → State
reboot w s = record {
  log = record {
    start = 0;
    size = 0;
    outstanding = 0;
    committing = false;
    dev = 0;
    lh = record { n = 0; block = λ _. 0 };
  };
  cache = s.disk;
  dirty = λ _. false;
  disk = s.disk;
  writes_left = w;
}

-- A row of boots, each of which recovers and then loses power after so many writes.
unfoldable pub boots : SuperBlock → List ℕ → State → State
boots sb [] s = s
boots sb (w ∷ ws) s = boots sb ws (initlog 1 sb (reboot w s))
