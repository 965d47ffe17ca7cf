-- ===== src/Fs.antt =====
-- Block allocation and the block map of a file: `balloc`, `bfree`, `bzero` and `bmap` of
-- xv6-public/fs.c.
-- A block is its 128 words, in the buffers of the running transaction, which are those of Log with its
-- `log_write`. The bits of the bitmap, one for each block, stand beside them as a function.
pub mod Again
pub mod Blocks
pub mod Names
pub mod Paths
mod Tests
use hyu_ele.Prelude.{
  ℕ, zero, suc, ◌+◌, ◌-◌, ◌/◌, ◌%◌, Bool, true, false, not, ◌==◌, ltb, if◌then◌else◌, List, [], ◌∷◌,
  Option, none, some,
}
use hyu_ele.Prelude.Maps.{update}
use hyu_ele.Log.{State, log_write}

abbrev pub and_then : {A B : Type 0} → Option A → (A → Option B) → Option B
and_then none f = none
and_then (some a) f = f a

-- `sb.size`, `sb.bmapstart`, the bitmap, and the running transaction.
pub record Disk : Type 0 where
  pub size : ℕ
  pub bmapstart : ℕ
  pub used : ℕ → Bool
  pub trans : State

-- The words of each block.
abbrev pub word : Disk → ℕ → ℕ → ℕ
word s = s.trans.cache

abbrev pub put_block : ℕ → (ℕ → ℕ) → Disk → Disk
put_block b f s = record s { trans = record s.trans { cache = update s.trans.cache b f } }

-- `log_write` of the buffer of block `b`; `none` is one of its panics.
unfoldable pub log_block : ℕ → Disk → Option Disk
log_block b s = and_then (log_write b s.trans) (λ t. some (record s { trans = t }))

-- `BBLOCK(b, sb)`
abbrev pub bitmap_block : ℕ → Disk → ℕ
bitmap_block b s = b / 4096 + s.bmapstart

-- The in-memory inode: the field that `bmap` reads and writes.
pub record Inode : Type 0 where
  pub addrs : ℕ → ℕ

unfoldable pub bzero : ℕ → Disk → Option Disk
bzero b s = log_block b (put_block b (λ _. 0) s)

-- The two loops of `balloc` go through the bits in order: the first free block from `b` on, with the
-- rounds left as the first argument.
unfoldable pub find_free : ℕ → ℕ → (ℕ → Bool) → Option ℕ
find_free zero b used = none
find_free (suc k) b used = let rest = find_free k (b + 1) used in if used b then rest else some b

-- `none` is the panic "out of blocks", or one of `log_write`.
unfoldable pub balloc : Disk → Option (ℕ × Disk)
balloc s = and_then (find_free s.size 0 s.used) (λ b.
    and_then (log_block (bitmap_block b s) (record s { used = update s.used b true }))
      (λ s1. and_then (bzero b s1) (λ s2. some (b, s2))))

-- `none` is the panic "freeing free block", or one of `log_write`.
unfoldable pub bfree : ℕ → Disk → Option Disk
bfree b s =
    if not (s.used b)
    then none
    else log_block (bitmap_block b s) (record s { used = update s.used b false })

-- `if((addr = a[index]) == 0){ a[index] = addr = balloc(ip->dev); log_write(bp); }`, where `a` are the
-- words of block `p`.
unfoldable pub entry : ℕ → ℕ → Disk → Option (ℕ × Disk)
entry p i s =
    if word s p i == 0
    then and_then (balloc s) (λ (b, s1).
      and_then (log_block p (put_block p (update (word s1 p) i b) s1)) (λ s2. some (b, s2)))
    else some (word s p i, s)

-- The same of `ip->addrs[i]`.
unfoldable pub inode_entry : ℕ → Inode → Disk → Option (ℕ × Inode × Disk)
inode_entry i ip s =
    if ip.addrs i == 0
    then and_then (balloc s) (λ (b, s1). some (b, record ip { addrs = update ip.addrs i b }, s1))
    else some (ip.addrs i, ip, s)

-- Down through indirect blocks, one index for each.
unfoldable pub walk : List ℕ → ℕ → Disk → Option (ℕ × Disk)
walk [] a s = some (a, s)
walk (i ∷ is) a s = and_then (entry a i s) (λ (b, s1). walk is b s1)

unfoldable pub from_inode : ℕ → List ℕ → Inode → Disk → Option (ℕ × Inode × Disk)
from_inode r is ip s =
    and_then (inode_entry r ip s)
      (λ (a, ip1, s1). and_then (walk is a s1) (λ (b, s2). some (b, ip1, s2)))

abbrev pub ndirect : ℕ
ndirect = 10

abbrev pub nindirect : ℕ
nindirect = 128

abbrev pub maxfile : ℕ
maxfile = 2113674

-- `none` is a panic: out of blocks, out of range, or one of `log_write`.
unfoldable pub bmap : Inode → ℕ → Disk → Option (ℕ × Inode × Disk)
bmap ip bn s =
    if ltb bn ndirect
    then from_inode bn [] ip s
    else (let n1 = bn - ndirect in
        if ltb n1 nindirect
        then from_inode ndirect (n1 ∷ []) ip s
        else (let n2 = n1 - nindirect in
            if ltb n2 16384
            then from_inode (ndirect + 1) ((n2 / nindirect) ∷ (n2 % nindirect) ∷ []) ip s
            else (let n3 = n2 - 16384 in
                if ltb n3 2097152
                then from_inode (ndirect + 2)
                    ((n3 / 16384) ∷ (n3 % 16384 / nindirect) ∷ (n3 % nindirect) ∷ []) ip s
                else none)))
