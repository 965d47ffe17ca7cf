-- ===== src/Bcache.antt =====
-- The buffer cache of xv6-public/bio.c: `binit` and `bget`.
-- The list through `bcache.head` is a list of buffers, `head.next` first, that is in the order of use.
-- `bcache.lock` is held in each function but for the wait for a buffer's own lock, which is left out.
pub mod Get
pub mod Start
mod Tests
use hyu_ele.Prelude.{
  ℕ, zero, suc, ◌+◌, Bool, true, false, not, ◌&&◌, ◌==◌, if◌then◌else◌, List, [], ◌∷◌, Option, none,
  some,
}

-- The fields of `struct buf`; `slot` is the index in `bcache.buf`, and the flags are two Booleans.
pub record Buf : Type 0 where
  pub slot : ℕ
  pub valid : Bool
  pub dirty : Bool
  pub dev : ℕ
  pub blockno : ℕ
  pub refcnt : ℕ

abbrev pub nbuf : ℕ
nbuf = 60

-- Each buffer is put in front; the first argument is the number of buffers.
unfoldable pub binit : ℕ → List Buf
binit zero = []
binit (suc k) =
    record { slot = k; valid = false; dirty = false; dev = 0; blockno = 0; refcnt = 0 } ∷ binit k

abbrev pub is_block : ℕ → ℕ → Buf → Bool
is_block d n b = b.dev == d && b.blockno == n

abbrev pub is_free : Buf → Bool
is_free b = b.refcnt == 0 && not b.dirty

-- The first loop of `bget`: the buffer, and the list with its count raised.
unfoldable pub find_cached : ℕ → ℕ → List Buf → Option (Buf × List Buf)
find_cached d n [] = none
find_cached d n (b ∷ bs) =
    let c = record b { refcnt = b.refcnt + 1 } in
    let rest = find_cached d n bs in
    if is_block d n b
    then some (c, c ∷ bs)
    else elim rest [ none ↦ none | some (x, r) ↦ some (x, b ∷ r) ]

-- The second loop goes backwards from `head.prev`: a buffer is taken only if none behind it is free.
unfoldable pub recycle : ℕ → ℕ → List Buf → Option (Buf × List Buf)
recycle d n [] = none
recycle d n (b ∷ bs) =
    let c = record b { dev = d; blockno = n; valid = false; dirty = false; refcnt = 1 } in
    elim (recycle d n bs) [
      | some (x, r) ↦ some (x, b ∷ r)
      | none ↦ if is_free b then some (c, c ∷ bs) else none
    ]

-- `none` is the panic "no buffers".
unfoldable pub bget : ℕ → ℕ → List Buf → Option (Buf × List Buf)
bget d n l = elim (find_cached d n l) [ some r ↦ some r | none ↦ recycle d n l ]
