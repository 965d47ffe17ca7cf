-- ===== src/Bcache/Tests.antt =====
-- A cache of two buffers, and the theorems at it.
use hyu_ele.Prelude.{ℕ, ◌≡◌, ◌⊎◌, refl, arith, true, false, List, [], ◌∷◌, none, some, length}
use hyu_ele.Bcache.{Buf, nbuf, binit, bget, find_cached, recycle}
use hyu_ele.Bcache.Get.{copies, Unique, AllHeld, Got, bget_lem}
use hyu_ele.Bcache.Start.{binit-Unique}

abbrev buf : ℕ → ℕ → ℕ → Buf
buf slot blockno refcnt = record {
  slot = slot;
  valid = true;
  dirty = false;
  dev = 1;
  blockno = blockno;
  refcnt = refcnt;
}

-- Block 5 was released after block 6; a third process asks for block 7.
abbrev cache : List Buf
cache = buf 0 5 0 ∷ buf 1 6 0 ∷ []

takes_last :
    bget 1 7 cache
    ≡ some (
      record (buf 1 7 1) { valid = false },
      buf 0 5 0 ∷ record (buf 1 7 1) { valid = false } ∷ [],
    )
unfolding bget find_cached recycle
takes_last = refl

cache-Unique : Unique cache
cache-Unique d n ne = ground arith

bget_lem_example :
    ((bget 1 7 cache ≡ none) × (copies 1 7 cache ≡ 0) × AllHeld cache)
    ⊎ ((x : Buf) × (r : List Buf) × (bget 1 7 cache ≡ some (x, r)) × Got 1 7 cache x r)
bget_lem_example = bget_lem 1 7 cache cache-Unique (λ e. absurd (omega arith))

starts_empty : length (binit nbuf) ≡ 60
starts_empty = (binit-Unique nbuf).1
