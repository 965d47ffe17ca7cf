-- ===== src/Pipe.antt =====
-- Pipes: xv6-public/pipe.c. The lock is held from the start of a call to its end or to `sleep`; a call
-- that would sleep returns what it has still to do, and the loop goes on from there when it is woken.
-- A `uint` wraps at 2^32, a byte is a number.
pub mod Queue
pub mod Stream
mod Tests
use hyu_ele.Prelude.{
  ℕ, zero, suc, ◌+◌, ◌%◌, Bool, true, false, not, ◌&&◌, ◌||◌, ◌==◌, if◌then◌else◌, List, [], ◌∷◌,
  Option, none, some,
}
use hyu_ele.Prelude.Maps.{update}

abbrev pub pipe_size : ℕ
pipe_size = 512

abbrev pub uint_size : ℕ
uint_size = 4294967296

pub record Pipe : Type 0 where
  pub data_at : ℕ → ℕ
  pub nread : ℕ
  pub nwrite : ℕ
  pub readopen : Bool
  pub writeopen : Bool

-- What `pipealloc` puts into a page that `kalloc` has returned.
unfoldable pub pipe_init : Pipe → Pipe
pipe_init p = record p { readopen = true; writeopen = true; nwrite = 0; nread = 0 }

-- `pipewrite` returns n, returns -1, or sleeps with these bytes left. The bytes left at -1 are kept
-- for the theorems; the source forgets them.
pub data Written : Type 0 where
  wrote : Pipe → Written
  refused : List ℕ → Pipe → Written
  full : List ℕ → Pipe → Written

-- `p->data[p->nwrite++ % PIPESIZE] = c`
unfoldable pub put : ℕ → Pipe → Pipe
put c p = record p {
  data_at = update p.data_at (p.nwrite % pipe_size) c;
  nwrite = (p.nwrite + 1) % uint_size;
}

abbrev pub is_full : Pipe → Bool
is_full p = p.nwrite == (p.nread + pipe_size) % uint_size

-- The first argument is `myproc()->killed`.
unfoldable pub pipe_write : Bool → List ℕ → Pipe → Written
pipe_write killed [] p = wrote p
pipe_write killed (c ∷ cs) p =
    let rest = pipe_write killed cs (put c p) in
    if is_full p
    then (if not p.readopen || killed then refused (c ∷ cs) p else full (c ∷ cs) p)
    else rest

-- `piperead` returns the bytes that it has copied, returns -1, or sleeps.
pub data Read : Type 0 where
  got : List ℕ → Pipe → Read
  was_killed : Read
  waits : Read

-- The copy loop: at most `n` bytes.
unfoldable pub copy_out : ℕ → Pipe → List ℕ × Pipe
copy_out zero p = ([], p)
copy_out (suc n) p =
    let (cs, q) = copy_out n (record p { nread = (p.nread + 1) % uint_size }) in
    if p.nread == p.nwrite then ([], p) else (p.data_at (p.nread % pipe_size) ∷ cs, q)

unfoldable pub pipe_read : Bool → ℕ → Pipe → Read
pipe_read killed n p =
    if p.nread == p.nwrite && p.writeopen
    then (if killed then was_killed else waits)
    else (let (cs, q) = copy_out n p in got cs q)

-- The pipe, and whether its page is freed.
unfoldable pub pipe_close : Bool → Pipe → Pipe × Bool
pipe_close writable p =
    let q = if writable then record p { writeopen = false } else record p { readopen = false } in
    (q, not q.readopen && not q.writeopen)
