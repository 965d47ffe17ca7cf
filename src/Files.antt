-- ===== src/Files.antt =====
-- The file table: `filealloc`, `filedup` and `fileclose` of xv6-public/file.c.
-- The entry `ftable.file[i]` has the address i + 1, and 0 is null. What `fileclose` does to the pipe or the
-- inode is left to the caller, with the type of the file.
pub mod Counts
mod Tests
use hyu_ele.Prelude.{
  ℕ, zero, suc, ◌+◌, ◌-◌, Bool, true, false, ◌==◌, ltb, if◌then◌else◌, Option, none, some,
}
use hyu_ele.Prelude.Maps.{update}

abbrev pub nfile : ℕ
nfile = 100

pub data FileType : Type 0 where
  fd_none fd_pipe fd_inode : FileType

pub record Files : Type 0 where
  pub kind : ℕ → FileType
  pub ref : ℕ → ℕ

-- The loop of `filealloc` from entry `f` on.
unfoldable pub find_file : ℕ → ℕ → Files → Option ℕ
find_file zero f t = none
find_file (suc k) f t = let rest = find_file k (f + 1) t in if t.ref f == 0 then some f else rest

unfoldable pub filealloc : Files → ℕ × Files
filealloc t = elim (find_file nfile 1 t) [
  | none ↦ (0, t)
  | some f ↦ (f, record t { ref = update t.ref f 1 })
]

-- `none` is the panic.
unfoldable pub filedup : ℕ → Files → Option Files
filedup f t =
    if ltb (t.ref f) 1 then none else some (record t { ref = update t.ref f (t.ref f + 1) })

-- The type of the file that has to be closed, if this was its last reference; `none` is the panic.
unfoldable pub fileclose : ℕ → Files → Option (Option FileType × Files)
fileclose f t =
    if ltb (t.ref f) 1
    then none
    else (let t1 = record t { ref = update t.ref f (t.ref f - 1) } in
        if ltb 0 (t1.ref f)
        then some (none, t1)
        else some (
          some (t1.kind f),
          record t1 { ref = update t1.ref f 0; kind = update t1.kind f fd_none },
        ))
