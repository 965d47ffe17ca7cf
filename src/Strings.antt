-- ===== src/Strings.antt =====
-- Bytes and strings in memory: xv6-public/string.c, with `stosb` and `stosl` of xv6-public/x86.h.
-- Memory is a function from addresses to bytes; no range here runs over the end of the address space.
pub mod Move
pub mod Compare
mod Tests
use hyu_ele.Prelude.{
  ℕ, zero, suc, ◌+◌, ◌-◌, ◌*◌, ◌/◌, ◌%◌, Bool, true, false, not, ◌&&◌, ◌||◌, ◌==◌, ltb, leb,
  if◌then◌else◌,
}
use hyu_ele.Prelude.Maps.{update}

abbrev pub Memory : Type 0
Memory = ℕ → ℕ

-- `*d++ = *s++`, n times.
unfoldable pub copy_up : ℕ → ℕ → ℕ → Memory → Memory
copy_up zero d s m = m
copy_up (suc n) d s m = copy_up n (d + 1) (s + 1) (update m d (m s))

-- `*--d = *--s`, n times.
unfoldable pub copy_down : ℕ → ℕ → ℕ → Memory → Memory
copy_down zero d s m = m
copy_down (suc n) d s m = copy_down n (d - 1) (s - 1) (update m (d - 1) (m (s - 1)))

unfoldable pub memmove : ℕ → ℕ → ℕ → Memory → Memory
memmove dst src n m =
    if ltb src dst && ltb dst (src + n)
    then copy_down n (dst + n) (src + n) m
    else copy_up n dst src m

-- `rep stosb`: the low byte of `c`.
unfoldable pub stosb : ℕ → ℕ → ℕ → Memory → Memory
stosb d c zero m = m
stosb d c (suc n) m = stosb (d + 1) c n (update m d (c % 256))

-- `rep stosl`: the four bytes of `w`, the lowest first.
unfoldable pub stosl : ℕ → ℕ → ℕ → Memory → Memory
stosl d w zero m = m
stosl d w (suc n) m = stosl (d + 4) w n (
    update
      (update (update (update m d (w % 256)) (d + 1) (w / 256 % 256)) (d + 2) (w / 65536 % 256))
      (d + 3) (w / 16777216 % 256))

-- With disjoint bytes the bitwise or of the shifted bytes is a sum.
unfoldable pub memset : ℕ → ℕ → ℕ → Memory → Memory
memset dst c n m =
    if dst % 4 == 0 && n % 4 == 0
    then (let b = c % 256 in stosl dst (b * 16777216 + b * 65536 + b * 256 + b) (n / 4) m)
    else stosb dst c n m

-- The two bytes whose difference `strncmp` returns, two zeros where it returns 0.
unfoldable pub strncmp : ℕ → ℕ → ℕ → Memory → ℕ × ℕ
strncmp p q zero m = (0, 0)
strncmp p q (suc n) m =
    let rest = strncmp (p + 1) (q + 1) n m in
    if not (m p == 0) && m p == m q then rest else (m p, m q)

-- The same of `memcmp`, which goes on behind a zero.
unfoldable pub memcmp : ℕ → ℕ → ℕ → Memory → ℕ × ℕ
memcmp p q zero m = (0, 0)
memcmp p q (suc n) m =
    let rest = memcmp (p + 1) (q + 1) n m in if m p == m q then rest else (m p, m q)

-- The loop of `safestrcpy` with `n - 1` rounds, and `*s = 0` behind it.
unfoldable pub safe_loop : ℕ → ℕ → ℕ → Memory → Memory
safe_loop s t zero m = update m s 0
safe_loop s t (suc k) m =
    let m' = update m s (m t) in
    let rest = safe_loop (s + 1) (t + 1) k m' in if m t == 0 then update m' (s + 1) 0 else rest

-- The argument 0 stands for every `n <= 0`.
unfoldable pub safestrcpy : ℕ → ℕ → ℕ → Memory → Memory
safestrcpy s t n m = if n == 0 then m else safe_loop s t (n - 1) m

unfoldable pub zero_fill : ℕ → ℕ → Memory → Memory
zero_fill s zero m = m
zero_fill s (suc k) m = zero_fill (s + 1) k (update m s 0)

-- Both loops: the second fills up when the first has copied a zero.
unfoldable pub strncpy : ℕ → ℕ → ℕ → Memory → Memory
strncpy s t zero m = m
strncpy s t (suc k) m =
    let m' = update m s (m t) in
    let rest = strncpy (s + 1) (t + 1) k m' in if m t == 0 then zero_fill (s + 1) k m' else rest
