-- ===== src/Kalloc.antt =====
-- The page allocator of xv6-public/kalloc.c. A free page holds in its first word the address of the
-- next one; the rest of a page is not modelled. `kmem.lock` is held in each function.
pub mod Pages
mod Tests
use hyu_ele.Prelude.{
  ℕ, zero, suc, ◌+◌, ◌-◌, ◌*◌, ◌/◌, ◌%◌, Bool, true, false, not, ◌||◌, ◌==◌, ltb, leb,
  if◌then◌else◌, Option, none, some,
}
use hyu_ele.Prelude.Maps.{update}

abbrev pub page_size : ℕ
page_size = 4096

abbrev pub kernbase : ℕ
kernbase = 2147483648

abbrev pub phystop : ℕ
phystop = 234881024

-- `next` is the first word of each free page.
pub record Kmem : Type 0 where
  pub next : ℕ → ℕ
  pub freelist : ℕ

-- `V2P`, with the wrap of a `uint`.
abbrev pub physical : ℕ → ℕ
physical v = (v + 4294967296 - kernbase) % 4294967296

-- `end` is the first address after the kernel; `none` is a panic.
unfoldable pub kfree : ℕ → ℕ → Kmem → Option Kmem
kfree end v k =
    if not (v % page_size == 0) || ltb v end || leb phystop (physical v)
    then none
    else some (record { next = update k.next v k.freelist; freelist = v })

-- The address 0 stands for failure.
unfoldable pub kalloc : Kmem → ℕ × Kmem
kalloc k = (k.freelist, if k.freelist == 0 then k else record k { freelist = k.next k.freelist })

abbrev pub round_up : ℕ → ℕ
round_up a = (a + 4095) / 4096 * 4096

-- The loop of `freerange` from `p` on, with the rounds left as the first argument.
unfoldable pub free_from : ℕ → ℕ → ℕ → ℕ → Kmem → Option Kmem
free_from zero end p vend k = some k
free_from (suc n) end p vend k =
    if leb (p + page_size) vend
    then elim (kfree end p k) [ none ↦ none | some k' ↦ free_from n end (p + page_size) vend k' ]
    else some k

-- The range has no more pages than this.
unfoldable pub freerange : ℕ → ℕ → ℕ → Kmem → Option Kmem
freerange end vstart vend k = free_from (vend / page_size) end (round_up vstart) vend k
