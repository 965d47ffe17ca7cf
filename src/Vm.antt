-- ===== src/Vm.antt =====
-- Page tables: xv6-public/vm.c.
-- A page is named by its physical address, for which the source has a kernel address 2^31 higher. A page
-- is a function from the index of a word; `free` is the list from which `kalloc` takes pages, and `end`
-- the first kernel address after the kernel.
pub mod Entries
pub mod Pages
pub mod Map
pub mod Unmap
mod Tests
use hyu_ele.Prelude.{
  ℕ, zero, suc, ◌+◌, ◌*◌, ◌-◌, ◌/◌, ◌%◌, Bool, true, false, not, ◌&&◌, ◌||◌, ◌==◌, ltb, leb,
  if◌then◌else◌, List, [], ◌∷◌, Option, none, some,
}
use Prim.Native.Nat.{bit_or}
use hyu_ele.Prelude.Maps.{update}
use hyu_ele.Kalloc.{page_size, kernbase, phystop, physical, round_up}

pub record Vm : Type 0 where
  pub word : ℕ → ℕ → ℕ
  pub free : List ℕ

-- `PDX`, `PTX`, `PGROUNDDOWN`, `PTE_ADDR`, `PTE_FLAGS` and the bit `PTE_P`.
abbrev pub pdx : ℕ → ℕ
pdx va = va / 4194304 % 1024

abbrev pub ptx : ℕ → ℕ
ptx va = va / 4096 % 1024

abbrev pub round_down : ℕ → ℕ
round_down a = a - a % 4096

abbrev pub pte_addr : ℕ → ℕ
pte_addr e = e - e % 4096

abbrev pub pte_flags : ℕ → ℕ
pte_flags e = e % 4096

abbrev pub present : ℕ → Bool
present e = e % 2 == 1

-- `pa | perm | PTE_P`.
abbrev pub pte_of : ℕ → ℕ → ℕ
pte_of pa perm = bit_or (bit_or pa perm) 1

abbrev pub put_word : ℕ → ℕ → ℕ → Vm → Vm
put_word p i e m = record m { word = update m.word p (update (m.word p) i e) }

abbrev pub clear_page : ℕ → Vm → Vm
clear_page p m = record m { word = update m.word p (λ _. 0) }

-- The page table; the entry is its word `ptx va`. `none` is the null pointer.
unfoldable pub walkpgdir : ℕ → ℕ → Bool → Vm → Option ℕ × Vm
walkpgdir dir va alloc m =
    let pde = m.word dir (pdx va) in
    if present pde
    then (some (pte_addr pde), m)
    else if not alloc
    then (none, m)
    else (elim m.free [
      | [] ↦ (none, m)
      | t ∷ ts ↦ (some t, put_word dir (pdx va) (t + 7) (clear_page t (record m { free = ts })))
    ])

-- How `mappages` ends: 0, -1, or the panic "remap"; `endless` is a loop that does not end.
pub data Mapping : Type 0 where
  mapped short : Vm → Mapping
  remap endless : Mapping

-- One round.
unfoldable pub map_page : ℕ → ℕ → ℕ → Vm → Mapping
map_page dir va e m =
    let (o, m1) = walkpgdir dir va true m in
    elim o [
      | none ↦ short m1
      | some t ↦ if present (m1.word t (ptx va)) then remap else mapped (put_word t (ptx va) e m1)
    ]

unfoldable pub map_from : ℕ → ℕ → ℕ → ℕ → ℕ → ℕ → Vm → Mapping
map_from zero dir a last pa perm m = endless
map_from (suc k) dir a last pa perm m = elim (map_page dir a (pte_of pa perm) m) [
  | mapped m1 ↦ elim (a == last) [
    | true ↦ mapped m1
    | false ↦ map_from k dir (a + page_size) last (pa + page_size) perm m1
  ]
  | short m1 ↦ short m1
  | remap ↦ remap
  | endless ↦ endless
]

unfoldable pub mappages : ℕ → ℕ → ℕ → ℕ → ℕ → Vm → Mapping
mappages dir va size pa perm m =
    let a = round_down va in
    let last = round_down (va + size - 1) in
    map_from ((last - a) / page_size + 1) dir a last pa perm m

-- `kfree` of the page at the physical address `pa`; `none` is its panic. The page is filled with ones, and
-- its first word is the address of the next free page.
abbrev pub next_word : List ℕ → ℕ
next_word [] = 0
next_word (t ∷ ts) = (t + kernbase) % 4294967296

abbrev pub freed : ℕ → Vm → Vm
freed pa m = record m {
  word = update m.word pa (λ i. if i == 0 then next_word m.free else 16843009);
  free = pa ∷ m.free;
}

unfoldable pub free_page : ℕ → ℕ → Vm → Option Vm
free_page end pa m =
    let v = (pa + kernbase) % 4294967296 in
    if not (v % page_size == 0) || ltb v end || leb phystop (physical v)
    then none
    else some (freed pa m)

-- The loop of `deallocuvm` from `a` on; `none` is the panic "kfree", or a loop that does not end.
unfoldable pub unmap_from : ℕ → ℕ → ℕ → ℕ → ℕ → Vm → Option Vm
unmap_from zero end dir a oldsz m = none
unmap_from (suc k) end dir a oldsz m = elim (not (ltb a oldsz)) [
  | true ↦ some m
  | false ↦ elim (walkpgdir dir a false m).0 [
    | none ↦ unmap_from k end dir ((pdx a + 1) * 4194304 % 4294967296) oldsz m
    | some t ↦
        let e = m.word t (ptx a) in
        elim (present e) [
          | false ↦ unmap_from k end dir (a + page_size) oldsz m
          | true ↦ elim (pte_addr e == 0) [
            | true ↦ none
            | false ↦ elim (free_page end (pte_addr e) m) [
              | none ↦ none
              | some m1 ↦ unmap_from k end dir (a + page_size) oldsz (put_word t (ptx a) 0 m1)
            ]
          ]
        ]
  ]
]

-- The new size and the pages.
unfoldable pub deallocuvm : ℕ → ℕ → ℕ → ℕ → Vm → Option (ℕ × Vm)
deallocuvm end dir oldsz newsz m =
    if leb oldsz newsz
    then some (oldsz, m)
    else (elim (unmap_from (oldsz / page_size + 2) end dir (round_up newsz) oldsz m) [
      | none ↦ none
      | some m1 ↦ some (newsz, m1)
    ])

-- The result of `deallocuvm` as that of a failed `allocuvm`.
abbrev pub give_back : ℕ → ℕ → ℕ → ℕ → Vm → Option (ℕ × Vm)
give_back end dir newsz oldsz m = elim (deallocuvm end dir newsz oldsz m) [
  | none ↦ none
  | some (n, m1) ↦ some (0, m1)
]

-- The loop of `allocuvm` from `a` on.
unfoldable pub grow_from : ℕ → ℕ → ℕ → ℕ → ℕ → ℕ → Vm → Option (ℕ × Vm)
grow_from zero end dir a oldsz newsz m = none
grow_from (suc k) end dir a oldsz newsz m = elim (not (ltb a newsz)) [
  | true ↦ some (newsz, m)
  | false ↦ elim m.free [
    | [] ↦ give_back end dir newsz oldsz m
    | mem ∷ rest ↦
        elim (mappages dir a page_size mem 6 (clear_page mem (record m { free = rest }))) [
          | mapped m1 ↦ grow_from k end dir (a + page_size) oldsz newsz m1
          | short m1 ↦ elim (give_back end dir newsz oldsz m1) [
            | none ↦ none
            | some (n, m2) ↦ elim (free_page end mem m2) [ none ↦ none | some m3 ↦ some (n, m3) ]
          ]
          | remap ↦ none
          | endless ↦ none
        ]
  ]
]

-- The new size, 0 for failure; `none` is a panic.
unfoldable pub allocuvm : ℕ → ℕ → ℕ → ℕ → Vm → Option (ℕ × Vm)
allocuvm end dir oldsz newsz m =
    if leb kernbase newsz
    then some (0, m)
    else if ltb newsz oldsz
    then some (oldsz, m)
    else grow_from (newsz / page_size + 2) end dir (round_up oldsz) oldsz newsz m

-- `none` is the panic "clearpteu".
unfoldable pub clearpteu : ℕ → ℕ → Vm → Option Vm
clearpteu dir uva m = elim (walkpgdir dir uva false m).0 [
  | none ↦ none
  | some t ↦
      let e = m.word t (ptx uva) in
      some (put_word t (ptx uva) (if e / 4 % 2 == 1 then e - 4 else e) m)
]

-- `none` at the outside is the access through a null `pte`, at the inside the null pointer.
unfoldable pub uva2ka : ℕ → ℕ → Vm → Option (Option ℕ)
uva2ka dir uva m = elim (walkpgdir dir uva false m).0 [
  | none ↦ none
  | some t ↦
      let e = m.word t (ptx uva) in
      some (if not (present e) || not (e / 4 % 2 == 1) then none else some (pte_addr e))
]
