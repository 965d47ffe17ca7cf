-- ===== src/Vm/Tests.antt =====
-- A small address space, and the theorems at it.
use hyu_ele.Prelude.{ℕ, ◌≡◌, ◌∷◌, [], refl, arith, ◌==◌, if◌then◌else◌, none, some}
use hyu_ele.Kalloc.{round_up}
use hyu_ele.Vm.{Vm, mappages, deallocuvm, uva2ka, walkpgdir}
use hyu_ele.Vm.Entries.{Apart}
use hyu_ele.Vm.Map.{Maps, mappages_lem}
use hyu_ele.Vm.Unmap.{Real, Unmapped, deallocuvm_lem}

-- The directory is page 4096 and its table for the first 4 megabytes page 8192, which maps the first page
-- of user memory to page 16384.
abbrev space : Vm
space = record {
  word = λ p i.
      if p == 4096
      then (if i == 0 then 8199 else 0)
      else if p == 8192
      then (if i == 0 then 16391 else 0)
      else 0;
  free = 12288 ∷ 20480 ∷ [];
}

space-Apart : Apart 4096 space
space-Apart = record {
  not_dir = λ i lt p. ground arith;
  tables = λ i j li lj n p q. absurd (ground arith);
  free_table = λ i lt p. ground arith;
  free_dir = refl;
  free_distinct = refl;
  free_aligned = λ p h. ground arith;
}

mappages_lem_example : Maps 4096 4096 8192 28672 6 1 space (mappages 4096 4096 8000 28672 6 space)
mappages_lem_example =
    mappages_lem 4096 4096 8000 28672 6 space space-Apart (omega arith) (omega arith)

-- A kernel that ends at 1 megabyte, a directory at 4 megabytes with its first table behind it, and one page
-- of user memory, which is mapped to 8 megabytes.
abbrev kernel_end : ℕ
kernel_end = 2148532224

abbrev user_space : Vm
user_space = record {
  word = λ p i.
      if p == 4194304
      then (if i == 0 then 4198407 else 0)
      else if p == 4198400
      then (if i == 0 then 8388615 else 0)
      else 0;
  free = 12582912 ∷ 12587008 ∷ [];
}

user_space-Apart : Apart 4194304 user_space
user_space-Apart = record {
  not_dir = λ i lt p. ground arith;
  tables = λ i j li lj n p q. absurd (ground arith);
  free_table = λ i lt p. ground arith;
  free_dir = refl;
  free_distinct = refl;
  free_aligned = λ p h. ground arith;
}

user_space-Real : Real kernel_end 4194304 0 4096 user_space
user_space-Real vb lb x p = record {
  not_zero = ground arith;
  inside = ground arith;
  beyond_kernel = ground arith;
  aligned = ground arith;
  not_dir = ground arith;
  not_table = λ i l y. ground arith;
}

deallocuvm_lem_example :
    (m1 : Vm) × (deallocuvm kernel_end 4194304 4096 0 user_space ≡ some (0, m1))
    × Unmapped 4194304 (round_up 0) 4096 user_space m1
deallocuvm_lem_example =
    deallocuvm_lem kernel_end 4194304 4096 0 user_space user_space-Apart (omega arith) (omega arith)
      user_space-Real

-- The entry of an address without a page table is read through the null pointer.
reads_null : uva2ka 4096 8388608 space ≡ none
unfolding uva2ka walkpgdir
reads_null = refl

finds_page : uva2ka 4096 0 space ≡ some (some 16384)
unfolding uva2ka walkpgdir
finds_page = refl
