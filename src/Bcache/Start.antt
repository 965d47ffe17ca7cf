-- ===== src/Bcache/Start.antt =====
-- `binit`: the list of buffers that the kernel starts with.
use hyu_ele.Prelude.{ℕ, zero, suc, ◌≡◌, ◌≢◌, refl, arith, length}
use hyu_ele.Bcache.{binit}
use hyu_ele.Bcache.Get.{copies, Unique}

binit-copies : (j d n : ℕ) → d ≢ 0 → copies d n (binit j) ≡ 0
unfolding binit
binit-copies zero d n ne = refl
binit-copies (suc j) d n ne = ground (arith, binit-copies j d n ne)

length-binit : (j : ℕ) → length (binit j) ≡ j
unfolding binit
length-binit zero = refl
length-binit (suc j) = omega (arith, length-binit j)

-- After `binit` all buffers are in the list and no block of a device is held.
pub binit-Unique :
    (k : ℕ)
    → Unique (binit k) × (length (binit k) ≡ k) × ((d n : ℕ) → d ≢ 0 → copies d n (binit k) ≡ 0)
binit-Unique k = (λ d n ne. omega (arith, binit-copies k d n ne), length-binit k, binit-copies k)
