-- ===== src/Kalloc/Pages.antt =====
-- The free list is a stack of distinct pages.
use hyu_ele.Prelude.{
  ℕ, ◌%◌, ◌≡◌, ◌≢◌, ◌≤◌, ◌<◌, refl, arith, true, false, not, ◌||◌, ◌==◌, ltb, leb, List, [], ◌∷◌,
  some,
}
use hyu_ele.Prelude.Maps.{has, update, distinct}
use hyu_ele.Kalloc.{Kmem, kfree, kalloc, phystop, physical}

-- From the address `a` the words `next` lead through the pages `xs` to 0.
abbrev pub Links : (ℕ → ℕ) → ℕ → List ℕ → Type 0
Links next a [] = a ≡ 0
Links next a (x ∷ xs) = (a ≡ x) × (x ≢ 0) × Links next (next x) xs

pub record FreeList (k : Kmem) (xs : List ℕ) : Type 0 where
  pub links : Links k.next k.freelist xs
  pub no_repeat : distinct xs ≡ true

-- A page that the kernel may free.
pub record Page (end v : ℕ) : Type 0 where
  pub aligned : v % 4096 ≡ 0
  pub behind : end ≤ v
  pub below : physical v < phystop

Links-update :
    (next : ℕ → ℕ) (v w a : ℕ) (xs : List ℕ)
    → has v xs ≡ false
    → Links next a xs
    → Links (update next v w) a xs
Links-update next v w a [] out c = c
Links-update next v w a (x ∷ xs) out (e, n, c) =
    let same : update next v w x ≡ next x = ground arith in
    (e, n, rw same (Links-update next v w (next x) xs (ground arith) c))

-- `kfree` of a page that is not free yet puts it on the free list without a panic; the next `kalloc`
-- returns this page and leaves the list as it was. On an empty list `kalloc` returns 0.
pub kfree-kalloc :
    (end v : ℕ) (k : Kmem) (xs : List ℕ)
    → 1 ≤ end
    → Page end v
    → FreeList k xs
    → has v xs ≡ false
    → ((t : Kmem) × (kfree end v k ≡ some t)
        × FreeList t (v ∷ xs)
        × ((kalloc t).0 ≡ v)
        × FreeList (kalloc t).1 xs)
      × (xs ≡ [] → kalloc k ≡ (0, k))
unfolding kfree kalloc
kfree-kalloc end v k xs pos p f out =
    let a = p.aligned in
    let b = p.behind in
    let c = p.below in
    let ok : (not (v % 4096 == 0) || ltb v end || leb phystop (physical v)) ≡ false =
      ground arith in
    let nz : (v == 0) ≡ false = ground arith in
    let links = Links-update k.next v k.freelist k.freelist xs out f.links in
    let self : update k.next v k.freelist v ≡ k.freelist = ground arith in
    let d = f.no_repeat in
    (
      (
        record { next = update k.next v k.freelist; freelist = v },
        rw ok refl,
        record { links = (refl, λ e. ground arith, rw self links); no_repeat = ground arith },
        refl,
        rw nz (record { links = rw self links; no_repeat = d }),
      ),
      λ e. ground (arith, f.links),
    )
