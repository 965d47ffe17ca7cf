-- ===== src/Vm/Map.antt =====
-- `mappages` against the function of entries.
use hyu_ele.Prelude.{
  ℕ, zero, suc, ◌+◌, ◌*◌, ◌-◌, ◌/◌, ◌≡◌, ◌≤◌, ◌<◌, inl, inr, refl, sym, ap, subst, ◌∙◌, arith, Bool,
  true, false, ◌&&◌, ◌==◌, leb, if◌then◌else◌, Bool-cases, length,
}
use hyu_ele.Kalloc.{page_size}
use hyu_ele.Vm.{
  Vm, pdx, ptx, round_down, present, pte_of, Mapping, mapped, short, remap, endless, map_page,
  map_from, mappages,
}
use hyu_ele.Vm.Entries.{pte, Apart}
use hyu_ele.Vm.Pages.{Page, is_mapped, is_short, is_remap, map_page_lem}

-- The pages from `a` to `last`.
abbrev within : ℕ → ℕ → ℕ → Bool
within a last vb = leb (a / 4096) (vb / 4096) && leb (vb / 4096) (last / 4096)

-- The ways in which `mappages` ends on the pages from `a` on, of which there are `n + 1`.
pub data Maps (dir a last pa perm n : ℕ) (m : Vm) : Mapping → Type 0 where
  all_mapped :
      (m1 : Vm)
      → Apart dir m1
      → ((vb : ℕ)
          → vb < 4294967296
          → pte dir m1 vb ≡ (
              if within a last vb
              then pte_of (pa + (vb / 4096 - a / 4096) * 4096) perm
              else pte dir m vb))
      → ((vb : ℕ) → vb < 4294967296 → within a last vb ≡ true → present (pte dir m vb) ≡ false)
      → Maps dir a last pa perm n m (mapped m1)
  out_of_memory :
      (m1 : Vm)
      → Apart dir m1
      → ((vb : ℕ) → vb < 4294967296 → within a last vb ≡ false → pte dir m1 vb ≡ pte dir m vb)
      → length m.free ≤ n
      → Maps dir a last pa perm n m (short m1)
  mapped_before :
      (vb : ℕ)
      → vb < 4294967296
      → within a last vb ≡ true
      → present (pte dir m vb) ≡ true
      → Maps dir a last pa perm n m remap

abbrev after_page : ℕ → ℕ → ℕ → ℕ → ℕ → ℕ → Mapping → Mapping
after_page k dir a last pa perm r = elim r [
  | mapped m1 ↦ elim (a == last) [
    | true ↦ mapped m1
    | false ↦ map_from k dir (a + page_size) last (pa + page_size) perm m1
  ]
  | short m1 ↦ short m1
  | remap ↦ remap
  | endless ↦ endless
]

map_from_step :
    (k dir a last pa perm : ℕ) (m : Vm)
    → map_from (suc k) dir a last pa perm m
      ≡ after_page k dir a last pa perm (map_page dir a (pte_of pa perm) m)
unfolding map_from
map_from_step k dir a last pa perm m = refl

-- The pages from `a` on are `a` and those from the next on.
data Place (a last vb : ℕ) : Type 0 where
  first_page :
      (vb / 4096 == a / 4096) ≡ true
      → within a last vb ≡ true
      → within (a + 4096) last vb ≡ false
      → Place a last vb
  later_page :
      (vb / 4096 == a / 4096) ≡ false
      → within a last vb ≡ true
      → within (a + 4096) last vb ≡ true
      → a / 4096 + 1 ≤ vb / 4096
      → Place a last vb
  outside :
      (vb / 4096 == a / 4096) ≡ false
      → within a last vb ≡ false
      → within (a + 4096) last vb ≡ false
      → Place a last vb

place : (a last vb : ℕ) → a + 4096 ≤ last → Place a last vb
place a last vb le =
    let next : (a + 4096) / 4096 ≡ a / 4096 + 1 = omega arith in
    let far : a / 4096 + 1 ≤ last / 4096 = omega arith in
    elim (Bool-cases (vb / 4096 == a / 4096)) [
      | inl e ↦ first_page e (ground arith) (rw next (ground arith))
      | inr e ↦ elim (Bool-cases (within a last vb)) [
        | inl w ↦ later_page e w (rw next (ground arith)) (ground arith)
        | inr w ↦ outside e w (rw next (ground arith))
      ]
    ]

-- One page in front of the others.
module _ (dir a last pa perm n : ℕ) (m m1 : Vm) (le : a + 4096 ≤ last)
    (free : present (pte dir m a) ≡ false)
    (one : (vb : ℕ)
      → vb < 4294967296
      → pte dir m1 vb ≡ (if vb / 4096 == a / 4096 then pte_of pa perm else pte dir m vb))
    (cost : length m.free ≤ length m1.free + 1) where
  same_pte : (vb : ℕ) → vb / 4096 ≡ a / 4096 → pte dir m vb ≡ pte dir m a
  same_pte vb e =
      let d : pdx vb ≡ pdx a = omega arith in let i : ptx vb ≡ ptx a = omega arith in rw (d, i) refl

  mapped_more :
      (m2 : Vm)
      → ((vb : ℕ)
          → vb < 4294967296
          → pte dir m2 vb ≡ (
              if within (a + 4096) last vb
              then pte_of (pa + 4096 + (vb / 4096 - (a + 4096) / 4096) * 4096) perm
              else pte dir m1 vb))
      → (vb : ℕ) → vb < 4294967296
      → pte dir m2 vb ≡ (
          if within a last vb
          then pte_of (pa + (vb / 4096 - a / 4096) * 4096) perm
          else pte dir m vb)
  mapped_more m2 same vb lb = same vb lb ∙ (elim (place a last vb le) [
    | first_page e w v ↦
        let z : pa ≡ pa + (vb / 4096 - a / 4096) * 4096 =
          let q : vb / 4096 ≡ a / 4096 = ground arith in omega arith in
        rw (v, w) (one vb lb ∙ rw e (ap (λ x. pte_of x perm) z))
    | later_page e w v far ↦
        let z : pa + 4096 + (vb / 4096 - (a + 4096) / 4096) * 4096
            ≡ pa + (vb / 4096 - a / 4096) * 4096 =
          omega arith in
        rw (v, w) (ap (λ x. pte_of x perm) z)
    | outside e w v ↦ rw (v, w) (one vb lb ∙ rw e refl)
  ])

  free_more :
      ((vb : ℕ)
        → vb < 4294967296
        → within (a + 4096) last vb ≡ true
        → present (pte dir m1 vb) ≡ false)
      → (vb : ℕ) → vb < 4294967296
      → within a last vb ≡ true
      → present (pte dir m vb) ≡ false
  free_more none_before vb lb w = elim (place a last vb le) [
    | first_page e x v ↦ ap present (same_pte vb (ground arith)) ∙ free
    | later_page e x v far ↦ ap present (sym (one vb lb ∙ rw e refl)) ∙ none_before vb lb v
    | outside e x v ↦ absurd (ground arith)
  ]

  short_more :
      (m2 : Vm)
      → ((vb : ℕ)
          → vb < 4294967296
          → within (a + 4096) last vb ≡ false
          → pte dir m2 vb ≡ pte dir m1 vb)
      → (vb : ℕ) → vb < 4294967296
      → within a last vb ≡ false
      → pte dir m2 vb ≡ pte dir m vb
  short_more m2 same vb lb w = elim (place a last vb le) [
    | first_page e x v ↦ absurd (ground arith)
    | later_page e x v far ↦ absurd (ground arith)
    | outside e x v ↦ same vb lb v ∙ one vb lb ∙ rw e refl
  ]

  before_more :
      (vb : ℕ)
      → vb < 4294967296
      → within (a + 4096) last vb ≡ true
      → present (pte dir m1 vb) ≡ true
      → (within a last vb ≡ true) × (present (pte dir m vb) ≡ true)
  before_more vb lb w p = elim (place a last vb le) [
    | first_page e x v ↦ absurd (ground arith)
    | later_page e x v far ↦ (x, ap present (sym (one vb lb ∙ rw e refl)) ∙ p)
    | outside e x v ↦ absurd (ground arith)
  ]

  Maps-more :
      (r : Mapping)
      → Maps dir (a + 4096) last (pa + 4096) perm n m1 r
      → Maps dir a last pa perm (n + 1) m r
  Maps-more r (all_mapped m2 ap2 same none_before) =
      all_mapped m2 ap2 (mapped_more m2 same) (free_more none_before)
  Maps-more r (out_of_memory m2 ap2 same low) =
      out_of_memory m2 ap2 (short_more m2 same) (omega arith)
  Maps-more r (mapped_before vb lb w p) =
      let (x, y) = before_more vb lb w p in mapped_before vb lb x y

last_page :
    (dir a pa perm : ℕ) (m m1 : Vm)
    → Apart dir m1
    → present (pte dir m a) ≡ false
    → ((vb : ℕ)
        → vb < 4294967296
        → pte dir m1 vb ≡ (if vb / 4096 == a / 4096 then pte_of pa perm else pte dir m vb))
    → Maps dir a a pa perm 0 m (mapped m1)
last_page dir a pa perm m m1 ap1 free one =
    all_mapped m1 ap1
      (λ vb lb. one vb lb ∙ (elim (Bool-cases (vb / 4096 == a / 4096)) [
        | inl e ↦
            let w : within a a vb ≡ true = ground arith in
            let z : pa ≡ pa + (vb / 4096 - a / 4096) * 4096 =
              let q : vb / 4096 ≡ a / 4096 = ground arith in omega arith in
            rw (e, w) (ap (λ x. pte_of x perm) z)
        | inr e ↦ let w : within a a vb ≡ false = ground arith in rw (e, w) refl
      ]))
      (λ vb lb w. ap present (same vb (ground arith)) ∙ free)
  where
    same : (vb : ℕ) → vb / 4096 ≡ a / 4096 → pte dir m vb ≡ pte dir m a
    same vb e =
        let d : pdx vb ≡ pdx a = omega arith in
        let i : ptx vb ≡ ptx a = omega arith in rw (d, i) refl

from_Page :
    (k n dir a last pa perm : ℕ) (m : Vm)
    → Apart dir m
    → n < suc k
    → last ≡ a + n * 4096
    → last < 4294967296
    → ((n1 : ℕ) (m1 : Vm)
        → suc n1 ≡ n
        → Apart dir m1
        → Maps dir
            (a + 4096)
            last
            (pa + 4096)
            perm
            n1
            m1
            (map_from k dir (a + 4096) last (pa + 4096) perm m1))
    → (r : Mapping) → Page dir a (pte_of pa perm) m r
    → Maps dir a last pa perm n m (after_page k dir a last pa perm r)
from_Page k n dir a last pa perm m ap1 lt e le next r (is_short f) =
    out_of_memory m ap1 (λ vb lb w. refl) (let z = ap length f in omega arith)
from_Page k n dir a last pa perm m ap1 lt e le next r (is_remap p) =
    mapped_before a (omega arith) (ground arith) p
from_Page k zero dir a last pa perm m ap1 lt e le next r (is_mapped m1 ap2 free one cost) =
    let q : last ≡ a = omega arith in
    let t : (a == last) ≡ true = ground arith in
    rw (t, after_page)
      (subst (λ l. Maps dir a l pa perm 0 m (mapped m1)) (sym q)
        (last_page dir a pa perm m m1 ap2 free one))
from_Page k (suc n) dir a last pa perm m ap1 lt e le next r (is_mapped m1 ap2 free one cost) =
    let t : (a == last) ≡ false = ground arith in
    let s : n + 1 ≡ suc n = omega arith in
    rw (t, after_page)
      (subst
        (λ i.
          Maps dir a last pa perm i m
            (map_from k dir (a + page_size) last (pa + page_size) perm m1))
        s (Maps-more dir a last pa perm n m m1 (omega arith) free one cost _ (next n m1 refl ap2)))

map_from_lem :
    (k n dir a last pa perm : ℕ) (m : Vm)
    → Apart dir m
    → n < k
    → last ≡ a + n * 4096
    → last < 4294967296
    → Maps dir a last pa perm n m (map_from k dir a last pa perm m)
map_from_lem zero n dir a last pa perm m ap1 lt e le = absurd (omega arith)
map_from_lem (suc k) n dir a last pa perm m ap1 lt e le =
    subst (Maps dir a last pa perm n m) (sym (map_from_step k dir a last pa perm m)) (
      from_Page k n dir a last pa perm m ap1 lt e le
        (λ n1 m1 q ap2.
          map_from_lem k n1 dir (a + 4096) last (pa + 4096) perm m1 ap2 (omega arith) (omega arith)
            le)
        (map_page dir a (pte_of pa perm) m)
        (map_page_lem dir a (pte_of pa perm) m ap1 (omega arith)))

-- `mappages` on page tables that are apart, for a range below 2^32, ends in one of three ways: all pages
-- of the range, none of which had an entry, have entries for consecutive physical pages and all other
-- addresses are as before; or a page was mapped before, which is the panic; or there were not more free
-- pages than pages to map, and nothing outside the range changes. The tables stay apart.
pub mappages_lem :
    (dir va size pa perm : ℕ) (m : Vm)
    → Apart dir m
    → 1 ≤ size
    → va + size ≤ 4294967296
    → let a = round_down va in
      let last = round_down (va + size - 1) in
      Maps dir a last pa perm ((last - a) / 4096) m (mappages dir va size pa perm m)
unfolding mappages
mappages_lem dir va size pa perm m ap1 pos le =
    let a = round_down va in
    let last = round_down (va + size - 1) in
    map_from_lem ((last - a) / 4096 + 1) ((last - a) / 4096) dir a last pa perm m ap1 (omega arith)
      (omega arith) (omega arith)
