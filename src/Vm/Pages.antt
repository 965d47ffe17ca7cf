-- ===== src/Vm/Pages.antt =====
-- `walkpgdir` and one round of `mappages` against the function of entries.
use hyu_ele.Prelude.{
  ℕ, ◌+◌, ◌/◌, ◌≡◌, ◌≢◌, ◌≤◌, ◌<◌, ◌⊎◌, inl, inr, refl, sym, ap, subst, ◌∙◌, arith, true, false,
  ◌==◌, if◌then◌else◌, Bool-cases, List, [], ◌∷◌, Option, none, some, length,
}
use hyu_ele.Vm.{
  Vm, pdx, ptx, pte_addr, present, put_word, clear_page, walkpgdir, Mapping, mapped, short, remap,
  map_page,
}
use hyu_ele.Vm.Entries.{pte, Apart, Walked, new_table}

abbrev Found : ℕ → ℕ → Vm → Type 0
Found dir va m =
    (t : ℕ) × (m1 : Vm) × (walkpgdir dir va true m ≡ (some t, m1)) × Walked dir va t m m1

no_table :
    (dir va : ℕ) (w : ℕ → ℕ → ℕ) (fs : List ℕ)
    → Apart dir (record { word = w; free = fs })
    → present (w dir (pdx va)) ≡ false
    → let m : Vm = record { word = w; free = fs } in
      ((walkpgdir dir va true m ≡ (none, m)) × (fs ≡ [])) ⊎ Found dir va m
unfolding walkpgdir
no_table dir va w [] a p = inl (rw p refl, refl)
no_table dir va w (t ∷ ts) a p =
    let m : Vm = record { word = w; free = t ∷ ts } in
    let f : Found dir va m = (
      t,
      put_word dir (pdx va) (t + 7) (clear_page t (record { word = w; free = ts })),
      rw p refl,
      new_table dir va t ts w a p,
    ) in
    inr f

-- How `walkpgdir` with `alloc` ends.
walk_lem :
    (dir va : ℕ) (m : Vm)
    → Apart dir m
    → ((walkpgdir dir va true m ≡ (none, m)) × (m.free ≡ [])) ⊎ Found dir va m
unfolding walkpgdir
walk_lem dir va m a = elim (Bool-cases (present (m.word dir (pdx va)))) [
  | inl p ↦
      let w : Walked dir va (pte_addr (m.word dir (pdx va))) m m = record {
        apart = a;
        here = (p, refl);
        same = λ vb. refl;
        cost = omega arith;
      } in
      let f : Found dir va m = (pte_addr (m.word dir (pdx va)), m, rw p refl, w) in inr f
  | inr p ↦ no_table dir va m.word m.free a p
]

-- An entry is written.
module _ (dir va t e : ℕ) (m : Vm) (a : Apart dir m) (p : present (m.word dir (pdx va)) ≡ true)
    (q : pte_addr (m.word dir (pdx va)) ≡ t) where
  abbrev pub written : Vm
  written = put_word t (ptx va) e m

  t_ne : dir ≢ t
  t_ne = λ z. a.not_dir (pdx va) (omega arith) p (q ∙ sym z)

  same_dir : (i : ℕ) → written.word dir i ≡ m.word dir i
  same_dir i = let n = t_ne in ground arith

  pub put-Apart : Apart dir written
  put-Apart = record {
    not_dir = λ i l x. rw (same_dir i) (a.not_dir i l (rw (same_dir i) at x));
    tables = λ i j li lj n x y.
        rw (same_dir i, same_dir j)
          (a.tables i j li lj n (rw (same_dir i) at x) (rw (same_dir j) at y));
    free_table = λ i l x. rw (same_dir i) (a.free_table i l (rw (same_dir i) at x));
    free_dir = a.free_dir;
    free_distinct = a.free_distinct;
    free_aligned = a.free_aligned;
  }

  pub put-pte :
      (vb : ℕ)
      → va < 4294967296
      → vb < 4294967296
      → pte dir written vb ≡ (if vb / 4096 == va / 4096 then e else pte dir m vb)
  put-pte vb la lb =
      let there = λ (x : ℕ). if present x then written.word (pte_addr x) (ptx vb) else 0 in
      ap there (same_dir (pdx vb)) ∙ (elim (Bool-cases (vb / 4096 == va / 4096)) [
        | inl s ↦
            let page : vb / 4096 ≡ va / 4096 = ground arith in
            let d : pdx vb ≡ pdx va = omega arith in
            let i : ptx vb ≡ ptx va = omega arith in rw (s, d, p, q, i) (ground arith)
        | inr s ↦
            let page : vb / 4096 ≢ va / 4096 = λ z. ground arith in
            elim (Bool-cases (present (m.word dir (pdx vb)))) [
              | inr x ↦ rw (s, x) refl
              | inl x ↦ elim (Bool-cases (pdx vb == pdx va)) [
                | inl y ↦
                    let d : pdx vb ≡ pdx va = ground arith in
                    let i : ptx vb ≢ ptx va = λ z. page (omega arith) in
                    rw (s, d, p, q) (ground arith)
                | inr y ↦
                    let d : pdx vb ≢ pdx va = λ z. ground arith in
                    let n : pte_addr (m.word dir (pdx vb)) ≢ t = λ z.
                      a.tables (pdx vb) (pdx va) (omega arith) (omega arith) d x p (z ∙ sym q) in
                    rw (s, x) (ground arith)
              ]
            ]
      ])

-- One round of `mappages`.
pub data Page (dir va e : ℕ) (m : Vm) : Mapping → Type 0 where
  is_mapped :
      (m1 : Vm)
      → Apart dir m1
      → present (pte dir m va) ≡ false
      → ((vb : ℕ)
          → vb < 4294967296
          → pte dir m1 vb ≡ (if vb / 4096 == va / 4096 then e else pte dir m vb))
      → length m.free ≤ length m1.free + 1
      → Page dir va e m (mapped m1)
  is_short : m.free ≡ [] → Page dir va e m (short m)
  is_remap : present (pte dir m va) ≡ true → Page dir va e m remap

abbrev page_of : ℕ → ℕ → Option ℕ × Vm → Mapping
page_of va e w = elim w.0 [
  | none ↦ short w.1
  | some t ↦ if present (w.1.word t (ptx va)) then remap else mapped (put_word t (ptx va) e w.1)
]

pub map_page_lem :
    (dir va e : ℕ) (m : Vm) → Apart dir m → va < 4294967296 → Page dir va e m (map_page dir va e m)
unfolding map_page
map_page_lem dir va e m a la = elim (walk_lem dir va m a) [
  | inl (r, f) ↦ subst (Page dir va e m) (sym (ap (page_of va e) r)) (is_short f)
  | inr (t, m1, r, w) ↦
      let here : pte dir m1 va ≡ m1.word t (ptx va) = rw (w.here.0, w.here.1) refl in
      let old : pte dir m va ≡ m1.word t (ptx va) = sym (w.same va) ∙ here in
      subst (Page dir va e m) (sym (ap (page_of va e) r))
        (elim (Bool-cases (present (m1.word t (ptx va)))) [
          | inl x ↦ rw (x, page_of) (is_remap (ap present old ∙ x))
          | inr x ↦
              rw (x, page_of)
                (is_mapped _ (put-Apart dir va t e m1 w.apart w.here.0 w.here.1)
                  (ap present old ∙ x)
                  (λ vb lb.
                    put-pte dir va t e m1 w.apart w.here.0 w.here.1 vb la lb
                    ∙ ap (λ z. if vb / 4096 == va / 4096 then e else z) (w.same vb))
                  w.cost)
        ])
]
