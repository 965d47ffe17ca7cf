-- ===== src/Vm/Entries.antt =====
-- The entries of a page directory as one function of the page number.
use hyu_ele.Prelude.{
  ℕ, ◌+◌, ◌%◌, ◌≡◌, ◌≢◌, ◌≤◌, ◌<◌, inl, inr, refl, sym, ap, subst, ◌∙◌, arith, true, false, ◌==◌,
  if◌then◌else◌, Bool-cases, List, ◌∷◌, length,
}
use hyu_ele.Prelude.Maps.{has, distinct}
use hyu_ele.Vm.{Vm, pdx, ptx, pte_addr, present, put_word, clear_page}

-- The page table entry of an address, or 0 where there is no page table.
abbrev pub pte : ℕ → Vm → ℕ → ℕ
pte dir m va =
    let pde = m.word dir (pdx va) in if present pde then m.word (pte_addr pde) (ptx va) else 0

-- Page tables are apart from each other and from the directory, and so are the free pages.
pub record Apart (dir : ℕ) (m : Vm) : Type 0 where
  pub not_dir : (i : ℕ) → i < 1024 → present (m.word dir i) ≡ true → pte_addr (m.word dir i) ≢ dir
  pub tables :
      (i j : ℕ)
      → i < 1024
      → j < 1024
      → i ≢ j
      → present (m.word dir i) ≡ true
      → present (m.word dir j) ≡ true
      → pte_addr (m.word dir i) ≢ pte_addr (m.word dir j)
  pub free_table :
      (i : ℕ)
      → i < 1024
      → present (m.word dir i) ≡ true
      → has (pte_addr (m.word dir i)) m.free ≡ false
  pub free_dir : has dir m.free ≡ false
  pub free_distinct : distinct m.free ≡ true
  pub free_aligned : (p : ℕ) → has p m.free ≡ true → p % 4096 ≡ 0

-- The table that `walkpgdir` gives, and what it leaves.
pub record Walked (dir va t : ℕ) (m m1 : Vm) : Type 0 where
  pub apart : Apart dir m1
  pub here : (present (m1.word dir (pdx va)) ≡ true) × (pte_addr (m1.word dir (pdx va)) ≡ t)
  pub same : (vb : ℕ) → pte dir m1 vb ≡ pte dir m vb
  pub cost : length m.free ≤ length m1.free + 1

module _ (dir va t : ℕ) (ts : List ℕ) (w : ℕ → ℕ → ℕ)
    (a : Apart dir (record { word = w; free = t ∷ ts }))
    (e : present (w dir (pdx va)) ≡ false) where
  abbrev before : Vm
  before = record { word = w; free = t ∷ ts }

  abbrev after : Vm
  after = put_word dir (pdx va) (t + 7) (clear_page t (record { word = w; free = ts }))

  aligned : t % 4096 ≡ 0
  aligned = a.free_aligned t (ground arith)

  ne_dir : dir ≢ t
  ne_dir = λ q. absurd (let d = a.free_dir in ground arith)

  addr : pte_addr (t + 7) ≡ t
  addr = let q = aligned in omega arith

  is_there : present (t + 7) ≡ true
  is_there = let q = aligned in let r : (t + 7) % 2 ≡ 1 = omega arith in ground arith

  new_entry : after.word dir (pdx va) ≡ t + 7
  new_entry = ground arith

  old_entry : (i : ℕ) → i ≢ pdx va → after.word dir i ≡ w dir i
  old_entry i n = let q = ne_dir in ground arith

  cleared : (i : ℕ) → after.word t i ≡ 0
  cleared i = let q = ne_dir in ground arith

  other_page : (p i : ℕ) → p ≢ t → p ≢ dir → after.word p i ≡ w p i
  other_page p i x y = ground arith

  -- An entry of the directory is the new one or an old one.
  split :
      (P : ℕ → Type 0) (i : ℕ)
      → (i ≡ pdx va → P (t + 7))
      → (i ≢ pdx va → P (w dir i))
      → P (after.word dir i)
  split P i x y = elim (Bool-cases (i == pdx va)) [
    | inl q ↦
        let same : i ≡ pdx va = ground arith in
        subst P (sym (ap (after.word dir) same ∙ new_entry)) (x same)
    | inr q ↦ let n : i ≢ pdx va = λ z. ground arith in subst P (sym (old_entry i n)) (y n)
  ]

  not_free :
      (i : ℕ)
      → i < 1024
      → present (w dir i) ≡ true
      → (pte_addr (w dir i) ≢ t) × (has (pte_addr (w dir i)) ts ≡ false)
  not_free i lt p = let f = a.free_table i lt p in (λ q. ground arith, ground arith)

  new-Apart : Apart dir after
  new-Apart = record {
    not_dir = λ i lt.
        split (λ x. present x ≡ true → pte_addr x ≢ dir) i (λ z p q. ne_dir (sym q ∙ addr))
          (λ n p. a.not_dir i lt p);
    tables = λ i j li lj ne.
        split
          (λ x.
            present x ≡ true
            → present (after.word dir j) ≡ true
            → pte_addr x ≢ pte_addr (after.word dir j))
          i
          (λ z.
            split (λ y. present (t + 7) ≡ true → present y ≡ true → pte_addr (t + 7) ≢ pte_addr y) j
              (λ y p q r. ne (z ∙ sym y)) (λ n p q r. (not_free j lj q).0 (sym r ∙ addr)))
          (λ n.
            split
              (λ y. present (w dir i) ≡ true → present y ≡ true → pte_addr (w dir i) ≢ pte_addr y) j
              (λ z p q r. (not_free i li p).0 (r ∙ addr)) (λ m p q. a.tables i j li lj ne p q));
    free_table = λ i lt.
        split (λ x. present x ≡ true → has (pte_addr x) ts ≡ false) i
          (λ z p. rw addr (let d = a.free_distinct in ground arith)) (λ n p. (not_free i lt p).1);
    free_dir = let d = a.free_dir in ground arith;
    free_distinct = let d = a.free_distinct in ground arith;
    free_aligned = λ p h. a.free_aligned p (ground arith);
  }

  index_small : (vb : ℕ) → pdx vb < 1024
  index_small vb = omega arith

  abbrev look : Vm → ℕ → ℕ → ℕ
  look m vb pde = if present pde then m.word (pte_addr pde) (ptx vb) else 0

  new_pte : (vb : ℕ) → look after vb (after.word dir (pdx vb)) ≡ look before vb (w dir (pdx vb))
  new_pte vb =
      split (λ x. look after vb x ≡ look before vb (w dir (pdx vb))) (pdx vb)
        (λ z.
          let f : present (w dir (pdx vb)) ≡ false = ap (λ i. present (w dir i)) z ∙ e in
          rw (is_there, addr, f) (cleared (ptx vb)))
        (λ n. elim (Bool-cases (present (w dir (pdx vb)))) [
          | inl p ↦
              let lt = index_small vb in
              rw p (
                other_page (pte_addr (w dir (pdx vb))) (ptx vb) (not_free (pdx vb) lt p).0
                  (a.not_dir (pdx vb) lt p))
          | inr p ↦ rw p refl
        ])

  pub new_table : Walked dir va t before after
  new_table = record {
    apart = new-Apart;
    here = (ap present new_entry ∙ is_there, ap pte_addr new_entry ∙ addr);
    same = λ vb. new_pte vb;
    cost = omega arith;
  }
