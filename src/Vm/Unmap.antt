-- ===== src/Vm/Unmap.antt =====
-- `deallocuvm` against the function of entries.
use hyu_ele.Prelude.{
  ℕ, zero, suc, ◌+◌, ◌*◌, ◌/◌, ◌%◌, ◌≡◌, ◌≤◌, ◌<◌, inl, inr, refl, sym, ap, subst, ◌∙◌, ◌≢◌, arith,
  Bool, true, false, ◌&&◌, ◌==◌, ltb, leb, if◌then◌else◌, Bool-cases, [], none, some,
}
use hyu_ele.Kalloc.{page_size, kernbase, phystop, physical, round_up}
use hyu_ele.Vm.{
  Vm, pdx, ptx, pte_addr, present, put_word, walkpgdir, freed, free_page, unmap_from, deallocuvm,
}
use hyu_ele.Vm.Entries.{pte, Apart}
use hyu_ele.Vm.Pages.{put-Apart, put-pte}

-- The page tables are apart; the free pages do not matter here.
abbrev pub Tables : ℕ → Vm → Type 0
Tables dir m = Apart dir (record m { free = [] })

pub Apart-Tables : (dir : ℕ) (m : Vm) → Apart dir m → Tables dir m
Apart-Tables dir m a = record {
  not_dir = a.not_dir;
  tables = a.tables;
  free_table = λ i l p. refl;
  free_dir = refl;
  free_distinct = refl;
  free_aligned = λ p h. absurd (ground arith);
}

walk_none :
    (dir a : ℕ) (m : Vm) → present (m.word dir (pdx a)) ≡ false → (walkpgdir dir a false m).0 ≡ none
unfolding walkpgdir
walk_none dir a m e = rw e refl

walk_some :
    (dir a : ℕ) (m : Vm)
    → present (m.word dir (pdx a)) ≡ true
    → (walkpgdir dir a false m).0 ≡ some (pte_addr (m.word dir (pdx a)))
unfolding walkpgdir
walk_some dir a m e = rw e refl

-- The pages from `a` on that begin below `oldsz`.
abbrev pub in_range : ℕ → ℕ → ℕ → Bool
in_range a oldsz vb = leb (a / 4096) (vb / 4096) && ltb (vb / 4096 * 4096) oldsz

pub record Unmapped (dir a oldsz : ℕ) (m m1 : Vm) : Type 0 where
  pub gone :
      (vb : ℕ) → vb < 4294967296 → in_range a oldsz vb ≡ true → present (pte dir m1 vb) ≡ false
  pub kept : (vb : ℕ) → vb < 4294967296 → in_range a oldsz vb ≡ false → pte dir m1 vb ≡ pte dir m vb

-- `kfree` takes the page at `p`, which is not the page 0, the directory or a page table.
pub record Freeable (end dir p : ℕ) (m : Vm) : Type 0 where
  pub not_zero : (p == 0) ≡ false
  pub inside : p < phystop
  pub beyond_kernel : end ≤ p + kernbase
  pub aligned : p % 4096 ≡ 0
  pub not_dir : p ≢ dir
  pub not_table : (i : ℕ) → i < 1024 → present (m.word dir i) ≡ true → pte_addr (m.word dir i) ≢ p

-- All mapped pages of the range are such pages.
abbrev pub Real : ℕ → ℕ → ℕ → ℕ → Vm → Type 0
Real end dir a oldsz m =
    (vb : ℕ)
    → vb < 4294967296
    → in_range a oldsz vb ≡ true
    → present (pte dir m vb) ≡ true
    → Freeable end dir (pte_addr (pte dir m vb)) m

-- `b` is the next address that the loop looks at, and `m1` the pages by then.
Unmapped-step :
    (dir a b oldsz : ℕ) (m m1 m2 : Vm)
    → a / 4096 < b / 4096
    → ((vb : ℕ)
        → vb < 4294967296
        → a / 4096 ≤ vb / 4096
        → vb / 4096 < b / 4096
        → present (pte dir m1 vb) ≡ false)
    → ((vb : ℕ) → vb < 4294967296 → in_range a oldsz vb ≡ false → pte dir m1 vb ≡ pte dir m vb)
    → Unmapped dir b oldsz m1 m2
    → Unmapped dir a oldsz m m2
Unmapped-step dir a b oldsz m m1 m2 lt front same u = record {
  gone = λ vb lb r. elim (Bool-cases (in_range b oldsz vb)) [
    | inl x ↦ u.gone vb lb x
    | inr x ↦ ap present (u.kept vb lb x) ∙ front vb lb (ground arith) (ground arith)
  ];
  kept = λ vb lb r. u.kept vb lb (ground arith) ∙ same vb lb r;
}

same_page : (dir a vb : ℕ) (m : Vm) → vb / 4096 ≡ a / 4096 → pte dir m vb ≡ pte dir m a
same_page dir a vb m e =
    let d : pdx vb ≡ pdx a = omega arith in let i : ptx vb ≡ ptx a = omega arith in rw (d, i) refl

no_table_pte : (dir a : ℕ) (m : Vm) → present (m.word dir (pdx a)) ≡ false → pte dir m a ≡ 0
no_table_pte dir a m e = rw e refl

-- The first address of the next page table.
next_table :
    (a : ℕ)
    → a < 2147483648
    → a % 4096 ≡ 0
    → let b = (pdx a + 1) * 4194304 % 4294967296 in
      (b % 4096 ≡ 0)
      × (a + 4096 ≤ b)
      × (a / 4096 < b / 4096)
      × ((vb : ℕ) → a / 4096 ≤ vb / 4096 → vb / 4096 < b / 4096 → pdx vb ≡ pdx a)
next_table a lt al = (omega arith, omega arith, omega arith, λ vb x y. omega arith)

Real-next :
    (end dir a b oldsz : ℕ) (m m1 : Vm)
    → a / 4096 < b / 4096
    → ((i : ℕ) → m1.word dir i ≡ m.word dir i)
    → ((vb : ℕ) → vb < 4294967296 → in_range b oldsz vb ≡ true → pte dir m1 vb ≡ pte dir m vb)
    → Real end dir a oldsz m
    → Real end dir b oldsz m1
Real-next end dir a b oldsz m m1 lt words same real vb lb x p =
    let q = same vb lb x in
    let f = real vb lb (ground arith) (ap present (sym q) ∙ p) in
    subst (λ e. Freeable end dir (pte_addr e) m1) (sym q)
      (record {
        not_zero = f.not_zero;
        inside = f.inside;
        beyond_kernel = f.beyond_kernel;
        aligned = f.aligned;
        not_dir = f.not_dir;
        not_table = λ i l y. rw (words i) (f.not_table i l (rw (words i) at y));
      })

-- `kfree` of such a page succeeds and leaves the page tables as they are.
free_page_runs :
    (end dir p : ℕ) (m : Vm) → Freeable end dir p m → free_page end p m ≡ some (freed p m)
unfolding free_page
free_page_runs end dir p m f =
    let a = f.aligned in
    let lo = f.beyond_kernel in
    let hi = f.inside in
    let v : (p + kernbase) % 4294967296 ≡ p + kernbase = omega arith in
    let pa : physical (p + kernbase) ≡ p = omega arith in
    let x : ((p + kernbase) % page_size == 0) ≡ true =
      let y : (p + kernbase) % page_size ≡ 0 = omega arith in ground arith in
    let y : ltb (p + kernbase) end ≡ false = ground arith in
    let z : leb phystop p ≡ false = ground arith in rw (v, pa, x, y, z, free_page) refl

module _ (end dir p : ℕ) (m : Vm) (ts : Tables dir m) (f : Freeable end dir p m) where
  freed_dir : (i : ℕ) → (freed p m).word dir i ≡ m.word dir i
  freed_dir i = let n = f.not_dir in ground arith

  freed-Tables : Tables dir (freed p m)
  freed-Tables = record {
    not_dir = λ i l x. rw (freed_dir i) (ts.not_dir i l (rw (freed_dir i) at x));
    tables = λ i j li lj n x y.
        rw (freed_dir i, freed_dir j)
          (ts.tables i j li lj n (rw (freed_dir i) at x) (rw (freed_dir j) at y));
    free_table = λ i l x. refl;
    free_dir = refl;
    free_distinct = refl;
    free_aligned = λ p h. absurd (ground arith);
  }

  freed-pte : (vb : ℕ) → pte dir (freed p m) vb ≡ pte dir m vb
  freed-pte vb =
      ap (λ (x : ℕ). if present x then (freed p m).word (pte_addr x) (ptx vb) else 0)
        (freed_dir (pdx vb))
      ∙ (elim (Bool-cases (present (m.word dir (pdx vb)))) [
        | inl x ↦ let n = f.not_table (pdx vb) (omega arith) x in rw x (ground arith)
        | inr x ↦ rw x refl
      ])

-- A page that was mapped is unmapped.
module _ (end dir a t : ℕ) (m : Vm) (ts : Tables dir m) (p : present (m.word dir (pdx a)) ≡ true)
    (q : pte_addr (m.word dir (pdx a)) ≡ t)
    (f : Freeable end dir (pte_addr (m.word t (ptx a))) m) where
  abbrev gone_page : Vm
  gone_page = freed (pte_addr (m.word t (ptx a))) m

  abbrev dropped : Vm
  dropped = put_word t (ptx a) 0 gone_page

  gone_dir : (i : ℕ) → gone_page.word dir i ≡ m.word dir i
  gone_dir = freed_dir end dir (pte_addr (m.word t (ptx a))) m ts f

  gone-Tables : Tables dir gone_page
  gone-Tables = freed-Tables end dir (pte_addr (m.word t (ptx a))) m ts f

  p_gone : present (gone_page.word dir (pdx a)) ≡ true
  p_gone = ap present (gone_dir (pdx a)) ∙ p

  q_gone : pte_addr (gone_page.word dir (pdx a)) ≡ t
  q_gone = ap pte_addr (gone_dir (pdx a)) ∙ q

  dropped-Tables : Tables dir dropped
  dropped-Tables = put-Apart dir a t 0 (record gone_page { free = [] }) gone-Tables p_gone q_gone

  dropped_dir : (i : ℕ) → dropped.word dir i ≡ m.word dir i
  dropped_dir i =
      let n : dir ≢ t = λ z. ts.not_dir (pdx a) (omega arith) p (q ∙ sym z) in
      let g = gone_dir i in ground arith

  dropped-pte :
      (vb : ℕ)
      → a < 4294967296
      → vb < 4294967296
      → pte dir dropped vb ≡ (if vb / 4096 == a / 4096 then 0 else pte dir m vb)
  dropped-pte vb la lb =
      put-pte dir a t 0 (record gone_page { free = [] }) gone-Tables p_gone q_gone vb la lb
      ∙ ap (λ z. if vb / 4096 == a / 4096 then 0 else z)
          (freed-pte end dir (pte_addr (m.word t (ptx a))) m ts f vb)

abbrev Ends : ℕ → ℕ → ℕ → ℕ → ℕ → Vm → Type 0
Ends k end dir a oldsz m =
    (m1 : Vm) × (unmap_from k end dir a oldsz m ≡ some m1) × Unmapped dir a oldsz m m1

-- One round that unmaps a page.
unmap_from-drops :
    (k end dir a oldsz t : ℕ) (m : Vm)
    → ltb a oldsz ≡ true
    → (walkpgdir dir a false m).0 ≡ some t
    → present (m.word t (ptx a)) ≡ true
    → Freeable end dir (pte_addr (m.word t (ptx a))) m
    → unmap_from (suc k) end dir a oldsz m
      ≡ unmap_from k end dir
          (a + page_size)
          oldsz
          (put_word t (ptx a) 0 (freed (pte_addr (m.word t (ptx a))) m))
unfolding unmap_from
unmap_from-drops k end dir a oldsz t m e w x f =
    let ok = free_page_runs end dir (pte_addr (m.word t (ptx a))) m f in
    rw (e, w, x, f.not_zero, ok, unmap_from) refl

-- The loop goes on.
free_more :
    (k end dir a oldsz : ℕ) (m : Vm)
    → ((b : ℕ) (m1 : Vm)
        → Tables dir m1
        → b % 4096 ≡ 0
        → a + 4096 ≤ b
        → Real end dir b oldsz m1
        → Ends (suc k) end dir b oldsz m1)
    → Tables dir m
    → a % 4096 ≡ 0
    → oldsz ≤ 2147483648
    → Real end dir a oldsz m
    → ltb a oldsz ≡ true
    → Ends (suc (suc k)) end dir a oldsz m
unfolding unmap_from
free_more k end dir a oldsz m next ts al le real e =
    elim (Bool-cases (present (m.word dir (pdx a)))) [
      | inr p ↦
          let b = (pdx a + 1) * 4194304 % 4294967296 in
          let (ba, far, after, one_table) = next_table a (ground arith) al in
          let (m1, r, u) =
            next b m ts ba far
              (Real-next end dir a b oldsz m m after (λ i. refl) (λ vb lb x. refl) real) in
          let gap : (vb : ℕ)
              → vb < 4294967296
              → a / 4096 ≤ vb / 4096
              → vb / 4096 < b / 4096
              → present (pte dir m vb) ≡ false =
            λ vb lb x y.
              ap present
                (no_table_pte dir vb m (ap (λ i. present (m.word dir i)) (one_table vb x y) ∙ p)) in
          (
            m1,
            rw (e, walk_none dir a m p, unmap_from) r,
            Unmapped-step dir a b oldsz m m m1 after gap (λ vb lb x. refl) u,
          )
      | inl p ↦
          let t = pte_addr (m.word dir (pdx a)) in
          let after : a / 4096 < (a + 4096) / 4096 = omega arith in
          let here : pte dir m a ≡ m.word t (ptx a) = rw p refl in
          elim (Bool-cases (present (m.word t (ptx a)))) [
            | inr x ↦
                let (m1, r, u) = next (a + 4096) m ts (omega arith) (omega arith) (
                  Real-next end dir a (a + 4096) oldsz m m after (λ i. refl) (λ vb lb z. refl)
                    real) in
                let gap : (vb : ℕ)
                    → vb < 4294967296
                    → a / 4096 ≤ vb / 4096
                    → vb / 4096 < (a + 4096) / 4096
                    → present (pte dir m vb) ≡ false =
                  λ vb lb y z. ap present (same_page dir a vb m (omega arith) ∙ here) ∙ x in
                (
                  m1,
                  rw (e, walk_some dir a m p, x, unmap_from) r,
                  Unmapped-step dir a (a + 4096) oldsz m m m1 after gap (λ vb lb y. refl) u,
                )
            | inl x ↦
                let la : a < 4294967296 = ground arith in
                let fr : Freeable end dir (pte_addr (m.word t (ptx a))) m =
                  subst (λ z. Freeable end dir (pte_addr z) m) here
                    (real a la (ground arith) (ap present here ∙ x)) in
                let m2 = dropped end dir a t m ts p refl fr in
                let new = λ (vb : ℕ).
                  λ (lb : vb < 4294967296). dropped-pte end dir a t m ts p refl fr vb la lb in
                let (m1, r, u) =
                  next (a + 4096) m2 (dropped-Tables end dir a t m ts p refl fr) (omega arith)
                    (omega arith)
                    (Real-next end dir a (a + 4096) oldsz m m2 after
                      (dropped_dir end dir a t m ts p refl fr)
                      (λ vb lb z.
                        let f : (vb / 4096 == a / 4096) ≡ false = ground arith in
                        new vb lb ∙ rw f refl)
                      real) in
                let gap : (vb : ℕ)
                    → vb < 4294967296
                    → a / 4096 ≤ vb / 4096
                    → vb / 4096 < (a + 4096) / 4096
                    → present (pte dir m2 vb) ≡ false =
                  λ vb lb y z.
                    (let f : (vb / 4096 == a / 4096) ≡ true =
                        let w : vb / 4096 ≡ a / 4096 = omega arith in ground arith in
                      let pt : pte dir m2 vb ≡ 0 = new vb lb ∙ rw f refl in ap present pt) in
                let same : (vb : ℕ)
                    → vb < 4294967296
                    → in_range a oldsz vb ≡ false
                    → pte dir m2 vb ≡ pte dir m vb =
                  λ vb lb y.
                    (let f : (vb / 4096 == a / 4096) ≡ false = ground arith in
                      new vb lb ∙ rw f refl) in
                (
                  m1,
                  unmap_from-drops (suc k) end dir a oldsz t m e (walk_some dir a m p) x fr ∙ r,
                  Unmapped-step dir a (a + 4096) oldsz m m2 m1 after gap same u,
                )
          ]
    ]

free_done :
    (k end dir a oldsz : ℕ) (m : Vm)
    → a % 4096 ≡ 0
    → ltb a oldsz ≡ false
    → Ends (suc k) end dir a oldsz m
unfolding unmap_from
free_done k end dir a oldsz m al e =
    let u : Unmapped dir a oldsz m m = record {
      gone = λ vb lb r. absurd (ground arith);
      kept = λ vb lb r. refl;
    } in
    (m, rw (e, unmap_from) refl, u)

unmap_from_lem :
    (k end dir a oldsz : ℕ) (m : Vm)
    → Tables dir m
    → a % 4096 ≡ 0
    → oldsz ≤ 2147483648
    → oldsz ≤ a + k * 4096
    → Real end dir a oldsz m
    → Ends (suc k) end dir a oldsz m
unmap_from_lem zero end dir a oldsz m ts al le lt real =
    free_done 0 end dir a oldsz m al (ground arith)
unmap_from_lem (suc k) end dir a oldsz m ts al le lt real = elim (Bool-cases (ltb a oldsz)) [
  | inl e ↦
      free_more k end dir a oldsz m
        (λ b m1 t1 bl far re. unmap_from_lem k end dir b oldsz m1 t1 bl le (omega arith) re) ts al
        le real e
  | inr e ↦ free_done (suc k) end dir a oldsz m al e
]

-- `deallocuvm` on page tables that are apart, to a smaller size and from one of at most `KERNBASE`, where
-- each mapped page of the range lies between the kernel and `PHYSTOP` and is neither the directory nor a
-- page table: no panic of it or of `kfree` is met, and it returns the new size; no page that begins in
-- the range has an entry any more, and all other entries are as before.
pub deallocuvm_lem :
    (end dir oldsz newsz : ℕ) (m : Vm)
    → Apart dir m
    → newsz < oldsz
    → oldsz ≤ 2147483648
    → Real end dir (round_up newsz) oldsz m
    → (m1 : Vm) × (deallocuvm end dir oldsz newsz m ≡ some (newsz, m1))
      × Unmapped dir (round_up newsz) oldsz m m1
unfolding deallocuvm
deallocuvm_lem end dir oldsz newsz m a lt le real =
    let n : leb oldsz newsz ≡ false = ground arith in
    let q : oldsz / page_size + 2 ≡ suc (oldsz / page_size + 1) = omega arith in
    let (m1, r, u) =
      unmap_from_lem (oldsz / page_size + 1) end dir (round_up newsz) oldsz m (Apart-Tables dir m a)
        (omega arith) le (omega arith) real in
    (m1, rw (n, q, r, deallocuvm) refl, u)
