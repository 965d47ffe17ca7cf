-- ===== src/Files/Counts.antt =====
-- The reference counts are the numbers of references that the callers hold.
use hyu_ele.Prelude.{
  ℕ, zero, suc, ◌+◌, ◌-◌, ◌≡◌, ◌≤◌, ◌<◌, ◌⊎◌, inl, inr, refl, sym, ◌∙◌, arith, true, false, ◌==◌,
  ltb, if◌then◌else◌, Bool-cases, List, [], ◌∷◌, none, some,
}
use hyu_ele.Prelude.Maps.{update}
use hyu_ele.Files.{nfile, fd_none, Files, find_file, filealloc, filedup, fileclose}

abbrev pub count : ℕ → List ℕ → ℕ
count f [] = 0
count f (x ∷ xs) = (if f == x then 1 else 0) + count f xs

-- One reference to `f` less.
abbrev pub drop_one : ℕ → List ℕ → List ℕ
drop_one f [] = []
drop_one f (x ∷ xs) = if f == x then xs else x ∷ drop_one f xs

count-drop_one :
    (f g : ℕ) (hs : List ℕ)
    → 1 ≤ count f hs
    → count g (drop_one f hs) + (if g == f then 1 else 0) ≡ count g hs
count-drop_one f g [] le = absurd (omega arith)
count-drop_one f g (x ∷ xs) le = elim (Bool-cases (f == x)) [
  | inl e ↦ ground arith
  | inr e ↦ let ih = count-drop_one f g xs (ground arith) in ground arith
]

-- Each file has as many references as there are in `hs`.
abbrev pub Counted : Files → List ℕ → Type 0
Counted t hs = (f : ℕ) → t.ref f ≡ count f hs

-- The entry that `find_file` finds.
find_file_lem :
    (k f : ℕ) (t : Files)
    → ((z : ℕ) × (find_file k f t ≡ some z) × (t.ref z ≡ 0) × (f ≤ z) × (z < f + k))
      ⊎ ((find_file k f t ≡ none) × ((x : ℕ) → f ≤ x → x < f + k → 1 ≤ t.ref x))
unfolding find_file
find_file_lem zero f t = inr (refl, λ x a b. absurd (omega arith))
find_file_lem (suc k) f t = elim (Bool-cases (t.ref f == 0)) [
  | inl e ↦ inl (f, rw e refl, ground arith, omega arith, omega arith)
  | inr e ↦ elim (find_file_lem k (f + 1) t) [
    | inl (z, q, r, a, b) ↦ inl (z, rw e q, r, omega arith, omega arith)
    | inr (q, all) ↦ inr (
      rw e q,
      λ x a b. elim (Bool-cases (x == f)) [
        | inl w ↦ let same : x ≡ f = ground arith in rw same (ground arith)
        | inr w ↦ all x (ground arith) (omega arith)
      ],
    )
  ]
]

-- `filealloc` gives a file of the table that nobody holds, with one reference, or null when all are held.
filealloc_lem :
    (t : Files) (hs : List ℕ)
    → Counted t hs
    → ((f : ℕ) × (1 ≤ f)
        × (f ≤ nfile)
        × ((filealloc t).0 ≡ f)
        × (count f hs ≡ 0)
        × Counted (filealloc t).1 (f ∷ hs))
      ⊎ ((filealloc t ≡ (0, t)) × ((x : ℕ) → 1 ≤ x → x ≤ nfile → 1 ≤ count x hs))
unfolding filealloc
filealloc_lem t hs c = elim (find_file_lem nfile 1 t) [
  | inl (z, e, r, a, b) ↦ inl (
    z,
    a,
    omega arith,
    rw (e, filealloc) refl,
    sym (c z) ∙ r,
    rw (e, filealloc) (λ g. let x = c g in ground arith),
  )
  | inr (e, all) ↦
      inr (
        rw (e, filealloc) refl,
        λ x a b. let y = all x a (omega arith) in let z = c x in omega arith,
      )
]

-- `filedup` of a file that is held adds a reference.
filedup_lem :
    (t : Files) (hs : List ℕ) (f : ℕ)
    → Counted t hs
    → 1 ≤ count f hs
    → (t1 : Files) × (filedup f t ≡ some t1) × Counted t1 (f ∷ hs)
unfolding filedup
filedup_lem t hs f c le =
    let held : ltb (t.ref f) 1 ≡ false = let x = c f in ground arith in
    (
      record t { ref = update t.ref f (t.ref f + 1) },
      rw held refl,
      λ g. let x = c g in let y = c f in ground arith,
    )

-- `fileclose` of a file that is held takes one reference away, and says that the file is to be closed
-- exactly when nobody holds it any more.
fileclose_lem :
    (t : Files) (hs : List ℕ) (f : ℕ)
    → Counted t hs
    → 1 ≤ count f hs
    → (t1 : Files) × Counted t1 (drop_one f hs)
      × (fileclose f t ≡ some (if count f (drop_one f hs) == 0 then some (t.kind f) else none, t1))
unfolding fileclose
fileclose_lem t hs f c le =
    let held : ltb (t.ref f) 1 ≡ false = let x = c f in ground arith in
    let d = count-drop_one f f hs le in
    let cf = c f in
    elim (Bool-cases (ltb 0 (t.ref f - 1))) [
      | inl more ↦
          let n : (count f (drop_one f hs) == 0) ≡ false = ground arith in
          let s : ltb 0 (update t.ref f (t.ref f - 1) f) ≡ true = ground arith in
          (
            record t { ref = update t.ref f (t.ref f - 1) },
            λ g. let x = c g in let y = count-drop_one f g hs le in ground arith,
            rw (held, s, n) refl,
          )
      | inr more ↦
          let n : (count f (drop_one f hs) == 0) ≡ true = ground arith in
          let s : ltb 0 (update t.ref f (t.ref f - 1) f) ≡ false = ground arith in
          (
            record t {
              ref = update (update t.ref f (t.ref f - 1)) f 0;
              kind = update t.kind f fd_none;
            },
            λ g. let x = c g in let y = count-drop_one f g hs le in ground arith,
            rw (held, s, n) refl,
          )
    ]

-- The outcomes of the operations on a file table whose files have the references `hs`.
pub record Kept (t : Files) (hs : List ℕ) : Type 0 where
  pub alloc :
      ((f : ℕ) × (1 ≤ f)
        × (f ≤ nfile)
        × ((filealloc t).0 ≡ f)
        × (count f hs ≡ 0)
        × Counted (filealloc t).1 (f ∷ hs))
      ⊎ ((filealloc t ≡ (0, t)) × ((x : ℕ) → 1 ≤ x → x ≤ nfile → 1 ≤ count x hs))
  pub dup : (f : ℕ) → 1 ≤ count f hs → (t1 : Files) × (filedup f t ≡ some t1) × Counted t1 (f ∷ hs)
  pub close :
      (f : ℕ)
      → 1 ≤ count f hs
      → (t1 : Files) × Counted t1 (drop_one f hs)
        × (fileclose f t
            ≡ some (if count f (drop_one f hs) == 0 then some (t.kind f) else none, t1))
  pub unheld : (f : ℕ) → count f hs ≡ 0 → (filedup f t ≡ none) × (fileclose f t ≡ none)

unheld_panics :
    (t : Files) (hs : List ℕ)
    → Counted t hs
    → (f : ℕ) → count f hs ≡ 0
    → (filedup f t ≡ none) × (fileclose f t ≡ none)
unfolding filedup fileclose
unheld_panics t hs c f z =
    let n : ltb (t.ref f) 1 ≡ true = let x = c f in ground arith in (rw n refl, rw n refl)

-- As long as the reference count of each file is the number of references that callers hold, `filealloc`
-- gives one of the `NFILE` files of the table that nobody holds, or null when all of them are held; `filedup` adds a reference;
-- `fileclose` takes one away and says that the file has to be closed exactly when it was the last;
-- `filedup` and `fileclose` of a file that nobody holds are the panics; and the counts stay right.
pub ops-Counted : (t : Files) (hs : List ℕ) → Counted t hs → Kept t hs
ops-Counted t hs c = record {
  alloc = filealloc_lem t hs c;
  dup = λ f le. filedup_lem t hs f c le;
  close = λ f le. fileclose_lem t hs f c le;
  unheld = unheld_panics t hs c;
}
