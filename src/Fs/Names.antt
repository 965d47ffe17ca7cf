-- ===== src/Fs/Names.antt =====
-- Path names: `skipelem` of xv6-public/fs.c, and the loop of `namex` as far as the names go.
-- A path is the list of its bytes in front of the closing zero, and so is a name; `name` has room for
-- `DIRSIZ` bytes.
use hyu_ele.Prelude.{
  ℕ, zero, suc, ◌≡◌, ◌≤◌, inl, inr, refl, sym, ap, ◌∙◌, arith, false, ◌==◌, if◌then◌else◌, List, [],
  ◌∷◌, ◌++◌, map, length, take, Option, none, some, Bool-cases,
}
use mathlib.Core.List.{append_assoc, append-nil}

abbrev pub slash : ℕ
slash = 47

abbrev pub dirsiz : ℕ
dirsiz = 14

-- `while(*path == '/') path++;`
unfoldable pub skip_slashes : List ℕ → List ℕ
skip_slashes [] = []
skip_slashes (c ∷ cs) = let rest = skip_slashes cs in if c == slash then rest else c ∷ cs

-- `while(*path != '/' && *path != 0) path++;`: the bytes passed, and the rest.
unfoldable pub span_element : List ℕ → List ℕ × List ℕ
span_element [] = ([], [])
span_element (c ∷ cs) =
    let (w, r) = span_element cs in if c == slash then ([], c ∷ cs) else (c ∷ w, r)

-- Behind the leading slashes: the name, and the path behind it; `none` is the null pointer.
unfoldable pub element_of : List ℕ → Option (List ℕ × List ℕ)
element_of [] = none
element_of (c ∷ cs) = let (w, r) = span_element (c ∷ cs) in some (take dirsiz w, skip_slashes r)

unfoldable pub skipelem : List ℕ → Option (List ℕ × List ℕ)
skipelem path = element_of (skip_slashes path)

-- The names that `while((path = skipelem(path, name)) != 0)` goes through.
unfoldable pub names : ℕ → List ℕ → List (List ℕ)
names zero path = []
names (suc k) path = elim (skipelem path) [ none ↦ [] | some (n, r) ↦ n ∷ names k r ]

-- The pieces between slashes, without the empty ones; `cur` is the piece read so far.
abbrev emit : List ℕ → List (List ℕ) → List (List ℕ)
emit [] ws = ws
emit (c ∷ cs) ws = (c ∷ cs) ∷ ws

abbrev pub pieces : List ℕ → List ℕ → List (List ℕ)
pieces [] cur = emit cur []
pieces (c ∷ cs) cur = if c == slash then emit cur (pieces cs []) else pieces cs (cur ++ (c ∷ []))

skip-stop : (c : ℕ) (cs : List ℕ) → (c == slash) ≡ false → skip_slashes (c ∷ cs) ≡ (c ∷ cs)
unfolding skip_slashes
skip-stop c cs e = rw e refl

skip-pieces : (p : List ℕ) → pieces (skip_slashes p) [] ≡ pieces p []
unfolding skip_slashes
skip-pieces [] = refl
skip-pieces (c ∷ cs) = elim (Bool-cases (c == slash)) [
  | inl e ↦ rw e (skip-pieces cs)
  | inr e ↦ ap (λ q. pieces q []) (skip-stop c cs e)
]

span-pieces :
    (p cur : List ℕ)
    → pieces p cur ≡ emit (cur ++ (span_element p).0) (pieces (skip_slashes (span_element p).1) [])
unfolding span_element skip_slashes
span-pieces [] cur = ap (λ w. emit w []) (sym (append-nil cur))
span-pieces (c ∷ cs) cur = elim (Bool-cases (c == slash)) [
  | inl e ↦
      let sp : span_element (c ∷ cs) ≡ ([], c ∷ cs) = rw e refl in
      let pc : pieces (c ∷ cs) cur ≡ emit cur (pieces cs []) = rw e refl in
      let m : pieces (skip_slashes (c ∷ cs)) [] ≡ pieces cs [] =
        skip-pieces (c ∷ cs) ∙ (rw e refl) in
      pc
      ∙ ap (λ w. emit w (pieces cs [])) (sym (append-nil cur))
      ∙ ap (λ ws. emit (cur ++ []) ws) (sym m)
      ∙ ap (λ (z : List ℕ × List ℕ). emit (cur ++ z.0) (pieces (skip_slashes z.1) [])) (sym sp)
  | inr e ↦ rw e (
      span-pieces cs (cur ++ (c ∷ []))
      ∙ ap (λ w. emit w (pieces (skip_slashes (span_element cs).1) []))
          (append_assoc cur (c ∷ []) (span_element cs).0))
]

length-skip : (p : List ℕ) → length (skip_slashes p) ≤ length p
unfolding skip_slashes
length-skip [] = omega arith
length-skip (c ∷ cs) = let ih = length-skip cs in ground arith

length-span : (p : List ℕ) → length (span_element p).1 ≤ length p
unfolding span_element
length-span [] = omega arith
length-span (c ∷ cs) = let ih = length-span cs in ground arith

head_eq : {a b : ℕ} {xs ys : List ℕ} → (a ∷ xs) ≡ (b ∷ ys) → a ≡ b
head_eq {a} e = ap (λ l. elim l [ [] ↦ a | x ∷ xs ↦ x ]) e

no_slash : (p : List ℕ) (c : ℕ) (cs : List ℕ) → skip_slashes p ≡ (c ∷ cs) → (c == slash) ≡ false
unfolding skip_slashes
no_slash [] c cs e = absurd (ground arith)
no_slash (d ∷ ds) c cs e = elim (Bool-cases (d == slash)) [
  | inl s ↦ no_slash ds c cs (rw s at e)
  | inr s ↦ let q : d ≡ c = head_eq (rw s at e) in rw q at s
]

names-zero : (p : List ℕ) → names 0 p ≡ []
unfolding names
names-zero p = refl

-- One round of the loop, from a path without slashes in front.
abbrev round : ℕ → List ℕ → List (List ℕ)
round k q = elim (element_of q) [ none ↦ [] | some (n, r) ↦ n ∷ names k r ]

names-round : (k : ℕ) (p : List ℕ) → names (suc k) p ≡ round k (skip_slashes p)
unfolding names skipelem
names-round k p = refl

-- The first piece of a path without slashes in front.
first_piece :
    (c : ℕ) (cs : List ℕ)
    → (c == slash) ≡ false
    → pieces (c ∷ cs) [] ≡ (c ∷ (span_element cs).0) ∷ pieces (skip_slashes (span_element cs).1) []
first_piece c cs e = pc ∙ span-pieces cs (c ∷ [])
  where
    pc : pieces (c ∷ cs) [] ≡ pieces cs (c ∷ [])
    pc = rw e refl

span-stop :
    (c : ℕ) (cs : List ℕ)
    → (c == slash) ≡ false
    → span_element (c ∷ cs) ≡ (c ∷ (span_element cs).0, (span_element cs).1)
unfolding span_element
span-stop c cs e = rw e refl

round-cons :
    (k c : ℕ) (cs : List ℕ)
    → (c == slash) ≡ false
    → round k (c ∷ cs)
      ≡ take dirsiz (c ∷ (span_element cs).0) ∷ names k (skip_slashes (span_element cs).1)
unfolding element_of
round-cons k c cs e =
    ap (λ (z : List ℕ × List ℕ). take dirsiz z.0 ∷ names k (skip_slashes z.1)) (span-stop c cs e)

round-nil : (k : ℕ) → round k [] ≡ []
unfolding element_of
round-nil k = refl

from_skipped :
    (k : ℕ) (p q : List ℕ)
    → ((r : List ℕ) → length r ≤ k → names k r ≡ map (take dirsiz) (pieces r []))
    → length p ≤ suc k
    → skip_slashes p ≡ q
    → round k q ≡ map (take dirsiz) (pieces q [])
from_skipped k p [] ih le e = round-nil k
from_skipped k p (c ∷ cs) ih le e =
    let s = no_slash p c cs e in
    let l1 = length-skip (span_element cs).1 in
    let l2 = length-span cs in
    let l3 = length-skip p in
    let l4 : length (skip_slashes p) ≡ suc (length cs) = ap length e in
    round-cons k c cs s
    ∙ ap (λ ws. take dirsiz (c ∷ (span_element cs).0) ∷ ws)
        (ih (skip_slashes (span_element cs).1) (omega arith))
    ∙ sym (ap (map (take dirsiz)) (first_piece c cs s))

-- The loop over a path sees, in order, the nonempty pieces of the path between slashes, each cut to 14
-- bytes; with as many rounds as the path has bytes it comes to the end.
pub names_lem : (k : ℕ) (p : List ℕ) → length p ≤ k → names k p ≡ map (take dirsiz) (pieces p [])
names_lem zero [] le = names-zero []
names_lem zero (c ∷ cs) le = absurd (omega arith)
names_lem (suc k) p le =
    names-round k p
    ∙ from_skipped k p (skip_slashes p) (names_lem k) le refl
    ∙ ap (map (take dirsiz)) (skip-pieces p)
