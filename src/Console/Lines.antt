-- ===== src/Console/Lines.antt =====
-- The input buffer is a list of characters that are ready and a line that is being edited.
use hyu_ele.Prelude.{
  ℕ, zero, suc, ◌+◌, ◌-◌, ◌%◌, ◌≡◌, ◌≢◌, ◌≤◌, ◌<◌, ◌⊎◌, inl, inr, refl, sym, ap, subst, ◌∙◌, arith,
  Bool, true, false, not, ◌&&◌, ◌||◌, ◌==◌, ltb, if◌then◌else◌, Bool-cases, List, [], ◌∷◌, ◌++◌,
  length, length-append,
}
use mathlib.Core.List.{append_assoc, append-nil}
use hyu_ele.Prelude.Maps.{has, has-append, update}
use hyu_ele.Console.{
  input_buf, word_size, ctrl_p, ctrl_u, ctrl_h, ctrl_d, Input, before, kill_line, store_char,
  console_key,
}

-- The cells from the counter `k` on hold these characters.
abbrev pub Chars : (ℕ → ℕ) → ℕ → List ℕ → Type 0
Chars d k [] = Unit {0}
Chars d k (x ∷ xs) = (d (k % 128) ≡ x) × Chars d (k + 1) xs

pub Chars-shift :
    (d : ℕ → ℕ) (j k : ℕ) (xs : List ℕ) → j % 128 ≡ k % 128 → Chars d j xs → Chars d k xs
Chars-shift d j k [] e b = tt
Chars-shift d j k (x ∷ xs) e (h, b) =
    (rw (sym e) h, Chars-shift d (j + 1) (k + 1) xs (omega arith) b)

Chars-put :
    (d : ℕ → ℕ) (k c : ℕ) (xs : List ℕ) (m : ℕ)
    → m ≡ (k + length xs) % 128
    → length xs < 128
    → Chars d k xs
    → Chars (update d m c) k (xs ++ (c ∷ []))
Chars-put d k c [] m e lt b = (let q : k % 128 ≡ m = omega arith in ground arith, tt)
Chars-put d k c (x ∷ xs) m e lt (h, b) = (
  let q : k % 128 ≢ m = λ z. omega arith in ground arith,
  Chars-put d (k + 1) c xs m (omega arith) (omega arith) b,
)

Chars-front : (d : ℕ → ℕ) (k : ℕ) (xs ys : List ℕ) → Chars d k (xs ++ ys) → Chars d k xs
Chars-front d k [] ys b = tt
Chars-front d k (x ∷ xs) ys (h, b) = (h, Chars-front d (k + 1) xs ys b)

Chars-last :
    (d : ℕ → ℕ) (k : ℕ) (xs : List ℕ) (x : ℕ)
    → Chars d k (xs ++ (x ∷ []))
    → d ((k + length xs) % 128) ≡ x
Chars-last d k [] x (h, b) = ap d (let q : (k + 0) % 128 ≡ k % 128 = omega arith in q) ∙ h
Chars-last d k (y ∷ xs) x (h, b) =
    ap d (let q : (k + length (y ∷ xs)) % 128 ≡ (k + 1 + length xs) % 128 = omega arith in q)
    ∙ Chars-last d (k + 1) xs x b

-- The characters `rs` are ready, and `ps` is being edited.
pub record Holds (i : Input) (rs ps : List ℕ) : Type 0 where
  pub chars : Chars i.buf i.r (rs ++ ps)
  pub read_bound : i.r < 4294967296
  pub ready : i.w ≡ (i.r + length rs) % 4294967296
  pub edited : i.e ≡ (i.r + length rs + length ps) % 4294967296
  pub room : length rs + length ps ≤ 128
  pub one_line : has b'\n' ps ≡ false

abbrev pub drop_last : List ℕ → List ℕ
drop_last [] = []
drop_last (x ∷ []) = []
drop_last (x ∷ y ∷ ys) = x ∷ drop_last (y ∷ ys)

-- What a key does to the two lists.
abbrev pub ends_line : ℕ → List ℕ → List ℕ → Bool
ends_line c rs ps = c == b'\n' || c == ctrl_d || length rs + length ps + 1 == input_buf

abbrev pub typed : ℕ → List ℕ → List ℕ → List ℕ × List ℕ
typed c rs ps = if ends_line c rs ps then (rs ++ (ps ++ (c ∷ [])), []) else (rs, ps ++ (c ∷ []))

abbrev pub keyed : ℕ → List ℕ → List ℕ → List ℕ × List ℕ
keyed c rs ps =
    if c == ctrl_p
    then (rs, ps)
    else if c == ctrl_u
    then (rs, [])
    else if c == ctrl_h || c == 127
    then (rs, drop_last ps)
    else if not (c == 0) && ltb (length rs + length ps) input_buf
    then typed (if c == b'\r' then b'\n' else c) rs ps
    else (rs, ps)

snoc_view : (ps : List ℕ) → (ps ≡ []) ⊎ ((x : ℕ) × (ps ≡ drop_last ps ++ (x ∷ [])))
snoc_view [] = inl refl
snoc_view (x ∷ []) = inr (x, refl)
snoc_view (x ∷ y ∷ ys) = elim (snoc_view (y ∷ ys)) [
  | inl e ↦ absurd (ground arith)
  | inr (z, e) ↦ inr (z, ap (λ l. x ∷ l) e)
]

-- A character is taken off the line.
unput :
    (i : Input) (rs qs : List ℕ) (x : ℕ)
    → Holds i rs (qs ++ (x ∷ []))
    → Holds (record i { e = before i.e }) rs qs
      × ((i.e == i.w) ≡ false)
      × ((i.buf (before i.e % input_buf) == b'\n') ≡ false)
unput i rs qs x h =
    let l = length-append qs (x ∷ []) in
    let ra = h.ready in
    let ed = h.edited in
    let rb = h.read_bound in
    let ro = h.room in
    let ol = h.one_line in
    let all : Chars i.buf i.r ((rs ++ qs) ++ (x ∷ [])) = rw (append_assoc rs qs (x ∷ [])) h.chars in
    let ll = length-append rs qs in
    let at : i.buf (before i.e % input_buf) ≡ x =
      ap i.buf (let q : before i.e % input_buf ≡ (i.r + length (rs ++ qs)) % 128 = omega arith in q)
      ∙ Chars-last i.buf i.r (rs ++ qs) x all in
    let plain : has b'\n' qs || has b'\n' (x ∷ []) ≡ false =
      sym (has-append b'\n' qs (x ∷ [])) ∙ ol in
    (
      record {
        chars = Chars-front i.buf i.r (rs ++ qs) (x ∷ []) all;
        read_bound = rb;
        ready = ra;
        edited = omega arith;
        room = omega arith;
        one_line = ground arith;
      },
      let n : i.e ≢ i.w = λ z. omega arith in ground arith,
      ap (λ z. z == b'\n') at ∙ ground arith,
    )

kill_line-Holds :
    (k : ℕ) (i : Input) (rs ps : List ℕ)
    → length ps ≤ k
    → Holds i rs ps
    → Holds (kill_line k i) rs []
unfolding kill_line
kill_line-Holds zero i rs [] le h = h
kill_line-Holds zero i rs (p ∷ ps) le h = absurd (omega arith)
kill_line-Holds (suc k) i rs ps le h = elim (snoc_view ps) [
  | inl e ↦
      let h0 : Holds i rs [] = subst (Holds i rs) e h in
      let ra = h0.ready in
      let ed = h0.edited in
      let same : i.e ≡ i.w = omega arith in
      let t : (i.e == i.w) ≡ true = ground arith in rw (t, kill_line) h0
  | inr (x, e) ↦
      let (h1, t, u) = unput i rs (drop_last ps) x (subst (Holds i rs) e h) in
      let l = length-append (drop_last ps) (x ∷ []) in
      let le1 : length (drop_last ps) ≤ k = let q = ap length e in omega arith in
      rw (t, u, kill_line)
        (kill_line-Holds k (record i { e = before i.e }) rs (drop_last ps) le1 h1)
]

-- A character is put at the end of the line.
module _ (c : ℕ) (i : Input) (rs ps : List ℕ) (h : Holds i rs ps)
    (lt : length rs + length ps < 128) where
  abbrev put : Input
  put = record i { buf = update i.buf (i.e % input_buf) c; e = (i.e + 1) % word_size }

  put-Chars : Chars put.buf i.r (rs ++ (ps ++ (c ∷ [])))
  put-Chars =
      let ed = h.edited in
      let l = length-append rs ps in
      rw (sym (append_assoc rs ps (c ∷ [])))
        (Chars-put i.buf i.r c (rs ++ ps) (i.e % input_buf) (omega arith) (omega arith) h.chars)

  put_edited : put.e ≡ (i.r + length rs + length (ps ++ (c ∷ []))) % 4294967296
  put_edited = let ed = h.edited in let l = length-append ps (c ∷ []) in omega arith

  open_line : (c == b'\n') ≡ false → Holds put rs (ps ++ (c ∷ []))
  open_line n =
      let l = length-append ps (c ∷ []) in
      let ol = h.one_line in
      record {
        chars = put-Chars;
        read_bound = h.read_bound;
        ready = h.ready;
        edited = put_edited;
        room = omega arith;
        one_line = has-append b'\n' ps (c ∷ []) ∙ ground arith;
      }

  ended_line : Holds (record put { w = put.e }) (rs ++ (ps ++ (c ∷ []))) []
  ended_line =
      let l = length-append ps (c ∷ []) in
      let l2 = length-append rs (ps ++ (c ∷ [])) in
      let pe = put_edited in
      record {
        chars = rw (append-nil (rs ++ (ps ++ (c ∷ [])))) put-Chars;
        read_bound = h.read_bound;
        ready = omega arith;
        edited = omega arith;
        room = omega arith;
        one_line = refl;
      }

  is_full : (put.e == (i.r + input_buf) % word_size) ≡ (length rs + length ps + 1 == input_buf)
  is_full =
      let pe = put_edited in
      let l = length-append ps (c ∷ []) in
      let b = h.read_bound in
      elim (Bool-cases (length rs + length ps + 1 == input_buf)) [
        | inl e ↦
            let q : put.e ≡ (i.r + 128) % 4294967296 =
              let w : length rs + length ps + 1 ≡ 128 = ground arith in omega arith in
            rw e (ground arith)
        | inr e ↦
            let q : put.e ≢ (i.r + 128) % 4294967296 =
              λ z. (let w : length rs + length ps + 1 ≢ 128 = λ y. ground arith in omega arith) in
            rw e (ground arith)
      ]

  store_char-Holds : Holds (store_char c i) (typed c rs ps).0 (typed c rs ps).1
  unfolding store_char
  store_char-Holds = elim (Bool-cases (ends_line c rs ps)) [
    | inl e ↦
        let t : (c == b'\n' || c == ctrl_d || put.e == (i.r + input_buf) % word_size) ≡ true =
          ap (λ b. c == b'\n' || c == ctrl_d || b) is_full ∙ e in
        rw (e, t, store_char) ended_line
    | inr e ↦
        let t : (c == b'\n' || c == ctrl_d || put.e == (i.r + input_buf) % word_size) ≡ false =
          ap (λ b. c == b'\n' || c == ctrl_d || b) is_full ∙ e in
        rw (e, t, store_char) (open_line (ground arith))
  ]

backspace-Holds :
    (i : Input) (rs ps : List ℕ)
    → Holds i rs ps
    → Holds (if i.e == i.w then i else record i { e = before i.e }) rs (drop_last ps)
backspace-Holds i rs ps h = elim (snoc_view ps) [
  | inl e ↦
      let h0 : Holds i rs [] = subst (Holds i rs) e h in
      let ra = h0.ready in
      let ed = h0.edited in
      let same : i.e ≡ i.w = omega arith in
      let t : (i.e == i.w) ≡ true = ground arith in rw (t, e) h0
  | inr (x, e) ↦ let (h1, t, u) = unput i rs (drop_last ps) x (subst (Holds i rs) e h) in rw t h1
]

used_lem :
    (i : Input) (rs ps : List ℕ)
    → Holds i rs ps
    → (i.e + word_size - i.r) % word_size ≡ length rs + length ps
used_lem i rs ps h = let ed = h.edited in let b = h.read_bound in let r = h.room in omega arith

Holds-if :
    (b c : Bool) (i j : Input) (x y : List ℕ × List ℕ)
    → b ≡ c
    → (c ≡ true → Holds i x.0 x.1)
    → (c ≡ false → Holds j y.0 y.1)
    → Holds (if b then i else j) (if c then x else y).0 (if c then x else y).1
Holds-if b true i j x y e p q = rw e (p refl)
Holds-if b false i j x y e p q = rw e (q refl)

-- A key on a console with ready characters and a line that is being edited: control-P changes nothing,
-- control-U takes the whole line away, backspace its last character; any other character but 0 is put at
-- its end while the buffer has room, and makes the line ready if it is a newline, control-D, or the last
-- one that fits.
pub console_key-Holds :
    (c : ℕ) (i : Input) (rs ps : List ℕ)
    → Holds i rs ps
    → Holds (console_key c i) (keyed c rs ps).0 (keyed c rs ps).1
unfolding console_key
console_key-Holds c i rs ps h =
    Holds-if (c == ctrl_p) (c == ctrl_p) i _ (rs, ps) _ refl (λ e. h)
      (λ e.
        Holds-if (c == ctrl_u) (c == ctrl_u) (kill_line input_buf i) _ (rs, []) _ refl
          (λ e. let r = h.room in kill_line-Holds input_buf i rs ps (omega arith) h)
          (λ e.
            Holds-if (c == ctrl_h || c == 127) (c == ctrl_h || c == 127)
              (if i.e == i.w then i else record i { e = before i.e }) _ (rs, drop_last ps) _ refl
              (λ e. backspace-Holds i rs ps h)
              (λ e.
                Holds-if (not (c == 0) && ltb ((i.e + word_size - i.r) % word_size) input_buf)
                  (not (c == 0) && ltb (length rs + length ps) input_buf) (store_char d i) i
                  (typed d rs ps) (rs, ps)
                  (ap (λ n. not (c == 0) && ltb n input_buf) (used_lem i rs ps h))
                  (λ q. store_char-Holds d i rs ps h (ground arith)) (λ q. h))))
  where
    d : ℕ
    d = if c == b'\r' then b'\n' else c
