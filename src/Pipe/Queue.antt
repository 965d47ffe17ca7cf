-- ===== src/Pipe/Queue.antt =====
-- A pipe is a queue of at most 512 bytes, whatever its counters are.
use hyu_ele.Prelude.{
  ℕ, zero, suc, ◌+◌, ◌%◌, ◌≡◌, ◌≢◌, ◌≤◌, ◌<◌, inl, inr, refl, sym, subst, ◌∙◌, arith, Bool, true,
  false, not, ◌||◌, ◌&&◌, ◌==◌, if◌then◌else◌, List, [], ◌∷◌, ◌++◌, length, length-append,
  Bool-cases, take, drop,
}
use mathlib.Core.List.{append_assoc, append-nil}
use hyu_ele.Prelude.Maps.{update}
use hyu_ele.Pipe.{
  Pipe, wrote, refused, full, put, is_full, pipe_write, copy_out, pipe_read, got, was_killed, waits,
  pipe_init,
}

-- The cells from the counter `k` on hold these bytes.
abbrev pub Bytes : (ℕ → ℕ) → ℕ → List ℕ → Type 0
Bytes d k [] = Unit {0}
Bytes d k (x ∷ xs) = (d (k % 512) ≡ x) × Bytes d (k + 1) xs

Bytes-shift : (d : ℕ → ℕ) (j k : ℕ) (xs : List ℕ) → j % 512 ≡ k % 512 → Bytes d j xs → Bytes d k xs
Bytes-shift d j k [] e b = tt
Bytes-shift d j k (x ∷ xs) e (h, b) =
    (rw (sym e) h, Bytes-shift d (j + 1) (k + 1) xs (omega arith) b)

update-other : (d : ℕ → ℕ) (k c j : ℕ) → j ≢ k → update d k c j ≡ d j
update-other d k c j ne = ground arith

update_self : (d : ℕ → ℕ) (k c : ℕ) → update d k c k ≡ c
update_self d k c = ground arith

Bytes-put :
    (d : ℕ → ℕ) (k c : ℕ) (xs : List ℕ) (m : ℕ)
    → m ≡ (k + length xs) % 512
    → length xs < 512
    → Bytes d k xs
    → Bytes (update d m c) k (xs ++ (c ∷ []))
Bytes-put d k c [] m e lt b =
    (subst (λ j. update d m c j ≡ c) (e ∙ omega arith) (update_self d m c), tt)
Bytes-put d k c (x ∷ xs) m e lt (h, b) = (
  update-other d m c (k % 512) (λ z. omega arith) ∙ h,
  Bytes-put d (k + 1) c xs m (e ∙ omega arith) (omega arith) b,
)

-- The pipe holds the bytes `xs`, the next one to read first.
pub record Holds (p : Pipe) (xs : List ℕ) : Type 0 where
  pub bytes : Bytes p.data_at p.nread xs
  pub read_bound : p.nread < 4294967296
  pub count : p.nwrite ≡ (p.nread + length xs) % 4294967296
  pub room : length xs ≤ 512

-- A pipe that was just made is empty.
pub pipe_init-Holds : (p : Pipe) → Holds (pipe_init p) []
unfolding pipe_init
pipe_init-Holds p = record {
  bytes = tt;
  read_bound = omega arith;
  count = refl;
  room = omega arith;
}

put-Holds :
    (p : Pipe) (xs : List ℕ) (c : ℕ)
    → length xs < 512
    → Holds p xs
    → Holds (put c p) (xs ++ (c ∷ []))
unfolding put
put-Holds p xs c lt h =
    let l = length-append xs (c ∷ []) in
    let n = h.count in
    record {
      bytes = Bytes-put p.data_at p.nread c xs (p.nwrite % 512) (omega arith) lt h.bytes;
      read_bound = h.read_bound;
      count = omega arith;
      room = omega arith;
    }

full_lem : (p : Pipe) (xs : List ℕ) → Holds p xs → is_full p ≡ (length xs == 512)
full_lem p xs h = let n = h.count in let b = h.read_bound in let r = h.room in ground arith

empty_lem : (p : Pipe) (xs : List ℕ) → Holds p xs → (p.nread == p.nwrite) ≡ (length xs == 0)
empty_lem p xs h = let n = h.count in let b = h.read_bound in let r = h.room in ground arith

-- What a call of `pipewrite` on a pipe with the bytes `xs` leaves.
pub record Full (killed : Bool) (xs cs : List ℕ) (p : Pipe) : Type 0 where
  pub front : List ℕ
  pub back : List ℕ
  pub after : Pipe
  pub split : cs ≡ front ++ back
  pub filled : length xs + length front ≡ 512
  pub holds : Holds after (xs ++ front)
  pub answer :
      pipe_write killed cs p
      ≡ (if not p.readopen || killed then refused back after else full back after)

put-ends :
    (p : Pipe) (c : ℕ) → ((put c p).readopen ≡ p.readopen) × ((put c p).writeopen ≡ p.writeopen)
unfolding put
put-ends p c = (refl, refl)

-- `pipewrite` on a pipe with the bytes `xs`: if all fit it appends them and returns n; else it appends
-- those that fit, so that the pipe is full, and returns -1 if the process was killed or no reader is
-- left, and sleeps otherwise.
pub pipe_write-Holds :
    (killed : Bool) (cs xs : List ℕ) (p : Pipe)
    → Holds p xs
    → (length xs + length cs ≤ 512
        → (q : Pipe) × (pipe_write killed cs p ≡ wrote q) × Holds q (xs ++ cs))
      × (512 < length xs + length cs → Full killed xs cs p)
unfolding pipe_write
pipe_write-Holds killed [] xs p h = (
  λ le. (p, refl, subst (λ ys. Holds p ys) (sym (append-nil xs)) h),
  λ gt. let r = h.room in absurd (omega arith),
)
pipe_write-Holds killed (c ∷ cs) xs p h = elim (Bool-cases (length xs == 512)) [
  | inl e ↦
      let f : is_full p ≡ true = full_lem p xs h ∙ e in
      (
        λ le. absurd (ground arith),
        λ gt. record {
          front = [];
          back = c ∷ cs;
          after = p;
          split = refl;
          filled = ground arith;
          holds = subst (λ ys. Holds p ys) (sym (append-nil xs)) h;
          answer = rw f refl;
        },
      )
  | inr e ↦
      let f : is_full p ≡ false = full_lem p xs h ∙ e in
      let r = h.room in
      let l = length-append xs (c ∷ []) in
      let (fits, over) =
        pipe_write-Holds killed cs (xs ++ (c ∷ [])) (put c p) (put-Holds p xs c (ground arith) h) in
      (
        λ le.
            let (q, a, b) = fits (omega arith) in
            (q, rw f a, subst (λ ys. Holds q ys) (append_assoc xs (c ∷ []) cs) b),
        λ gt.
            let o = over (omega arith) in
            record {
              front = c ∷ o.front;
              back = o.back;
              after = o.after;
              split = rw o.split refl;
              filled = let z = o.filled in omega arith;
              holds = subst (λ ys. Holds o.after ys) (append_assoc xs (c ∷ []) o.front) o.holds;
              answer = rw f (o.answer ∙ (rw (put-ends p c).0 refl));
            },
      )
]

skip-Holds :
    (p : Pipe) (x : ℕ) (xs : List ℕ)
    → Holds p (x ∷ xs)
    → Holds (record p { nread = (p.nread + 1) % 4294967296 }) xs
skip-Holds p x xs h =
    let n = h.count in
    let r = h.room in
    record {
      bytes = Bytes-shift p.data_at (p.nread + 1) _ xs (omega arith) h.bytes.1;
      read_bound = omega arith;
      count = omega arith;
      room = omega arith;
    }

-- The copy loop of `piperead` takes the next `n` bytes off the queue, or all if there are fewer.
pub copy_out-Holds :
    (n : ℕ) (xs : List ℕ) (p : Pipe)
    → Holds p xs
    → ((copy_out n p).0 ≡ take n xs) × Holds (copy_out n p).1 (drop n xs)
unfolding copy_out
copy_out-Holds zero xs p h = (refl, h)
copy_out-Holds (suc n) [] p h = rw (empty_lem p [] h) (refl, h)
copy_out-Holds (suc n) (x ∷ xs) p h =
    let (a, b) =
      copy_out-Holds n xs (record p { nread = (p.nread + 1) % 4294967296 }) (skip-Holds p x xs h) in
    let f : (p.nread == p.nwrite) ≡ false = empty_lem p (x ∷ xs) h ∙ ground arith in
    rw f ((rw (h.bytes.0, a) refl), b)

-- `piperead` on a pipe with the bytes `xs`: on an empty pipe with a writer it returns -1 if the process
-- was killed and sleeps otherwise; in all other cases it returns the next `n` bytes, or all there are.
pub pipe_read-Holds :
    (killed : Bool) (n : ℕ) (xs : List ℕ) (p : Pipe)
    → Holds p xs
    → ((length xs == 0 && p.writeopen) ≡ true
        → pipe_read killed n p ≡ (if killed then was_killed else waits))
      × ((length xs == 0 && p.writeopen) ≡ false
          → (q : Pipe) × (pipe_read killed n p ≡ got (take n xs) q) × Holds q (drop n xs))
unfolding pipe_read
pipe_read-Holds killed n xs p h =
    let (a, b) = copy_out-Holds n xs p h in
    (
      λ e. rw (empty_lem p xs h) (rw e refl),
      λ e. ((copy_out n p).1, rw (empty_lem p xs h) (rw (e, a) refl), b),
    )
