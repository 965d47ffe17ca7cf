-- ===== src/Pipe/Stream.antt =====
-- Readers and writers of one pipe, in any order of their calls.
use hyu_ele.Prelude.{
  ℕ, ◌+◌, ◌-◌, ◌≡◌, refl, sym, ap, ◌∙◌, arith, Bool, true, false, if◌then◌else◌, List, [], ◌∷◌,
  ◌++◌, length, length-append, take, drop, take-append-drop, Bool-cases, inl, inr, ◌&&◌, ◌||◌, ◌==◌,
  not,
}
use native.Mathlib.Decide.{dec_le}
use mathlib.Core.List.{append_assoc, append-nil}
use hyu_ele.Pipe.{
  Pipe, Written, wrote, refused, full, Read, got, was_killed, waits, pipe_write, pipe_read,
  pipe_close, pipe_init,
}
use hyu_ele.Pipe.Queue.{Holds, pipe_write-Holds, pipe_read-Holds, pipe_init-Holds}

-- The bytes that have been stored and read since the pipe was made.
pub record Trace : Type 0 where
  pub pipe : Pipe
  pub sent : List ℕ
  pub received : List ℕ

-- A call; a `pipewrite` that sleeps goes on later as a call with the bytes left.
pub data Call : Type 0 where
  write : (killed : Bool) (cs : List ℕ) → Call
  read : (killed : Bool) (n : ℕ) → Call
  close : (writable : Bool) → Call

-- The bytes that a call stored: all but those left.
abbrev stored : List ℕ → Written → List ℕ × Pipe
stored cs (wrote q) = (cs, q)
stored cs (refused back q) = (take (length cs - length back) cs, q)
stored cs (full back q) = (take (length cs - length back) cs, q)

abbrev fetched : Pipe → Read → List ℕ × Pipe
fetched p (got cs q) = (cs, q)
fetched p was_killed = ([], p)
fetched p waits = ([], p)

abbrev pub step : Call → Trace → Trace
step (write killed cs) t =
    let (bs, q) = stored cs (pipe_write killed cs t.pipe) in
    record t { pipe = q; sent = t.sent ++ bs }
step (read killed n) t =
    let (bs, q) = fetched t.pipe (pipe_read killed n t.pipe) in
    record t { pipe = q; received = t.received ++ bs }
step (close writable) t = record t { pipe = (pipe_close writable t.pipe).0 }

abbrev pub run : List Call → Trace → Trace
run [] t = t
run (c ∷ cs) t = run cs (step c t)

abbrev pub new_trace : Pipe → Trace
new_trace p = record { pipe = pipe_init p; sent = []; received = [] }

-- The stored bytes are the ones read and then the ones in the pipe.
abbrev pub InOrder : Trace → Type 0
InOrder t = (xs : List ℕ) × Holds t.pipe xs × (t.sent ≡ t.received ++ xs)

take-front :
    (front back : List ℕ) → take (length (front ++ back) - length back) (front ++ back) ≡ front
take-front front back =
    let n : length (front ++ back) - length back ≡ length front =
      omega (arith, length-append front back) in
    rw n (go front)
  where
    go : (xs : List ℕ) → take (length xs) (xs ++ back) ≡ xs
    go [] = refl
    go (x ∷ xs) = ap (λ ys. x ∷ ys) (go xs)

write-InOrder :
    (killed : Bool) (cs : List ℕ) (t : Trace) → InOrder t → InOrder (step (write killed cs) t)
write-InOrder killed cs t (xs, h, e) =
    let (fits, over) = pipe_write-Holds killed cs xs t.pipe h in
    elim (dec_le (length xs + length cs) 512) [
      | yes le ↦ let (q, a, b) = fits le in rw a (xs ++ cs, b, rw e (append_assoc t.received xs cs))
      | no gt ↦
          let o = over (omega arith) in
          let stores : stored cs (pipe_write killed cs t.pipe) ≡ (o.front, o.after) =
            rw o.answer
              (rw o.split (branch (not t.pipe.readopen || killed) o.front o.back o.after)) in
          rw stores (xs ++ o.front, o.holds, rw e (append_assoc t.received xs o.front))
    ]
  where
    branch :
        (b : Bool) (front back : List ℕ) (q : Pipe)
        → stored (front ++ back) (if b then refused back q else full back q) ≡ (front, q)
    branch true front back q = ap (λ ys. (ys, q)) (take-front front back)
    branch false front back q = ap (λ ys. (ys, q)) (take-front front back)

read-InOrder : (killed : Bool) (n : ℕ) (t : Trace) → InOrder t → InOrder (step (read killed n) t)
read-InOrder killed n t (xs, h, e) =
    let (sleeps, gets) = pipe_read-Holds killed n xs t.pipe h in
    elim (Bool-cases (length xs == 0 && t.pipe.writeopen)) [
      | inl b ↦
          let f : fetched t.pipe (pipe_read killed n t.pipe) ≡ ([], t.pipe) =
            rw (sleeps b) (nothing killed t.pipe) in
          rw f (xs, h, e ∙ ap (λ ys. ys ++ xs) (sym (append-nil t.received)))
      | inr b ↦
          let (q, a, k) = gets b in
          rw a (
            drop n xs,
            k,
            e
                ∙ ap (λ ys. t.received ++ ys) (sym (take-append-drop n xs))
                ∙ sym (append_assoc t.received (take n xs) (drop n xs)),
          )
    ]
  where
    nothing : (b : Bool) (p : Pipe) → fetched p (if b then was_killed else waits) ≡ ([], p)
    nothing true p = refl
    nothing false p = refl

close-InOrder : (writable : Bool) (t : Trace) → InOrder t → InOrder (step (close writable) t)
unfolding pipe_close
close-InOrder true t (xs, h, e) =
    (xs, record { bytes = h.bytes; read_bound = h.read_bound; count = h.count; room = h.room }, e)
close-InOrder false t (xs, h, e) =
    (xs, record { bytes = h.bytes; read_bound = h.read_bound; count = h.count; room = h.room }, e)

step-InOrder : (c : Call) (t : Trace) → InOrder t → InOrder (step c t)
step-InOrder (write killed cs) t h = write-InOrder killed cs t h
step-InOrder (read killed n) t h = read-InOrder killed n t h
step-InOrder (close writable) t h = close-InOrder writable t h

run-all : (cs : List Call) (t : Trace) → InOrder t → InOrder (run cs t)
run-all [] t h = h
run-all (c ∷ cs) t h = run-all cs (step c t) (step-InOrder c t h)

-- In any sequence of calls on a new pipe, whatever its counters run through, the bytes that the
-- readers get are those that the writers stored, in the same order, none lost and none twice; at most
-- the 512 in the pipe are still to be read.
pub run-InOrder : (cs : List Call) (p : Pipe) → InOrder (run cs (new_trace p))
run-InOrder cs p = run-all cs (new_trace p) ([], pipe_init-Holds p, refl)
