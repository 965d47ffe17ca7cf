-- ===== src/Log/Reserve.antt =====
-- The reservation that `begin_op` makes: the log does not overflow, however operations interleave.
use hyu_ele.Prelude.{
  ℕ, zero, suc, ◌+◌, ◌-◌, ◌*◌, ◌≡◌, refl, ◌≤◌, ◌<◌, arith, ◌∙◌, ap, none, some, false, List, [],
  ◌∷◌, ◌++◌, length, length-append, Bool-cases, inl, inr, ltb, leb, ◌⊎◌,
}
use hyu_ele.Log.{
  Log, State, waiting, committed, log_size, max_op_blocks, bwrite, copy_block, write_log_from,
  write_log, install_from, install_trans, write_head, commit, begin_op, end_op, log_write,
  sync_wait, sync,
}
use hyu_ele.Log.Write.{log_write_grows, log_write_runs, log_write_full}

-- The log, and for each running operation how many blocks it may still add to it.
pub record Running : Type 0 where
  pub state : State
  pub credits : List ℕ

abbrev pub with_log : Log → State → State
with_log l s = record s { log = l }

-- Operations begin, write within their credit, and end; between them a commit may run. A `log_write`
-- that adds a block to the log costs one credit, and one of a block that is logged already is free.
pub data Step : Running → Running → Type 0 where
  begins :
      (s : State) (cs : List ℕ) (l : Log)
      → begin_op s.log ≡ some l
      → Step
          (record { state = s; credits = cs })
          (record { state = with_log l s; credits = max_op_blocks ∷ cs })
  writes :
      (s r : State) (front back : List ℕ) (c b : ℕ)
      → log_write b s ≡ some r
      → r.log.lh.n ≡ s.log.lh.n + 1
      → Step
          (record { state = s; credits = front ++ (suc c ∷ back) })
          (record { state = r; credits = front ++ (c ∷ back) })
  absorbs :
      (s r : State) (front back : List ℕ) (c b : ℕ)
      → log_write b s ≡ some r
      → r.log.lh.n ≡ s.log.lh.n
      → Step
          (record { state = s; credits = front ++ (c ∷ back) })
          (record { state = r; credits = front ++ (c ∷ back) })
  ends :
      (s : State) (front back : List ℕ) (c : ℕ)
      → Step
          (record { state = s; credits = front ++ (c ∷ back) })
          (record { state = with_log (end_op s.log).1 s; credits = front ++ back })
  waits :
      (s r : State) (cs : List ℕ)
      → sync s ≡ waiting r
      → Step (record { state = s; credits = cs }) (record { state = r; credits = cs })
  commits :
      (s r : State) (cs : List ℕ)
      → sync_wait s ≡ committed r
      → Step (record { state = s; credits = cs }) (record { state = r; credits = cs })

pub data Reach (a : Running) : Running → Type 0 where
  here : Reach a a
  next : {b c : Running} → Reach a b → Step b c → Reach a c

abbrev pub sum : List ℕ → ℕ
sum [] = 0
sum (c ∷ cs) = c + sum cs

-- No operation has more credit than it began with.
abbrev pub Capped : List ℕ → Type 0
Capped [] = Unit {0}
Capped (c ∷ cs) = (c ≤ max_op_blocks) × Capped cs

-- The credits fit into the log together with what is logged.
pub record Reserved (a : Running) : Type 0 where
  pub counted : a.state.log.outstanding ≡ length a.credits
  pub fits : a.state.log.lh.n + sum a.credits ≤ log_size
  pub each : Capped a.credits

sum-append : (front back : List ℕ) → sum (front ++ back) ≡ sum front + sum back
sum-append [] back = omega arith
sum-append (a ∷ front) back = omega (arith, sum-append front back)

sum-le : (cs : List ℕ) → Capped cs → sum cs ≤ max_op_blocks * length cs
sum-le [] h = omega arith
sum-le (c ∷ cs) h = omega (arith, sum-le cs h.1)

-- An operation spends credit, or ends.
Capped-spend :
    (front : List ℕ) (c d : ℕ) (back : List ℕ)
    → d ≤ c
    → Capped (front ++ (c ∷ back))
    → Capped (front ++ (d ∷ back))
Capped-spend [] c d back le h = (omega arith, h.1)
Capped-spend (f ∷ front) c d back le h = (h.0, Capped-spend front c d back le h.1)

Capped-end :
    (front : List ℕ) (c : ℕ) (back : List ℕ) → Capped (front ++ (c ∷ back)) → Capped (front ++ back)
Capped-end [] c back h = h.1
Capped-end (f ∷ front) c back h = (h.0, Capped-end front c back h.1)

-- Committing empties the log and leaves the count of operations.
write_log-log : (k t : ℕ) (s : State) → (write_log_from k t s).log ≡ s.log
unfolding write_log_from copy_block bwrite
write_log-log zero t s = refl
write_log-log (suc k) t s =
    write_log-log k (suc t) (copy_block (s.log.start + t + 1) (s.log.lh.block t) s)

install-log : (k t : ℕ) (s : State) → (install_from k t s).log ≡ s.log
unfolding install_from copy_block bwrite
install-log zero t s = refl
install-log (suc k) t s =
    install-log k (suc t) (copy_block (s.log.lh.block t) (s.log.start + t + 1) s)

pub commit-log :
    (s : State) → ((commit s).log.lh.n ≡ 0) × ((commit s).log.outstanding ≡ s.log.outstanding)
unfolding commit write_head bwrite install_trans write_log
commit-log s = elim (Bool-cases (ltb 0 s.log.lh.n)) [
  | inl some_logged ↦ rw some_logged (
    refl,
    let w = write_log-log s.log.lh.n 0 s in
        ap (λ (l : Log). l.outstanding) (install-log _ 0 (write_head (write_log s)) ∙ w),
  )
  | inr nothing ↦ rw nothing (ground arith, refl)
]

-- `end_op` takes the operation off the count and leaves the header.
end_op_lem :
    (l : Log) → ((end_op l).1.outstanding ≡ l.outstanding - 1) × ((end_op l).1.lh.n ≡ l.lh.n)
unfolding end_op
end_op_lem l = (refl, refl)

begin_op_lem :
    (l l' : Log)
    → begin_op l ≡ some l'
    → (l'.outstanding ≡ l.outstanding + 1)
      × (l'.lh.n ≡ l.lh.n)
      × (l.lh.n + (l.outstanding + 1) * max_op_blocks ≤ log_size)
      × (l.committing ≡ false)
unfolding begin_op
begin_op_lem l l' e = ground arith

waiting_lem :
    (s r : State)
    → sync s ≡ waiting r
    → (r.log.outstanding ≡ s.log.outstanding) × (r.log.lh.n ≡ s.log.lh.n)
unfolding sync sync_wait
waiting_lem s r e = ground arith

committed_lem :
    (s r : State)
    → sync_wait s ≡ committed r
    → (r.log.outstanding ≡ 0) × (r.log.lh.n ≡ 0) × (s.log.outstanding ≡ 0)
unfolding sync_wait
committed_lem s r e = ground (arith, commit-log s)

Step-Reserved : {a b : Running} → Step a b → Reserved a → Reserved b
Step-Reserved (begins s cs l e) v =
    let (o, n, room, _) = begin_op_lem s.log l e in
    record {
      counted = omega (arith, v.counted);
      fits = omega (arith, v.counted, sum-le cs v.each);
      each = (omega arith, v.each);
    }
Step-Reserved (absorbs s r front back c b e n) v =
    let (grows, o) = log_write_grows s b r e in
    record { counted = o ∙ v.counted; fits = omega (arith, v.fits); each = v.each }
Step-Reserved (writes s r front back c b e n) v =
    let (grows, o) = log_write_grows s b r e in
    let l1 = sum-append front (suc c ∷ back) in
    let l2 = sum-append front (c ∷ back) in
    let m1 = length-append front (suc c ∷ back) in
    let m2 = length-append front (c ∷ back) in
    record {
      counted = omega (arith, v.counted);
      fits = omega (arith, v.fits);
      each = Capped-spend front (suc c) c back (omega arith) v.each;
    }
Step-Reserved (ends s front back c) v =
    let (o, n) = end_op_lem s.log in
    let l1 = sum-append front (c ∷ back) in
    let l2 = sum-append front back in
    let m1 = length-append front (c ∷ back) in
    let m2 = length-append front back in
    record {
      counted = omega (arith, v.counted);
      fits = omega (arith, v.fits);
      each = Capped-end front c back v.each;
    }
Step-Reserved (waits s r cs e) v =
    let (o, n) = waiting_lem s r e in
    record { counted = omega (arith, v.counted); fits = omega (arith, v.fits); each = v.each }
Step-Reserved (commits s r cs e) v =
    let (o, n, z) = committed_lem s r e in
    record {
      counted = omega (arith, v.counted);
      fits = omega (arith, v.counted, sum-le cs v.each);
      each = v.each;
    }

-- When the logged blocks and the open credits together are within `LOGSIZE`, as in an empty log, every
-- interleaving of `begin_op`, `log_write`, `end_op`, `sync` and commits keeps them so, and `outstanding`
-- counts the running operations. An operation may add 20 blocks to the log; writing a block that is
-- logged already costs it nothing.
pub Reach-Reserved : {a b : Running} → Reserved a → Reach a b → Reserved b
Reach-Reserved v here = v
Reach-Reserved v (next r st) = Step-Reserved st (Reach-Reserved v r)

-- With the log area that mkfs makes, of `LOGSIZE` blocks, a `log_write` of any block by a running
-- operation does not panic, whatever interleaving came before, as long as the running operations may
-- together still add two blocks to the log; the call panics only if they may add at most one more and
-- 59 blocks or more are logged.
pub log_write-safe :
    {a : Running} (s : State) (front back : List ℕ) (c b : ℕ)
    → Reserved a
    → Reach a (record { state = s; credits = front ++ (c ∷ back) })
    → s.log.size ≡ log_size
    → ((r : State) × (log_write b s ≡ some r))
      ⊎ ((sum (front ++ (c ∷ back)) ≤ 1) × (log_size ≤ s.log.lh.n + 1) × (log_write b s ≡ none))
log_write-safe s front back c b v path size =
    let u = Reach-Reserved v path in
    let m = length-append front (c ∷ back) in
    elim (Bool-cases (leb 59 s.log.lh.n)) [
      | inl full ↦
          let le : 59 ≤ s.log.lh.n = ground arith in
          inr (omega (arith, u.fits), omega arith, log_write_full s b (omega arith))
      | inr room ↦
          let lt : s.log.lh.n < 59 = ground arith in
          inl (log_write_runs s b (omega arith) (omega arith) (omega (arith, u.counted)))
    ]
