-- ===== src/Log/Recover.antt =====
-- `recover_from_log`: one run of it, with a budget of disk writes.
use hyu_ele.Prelude.{ℕ, suc, ◌+◌, ◌≡◌, ◌≤◌, ◌<◌, arith, ◌∙◌, sym, ap}
use native.Mathlib.Decide.{dec_lt}
use hyu_ele.Log.{Block, State, read_head, recover_from_log}
use hyu_ele.Log.Loops.{IsValid}
use hyu_ele.Log.Finish.{
  Clean, Committed, Geometry, take_blocks-lt, Committed-rename, Committed-empty, Clean-empty,
  finish-Clean, finish-Committed,
}

module _ (s : State) (coherent : (a : ℕ) → s.cache a ≡ s.disk a) where
  abbrev header : State
  header = read_head s

  header-n : header.log.lh.n ≡ s.disk s.log.start 0
  unfolding read_head
  header-n = ap (λ (b : Block). b 0) (coherent s.log.start)

  header-block :
      (i : ℕ) → i < s.disk s.log.start 0 → header.log.lh.block i ≡ s.disk s.log.start (suc i)
  unfolding read_head
  header-block i h =
      let w = s.cache s.log.start in
      take_blocks-lt (w 0) w s.log.lh.block i (rw (coherent s.log.start) h)
      ∙ ap (λ (b : Block). b (suc i)) (coherent s.log.start)

  module _ (x : ℕ → Block) (n : ℕ) (block : ℕ → ℕ) (g : Geometry s.log.start s.log.size n block)
      (c : Committed s.log.start s.log.size n block x s.disk) where
    len : header.log.lh.n ≡ n
    len = header-n ∙ c.header_n

    name : (i : ℕ) → i < n → header.log.lh.block i ≡ block i
    name i h = header-block i (rw c.header_n h) ∙ c.header_block i h

    header-IsValid : IsValid header.log
    unfolding read_head
    header-IsValid = record {
      fits = omega (arith, len, g.fits);
      outside = λ i h. rw (name i (omega (arith, len))) (g.outside i (omega (arith, len)));
      apart = λ i j h k e.
          g.apart i j (omega (arith, len)) (omega (arith, len))
            (sym (name i (omega (arith, len))) ∙ e ∙ name j (omega (arith, len)));
    }

    header-Committed :
        Committed header.log.start header.log.size header.log.lh.n header.log.lh.block x header.disk
    unfolding read_head
    header-Committed = Committed-rename c (sym len) (λ i h. sym (name i h))

    header-held :
        (i : ℕ)
        → i < header.log.lh.n
        → header.cache (header.log.start + i + 1) ≡ x (header.log.lh.block i)
    unfolding read_head
    header-held i h =
        coherent (s.log.start + i + 1)
        ∙ c.logged i (omega (arith, len))
        ∙ ap x (sym (name i (omega (arith, len))))

    -- Recovery of a committed transaction: with enough disk writes it completes the transaction,
    -- and with fewer it leaves one to be recovered.
    pub recover-Committed :
        (n < s.writes_left → Clean s.log.start s.log.size x (recover_from_log s).disk)
        × (s.writes_left ≤ n → Committed s.log.start s.log.size n block x (recover_from_log s).disk)
    unfolding recover_from_log read_head
    recover-Committed = (
      λ w. finish-Clean header x header-IsValid header-Committed header-held (omega (arith, len)),
      λ w.
          Committed-rename
            (finish-Committed header x header-IsValid header-Committed header-held
              (omega (arith, len)))
            len (λ i h. name i (omega (arith, len))),
    )

  -- Recovery of a disk with an empty header changes nothing outside the log, whatever happens.
  pub recover-Clean :
      (x : ℕ → Block)
      → 0 < s.log.size
      → Clean s.log.start s.log.size x s.disk
      → Clean s.log.start s.log.size x (recover_from_log s).disk
  recover-Clean x room c =
      let g : Geometry s.log.start s.log.size 0 (λ _. 0) = record {
        fits = room;
        outside = λ i h. absurd (omega arith);
        apart = λ i j h. absurd (omega arith);
      } in
      let (enough, few) = recover-Committed x 0 (λ _. 0) g (Committed-empty c) in
      elim (dec_lt 0 s.writes_left) [ yes w ↦ enough w | no w ↦ Clean-empty (few (omega arith)) ]
