-- ===== src/Log/Crash.antt =====
-- Crash safety of the log: a commit that loses power, any number of boots that lose power again,
-- and one that does not.
use hyu_ele.Prelude.{
  ℕ, ◌+◌, ◌≡◌, ◌≤◌, ◌<◌, ◌⊎◌, inl, inr, arith, refl, List, [], ◌∷◌, leb, if◌then◌else◌, Bool-cases,
}
use native.Mathlib.Decide.{dec_lt}
use hyu_ele.Log.{State, SuperBlock, initlog, commit, reboot, boots}
use hyu_ele.Log.Loops.{IsValid}
use hyu_ele.Log.Finish.{Outside, Clean, Committed, Geometry}
use hyu_ele.Log.Recover.{recover-Committed, recover-Clean}
use hyu_ele.Log.Commit.{Coherent, commit_prefix}

module _ (sb : SuperBlock) (x : ℕ → ℕ → ℕ) where
  boot-Clean :
      (w : ℕ) (s : State)
      → 0 < sb.nlog
      → Clean sb.logstart sb.nlog x s.disk
      → Clean sb.logstart sb.nlog x (initlog 1 sb (reboot w s)).disk
  unfolding initlog reboot
  boot-Clean w s room c = recover-Clean _ (λ a. refl) x room c

  module _ (n : ℕ) (block : ℕ → ℕ) (g : Geometry sb.logstart sb.nlog n block) where
    boot-Committed :
        (w : ℕ) (s : State)
        → Committed sb.logstart sb.nlog n block x s.disk
        → (n < w → Clean sb.logstart sb.nlog x (initlog 1 sb (reboot w s)).disk)
          × (w ≤ n → Committed sb.logstart sb.nlog n block x (initlog 1 sb (reboot w s)).disk)
    unfolding initlog reboot
    boot-Committed w s c = recover-Committed _ (λ a. refl) x n block g c

    -- A disk from which recovery leads to `x`.
    abbrev Pending : State → Type 0
    Pending s = Clean sb.logstart sb.nlog x s.disk ⊎ Committed sb.logstart sb.nlog n block x s.disk

    boots-Pending : (ws : List ℕ) (s : State) → Pending s → Pending (boots sb ws s)
    unfolding boots
    boots-Pending [] s p = p
    boots-Pending (w ∷ ws) s (inl c) =
        boots-Pending ws _ (inl (boot-Clean w s (omega (arith, g.fits)) c))
    boots-Pending (w ∷ ws) s (inr c) = elim (dec_lt n w) [
      | yes h ↦ boots-Pending ws _ (inl ((boot-Committed w s c).0 h))
      | no h ↦ boots-Pending ws _ (inr ((boot-Committed w s c).1 (omega arith)))
    ]

    boots_end :
        (ws : List ℕ) (w : ℕ) (s : State)
        → n < w
        → Pending s
        → Clean sb.logstart sb.nlog x (initlog 1 sb (reboot w (boots sb ws s))).disk
    boots_end ws w s h p = elim (boots-Pending ws s p) [
      | inl c ↦ boot-Clean w _ (omega (arith, g.fits)) c
      | inr c ↦ (boot-Committed w _ c).0 h
    ]

-- The super block from which `initlog` set up this log.
abbrev pub super_of : State → SuperBlock
super_of s = record { logstart = s.log.start; nlog = s.log.size }

geometry : (s : State) → IsValid s.log → Geometry s.log.start s.log.size s.log.lh.n s.log.lh.block
geometry s v = record { fits = v.fits; outside = v.outside; apart = v.apart }

module _ (s : State) (ws : List ℕ) (w : ℕ) (v : IsValid s.log) (e : s.disk s.log.start 0 ≡ 0)
    (coherent : Coherent s) (h : s.log.lh.n < w) where
  abbrev after : State
  after = initlog 1 (super_of s) (reboot w (boots (super_of s) ws (commit s)))

  after-old : s.writes_left ≤ s.log.lh.n → Clean s.log.start s.log.size s.disk after.disk
  after-old few =
      boots_end (super_of s) s.disk s.log.lh.n s.log.lh.block (geometry s v) ws w (commit s) h
        (inl ((commit_prefix s v e coherent).0 few))

  after-new : s.log.lh.n < s.writes_left → Clean s.log.start s.log.size s.cache after.disk
  after-new more =
      boots_end (super_of s) s.cache s.log.lh.n s.log.lh.block (geometry s v) ws w (commit s) h
        (elim (dec_lt (s.log.lh.n + s.log.lh.n + 1) s.writes_left) [
          | yes all ↦ inl ((commit_prefix s v e coherent).2 all)
          | no part ↦ inr ((commit_prefix s v e coherent).1 more (omega arith))
        ])

  -- A commit is atomic and durable: whenever the power fails in it, and however often it fails again
  -- in the recoveries that follow, the first recovery that is not cut short leaves every block
  -- outside the log as it was on disk before, if at most `n` disk writes were made, and otherwise as
  -- the transaction has it in the cache.
  pub crash_safe :
      (a : ℕ)
      → Outside s.log.start s.log.size a
      → after.disk a ≡ (if leb s.writes_left s.log.lh.n then s.disk a else s.cache a)
  crash_safe a out = elim (Bool-cases (leb s.writes_left s.log.lh.n)) [
    | inl few ↦ rw few ((after-old (ground arith)).home a out)
    | inr more ↦ rw more ((after-new (ground arith)).home a out)
  ]
