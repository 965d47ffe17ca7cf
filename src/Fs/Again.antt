-- ===== src/Fs/Again.antt =====
-- `bmap` of a block that is there already.
use hyu_ele.Prelude.{
  ℕ, ◌≡◌, ◌≢◌, inl, inr, refl, ap, ◌∙◌, ◌==◌, List, [], ◌∷◌, Option, none, some, Bool-cases,
}
use hyu_ele.Fs.{Disk, Inode, word, inode_entry, walk, entry, from_inode, bmap}
use hyu_ele.Fs.Blocks.{look}
use hyu_ele.Fs.Paths.{path, along, bmap-path, found, found_at, FileSafe, bmap-Mapped}

walk-look : (is : List ℕ) (a : ℕ) (s : Disk) → look is a s ≢ 0 → walk is a s ≡ some (look is a s, s)
unfolding walk entry
walk-look [] a s n = refl
walk-look (i ∷ is) a s n = elim (Bool-cases (word s a i == 0)) [
  | inl z ↦ absurd (n (rw z refl))
  | inr z ↦ rw z (walk-look is (word s a i) s (rw z at n))
]

along-found :
    (p : Option (ℕ × List ℕ)) (ip : Inode) (s : Disk)
    → found_at p ip s ≢ 0
    → along ip s p ≡ some (found_at p ip s, ip, s)
unfolding from_inode inode_entry
along-found none ip s n = absurd (n refl)
along-found (some (r, is)) ip s n = elim (Bool-cases (ip.addrs r == 0)) [
  | inl z ↦ absurd (n (rw z refl))
  | inr z ↦ rw (z, walk-look is (ip.addrs r) s (rw z at n)) refl
]

-- On a disk where the single, double and triple indirect blocks in use point at blocks in use of the level
-- below, and the inode at blocks of the level of each pointer: after a successful call for block `bn` of a file, a second call
-- for it returns the same block and changes nothing, and a call for any block of the file that could be
-- found before the first one returns that block and changes nothing. Neither writes to the log, so
-- neither needs room there.
pub bmap-bmap :
    (k : ℕ → ℕ) (ip : Inode) (bn : ℕ) (s : Disk) (b : ℕ) (jp : Inode) (t : Disk)
    → FileSafe k ip s
    → bmap ip bn s ≡ some (b, jp, t)
    → (bmap jp bn t ≡ some (b, jp, t))
      × ((n : ℕ) → found n ip s ≢ 0 → bmap jp n t ≡ some (found n ip s, jp, t))
bmap-bmap k ip bn s b jp t h e =
    let (m, x) = bmap-Mapped k ip bn s b jp t h e in
    (
      bmap-path jp bn t
          ∙ along-found (path bn) jp t (λ z. x.not_zero (rw x.is_found at z))
          ∙ ap (λ c. some (c, jp, t)) x.is_found,
      λ n f.
          let q = x.others n f in
          bmap-path jp n t
          ∙ along-found (path n) jp t (λ z. f (rw q at z))
          ∙ ap (λ c. some (c, jp, t)) q,
    )
