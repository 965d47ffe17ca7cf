-- ===== src/Fs/Tests.antt =====
-- A small disk, a file and a path, and the theorems at them.
use hyu_ele.Prelude.{
  List, [], ◌∷◌, ℕ, ◌≡◌, ◌≢◌, refl, arith, true, false, some, ltb, ◌==◌, if◌then◌else◌,
}
use hyu_ele.Prelude.Maps.{update}
use hyu_ele.Log.{State, log_write, find_logged}
use hyu_ele.Fs.{
  Disk, Inode, log_block, balloc, bzero, find_free, entry, walk, inode_entry, from_inode, bmap,
}
use hyu_ele.Fs.Again.{bmap-bmap}
use hyu_ele.Fs.Paths.{found, FileSafe, Mapped, bmap-Mapped}
use hyu_ele.Fs.Names.{skipelem, element_of, skip_slashes, span_element, names, names_lem}

-- A disk of 40000 blocks, as its superblock in block 1 says; the bitmap is in block 5. Blocks 0 to 10 are in
-- use: 8 is a first indirect block, which points nowhere, and 9 a data block with the text "abcd".
abbrev words : ℕ → ℕ → ℕ
words b i =
    if b == 1
    then (if i == 0 then 40000 else 0)
    else if b == 9
    then (if i == 0 then 1684234849 else 0)
    else 0

abbrev running : State
running = record {
  log = record {
    start = 11;
    size = 60;
    outstanding = 1;
    committing = false;
    dev = 1;
    lh = record { n = 0; block = λ _. 0 };
  };
  cache = words;
  dirty = λ _. false;
  disk = words;
  writes_left = 9;
}

abbrev disk : Disk
disk = record { size = 40000; bmapstart = 5; used = λ b. ltb b 11; trans = running }

abbrev level : ℕ → ℕ
level b = if b == 8 then 1 else 0

abbrev file : Inode
file = record { addrs = λ i. if i == 10 then 8 else if i == 0 then 9 else 0 }

file-FileSafe : FileSafe level file disk
file-FileSafe = record {
  disk = record { boot = refl; closed = λ a i l u e n. ground arith };
  roots = λ i n. ground arith;
}

-- Block 12 of the file is allocated at 11, with three blocks of the log.
abbrev after : Disk
after = record {
  size = 40000;
  bmapstart = 5;
  used = update (λ b. ltb b 11) 11 true;
  trans = record running {
    log = record running.log {
      lh = record { n = 3; block = update (update (update (λ _. 0) 0 5) 1 11) 2 8 };
    };
    cache = update (update words 11 (λ _. 0)) 8 (update (update words 11 (λ _. 0) 8) 2 11);
    dirty = update (update (update (λ _. false) 5 true) 11 true) 8 true;
  };
}

allocates : bmap file 12 disk ≡ some (11, file, after)
unfolding bmap from_inode inode_entry walk entry balloc bzero find_free log_block log_write
    find_logged
allocates = refl

bmap-Mapped_example : (m : ℕ → ℕ) × Mapped level 12 file disk m file after 11
bmap-Mapped_example = bmap-Mapped level file 12 disk 11 file after file-FileSafe allocates

bmap-bmap_example :
    (bmap file 12 after ≡ some (11, file, after))
    × ((n : ℕ) → found n file disk ≢ 0 → bmap file n after ≡ some (found n file disk, file, after))
bmap-bmap_example = bmap-bmap level file 12 disk 11 file after file-FileSafe allocates

-- The path ///a//bb.
abbrev a_bb : List ℕ
a_bb = 47 ∷ 47 ∷ 47 ∷ 97 ∷ 47 ∷ 47 ∷ 98 ∷ 98 ∷ []

skips : skipelem a_bb ≡ some (97 ∷ [], 98 ∷ 98 ∷ [])
unfolding skipelem element_of skip_slashes span_element
skips = refl

names_lem_example : names 8 a_bb ≡ ((97 ∷ []) ∷ (98 ∷ 98 ∷ []) ∷ [])
names_lem_example = names_lem 8 a_bb (omega arith)
