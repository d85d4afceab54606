-- ===== src/Fs/Tests.antt =====
-- The file system of fs.c on a small disk, where the theorems apply.
use ele.Common.{
  ◌/◌, ℕ, zero, suc, ◌+◌, ◌*◌, ◌<◌, ◌≡◌, ◌≢◌, ◌∙◌, refl, ap, sym, arith, ◌==◌, ◌&&◌, if◌then◌else◌,
  none, some, Option, Bool, true, ltb, List, [], ◌∷◌, get_or, replicate, map, take, dec_lt,
  ℕ_discrete, subst, Returns, inl,
}
use ele.Fs.{Disk, Superblock, Inode, bit}
use ele.Fs.Map.{in_use, IsData}
use ele.Fs.Content.{Memory, Device, bmap, itrunc}
use ele.Fs.Slots.{slot, slot_direct, slot_none, slot_last, IsFile, IsReserved}
use ele.Fs.Mapped.{Bmapped}
use ele.Fs.Bmap.{bmap-Bmapped}
use ele.Fs.Roundtrip.{ReadBack, writei-readi}
use ele.Fs.Lookup.{IsDir}
use ele.Fs.Link.{Linked, dirlink-dirlookup}
use ele.Fs.Path.{skipelem, skip_slashes, element, after_element, put_name, until_nul, names}
use ele.Fs.Elements.{elements}
use ele.Fs.Namex.{namex}
use ele.Fs.Names.{names-elements}
use ele.Fs.Truncate.{IsTruncated, itrunc-IsTruncated}

-- Eight blocks: boot, super, an inode block, the bit map and four data blocks.
abbrev small_super : Superblock
small_super = record {
  size = 8;
  nblocks = 4;
  ninodes = 8;
  nlog = 0;
  logstart = 2;
  inodestart = 2;
  bmapstart = 3;
}

abbrev note_disk : Disk
note_disk = λ x o. if (x == 3) && (o == 0) then 31 else if (x == 4) && (o == 0) then 7 else 0

abbrev note_file : Inode
note_file = record {
  inum = 1;
  kind = 2;
  major = 0;
  minor = 0;
  nlink = 1;
  size = 1;
  addrs = 4 ∷ replicate 12 0;
}

note_disk-IsReserved : IsReserved small_super note_disk
unfolding bit
note_disk-IsReserved x l z = elim (dec_lt 3 x) [
  | yes high ↦ (high, l)
  | no low ↦ absurd (go x (omega (arith, low)) z)
]
  where
    go : (x : ℕ) → x < 4 → in_use small_super x note_disk ≢ 0
    go zero l z = omega (arith, z)
    go (suc zero) l z = omega (arith, z)
    go (suc (suc zero)) l z = omega (arith, z)
    go (suc (suc (suc zero))) l z = omega (arith, z)
    go (suc (suc (suc (suc x)))) l z = omega (arith, l)

get_or-replicate : (n i a : ℕ) → get_or (replicate n a) i a ≡ a
get_or-replicate zero i a = refl
get_or-replicate (suc n) zero a = refl
get_or-replicate (suc n) (suc i) a = get_or-replicate n i a

note_slot : (n : ℕ) → n ≢ 0 → slot note_file note_disk n ≡ 0
note_slot zero h = absurd (h refl)
note_slot (suc n) h = elim (dec_lt (suc n) 12) [
  | yes direct ↦ slot_direct note_file note_disk (suc n) direct ∙ get_or-replicate 12 n 0
  | no high ↦ elim (dec_lt (suc n) 140) [
    | yes word ↦ slot_none note_file note_disk (suc n) (omega arith) word refl
    | no end ↦ slot_last note_file note_disk (suc n) (omega arith)
  ]
]

note_slot_cases : (n : ℕ) → slot note_file note_disk n ≢ 0 → n ≡ 0
note_slot_cases n nz = elim (ℕ_discrete n 0) [
  | yes here ↦ here
  | no off ↦ absurd (nz (note_slot n off))
]

note_first : (n : ℕ) → slot note_file note_disk n ≢ 0 → slot note_file note_disk n ≡ 4
note_first n nz =
    ap (slot note_file note_disk) (note_slot_cases n nz)
    ∙ slot_direct note_file note_disk 0 (omega arith)

note_block_used : in_use small_super 4 note_disk ≢ 0
unfolding bit
note_block_used z = omega (arith, z)

note_file-IsFile : IsFile small_super note_file note_disk
note_file-IsFile = record {
  sized = refl;
  data_blocks =
      λ n l nz. subst (IsData small_super) (sym (note_first n nz)) ((omega arith, omega arith));
  used = λ n l nz.
      subst (λ b. in_use small_super b note_disk ≢ 0) (sym (note_first n nz)) note_block_used;
  apart = λ n m l k off nz same. nz (same ∙ note_slot m (λ z. off (note_slot_cases n nz ∙ sym z)));
}

abbrev no_device : Device
no_device = λ k. none

abbrev some_bytes : Memory
some_bytes = λ p. p * 2 + 1

bmap-Bmapped_example :
    Bmapped small_super 13 note_file note_disk (bmap small_super 13 note_file note_disk)
bmap-Bmapped_example =
    bmap-Bmapped note_file-IsFile note_disk-IsReserved 13 (omega arith) (omega arith)

writei-readi_example :
    ReadBack no_device small_super 100 500 1 600 some_bytes (λ p. 0) note_file note_disk
writei-readi_example =
    writei-readi no_device small_super 100 500 1 600 some_bytes (λ p. 0) note_file note_disk
      note_file-IsFile note_disk-IsReserved (omega arith) (omega arith)
      (λ e. absurd (omega (arith, e))) (omega arith) (omega arith)

itrunc-IsTruncated_example :
    Returns (itrunc small_super note_file note_disk) (IsTruncated small_super note_file note_disk)
itrunc-IsTruncated_example =
    itrunc-IsTruncated small_super note_file note_disk note_file-IsFile (omega arith)

-- The path `//ab/c`.
abbrev some_path : List ℕ
some_path = 47 ∷ 47 ∷ 97 ∷ 98 ∷ 47 ∷ 99 ∷ []

nonzero : (n : ℕ) → suc n ≢ 0
nonzero n e = omega (arith, e)

names-elements_example : names 7 some_path (replicate 14 0) ≡ map (take 14) (elements some_path)
names-elements_example =
    names-elements 7 some_path (replicate 14 0) (omega arith)
      (nonzero 46, (nonzero 46, (nonzero 96, (nonzero 97, (nonzero 46, (nonzero 98, tt))))))

-- Inode 1 is the root, with the directory 2 under the name `ab`.
abbrev tree_lookup : ℕ → List ℕ → Option ℕ
tree_lookup dir [] = none
tree_lookup dir (c ∷ s) = if (dir == 1) && (c == 97) then some 2 else none

abbrev tree_is_dir : ℕ → Bool
tree_is_dir ip = ltb ip 3

-- The parent of `//ab/c` is the inode 2.
namex_runs :
    namex tree_is_dir tree_lookup true some_path (replicate 14 0) 1 2 ≡ some (2, some (99 ∷ []))
unfolding namex skipelem skip_slashes element after_element put_name until_nul
namex_runs = refl

-- A directory of two entries, of which the second is free.
abbrev note_dir : Inode
note_dir = record note_file { kind = 1; size = 32 }

note_dir-IsDir : IsDir small_super note_dir note_disk
unfolding slot
note_dir-IsDir = record {
  file = record {
    sized = note_file-IsFile.sized;
    data_blocks = note_file-IsFile.data_blocks;
    used = note_file-IsFile.used;
    apart = note_file-IsFile.apart;
  };
  reserved = note_disk-IsReserved;
  small = omega arith;
  is_dir = refl;
  whole = refl;
  bounded = omega arith;
  blocks = λ k l z. omega (arith, in_first k l z, slot_direct note_dir note_disk 0 (omega arith));
}
  where
    start : (k : ℕ) → k < 32 → 0 ≡ k / 512
    start k l = omega (arith, l)

    in_first :
        (k : ℕ) → k < 32 → slot note_dir note_disk (k / 512) ≡ 0 → slot note_dir note_disk 0 ≡ 0
    in_first k l z = ap (slot note_dir note_disk) (start k l) ∙ z

dirlink-dirlookup_example : Linked no_device small_super 500 100 9 note_dir note_disk some_bytes
dirlink-dirlookup_example =
    dirlink-dirlookup no_device small_super 500 100 9 note_dir note_disk some_bytes note_dir-IsDir
      (omega arith) (omega arith) (inl (omega arith)) (omega arith) (omega arith)
