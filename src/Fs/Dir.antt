-- ===== src/Fs/Dir.antt =====
-- Directories in fs.c: files of entries of 16 bytes, the number of an inode in two and a name in 14. A
-- pointer to a name is its address in memory, and `de` is the address of the local `struct dirent`.
use ele.Common.{
  ℕ, zero, suc, ◌+◌, ◌*◌, ◌/◌, ◌%◌, ◌==◌, ltb, Bool, true, false, not, ◌&&◌, if◌then◌else◌, Option,
  none, some, ℤ, pos, negsuc, eq_ℤ,
}
use ele.Str.{Memory, store, strncmp, strncpy}
use ele.Fs.{Disk, Superblock, Inode}
use ele.Fs.Content.{Device, readi, writei}

-- Of a `struct dirent` at `de`: its inode number, and what `namecmp` says of its name.
abbrev pub entry_inum : ℕ → Memory → ℕ
entry_inum de m = m de + m (de + 1) * 256

abbrev pub namecmp : ℕ → ℕ → Memory → ℤ
namecmp s t m = strncmp s t 14 m

abbrev pub is_named : ℕ → ℕ → Memory → Bool
is_named name de m = eq_ℤ (namecmp name (de + 2) m) (pos 0)

-- A search: where it ended, if it did, with the memory, the inode and the disk after the reads.
abbrev pub Search : Type 0
Search = Option ℕ × Memory × Inode × Disk

-- The loops over the entries from the offset `off` on, to the first that passes a test of the entry read.
unfoldable pub find_entry :
    (Memory → Bool) → ℕ → Device → Superblock → ℕ → ℕ → Inode → Disk → Memory → Option Search
find_entry test zero devsw sb de off dp d m = some (none, m, dp, d)
find_entry test (suc n) devsw sb de off dp d m = elim (ltb off dp.size) [
  | false ↦ some (none, m, dp, d)
  | true ↦ elim (readi devsw sb de off 16 dp d m) [
    | none ↦ none
    | some (r, m', jp, e) ↦ elim (eq_ℤ r (pos 16)) [
      | false ↦ none
      | true ↦ elim (test m') [
        | true ↦ some (some off, m', jp, e)
        | false ↦ find_entry test n devsw sb de (off + 16) jp e m'
      ]
    ]
  ]
]

-- `dirlookup`: the offset of the entry with the name, and the number of the inode that it hands to `iget`.
unfoldable pub dirlookup :
    Device
    → Superblock
    → ℕ
    → ℕ
    → Inode
    → Disk
    → Memory
    → Option (Option (ℕ × ℕ) × Memory × Inode × Disk)
dirlookup devsw sb de name dp d m =
    if not (dp.kind == 1)
    then none
    else elim (find_entry (λ m. not (entry_inum de m == 0) && is_named name de m) (dp.size / 16 + 1)
        devsw sb de 0 dp d m) [
          | none ↦ none
          | some (found, m', jp, e) ↦ elim found [
            | none ↦ some (none, m', jp, e)
            | some off ↦ some (some (off, entry_inum de m'), m', jp, e)
          ]
        ]

abbrev pub set_inum : ℕ → ℕ → Memory → Memory
set_inum de inum m = store (de + 1) (inum / 256 % 256) (store de (inum % 256) m)

-- The end of `dirlink`: the entry is written at `off`.
unfoldable pub write_entry :
    Device → Superblock → ℕ → ℕ → ℕ → ℕ → Inode → Disk → Memory → Option (ℤ × Memory × Inode × Disk)
write_entry devsw sb de name inum off dp d m =
    let m1 = set_inum de inum (strncpy (de + 2) name 14 m) in
    elim (writei devsw sb de off 16 m1 dp d) [
      | none ↦ none
      | some (r, m', jp, e) ↦ if eq_ℤ r (pos 16) then some (pos 0, m', jp, e) else none
    ]

-- The inode that `dirlookup` finds is given back with `iput`, which is left to the cache of inodes. Where no
-- entry is free, the loop ends at the end of the directory.
unfoldable pub dirlink :
    Device → Superblock → ℕ → ℕ → ℕ → Inode → Disk → Memory → Option (ℤ × Memory × Inode × Disk)
dirlink devsw sb de name inum dp d m = elim (dirlookup devsw sb de name dp d m) [
  | none ↦ none
  | some (found, m1, jp, e) ↦ elim found [
    | some entry ↦ some (negsuc 0, m1, jp, e)
    | none ↦
        elim (find_entry (λ m. entry_inum de m == 0) (jp.size / 16 + 1) devsw sb de 0 jp e m1) [
          | none ↦ none
          | some (free, m2, kp, g) ↦ elim free [
            | some off ↦ write_entry devsw sb de name inum off kp g m2
            | none ↦ write_entry devsw sb de name inum ((kp.size + 15) / 16 * 16) kp g m2
          ]
        ]
  ]
]
