-- ===== src/Bio.antt =====
-- bio.c, the same in both projects: the buffer cache. The ring of buffers is the list of them from the
-- most recently used on; `none` is a panic. A buffer's data and its transfer are left to the disk.
pub mod Order
pub mod Unique
mod Tests
use ele.Common.{
  ℕ, zero, suc, ◌+◌, ◌-◌, ◌^◌, ◌%◌, ◌==◌, Bool, true, false, not, ◌&&◌, if◌then◌else◌, Option, none,
  some, List, [], ◌∷◌, get_elem?, modify, find_index,
}

-- `struct buf`, with the index of the buffer in the array; the lock's holder is the id of a process.
pub record Buf : Type 0 where
  pub slot : ℕ
  pub dev : ℕ
  pub blockno : ℕ
  pub valid : Bool
  pub dirty : Bool
  pub refcnt : ℕ
  pub holder : Option ℕ

abbrev pub holds : ℕ → ℕ → Buf → Bool
holds dev blockno b = (b.dev == dev) && (b.blockno == blockno)

abbrev pub is_idle : Buf → Bool
is_idle b = (b.refcnt == 0) && not b.dirty

abbrev pub grabbed : Buf → Buf
grabbed b = record b { refcnt = (b.refcnt + 1) % 2 ^ 32 }

abbrev pub recycled : ℕ → ℕ → Buf → Buf
recycled dev blockno b = record b {
  dev = dev;
  blockno = blockno;
  valid = false;
  dirty = false;
  refcnt = 1;
}

-- The last index that passes the test: a loop that goes down from the end.
unfoldable pub find_last : (Buf → Bool) → List Buf → Option ℕ
find_last test [] = none
find_last test (b ∷ bs) = elim (find_last test bs) [
  | some i ↦ some (suc i)
  | none ↦ if test b then some 0 else none
]

-- `bget` up to the wait for the buffer's lock: the buffer's place, and the buffers.
unfoldable pub bget : ℕ → ℕ → List Buf → Option (ℕ × List Buf)
bget dev blockno bs = elim (find_index (holds dev blockno) bs) [
  | some i ↦ some (i, modify bs i grabbed)
  | none ↦ elim (find_last is_idle bs) [
    | some i ↦ some (i, modify bs i (recycled dev blockno))
    | none ↦ none
  ]
]

unfoldable pub remove_at : List Buf → ℕ → List Buf
remove_at [] i = []
remove_at (b ∷ bs) zero = bs
remove_at (b ∷ bs) (suc i) = b ∷ remove_at bs i

abbrev pub is_holder : ℕ → Buf → Bool
is_holder pid b = elim b.holder [ none ↦ false | some h ↦ h == pid ]

abbrev pub dropped : Buf → Buf
dropped b = record b { holder = none; refcnt = (b.refcnt + 2 ^ 32 - 1) % 2 ^ 32 }

-- `brelse` by process `pid` of the buffer at place `i`.
unfoldable pub brelse : ℕ → ℕ → List Buf → Option (List Buf)
unfolding remove_at
brelse pid i bs = elim (get_elem? bs i) [
  | none ↦ none
  | some b ↦
      if not (is_holder pid b)
      then none
      else if (dropped b).refcnt == 0
      then some (dropped b ∷ remove_at bs i)
      else some (modify bs i dropped)
]
