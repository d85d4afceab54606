-- ===== src/File.antt =====
-- file.c: the table of open files and its reference counts. A file pointer is an index in the table;
-- the table's lock makes each call atomic, and `none` is a panic or a pointer to no file.
pub mod Refs
mod Tests
use ele.Common.{
  ℕ, ◌+◌, ◌-◌, ltb, ◌==◌, Bool, true, false, if◌then◌else◌, Option, none, some, List, get_elem?,
  modify, find_index,
}

pub data FileKind : Type 0 where
  fd_none fd_pipe fd_inode : FileKind

-- `struct file`; a pipe is given by its address, an inode by its index.
pub record File : Type 0 where
  pub kind : FileKind
  pub ref : ℕ
  pub readable : Bool
  pub writable : Bool
  pub pipe : ℕ
  pub ip : ℕ
  pub off : ℕ

abbrev pub nfile : ℕ
nfile = 100

abbrev pub is_free : File → Bool
is_free f = f.ref == 0

unfoldable pub filealloc : List File → Option ℕ × List File
filealloc fs = elim (find_index is_free fs) [
  | none ↦ (none, fs)
  | some i ↦ (some i, modify fs i (λ f. record f { ref = 1 }))
]

unfoldable pub filedup : ℕ → List File → Option (List File)
filedup i fs = elim (get_elem? fs i) [
  | none ↦ none
  | some f ↦ if ltb f.ref 1 then none else some (modify fs i (λ g. record g { ref = g.ref + 1 }))
]

-- What is left to do after the table is updated: nothing, as others refer to the file or as it had no
-- kind; to close a pipe's end; or to drop an inode.
pub data Left : Type 0 where
  shared : Left
  nothing : Left
  pipe_end : ℕ → Bool → Left
  inode : ℕ → Left

unfoldable pub left_of : File → Left
left_of f = elim f.kind [
  | fd_none ↦ nothing
  | fd_pipe ↦ pipe_end f.pipe f.writable
  | fd_inode ↦ inode f.ip
]

unfoldable pub fileclose : ℕ → List File → Option (Left × List File)
fileclose i fs = elim (get_elem? fs i) [
  | none ↦ none
  | some f ↦
      if ltb f.ref 1
      then none
      else if ltb 0 (f.ref - 1)
      then some (shared, modify fs i (λ g. record g { ref = g.ref - 1 }))
      else some (left_of f, modify fs i (λ g. record g { ref = 0; kind = fd_none }))
]
