-- ===== src/File/Tests.antt =====
-- The table of file.c with an entry that two descriptors share.
use ele.Common.{
  ℕ, ◌-◌, ◌≡◌, refl, true, false, some, List, [], ◌∷◌, arith, if◌then◌else◌, ◌==◌, find_index,
}
use ele.File.{File, fd_inode, filealloc, fileclose, shared}
use ele.File.Refs.{ref_at, fileclose_lem}

abbrev opened : File
opened = record {
  kind = fd_inode;
  ref = 2;
  readable = true;
  writable = false;
  pipe = 0;
  ip = 5;
  off = 0;
}

abbrev files : List File
files = opened ∷ record opened { ref = 0 } ∷ []

filealloc_runs : (filealloc files).0 ≡ some 1
unfolding filealloc find_index
filealloc_runs = refl

fileclose_lem_example :
    (fs' : List File) × (fileclose 0 files ≡ some (shared, fs'))
    × ((g : ℕ) → ref_at fs' g ≡ (if 0 == g then ref_at files g - 1 else ref_at files g))
fileclose_lem_example = fileclose_lem 0 files opened refl (omega arith)
