-- ===== src/File/Refs.antt =====
-- The reference counts of file.c.
use ele.Common.{
  ℕ, ◌+◌, ◌-◌, ◌<◌, ◌≡◌, refl, ap, ◌∙◌, Bool, true, false, Option, none, some, List, arith, ltb,
  ◌==◌, ==_iff, if◌then◌else◌, length, get_elem?, set, Bool-cases, inl, inr, All, ℕ_discrete,
  find_index, find_index-some, find_index-none, Option-cases, get_elem?-lt, get_elem?-set_self,
  get_elem?-set_ne, modify-eq-set,
}
use ele.File.{
  File, is_free, filealloc, filedup, fileclose, FileKind, Left, left_of, shared, nothing, pipe_end,
  inode, fd_none, fd_pipe, fd_inode,
}

-- The reference count of file `f`; 0 for no file.
unfoldable pub ref_at : List File → ℕ → ℕ
ref_at fs f = elim (get_elem? fs f) [ none ↦ 0 | some x ↦ x.ref ]

ref_at-some : (fs : List File) (f : ℕ) (x : File) → get_elem? fs f ≡ some x → ref_at fs f ≡ x.ref
unfolding ref_at
ref_at-some fs f x e = rw (e, ref_at)

-- A file with references is a file.
pub file_of :
    (fs : List File) (f : ℕ)
    → 0 < ref_at fs f
    → (x : File) × (get_elem? fs f ≡ some x) × (ref_at fs f ≡ x.ref)
unfolding ref_at
file_of fs f h = elim (Option-cases (get_elem? fs f)) [
  | inl absent ↦ absurd (ground arith)
  | inr (x, e) ↦ (x, e, ref_at-some fs f x e)
]

pub ref_at-set :
    (fs : List File) (f g : ℕ) (x y : File)
    → get_elem? fs f ≡ some x
    → ref_at (set fs f y) g ≡ (if f == g then y.ref else ref_at fs g)
unfolding ref_at
ref_at-set fs f g x y e = elim (ℕ_discrete f g) [
  | yes same ↦ ground (arith, get_elem?-set_self fs f y (get_elem?-lt fs f x e))
  | no off ↦ ground (arith, get_elem?-set_ne fs y off)
]

filedup-some :
    (f : ℕ) (fs : List File) (x : File)
    → get_elem? fs f ≡ some x
    → ltb x.ref 1 ≡ false
    → filedup f fs ≡ some (set fs f (record x { ref = x.ref + 1 }))
unfolding filedup
filedup-some f fs x e live = rw (e, filedup, live) (ap some (modify-eq-set fs f _ e))

-- `filedup` on a file with references adds one to its count, and to no other.
pub filedup_lem :
    (f : ℕ) (fs : List File)
    → 0 < ref_at fs f
    → (fs' : List File) × (filedup f fs ≡ some fs')
      × ((g : ℕ) → ref_at fs' g ≡ (if f == g then ref_at fs g + 1 else ref_at fs g))
filedup_lem f fs h =
    let (x, e, r) = file_of fs f h in
    (
      set fs f (record x { ref = x.ref + 1 }),
      filedup-some f fs x e (ground arith),
      λ g. ref_at-set fs f g x (record x { ref = x.ref + 1 }) e ∙ ground (arith, r),
    )

fileclose-last :
    (f : ℕ) (fs : List File) (x : File)
    → get_elem? fs f ≡ some x
    → x.ref ≡ 1
    → fileclose f fs ≡ some (left_of x, set fs f (record x { ref = 0; kind = fd_none }))
unfolding fileclose
fileclose-last f fs x e one =
    rw (e, fileclose, one_fails x.ref one, one_left x.ref one)
      (ap (λ l. some (left_of x, l)) (modify-eq-set fs f _ e))
  where
    one_fails : (n : ℕ) → n ≡ 1 → ltb n 1 ≡ false
    one_fails n h = ground arith

    one_left : (n : ℕ) → n ≡ 1 → ltb 0 (n - 1) ≡ false
    one_left n h = ground arith

fileclose-shared :
    (f : ℕ) (fs : List File) (x : File)
    → get_elem? fs f ≡ some x
    → 1 < x.ref
    → fileclose f fs ≡ some (shared, set fs f (record x { ref = x.ref - 1 }))
unfolding fileclose
fileclose-shared f fs x e more =
    rw (e, fileclose, live x.ref more, others x.ref more)
      (ap (λ l. some (shared, l)) (modify-eq-set fs f _ e))
  where
    live : (n : ℕ) → 1 < n → ltb n 1 ≡ false
    live n h = ground arith

    others : (n : ℕ) → 1 < n → ltb 0 (n - 1) ≡ true
    others n h = ground arith

-- What the close of the last reference has to do, by the kind of the file.
abbrev pub due : FileKind → ℕ → Bool → ℕ → Left
due fd_none pipe writes ip = nothing
due fd_pipe pipe writes ip = pipe_end pipe writes
due fd_inode pipe writes ip = inode ip

left_of-due : (x : File) → left_of x ≡ due x.kind x.pipe x.writable x.ip
unfolding left_of
left_of-due x = by_kind x.kind x.pipe x.writable x.ip
  where
    by_kind :
        (k : FileKind) (pipe : ℕ) (writes : Bool) (ip : ℕ)
        → (elim k [ fd_none ↦ nothing | fd_pipe ↦ pipe_end pipe writes | fd_inode ↦ inode ip ])
          ≡ due k pipe writes ip
    by_kind fd_none pipe writes ip = refl
    by_kind fd_pipe pipe writes ip = refl
    by_kind fd_inode pipe writes ip = refl

-- `fileclose` on a file with references does not panic. It takes one from its count, and from no
-- other; while references are left nothing else is to be done, and with the last one the file's pipe
-- end is to be closed, or its inode dropped, as its kind says.
pub fileclose_lem :
    (f : ℕ) (fs : List File) (x : File)
    → get_elem? fs f ≡ some x
    → 0 < x.ref
    → (fs' : List File) × (fileclose f fs
        ≡ some (if ltb 1 x.ref then shared else due x.kind x.pipe x.writable x.ip, fs'))
      × ((g : ℕ) → ref_at fs' g ≡ (if f == g then ref_at fs g - 1 else ref_at fs g))
fileclose_lem f fs x e h = elim (Bool-cases (ltb 1 x.ref)) [
  | inl more ↦ (
    set fs f (record x { ref = x.ref - 1 }),
    rw more (fileclose-shared f fs x e (ground arith)),
    λ g.
        ref_at-set fs f g x (record x { ref = x.ref - 1 }) e ∙ ground (arith, ref_at-some fs f x e),
  )
  | inr last ↦ (
    set fs f (record x { ref = 0; kind = fd_none }),
    rw last (
        fileclose-last f fs x e (ground arith)
        ∙ ap (λ l. some (l, set fs f (record x { ref = 0; kind = fd_none }))) (left_of-due x)),
    λ g.
        ref_at-set fs f g x (record x { ref = 0; kind = fd_none }) e
        ∙ ground (arith, ref_at-some fs f x e),
  )
]

filealloc-none : (fs : List File) → find_index is_free fs ≡ none → filealloc fs ≡ (none, fs)
unfolding filealloc
filealloc-none fs e = rw (e, filealloc)

filealloc-some :
    (fs : List File) (i : ℕ) (x : File)
    → find_index is_free fs ≡ some i
    → get_elem? fs i ≡ some x
    → filealloc fs ≡ (some i, set fs i (record x { ref = 1 }))
unfolding filealloc
filealloc-some fs i x e here = rw (e, filealloc) (ap (λ l. (some i, l)) (modify-eq-set fs i _ here))

-- What an allocation may come to.
abbrev pub FileAllocated : List File → Option ℕ × List File → Type 0
FileAllocated fs (none, fs') = (fs' ≡ fs) × All (λ x. (x.ref == 0) ≡ false) fs
FileAllocated fs (some f, fs') =
    (ref_at fs f ≡ 0)
    × (f < length fs)
    × ((g : ℕ) → ref_at fs' g ≡ (if f == g then 1 else ref_at fs g))

-- `filealloc` gives one reference to an entry of the table that no one refers to, and changes no other
-- count; if there is no such entry it changes nothing.
pub filealloc_lem : (fs : List File) → FileAllocated fs (filealloc fs)
filealloc_lem fs = elim (Option-cases (find_index is_free fs)) [
  | inl e ↦ rw (filealloc-none fs e) (refl, find_index-none is_free fs e)
  | inr (i, e) ↦
      let first = find_index-some is_free fs i e in
      let x = first.item in
      rw (filealloc-some fs i x e first.found) (
        ref_at-some fs i x first.found ∙ (==_iff x.ref 0).0 first.passes,
        get_elem?-lt fs i x first.found,
        λ g. ref_at-set fs i g x (record x { ref = 1 }) first.found,
      )
]
