-- ===== src/Kernel/Open.antt =====
-- pipealloc of project01/xv6-public/pipe.c, and the descriptors of sysfile.c: argfd and fdalloc.
use mathlib.Core.Option
use ele.Common.{
  ℕ, Bool, true, false, if◌then◌else◌, Option, none, some, List, [], ◌∷◌, ℤ, pos, negsuc, get_elem?,
  set, modify, find_index, ◌≡◌, ◌≢◌, ◌<◌, refl, sym, ap, ◌∙◌, length, get_elem?-set_self,
  get_elem?-set_ne, get_elem?-lt, lt-get_elem?, find_index-some, find_index-none, All, All-mono,
  arith, Option-cases, inl, inr,
}
use ele.Kalloc.{Kmem, kalloc}
use ele.File.{File, fd_pipe, filealloc}
use ele.Pipe.{fresh_pipe}
use ele.Kernel.{Kernel}
use ele.Kernel.Exit.{set_pipe, close_file}

-- An end of the pipe at address `a`.
abbrev pub end_of : ℕ → Bool → File → File
end_of a writes f = record f {
  kind = fd_pipe;
  readable = if writes then false else true;
  writable = writes;
  pipe = a;
}

-- The two files, given back.
unfoldable pub close_both : ℕ → ℕ → Kernel → Option Kernel
close_both f0 f1 k = elim (close_file f0 k) [ none ↦ none | some k' ↦ close_file f1 k' ]

-- `pipealloc` with its page, or without one: the two files, or `none` as it returns -1.
unfoldable pub with_page : ℕ → ℕ → Kernel → Option ℕ × Kmem → Option (Option (ℕ × ℕ) × Kernel)
unfolding close_both
with_page f0 f1 k (none, m) =
    Option.map (λ k'. (none, k')) (close_both f0 f1 (record k { mem = m }))
with_page f0 f1 k (some a, m) = some (
  some (f0, f1),
  set_pipe a (fresh_pipe (k.pipes a).buf) (record k {
    mem = m;
    files = modify (modify k.files f0 (end_of a false)) f1 (end_of a true);
  }),
)

unfoldable pub with_second : ℕ → Kernel → Option ℕ × List File → Option (Option (ℕ × ℕ) × Kernel)
unfolding with_page
with_second f0 k (none, fs) =
    Option.map (λ k'. (none, k')) (close_file f0 (record k { files = fs }))
with_second f0 k (some f1, fs) = with_page f0 f1 (record k { files = fs }) (kalloc k.mem)

unfoldable pub with_first : Kernel → Option ℕ × List File → Option (Option (ℕ × ℕ) × Kernel)
unfolding with_second
with_first k (none, fs) = some (none, record k { files = fs })
with_first k (some f0, fs) = with_second f0 (record k { files = fs }) (filealloc fs)

unfoldable pub pipealloc : Kernel → Option (Option (ℕ × ℕ) × Kernel)
unfolding with_first
pipealloc k = with_first k (filealloc k.files)

-- The file of descriptor `fd`, or -1.
unfoldable pub argfd : ℤ → List (Option ℕ) → Option ℕ
argfd (negsuc n) os = none
argfd (pos fd) os = elim (get_elem? os fd) [ none ↦ none | some f ↦ f ]

abbrev pub is_closed : Option ℕ → Bool
is_closed none = true
is_closed (some f) = false

unfoldable pub fdalloc : ℕ → List (Option ℕ) → ℤ × List (Option ℕ)
fdalloc f os = elim (find_index is_closed os) [
  | none ↦ (negsuc 0, os)
  | some fd ↦ (pos fd, set os fd (some f))
]

-- A new descriptor is found under its number.
fdalloc_runs : argfd (pos 1) (fdalloc 7 (some 3 ∷ none ∷ none ∷ [])).1 ≡ some 7
unfolding argfd fdalloc find_index
fdalloc_runs = refl

fdalloc-some :
    (f i : ℕ) (os : List (Option ℕ))
    → find_index is_closed os ≡ some i
    → fdalloc f os ≡ (pos i, set os i (some f))
unfolding fdalloc
fdalloc-some f i os h = rw (fdalloc, h)

fdalloc-none :
    (f : ℕ) (os : List (Option ℕ)) → find_index is_closed os ≡ none → fdalloc f os ≡ (negsuc 0, os)
unfolding fdalloc
fdalloc-none f os h = rw (fdalloc, h)

argfd-set :
    (i f : ℕ) (os : List (Option ℕ)) → i < length os → argfd (pos i) (set os i (some f)) ≡ some f
unfolding argfd
argfd-set i f os l = rw (argfd, get_elem?-set_self os i (some f) l)

argfd-set_ne :
    (i g f : ℕ) (os : List (Option ℕ))
    → g ≢ i
    → argfd (pos g) (set os i (some f)) ≡ argfd (pos g) os
unfolding argfd
argfd-set_ne i g f os off =
    ap (λ o. elim o [ none ↦ none | some f ↦ f ]) (get_elem?-set_ne os (some f) (λ e. off (sym e)))

-- What an allocation of a descriptor for file `f` comes to.
pub data FdAllocated (f : ℕ) (os : List (Option ℕ)) (r : ℤ × List (Option ℕ)) : Type 0 where
  none_closed : All (λ o. o ≢ none) os → r ≡ (negsuc 0, os) → FdAllocated f os r
  opened :
      (fd : ℕ) (os' : List (Option ℕ))
      → r ≡ (pos fd, os')
      → fd < length os
      → argfd (pos fd) os ≡ none
      → ((g : ℕ) → g < fd → argfd (pos g) os ≢ none)
      → argfd (pos fd) os' ≡ some f
      → ((g : ℕ) → g ≢ fd → argfd (pos g) os' ≡ argfd (pos g) os)
      → FdAllocated f os r

open_some : (o : Option ℕ) → is_closed o ≡ false → o ≢ none
open_some none h e = cc
open_some (some f) h e = cc

closed_none : (o : Option ℕ) → is_closed o ≡ true → o ≡ none
closed_none none h = refl
closed_none (some f) h = cc

argfd-found :
    (i : ℕ) (o : Option ℕ) (os : List (Option ℕ)) → get_elem? os i ≡ some o → argfd (pos i) os ≡ o
unfolding argfd
argfd-found i o os e = rw (argfd, e)

-- `fdalloc` gives the lowest descriptor that is closed: `argfd` finds nothing under it before, the file from
-- then on, and under every other descriptor what it found before; or it returns -1 and changes nothing,
-- as every descriptor is open.
pub fdalloc-argfd : (f : ℕ) (os : List (Option ℕ)) → FdAllocated f os (fdalloc f os)
fdalloc-argfd f os = elim (Option-cases (find_index is_closed os)) [
  | inl h ↦
      none_closed (All-mono open_some os (find_index-none is_closed os h)) (fdalloc-none f os h)
  | inr (i, h) ↦
      let r = find_index-some is_closed os i h in
      let l = get_elem?-lt os i r.item r.found in
      opened i (set os i (some f)) (fdalloc-some f i os h) l
        (argfd-found i r.item os r.found ∙ closed_none r.item r.passes)
        (λ g u.
          let (o, at) = lt-get_elem? os g (omega (arith, u, l)) in
          λ e. open_some o (r.earlier g o u at) (sym (argfd-found g o os at) ∙ e))
        (argfd-set i f os l) (λ g off. argfd-set_ne i g f os off)
]
