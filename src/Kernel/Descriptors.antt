-- ===== src/Kernel/Descriptors.antt =====
-- The open files of a process in project01/xv6-public/proc.c, and the reference counts of file.c.
use ele.Common.{
  ℕ, ◌+◌, ◌<◌, ◌≤◌, ◌≡◌, refl, ap, ◌∙◌, Option, none, some, List, [], ◌∷◌, arith, ◌==◌,
  if◌then◌else◌, length, All, All-mono,
}
use ele.File.{File, filedup}
use ele.File.Refs.{ref_at, filedup_lem}
use ele.Kernel.{dup_fds}

-- A descriptor that is closed, or refers to a file with references.
abbrev pub IsLive : List File → Option ℕ → Type 0
IsLive fs none = Unit
IsLive fs (some f) = 0 < ref_at fs f

-- How many descriptors refer to file `g`.
unfoldable pub count_fd : ℕ → List (Option ℕ) → ℕ
count_fd g [] = 0
count_fd g (none ∷ cs) = count_fd g cs
count_fd g (some f ∷ cs) = (if f == g then 1 else 0) + count_fd g cs

-- The parent's descriptors, over what the child's slot held.
unfoldable pub overlay : List (Option ℕ) → List (Option ℕ) → List (Option ℕ)
overlay [] os = os
overlay (c ∷ cs) [] = []
overlay (none ∷ cs) (o ∷ os) = o ∷ overlay cs os
overlay (some f ∷ cs) (o ∷ os) = some f ∷ overlay cs os

pub overlay-closed :
    (cs os : List (Option ℕ)) → length cs ≡ length os → All (λ o. o ≡ none) os → overlay cs os ≡ cs
unfolding overlay
overlay-closed [] [] e h = refl
overlay-closed [] (o ∷ os) e h = absurd (omega arith)
overlay-closed (c ∷ cs) [] e h = absurd (omega arith)
overlay-closed (none ∷ cs) (o ∷ os) e h =
    ap (λ a. a ∷ overlay cs os) h.0 ∙ ap (λ l. none ∷ l) (overlay-closed cs os (omega arith) h.1)
overlay-closed (some f ∷ cs) (o ∷ os) e h =
    ap (λ l. some f ∷ l) (overlay-closed cs os (omega arith) h.1)

dup_fds-none :
    (o : Option ℕ) (cs os : List (Option ℕ)) (fs fs' : List File)
    → dup_fds cs os fs ≡ some (overlay cs os, fs')
    → dup_fds (none ∷ cs) (o ∷ os) fs ≡ some (overlay (none ∷ cs) (o ∷ os), fs')
unfolding dup_fds overlay
dup_fds-none o cs os fs fs' e = rw (e, dup_fds)

dup_fds-some :
    (f : ℕ) (o : Option ℕ) (cs os : List (Option ℕ)) (fs fs1 fs' : List File)
    → filedup f fs ≡ some fs1
    → dup_fds cs os fs1 ≡ some (overlay cs os, fs')
    → dup_fds (some f ∷ cs) (o ∷ os) fs ≡ some (overlay (some f ∷ cs) (o ∷ os), fs')
unfolding dup_fds overlay
dup_fds-some f o cs os fs fs1 fs' d e = rw (d, dup_fds, e, dup_fds)

IsLive-grow :
    (fs fs1 : List File)
    → ((g : ℕ) → ref_at fs g ≤ ref_at fs1 g)
    → (o : Option ℕ) → IsLive fs o
    → IsLive fs1 o
IsLive-grow fs fs1 up none h = tt
IsLive-grow fs fs1 up (some f) h = omega (arith, up f)

pub dup_fds_lem :
    (cs os : List (Option ℕ)) (fs : List File)
    → length cs ≡ length os
    → All (IsLive fs) cs
    → (fs' : List File) × (dup_fds cs os fs ≡ some (overlay cs os, fs'))
      × ((g : ℕ) → ref_at fs' g ≡ ref_at fs g + count_fd g cs)
unfolding dup_fds overlay count_fd
dup_fds_lem [] os fs e h = (fs, refl, λ g. omega arith)
dup_fds_lem (c ∷ cs) [] fs e h = absurd (omega arith)
dup_fds_lem (none ∷ cs) (o ∷ os) fs e h =
    let (fs', done, refs) = dup_fds_lem cs os fs (omega arith) h.1 in
    (fs', dup_fds-none o cs os fs fs' done, refs)
dup_fds_lem (some f ∷ cs) (o ∷ os) fs e h =
    let (fs1, first, up) = filedup_lem f fs h.0 in
    let (fs', done, refs) =
      dup_fds_lem cs os fs1 (omega arith)
        (All-mono (IsLive-grow fs fs1 (λ g. ground (arith, up g))) cs h.1) in
    (fs', dup_fds-some f o cs os fs fs1 fs' first done, λ g. ground (arith, refs g, up g))
