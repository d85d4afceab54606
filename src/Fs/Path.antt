-- ===== src/Fs/Path.antt =====
-- `skipelem` of fs.c and the loop of `namex` over the elements of a path. A string is the list of its bytes
-- before the one that ends it; 47 is `/`, and a name has 14 bytes.
use ele.Common.{
  ℕ, zero, suc, ◌+◌, ◌==◌, leb, if◌then◌else◌, Option, none, some, List, [], ◌∷◌, ◌++◌, length,
  take, drop,
}

unfoldable pub skip_slashes : List ℕ → List ℕ
skip_slashes [] = []
skip_slashes (c ∷ p) = if c == 47 then skip_slashes p else c ∷ p

-- The bytes up to the next slash, and the path from there on.
unfoldable pub element : List ℕ → List ℕ
element [] = []
element (c ∷ p) = if c == 47 then [] else c ∷ element p

unfoldable pub after_element : List ℕ → List ℕ
after_element [] = []
after_element (c ∷ p) = if c == 47 then c ∷ p else after_element p

-- The first 14 bytes, or all of them and a NUL over what was in `name`.
unfoldable pub put_name : List ℕ → List ℕ → List ℕ
put_name s name = if leb 14 (length s) then take 14 s else s ++ (0 ∷ drop (length s + 1) name)

unfoldable pub skipelem : List ℕ → List ℕ → Option (List ℕ × List ℕ)
skipelem path name = elim (skip_slashes path) [
  | [] ↦ none
  | c ∷ p ↦ some (skip_slashes (after_element (c ∷ p)), put_name (element (c ∷ p)) name)
]

-- The name in a buffer, up to its NUL.
unfoldable pub until_nul : List ℕ → List ℕ
until_nul [] = []
until_nul (c ∷ s) = if c == 0 then [] else c ∷ until_nul s

-- The names that the loop of `namex` looks up, in `n` rounds at most, if no round leaves the loop: it does so
-- at an inode that is not a directory, at a name that `dirlookup` does not find, and before the last name of
-- the path for `nameiparent`.
unfoldable pub names : ℕ → List ℕ → List ℕ → List (List ℕ)
names zero path name = []
names (suc n) path name = elim (skipelem path name) [
  | none ↦ []
  | some (rest, name') ↦ until_nul name' ∷ names n rest name'
]
