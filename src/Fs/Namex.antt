-- ===== src/Fs/Namex.antt =====
-- `namex` of fs.c, with `namei` and `nameiparent` as its two modes. An inode is of any type `N`: `is_dir`
-- says whether it is a directory, and `lookup` is what `dirlookup` finds in it under a name.
use ele.Common.{
  ℕ, zero, suc, ◌+◌, ◌==◌, true, false, Bool, ◌&&◌, if◌then◌else◌, Option, none, some, List, [],
  ◌∷◌, length,
}
use ele.Fs.Path.{skipelem, until_nul}

abbrev is_nil : {A : Type 0} → List A → Bool
is_nil [] = true
is_nil (x ∷ xs) = false

abbrev is_absolute : List ℕ → Bool
is_absolute [] = false
is_absolute (c ∷ p) = c == 47

module _ {N : Type 0} (is_dir : N → Bool) (lookup : N → List ℕ → Option N) where
  -- One round of the loop, with the name that `skipelem` has left, and the rounds behind it.
  abbrev namex_step :
      Bool → N → List ℕ → List ℕ → (N → Option (N × Option (List ℕ))) → Option (N × Option (List ℕ))
  namex_step parent ip rest name later = elim (is_dir ip) [
    | false ↦ none
    | true ↦ elim (parent && is_nil rest) [
      | true ↦ some (ip, some name)
      | false ↦ elim (lookup ip name) [ none ↦ none | some next ↦ later next ]
    ]
  ]

  -- The loop of `namex`, with fuel: the inode, and for `nameiparent` the name in the buffer.
  unfoldable namex_loop : ℕ → Bool → List ℕ → List ℕ → N → Option (N × Option (List ℕ))
  namex_loop zero parent path name ip = none
  namex_loop (suc n) parent path name ip = elim (skipelem path name) [
    | none ↦ if parent then none else some (ip, none)
    | some (rest, name') ↦
        namex_step parent ip rest (until_nul name') (namex_loop n parent rest name')
  ]

  unfoldable pub namex : Bool → List ℕ → List ℕ → N → N → Option (N × Option (List ℕ))
  unfolding namex_loop
  namex parent path name root cwd =
      namex_loop (length path + 1) parent path name (if is_absolute path then root else cwd)

  -- The inode that the names lead to from `ip`; for `parent`, the one before the last, with the last name.
  unfoldable pub resolve : Bool → N → List (List ℕ) → Option (N × Option (List ℕ))
  resolve true ip [] = none
  resolve false ip [] = some (ip, none)
  resolve parent ip (w ∷ ws) =
      if is_dir ip
      then (if parent && is_nil ws
          then some (ip, some w)
          else elim (lookup ip w) [ none ↦ none | some next ↦ resolve parent next ws ])
      else none
