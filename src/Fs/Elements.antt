-- ===== src/Fs/Elements.antt =====
-- The elements of a path of fs.c are what stands between its slashes.
use ele.Common.{
  ℕ, ◌==◌, ◌≡◌, ◌∙◌, refl, ap, sym, subst, arith, Bool-cases, inl, inr, if◌then◌else◌, true, false,
  none, some, List, [], ◌∷◌,
}
use ele.Fs.Path.{skip_slashes, element, after_element, put_name, skipelem}

-- The parts of a path between its slashes, empty ones too, and those that are not empty.
abbrev pub onto_first : ℕ → List (List ℕ) → List (List ℕ)
onto_first c [] = []
onto_first c (w ∷ ws) = (c ∷ w) ∷ ws

unfoldable pub split : List ℕ → List (List ℕ)
split [] = [] ∷ []
split (c ∷ p) = if c == 47 then [] ∷ split p else onto_first c (split p)

abbrev pub if_some : List ℕ → List (List ℕ) → List (List ℕ)
if_some [] ws = ws
if_some (c ∷ w) ws = (c ∷ w) ∷ ws

unfoldable pub nonempty : List (List ℕ) → List (List ℕ)
nonempty [] = []
nonempty (w ∷ ws) = if_some w (nonempty ws)

abbrev pub elements : List ℕ → List (List ℕ)
elements p = nonempty (split p)

abbrev later_parts : List ℕ → List (List ℕ)
later_parts [] = []
later_parts (c ∷ p) = split p

pub elements_nil : elements [] ≡ []
unfolding split nonempty
elements_nil = refl

split_first : (p : List ℕ) → split p ≡ element p ∷ later_parts (after_element p)
unfolding split element after_element
split_first [] = refl
split_first (c ∷ p) = elim (Bool-cases (c == 47)) [
  | inl slash ↦ rw (slash)
  | inr other ↦ rw (other, split_first p)
]

elements_slash : (c : ℕ) (p : List ℕ) → c ≡ 47 → elements (c ∷ p) ≡ elements p
unfolding split nonempty
elements_slash c p e = rw (e)

pub elements-skip_slashes : (p : List ℕ) → elements (skip_slashes p) ≡ elements p
unfolding skip_slashes
elements-skip_slashes [] = refl
elements-skip_slashes (c ∷ p) = elim (Bool-cases (c == 47)) [
  | inl slash ↦ rw (slash) (elements-skip_slashes p ∙ sym (elements_slash c p (ground arith)))
  | inr other ↦ rw (other)
]

later_elements :
    (p : List ℕ) → nonempty (later_parts (after_element p)) ≡ elements (after_element p)
unfolding after_element nonempty split
later_elements [] = refl
later_elements (c ∷ p) = elim (Bool-cases (c == 47)) [
  | inl slash ↦ rw (slash) (sym (elements_slash c p (ground arith)))
  | inr other ↦ rw (other) (later_elements p)
]

-- `skipelem` on what follows the slashes.
pub skip_none : (path name : List ℕ) → skip_slashes path ≡ [] → skipelem path name ≡ none
unfolding skipelem
skip_none path name e = rw (skipelem, e)

pub skip_some :
    (path name : List ℕ) (c : ℕ) (p : List ℕ)
    → skip_slashes path ≡ c ∷ p
    → skipelem path name
      ≡ some (skip_slashes (after_element (c ∷ p)), put_name (element (c ∷ p)) name)
unfolding skipelem
skip_some path name c p e = rw (skipelem, e)

-- What follows the slashes starts with another byte.
pub no_slash : (path : List ℕ) (c : ℕ) (p : List ℕ) → skip_slashes path ≡ c ∷ p → (c == 47) ≡ false
unfolding skip_slashes
no_slash [] c p e = cc
no_slash (b ∷ q) c p e = elim (Bool-cases (b == 47)) [
  | inl slash ↦ no_slash q c p (sym (skips slash) ∙ e)
  | inr other ↦ subst (λ x. (x == 47) ≡ false) (first (sym (stops other) ∙ e)) other
]
  where
    skips : (b == 47) ≡ true → skip_slashes (b ∷ q) ≡ skip_slashes q
    skips e = rw (skip_slashes, e)

    stops : (b == 47) ≡ false → skip_slashes (b ∷ q) ≡ b ∷ q
    stops e = rw (skip_slashes, e)

    first : {x y : ℕ} {s t : List ℕ} → x ∷ s ≡ y ∷ t → x ≡ y
    first e = cc

-- The elements of a path that starts with one.
pub elements_first :
    (c : ℕ) (p : List ℕ)
    → (c == 47) ≡ false
    → elements (c ∷ p) ≡ element (c ∷ p) ∷ elements (skip_slashes (after_element (c ∷ p)))
unfolding nonempty element
elements_first c p other =
    ap nonempty (split_first (c ∷ p))
    ∙ ap (λ w. if_some w (nonempty (later_parts (after_element (c ∷ p))))) (starts c p other)
    ∙ ap (λ w. w ∷ nonempty (later_parts (after_element (c ∷ p)))) (sym (starts c p other))
    ∙ ap (λ ws. element (c ∷ p) ∷ ws)
        (later_elements (c ∷ p) ∙ sym (elements-skip_slashes (after_element (c ∷ p))))
  where
    starts : (c : ℕ) (p : List ℕ) → (c == 47) ≡ false → element (c ∷ p) ≡ c ∷ element p
    starts c p e = rw (element, e)
