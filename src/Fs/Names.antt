-- ===== src/Fs/Names.antt =====
-- The loop over `skipelem` in fs.c ends, and has then seen every element of the path.
use ele.Common.{
  ℕ, zero, suc, ◌+◌, ◌<◌, ◌≤◌, ◌==◌, leb, ◌≡◌, ◌≢◌, ◌∙◌, refl, ap, sym, subst, arith, Bool-cases,
  inl, inr, true, false, none, some, List, [], ◌∷◌, ◌++◌, length, take, drop, map, All,
}
use ele.Fs.Path.{skip_slashes, element, after_element, put_name, skipelem, until_nul, names}
use ele.Fs.Elements.{
  elements, elements_nil, elements-skip_slashes, elements_first, skip_none, skip_some, no_slash,
}

-- No byte is the one that ends a string.
abbrev pub IsString : List ℕ → Type 0
IsString = All (λ c. c ≢ 0)

module _ (c : ℕ) (p : List ℕ) where
  skips : (c == 47) ≡ true → skip_slashes (c ∷ p) ≡ skip_slashes p
  unfolding skip_slashes
  skips e = rw (skip_slashes, e)

  stops : (c == 47) ≡ false → skip_slashes (c ∷ p) ≡ c ∷ p
  unfolding skip_slashes
  stops e = rw (skip_slashes, e)

  passes : (c == 47) ≡ false → after_element (c ∷ p) ≡ after_element p
  unfolding after_element
  passes e = rw (after_element, e)

  stays : (c == 47) ≡ true → after_element (c ∷ p) ≡ c ∷ p
  unfolding after_element
  stays e = rw (after_element, e)

  takes : (c == 47) ≡ false → element (c ∷ p) ≡ c ∷ element p
  unfolding element
  takes e = rw (element, e)

  ends : (c == 47) ≡ true → element (c ∷ p) ≡ []
  unfolding element
  ends e = rw (element, e)

-- What holds of all tails of a path holds of what `skip_slashes` and `after_element` leave.
pub skip_slashes-tail :
    (P : List ℕ → Type 0)
    → ((c : ℕ) (p : List ℕ) → P (c ∷ p) → P p)
    → (p : List ℕ) → P p
    → P (skip_slashes p)
unfolding skip_slashes
skip_slashes-tail P t [] h = h
skip_slashes-tail P t (c ∷ p) h = elim (Bool-cases (c == 47)) [
  | inl slash ↦ subst P (sym (skips c p slash)) (skip_slashes-tail P t p (t c p h))
  | inr other ↦ subst P (sym (stops c p other)) h
]

pub after_element-tail :
    (P : List ℕ → Type 0)
    → ((c : ℕ) (p : List ℕ) → P (c ∷ p) → P p)
    → (p : List ℕ) → P p
    → P (after_element p)
unfolding after_element
after_element-tail P t [] h = h
after_element-tail P t (c ∷ p) h = elim (Bool-cases (c == 47)) [
  | inl slash ↦ subst P (sym (stays c p slash)) h
  | inr other ↦ subst P (sym (passes c p other)) (after_element-tail P t p (t c p h))
]

pub element-IsString : (p : List ℕ) → IsString p → IsString (element p)
unfolding element
element-IsString [] h = h
element-IsString (c ∷ p) h = elim (Bool-cases (c == 47)) [
  | inl slash ↦ subst IsString (sym (ends c p slash)) tt
  | inr other ↦ subst IsString (sym (takes c p other)) (h.0, element-IsString p h.1)
]

until_nul_cons : (c : ℕ) (s : List ℕ) → c ≢ 0 → until_nul (c ∷ s) ≡ c ∷ until_nul s
unfolding until_nul
until_nul_cons c s nz = rw (until_nul, nonzero c nz)
  where
    nonzero : (c : ℕ) → c ≢ 0 → (c == 0) ≡ false
    nonzero c h = ground arith

until_nul-take : (n : ℕ) (s : List ℕ) → IsString s → until_nul (take n s) ≡ take n s
unfolding until_nul
until_nul-take zero s h = refl
until_nul-take (suc n) [] h = refl
until_nul-take (suc n) (c ∷ s) h =
    until_nul_cons c (take n s) h.0 ∙ ap (λ t. c ∷ t) (until_nul-take n s h.1)

until_nul-++ : (s t : List ℕ) → IsString s → until_nul (s ++ (0 ∷ t)) ≡ s
unfolding until_nul
until_nul-++ [] t h = refl
until_nul-++ (c ∷ s) t h =
    until_nul_cons c (s ++ (0 ∷ t)) h.0 ∙ ap (λ u. c ∷ u) (until_nul-++ s t h.1)

take_all : (n : ℕ) (s : List ℕ) → length s ≤ n → take n s ≡ s
take_all zero [] h = refl
take_all zero (c ∷ s) h = absurd (omega (arith, h))
take_all (suc n) [] h = refl
take_all (suc n) (c ∷ s) h = ap (λ t. c ∷ t) (take_all n s (omega (arith, h)))

-- A name in its buffer is the element, cut after 14 bytes.
pub until_nul-put_name : (s name : List ℕ) → IsString s → until_nul (put_name s name) ≡ take 14 s
unfolding put_name
until_nul-put_name s name h = elim (Bool-cases (leb 14 (length s))) [
  | inl long ↦ ap until_nul (cut long) ∙ until_nul-take 14 s h
  | inr short ↦
      ap until_nul (whole short)
      ∙ until_nul-++ s (drop (length s + 1) name) h
      ∙ sym (take_all 14 s (ground (arith, short)))
]
  where
    cut : leb 14 (length s) ≡ true → put_name s name ≡ take 14 s
    cut e = rw (put_name, e)

    whole : leb 14 (length s) ≡ false → put_name s name ≡ s ++ (0 ∷ drop (length s + 1) name)
    whole e = rw (put_name, e)

module _ (n : ℕ) (path name : List ℕ) where
  names_end : skipelem path name ≡ none → names (suc n) path name ≡ []
  unfolding names
  names_end e = rw (names, e)

  names_next :
      (rest name' : List ℕ)
      → skipelem path name ≡ some (rest, name')
      → names (suc n) path name ≡ until_nul name' ∷ names n rest name'
  unfolding names
  names_next rest name' e = rw (names, e)

pub shorter :
    (k c : ℕ) (p : List ℕ)
    → (c == 47) ≡ false
    → length (c ∷ p) ≤ k
    → length (skip_slashes (after_element (c ∷ p))) < k
shorter k c p other h =
    subst (λ q. length (skip_slashes q) < k) (sym (passes c p other))
      (skip_slashes-tail (λ q. length q < k) (λ b q l. omega (arith, l)) (after_element p)
        (after_element-tail (λ q. length q < k) (λ b q l. omega (arith, l)) p (omega (arith, h))))

-- The loop of `namex` ends within one round more than the path has bytes. The names that it looks up, if no look-up fails and
-- it does not stop for `nameiparent`, are, in their
-- order, the parts of the path between slashes that are not empty, each cut after 14 bytes, whatever the
-- buffer held before.
pub names-elements :
    (n : ℕ) (path name : List ℕ)
    → length path < n
    → IsString path
    → names n path name ≡ map (take 14) (elements path)
unfolding names
names-elements zero path name l h = absurd (omega (arith, l))
names-elements (suc n) path name l h =
    go (skip_slashes path) refl (skip_slashes-tail IsString (λ c p s. s.1) path h)
      (skip_slashes-tail (λ p. length p ≤ n) (λ c p s. omega (arith, s)) path (omega (arith, l)))
      (λ rest name' k s. names-elements n rest name' k s)
  where
    go :
        (q : List ℕ)
        → skip_slashes path ≡ q
        → IsString q
        → length q ≤ n
        → ((rest name' : List ℕ)
            → length rest < n
            → IsString rest
            → names n rest name' ≡ map (take 14) (elements rest))
        → names (suc n) path name ≡ map (take 14) (elements path)
    go [] e s k later =
        names_end n path name (skip_none path name e)
        ∙ ap (map (take 14)) (sym elements_nil ∙ ap elements (sym e) ∙ elements-skip_slashes path)
    go (c ∷ p) e s k later =
        let other = no_slash path c p e in
        let rest = skip_slashes (after_element (c ∷ p)) in
        let name' = put_name (element (c ∷ p)) name in
        let tail : (c : ℕ) (p : List ℕ) → IsString (c ∷ p) → IsString p = λ c p s. s.1 in
        names_next n path name rest name' (skip_some path name c p e)
        ∙ ap (λ w. w ∷ names n rest name')
            (until_nul-put_name (element (c ∷ p)) name (element-IsString (c ∷ p) s))
        ∙ ap (λ ws. take 14 (element (c ∷ p)) ∷ ws)
            (later rest name' (shorter n c p other k) (
              skip_slashes-tail IsString tail (after_element (c ∷ p))
                (after_element-tail IsString tail (c ∷ p) s)))
        ∙ ap (map (take 14))
            (sym (elements_first c p other) ∙ ap elements (sym e) ∙ elements-skip_slashes path)
