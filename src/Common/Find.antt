-- ===== src/Common/Find.antt =====
-- Loops over a table that stop at their find, and updates of one entry in place.
use Prim.Native.Nat.{ℕ, zero, suc, ◌<◌}
use mathlib.Core.Path.{◌≡◌, refl, ap, sym, subst, ◌∙◌}
use mathlib.Core.Logic.{inl, inr, ◌⊎◌, ◌≢◌}
use mathlib.Core.Bool.{Bool, true, false}
use mathlib.Core.Option
use mathlib.Core.Option.{Option, none, some, some_inj}
use mathlib.Core.List.{List, [], ◌∷◌, map}
use native.Mathlib.Omega.{arith}
use native.Mathlib.Decide.{ℕ_discrete}
use ele.Common.Tests.{if◌then◌else◌, ◌==◌, Bool-cases}
use ele.Common.Lists.{length, length-set, get_elem?, get_elem?-set_self, get_elem?-set_ne, set, All}

module _ {ℓ} {A : Type ℓ} where
  -- The first index whose item passes the test: a loop that breaks at its find.
  unfoldable pub find_index : (A → Bool) → List A → Option ℕ
  find_index test [] = none
  find_index test (x ∷ xs) = if test x then some 0 else Option.map suc (find_index test xs)

  -- An update of one item in place; out of range it changes nothing.
  unfoldable pub modify : List A → ℕ → (A → A) → List A
  modify [] i f = []
  modify (x ∷ xs) zero f = f x ∷ xs
  modify (x ∷ xs) (suc i) f = x ∷ modify xs i f

module _ {ℓ} {A : Type ℓ} where
  -- What a find says of the items: the one found, and those passed over.
  pub record IsFirst (test : A → Bool) (xs : List A) (i : ℕ) : Type ℓ where
    pub item : A
    pub found : get_elem? xs i ≡ some item
    pub passes : test item ≡ true
    pub earlier : (j : ℕ) (y : A) → j < i → get_elem? xs j ≡ some y → test y ≡ false

  pub find_index-some :
      (test : A → Bool) (xs : List A) (i : ℕ) → find_index test xs ≡ some i → IsFirst test xs i
  unfolding find_index
  find_index-some test [] i e = cc
  find_index-some test (x ∷ xs) zero e = elim (Bool-cases (test x)) [
    | inl here ↦ record {
      item = x;
      found = refl;
      passes = here;
      earlier = λ j y lt g. absurd (omega arith);
    }
    | inr on ↦ absurd (ground (arith, on))
  ]
  find_index-some test (x ∷ xs) (suc i) e = elim (Bool-cases (test x)) [
    | inl here ↦ cc (rw here at e)
    | inr on ↦ later x on (find_index-some test xs i (ground (arith, on)))
  ]
    where
      later : (x : A) → test x ≡ false → IsFirst test xs i → IsFirst test (x ∷ xs) (suc i)
      later x on r = record {
        item = r.item;
        found = r.found;
        passes = r.passes;
        earlier = λ j y lt g.
            elim j as (λ j. j < suc i → get_elem? (x ∷ xs) j ≡ some y → test y ≡ false) [
              | zero ↦ λ lt g. rw (← some_inj.0 g) on
              | suc j ↦ λ lt g. r.earlier j y (omega arith) g
            ]
              lt g;
      }

  pub find_index-none :
      (test : A → Bool) (xs : List A) → find_index test xs ≡ none → All (λ x. test x ≡ false) xs
  unfolding find_index
  find_index-none test [] e = tt
  find_index-none test (x ∷ xs) e = elim (Bool-cases (test x)) [
    | inl yes_x ↦ cc (rw yes_x at e)
    | inr no_x ↦ (no_x, find_index-none test xs (ground (arith, rw no_x at e)))
  ]

  pub length-modify : (xs : List A) (i : ℕ) (f : A → A) → length (modify xs i f) ≡ length xs
  unfolding modify
  length-modify [] i f = refl
  length-modify (x ∷ xs) zero f = refl
  length-modify (x ∷ xs) (suc i) f = ap suc (length-modify xs i f)

  pub get_elem?-modify :
      (xs : List A) (i j : ℕ) (f : A → A)
      → get_elem? (modify xs i f) j
        ≡ (if i == j then Option.map f (get_elem? xs j) else get_elem? xs j)
  unfolding modify
  get_elem?-modify [] i j f = ground arith
  get_elem?-modify (x ∷ xs) zero zero f = refl
  get_elem?-modify (x ∷ xs) zero (suc j) f = ground arith
  get_elem?-modify (x ∷ xs) (suc i) zero f = ground arith
  get_elem?-modify (x ∷ xs) (suc i) (suc j) f = get_elem?-modify xs i j f ∙ ground arith

  pub get_elem?-lt : (xs : List A) (i : ℕ) (a : A) → get_elem? xs i ≡ some a → i < length xs
  get_elem?-lt [] i a e = cc
  get_elem?-lt (x ∷ xs) zero a e = omega arith
  get_elem?-lt (x ∷ xs) (suc i) a e = omega (arith, get_elem?-lt xs i a e)

  pub lt-get_elem? : (xs : List A) (i : ℕ) → i < length xs → (a : A) × (get_elem? xs i ≡ some a)
  lt-get_elem? [] i h = absurd (omega arith)
  lt-get_elem? (x ∷ xs) zero h = (x, refl)
  lt-get_elem? (x ∷ xs) (suc i) h = lt-get_elem? xs i (omega arith)

  pub get_elem?-map {κ} :
      {B : Type κ} (xs : List A) (i : ℕ) (f : A → B)
      → get_elem? (map f xs) i ≡ Option.map f (get_elem? xs i)
  get_elem?-map [] i f = refl
  get_elem?-map (x ∷ xs) zero f = refl
  get_elem?-map (x ∷ xs) (suc i) f = get_elem?-map xs i f

  pub All-map {κ ι} :
      (P : A → Type κ) (Q : A → Type ι) (f : A → A)
      → ((a : A) → P a → Q (f a))
      → (xs : List A) → All P xs
      → All Q (map f xs)
  All-map P Q f g [] h = tt
  All-map P Q f g (x ∷ xs) h = (g x h.0, All-map P Q f g xs h.1)

  pub All-modify {κ} :
      (P : A → Type κ) (f : A → A)
      → ((a : A) → P a → P (f a))
      → (xs : List A) (i : ℕ) → All P xs
      → All P (modify xs i f)
  unfolding modify
  All-modify P f g [] i h = tt
  All-modify P f g (x ∷ xs) zero h = (g x h.0, h.1)
  All-modify P f g (x ∷ xs) (suc i) h = (h.0, All-modify P f g xs i h.1)

module _ {ℓ} {A : Type ℓ} where
  pub modify-eq-set :
      (xs : List A) (i : ℕ) (f : A → A) {a : A}
      → get_elem? xs i ≡ some a
      → modify xs i f ≡ set xs i (f a)
  unfolding modify
  modify-eq-set [] i f e = cc
  modify-eq-set (x ∷ xs) zero f e = ap (λ y. f y ∷ xs) (some_inj.0 e)
  modify-eq-set (x ∷ xs) (suc i) f e = ap (λ ys. x ∷ ys) (modify-eq-set xs i f e)

  pub modify-set :
      (xs : List A) (i : ℕ) (a : A) (f : A → A) → modify (set xs i a) i f ≡ set xs i (f a)
  unfolding modify
  modify-set [] i a f = refl
  modify-set (x ∷ xs) zero a f = refl
  modify-set (x ∷ xs) (suc i) a f = ap (λ ys. x ∷ ys) (modify-set xs i a f)

  pub find_index-set :
      (test : A → Bool) (xs : List A) (i : ℕ) (a b : A)
      → get_elem? xs i ≡ some a
      → test b ≡ test a
      → find_index test (set xs i b) ≡ find_index test xs
  unfolding find_index
  find_index-set test [] i a b e t = refl
  find_index-set test (x ∷ xs) zero a b e t = rw (t, some_inj.0 e)
  find_index-set test (x ∷ xs) (suc i) a b e t = rw (find_index-set test xs i a b e t)

  -- The find stops at `i` when `i` passes and nothing before it does.
  pub find_index_here :
      (test : A → Bool) (xs : List A) (i : ℕ) (a : A)
      → get_elem? xs i ≡ some a
      → test a ≡ true
      → ((j : ℕ) (b : A) → get_elem? xs j ≡ some b → test b ≡ true → j ≡ i)
      → find_index test xs ≡ some i
  unfolding find_index
  find_index_here test [] i a e t only = cc
  find_index_here test (x ∷ xs) zero a e t only = rw (some_inj.0 e, t)
  find_index_here test (x ∷ xs) (suc i) a e t only = elim (Bool-cases (test x)) [
    | inl here ↦ absurd (omega (arith, only 0 x refl here))
    | inr on ↦ rw (
      on,
      find_index_here test xs i a e t
          (λ j b g s. let same : suc j ≡ suc i = only (suc j) b g s in omega (arith, same)),
    )
  ]

-- The run comes to a result, and the result has the property.
abbrev pub Returns {ℓ} : {A : Type ℓ} → Option A → (A → Type 0) → Type 0
Returns none P = ⊥
Returns (some a) P = P a

pub Returns-mono {ℓ} :
    {A : Type ℓ} (P Q : A → Type 0)
    → ((a : A) → P a → Q a)
    → (o : Option A) → Returns o P
    → Returns o Q
Returns-mono P Q f none h = h
Returns-mono P Q f (some a) h = f a h

-- A later step of a run, after a first one that comes to a result.
pub Returns-then {ℓ κ} :
    {A : Type ℓ} {B : Type κ} (P : A → Type 0) (Q : B → Type 0) (k : A → Option B)
    → ((a : A) → P a → Returns (k a) Q)
    → (o : Option A) → Returns o P
    → Returns (elim o [ none ↦ none | some a ↦ k a ]) Q
Returns-then P Q k f none h = h
Returns-then P Q k f (some a) h = f a h

-- What stands at an index after a write: the value written, or what stood there.
pub get_elem?-set_cases {ℓ} :
    {A : Type ℓ} (xs : List A) (i j : ℕ) (v : A) {b : A}
    → get_elem? (set xs i v) j ≡ some b
    → ((j ≡ i) × (v ≡ b)) ⊎ ((j ≢ i) × (get_elem? xs j ≡ some b))
get_elem?-set_cases xs i j v e = elim (ℕ_discrete j i) [
  | no off ↦ inr (off, sym (get_elem?-set_ne xs v (λ x. off (sym x))) ∙ e)
  | yes at ↦
      let e' : get_elem? (set xs i v) i ≡ some _ = rw at at e in
      let lt : i < length xs =
        subst (λ n. i < n) (length-set xs i v) (get_elem?-lt (set xs i v) i _ e') in
      inl (at, some_inj.0 (sym (get_elem?-set_self xs i v lt) ∙ e'))
]

pub map_inv {ℓ κ} :
    {A : Type ℓ} {B : Type κ} (xs : List A) (i : ℕ) (f : A → B) (b : B)
    → get_elem? (map f xs) i ≡ some b
    → (a : A) × (get_elem? xs i ≡ some a) × (f a ≡ b)
map_inv [] i f b e = cc
map_inv (x ∷ xs) zero f b e = (x, refl, some_inj.0 e)
map_inv (x ∷ xs) (suc i) f b e = map_inv xs i f b e

pub All-of {ℓ κ} :
    {A : Type ℓ} {P : A → Type κ} (xs : List A)
    → ((j : ℕ) (a : A) → get_elem? xs j ≡ some a → P a)
    → All P xs
All-of [] h = tt
All-of (x ∷ xs) h = (h 0 x refl, All-of xs (λ j a g. h (suc j) a g))
