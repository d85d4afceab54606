-- ===== src/Str/Name.antt =====
-- `strncpy` and `strncmp` of string.c: a copy of a name compares equal to it.
use ele.Common.{
  ℕ, zero, suc, ◌+◌, ◌<◌, ◌≤◌, ◌≡◌, ◌≢◌, ◌∙◌, ◌⊎◌, inl, inr, refl, sym, ap, arith, ℕ_discrete, ◌==◌,
  ◌&&◌, not, true, false, if◌then◌else◌, pos, sub_ℕ,
}
use ele.Str.{Memory, store, strncmp, fill_zero, strncpy}

store_self : (a v : ℕ) (m : Memory) → store a v m a ≡ v
store_self a v m = ground arith

store_ne : (a v b : ℕ) (m : Memory) → a ≢ b → store a v m b ≡ m b
store_ne a v b m off = ground arith

-- An address outside the `n` from `s` on.
abbrev pub IsBeyond : ℕ → ℕ → ℕ → Type 0
IsBeyond s n a = (a < s) ⊎ (s + n ≤ a)

IsBeyond-tail : (s n a : ℕ) → IsBeyond s (suc n) a → IsBeyond (s + 1) n a
IsBeyond-tail s n a (inl h) = inl (omega (arith, h))
IsBeyond-tail s n a (inr h) = inr (omega (arith, h))

IsBeyond-ne : (s n a : ℕ) → IsBeyond s (suc n) a → s ≢ a
IsBeyond-ne s n a (inl h) e = omega (arith, h, e)
IsBeyond-ne s n a (inr h) e = omega (arith, h, e)

fill_zero-IsBeyond : (n s : ℕ) (m : Memory) (a : ℕ) → IsBeyond s n a → fill_zero s n m a ≡ m a
unfolding fill_zero
fill_zero-IsBeyond zero s m a out = refl
fill_zero-IsBeyond (suc n) s m a out =
    fill_zero-IsBeyond n (s + 1) (store s 0 m) a (IsBeyond-tail s n a out)
    ∙ store_ne s 0 a m (IsBeyond-ne s n a out)

module _ (n s t : ℕ) (m : Memory) where
  strncpy_end : m t ≡ 0 → strncpy s t (suc n) m ≡ fill_zero (s + 1) n (store s (m t) m)
  unfolding strncpy
  strncpy_end z =
      ap
        (λ b.
          if b
          then fill_zero (s + 1) n (store s (m t) m)
          else strncpy (s + 1) (t + 1) n (store s (m t) m))
        (at_zero (m t) z)
    where
      at_zero : (v : ℕ) → v ≡ 0 → (v == 0) ≡ true
      at_zero v h = ground arith

  strncpy_next : m t ≢ 0 → strncpy s t (suc n) m ≡ strncpy (s + 1) (t + 1) n (store s (m t) m)
  unfolding strncpy
  strncpy_next nz =
      ap
        (λ b.
          if b
          then fill_zero (s + 1) n (store s (m t) m)
          else strncpy (s + 1) (t + 1) n (store s (m t) m))
        (nonzero (m t) nz)
    where
      nonzero : (v : ℕ) → v ≢ 0 → (v == 0) ≡ false
      nonzero v h = ground arith

pub strncpy-IsBeyond : (n s t : ℕ) (m : Memory) (a : ℕ) → IsBeyond s n a → strncpy s t n m a ≡ m a
unfolding strncpy
strncpy-IsBeyond zero s t m a out = refl
strncpy-IsBeyond (suc n) s t m a out = elim (ℕ_discrete (m t) 0) [
  | yes z ↦
      ap (λ r. r a) (strncpy_end n s t m z)
      ∙ fill_zero-IsBeyond n (s + 1) (store s (m t) m) a (IsBeyond-tail s n a out)
      ∙ store_ne s (m t) a m (IsBeyond-ne s n a out)
  | no nz ↦
      ap (λ r. r a) (strncpy_next n s t m nz)
      ∙ strncpy-IsBeyond n (s + 1) (t + 1) (store s (m t) m) a (IsBeyond-tail s n a out)
      ∙ store_ne s (m t) a m (IsBeyond-ne s n a out)
]

-- `r` from `q` on is the string of `m` from `p` on, up to its end or `n` bytes.
abbrev pub IsSameName : ℕ → ℕ → ℕ → Memory → Memory → Type 0
IsSameName n p q m r = (j : ℕ) → j < n → ((i : ℕ) → i < j → m (p + i) ≢ 0) → r (q + j) ≡ m (p + j)

-- The two blocks of `n` bytes do not meet.
abbrev pub AreApart : ℕ → ℕ → ℕ → Type 0
AreApart n s t = (s + n ≤ t) ⊎ (t + n ≤ s)

AreApart-IsBeyond : (n s t j : ℕ) → AreApart n s t → j < n → IsBeyond s n (t + j)
AreApart-IsBeyond n s t j (inl h) l = inr (omega (arith, h, l))
AreApart-IsBeyond n s t j (inr h) l = inl (omega (arith, h, l))

AreApart-tail : (n s t : ℕ) → AreApart (suc n) s t → AreApart n (s + 1) (t + 1)
AreApart-tail n s t (inl h) = inl (omega (arith, h))
AreApart-tail n s t (inr h) = inr (omega (arith, h))

no_offset : (a : ℕ) → a + 0 ≡ a
no_offset a = omega arith

one_on : (a j : ℕ) → a + 1 + j ≡ a + suc j
one_on a j = omega arith

pub strncpy-IsSameName :
    (n s t : ℕ) (m : Memory) → AreApart n s t → IsSameName n t s m (strncpy s t n m)
strncpy-IsSameName zero s t m h j l text = absurd (omega (arith, l))
strncpy-IsSameName (suc n) s t m h zero l text =
    ap (strncpy s t (suc n) m) (no_offset s)
    ∙ elim (ℕ_discrete (m t) 0) [
      | yes z ↦
          ap (λ r. r s) (strncpy_end n s t m z)
          ∙ fill_zero-IsBeyond n (s + 1) (store s (m t) m) s (inl (omega arith))
      | no nz ↦
          ap (λ r. r s) (strncpy_next n s t m nz)
          ∙ strncpy-IsBeyond n (s + 1) (t + 1) (store s (m t) m) s (inl (omega arith))
    ]
    ∙ store_self s (m t) m
    ∙ ap m (sym (no_offset t))
strncpy-IsSameName (suc n) s t m h (suc j) l text =
    let nz : m t ≢ 0 = λ z. text 0 (omega arith) (ap m (no_offset t) ∙ z) in
    let m' = store s (m t) m in
    let old : (i : ℕ) → i < n → m' (t + 1 + i) ≡ m (t + suc i) = λ i u.
      store_ne s (m t) (t + 1 + i) m (λ e.
        IsBeyond-ne s n (t + suc i) (AreApart-IsBeyond (suc n) s t (suc i) h (omega (arith, u)))
          (e ∙ one_on t i))
      ∙ ap m (one_on t i) in
    ap (strncpy s t (suc n) m) (sym (one_on s j))
    ∙ ap (λ r. r (s + 1 + j)) (strncpy_next n s t m nz)
    ∙ strncpy-IsSameName n (s + 1) (t + 1) m' (AreApart-tail n s t h) j (omega (arith, l))
        (λ i u z. text (suc i) (omega (arith, u)) (sym (old i (omega (arith, u, l))) ∙ z))
    ∙ old j (omega (arith, l))

text_from :
    (m : Memory) (p j : ℕ)
    → m p ≢ 0
    → ((i : ℕ) → i < j → m (p + 1 + i) ≢ 0)
    → (i : ℕ) → i < suc j
    → m (p + i) ≢ 0
text_from m p j nz text zero u z = nz (ap m (sym (no_offset p)) ∙ z)
text_from m p j nz text (suc i) u z = text i (omega (arith, u)) (ap m (one_on p i) ∙ z)

-- A name compares equal to one that is the same.
pub strncmp_same : (n p q : ℕ) (m : Memory) → IsSameName n p q m m → strncmp p q n m ≡ pos 0
unfolding strncmp
strncmp_same zero p q m h = refl
strncmp_same (suc n) p q m h = elim (ℕ_discrete (m p) 0) [
  | yes z ↦ ends (m p) (m q) z first
  | no nz ↦
      goes_on (m p) (m q) nz first
      ∙ strncmp_same n (p + 1) (q + 1) m (λ j l text.
        ap m (one_on q j)
        ∙ h (suc j) (omega (arith, l)) (text_from m p j nz text)
        ∙ ap m (sym (one_on p j)))
]
  where
    first : m q ≡ m p
    first =
        ap m (sym (no_offset q))
        ∙ h 0 (omega arith) (λ i u. absurd (omega (arith, u)))
        ∙ ap m (no_offset p)

    ends :
        (a b : ℕ)
        → a ≡ 0
        → b ≡ a
        → (if not (a == 0) && (a == b) then strncmp (p + 1) (q + 1) n m else sub_ℕ a b) ≡ pos 0
    ends a b z e = ground arith

    goes_on :
        (a b : ℕ)
        → a ≢ 0
        → b ≡ a
        → (if not (a == 0) && (a == b) then strncmp (p + 1) (q + 1) n m else sub_ℕ a b)
          ≡ strncmp (p + 1) (q + 1) n m
    goes_on a b nz e = ground arith
