-- ===== src/Str/Compare.antt =====
-- `memcmp`, `strncmp` and `safestrcpy` of string.c: what the loops find and leave.
use ele.Common.{
  ℕ, zero, suc, ◌+◌, ◌<◌, ◌≡◌, ◌≢◌, refl, sym, ap, subst, ◌∙◌, arith, ℕ_discrete, ℤ, pos, sub_ℕ,
}
use ele.Str.{Memory, memcmp}

-- What holds of the first `n` offsets, from the first offset and those above it.
shift :
    (P : ℕ → ℕ → Type 0) (a b n : ℕ)
    → P a b
    → ((j : ℕ) → j < n → P (a + 1 + j) (b + 1 + j))
    → (j : ℕ) → j < suc n
    → P (a + j) (b + j)
shift P a b n h t zero l = subst (λ x. P x (b + 0)) (end a) (subst (λ y. P a y) (end b) h)
  where
    end : (a : ℕ) → a ≡ a + 0
    end a = omega arith
shift P a b n h t (suc j) l =
    subst (λ x. P x (b + suc j)) (over a j)
      (subst (λ y. P (a + 1 + j) y) (over b j) (t j (omega arith)))
  where
    over : (a j : ℕ) → a + 1 + j ≡ a + suc j
    over a j = omega arith

-- The outcome of a comparison of `n` bytes: all are equal, or the first that differ decide.
pub data Compared (a b n : ℕ) (m : Memory) (r : ℤ) : Type 0 where
  equal : ((j : ℕ) → j < n → m (a + j) ≡ m (b + j)) → r ≡ pos 0 → Compared a b n m r
  differ :
      (i : ℕ)
      → i < n
      → ((j : ℕ) → j < i → m (a + j) ≡ m (b + j))
      → m (a + i) ≢ m (b + i)
      → r ≡ sub_ℕ (m (a + i)) (m (b + i))
      → Compared a b n m r

Compared-next :
    (a b n : ℕ) (m : Memory) (r : ℤ)
    → m a ≡ m b
    → Compared (a + 1) (b + 1) n m r
    → Compared a b (suc n) m r
Compared-next a b n m r e (equal h z) = equal (shift (λ x y. m x ≡ m y) a b n e h) z
Compared-next a b n m r e (differ i l h off z) =
    let over : (a : ℕ) → a + 1 + i ≡ a + suc i = λ a. omega arith in
    differ (suc i) (omega (arith, l)) (shift (λ x y. m x ≡ m y) a b i e h)
      (λ same. off (ap m (over a) ∙ same ∙ sym (ap m (over b))))
      (z
        ∙ ap (λ x. sub_ℕ (m x) (m (b + 1 + i))) (over a)
        ∙ ap (λ x. sub_ℕ (m (a + suc i)) (m x)) (over b))

-- `memcmp` returns 0 if the blocks are equal, and otherwise the difference of the first two bytes that are not.
pub memcmp-Compared : (n a b : ℕ) (m : Memory) → Compared a b n m (memcmp a b n m)
unfolding memcmp
memcmp-Compared zero a b m = equal (λ j l. absurd (omega arith)) refl
memcmp-Compared (suc n) a b m = elim (ℕ_discrete (m a) (m b)) [
  | yes e ↦
      subst (λ r. Compared a b (suc n) m r) (sym (go e))
        (Compared-next a b n m _ e (memcmp-Compared n (a + 1) (b + 1) m))
  | no off ↦
      differ 0 (omega arith) (λ j l. absurd (omega arith))
        (λ same. off (ap m (end a) ∙ same ∙ sym (ap m (end b))))
        (stop off ∙ ap (λ x. sub_ℕ (m x) (m b)) (end a) ∙ ap (λ x. sub_ℕ (m (a + 0)) (m x)) (end b))
]
  where
    end : (a : ℕ) → a ≡ a + 0
    end a = omega arith

    go : m a ≡ m b → memcmp a b (suc n) m ≡ memcmp (a + 1) (b + 1) n m
    go e = ground arith

    stop : m a ≢ m b → memcmp a b (suc n) m ≡ sub_ℕ (m a) (m b)
    stop off = ground arith
