-- ===== src/Str/Copy.antt =====
-- `safestrcpy` of string.c: a copy that always ends in a zero byte and stays in its buffer.
use ele.Common.{
  ℕ, zero, suc, ◌+◌, ◌<◌, ◌≤◌, ◌≡◌, ◌≢◌, refl, sym, ap, subst, ◌∙◌, arith, ℕ_discrete, inl, inr,
  ◌⊎◌, pos,
}
use ele.Str.{Memory, store, copy_string, safestrcpy}

-- The memory `r` holds at `s`, in a buffer of `n` bytes, the string that stands at `t` in `m`, or as much of it as fits.
pub record IsCopied (s t n : ℕ) (m r : Memory) : Type 0 where
  pub len : ℕ
  pub fits : len < n
  pub ended : r (s + len) ≡ 0
  pub copied : (j : ℕ) → j < len → r (s + j) ≡ m (t + j)
  pub text : (j : ℕ) → j < len → m (t + j) ≢ 0
  pub whole : (m (t + len) ≡ 0) ⊎ (suc len ≡ n)
  pub outside : (a : ℕ) → (a < s) ⊎ (s + n ≤ a) → r a ≡ m a

abbrev pub Apart : ℕ → ℕ → ℕ → Type 0
Apart s t n = (t + n ≤ s) ⊎ (s + n ≤ t)

over : (a j : ℕ) → a + 1 + j ≡ a + suc j
over a j = omega arith

start : (a : ℕ) → a + 0 ≡ a
start a = omega arith

store-here : (b v : ℕ) (m : Memory) → store b v m b ≡ v
store-here b v m = ground arith

store-other : (b v : ℕ) (m : Memory) (a : ℕ) → a ≢ b → store b v m a ≡ m a
store-other b v m a off = ground arith

off_block : (s n a : ℕ) → 0 < n → (a < s) ⊎ (s + n ≤ a) → a ≢ s
off_block s n a h (inl l) e = omega arith
off_block s n a h (inr l) e = omega arith

source-off : (s t n j : ℕ) → Apart s t n → j < n → t + j ≢ s
source-off s t n j (inl h) l e = omega arith
source-off s t n j (inr h) l e = omega (arith, h, l, e)

IsCopied-next :
    (s t n : ℕ) (m r : Memory)
    → 0 < n
    → Apart s t (suc n)
    → m t ≢ 0
    → IsCopied (s + 1) (t + 1) n (store s (m t) m) r
    → IsCopied s t (suc n) m r
IsCopied-next s t n m r some_left apart nz h =
    let same : (j : ℕ) → j < n → store s (m t) m (t + 1 + j) ≡ m (t + suc j) = λ j l.
      store-other s (m t) m (t + 1 + j)
        (λ e. source-off s t (suc n) (suc j) apart (omega (arith, l)) (sym (over t j) ∙ e))
      ∙ ap m (over t j) in
    record {
      len = suc (h.len);
      fits = omega (arith, h.fits);
      ended = subst (λ a. r a ≡ 0) (over s h.len) h.ended;
      copied = λ j l.
          elim j as (λ j. j < suc (h.len) → r (s + j) ≡ m (t + j)) [
            | zero ↦ λ l.
                subst (λ a. r a ≡ m (t + 0)) (sym (start s))
                  (h.outside s (inl (omega arith)) ∙ store-here s (m t) m ∙ sym (ap m (start t)))
            | suc j ↦ λ l.
                subst (λ a. r a ≡ m (t + suc j)) (over s j)
                  (h.copied j (omega (arith, l)) ∙ same j (omega (arith, l, h.fits)))
          ]
            l;
      text = λ j l.
          elim j as (λ j. j < suc (h.len) → m (t + j) ≢ 0) [
            | zero ↦ λ l e. nz (sym (ap m (start t)) ∙ e)
            | suc j ↦ λ l e. h.text j (omega (arith, l)) (same j (omega (arith, l, h.fits)) ∙ e)
          ]
            l;
      whole = elim h.whole [
        | inl z ↦ inl (sym (same h.len h.fits) ∙ z)
        | inr f ↦ inr (omega (arith, f))
      ];
      outside = λ a l.
          h.outside a (wider a l) ∙ store-other s (m t) m a (off_block s (suc n) a (omega arith) l);
    }
  where
    wider : (a : ℕ) → (a < s) ⊎ (s + suc n ≤ a) → (a < s + 1) ⊎ (s + 1 + n ≤ a)
    wider a (inl l) = inl (omega arith)
    wider a (inr l) = inr (omega arith)

copy_string-IsCopied :
    (k s t : ℕ) (m : Memory) → Apart s t (suc k) → IsCopied s t (suc k) m (copy_string k s t m)
unfolding copy_string
copy_string-IsCopied zero s t m apart = record {
  len = 0;
  fits = omega arith;
  ended = subst (λ a. store s 0 m a ≡ 0) (sym (start s)) (store-here s 0 m);
  copied = λ j l. absurd (omega arith);
  text = λ j l. absurd (omega arith);
  whole = inr refl;
  outside = λ a l. store-other s 0 m a (off_block s 1 a (omega arith) l);
}
copy_string-IsCopied (suc k) s t m apart = elim (ℕ_discrete (m t) 0) [
  | no off ↦ subst (IsCopied s t (suc (suc k)) m) (sym (goes off)) (
      IsCopied-next s t (suc k) m _ (omega arith) apart off
        (copy_string-IsCopied k (s + 1) (t + 1) (store s (m t) m) (less apart)))
  | yes e ↦ subst (IsCopied s t (suc (suc k)) m) (sym (stops e)) (record {
    len = 0;
    fits = omega arith;
    ended =
        subst (λ a. store (s + 1) 0 (store s (m t) m) a ≡ 0) (sym (start s))
          (store-other (s + 1) 0 (store s (m t) m) s (omega arith) ∙ store-here s (m t) m ∙ e);
    copied = λ j l. absurd (omega arith);
    text = λ j l. absurd (omega arith);
    whole = inl (ap m (start t) ∙ e);
    outside = λ a l.
        store-other (s + 1) 0 (store s (m t) m) a (second a l)
        ∙ store-other s (m t) m a (off_block s (suc (suc k)) a (omega arith) l);
  })
]
  where
    goes : m t ≢ 0 → copy_string (suc k) s t m ≡ copy_string k (s + 1) (t + 1) (store s (m t) m)
    goes off = ground arith

    stops : m t ≡ 0 → copy_string (suc k) s t m ≡ store (s + 1) 0 (store s (m t) m)
    stops e = ground arith

    less : Apart s t (suc (suc k)) → Apart (s + 1) (t + 1) (suc k)
    less (inl h) = inl (omega arith)
    less (inr h) = inr (omega arith)

    second : (a : ℕ) → (a < s) ⊎ (s + suc (suc k) ≤ a) → a ≢ s + 1
    second a (inl l) e = omega arith
    second a (inr l) e = omega arith

-- `safestrcpy` into a buffer of `suc k` bytes that does not meet the `suc k` bytes from the source on: the buffer
-- holds a string that ends in a zero byte, its text is the source's, it is the whole of it or fills
-- the buffer, and no byte outside the buffer changes.
pub safestrcpy-IsCopied :
    (s t k : ℕ) (m : Memory)
    → Apart s t (suc k)
    → IsCopied s t (suc k) m (safestrcpy s t (pos (suc k)) m)
unfolding safestrcpy
safestrcpy-IsCopied s t k m apart = copy_string-IsCopied k s t m apart
