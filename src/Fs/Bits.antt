-- ===== src/Fs/Bits.antt =====
-- The bits of the bit map of fs.c.
use ele.Common.{ℕ, zero, suc, ◌+◌, ◌*◌, ◌/◌, ◌%◌, ◌<◌, ◌≡◌, ◌≢◌, ◌∙◌, refl, ap, arith}
use ele.Fs.{bit, or_bit, clear_bit}

half : (a b v : ℕ) → (a * 2 + v % 2) / 2 ≡ a
half a b v = omega arith

pub bit-or_bit : (k v : ℕ) → bit k (or_bit k v) ≡ 1
unfolding bit or_bit
bit-or_bit zero v = omega arith
bit-or_bit (suc k) v = ap (bit k) (half (or_bit k (v / 2)) k v) ∙ bit-or_bit k (v / 2)

pub bit-clear_bit : (k v : ℕ) → bit k (clear_bit k v) ≡ 0
unfolding bit clear_bit
bit-clear_bit zero v = omega arith
bit-clear_bit (suc k) v = ap (bit k) (half (clear_bit k (v / 2)) k v) ∙ bit-clear_bit k (v / 2)

pub bit-or_bit_ne : (j k v : ℕ) → j ≢ k → bit j (or_bit k v) ≡ bit j v
unfolding bit or_bit
bit-or_bit_ne zero zero v h = absurd (h refl)
bit-or_bit_ne zero (suc k) v h = omega arith
bit-or_bit_ne (suc j) zero v h = ap (bit j) (omega arith)
bit-or_bit_ne (suc j) (suc k) v h =
    ap (bit j) (half (or_bit k (v / 2)) k v) ∙ bit-or_bit_ne j k (v / 2) (λ e. h (ap suc e))

pub bit-clear_bit_ne : (j k v : ℕ) → j ≢ k → bit j (clear_bit k v) ≡ bit j v
unfolding bit clear_bit
bit-clear_bit_ne zero zero v h = absurd (h refl)
bit-clear_bit_ne zero (suc k) v h = omega arith
bit-clear_bit_ne (suc j) zero v h = ap (bit j) (omega arith)
bit-clear_bit_ne (suc j) (suc k) v h =
    ap (bit j) (half (clear_bit k (v / 2)) k v) ∙ bit-clear_bit_ne j k (v / 2) (λ e. h (ap suc e))

pub bit_cases : (k v : ℕ) → bit k v < 2
unfolding bit
bit_cases zero v = omega arith
bit_cases (suc k) v = bit_cases k (v / 2)
