-- ===== src/Common/Words.antt =====
-- Bytes in blocks or pages, by the number of the block and the offset in it, and words of four of them.
use Prim.Native.Nat.{ℕ, ◌+◌, ◌*◌, ◌/◌, ◌%◌, ◌^◌, ◌<◌}
use mathlib.Core.Path.{◌≡◌, ◌∙◌}
use mathlib.Core.Logic.{◌≢◌, ◌⊎◌}
use mathlib.Core.Bool.{◌&&◌}
use native.Mathlib.Omega.{arith}
use ele.Common.Tests.{◌==◌, if◌then◌else◌}

abbrev pub Store : Type 0
Store = ℕ → ℕ → ℕ

abbrev pub poke : ℕ → ℕ → ℕ → Store → Store
poke x o v d = λ y p. if (x == y) && (o == p) then v else d y p

-- The `i`-th `uint` of a block.
abbrev pub word_at : ℕ → ℕ → Store → ℕ
word_at x i d =
    d x (i * 4) + d x (i * 4 + 1) * 256 + d x (i * 4 + 2) * 65536 + d x (i * 4 + 3) * 16777216

unfoldable pub put_word : ℕ → ℕ → ℕ → Store → Store
put_word x o v d = poke x o (v % 256) (
    poke x (o + 1) (v / 256 % 256)
      (poke x (o + 2) (v / 65536 % 256) (poke x (o + 3) (v / 16777216 % 256) d)))

pub put_word_away : (x o v : ℕ) (d : Store) (y p : ℕ) → x ≢ y → put_word x o v d y p ≡ d y p
unfolding put_word
put_word_away x o v d y p off = ground arith

put_word_off :
    (x o v : ℕ) (d : Store) (p : ℕ) → (p < o) ⊎ (o + 3 < p) → put_word x o v d x p ≡ d x p
unfolding put_word
put_word_off x o v d p off = ground arith

word-ap :
    (a b c e : ℕ) {a' b' c' e' : ℕ}
    → a ≡ a'
    → b ≡ b'
    → c ≡ c'
    → e ≡ e'
    → a + b * 256 + c * 65536 + e * 16777216 ≡ a' + b' * 256 + c' * 65536 + e' * 16777216
word-ap a b c e f g h i = rw (f, g, h, i)

module _ (x o v : ℕ) (d : Store) where
  byte0 : put_word x o v d x o ≡ v % 256
  unfolding put_word
  byte0 = ground arith

  byte1 : put_word x o v d x (o + 1) ≡ v / 256 % 256
  unfolding put_word
  byte1 = ground arith

  byte2 : put_word x o v d x (o + 2) ≡ v / 65536 % 256
  unfolding put_word
  byte2 = ground arith

  byte3 : put_word x o v d x (o + 3) ≡ v / 16777216 % 256
  unfolding put_word
  byte3 = ground arith

pub word_at-put_word_self :
    (x i v : ℕ) (d : Store) → v < 2 ^ 32 → word_at x i (put_word x (i * 4) v d) ≡ v
word_at-put_word_self x i v d l =
    word-ap (put_word x (i * 4) v d x (i * 4)) (put_word x (i * 4) v d x (i * 4 + 1))
      (put_word x (i * 4) v d x (i * 4 + 2)) (put_word x (i * 4) v d x (i * 4 + 3))
      (byte0 x (i * 4) v d) (byte1 x (i * 4) v d) (byte2 x (i * 4) v d) (byte3 x (i * 4) v d)
    ∙ omega (arith, l)

pub word_at-put_word_ne :
    (x i j v : ℕ) (d : Store) → i ≢ j → word_at x j (put_word x (i * 4) v d) ≡ word_at x j d
word_at-put_word_ne x i j v d ne =
    word-ap (put_word x (i * 4) v d x (j * 4)) (put_word x (i * 4) v d x (j * 4 + 1))
      (put_word x (i * 4) v d x (j * 4 + 2)) (put_word x (i * 4) v d x (j * 4 + 3))
      (put_word_off x (i * 4) v d (j * 4) (ground (arith, ne)))
      (put_word_off x (i * 4) v d (j * 4 + 1) (apart 1 (omega arith)))
      (put_word_off x (i * 4) v d (j * 4 + 2) (apart 2 (omega arith)))
      (put_word_off x (i * 4) v d (j * 4 + 3) (apart 3 (omega arith)))
  where
    apart : (k : ℕ) → k < 4 → (j * 4 + k < i * 4) ⊎ (i * 4 + 3 < j * 4 + k)
    apart k l = ground (arith, ne)

-- Words of equal bytes.
pub word_at-same :
    (x i : ℕ) (d e : Store)
    → i < 128
    → ((p : ℕ) → p < 512 → e x p ≡ d x p)
    → word_at x i e ≡ word_at x i d
word_at-same x i d e l h =
    word-ap (e x (i * 4)) (e x (i * 4 + 1)) (e x (i * 4 + 2)) (e x (i * 4 + 3))
      (h (i * 4) (omega (arith, l))) (h (i * 4 + 1) (omega (arith, l)))
      (h (i * 4 + 2) (omega (arith, l))) (h (i * 4 + 3) (omega (arith, l)))

pub word_at-agree :
    (x i : ℕ) (d e : Store)
    → ((p : ℕ) → p < i * 4 + 4 → e x p ≡ d x p)
    → word_at x i e ≡ word_at x i d
word_at-agree x i d e h =
    word-ap (e x (i * 4)) (e x (i * 4 + 1)) (e x (i * 4 + 2)) (e x (i * 4 + 3))
      (h (i * 4) (omega arith)) (h (i * 4 + 1) (omega arith)) (h (i * 4 + 2) (omega arith))
      (h (i * 4 + 3) (omega arith))
