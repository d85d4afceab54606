-- ===== src/Fs/Map.antt =====
-- The bit map of fs.c as a set of blocks: what a mark, the end of a mark and a write elsewhere do to it.
use ele.Common.{
  poke, ℕ, ◌+◌, ◌/◌, ◌%◌, ◌<◌, ◌≡◌, ◌≢◌, ◌∙◌, ap, arith, ℕ_discrete, ◌==◌, ◌&&◌, false,
}
use ele.Fs.{Disk, Superblock, bit, or_bit, clear_bit, map_bit, bitmap_block, mark, unmark, bzero}
use ele.Fs.Bits.{bit-or_bit, bit-clear_bit, bit-or_bit_ne, bit-clear_bit_ne}

-- Whether a block is in use, as 0 or 1.
abbrev pub in_use : Superblock → ℕ → Disk → ℕ
in_use sb c d = map_bit (bitmap_block sb c) (c % 4096) d

-- The blocks behind the bit map, which files are made of.
abbrev pub IsData : Superblock → ℕ → Type 0
IsData sb x = (sb.bmapstart + sb.size / 4096 < x) × (x < sb.size)

poke_self : (x o v : ℕ) (d : Disk) → poke x o v d x o ≡ v
poke_self x o v d = ground arith

poke_ne : (x y o p v : ℕ) (d : Disk) → ((x == y) && (o == p)) ≡ false → poke x o v d y p ≡ d y p
poke_ne x y o p v d h = rw h

in_use-poke_ne :
    (f : ℕ → ℕ → ℕ)
    → ((j k v : ℕ) → j ≢ k → bit j (f k v) ≡ bit j v)
    → (sb : Superblock) (a c : ℕ) (d : Disk) → a ≢ c
    → in_use sb c (
        poke
          (bitmap_block sb a)
          (a % 4096 / 8)
          (f (a % 4096 % 8) (d (bitmap_block sb a) (a % 4096 / 8)))
          d)
      ≡ in_use sb c d
in_use-poke_ne f law sb a c d off = elim (ℕ_discrete (bitmap_block sb a) (bitmap_block sb c)) [
  | no other ↦ ap (bit (c % 4096 % 8)) (poke_ne _ _ _ _ _ d (ground arith))
  | yes same ↦ elim (ℕ_discrete (a % 4096 / 8) (c % 4096 / 8)) [
    | no other ↦ ap (bit (c % 4096 % 8)) (poke_ne _ _ _ _ _ d (ground arith))
    | yes byte ↦
        ap (bit (c % 4096 % 8)) (here same byte)
        ∙ law (c % 4096 % 8) (a % 4096 % 8) _ (omega arith)
        ∙ ap (bit (c % 4096 % 8))
            (ap (λ x. d x (a % 4096 / 8)) same ∙ ap (d (bitmap_block sb c)) byte)
  ]
]
  where
    here :
        bitmap_block sb a ≡ bitmap_block sb c
        → a % 4096 / 8 ≡ c % 4096 / 8
        → poke
            (bitmap_block sb a)
            (a % 4096 / 8)
            (f (a % 4096 % 8) (d (bitmap_block sb a) (a % 4096 / 8)))
            d
            (bitmap_block sb c)
            (c % 4096 / 8)
          ≡ f (a % 4096 % 8) (d (bitmap_block sb a) (a % 4096 / 8))
    here same byte = ground (arith, same, byte)

module _ (sb : Superblock) (a : ℕ) (d : Disk) where
  pub in_use-mark_self : in_use sb a (mark (bitmap_block sb a) (a % 4096) d) ≡ 1
  in_use-mark_self =
      ap (bit (a % 4096 % 8)) (
        poke_self (bitmap_block sb a) (a % 4096 / 8)
          (or_bit (a % 4096 % 8) (d (bitmap_block sb a) (a % 4096 / 8))) d)
      ∙ bit-or_bit (a % 4096 % 8) _

  pub in_use-unmark_self : in_use sb a (unmark (bitmap_block sb a) (a % 4096) d) ≡ 0
  in_use-unmark_self =
      ap (bit (a % 4096 % 8)) (
        poke_self (bitmap_block sb a) (a % 4096 / 8)
          (clear_bit (a % 4096 % 8) (d (bitmap_block sb a) (a % 4096 / 8))) d)
      ∙ bit-clear_bit (a % 4096 % 8) _

  pub in_use-mark_ne :
      (c : ℕ) → a ≢ c → in_use sb c (mark (bitmap_block sb a) (a % 4096) d) ≡ in_use sb c d
  in_use-mark_ne c = in_use-poke_ne or_bit bit-or_bit_ne sb a c d

  pub in_use-unmark_ne :
      (c : ℕ) → a ≢ c → in_use sb c (unmark (bitmap_block sb a) (a % 4096) d) ≡ in_use sb c d
  in_use-unmark_ne c = in_use-poke_ne clear_bit bit-clear_bit_ne sb a c d

-- A write to another block than those of the map leaves the map as it is.
pub in_use-same :
    (sb : Superblock) (c : ℕ) (d e : Disk)
    → ((p : ℕ) → e (bitmap_block sb c) p ≡ d (bitmap_block sb c) p)
    → in_use sb c e ≡ in_use sb c d
in_use-same sb c d e h = ap (bit (c % 4096 % 8)) (h (c % 4096 / 8))

pub in_use-bzero :
    (sb : Superblock) (x c : ℕ) (d : Disk)
    → IsData sb x
    → c < sb.size
    → in_use sb c (bzero x d) ≡ in_use sb c d
in_use-bzero sb x c d h l =
    in_use-same sb c d (bzero x d) (λ p. other (bitmap_block sb c) p (omega (arith, h.0)))
  where
    other : (y p : ℕ) → x ≢ y → bzero x d y p ≡ d y p
    other y p off = ground arith

-- A change of the map leaves the data blocks as they are.
poke-IsData :
    (sb : Superblock) (a x o v p : ℕ) (d : Disk)
    → a < sb.size
    → IsData sb x
    → poke (bitmap_block sb a) o v d x p ≡ d x p
poke-IsData sb a x o v p d l h =
    let off : bitmap_block sb a ≢ x = λ e. omega (arith, h.0) in ground arith

module _ (sb : Superblock) (a x p : ℕ) (d : Disk) (l : a < sb.size) (h : IsData sb x) where
  pub mark-IsData : mark (bitmap_block sb a) (a % 4096) d x p ≡ d x p
  mark-IsData =
      poke-IsData sb a x (a % 4096 / 8)
        (or_bit (a % 4096 % 8) (d (bitmap_block sb a) (a % 4096 / 8))) p d l h

  pub unmark-IsData : unmark (bitmap_block sb a) (a % 4096) d x p ≡ d x p
  unmark-IsData =
      poke-IsData sb a x (a % 4096 / 8)
        (clear_bit (a % 4096 % 8) (d (bitmap_block sb a) (a % 4096 / 8))) p d l h
