-- ===== src/Fs/Alloc.antt =====
-- `balloc` of fs.c: what the search of the bit map finds.
use ele.Common.{
  ℕ, zero, suc, ◌+◌, ◌-◌, ◌*◌, dec_lt, ◌/◌, ◌%◌, ◌<◌, ◌≤◌, ◌≡◌, ◌≢◌, ◌∙◌, refl, ap, sym, subst,
  arith, ℕ_discrete, ◌==◌, ltb, true, false, Bool-cases, inl, inr, Option, none, some,
}
use ele.Fs.{Disk, Superblock, map_bit, bitmap_block, mark, bzero, free_bit, find_free, balloc}
use ele.Fs.Map.{in_use}

-- What the inner loop says of the bits that it looks at.
pub data Searched (n bi b : ℕ) (sb : Superblock) (d : Disk) : Option ℕ → Type 0 where
  at_bit :
      (r : ℕ)
      → bi ≤ r
      → r < bi + n
      → b + r < sb.size
      → map_bit (bitmap_block sb b) r d ≡ 0
      → Searched n bi b sb d (some r)
  none_free :
      ((r : ℕ) → bi ≤ r → r < bi + n → b + r < sb.size → map_bit (bitmap_block sb b) r d ≢ 0)
      → Searched n bi b sb d none

Searched-next :
    (n bi b : ℕ) (sb : Superblock) (d : Disk) (o : Option ℕ)
    → map_bit (bitmap_block sb b) bi d ≢ 0
    → Searched n (bi + 1) b sb d o
    → Searched (suc n) bi b sb d o
Searched-next n bi b sb d o used (at_bit r l u s e) =
    at_bit r (omega (arith, l)) (omega (arith, u)) s e
Searched-next n bi b sb d o used (none_free h) = none_free (λ r l u s. elim (ℕ_discrete bi r) [
  | yes here ↦ subst (λ r. map_bit (bitmap_block sb b) r d ≢ 0) here used
  | no off ↦ h r (omega (arith, off)) (omega arith) s
])

module _ (n bi b : ℕ) (sb : Superblock) (d : Disk) where
  past : ltb (b + bi) sb.size ≡ false → free_bit (suc n) bi b sb d ≡ none
  unfolding free_bit
  past e = rw (free_bit, e)

  at_free :
      ltb (b + bi) sb.size ≡ true
      → (map_bit (bitmap_block sb b) bi d == 0) ≡ true
      → free_bit (suc n) bi b sb d ≡ some bi
  unfolding free_bit
  at_free e f = rw (free_bit, e, f)

  at_used :
      ltb (b + bi) sb.size ≡ true
      → (map_bit (bitmap_block sb b) bi d == 0) ≡ false
      → free_bit (suc n) bi b sb d ≡ free_bit n (bi + 1) b sb d
  unfolding free_bit
  at_used e f = rw (free_bit, e, f)

pub free_bit-Searched :
    (n bi b : ℕ) (sb : Superblock) (d : Disk) → Searched n bi b sb d (free_bit n bi b sb d)
unfolding free_bit
free_bit-Searched zero bi b sb d = none_free (λ r l u s. absurd (omega arith))
free_bit-Searched (suc n) bi b sb d = elim (Bool-cases (ltb (b + bi) sb.size)) [
  | inr out ↦
      subst (Searched (suc n) bi b sb d) (sym (past n bi b sb d out))
        (none_free (λ r l u s. absurd (ground arith)))
  | inl inside ↦ elim (Bool-cases (map_bit (bitmap_block sb b) bi d == 0)) [
    | inl here ↦
        subst (Searched (suc n) bi b sb d) (sym (at_free n bi b sb d inside here))
          (at_bit bi (omega arith) (omega arith) (ground arith) (ground arith))
    | inr on ↦
        subst (Searched (suc n) bi b sb d) (sym (at_used n bi b sb d inside on))
          (Searched-next n bi b sb d _ (ground arith) (free_bit-Searched n (bi + 1) b sb d))
  ]
]

-- What the outer loop says of the blocks from `b` on.
pub data Found (n b : ℕ) (sb : Superblock) (d : Disk) : Option (ℕ × ℕ) → Type 0 where
  at_block :
      (c r : ℕ)
      → c % 4096 ≡ 0
      → r < 4096
      → c + r < sb.size
      → map_bit (bitmap_block sb c) r d ≡ 0
      → Found n b sb d (some (c, r))
  all_used :
      ((x : ℕ) → b ≤ x → x < b + n * 4096 → x < sb.size → in_use sb x d ≢ 0) → Found n b sb d none

same_block : (b r s : ℕ) → b % 4096 ≡ 0 → r < 4096 → b / 4096 + s ≡ (b + r) / 4096 + s
same_block b r s e l = omega arith

bit_of : (b r : ℕ) → b % 4096 ≡ 0 → r < 4096 → r ≡ (b + r) % 4096
bit_of b r e l = omega arith

-- A block behind `b`, which is a multiple of 4096, has its bit in the block of the map for `b`.
in_use-map_bit :
    (sb : Superblock) (b r : ℕ) (d : Disk)
    → b % 4096 ≡ 0
    → r < 4096
    → map_bit (bitmap_block sb b) r d ≡ in_use sb (b + r) d
in_use-map_bit sb b r d e l =
    ap (λ x. map_bit x r d) (same_block b r sb.bmapstart e l)
    ∙ ap (λ x. map_bit (bitmap_block sb (b + r)) x d) (bit_of b r e l)

module _ (n b : ℕ) (sb : Superblock) (d : Disk) where
  at_end : ltb b sb.size ≡ false → find_free (suc n) b sb d ≡ none
  unfolding find_free
  at_end e = rw (find_free, e)

  in_block :
      (r : ℕ)
      → ltb b sb.size ≡ true
      → free_bit 4096 0 b sb d ≡ some r
      → find_free (suc n) b sb d ≡ some (b, r)
  unfolding find_free
  in_block r e f = rw (find_free, e, f)

  in_next :
      ltb b sb.size ≡ true
      → free_bit 4096 0 b sb d ≡ none
      → find_free (suc n) b sb d ≡ find_free n (b + 4096) sb d
  unfolding find_free
  in_next e f = rw (find_free, e, f)

Found-next :
    (n b : ℕ) (sb : Superblock) (d : Disk) (o : Option (ℕ × ℕ))
    → b % 4096 ≡ 0
    → Searched 4096 0 b sb d none
    → Found n (b + 4096) sb d o
    → Found (suc n) b sb d o
Found-next n b sb d o e (none_free f) (at_block c r m l s z) = at_block c r m l s z
Found-next n b sb d o e (none_free f) (all_used h) = all_used (λ x l u s.
    elim (dec_lt x (b + 4096)) [
      | yes near ↦ λ z. f (x - b) (omega arith) (omega arith) (omega arith) (
          in_use-map_bit sb b (x - b) d e (omega arith)
          ∙ subst (λ y. in_use sb y d ≡ 0) (back x b l) z)
      | no far ↦ h x (omega arith) (omega arith) s
    ])
  where
    back : (x b : ℕ) → b ≤ x → x ≡ b + (x - b)
    back x b l = omega arith

pub find_free-Found :
    (n b : ℕ) (sb : Superblock) (d : Disk) → b % 4096 ≡ 0 → Found n b sb d (find_free n b sb d)
unfolding find_free
find_free-Found zero b sb d e = all_used (λ x l u s. absurd (omega arith))
find_free-Found (suc n) b sb d e = elim (Bool-cases (ltb b sb.size)) [
  | inr out ↦
      subst (Found (suc n) b sb d) (sym (at_end n b sb d out))
        (all_used (λ x l u s. absurd (ground arith)))
  | inl inside ↦
      block inside (free_bit 4096 0 b sb d) refl (free_bit-Searched 4096 0 b sb d)
        (find_free-Found n (b + 4096) sb d (omega (arith, e)))
]
  where
    block :
        ltb b sb.size ≡ true
        → (o : Option ℕ) → free_bit 4096 0 b sb d ≡ o
        → Searched 4096 0 b sb d o
        → Found n (b + 4096) sb d (find_free n (b + 4096) sb d)
        → Found (suc n) b sb d (find_free (suc n) b sb d)
    block inside (some r) f (at_bit q l u s z) later =
        subst (Found (suc n) b sb d) (sym (in_block n b sb d r inside f)) (at_block b r e u s z)
    block inside none f s later =
        subst (Found (suc n) b sb d) (sym (in_next n b sb d inside f))
          (Found-next n b sb d _ e s later)

-- The block that `balloc` gives, and the disk after it.
pub record IsFresh (sb : Superblock) (d : Disk) (a : ℕ) (e : Disk) : Type 0 where
  pub inside : a < sb.size
  pub was_free : in_use sb a d ≡ 0
  pub after : e ≡ bzero a (mark (bitmap_block sb a) (a % 4096) d)

-- What `balloc` comes to: a block that was free, or a panic.
pub data Allocated (sb : Superblock) (d : Disk) : Option (ℕ × Disk) → Type 0 where
  fresh : (a : ℕ) (e : Disk) → IsFresh sb d a e → Allocated sb d (some (a, e))
  full : ((x : ℕ) → x < sb.size → in_use sb x d ≢ 0) → Allocated sb d none

pub balloc-Allocated : (sb : Superblock) (d : Disk) → Allocated sb d (balloc sb d)
unfolding balloc
balloc-Allocated sb d =
    go (find_free (sb.size / 4096 + 1) 0 sb d) (find_free-Found (sb.size / 4096 + 1) 0 sb d refl)
  where
    go :
        (o : Option (ℕ × ℕ))
        → Found (sb.size / 4096 + 1) 0 sb d o
        → Allocated sb d (elim o [
          | none ↦ none
          | some (b, bi) ↦ some (b + bi, bzero (b + bi) (mark (bitmap_block sb b) bi d))
        ])
    go none (all_used h) = full (λ x s. h x (omega arith) (omega arith) s)
    go (some (b, r)) (at_block c q e l s z) = fresh (b + r) _ (record {
      inside = s;
      was_free = sym (in_use-map_bit sb b r d e l) ∙ z;
      after =
          ap (λ blk. bzero (b + r) (mark blk r d)) (same_block b r sb.bmapstart e l)
          ∙ ap (λ k. bzero (b + r) (mark (bitmap_block sb (b + r)) k d)) (bit_of b r e l);
    })
