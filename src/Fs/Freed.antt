-- ===== src/Fs/Freed.antt =====
-- One step of `itrunc` of fs.c: the block of the next slot is freed.
use ele.Common.{
  ℕ, suc, ◌%◌, ◌<◌, ◌≤◌, ◌≡◌, ◌≢◌, ◌∙◌, refl, ap, sym, arith, ℕ_discrete, dec_lt, ◌==◌, false,
  if◌then◌else◌, none, some,
}
use ele.Fs.{Disk, Superblock, Inode, bitmap_block, unmark, bfree}
use ele.Fs.Map.{in_use, IsData, in_use-unmark_self, in_use-unmark_ne, unmark-IsData}
use ele.Fs.Slots.{slot, IsFile}

pub bfree_used :
    (sb : Superblock) (a : ℕ) (d : Disk)
    → in_use sb a d ≢ 0
    → bfree sb a d ≡ some (unmark (bitmap_block sb a) (a % 4096) d)
unfolding bfree
bfree_used sb a d u =
    ap (λ b. if b then none else some (unmark (bitmap_block sb a) (a % 4096) d))
      (nonzero (in_use sb a d) u)
  where
    nonzero : (v : ℕ) → v ≢ 0 → (v == 0) ≡ false
    nonzero v h = ground arith

-- The slots below `i` of the file `ip` are freed on `e`, and nothing else has changed.
pub record IsFreed (sb : Superblock) (ip : Inode) (d : Disk) (i : ℕ) (e : Disk) : Type 0 where
  pub gone : (n : ℕ) → n < i → slot ip d n ≢ 0 → in_use sb (slot ip d n) e ≡ 0
  pub stay :
      (b : ℕ) → b < sb.size → ((n : ℕ) → n < i → slot ip d n ≢ b) → in_use sb b e ≡ in_use sb b d
  pub data_same : (x p : ℕ) → IsData sb x → e x p ≡ d x p

module _ {sb : Superblock} {ip : Inode} {d : Disk} where
  pub IsFreed-none : IsFreed sb ip d 0 d
  IsFreed-none = record {
    gone = λ n l nz. absurd (omega (arith, l));
    stay = λ b l h. refl;
    data_same = λ x p h. refl;
  }

  -- Slots without a block.
  pub IsFreed-skip :
      {i : ℕ} {e : Disk} (k : ℕ)
      → i ≤ k
      → ((n : ℕ) → i ≤ n → n < k → slot ip d n ≡ 0)
      → IsFreed sb ip d i e
      → IsFreed sb ip d k e
  IsFreed-skip {i} k h z r = record {
    gone = λ n l nz. elim (dec_lt n i) [
      | yes before ↦ r.gone n before nz
      | no after ↦ absurd (nz (z n (omega arith) l))
    ];
    stay = λ b l out. r.stay b l (λ n u. out n (omega (arith, u, h)));
    data_same = r.data_same;
  }

module _ {sb : Superblock} {ip : Inode} {d e : Disk} {i : ℕ} (f : IsFile sb ip d) (l : i < 141)
    (nz : slot ip d i ≢ 0) (r : IsFreed sb ip d i e) where
  still_used : in_use sb (slot ip d i) e ≢ 0
  still_used z = f.used i l nz (
      sym (
        r.stay (slot ip d i) (f.data_blocks i l nz).1
          (λ n u s. f.apart i n l (omega (arith, u, l)) (λ e. omega (arith, u, e)) nz (sym s)))
      ∙ z)

  pub IsFreed-next :
      IsFreed sb ip d (suc i) (unmark (bitmap_block sb (slot ip d i)) (slot ip d i % 4096) e)
  IsFreed-next = record {
    gone = λ n u some_block. elim (ℕ_discrete n i) [
      | yes here ↦
          ap
            (λ m.
              in_use sb (slot ip d m)
                (unmark (bitmap_block sb (slot ip d i)) (slot ip d i % 4096) e))
            here
          ∙ in_use-unmark_self sb (slot ip d i) e
      | no off ↦
          in_use-unmark_ne sb (slot ip d i) e (slot ip d n)
            (f.apart i n l (omega (arith, u, l)) (λ s. off (sym s)) nz)
          ∙ r.gone n (omega (arith, u, off)) some_block
    ];
    stay = λ b s out.
        in_use-unmark_ne sb (slot ip d i) e b (out i (omega arith))
        ∙ r.stay b s (λ n u. out n (omega (arith, u)));
    data_same = λ x p h.
        unmark-IsData sb (slot ip d i) x p e (f.data_blocks i l nz).1 h ∙ r.data_same x p h;
  }

  pub bfree_slot :
      bfree sb (slot ip d i) e
      ≡ some (unmark (bitmap_block sb (slot ip d i)) (slot ip d i % 4096) e)
  bfree_slot = bfree_used sb (slot ip d i) e still_used
