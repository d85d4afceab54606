-- ===== src/Fs/Read.antt =====
-- The loop of `readi` in fs.c: the bytes of blocks that are there.
use ele.Common.{
  ℕ, zero, suc, ◌+◌, ◌/◌, ◌%◌, ◌^◌, ◌-◌, ◌<◌, ◌≤◌, ◌≡◌, ◌≢◌, ◌∙◌, ◌⊎◌, inl, inr, refl, ap, sym,
  subst, arith, ℕ_discrete, dec_lt, ltb, leb, ◌&&◌, if◌then◌else◌, true, false, Option, some,
}
use ele.Fs.{Disk, Superblock, Inode}
use ele.Fs.Content.{Memory, chunk, copy_out, bmap, read_loop}
use ele.Fs.Chunk.{chunk_less, chunk_within, chunk_fits, chunk_rest}
use ele.Fs.Slots.{slot, IsFile, IsReserved}
use ele.Fs.Mapped.{Bmapped, mapped, no_block}
use ele.Fs.Bmap.{bmap-Bmapped}
use ele.Fs.Write.{content, HasBlock}

-- `bmap` of a block that is there gives it, and changes nothing.
pub bmap_there :
    (sb : Superblock) (ip : Inode) (d : Disk) (i : ℕ)
    → IsFile sb ip d
    → IsReserved sb d
    → i < 140
    → sb.size < 2 ^ 32
    → slot ip d i ≢ 0
    → bmap sb i ip d ≡ some (slot ip d i, ip, d)
bmap_there sb ip d i f r l small nz = go (bmap sb i ip d) (bmap-Bmapped f r i l small)
  where
    go : (o : Option (ℕ × Inode × Disk)) → Bmapped sb i ip d o → o ≡ some (slot ip d i, ip, d)
    go o (no_block a z full) = absurd (nz z)
    go o (mapped a jp e x) =
        let same = x.already nz in
        ap (λ b. some (b, jp, e))
          (sym x.here ∙ ap (λ j. slot j e i) same.0 ∙ ap (λ g. slot ip g i) same.1)
        ∙ ap (λ j. some (slot ip d i, j, e)) same.0
        ∙ ap (λ g. some (slot ip d i, ip, g)) same.1

-- The memory after a read of `rest` bytes from the offset `off` to `dst`.
pub record IsRead (dst off rest : ℕ) (mem : Memory) (ip : Inode) (d : Disk) (mem' : Memory)
    : Type 0 where
  pub bytes : (q : ℕ) → q < rest → mem' (dst + q) ≡ content ip d (off + q)
  pub outside : (p : ℕ) → (p < dst) ⊎ (dst + rest ≤ p) → mem' p ≡ mem p

module _ (n : ℕ) (sb : Superblock) (dst off rest : ℕ) (ip : Inode) (d : Disk) (mem : Memory) where
  read_end : rest ≡ 0 → read_loop (suc n) sb dst off rest ip d mem ≡ some (mem, ip, d)
  unfolding read_loop
  read_end z = rw (read_loop, stop rest z)
    where
      stop : (rest : ℕ) → rest ≡ 0 → ltb 0 rest ≡ false
      stop rest z = ground arith

  read_next :
      (x : ℕ)
      → 0 < rest
      → bmap sb (off / 512) ip d ≡ some (x, ip, d)
      → read_loop (suc n) sb dst off rest ip d mem
        ≡ read_loop n sb
            (dst + chunk rest off)
            (off + chunk rest off)
            (rest - chunk rest off)
            ip
            d
            (copy_out x (off % 512) dst (chunk rest off) d mem)
  unfolding read_loop
  read_next x l f = rw (read_loop, go rest l, f)
    where
      go : (rest : ℕ) → 0 < rest → ltb 0 rest ≡ true
      go rest l = ground arith

module _ (x o s m : ℕ) (d : Disk) (mem : Memory) where
  copy_out_inside : (q : ℕ) → q < m → copy_out x o s m d mem (s + q) ≡ d x (o + q)
  copy_out_inside q l = go (d x) mem (ground (arith, l))
    where
      go :
          (f mem : ℕ → ℕ)
          → (leb s (s + q) && ltb (s + q) (s + m)) ≡ true
          → (if leb s (s + q) && ltb (s + q) (s + m) then f (o + (s + q - s)) else mem (s + q))
            ≡ f (o + q)
      go f mem inside =
          ap (λ b. if b then f (o + (s + q - s)) else mem (s + q)) inside ∙ ap f (omega arith)

  copy_out_outside : (p : ℕ) → (p < s) ⊎ (s + m ≤ p) → copy_out x o s m d mem p ≡ mem p
  copy_out_outside p out = ground arith

module _ (dst off m rest : ℕ) (mem : Memory) (ip : Inode) (d : Disk)
    (fits : off % 512 + m ≤ 512) where
  IsRead-next :
      (mem' : Memory)
      → IsRead
          (dst + m)
          (off + m)
          rest
          (copy_out (slot ip d (off / 512)) (off % 512) dst m d mem)
          ip
          d
          mem'
      → IsRead dst off (m + rest) mem ip d mem'
  IsRead-next mem' r = record {
    bytes = λ q u. elim (dec_lt q m) [
      | yes near ↦
          r.outside (dst + q) (inl (omega (arith, near)))
          ∙ copy_out_inside (slot ip d (off / 512)) (off % 512) dst m d mem q near
          ∙ ap (λ i. d (slot ip d i) (off % 512 + q)) (same_block q near fits)
          ∙ ap (d (slot ip d ((off + q) / 512))) (same_byte q near fits)
      | no far ↦
          ap mem' (sym (over dst m q (omega arith)))
          ∙ r.bytes (q - m) (omega arith)
          ∙ ap (content ip d) (over off m q (omega arith))
    ];
    outside = λ p out.
        r.outside p (later p out)
        ∙ copy_out_outside (slot ip d (off / 512)) (off % 512) dst m d mem p (earlier p out);
  }
    where
      same_block : (q : ℕ) → q < m → off % 512 + m ≤ 512 → off / 512 ≡ (off + q) / 512
      same_block q l h = omega (arith, l, h)

      same_byte : (q : ℕ) → q < m → off % 512 + m ≤ 512 → off % 512 + q ≡ (off + q) % 512
      same_byte q l h = omega (arith, l, h)

      over : (o m q : ℕ) → m ≤ q → o + m + (q - m) ≡ o + q
      over o m q h = omega (arith, h)

      later : (k : ℕ) → (k < dst) ⊎ (dst + (m + rest) ≤ k) → (k < dst + m) ⊎ (dst + m + rest ≤ k)
      later k (inl h) = inl (omega (arith, h))
      later k (inr h) = inr (omega (arith, h))

      earlier : (k : ℕ) → (k < dst) ⊎ (dst + (m + rest) ≤ k) → (k < dst) ⊎ (dst + m ≤ k)
      earlier k (inl h) = inl h
      earlier k (inr h) = inr (omega (arith, h))

pub read_loop-IsRead :
    (n : ℕ) (sb : Superblock) (dst off rest : ℕ) (ip : Inode) (d : Disk) (mem : Memory)
    → rest ≤ n
    → off + rest ≤ 71680
    → sb.size < 2 ^ 32
    → IsFile sb ip d
    → IsReserved sb d
    → ((q : ℕ) → q < rest → HasBlock ip d (off + q))
    → (mem' : Memory) × (read_loop n sb dst off rest ip d mem ≡ some (mem', ip, d))
      × IsRead dst off rest mem ip d mem'
unfolding read_loop
read_loop-IsRead zero sb dst off rest ip d mem h bound small f r has =
    (mem, refl, record { bytes = λ q u. absurd (omega (arith, u, h)); outside = λ p out. refl })
read_loop-IsRead (suc n) sb dst off rest ip d mem h bound small f r has = elim (ℕ_discrete rest 0) [
  | yes z ↦ (
    mem,
    read_end n sb dst off rest ip d mem z,
    record { bytes = λ q u. absurd (omega (arith, u, z)); outside = λ p out. refl },
  )
  | no nz ↦
      let m = chunk rest off in
      let there : slot ip d (off / 512) ≢ 0 =
        subst (λ k. slot ip d (k / 512) ≢ 0) (none_yet off) (has 0 (omega (arith, nz))) in
      let later =
        read_loop-IsRead n sb (dst + m) (off + m) (rest - m) ip d
          (copy_out (slot ip d (off / 512)) (off % 512) dst m d mem)
          (chunk_less rest off n (omega (arith, nz)) h) (chunk_within rest off bound) small f r
          (λ q u.
            subst (λ k. slot ip d (k / 512) ≢ 0) (onward off m q)
              (has (m + q) (omega (arith, u)))) in
      (
        later.0,
        read_next n sb dst off rest ip d mem (slot ip d (off / 512)) (omega (arith, nz))
              (bmap_there sb ip d (off / 512) f r (omega (arith, bound, nz)) small there)
            ∙ later.1,
        subst (λ k. IsRead dst off k mem ip d later.0) (chunk_rest rest off)
            (IsRead-next dst off m (rest - m) mem ip d (chunk_fits rest off) later.0 later.2),
      )
]
  where
    none_yet : (off : ℕ) → off + 0 ≡ off
    none_yet off = omega arith

    onward : (off m q : ℕ) → off + (m + q) ≡ off + m + q
    onward off m q = omega arith
