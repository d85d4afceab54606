-- ===== src/Fs/Write.antt =====
-- The loop of `writei` in fs.c: what it leaves in the file.
use ele.Common.{
  ℕ, ◌+◌, ◌/◌, ◌%◌, ◌-◌, ◌<◌, ◌≤◌, ◌≡◌, ◌≢◌, ◌∙◌, ◌⊎◌, inl, inr, ap, sym, subst, arith, ℕ_discrete,
  dec_lt,
}
use ele.Fs.{Disk, Superblock, Inode}
use ele.Fs.Map.{in_use}
use ele.Fs.Content.{Memory, copy_in}
use ele.Fs.Slots.{slot, IsFile, IsReserved}
use ele.Fs.Mapped.{IsMapped}
use ele.Fs.Copied.{
  copy_in_inside, copy_in_outside, away, slots_stay, bits_stay, IsFile-copy_in, IsReserved-copy_in,
}

-- The byte of a file at an offset, and whether there is a block for it.
abbrev pub content : Inode → Disk → ℕ → ℕ
content ip d k = d (slot ip d (k / 512)) (k % 512)

abbrev pub HasBlock : Inode → Disk → ℕ → Type 0
HasBlock ip d k = slot ip d (k / 512) ≢ 0

-- `rest` bytes from `src` on stand in the file from `off` on, and the other bytes are as before.
pub record IsWritten (sb : Superblock) (src off rest : ℕ) (mem : Memory) (ip : Inode) (d : Disk)
    (jp : Inode) (e : Disk) : Type 0 where
  pub file : IsFile sb jp e
  pub reserved : IsReserved sb e
  pub has : (q : ℕ) → q < rest → HasBlock jp e (off + q)
  pub bytes : (q : ℕ) → q < rest → content jp e (off + q) ≡ mem (src + q)
  pub keeps : (k : ℕ) → k < 71680 → HasBlock ip d k → HasBlock jp e k
  pub outside :
      (k : ℕ)
      → k < 71680
      → (k < off) ⊎ (off + rest ≤ k)
      → HasBlock ip d k
      → content jp e k ≡ content ip d k
  pub used : (b : ℕ) → b < sb.size → in_use sb b d ≢ 0 → in_use sb b e ≢ 0
  pub same_size : jp.size ≡ ip.size
  pub same_kind : jp.kind ≡ ip.kind
  pub same_inum : jp.inum ≡ ip.inum

-- One step: the block, then the bytes.
module _ {sb : Superblock} {ip jp : Inode} {d e : Disk} {i a : ℕ} (l : i < 140)
    (x : IsMapped sb ip d i a jp e) (o s m : ℕ) (mem : Memory) where
  here_block : slot jp e i ≢ 0
  here_block z = x.some_block (sym x.here ∙ z)

  -- A block that the file had is the one that it has.
  same_slot : (n : ℕ) → n < 140 → slot ip d n ≢ 0 → slot jp e n ≡ slot ip d n
  same_slot n u nz = elim (ℕ_discrete n i) [
    | no off ↦ x.others n u off
    | yes here ↦
        let same = x.already (subst (λ n. slot ip d n ≢ 0) here nz) in
        ap (λ z. slot z e n) same.0 ∙ ap (λ z. slot ip z n) same.1
  ]

-- Offsets within the block that the first of them is in.
block_of : (off q : ℕ) → off % 512 + q < 512 → (off + q) / 512 ≡ off / 512
block_of off q h = omega (arith, h)

byte_of : (off q : ℕ) → off % 512 + q < 512 → (off + q) % 512 ≡ off % 512 + q
byte_of off q h = omega (arith, h)

module _ {sb : Superblock} {ip jp : Inode} {d e : Disk} {a : ℕ} (off src m : ℕ)
    (l : off / 512 < 140) (fits : off % 512 + m ≤ 512) (x : IsMapped sb ip d (off / 512) a jp e)
    (mem : Memory) where
  step_kept :
      (k : ℕ)
      → k < 71680
      → (k < off) ⊎ (off + m ≤ k)
      → HasBlock ip d k
      → content jp (copy_in (slot jp e (off / 512)) (off % 512) src m mem e) k ≡ content ip d k
  step_kept k u out nz =
      let i = off / 512 in
      let o = off % 512 in
      let g = copy_in (slot jp e i) o src m mem e in
      let hb = here_block l x o src m mem in
      let same = same_slot l x o src m mem (k / 512) (omega (arith, u)) nz in
      ap (λ y. g y (k % 512)) (slots_stay x.file i l hb o src m mem (k / 512))
      ∙ elim (ℕ_discrete (k / 512) i) [
        | yes here ↦
            ap (λ n. g (slot jp e n) (k % 512)) here
            ∙ copy_in_outside (slot jp e i) o src m mem e (k % 512) (within k here out)
            ∙ ap (λ n. e (slot jp e n) (k % 512)) (sym here)
        | no other ↦ away x.file i l hb o src m mem (slot jp e (k / 512)) (k % 512) (λ s.
            x.file.apart i (k / 512) (omega (arith, l)) (omega (arith, u)) (λ t. other (sym t)) hb
              s)
      ]
      ∙ ap (λ y. e y (k % 512)) same
      ∙ x.kept (k / 512) (k % 512) (omega (arith, u)) nz
    where
      within :
          (k : ℕ)
          → k / 512 ≡ off / 512
          → (k < off) ⊎ (off + m ≤ k)
          → (k % 512 < off % 512) ⊎ (off % 512 + m ≤ k % 512)
      within k same (inl h) = inl (omega (arith, same, h))
      within k same (inr h) = inr (omega (arith, same, h))

  step_byte :
      (q : ℕ)
      → q < m
      → content jp (copy_in (slot jp e (off / 512)) (off % 512) src m mem e) (off + q)
        ≡ mem (src + q)
  step_byte q u =
      let i = off / 512 in
      let o = off % 512 in
      let g = copy_in (slot jp e i) o src m mem e in
      let hb = here_block l x o src m mem in
      ap (λ n. g (slot jp g n) ((off + q) % 512)) (block_of off q (omega (arith, u, fits)))
      ∙ ap (λ p. g (slot jp g i) p) (byte_of off q (omega (arith, u, fits)))
      ∙ ap (λ y. g y (o + q)) (slots_stay x.file i l hb o src m mem i)
      ∙ copy_in_inside (slot jp e i) o src m mem e (o + q) (omega arith) (omega (arith, u))
      ∙ ap (λ p. mem (src + p)) (back o q)
    where
      back : (o q : ℕ) → o + q - o ≡ q
      back o q = omega arith

  step_has :
      (k : ℕ)
      → slot jp e (k / 512) ≢ 0
      → HasBlock jp (copy_in (slot jp e (off / 512)) (off % 512) src m mem e) k
  step_has k nz z = nz (
      sym (
        slots_stay x.file (off / 512) l (here_block l x (off % 512) src m mem) (off % 512) src m mem
          (k / 512))
      ∙ z)

  pub step-IsWritten :
      IsWritten sb src off m mem ip d jp (copy_in (slot jp e (off / 512)) (off % 512) src m mem e)
  step-IsWritten =
      let i = off / 512 in
      let o = off % 512 in
      let hb = here_block l x o src m mem in
      record {
        file = IsFile-copy_in x.file i l hb o src m mem;
        reserved = IsReserved-copy_in x.file i l hb o src m mem x.reserved;
        has = λ q u.
            step_has (off + q)
              (λ z. hb (ap (slot jp e) (sym (block_of off q (omega (arith, u, fits)))) ∙ z));
        bytes = step_byte;
        keeps = λ k u nz.
            step_has k
              (λ z. nz (sym (same_slot l x o src m mem (k / 512) (omega (arith, u)) nz) ∙ z));
        outside = step_kept;
        used = λ b u h z. x.used b u h (sym (bits_stay x.file i l hb o src m mem b u) ∙ z);
        same_size = x.same_size;
        same_kind = x.same_kind;
        same_inum = x.same_inum;
      }

-- A first write and one behind it.
module _ {sb : Superblock} {src off m rest : ℕ} {mem : Memory} {ip jp kp : Inode} {d e g : Disk}
    (bound : off + (m + rest) ≤ 71680) (x : IsWritten sb src off m mem ip d jp e)
    (y : IsWritten sb (src + m) (off + m) rest mem jp e kp g) where
  pub IsWritten-append : IsWritten sb src off (m + rest) mem ip d kp g
  IsWritten-append = record {
    file = y.file;
    reserved = y.reserved;
    has = λ q u. elim (dec_lt q m) [
      | yes near ↦ y.keeps (off + q) (omega (arith, u, bound)) (x.has q near)
      | no far ↦
          subst (λ k. HasBlock kp g k) (over off m q (omega arith)) (y.has (q - m) (omega arith))
    ];
    bytes = λ q u. elim (dec_lt q m) [
      | yes near ↦
          y.outside (off + q) (omega (arith, u, bound)) (inl (omega (arith, near))) (x.has q near)
          ∙ x.bytes q near
      | no far ↦
          ap (content kp g) (sym (over off m q (omega arith)))
          ∙ y.bytes (q - m) (omega arith)
          ∙ ap mem (over src m q (omega arith))
    ];
    keeps = λ k u nz. y.keeps k u (x.keeps k u nz);
    outside = λ k u out nz.
        y.outside k u (later k out) (x.keeps k u nz) ∙ x.outside k u (earlier k out) nz;
    used = λ b u h. y.used b u (x.used b u h);
    same_size = y.same_size ∙ x.same_size;
    same_kind = y.same_kind ∙ x.same_kind;
    same_inum = y.same_inum ∙ x.same_inum;
  }
    where
      over : (o m q : ℕ) → m ≤ q → o + m + (q - m) ≡ o + q
      over o m q h = omega (arith, h)

      later : (k : ℕ) → (k < off) ⊎ (off + (m + rest) ≤ k) → (k < off + m) ⊎ (off + m + rest ≤ k)
      later k (inl h) = inl (omega (arith, h))
      later k (inr h) = inr (omega (arith, h))

      earlier : (k : ℕ) → (k < off) ⊎ (off + (m + rest) ≤ k) → (k < off) ⊎ (off + m ≤ k)
      earlier k (inl h) = inl h
      earlier k (inr h) = inr (omega (arith, h))
