-- ===== src/Fs/Bmap.antt =====
-- `bmap` of fs.c: the block of a file at an index, and what stays of the file and of the others.
use ele.Common.{
  word_at, put_word, ℕ, ◌+◌, ◌*◌, ◌^◌, ◌-◌, ◌<◌, ◌≡◌, ◌≢◌, ◌∙◌, refl, ap, sym, subst, arith, dec_lt,
  ltb, true, false, Option, none, some, get_or,
}
use ele.Fs.{Disk, Superblock, Inode}
use ele.Fs.Content.{set_addr, own_addr, own_word, bmap}
use ele.Fs.Slots.{
  slot, slot_direct, slot_word, slot_none, slot_last, IsFile, IsReserved, Claimed, Extends,
  Extends-IsFile,
}
use ele.Fs.Mapped.{
  IsMapped, IsMapped-already, Extends-IsReserved, Extends-IsMapped, IsMapped-after, Bmapped, mapped,
  no_block, Owned, old, new, none_left, own_addr-Owned, own_word-Owned,
}
use ele.Fs.Grow.{Extends-direct, Extends-indirect, Extends-word}

module _ {sb : Superblock} {ip : Inode} {d : Disk} (f : IsFile sb ip d) (r : IsReserved sb d) where
  direct-Bmapped : (i : ℕ) → i < 12 → Bmapped sb i ip d (own_addr sb i ip d)
  direct-Bmapped i l = go (own_addr sb i ip d) (own_addr-Owned sb ip d i r)
    where
      here : slot ip d i ≡ get_or ip.addrs i 0
      here = slot_direct ip d i l

      go :
          (o : Option (ℕ × Inode × Disk))
          → Owned sb d
              (get_or ip.addrs i 0)
              (get_or ip.addrs i 0, ip, d)
              (λ a e. (a, set_addr i a ip, e))
              o
          → Bmapped sb i ip d o
      go (some (a, jp, e)) (old nz) = mapped (get_or ip.addrs i 0) ip d (
          subst (λ a. IsMapped sb ip d i a ip d) here
            (IsMapped-already f r (λ z. nz (sym here ∙ z))))
      go (some (a, jp, e)) (new b g z c) =
          mapped a (set_addr i a ip) e
            (Extends-IsMapped f r (Extends-direct f c i l) (here ∙ z) refl refl refl)
      go none (none_left z h) = no_block 0 (here ∙ z) (λ x s off. h x s)

  -- The inode has an indirect block.
  word-Bmapped :
      (j : ℕ)
      → j < 128
      → sb.size < 2 ^ 32
      → get_or ip.addrs 12 0 ≢ 0
      → Bmapped sb (12 + j) ip d (own_word sb (get_or ip.addrs 12 0) j ip d)
  word-Bmapped j l small nz =
      go (own_word sb (get_or ip.addrs 12 0) j ip d)
        (own_word-Owned sb ip d j r (get_or ip.addrs 12 0))
    where
      back : (j : ℕ) → 12 + j - 12 ≡ j
      back j = omega arith

      here : slot ip d (12 + j) ≡ word_at (get_or ip.addrs 12 0) j d
      here =
          slot_word ip d (12 + j) (omega arith) (omega (arith, l)) nz
          ∙ ap (λ k. word_at (get_or ip.addrs 12 0) k d) (back j)

      go :
          (o : Option (ℕ × Inode × Disk))
          → Owned sb d
              (word_at (get_or ip.addrs 12 0) j d)
              (word_at (get_or ip.addrs 12 0) j d, ip, d)
              (λ a e. (a, ip, put_word (get_or ip.addrs 12 0) (j * 4) a e))
              o
          → Bmapped sb (12 + j) ip d o
      go (some (a, jp, e)) (old some_word) = mapped (word_at (get_or ip.addrs 12 0) j d) ip d (
          subst (λ a. IsMapped sb ip d (12 + j) a ip d) here
            (IsMapped-already f r (λ z. some_word (sym here ∙ z))))
      go (some (a, jp, e)) (new b g z c) =
          mapped b ip (put_word (get_or ip.addrs 12 0) (j * 4) b g) (
            Extends-IsMapped f r (Extends-word f c j l nz (omega (arith, c.is_data.1, small)))
              (here ∙ z) refl refl refl)
      go none (none_left z h) = no_block 0 (here ∙ z) (λ x s off. h x s)

module _ {sb : Superblock} {ip : Inode} {d : Disk} (f : IsFile sb ip d) (r : IsReserved sb d) where
  -- A new indirect block comes first.
  new_indirect :
      {a j : ℕ} {e : Disk}
      → j < 128
      → sb.size < 2 ^ 32
      → get_or ip.addrs 12 0 ≡ 0
      → Claimed sb d a e
      → Bmapped sb (12 + j) ip d (own_word sb a j (set_addr 12 a ip) e)
  new_indirect {a} {j} {e} l small z c =
      let grown : Extends sb ip d 140 a (set_addr 12 a ip) e = Extends-indirect f c z in
      let last : get_or (set_addr 12 a ip).addrs 12 0 ≡ a =
        sym (slot_last (set_addr 12 a ip) e 140 (omega arith)) ∙ grown.here in
      go grown (own_word sb a j (set_addr 12 a ip) e) (
        subst (λ x. Bmapped sb (12 + j) (set_addr 12 a ip) e (own_word sb x j (set_addr 12 a ip) e))
          last
          (word-Bmapped (Extends-IsFile f grown) (Extends-IsReserved f r grown) j l small
            (λ s. omega (arith, c.is_data.0, sym last ∙ s))))
    where
      go :
          Extends sb ip d 140 a (set_addr 12 a ip) e
          → (o : Option (ℕ × Inode × Disk)) → Bmapped sb (12 + j) (set_addr 12 a ip) e o
          → Bmapped sb (12 + j) ip d o
      go x o (mapped b kp g y) = mapped b kp g (
          IsMapped-after f r x refl (slot_none ip d (12 + j) (omega arith) (omega (arith, l)) z)
            refl refl refl y)
      go x o (no_block b w h) =
          no_block a (slot_none ip d (12 + j) (omega arith) (omega (arith, l)) z) (λ y s other.
            λ free.
              h y s (λ none. absurd (omega (arith, c.is_data.0, sym x.here ∙ none)))
                (x.unmoved y s (other (slot_last ip d 140 (omega arith) ∙ z)) ∙ free))

-- `own_word` in the indirect block that a first step gave.
abbrev then_word : Superblock → ℕ → Option (ℕ × Inode × Disk) → Option (ℕ × Inode × Disk)
then_word sb j o = elim o [ none ↦ none | some (x, jp, e) ↦ own_word sb x j jp e ]

module _ (sb : Superblock) (ip : Inode) (d : Disk) where
  bmap_direct : (i : ℕ) → i < 12 → bmap sb i ip d ≡ own_addr sb i ip d
  unfolding bmap
  bmap_direct i l = ground arith

  bmap_indirect : (j : ℕ) → j < 128 → bmap sb (12 + j) ip d ≡ then_word sb j (own_addr sb 12 ip d)
  unfolding bmap
  bmap_indirect j l =
      subst (λ k. bmap sb (12 + j) ip d ≡ then_word sb k (own_addr sb 12 ip d)) (back j)
        (rw (high j, low j l))
    where
      high : (j : ℕ) → ltb (12 + j) 12 ≡ false
      high j = ground arith

      low : (j : ℕ) → j < 128 → ltb (12 + j - 12) 128 ≡ true
      low j l = ground arith

      back : (j : ℕ) → 12 + j - 12 ≡ j
      back j = omega arith

module _ {sb : Superblock} {ip : Inode} {d : Disk} (f : IsFile sb ip d) (r : IsReserved sb d) where
  indirect-Bmapped :
      (j : ℕ) → j < 128 → sb.size < 2 ^ 32 → Bmapped sb (12 + j) ip d (bmap sb (12 + j) ip d)
  indirect-Bmapped j l small =
      subst (Bmapped sb (12 + j) ip d) (sym (bmap_indirect sb ip d j l))
        (go (own_addr sb 12 ip d) (own_addr-Owned sb ip d 12 r))
    where
      go :
          (o : Option (ℕ × Inode × Disk))
          → Owned sb d
              (get_or ip.addrs 12 0)
              (get_or ip.addrs 12 0, ip, d)
              (λ a e. (a, set_addr 12 a ip, e))
              o
          → Bmapped sb (12 + j) ip d (then_word sb j o)
      go (some (a, jp, e)) (old nz) = word-Bmapped f r j l small nz
      go (some (a, jp, e)) (new b g z c) = new_indirect f r l small z c
      go none (none_left z h) =
          no_block 0 (slot_none ip d (12 + j) (omega arith) (omega (arith, l)) z) (λ x s off. h x s)

  -- For a file whose blocks are data, in use and apart, and an index below MAXFILE, `bmap` gives the block
  -- at that index, which it allocates if there is none. The file stays well formed, its other blocks and the
  -- content of all its blocks are as before, no block is freed, and if the block was there then nothing
  -- changes. It panics only when no block is free, or only one and the file has no indirect block.
  pub bmap-Bmapped : (i : ℕ) → i < 140 → sb.size < 2 ^ 32 → Bmapped sb i ip d (bmap sb i ip d)
  bmap-Bmapped i l small = elim (dec_lt i 12) [
    | yes direct ↦
        subst (Bmapped sb i ip d) (sym (bmap_direct sb ip d i direct)) (direct-Bmapped f r i direct)
    | no high ↦
        subst (λ i. Bmapped sb i ip d (bmap sb i ip d)) (back i high)
          (indirect-Bmapped (i - 12) (omega arith) small)
  ]
    where
      back : (i : ℕ) → ¬ (i < 12) → 12 + (i - 12) ≡ i
      back i high = omega (arith, high)
