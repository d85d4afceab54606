-- ===== src/Fs/Copied.antt =====
-- A write into one block of a file in fs.c: the blocks of the file stay, and only the bytes written change.
use ele.Common.{
  word_at, word_at-same, ℕ, ◌+◌, ◌-◌, ◌<◌, ◌≤◌, ◌≡◌, ◌≢◌, ◌∙◌, ◌⊎◌, sym, subst, arith, ℕ_discrete,
  dec_lt, get_or,
}
use ele.Fs.{Disk, Superblock, Inode, bitmap_block}
use ele.Fs.Map.{in_use, IsData, in_use-same}
use ele.Fs.Content.{Memory, copy_in}
use ele.Fs.Slots.{slot, slot_direct, slot_word, slot_none, slot_last, IsFile, IsReserved}

module _ (x o s m : ℕ) (mem : Memory) (d : Disk) where
  copy_in_away : (y p : ℕ) → x ≢ y → copy_in x o s m mem d y p ≡ d y p
  copy_in_away y p off = ground arith

  pub copy_in_inside : (p : ℕ) → o ≤ p → p < o + m → copy_in x o s m mem d x p ≡ mem (s + (p - o))
  copy_in_inside p l u = ground arith

  pub copy_in_outside : (p : ℕ) → (p < o) ⊎ (o + m ≤ p) → copy_in x o s m mem d x p ≡ d x p
  copy_in_outside p off = ground arith

-- The same slots and the same bit map.
pub IsFile-same :
    (sb : Superblock) (ip : Inode) (d e : Disk)
    → IsFile sb ip d
    → ((n : ℕ) → n < 141 → slot ip e n ≡ slot ip d n)
    → ((b : ℕ) → b < sb.size → in_use sb b e ≡ in_use sb b d)
    → IsFile sb ip e
IsFile-same sb ip d e f same bits = record {
  sized = f.sized;
  data_blocks =
      λ n l nz. subst (IsData sb) (sym (same n l)) (f.data_blocks n l (λ z. nz (same n l ∙ z)));
  used = λ n l nz z.
      let nz' : slot ip d n ≢ 0 = λ z. nz (same n l ∙ z) in
      f.used n l nz' (
        sym (bits (slot ip d n) (f.data_blocks n l nz').1)
        ∙ subst (λ b. in_use sb b e ≡ 0) (same n l) z);
  apart = λ n k l u off nz eq.
      f.apart n k l u off (λ z. nz (same n l ∙ z)) (sym (same n l) ∙ eq ∙ same k u);
}

module _ {sb : Superblock} {ip : Inode} {d : Disk} (f : IsFile sb ip d) (i : ℕ) (l : i < 140)
    (nz : slot ip d i ≢ 0) (o s m : ℕ) (mem : Memory) where
  -- Another block than the one written.
  pub away : (y p : ℕ) → slot ip d i ≢ y → copy_in (slot ip d i) o s m mem d y p ≡ d y p
  away = copy_in_away (slot ip d i) o s m mem d

  pub bits_stay :
      (b : ℕ) → b < sb.size → in_use sb b (copy_in (slot ip d i) o s m mem d) ≡ in_use sb b d
  bits_stay b u = in_use-same sb b d (copy_in (slot ip d i) o s m mem d) (λ p.
      away (bitmap_block sb b) p
        (λ same. omega (arith, (f.data_blocks i (omega (arith, l)) nz).0, u, same)))

  words_stay :
      get_or ip.addrs 12 0 ≢ 0
      → (j : ℕ) → j < 128
      → word_at (get_or ip.addrs 12 0) j (copy_in (slot ip d i) o s m mem d)
        ≡ word_at (get_or ip.addrs 12 0) j d
  words_stay some_block j u =
      word_at-same (get_or ip.addrs 12 0) j d (copy_in (slot ip d i) o s m mem d) u (λ p k.
        away (get_or ip.addrs 12 0) p (λ same.
          f.apart i 140 (omega (arith, l)) (omega arith) (λ e. omega (arith, l, e)) nz
            (same ∙ sym (slot_last ip d 140 (omega arith)))))

  pub slots_stay : (n : ℕ) → slot ip (copy_in (slot ip d i) o s m mem d) n ≡ slot ip d n
  slots_stay n =
      let g = copy_in (slot ip d i) o s m mem d in
      elim (dec_lt n 12) [
        | yes direct ↦ slot_direct ip g n direct ∙ sym (slot_direct ip d n direct)
        | no high ↦ elim (dec_lt n 140) [
          | no end ↦ slot_last ip g n (omega arith) ∙ sym (slot_last ip d n (omega arith))
          | yes word ↦ elim (ℕ_discrete (get_or ip.addrs 12 0) 0) [
            | yes z ↦
                slot_none ip g n (omega arith) word z ∙ sym (slot_none ip d n (omega arith) word z)
            | no some_block ↦
                slot_word ip g n (omega arith) word some_block
                ∙ words_stay some_block (n - 12) (omega arith)
                ∙ sym (slot_word ip d n (omega arith) word some_block)
          ]
        ]
      ]

  pub IsFile-copy_in : IsFile sb ip (copy_in (slot ip d i) o s m mem d)
  IsFile-copy_in =
      IsFile-same sb ip d (copy_in (slot ip d i) o s m mem d) f (λ n k. slots_stay n) bits_stay

  pub IsReserved-copy_in : IsReserved sb d → IsReserved sb (copy_in (slot ip d i) o s m mem d)
  IsReserved-copy_in r b u z = r b u (sym (bits_stay b u) ∙ z)
