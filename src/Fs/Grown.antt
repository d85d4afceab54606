-- ===== src/Fs/Grown.antt =====
-- The end of `writei` in fs.c: a file that has grown goes to the disk with its new size.
use ele.Common.{
  word_at-same, ℕ, ◌+◌, ◌/◌, ◌%◌, ◌-◌, ◌<◌, ◌≤◌, ◌≡◌, ◌∙◌, ap, sym, subst, arith, ℕ_discrete,
  dec_lt, get_or,
}
use ele.Fs.{Disk, Superblock, Inode, inode_block, iupdate}
use ele.Fs.Map.{IsData}
use ele.Fs.Update.{in_use-iupdate, iupdate-IsData}
use ele.Fs.Content.{Memory, grown}
use ele.Fs.Slots.{slot, slot_direct, slot_word, slot_none, slot_last, IsFile, IsReserved}
use ele.Fs.Copied.{IsFile-same}
use ele.Fs.Write.{content, HasBlock, IsWritten}

module _ {sb : Superblock} {ip : Inode} {d : Disk} (f : IsFile sb ip d) (e : Disk)
    (data_same : (x p : ℕ) → IsData sb x → e x p ≡ d x p) where
  -- The slots of a file stand in its inode and in data.
  pub slots_same : (n : ℕ) → slot ip e n ≡ slot ip d n
  slots_same n = elim (dec_lt n 12) [
    | yes direct ↦ slot_direct ip e n direct ∙ sym (slot_direct ip d n direct)
    | no high ↦ elim (dec_lt n 140) [
      | no end ↦ slot_last ip e n (omega arith) ∙ sym (slot_last ip d n (omega arith))
      | yes word ↦ elim (ℕ_discrete (get_or ip.addrs 12 0) 0) [
        | yes z ↦
            slot_none ip e n (omega arith) word z ∙ sym (slot_none ip d n (omega arith) word z)
        | no nz ↦
            slot_word ip e n (omega arith) word nz
            ∙ word_at-same (get_or ip.addrs 12 0) (n - 12) d e (omega arith) (λ p l.
              data_same (get_or ip.addrs 12 0) p (
                subst (IsData sb) (slot_last ip d 140 (omega arith)) (
                  f.data_blocks 140 (omega arith)
                    (λ z. nz (sym (slot_last ip d 140 (omega arith)) ∙ z)))))
            ∙ sym (slot_word ip d n (omega arith) word nz)
      ]
    ]
  ]

  pub content_same : (k : ℕ) → k < 71680 → HasBlock ip d k → content ip e k ≡ content ip d k
  content_same k u has =
      ap (λ x. e x (k % 512)) (slots_same (k / 512))
      ∙ data_same (slot ip d (k / 512)) (k % 512) (f.data_blocks (k / 512) (omega (arith, u)) has)

-- A new size is no change of the blocks.
pub IsFile-grown :
    {sb : Superblock} {ip : Inode} {d : Disk} (size : ℕ)
    → IsFile sb ip d
    → IsFile sb (grown size ip) d
unfolding slot
IsFile-grown size f = record {
  sized = f.sized;
  data_blocks = f.data_blocks;
  used = f.used;
  apart = f.apart;
}

pub record IsStored (sb : Superblock) (src off n : ℕ) (mem : Memory) (jp : Inode) (e : Disk)
    : Type 0 where
  pub file : IsFile sb jp e
  pub reserved : IsReserved sb e
  pub has : (q : ℕ) → q < n → HasBlock jp e (off + q)
  pub bytes : (q : ℕ) → q < n → content jp e (off + q) ≡ mem (src + q)

module _ {sb : Superblock} {src off n : ℕ} {mem : Memory} {ip jp : Inode} {d e : Disk}
    (x : IsWritten sb src off n mem ip d jp e) where
  pub IsWritten-IsStored : IsStored sb src off n mem jp e
  IsWritten-IsStored = record { file = x.file; reserved = x.reserved; has = x.has; bytes = x.bytes }

  pub grown-IsStored :
      (size : ℕ)
      → inode_block sb jp.inum < sb.bmapstart
      → off + n ≤ 71680
      → IsStored sb src off n mem (grown size jp) (iupdate sb (grown size jp) e)
  unfolding slot
  grown-IsStored size before bound =
      let g = iupdate sb (grown size jp) e in
      let same : (y p : ℕ) → IsData sb y → g y p ≡ e y p =
        iupdate-IsData sb (grown size jp) e before in
      record {
        file =
            IsFile-same sb (grown size jp) e g (IsFile-grown size x.file)
              (λ k l. slots_same (IsFile-grown size x.file) g same k)
              (λ b l. in_use-iupdate sb (grown size jp) e before b);
        reserved = λ b l z. x.reserved b l (sym (in_use-iupdate sb (grown size jp) e before b) ∙ z);
        has = λ q l z.
            x.has q l (sym (slots_same (IsFile-grown size x.file) g same ((off + q) / 512)) ∙ z);
        bytes = λ q l.
            content_same (IsFile-grown size x.file) g same (off + q) (omega (arith, l, bound))
              (x.has q l)
            ∙ x.bytes q l;
      }
