-- ===== src/Fs/Roundtrip.antt =====
-- `writei` and then `readi` of fs.c.
use ele.Common.{
  ℕ, ◌+◌, ◌*◌, ◌/◌, ◌%◌, ◌^◌, ◌<◌, ◌≤◌, ◌≡◌, ◌≢◌, ◌∙◌, sym, subst, arith, ◌==◌, ltb, ◌&&◌, ◌||◌,
  true, false, Bool-cases, inl, inr, if◌then◌else◌, Option, none, some, ℤ, pos,
}
use ele.Fs.{Disk, Superblock, Inode, inode_block, iupdate}
use ele.Fs.Content.{Memory, Device, grown, write_loop, read_loop, writei, readi}
use ele.Fs.Slots.{slot, IsFile, IsReserved}
use ele.Fs.Loops.{IsFilled, Wrote, wrote, stuck, write_loop-Wrote}
use ele.Fs.Read.{read_loop-IsRead}
use ele.Fs.Write.{IsWritten}
use ele.Fs.Grown.{IsStored, IsWritten-IsStored, grown-IsStored}

-- What `writei` does when its loop has run.
abbrev pub finish :
    Superblock → ℕ → ℕ → Memory → Option (Inode × Disk) → Option (ℤ × Memory × Inode × Disk)
finish sb off n mem o = elim o [
  | none ↦ none
  | some (jp, e) ↦
      if ltb 0 n && ltb jp.size (off + n)
      then some (pos n, mem, grown (off + n) jp, iupdate sb (grown (off + n) jp) e)
      else some (pos n, mem, jp, e)
]

module _ (devsw : Device) (sb : Superblock) (off n : ℕ) (ip : Inode) (d : Disk) (mem : Memory) where
  pub writei-write_loop :
      (src : ℕ)
      → ip.kind ≢ 3
      → off ≤ ip.size
      → off + n ≤ 71680
      → writei devsw sb src off n mem ip d
        ≡ finish sb off n mem (write_loop n sb src off n mem ip d)
  unfolding writei
  writei-write_loop src k l bound = rw (file ip.kind k, early ip.size l, fits)
    where
      file : (kind : ℕ) → kind ≢ 3 → (kind == 3) ≡ false
      file kind h = ground arith

      early : (size : ℕ) → off ≤ size → (ltb size off || ltb ((off + n) % 2 ^ 32) off) ≡ false
      early size h = ground arith

      fits : ltb (140 * 512) ((off + n) % 2 ^ 32) ≡ false
      fits = ground (arith, bound)

  pub readi-read_loop :
      (dst : ℕ)
      → ip.kind ≢ 3
      → off + n ≤ ip.size
      → off + n ≤ 71680
      → (mem' : Memory) → read_loop n sb dst off n ip d mem ≡ some (mem', ip, d)
      → readi devsw sb dst off n ip d mem ≡ some (pos n, mem', ip, d)
  unfolding readi
  readi-read_loop dst k l bound mem' e =
      rw (file ip.kind k, early ip.size l, whole ip.size l, e, whole ip.size l)
    where
      file : (kind : ℕ) → kind ≢ 3 → (kind == 3) ≡ false
      file kind h = ground arith

      early : (size : ℕ) → off + n ≤ size → (ltb size off || ltb ((off + n) % 2 ^ 32) off) ≡ false
      early size h = ground arith

      whole : (size : ℕ) → off + n ≤ size → ltb size ((off + n) % 2 ^ 32) ≡ false
      whole size h = ground (arith, bound)

-- The outcomes of a write of `n` bytes from `src` on to the offset `off` and a read of them to `dst`.
pub data ReadBack (devsw : Device) (sb : Superblock) (src dst off n : ℕ) (mem mem2 : Memory)
    (ip : Inode) (d : Disk) : Type 0 where
  read_back :
      (jp : Inode) (e : Disk) (mem' : Memory)
      → writei devsw sb src off n mem ip d ≡ some (pos n, mem, jp, e)
      → readi devsw sb dst off n jp e mem2 ≡ some (pos n, mem', jp, e)
      → ((q : ℕ) → q < n → mem' (dst + q) ≡ mem (src + q))
      → IsFile sb jp e
      → IsReserved sb e
      → ReadBack devsw sb src dst off n mem mem2 ip d
  no_room :
      (m a : ℕ) (jp : Inode) (g : Disk)
      → m < n
      → write_loop n sb src off m mem ip d ≡ some (jp, g)
      → IsWritten sb src off m mem ip d jp g
      → slot jp g ((off + m) / 512) ≡ 0
      → IsFilled sb jp g a
      → writei devsw sb src off n mem ip d ≡ none
      → ReadBack devsw sb src dst off n mem mem2 ip d

module _ (devsw : Device) {sb : Superblock} {src off n : ℕ} {mem : Memory} {ip jp : Inode}
    {d e : Disk} (dst : ℕ) (mem2 : Memory) (small : sb.size < 2 ^ 32)
    (bound : off + n ≤ 71680) where
  stored-ReadBack :
      jp.kind ≢ 3
      → off + n ≤ jp.size
      → writei devsw sb src off n mem ip d ≡ some (pos n, mem, jp, e)
      → IsStored sb src off n mem jp e
      → ReadBack devsw sb src dst off n mem mem2 ip d
  stored-ReadBack k l w x =
      let r =
        read_loop-IsRead n sb dst off n jp e mem2 (omega arith) bound small x.file x.reserved
          x.has in
      read_back jp e r.0 w (readi-read_loop devsw sb off n jp e mem2 dst k l bound r.0 r.1)
        (λ q u. r.2.bytes q u ∙ x.bytes q u) x.file x.reserved

module _ (sb : Superblock) (off n : ℕ) (mem : Memory) (jp : Inode) (e : Disk) where
  pub finish-grown :
      (ltb 0 n && ltb jp.size (off + n)) ≡ true
      → finish sb off n mem (some (jp, e))
        ≡ some (pos n, mem, grown (off + n) jp, iupdate sb (grown (off + n) jp) e)
  finish-grown h = rw h

  pub finish_kept :
      (ltb 0 n && ltb jp.size (off + n)) ≡ false
      → finish sb off n mem (some (jp, e)) ≡ some (pos n, mem, jp, e)
  finish_kept h = rw h

-- For a file whose blocks are data, in use and apart, an offset up to its size and an end below the largest
-- size: `writei` of `n` bytes returns `n` with the file well formed, and `readi` of `n` bytes at that offset
-- then returns `n`, changes nothing on the disk, and puts the bytes written at the address it is given. Or
-- `writei` panics; then its loop succeeds on the first `m` bytes of the range, which stand in the file from
-- then on, and on the disk that it leaves the next byte has no block, and every block of the disk is in use (but
-- one, at most, if the file has no indirect block).
pub writei-readi :
    (devsw : Device) (sb : Superblock) (src dst off n : ℕ) (mem mem2 : Memory) (ip : Inode)
    (d : Disk)
    → IsFile sb ip d
    → IsReserved sb d
    → sb.size < 2 ^ 32
    → inode_block sb ip.inum < sb.bmapstart
    → ip.kind ≢ 3
    → off ≤ ip.size
    → off + n ≤ 71680
    → ReadBack devsw sb src dst off n mem mem2 ip d
writei-readi devsw sb src dst off n mem mem2 ip d f r small before k l bound =
    go (write_loop n sb src off n mem ip d)
      (writei-write_loop devsw sb off n ip d mem src k l bound)
      (write_loop-Wrote n sb src off n mem ip d (omega arith) bound small f r)
  where
    within : (n size : ℕ) → (ltb 0 n && ltb size (off + n)) ≡ false → off ≤ size → off + n ≤ size
    within n size h l = ground arith

    go :
        (o : Option (Inode × Disk))
        → writei devsw sb src off n mem ip d ≡ finish sb off n mem o
        → Wrote n sb src off n mem ip d o
        → ReadBack devsw sb src dst off n mem mem2 ip d
    go o w (stuck q a jp g lo run x z full) = no_room q a jp g lo run x z full w
    go o w (wrote jp e x) = elim (Bool-cases (ltb 0 n && ltb jp.size (off + n))) [
      | inl more ↦
          stored-ReadBack devsw dst mem2 small bound (λ s. k (sym x.same_kind ∙ s)) (omega arith)
            (w ∙ finish-grown sb off n mem jp e more)
            (grown-IsStored x (off + n)
              (subst (λ i. inode_block sb i < sb.bmapstart) (sym x.same_inum) before) bound)
      | inr kept ↦
          stored-ReadBack devsw dst mem2 small bound (λ s. k (sym x.same_kind ∙ s))
            (within n jp.size kept (subst (λ s. off ≤ s) (sym x.same_size) l))
            (w ∙ finish_kept sb off n mem jp e kept) (IsWritten-IsStored x)
    ]
