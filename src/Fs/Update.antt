-- ===== src/Fs/Update.antt =====
-- `iupdate` of fs.c writes to the block of the inode and nowhere else.
use ele.Common.{
  put_word, put_word_away, ℕ, zero, suc, ◌+◌, ◌*◌, ◌%◌, ◌<◌, ◌≡◌, ◌≢◌, ◌∙◌, refl, arith, List,
  get_or,
}
use ele.Fs.{Disk, Superblock, Inode, bitmap_block, put_short, put_addrs, iupdate, inode_block}
use ele.Fs.Map.{in_use, IsData, in_use-same}

put_short_away : (x o v : ℕ) (d : Disk) (y p : ℕ) → x ≢ y → put_short x o v d y p ≡ d y p
unfolding put_short
put_short_away x o v d y p off = ground arith

put_addrs_away :
    (n i x o : ℕ) (as_ : List ℕ) (d : Disk) (y p : ℕ) → x ≢ y → put_addrs n i x o as_ d y p ≡ d y p
unfolding put_addrs
put_addrs_away zero i x o as_ d y p off = refl
put_addrs_away (suc n) i x o as_ d y p off =
    put_addrs_away n (i + 1) x o as_ (put_word x (o + 12 + i * 4) (get_or as_ i 0) d) y p off
    ∙ put_word_away x (o + 12 + i * 4) (get_or as_ i 0) d y p off

pub iupdate_away :
    (sb : Superblock) (ip : Inode) (d : Disk) (y p : ℕ)
    → inode_block sb ip.inum ≢ y
    → iupdate sb ip d y p ≡ d y p
unfolding iupdate
iupdate_away sb ip d y p off =
    let x = inode_block sb ip.inum in
    let o = ip.inum % 8 * 64 in
    let d1 = put_short x o ip.kind d in
    let d2 = put_short x (o + 2) ip.major d1 in
    let d3 = put_short x (o + 4) ip.minor d2 in
    let d4 = put_short x (o + 6) ip.nlink d3 in
    let d5 = put_word x (o + 8) ip.size d4 in
    put_addrs_away 13 0 x o ip.addrs d5 y p off
    ∙ put_word_away x (o + 8) ip.size d4 y p off
    ∙ put_short_away x (o + 6) ip.nlink d3 y p off
    ∙ put_short_away x (o + 4) ip.minor d2 y p off
    ∙ put_short_away x (o + 2) ip.major d1 y p off
    ∙ put_short_away x o ip.kind d y p off

-- The block of the inode stands before the bit map, which stands before the data.
module _ (sb : Superblock) (ip : Inode) (d : Disk)
    (before : inode_block sb ip.inum < sb.bmapstart) where
  pub in_use-iupdate : (b : ℕ) → in_use sb b (iupdate sb ip d) ≡ in_use sb b d
  in_use-iupdate b =
      in_use-same sb b d (iupdate sb ip d)
        (λ p. iupdate_away sb ip d (bitmap_block sb b) p (λ s. omega (arith, before, s)))

  pub iupdate-IsData : (x p : ℕ) → IsData sb x → iupdate sb ip d x p ≡ d x p
  iupdate-IsData x p h = iupdate_away sb ip d x p (λ s. omega (arith, before, s, h.0))
