-- ===== src/Fs/Truncate.antt =====
-- `itrunc` of fs.c: every block of the file is freed, and no other.
use ele.Common.{
  ℕ, ◌%◌, ◌<◌, ◌≡◌, ◌≢◌, ◌∙◌, refl, ap, sym, subst, arith, ℕ_discrete, dec_lt, ◌==◌, false, Option,
  none, some, Returns, Returns-then, get_or,
}
use ele.Fs.{Disk, Superblock, Inode, bitmap_block, unmark, bfree, inode_block, iupdate}
use ele.Fs.Map.{in_use}
use ele.Fs.Update.{in_use-iupdate}
use ele.Fs.Content.{set_addr, free_addrs, free_words, free_indirect, itrunc, emptied}
use ele.Fs.Slots.{slot, slot_none, slot_last, IsFile}
use ele.Fs.Freed.{IsFreed, IsFreed-none, IsFreed-skip, IsFreed-next, bfree_slot}
use ele.Fs.Clear.{
  IsCleared, IsCleared-skip, IsCleared-set, AddrsFreed, free_addrs-IsFreed, free_words-IsFreed,
}

-- `itrunc` behind its loops: the indirect block, then the inode.
abbrev free_last : Superblock → Inode → Option Disk → Option (Inode × Disk)
free_last sb jp o = elim o [
  | none ↦ none
  | some e ↦ elim (bfree sb (get_or jp.addrs 12 0) e) [
    | none ↦ none
    | some g ↦ some (set_addr 12 0 jp, g)
  ]
]

module _ (sb : Superblock) (jp : Inode) (e : Disk) where
  free_indirect_none : get_or jp.addrs 12 0 ≡ 0 → free_indirect sb jp e ≡ some (jp, e)
  unfolding free_indirect
  free_indirect_none z = rw (free_indirect, z)

  free_indirect_some :
      get_or jp.addrs 12 0 ≢ 0
      → free_indirect sb jp e ≡ free_last sb jp (free_words 128 0 (get_or jp.addrs 12 0) sb e)
  unfolding free_indirect
  free_indirect_some nz = rw (free_indirect, nonzero (get_or jp.addrs 12 0) nz)
    where
      nonzero : (v : ℕ) → v ≢ 0 → (v == 0) ≡ false
      nonzero v h = ground arith

module _ {sb : Superblock} {ip : Inode} {d : Disk} (f : IsFile sb ip d) where
  AllFreed : Inode × Disk → Type 0
  AllFreed r = IsFreed sb ip d 141 r.1 × IsCleared ip 13 r.0

  free_last-AllFreed :
      (jp : Inode) (o : Option Disk)
      → get_or ip.addrs 12 0 ≢ 0
      → IsCleared ip 12 jp
      → Returns o (IsFreed sb ip d 140)
      → Returns (free_last sb jp o) AllFreed
  unfolding AllFreed
  free_last-AllFreed jp none nz c h = h
  free_last-AllFreed jp (some e) nz c h =
      let last = slot_last ip d 140 (omega arith) in
      let nz' : slot ip d 140 ≢ 0 = λ z. nz (sym last ∙ z) in
      let g = unmark (bitmap_block sb (slot ip d 140)) (slot ip d 140 % 4096) e in
      subst (λ o. Returns (elim o [ none ↦ none | some g ↦ some (set_addr 12 0 jp, g) ]) AllFreed)
        (sym (
          ap (λ v. bfree sb v e) (c.rest 12 (omega arith) ∙ sym last)
          ∙ bfree_slot f (omega arith) nz' h))
        (IsFreed-next f (omega arith) nz' h, IsCleared-set c (omega arith))

  free_indirect-AllFreed :
      (r : Inode × Disk) → AddrsFreed f r → Returns (free_indirect sb r.0 r.1) AllFreed
  unfolding AllFreed AddrsFreed
  free_indirect-AllFreed (jp, e) (r, c) =
      let same : get_or jp.addrs 12 0 ≡ get_or ip.addrs 12 0 = c.rest 12 (omega arith) in
      elim (ℕ_discrete (get_or ip.addrs 12 0) 0) [
        | yes z ↦
            subst (λ o. Returns o AllFreed) (sym (free_indirect_none sb jp e (same ∙ z)))
              (
                IsFreed-skip 141 (omega arith)
                    (λ m l u. elim (dec_lt m 140) [
                      | yes word ↦ slot_none ip d m l word z
                      | no end ↦ slot_last ip d m (omega arith) ∙ z
                    ])
                    r,
                IsCleared-skip c (same ∙ z),
              )
        | no nz ↦
            subst (λ o. Returns o AllFreed)
              (sym (free_indirect_some sb jp e (λ z. nz (sym same ∙ z))))
              (free_last-AllFreed jp (free_words 128 0 (get_or jp.addrs 12 0) sb e) nz c (
                subst (λ x. Returns (free_words 128 0 x sb e) (IsFreed sb ip d 140)) (sym same)
                  (free_words-IsFreed f 128 0 e (omega arith) nz r)))
      ]

-- The file after `itrunc`: empty, its blocks free, and all other blocks as they were.
pub record IsTruncated (sb : Superblock) (ip : Inode) (d : Disk) (r : Inode × Disk) : Type 0 where
  pub no_size : r.0.size ≡ 0
  pub no_addrs : (n : ℕ) → n < 13 → get_or r.0.addrs n 0 ≡ 0
  pub freed : (n : ℕ) → n < 141 → slot ip d n ≢ 0 → in_use sb (slot ip d n) r.1 ≡ 0
  pub others :
      (b : ℕ)
      → b < sb.size
      → ((n : ℕ) → n < 141 → slot ip d n ≢ b)
      → in_use sb b r.1 ≡ in_use sb b d

-- For a file whose blocks are data, in use and apart, `itrunc` returns: the file is empty, each of its blocks,
-- the indirect one too, is free in the bit map, and every other block is in use as it was.
pub itrunc-IsTruncated :
    (sb : Superblock) (ip : Inode) (d : Disk)
    → IsFile sb ip d
    → inode_block sb ip.inum < sb.bmapstart
    → Returns (itrunc sb ip d) (IsTruncated sb ip d)
unfolding itrunc AllFreed
itrunc-IsTruncated sb ip d f before =
    Returns-then (AddrsFreed f) (IsTruncated sb ip d) _
      (λ r h.
        Returns-then (AllFreed f) (IsTruncated sb ip d) _ done (free_indirect sb r.0 r.1)
          (free_indirect-AllFreed f r h))
      (free_addrs 12 0 sb ip d) (free_addrs-IsFreed f 12 0 ip d (omega arith) IsFreed-none start)
  where
    start : IsCleared ip 0 ip
    start = record {
      sized = f.sized;
      zeros = λ n l. absurd (omega (arith, l));
      rest = λ n l. refl;
      same_inum = refl;
    }

    done :
        (r : Inode × Disk)
        → AllFreed f r
        → Returns (some (emptied r.0, iupdate sb (emptied r.0) r.1)) (IsTruncated sb ip d)
    done (jp, e) (r, c) =
        let before' : inode_block sb jp.inum < sb.bmapstart =
          subst (λ i. inode_block sb i < sb.bmapstart) (sym c.same_inum) before in
        record {
          no_size = refl;
          no_addrs = λ n l. c.zeros n l;
          freed = λ n l nz. in_use-iupdate sb (emptied jp) e before' (slot ip d n) ∙ r.gone n l nz;
          others = λ b l out. in_use-iupdate sb (emptied jp) e before' b ∙ r.stay b l out;
        }
