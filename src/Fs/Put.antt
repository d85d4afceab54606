-- ===== src/Fs/Put.antt =====
-- `writei` of fs.c: the file after it, with what stays.
use ele.Common.{
  ℕ, ◌+◌, ◌/◌, ◌^◌, ◌<◌, ◌≤◌, ◌≡◌, ◌≢◌, ◌∙◌, ◌⊎◌, refl, sym, subst, arith, ltb, ◌&&◌, false,
  Bool-cases, inl, inr, Option, none, some, ℤ, pos,
}
use ele.Fs.{Disk, Superblock, Inode, inode_block, iupdate}
use ele.Fs.Map.{IsData}
use ele.Fs.Update.{iupdate-IsData}
use ele.Fs.Content.{Memory, Device, grown, write_loop, writei}
use ele.Fs.Slots.{slot, IsFile, IsReserved}
use ele.Fs.Write.{content, HasBlock, IsWritten}
use ele.Fs.Loops.{IsFilled, Wrote, wrote, stuck, write_loop-Wrote}
use ele.Fs.Grown.{
  slots_same, content_same, IsFile-grown, IsStored, IsWritten-IsStored, grown-IsStored,
}
use ele.Fs.Roundtrip.{finish, finish-grown, finish_kept, writei-write_loop}

-- The file after a write: the bytes written, all other bytes, and the size.
pub record IsPut (sb : Superblock) (src off n : ℕ) (mem : Memory) (ip : Inode) (d : Disk)
    (jp : Inode) (e : Disk) : Type 0 where
  pub stored : IsStored sb src off n mem jp e
  pub keeps : (k : ℕ) → k < 71680 → HasBlock ip d k → HasBlock jp e k
  pub outside :
      (k : ℕ)
      → k < 71680
      → (k < off) ⊎ (off + n ≤ k)
      → HasBlock ip d k
      → content jp e k ≡ content ip d k
  pub same_kind : jp.kind ≡ ip.kind
  pub reaches : off + n ≤ jp.size
  pub sized : (jp.size ≡ ip.size) ⊎ (jp.size ≡ off + n)

module _ {sb : Superblock} {src off n : ℕ} {mem : Memory} {ip jp : Inode} {d e : Disk}
    (x : IsWritten sb src off n mem ip d jp e) where
  kept-IsPut : off + n ≤ jp.size → IsPut sb src off n mem ip d jp e
  kept-IsPut l = record {
    stored = IsWritten-IsStored x;
    keeps = x.keeps;
    outside = x.outside;
    same_kind = x.same_kind;
    reaches = l;
    sized = inl x.same_size;
  }

  grown-IsPut :
      inode_block sb jp.inum < sb.bmapstart
      → off + n ≤ 71680
      → IsPut sb src off n mem ip d (grown (off + n) jp) (iupdate sb (grown (off + n) jp) e)
  unfolding slot
  grown-IsPut before bound =
      let jp' = grown (off + n) jp in
      let g = iupdate sb jp' e in
      let same : (y p : ℕ) → IsData sb y → g y p ≡ e y p = iupdate-IsData sb jp' e before in
      let f : IsFile sb jp' e = IsFile-grown (off + n) x.file in
      record {
        stored = grown-IsStored x (off + n) before bound;
        keeps = λ k l has z. x.keeps k l has (sym (slots_same f g same (k / 512)) ∙ z);
        outside =
            λ k l out has. content_same f g same k l (x.keeps k l has) ∙ x.outside k l out has;
        same_kind = x.same_kind;
        reaches = omega arith;
        sized = inr refl;
      }

-- The outcomes of `writei` on a file: the bytes are put, or the loop succeeds on the first `m` and finds no
-- block for the next.
pub data Put (sb : Superblock) (src off n : ℕ) (mem : Memory) (ip : Inode) (d : Disk)
    : Option (ℤ × Memory × Inode × Disk) → Type 0 where
  put :
      (jp : Inode) (e : Disk)
      → IsPut sb src off n mem ip d jp e
      → Put sb src off n mem ip d (some (pos n, mem, jp, e))
  no_space :
      (m a : ℕ) (jp : Inode) (g : Disk)
      → m < n
      → write_loop n sb src off m mem ip d ≡ some (jp, g)
      → IsWritten sb src off m mem ip d jp g
      → slot jp g ((off + m) / 512) ≡ 0
      → IsFilled sb jp g a
      → Put sb src off n mem ip d none

pub writei-Put :
    (devsw : Device) (sb : Superblock) (src off n : ℕ) (mem : Memory) (ip : Inode) (d : Disk)
    → IsFile sb ip d
    → IsReserved sb d
    → sb.size < 2 ^ 32
    → inode_block sb ip.inum < sb.bmapstart
    → ip.kind ≢ 3
    → off ≤ ip.size
    → off + n ≤ 71680
    → Put sb src off n mem ip d (writei devsw sb src off n mem ip d)
writei-Put devsw sb src off n mem ip d f r small before k l bound =
    subst (Put sb src off n mem ip d)
      (sym (writei-write_loop devsw sb off n ip d mem src k l bound))
      (go (write_loop n sb src off n mem ip d)
        (write_loop-Wrote n sb src off n mem ip d (omega arith) bound small f r))
  where
    within : (n size : ℕ) → (ltb 0 n && ltb size (off + n)) ≡ false → off ≤ size → off + n ≤ size
    within n size h l = ground arith

    go :
        (o : Option (Inode × Disk))
        → Wrote n sb src off n mem ip d o
        → Put sb src off n mem ip d (finish sb off n mem o)
    go o (stuck q a jp g lo run x z full) = no_space q a jp g lo run x z full
    go o (wrote jp e x) = elim (Bool-cases (ltb 0 n && ltb jp.size (off + n))) [
      | inl more ↦ subst (Put sb src off n mem ip d) (sym (finish-grown sb off n mem jp e more)) (
          put (grown (off + n) jp) (iupdate sb (grown (off + n) jp) e) (
            grown-IsPut x (subst (λ i. inode_block sb i < sb.bmapstart) (sym x.same_inum) before)
              bound))
      | inr kept ↦ subst (Put sb src off n mem ip d) (sym (finish_kept sb off n mem jp e kept)) (
          put jp e
            (kept-IsPut x (within n jp.size kept (subst (λ s. off ≤ s) (sym x.same_size) l))))
    ]
