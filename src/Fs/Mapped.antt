-- ===== src/Fs/Mapped.antt =====
-- The steps of `bmap` of fs.c: what they do to the file that gets a block.
use ele.Common.{
  word_at, put_word, ℕ, ◌*◌, ◌<◌, ◌≡◌, ◌≢◌, ◌∙◌, refl, sym, subst, arith, ◌==◌, Bool, Bool-cases,
  inl, inr, Option, none, some, get_or, if◌then◌else◌,
}
use ele.Fs.{Disk, Superblock, Inode, balloc}
use ele.Fs.Map.{in_use}
use ele.Fs.Alloc.{Allocated, balloc-Allocated, fresh, full}
use ele.Fs.Content.{set_addr, own_addr, own_word}
use ele.Fs.Slots.{slot, IsFile, IsReserved, Claimed, Extends, Extends-IsFile, IsFresh-Claimed}

-- The file has the block `a` at slot `i`, and all that was in it is as before.
pub record IsMapped (sb : Superblock) (ip : Inode) (d : Disk) (i a : ℕ) (jp : Inode) (e : Disk)
    : Type 0 where
  pub file : IsFile sb jp e
  pub reserved : IsReserved sb e
  pub here : slot jp e i ≡ a
  pub some_block : a ≢ 0
  pub others : (n : ℕ) → n < 140 → n ≢ i → slot jp e n ≡ slot ip d n
  pub used : (b : ℕ) → b < sb.size → in_use sb b d ≢ 0 → in_use sb b e ≢ 0
  pub kept : (n p : ℕ) → n < 140 → slot ip d n ≢ 0 → e (slot ip d n) p ≡ d (slot ip d n) p
  pub already : slot ip d i ≢ 0 → (jp ≡ ip) × (e ≡ d)
  pub same_size : jp.size ≡ ip.size
  pub same_kind : jp.kind ≡ ip.kind
  pub same_inum : jp.inum ≡ ip.inum

module _ {sb : Superblock} {ip : Inode} {d : Disk} {i : ℕ} (f : IsFile sb ip d)
    (r : IsReserved sb d) where
  pub IsMapped-already : slot ip d i ≢ 0 → IsMapped sb ip d i (slot ip d i) ip d
  IsMapped-already nz = record {
    file = f;
    reserved = r;
    here = refl;
    some_block = nz;
    others = λ n l off. refl;
    used = λ b l h. h;
    kept = λ n p l h. refl;
    already = λ h. (refl, refl);
    same_size = refl;
    same_kind = refl;
    same_inum = refl;
  }

module _ {sb : Superblock} {ip jp : Inode} {d e : Disk} {i a : ℕ} (f : IsFile sb ip d)
    (r : IsReserved sb d) (x : Extends sb ip d i a jp e) where
  pub Extends-used : (b : ℕ) → b < sb.size → in_use sb b d ≢ 0 → in_use sb b e ≢ 0
  Extends-used b l u =
      λ z. u (sym (x.unmoved b l (λ s. u (subst (λ c. in_use sb c d ≡ 0) s x.was_free))) ∙ z)

  pub Extends-IsReserved : IsReserved sb e
  Extends-IsReserved b l z = r b l (
      sym (x.unmoved b l (λ s. omega (arith, x.marked, subst (λ c. in_use sb c e ≡ 0) (sym s) z)))
      ∙ z)

  Extends-kept : (n p : ℕ) → n < 140 → slot ip d n ≢ 0 → e (slot ip d n) p ≡ d (slot ip d n) p
  Extends-kept n p l nz =
      x.kept (slot ip d n) p (f.data_blocks n (omega (arith, l)) nz)
        (λ s. f.used n (omega (arith, l)) nz (subst (λ c. in_use sb c d ≡ 0) s x.was_free))
        (λ s. f.apart n 140 (omega (arith, l)) (omega arith) (λ t. omega (arith, l, t)) nz (sym s))

  pub Extends-IsMapped :
      slot ip d i ≡ 0
      → jp.size ≡ ip.size
      → jp.kind ≡ ip.kind
      → jp.inum ≡ ip.inum
      → IsMapped sb ip d i a jp e
  Extends-IsMapped z s k m = record {
    file = Extends-IsFile f x;
    reserved = Extends-IsReserved;
    here = x.here;
    some_block = λ t. omega (arith, x.is_data.0, t);
    others = λ n l off. x.others n (omega (arith, l)) off;
    used = Extends-used;
    kept = Extends-kept;
    already = λ h. absurd (h z);
    same_size = s;
    same_kind = k;
    same_inum = m;
  }

  -- The new block is the indirect one, and another step follows.
  pub IsMapped-after :
      {kp : Inode} {g : Disk} {j b : ℕ}
      → i ≡ 140
      → slot ip d j ≡ 0
      → jp.size ≡ ip.size
      → jp.kind ≡ ip.kind
      → jp.inum ≡ ip.inum
      → IsMapped sb jp e j b kp g
      → IsMapped sb ip d j b kp g
  IsMapped-after {kp} {g} {j} at_last z s k m y =
      let same : (n : ℕ) → n < 140 → slot jp e n ≡ slot ip d n =
        λ n l. x.others n (omega (arith, l)) (λ t. omega (arith, l, t, at_last)) in
      record {
        file = y.file;
        reserved = y.reserved;
        here = y.here;
        some_block = y.some_block;
        others = λ n l off. y.others n l off ∙ same n l;
        used = λ c l h. y.used c l (Extends-used c l h);
        kept = λ n p l nz.
            subst (λ c. g c p ≡ e c p) (same n l) (y.kept n p l (λ t. nz (sym (same n l) ∙ t)))
            ∙ Extends-kept n p l nz;
        already = λ h. absurd (h z);
        same_size = y.same_size ∙ s;
        same_kind = y.same_kind ∙ k;
        same_inum = y.same_inum ∙ m;
      }

-- The outcomes of `bmap`: the block, or a panic. That comes only when all blocks are in use; one may be
-- free if the file has no indirect block yet.
pub data Bmapped (sb : Superblock) (i : ℕ) (ip : Inode) (d : Disk)
    : Option (ℕ × Inode × Disk) → Type 0 where
  mapped :
      (a : ℕ) (jp : Inode) (e : Disk)
      → IsMapped sb ip d i a jp e
      → Bmapped sb i ip d (some (a, jp, e))
  no_block :
      (a : ℕ)
      → slot ip d i ≡ 0
      → ((x : ℕ) → x < sb.size → (slot ip d 140 ≡ 0 → a ≢ x) → in_use sb x d ≢ 0)
      → Bmapped sb i ip d none

-- What a look at the address `v` comes to: the address, a new block, or a panic. `keep` and `put` are what
-- is returned.
pub data Owned (sb : Superblock) (d : Disk) (v : ℕ) (keep : ℕ × Inode × Disk)
    (put : ℕ → Disk → ℕ × Inode × Disk) : Option (ℕ × Inode × Disk) → Type 0 where
  old : v ≢ 0 → Owned sb d v keep put (some keep)
  new : (a : ℕ) (e : Disk) → v ≡ 0 → Claimed sb d a e → Owned sb d v keep put (some (put a e))
  none_left : v ≡ 0 → ((x : ℕ) → x < sb.size → in_use sb x d ≢ 0) → Owned sb d v keep put none

abbrev with_new : (ℕ → Disk → ℕ × Inode × Disk) → Option (ℕ × Disk) → Option (ℕ × Inode × Disk)
with_new put o = elim o [ none ↦ none | some (a, e) ↦ some (put a e) ]

look-Owned :
    (sb : Superblock) (d : Disk) (v : ℕ) (keep : ℕ × Inode × Disk)
    (put : ℕ → Disk → ℕ × Inode × Disk)
    → IsReserved sb d
    → Owned sb d v keep put (if v == 0 then with_new put (balloc sb d) else some keep)
look-Owned sb d v keep put r =
    let branch : Bool → Type 0 =
      λ b. Owned sb d v keep put (if b then with_new put (balloc sb d) else some keep) in
    elim (Bool-cases (v == 0)) [
      | inr nz ↦ subst branch (sym nz) (old (ground arith))
      | inl z ↦ subst branch (sym z) (go (balloc sb d) (ground arith) (balloc-Allocated sb d))
    ]
  where
    go : (o : Option (ℕ × Disk)) → v ≡ 0 → Allocated sb d o → Owned sb d v keep put (with_new put o)
    go (some (a, e)) z (fresh b g h) = new a e z (IsFresh-Claimed sb d a r e h)
    go none z (full h) = none_left z h

module _ (sb : Superblock) (ip : Inode) (d : Disk) (i : ℕ) (r : IsReserved sb d) where
  pub own_addr-Owned :
      Owned sb d
        (get_or ip.addrs i 0)
        (get_or ip.addrs i 0, ip, d)
        (λ a e. (a, set_addr i a ip, e))
        (own_addr sb i ip d)
  unfolding own_addr
  own_addr-Owned =
      look-Owned sb d (get_or ip.addrs i 0) (get_or ip.addrs i 0, ip, d)
        (λ a e. (a, set_addr i a ip, e)) r

  pub own_word-Owned :
      (x : ℕ)
      → Owned sb d
          (word_at x i d)
          (word_at x i d, ip, d)
          (λ a e. (a, ip, put_word x (i * 4) a e))
          (own_word sb x i ip d)
  unfolding own_word
  own_word-Owned x =
      look-Owned sb d (word_at x i d) (word_at x i d, ip, d)
        (λ a e. (a, ip, put_word x (i * 4) a e)) r
