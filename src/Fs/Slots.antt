-- ===== src/Fs/Slots.antt =====
-- The blocks of a file in fs.c as numbered slots: 0 to 139 hold its content, and 140 is the indirect block.
use ele.Common.{
  word_at, ℕ, ◌%◌, ◌-◌, ◌<◌, ◌≤◌, ◌≡◌, ◌≢◌, ◌∙◌, ap, sym, subst, arith, ℕ_discrete, ◌==◌, ltb,
  if◌then◌else◌, length, get_or,
}
use ele.Fs.{Disk, Superblock, Inode, bitmap_block, mark, bzero}
use ele.Fs.Map.{in_use, IsData, in_use-mark_self, in_use-mark_ne, in_use-bzero, mark-IsData}
use ele.Fs.Alloc.{IsFresh}

unfoldable pub slot : Inode → Disk → ℕ → ℕ
slot ip d n =
    if ltb n 12
    then get_or ip.addrs n 0
    else if ltb n 140
    then if get_or ip.addrs 12 0 == 0 then 0 else word_at (get_or ip.addrs 12 0) (n - 12) d
    else get_or ip.addrs 12 0

module _ (ip : Inode) (d : Disk) (n : ℕ) where
  pub slot_direct : n < 12 → slot ip d n ≡ get_or ip.addrs n 0
  unfolding slot
  slot_direct h = ground arith

  pub slot_word :
      12 ≤ n
      → n < 140
      → get_or ip.addrs 12 0 ≢ 0
      → slot ip d n ≡ word_at (get_or ip.addrs 12 0) (n - 12) d
  unfolding slot
  slot_word l h some_block = ground arith

  pub slot_none : 12 ≤ n → n < 140 → get_or ip.addrs 12 0 ≡ 0 → slot ip d n ≡ 0
  unfolding slot
  slot_none l h no_block = ground arith

  pub slot_last : 140 ≤ n → slot ip d n ≡ get_or ip.addrs 12 0
  unfolding slot
  slot_last h = ground arith

-- The blocks before the data are in use, so that no file gets them.
abbrev pub IsReserved : Superblock → Disk → Type 0
IsReserved sb d = (x : ℕ) → x < sb.size → in_use sb x d ≡ 0 → IsData sb x

-- The blocks of a file are data, in use, and apart from each other.
pub record IsFile (sb : Superblock) (ip : Inode) (d : Disk) : Type 0 where
  pub sized : length ip.addrs ≡ 13
  pub data_blocks : (n : ℕ) → n < 141 → slot ip d n ≢ 0 → IsData sb (slot ip d n)
  pub used : (n : ℕ) → n < 141 → slot ip d n ≢ 0 → in_use sb (slot ip d n) d ≢ 0
  pub apart : (n m : ℕ) → n < 141 → m < 141 → n ≢ m → slot ip d n ≢ 0 → slot ip d n ≢ slot ip d m

-- A block new to the bit map: nothing else changes but its content, which is cleared.
pub record Claimed (sb : Superblock) (d : Disk) (a : ℕ) (e : Disk) : Type 0 where
  pub is_data : IsData sb a
  pub was_free : in_use sb a d ≡ 0
  pub marked : in_use sb a e ≡ 1
  pub unmoved : (c : ℕ) → c < sb.size → a ≢ c → in_use sb c e ≡ in_use sb c d
  pub cleared : (p : ℕ) → p < 512 → e a p ≡ 0
  pub kept : (x p : ℕ) → IsData sb x → a ≢ x → e x p ≡ d x p

module _ (sb : Superblock) (d : Disk) (a : ℕ) (r : IsReserved sb d) where
  Claimed-bzero :
      a < sb.size
      → in_use sb a d ≡ 0
      → Claimed sb d a (bzero a (mark (bitmap_block sb a) (a % 4096) d))
  Claimed-bzero s z =
      let m = mark (bitmap_block sb a) (a % 4096) d in
      record {
        is_data = r a s z;
        was_free = z;
        marked = in_use-bzero sb a a m (r a s z) s ∙ in_use-mark_self sb a d;
        unmoved = λ c l off. in_use-bzero sb a c m (r a s z) l ∙ in_use-mark_ne sb a d c off;
        cleared = λ p l. zero_at p l m;
        kept = λ x p h off. other x p off m ∙ mark-IsData sb a x p d s h;
      }
    where
      zero_at : (p : ℕ) → p < 512 → (f : Disk) → bzero a f a p ≡ 0
      zero_at p l f = ground arith

      other : (x p : ℕ) → a ≢ x → (f : Disk) → bzero a f x p ≡ f x p
      other x p off f = ground arith

  pub IsFresh-Claimed : (e : Disk) → IsFresh sb d a e → Claimed sb d a e
  IsFresh-Claimed e f = subst (Claimed sb d a) (sym f.after) (Claimed-bzero f.inside f.was_free)

-- The file got the new block `a` at slot `i`.
pub record Extends (sb : Superblock) (ip : Inode) (d : Disk) (i a : ℕ) (jp : Inode) (e : Disk)
    : Type 0 where
  pub is_data : IsData sb a
  pub was_free : in_use sb a d ≡ 0
  pub marked : in_use sb a e ≡ 1
  pub unmoved : (c : ℕ) → c < sb.size → a ≢ c → in_use sb c e ≡ in_use sb c d
  pub kept : (y p : ℕ) → IsData sb y → a ≢ y → slot ip d 140 ≢ y → e y p ≡ d y p
  pub sized : length jp.addrs ≡ 13
  pub here : slot jp e i ≡ a
  pub others : (n : ℕ) → n < 141 → n ≢ i → slot jp e n ≡ slot ip d n

module _ {sb : Superblock} {ip jp : Inode} {d e : Disk} {i a : ℕ} (f : IsFile sb ip d)
    (x : Extends sb ip d i a jp e) where
  new_slot : (n : ℕ) → n < 141 → slot ip d n ≢ a
  new_slot n l same = elim (ℕ_discrete (slot ip d n) 0) [
    | yes z ↦ ground (arith, x.is_data.0, z, same)
    | no some_block ↦ f.used n l some_block (subst (λ b. in_use sb b d ≡ 0) (sym same) x.was_free)
  ]

  at_new : {n : ℕ} → n ≡ i → slot jp e n ≡ a
  at_new same = ap (slot jp e) same ∙ x.here

  stays : (n : ℕ) → n < 141 → n ≢ i → slot jp e n ≢ 0 → in_use sb (slot jp e n) e ≢ 0
  stays n l off nz =
      let same = x.others n l off in
      let nz' : slot ip d n ≢ 0 = λ z. nz (same ∙ z) in
      λ z. f.used n l nz' (
        sym (x.unmoved (slot ip d n) (f.data_blocks n l nz').1 (λ b. new_slot n l (sym b)))
        ∙ subst (λ b. in_use sb b e ≡ 0) same z)

  pub Extends-IsFile : IsFile sb jp e
  Extends-IsFile = record {
    sized = x.sized;
    data_blocks = λ n l nz. elim (ℕ_discrete n i) [
      | yes here ↦ subst (IsData sb) (sym (at_new here)) x.is_data
      | no off ↦
          subst (IsData sb) (sym (x.others n l off))
            (f.data_blocks n l (λ z. nz (x.others n l off ∙ z)))
    ];
    used = λ n l nz. elim (ℕ_discrete n i) [
      | yes here ↦
          subst (λ b. in_use sb b e ≢ 0) (sym (at_new here))
            (λ z. absurd (omega (arith, x.marked, z)))
      | no off ↦ stays n l off nz
    ];
    apart = λ n m l k ne nz same. elim (ℕ_discrete n i) [
      | yes here ↦
          new_slot m k (sym (x.others m k (λ e. ne (here ∙ sym e))) ∙ sym same ∙ at_new here)
      | no off ↦ elim (ℕ_discrete m i) [
        | yes there ↦ new_slot n l (sym (x.others n l off) ∙ same ∙ at_new there)
        | no far ↦
            f.apart n m l k ne (λ z. nz (x.others n l off ∙ z))
              (sym (x.others n l off) ∙ same ∙ x.others m k far)
      ]
    ];
  }
