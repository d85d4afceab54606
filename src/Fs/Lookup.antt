-- ===== src/Fs/Lookup.antt =====
-- `dirlookup` of fs.c finds the first entry with the name.
use ele.Common.{
  ℕ, ◌+◌, ◌*◌, ◌%◌, ◌-◌, ◌^◌, ◌<◌, ◌≤◌, ◌≡◌, ◌∙◌, ◌⊎◌, ap, sym, arith, ltb, leb, ◌&&◌, true, false,
  inl, inr, if◌then◌else◌, some, pos, dec_lt,
}
use std.Path.{fun_ext}
use ele.Str.{Memory}
use ele.Fs.{Disk, Superblock, Inode}
use ele.Fs.Content.{Device, readi}
use ele.Fs.Slots.{IsFile, IsReserved}
use ele.Fs.Write.{content, HasBlock}
use ele.Fs.Read.{IsRead, read_loop-IsRead}
use ele.Fs.Roundtrip.{readi-read_loop}

-- A directory whose blocks are all there.
pub record IsDir (sb : Superblock) (dp : Inode) (d : Disk) : Type 0 where
  pub file : IsFile sb dp d
  pub reserved : IsReserved sb d
  pub small : sb.size < 2 ^ 32
  pub is_dir : dp.kind ≡ 1
  pub whole : dp.size % 16 ≡ 0
  pub bounded : dp.size ≤ 71680
  pub blocks : (k : ℕ) → k < dp.size → HasBlock dp d k

-- The memory with entry `i` of the directory at `de`.
abbrev pub with_entry : Inode → Disk → ℕ → ℕ → Memory → Memory
with_entry dp d de i m =
    λ q. if leb de q && ltb q (de + 16) then content dp d (i * 16 + (q - de)) else m q

pub with_entry_inside :
    (dp : Inode) (d : Disk) (de i q : ℕ) (m : Memory)
    → de ≤ q
    → q < de + 16
    → with_entry dp d de i m q ≡ content dp d (i * 16 + (q - de))
with_entry_inside dp d de i q m l u =
    let tested : (leb de q && ltb q (de + 16)) ≡ true = ground (arith, l, u) in
    ap (λ b. if b then content dp d (i * 16 + (q - de)) else m q) tested

pub with_entry_outside :
    (dp : Inode) (d : Disk) (de i q : ℕ) (m : Memory)
    → (q < de) ⊎ (de + 16 ≤ q)
    → with_entry dp d de i m q ≡ m q
with_entry_outside dp d de i q m out =
    let tested : (leb de q && ltb q (de + 16)) ≡ false = ground (arith, out) in
    ap (λ b. if b then content dp d (i * 16 + (q - de)) else m q) tested

-- Inside the local variable or not.
pub place : (de q : ℕ) → ((de ≤ q) × (q < de + 16)) ⊎ ((q < de) ⊎ (de + 16 ≤ q))
place de q = elim (dec_lt q de) [
  | yes below ↦ inr (inl below)
  | no above ↦ elim (dec_lt q (de + 16)) [
    | yes inside ↦ inl (omega arith, inside)
    | no over ↦ inr (inr (omega arith))
  ]
]

-- An entry takes the place of the one before.
pub with_entry-with_entry :
    (dp : Inode) (d : Disk) (de i j : ℕ) (m : Memory)
    → with_entry dp d de j (with_entry dp d de i m) ≡ with_entry dp d de j m
with_entry-with_entry dp d de i j m = fun_ext (λ q. elim (place de q) [
  | inl h ↦
      with_entry_inside dp d de j q (with_entry dp d de i m) h.0 h.1
      ∙ sym (with_entry_inside dp d de j q m h.0 h.1)
  | inr out ↦
      with_entry_outside dp d de j q (with_entry dp d de i m) out
      ∙ with_entry_outside dp d de i q m out
      ∙ sym (with_entry_outside dp d de j q m out)
])

module _ {sb : Superblock} {dp : Inode} {d : Disk} (h : IsDir sb dp d) (devsw : Device)
    (de : ℕ) where
  pub read_entry :
      (i : ℕ) (m : Memory)
      → i * 16 < dp.size
      → readi devsw sb de (i * 16) 16 dp d m ≡ some (pos 16, with_entry dp d de i m, dp, d)
  read_entry i m l =
      let fits : i * 16 + 16 ≤ dp.size = fits_whole i dp.size l h.whole in
      let r =
        read_loop-IsRead 16 sb de (i * 16) 16 dp d m (omega arith) (omega (arith, fits, h.bounded))
          h.small h.file h.reserved (λ q u. h.blocks (i * 16 + q) (omega (arith, u, fits))) in
      readi-read_loop devsw sb (i * 16) 16 dp d m de (λ e. omega (arith, e, h.is_dir)) fits
        (omega (arith, fits, h.bounded)) r.0 r.1
      ∙ ap (λ m'. some (pos 16, m', dp, d)) (fun_ext (same r.0 r.2))
    where
      fits_whole : (i size : ℕ) → i * 16 < size → size % 16 ≡ 0 → i * 16 + 16 ≤ size
      fits_whole i size l e = omega (arith, l, e)

      back : (de q : ℕ) → de ≤ q → de + (q - de) ≡ q
      back de q l = omega (arith, l)

      same :
          (m' : Memory)
          → IsRead de (i * 16) 16 m dp d m'
          → (q : ℕ) → m' q ≡ with_entry dp d de i m q
      same m' r q = elim (place de q) [
        | inl p ↦
            ap m' (sym (back de q p.0))
            ∙ r.bytes (q - de) (omega (arith, p.0, p.1))
            ∙ sym (with_entry_inside dp d de i q m p.0 p.1)
        | inr out ↦ r.outside q out ∙ sym (with_entry_outside dp d de i q m out)
      ]
