-- ===== src/Fs/Entry.antt =====
-- The entry that `dirlink` of fs.c makes, and the directory after it is written.
use ele.Common.{
  ℕ, ◌+◌, ◌*◌, ◌/◌, ◌%◌, ◌-◌, ◌<◌, ◌≤◌, ◌≡◌, ◌≢◌, ◌∙◌, ◌⊎◌, ap, sym, subst, arith, ◌==◌, ◌&&◌, true,
  not, inl, inr, pos, eq_ℤ, dec_lt,
}
use std.Path.{fun_ext}
use ele.Str.{Memory, strncpy}
use ele.Str.Name.{IsSameName, strncpy-IsBeyond, strncpy-IsSameName, strncmp_same}
use ele.Fs.{Disk, Superblock, Inode}
use ele.Fs.Write.{HasBlock}
use ele.Fs.Put.{IsPut}
use ele.Fs.Dir.{entry_inum, is_named, set_inum}
use ele.Fs.Lookup.{IsDir, with_entry, with_entry_inside, with_entry_outside, place}
use ele.Fs.Search.{is_match}

-- The local variable and the name do not meet.
abbrev pub IsAway : ℕ → ℕ → Type 0
IsAway de name = (name + 14 ≤ de) ⊎ (de + 16 ≤ name)

module _ (de name inum : ℕ) (m : Memory) where
  -- The memory with the new entry.
  abbrev pub new_entry : Memory
  new_entry = set_inum de inum (strncpy (de + 2) name 14 m)

  inum_away : (q : ℕ) → (q < de) ⊎ (de + 2 ≤ q) → new_entry q ≡ strncpy (de + 2) name 14 m q
  inum_away q out = go (strncpy (de + 2) name 14 m)
    where
      go : (r : Memory) → set_inum de inum r q ≡ r q
      go r = ground (arith, out)

  pub new_entry_outside : (q : ℕ) → (q < de) ⊎ (de + 16 ≤ q) → new_entry q ≡ m q
  new_entry_outside q (inl h) =
      inum_away q (inl h) ∙ strncpy-IsBeyond 14 (de + 2) name m q (inl (omega (arith, h)))
  new_entry_outside q (inr h) =
      inum_away q (inr (omega (arith, h)))
      ∙ strncpy-IsBeyond 14 (de + 2) name m q (inr (omega (arith, h)))

  pub new_entry_inum : inum < 65536 → entry_inum de new_entry ≡ inum
  new_entry_inum l = go (strncpy (de + 2) name 14 m)
    where
      low : (r : Memory) → set_inum de inum r de ≡ inum % 256
      low r = ground arith

      high : (r : Memory) → set_inum de inum r (de + 1) ≡ inum / 256 % 256
      high r = ground arith

      go : (r : Memory) → entry_inum de (set_inum de inum r) ≡ inum
      go r = rw (low r, high r) (omega (arith, l))

  module _ (apart : IsAway de name) where
    name_outside : (j : ℕ) → j < 14 → (name + j < de) ⊎ (de + 16 ≤ name + j)
    name_outside j l = go apart
      where
        go : IsAway de name → (name + j < de) ⊎ (de + 16 ≤ name + j)
        go (inl h) = inl (omega (arith, h, l))
        go (inr h) = inr (omega (arith, h, l))

    new_entry-IsSameName : IsSameName 14 name (de + 2) new_entry new_entry
    new_entry-IsSameName j l text =
        inum_away (de + 2 + j) (inr (omega arith))
        ∙ strncpy-IsSameName 14 (de + 2) name m (go apart) j l (λ i u z.
          text i u (new_entry_outside (name + i) (name_outside i (omega (arith, u, l))) ∙ z))
        ∙ sym (new_entry_outside (name + j) (name_outside j l))
      where
        go : IsAway de name → (de + 2 + 14 ≤ name) ⊎ (name + 14 ≤ de + 2)
        go (inl h) = inr (omega (arith, h))
        go (inr h) = inl (omega (arith, h))

    -- The new entry is one that `dirlookup` looks for.
    pub new_entry_match : 0 < inum → inum < 65536 → is_match de name new_entry ≡ true
    new_entry_match h l =
        ap (λ v. not (v == 0) && is_named name de new_entry) (new_entry_inum l)
        ∙ ap (λ v. not (inum == 0) && eq_ℤ v (pos 0))
            (strncmp_same 14 name (de + 2) new_entry new_entry-IsSameName)
        ∙ in_use inum h
      where
        in_use : (inum : ℕ) → 0 < inum → (not (inum == 0) && eq_ℤ (pos 0) (pos 0)) ≡ true
        in_use inum h = ground arith

-- The directory with the bytes of `r` at entry `i`.
module _ {sb : Superblock} {dp jp : Inode} {d e : Disk} (de i : ℕ) (r : Memory) (h : IsDir sb dp d)
    (l : i * 16 ≤ dp.size) (room : dp.size + 16 ≤ 71680)
    (x : IsPut sb de (i * 16) 16 r dp d jp e) where
  pub IsPut-IsDir : IsDir sb jp e
  IsPut-IsDir = record {
    file = x.stored.file;
    reserved = x.stored.reserved;
    small = h.small;
    is_dir = x.same_kind ∙ h.is_dir;
    whole = whole i dp.size jp.size h.whole x.sized;
    bounded = bounded i dp.size jp.size l room x.sized;
    blocks = λ k u. elim (dec_lt k dp.size) [
      | yes old ↦ x.keeps k (omega (arith, old, room)) (h.blocks k old)
      | no new ↦
          subst (HasBlock jp e) (at_byte k (omega (arith, l, new))) (
            x.stored.has (k - i * 16) (within i k dp.size jp.size l (omega (arith, new)) u x.sized))
    ];
  }
    where
      whole :
          (i size size' : ℕ)
          → size % 16 ≡ 0
          → (size' ≡ size) ⊎ (size' ≡ i * 16 + 16)
          → size' % 16 ≡ 0
      whole i size size' z (inl s) = omega (arith, z, s)
      whole i size size' z (inr s) = omega (arith, z, s)

      bounded :
          (i size size' : ℕ)
          → i * 16 ≤ size
          → size + 16 ≤ 71680
          → (size' ≡ size) ⊎ (size' ≡ i * 16 + 16)
          → size' ≤ 71680
      bounded i size size' l z (inl s) = omega (arith, z, s)
      bounded i size size' l z (inr s) = omega (arith, l, z, s)

      within :
          (i k size size' : ℕ)
          → i * 16 ≤ size
          → size ≤ k
          → k < size'
          → (size' ≡ size) ⊎ (size' ≡ i * 16 + 16)
          → k - i * 16 < 16
      within i k size size' l a b (inl s) = omega (arith, l, a, b, s)
      within i k size size' l a b (inr s) = omega (arith, l, a, b, s)

      at_byte : (k : ℕ) → i * 16 ≤ k → i * 16 + (k - i * 16) ≡ k
      at_byte k u = omega (arith, u)

  -- The entry written is read as it was.
  pub entry_here : with_entry jp e de i r ≡ r
  entry_here = fun_ext (λ q. elim (place de q) [
    | inl p ↦
        with_entry_inside jp e de i q r p.0 p.1
        ∙ x.stored.bytes (q - de) (omega (arith, p.0, p.1))
        ∙ ap r (back q p.0)
    | inr out ↦ with_entry_outside jp e de i q r out
  ])
    where
      back : (q : ℕ) → de ≤ q → de + (q - de) ≡ q
      back q l = omega (arith, l)

  -- The other entries are read as they were, with the same memory around.
  pub entry_other :
      (j : ℕ) (m : Memory)
      → j * 16 < dp.size
      → j ≢ i
      → ((q : ℕ) → (q < de) ⊎ (de + 16 ≤ q) → r q ≡ m q)
      → with_entry jp e de j r ≡ with_entry dp d de j m
  entry_other j m u off around = fun_ext (λ q. elim (place de q) [
    | inl p ↦
        with_entry_inside jp e de j q r p.0 p.1
        ∙ x.outside (j * 16 + (q - de)) (omega (arith, p.0, p.1, u, room))
            (elim (dec_lt j i) [
              | yes below ↦ inl (omega (arith, p.0, p.1, below))
              | no above ↦ inr (omega (arith, p.0, p.1, above, off))
            ])
            (h.blocks (j * 16 + (q - de)) (inside j q dp.size p.0 p.1 u h.whole))
        ∙ sym (with_entry_inside dp d de j q m p.0 p.1)
    | inr out ↦
        with_entry_outside jp e de j q r out
        ∙ around q out
        ∙ sym (with_entry_outside dp d de j q m out)
  ])
    where
      inside :
          (j q size : ℕ)
          → de ≤ q
          → q < de + 16
          → j * 16 < size
          → size % 16 ≡ 0
          → j * 16 + (q - de) < size
      inside j q size a b u z = omega (arith, a, b, u, z)
