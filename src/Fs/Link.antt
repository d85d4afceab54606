-- ===== src/Fs/Link.antt =====
-- `dirlink` and then `dirlookup` of fs.c.
use mathlib.Core.Option.{some_inj}
use ele.Common.{
  ℕ, ◌+◌, ◌*◌, ◌/◌, ◌%◌, ◌<◌, ◌≤◌, ◌≡◌, ◌≢◌, ◌∙◌, ◌⊎◌, refl, ap, sym, subst, arith, ℕ_discrete,
  ◌==◌, Bool, true, false, inl, inr, if◌then◌else◌, Option, none, some, ℤ, pos, negsuc, eq_ℤ,
}
use ele.Str.{Memory}
use ele.Fs.{Disk, Superblock, Inode, inode_block}
use ele.Fs.Content.{Device, write_loop, writei}
use ele.Fs.Slots.{slot}
use ele.Fs.Loops.{IsFilled, write_end}
use ele.Fs.Write.{IsWritten}
use ele.Fs.Put.{IsPut, Put, put, no_space, writei-Put}
use ele.Fs.Dir.{Search, entry_inum, find_entry, dirlookup, write_entry, dirlink}
use ele.Fs.Lookup.{IsDir, with_entry, with_entry-with_entry}
use ele.Fs.Search.{
  Searched, found, not_found, find_entry-Searched, is_match, Looked, at_first, absent,
  dirlookup-Looked,
}
use ele.Fs.Entry.{
  IsAway, new_entry, new_entry_outside, new_entry_match, new_entry_inum, IsPut-IsDir, entry_here,
  entry_other,
}

-- The outcomes of `dirlink` for a name: there is an entry with the name; the directory has no block at its end
-- and the disk none to give; or the entry is found from then on.
pub data Linked (devsw : Device) (sb : Superblock) (de name inum : ℕ) (dp : Inode) (d : Disk)
    (m : Memory) : Type 0 where
  there_before :
      (i : ℕ) (m' : Memory)
      → i * 16 < dp.size
      → is_match de name (with_entry dp d de i m) ≡ true
      → dirlink devsw sb de name inum dp d m ≡ some (negsuc 0, m', dp, d)
      → Linked devsw sb de name inum dp d m
  no_block :
      (a : ℕ)
      → slot dp d (dp.size / 512) ≡ 0
      → IsFilled sb dp d a
      → dirlink devsw sb de name inum dp d m ≡ none
      → Linked devsw sb de name inum dp d m
  linked :
      (i : ℕ) (jp : Inode) (e : Disk) (m' m'' : Memory)
      → dirlink devsw sb de name inum dp d m ≡ some (pos 0, m', jp, e)
      → dirlookup devsw sb de name jp e m' ≡ some (some (i * 16, inum), m'', jp, e)
      → IsDir sb jp e
      → ((j : ℕ) → j * 16 < dp.size → j ≢ i → with_entry jp e de j m' ≡ with_entry dp d de j m)
      → Linked devsw sb de name inum dp d m

-- `dirlink` behind `dirlookup`, and behind the search for a free entry.
abbrev is_free : ℕ → Memory → Bool
is_free de m = entry_inum de m == 0

abbrev after_search :
    Device → Superblock → ℕ → ℕ → ℕ → Option Search → Option (ℤ × Memory × Inode × Disk)
after_search devsw sb de name inum o = elim o [
  | none ↦ none
  | some (free, m2, kp, g) ↦ elim free [
    | some off ↦ write_entry devsw sb de name inum off kp g m2
    | none ↦ write_entry devsw sb de name inum ((kp.size + 15) / 16 * 16) kp g m2
  ]
]

abbrev after_lookup :
    Device
    → Superblock
    → ℕ
    → ℕ
    → ℕ
    → Option (Option (ℕ × ℕ) × Memory × Inode × Disk)
    → Option (ℤ × Memory × Inode × Disk)
after_lookup devsw sb de name inum o = elim o [
  | none ↦ none
  | some (place, m1, jp, e) ↦ elim place [
    | some entry ↦ some (negsuc 0, m1, jp, e)
    | none ↦
        after_search devsw sb de name inum
          (find_entry (is_free de) (jp.size / 16 + 1) devsw sb de 0 jp e m1)
  ]
]

dirlink-after_lookup :
    (devsw : Device) (sb : Superblock) (de name inum : ℕ) (dp : Inode) (d : Disk) (m : Memory)
    → dirlink devsw sb de name inum dp d m
      ≡ after_lookup devsw sb de name inum (dirlookup devsw sb de name dp d m)
unfolding dirlink
dirlink-after_lookup devsw sb de name inum dp d m = refl

module _ (devsw : Device) (sb : Superblock) (de name inum : ℕ) (dp : Inode) (d : Disk) (m : Memory)
    (h : IsDir sb dp d) (before : inode_block sb dp.inum < sb.bmapstart)
    (room : dp.size + 16 ≤ 71680) (apart : IsAway de name) (some_inum : 0 < inum)
    (small : inum < 65536) where
  -- `dirlookup` in the directory after the write, at `i`.
  lookup-Linked :
      (i : ℕ) (jp : Inode) (e : Disk) (m2 : Memory)
      → i * 16 ≤ dp.size
      → ((j : ℕ) → with_entry dp d de j m2 ≡ with_entry dp d de j m)
      → ((j : ℕ) → j * 16 < dp.size → is_match de name (with_entry dp d de j m) ≡ false)
      → IsPut sb de (i * 16) 16 (new_entry de name inum m2) dp d jp e
      → dirlink devsw sb de name inum dp d m ≡ some (pos 0, new_entry de name inum m2, jp, e)
      → Linked devsw sb de name inum dp d m
  lookup-Linked i jp e m2 l same none_there x done =
      let r = new_entry de name inum m2 in
      let h' : IsDir sb jp e = IsPut-IsDir de i r h l room x in
      let hit : is_match de name (with_entry jp e de i r) ≡ true =
        ap (is_match de name) (entry_here de i r h l room x)
        ∙ new_entry_match de name inum m2 apart some_inum small in
      let around : (j : ℕ)
          → j * 16 < dp.size
          → j ≢ i
          → with_entry jp e de j r ≡ with_entry dp d de j m =
        λ j u off.
          entry_other de i r h l room x j m2 u off (new_entry_outside de name inum m2) ∙ same j in
      go r hit h'
        (λ j u off.
          ap (is_match de name)
            (around j (old_entry i j dp.size jp.size l u off h.whole x.sized) off)
          ∙ none_there j (old_entry i j dp.size jp.size l u off h.whole x.sized))
        (omega (arith, x.reaches)) around
        (ap (entry_inum de) (entry_here de i r h l room x) ∙ new_entry_inum de name inum m2 small)
        done (dirlookup devsw sb de name jp e r) refl (dirlookup-Looked devsw de name r h')
    where
      old_entry :
          (i j size size' : ℕ)
          → i * 16 ≤ size
          → j * 16 < size'
          → j ≢ i
          → size % 16 ≡ 0
          → (size' ≡ size) ⊎ (size' ≡ i * 16 + 16)
          → j * 16 < size
      old_entry i j size size' l u off z (inl s) = omega (arith, u, s)
      old_entry i j size size' l u off z (inr s) = omega (arith, l, u, off, s)

      go :
          (r : Memory)
          → is_match de name (with_entry jp e de i r) ≡ true
          → IsDir sb jp e
          → ((j : ℕ) → j * 16 < jp.size → j ≢ i → is_match de name (with_entry jp e de j r) ≡ false)
          → i * 16 < jp.size
          → ((j : ℕ) → j * 16 < dp.size → j ≢ i → with_entry jp e de j r ≡ with_entry dp d de j m)
          → entry_inum de (with_entry jp e de i r) ≡ inum
          → dirlink devsw sb de name inum dp d m ≡ some (pos 0, r, jp, e)
          → (o : Option (Option (ℕ × ℕ) × Memory × Inode × Disk))
          → dirlookup devsw sb de name jp e r ≡ o
          → Looked de name r jp e o
          → Linked devsw sb de name inum dp d m
      go r hit h' others inside around number done o eq (absent m' s none_left) =
          absurd (clash (sym hit ∙ none_left i inside))
        where
          clash : true ≡ false → ⊥
          clash e = cc
      go r hit h' others inside around number done o eq (at_first j u t b) = elim (ℕ_discrete j i) [
        | no off ↦ absurd (clash (sym t ∙ others j u off))
        | yes here ↦
            linked i jp e r (with_entry jp e de i r) done
              (eq
                ∙ ap
                    (λ k. some (
                      some (k * 16, entry_inum de (with_entry jp e de k r)),
                      with_entry jp e de k r,
                      jp,
                      e,
                    ))
                    here
                ∙ ap (λ v. some (some (i * 16, v), with_entry jp e de i r, jp, e)) number)
              h' around
      ]
        where
          clash : true ≡ false → ⊥
          clash e = cc

  written-Linked :
      (i off : ℕ) (m2 : Memory)
      → off ≡ i * 16
      → i * 16 ≤ dp.size
      → ((j : ℕ) → with_entry dp d de j m2 ≡ with_entry dp d de j m)
      → ((j : ℕ) → j * 16 < dp.size → is_match de name (with_entry dp d de j m) ≡ false)
      → dirlink devsw sb de name inum dp d m ≡ write_entry devsw sb de name inum off dp d m2
      → Linked devsw sb de name inum dp d m
  unfolding write_entry
  written-Linked i off m2 at_off l same none_there eq =
      let r = new_entry de name inum m2 in
      go (writei devsw sb de (i * 16) 16 r dp d)
        (eq ∙ ap (λ off. write_entry devsw sb de name inum off dp d m2) at_off)
        (writei-Put devsw sb de (i * 16) 16 r dp d h.file h.reserved h.small before
          (λ k. omega (arith, k, h.is_dir)) l (omega (arith, l, room)))
    where
      -- The new entry lies in one block, so that no byte of it is written before the block is asked for.
      first_byte :
          (k : ℕ) (jp : Inode) (g : Disk)
          → k < 16
          → IsWritten sb de (i * 16) k (new_entry de name inum m2) dp d jp g
          → slot jp g ((i * 16 + k) / 512) ≡ 0
          → k ≡ 0
      first_byte k jp g u x z = elim (ℕ_discrete k 0) [
        | yes none_before ↦ none_before
        | no some_before ↦ absurd (
            x.has 0 (omega (arith, some_before)) (subst (λ b. slot jp g b ≡ 0) (one_block i k u) z))
      ]
        where
          one_block : (i k : ℕ) → k < 16 → (i * 16 + k) / 512 ≡ (i * 16 + 0) / 512
          one_block i k u = omega (arith, u)

      at_end : slot dp d (i * 16 / 512) ≡ 0 → i * 16 ≡ dp.size
      at_end z = elim (ℕ_discrete (i * 16) dp.size) [
        | yes last ↦ last
        | no inside ↦ absurd (h.blocks (i * 16) (omega (arith, l, inside)) z)
      ]

      unchanged :
          (jp : Inode) (g : Disk)
          → write_loop 16 sb de (i * 16) 0 (new_entry de name inum m2) dp d ≡ some (jp, g)
          → ◌≡◌ {A = Inode × Disk} (dp, d) (jp, g)
      unchanged jp g run =
          some_inj.0
            (sym (write_end 15 sb de (i * 16) 0 (new_entry de name inum m2) dp d refl) ∙ run)

      no_block_left :
          (k a : ℕ) (jp : Inode) (g : Disk)
          → k ≡ 0
          → write_loop 16 sb de (i * 16) k (new_entry de name inum m2) dp d ≡ some (jp, g)
          → slot jp g ((i * 16 + k) / 512) ≡ 0
          → IsFilled sb jp g a
          → dirlink devsw sb de name inum dp d m ≡ none
          → Linked devsw sb de name inum dp d m
      no_block_left k a jp g first run z full done =
          let same = unchanged jp g (
            subst
              (λ k. write_loop 16 sb de (i * 16) k (new_entry de name inum m2) dp d ≡ some (jp, g))
              first run) in
          let z' : slot dp d (i * 16 / 512) ≡ 0 =
            subst (λ (s : Inode × Disk). slot s.0 s.1 (i * 16 / 512) ≡ 0) (sym same)
              (subst (λ b. slot jp g b ≡ 0) (at_start i k first) z) in
          no_block a (subst (λ n. slot dp d (n / 512) ≡ 0) (at_end z') z')
            (subst (λ (s : Inode × Disk). IsFilled sb s.0 s.1 a) (sym same) full) done
        where
          at_start : (i k : ℕ) → k ≡ 0 → (i * 16 + k) / 512 ≡ i * 16 / 512
          at_start i k z = omega (arith, z)

      go :
          (o : Option (ℤ × Memory × Inode × Disk))
          → dirlink devsw sb de name inum dp d m ≡ elim o [
            | none ↦ none
            | some (r, m', jp, e) ↦ if eq_ℤ r (pos 16) then some (pos 0, m', jp, e) else none
          ]
          → Put sb de (i * 16) 16 (new_entry de name inum m2) dp d o
          → Linked devsw sb de name inum dp d m
      go o done (no_space k a jp g u run x z full) =
          no_block_left k a jp g (first_byte k jp g u x z) run z full done
      go o done (put jp e x) = lookup-Linked i jp e m2 l same none_there x done

-- For a directory whose blocks are all there, with room for one more entry, and a name that does not
-- stand in the local variable: `dirlink` returns -1, as an entry with the name is in use, and then
-- changes nothing on the disk; or it panics, and then the directory has no block at its end, where the entry
-- would go, and every block of the disk is in use (but one, at most, if the directory has no indirect
-- block); or it returns 0. Then
-- `dirlookup` finds the new entry with the number of the inode, the directory is still well formed, and all its
-- other entries are as before.
pub dirlink-dirlookup :
    (devsw : Device) (sb : Superblock) (de name inum : ℕ) (dp : Inode) (d : Disk) (m : Memory)
    → IsDir sb dp d
    → inode_block sb dp.inum < sb.bmapstart
    → dp.size + 16 ≤ 71680
    → IsAway de name
    → 0 < inum
    → inum < 65536
    → Linked devsw sb de name inum dp d m
dirlink-dirlookup devsw sb de name inum dp d m h before room apart some_inum small =
    looked (dirlookup devsw sb de name dp d m) (dirlink-after_lookup devsw sb de name inum dp d m)
      (dirlookup-Looked devsw de name m h)
      (λ m1. find_entry-Searched h devsw de (is_free de) (dp.size / 16 + 1) 0 m1 (omega arith))
  where
    last : (size : ℕ) → size % 16 ≡ 0 → (size + 15) / 16 * 16 ≡ size / 16 * 16
    last size z = omega (arith, z)

    searched :
        (m1 : Memory)
        → ((j : ℕ) → with_entry dp d de j m1 ≡ with_entry dp d de j m)
        → ((j : ℕ) → j * 16 < dp.size → is_match de name (with_entry dp d de j m) ≡ false)
        → (o : Option Search)
        → dirlink devsw sb de name inum dp d m ≡ after_search devsw sb de name inum o
        → Searched (is_free de) de 0 m1 dp d o
        → Linked devsw sb de name inum dp d m
    searched m1 same none_there o eq (found i l u t b) =
        written-Linked devsw sb de name inum dp d m h before room apart some_inum small i (i * 16)
          (with_entry dp d de i m1) refl (omega (arith, u))
          (λ j. with_entry-with_entry dp d de i j m1 ∙ same j) none_there eq
    searched m1 same none_there o eq (not_found m2 s f) =
        written-Linked devsw sb de name inum dp d m h before room apart some_inum small
          (dp.size / 16) ((dp.size + 15) / 16 * 16) m2 (last dp.size h.whole) (omega arith)
          (λ j. s j ∙ same j) none_there eq

    looked :
        (o : Option (Option (ℕ × ℕ) × Memory × Inode × Disk))
        → dirlink devsw sb de name inum dp d m ≡ after_lookup devsw sb de name inum o
        → Looked de name m dp d o
        → ((m1 : Memory)
            → Searched
                (is_free de)
                de
                0
                m1
                dp
                d
                (find_entry (is_free de) (dp.size / 16 + 1) devsw sb de 0 dp d m1))
        → Linked devsw sb de name inum dp d m
    looked o eq (at_first i u t b) free = there_before i (with_entry dp d de i m) u t eq
    looked o eq (absent m1 same none_there) free =
        searched m1 same none_there
          (find_entry (is_free de) (dp.size / 16 + 1) devsw sb de 0 dp d m1) eq (free m1)
