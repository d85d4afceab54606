-- ===== src/Fs/Search.antt =====
-- The loops of `dirlookup` and `dirlink` in fs.c over the entries of a directory, and `dirlookup`.
use ele.Common.{
  ℕ, zero, suc, ◌+◌, ◌*◌, ◌/◌, ◌<◌, ◌≤◌, ◌≡◌, ◌∙◌, refl, ap, sym, subst, arith, ℕ_discrete, ◌==◌,
  ltb, ◌&&◌, Bool, true, false, not, Bool-cases, inl, inr, if◌then◌else◌, Option, none, some, ℤ,
  pos, eq_ℤ,
}
use ele.Str.{Memory}
use ele.Fs.{Disk, Superblock, Inode}
use ele.Fs.Content.{Device, readi}
use ele.Fs.Dir.{Search, entry_inum, is_named, find_entry, dirlookup}
use ele.Fs.Lookup.{IsDir, with_entry, with_entry-with_entry, read_entry}

-- What the loop from entry `k` on comes to: the first entry that passes, or that none does.
pub data Searched (test : Memory → Bool) (de k : ℕ) (m : Memory) (dp : Inode) (d : Disk)
    : Option Search → Type 0 where
  found :
      (i : ℕ)
      → k ≤ i
      → i * 16 < dp.size
      → test (with_entry dp d de i m) ≡ true
      → ((j : ℕ) → k ≤ j → j < i → test (with_entry dp d de j m) ≡ false)
      → Searched test de k m dp d (some (some (i * 16), with_entry dp d de i m, dp, d))
  not_found :
      (m' : Memory)
      → ((j : ℕ) → with_entry dp d de j m' ≡ with_entry dp d de j m)
      → ((j : ℕ) → k ≤ j → j * 16 < dp.size → test (with_entry dp d de j m) ≡ false)
      → Searched test de k m dp d (some (none, m', dp, d))

-- An entry that does not pass, and the search behind it.
Searched-next :
    {test : Memory → Bool} {de k : ℕ} {m : Memory} {dp : Inode} {d : Disk} {o : Option Search}
    → test (with_entry dp d de k m) ≡ false
    → Searched test de (k + 1) (with_entry dp d de k m) dp d o
    → Searched test de k m dp d o
Searched-next {test} {de} {k} {m} {dp} {d} {o} no_match (found i l u t before) =
    subst (λ x. Searched test de k m dp d (some (some (i * 16), x, dp, d)))
      (sym (with_entry-with_entry dp d de k i m))
      (found i (omega arith) u (ap test (sym (with_entry-with_entry dp d de k i m)) ∙ t) (λ j l' u'.
        elim (ℕ_discrete k j) [
          | yes here ↦ ap (λ j. test (with_entry dp d de j m)) (sym here) ∙ no_match
          | no off ↦
              ap test (sym (with_entry-with_entry dp d de k j m)) ∙ before j (omega (arith, off)) u'
        ]))
Searched-next {test} {de} {k} {m} {dp} {d} no_match (not_found m' same none_there) =
    not_found m' (λ j. same j ∙ with_entry-with_entry dp d de k j m)
      (λ j l u. elim (ℕ_discrete k j) [
        | yes here ↦ ap (λ j. test (with_entry dp d de j m)) (sym here) ∙ no_match
        | no off ↦
            ap test (sym (with_entry-with_entry dp d de k j m))
            ∙ none_there j (omega (arith, off)) u
      ])

-- The loop's tests, and what it does when it has read the entry `k`.
abbrev after_read :
    (Memory → Bool)
    → ℕ
    → Device
    → Superblock
    → ℕ
    → ℕ
    → Option (ℤ × Memory × Inode × Disk)
    → Option Search
after_read test n devsw sb de off o = elim o [
  | none ↦ none
  | some (r, m', jp, e) ↦ elim (eq_ℤ r (pos 16)) [
    | false ↦ none
    | true ↦ elim (test m') [
      | true ↦ some (some off, m', jp, e)
      | false ↦ find_entry test n devsw sb de (off + 16) jp e m'
    ]
  ]
]

module _ (test : Memory → Bool) (n : ℕ) (devsw : Device) (sb : Superblock) (de off : ℕ) (dp : Inode)
    (d : Disk) (m : Memory) where
  find_end :
      ltb off dp.size ≡ false
      → find_entry test (suc n) devsw sb de off dp d m ≡ some (none, m, dp, d)
  unfolding find_entry
  find_end e = rw (find_entry, e)

  find_read :
      ltb off dp.size ≡ true
      → find_entry test (suc n) devsw sb de off dp d m
        ≡ after_read test n devsw sb de off (readi devsw sb de off 16 dp d m)
  unfolding find_entry
  find_read e = rw (find_entry, e)

abbrev by_test : Option Search → Option Search → Bool → Option Search
by_test hit miss b = elim b [ true ↦ hit | false ↦ miss ]

module _ {sb : Superblock} {dp : Inode} {d : Disk} (h : IsDir sb dp d) (devsw : Device) (de : ℕ)
    (test : Memory → Bool) where
  find_at :
      (n k : ℕ) (m : Memory)
      → k * 16 < dp.size
      → find_entry test (suc n) devsw sb de (k * 16) dp d m
        ≡ by_test
            (some (some (k * 16), with_entry dp d de k m, dp, d))
            (find_entry test n devsw sb de (k * 16 + 16) dp d (with_entry dp d de k m))
            (test (with_entry dp d de k m))
  find_at n k m l =
      find_read test n devsw sb de (k * 16) dp d m (ground (arith, l))
      ∙ ap (after_read test n devsw sb de (k * 16)) (read_entry h devsw de k m l)

  pub find_entry-Searched :
      (n k : ℕ) (m : Memory)
      → dp.size < (k + n) * 16
      → Searched test de k m dp d (find_entry test n devsw sb de (k * 16) dp d m)
  unfolding find_entry
  find_entry-Searched zero k m fuel =
      not_found m (λ j. refl) (λ j l u. absurd (omega (arith, fuel, l, u)))
  find_entry-Searched (suc n) k m fuel = elim (Bool-cases (ltb (k * 16) dp.size)) [
    | inr out ↦
        subst (Searched test de k m dp d) (sym (find_end test n devsw sb de (k * 16) dp d m out))
          (not_found m (λ j. refl) (λ j l u. absurd (past k j dp.size out l u)))
    | inl inside ↦
        let l : k * 16 < dp.size = ground (arith, inside) in
        let later = find_entry test n devsw sb de (k * 16 + 16) dp d (with_entry dp d de k m) in
        let branch : Bool → Type 0 = λ b.
          Searched test de k m dp d
            (by_test (some (some (k * 16), with_entry dp d de k m, dp, d)) later b) in
        subst (Searched test de k m dp d) (sym (find_at n k m l))
          (elim (Bool-cases (test (with_entry dp d de k m))) [
            | inl hit ↦
                subst branch (sym hit)
                  (found k (omega arith) l hit (λ j a b. absurd (omega (arith, a, b))))
            | inr miss ↦ subst branch (sym miss) (
                Searched-next miss (
                  subst
                    (λ o.
                      Searched test de (k + 1) (with_entry dp d de k m) dp d
                        (find_entry test n devsw sb de o dp d (with_entry dp d de k m)))
                    (next_off k)
                    (find_entry-Searched n (k + 1) (with_entry dp d de k m) (omega (arith, fuel)))))
          ])
  ]
    where
      next_off : (k : ℕ) → (k + 1) * 16 ≡ k * 16 + 16
      next_off k = omega arith

      past : (k j size : ℕ) → ltb (k * 16) size ≡ false → k ≤ j → j * 16 < size → ⊥
      past k j size e l u = ground (arith, e, l, u)

-- Whether the entry at `de` is the one that `dirlookup` looks for.
abbrev pub is_match : ℕ → ℕ → Memory → Bool
is_match de name m = not (entry_inum de m == 0) && is_named name de m

-- The outcomes of `dirlookup`: the first entry with the name, or none.
pub data Looked (de name : ℕ) (m : Memory) (dp : Inode) (d : Disk)
    : Option (Option (ℕ × ℕ) × Memory × Inode × Disk) → Type 0 where
  at_first :
      (i : ℕ)
      → i * 16 < dp.size
      → is_match de name (with_entry dp d de i m) ≡ true
      → ((j : ℕ) → j < i → is_match de name (with_entry dp d de j m) ≡ false)
      → Looked de name m dp d (
          some
            (some (i * 16, entry_inum de (with_entry dp d de i m)), with_entry dp d de i m, dp, d))
  absent :
      (m' : Memory)
      → ((j : ℕ) → with_entry dp d de j m' ≡ with_entry dp d de j m)
      → ((j : ℕ) → j * 16 < dp.size → is_match de name (with_entry dp d de j m) ≡ false)
      → Looked de name m dp d (some (none, m', dp, d))

abbrev looked_up : ℕ → Option Search → Option (Option (ℕ × ℕ) × Memory × Inode × Disk)
looked_up de o = elim o [
  | none ↦ none
  | some (place, m', jp, e) ↦ elim place [
    | none ↦ some (none, m', jp, e)
    | some off ↦ some (some (off, entry_inum de m'), m', jp, e)
  ]
]

dirlookup-looked_up :
    (devsw : Device) (sb : Superblock) (de name : ℕ) (dp : Inode) (d : Disk) (m : Memory)
    → dp.kind ≡ 1
    → dirlookup devsw sb de name dp d m
      ≡ looked_up de (find_entry (is_match de name) (dp.size / 16 + 1) devsw sb de 0 dp d m)
unfolding dirlookup
dirlookup-looked_up devsw sb de name dp d m e =
    let is_dir : (dp.kind == 1) ≡ true = ground (arith, e) in
    ap
      (λ b.
        if not b
        then none
        else looked_up de (find_entry (is_match de name) (dp.size / 16 + 1) devsw sb de 0 dp d m))
      is_dir

Searched-Looked :
    (de name : ℕ) (m : Memory) (dp : Inode) (d : Disk) (o : Option Search)
    → Searched (is_match de name) de 0 m dp d o
    → Looked de name m dp d (looked_up de o)
Searched-Looked de name m dp d o (found i l u t before) =
    at_first i u t (λ j b. before j (omega arith) b)
Searched-Looked de name m dp d o (not_found m' same none_there) =
    absent m' same (λ j u. none_there j (omega arith) u)

-- In a directory whose blocks are all there, `dirlookup` comes to an end without a panic and changes nothing on
-- the disk. It gives the offset and the inode number of the first entry in use whose name compares
-- equal, or nothing if there is no such entry.
pub dirlookup-Looked :
    {sb : Superblock} {dp : Inode} {d : Disk} (devsw : Device) (de name : ℕ) (m : Memory)
    → IsDir sb dp d
    → Looked de name m dp d (dirlookup devsw sb de name dp d m)
dirlookup-Looked {sb} {dp} {d} devsw de name m h =
    subst (Looked de name m dp d) (sym (dirlookup-looked_up devsw sb de name dp d m h.is_dir)) (
      Searched-Looked de name m dp d
        (find_entry (is_match de name) (dp.size / 16 + 1) devsw sb de 0 dp d m)
        (find_entry-Searched h devsw de (is_match de name) (dp.size / 16 + 1) 0 m (omega arith)))
