-- ===== src/Paging/Entries.antt =====
-- `walkpgdir` of vm.c that may add a page table, and a write to the entry that it finds.
use ele.Common.{
  ℕ, ◌*◌, ◌^◌, ◌<◌, ◌≡◌, ◌≢◌, ◌∙◌, ◌⊎◌, refl, ap, sym, subst, arith, ℕ_discrete, true, false,
  Bool-cases, inl, inr, Option, none, some, List, [], ◌∷◌, All-mono, Store, word_at, put_word_away,
  word_at-put_word_self, word_at-put_word_ne, word_at-agree,
}
use ele.Kalloc.{Kmem, kalloc}
use ele.Paging.{Machine, p2v, pdx, ptx, pte_addr, is_present, add_table, set_entry, walkpgdir}
use ele.Paging.Tree.{
  table, HasTable, pte_of, pte_of_some, pte_of_none, IsTree, IsTree-add_table, pte_of-add_table,
  at_new,
}

abbrev pub IsSound : ℕ → Machine → Type 0
IsSound pgdir m = IsTree pgdir m.ram m.kmem.freelist

-- The same directory.
IsTree-same :
    (pgdir : ℕ) (ram ram' : Store) (free : List ℕ)
    → ((j : ℕ) → word_at pgdir j ram' ≡ word_at pgdir j ram)
    → IsTree pgdir ram free
    → IsTree pgdir ram' free
IsTree-same pgdir ram ram' free same t =
    let was : (j : ℕ) → HasTable pgdir j ram' → HasTable pgdir j ram =
      λ j h. ap is_present (sym (same j)) ∙ h in
    let tab : (j : ℕ) → table pgdir j ram' ≡ table pgdir j ram =
      λ j. ap (λ v. p2v (pte_addr v)) (same j) in
    record {
      pages = t.pages;
      distinct = t.distinct;
      root_apart = t.root_apart;
      tables_apart = λ j l h. All-mono (λ x n s. n (s ∙ tab j)) free (t.tables_apart j l (was j h));
      not_root = λ j l h s. t.not_root j l (was j h) (sym (tab j) ∙ s);
      apart = λ j k l u ne h g s. t.apart j k l u ne (was j h) (was k g) (sym (tab j) ∙ s ∙ tab k);
    }

module _ {pgdir : ℕ} {ram : Store} {free : List ℕ} (t : IsTree pgdir ram free) (va v : ℕ)
    (h : HasTable pgdir (pdx va) ram) where
  dir_stays :
      (j : ℕ)
      → word_at pgdir j (set_entry (table pgdir (pdx va) ram, ptx va) v ram) ≡ word_at pgdir j ram
  dir_stays j =
      word_at-agree pgdir j ram (set_entry (table pgdir (pdx va) ram, ptx va) v ram) (λ p l.
        put_word_away (table pgdir (pdx va) ram) (ptx va * 4) v ram pgdir p
          (t.not_root (pdx va) (omega arith) h))

  pub IsTree-set_entry : IsTree pgdir (set_entry (table pgdir (pdx va) ram, ptx va) v ram) free
  IsTree-set_entry =
      IsTree-same pgdir ram (set_entry (table pgdir (pdx va) ram, ptx va) v ram) free dir_stays t

  pub pte_of-set_entry_self :
      v < 2 ^ 32 → pte_of pgdir va (set_entry (table pgdir (pdx va) ram, ptx va) v ram) ≡ v
  pte_of-set_entry_self l =
      let ram' = set_entry (table pgdir (pdx va) ram, ptx va) v ram in
      pte_of_some pgdir va ram' (ap is_present (dir_stays (pdx va)) ∙ h)
      ∙ ap (λ w. word_at (p2v (pte_addr w)) (ptx va) ram') (dir_stays (pdx va))
      ∙ word_at-put_word_self (table pgdir (pdx va) ram) (ptx va) v ram l

  pub pte_of-set_entry_ne :
      (b : ℕ)
      → (pdx va ≢ pdx b) ⊎ (ptx va ≢ ptx b)
      → pte_of pgdir b (set_entry (table pgdir (pdx va) ram, ptx va) v ram) ≡ pte_of pgdir b ram
  pte_of-set_entry_ne b off =
      let ram' = set_entry (table pgdir (pdx va) ram, ptx va) v ram in
      elim (Bool-cases (is_present (word_at pgdir (pdx b) ram))) [
        | inr none_there ↦
            pte_of_none pgdir b ram' (ap is_present (dir_stays (pdx b)) ∙ none_there)
            ∙ sym (pte_of_none pgdir b ram none_there)
        | inl there ↦
            pte_of_some pgdir b ram' (ap is_present (dir_stays (pdx b)) ∙ there)
            ∙ ap (λ w. word_at (p2v (pte_addr w)) (ptx b) ram') (dir_stays (pdx b))
            ∙ other there off
            ∙ sym (pte_of_some pgdir b ram there)
      ]
    where
      other :
          HasTable pgdir (pdx b) ram
          → (pdx va ≢ pdx b) ⊎ (ptx va ≢ ptx b)
          → word_at
              (table pgdir (pdx b) ram)
              (ptx b)
              (set_entry (table pgdir (pdx va) ram, ptx va) v ram)
            ≡ word_at (table pgdir (pdx b) ram) (ptx b) ram
      other there off = elim (ℕ_discrete (pdx va) (pdx b)) [
        | no far ↦
            word_at-agree (table pgdir (pdx b) ram) (ptx b) ram
              (set_entry (table pgdir (pdx va) ram, ptx va) v ram)
              (λ p l.
                put_word_away (table pgdir (pdx va) ram) (ptx va * 4) v ram
                  (table pgdir (pdx b) ram) p
                  (t.apart (pdx va) (pdx b) (omega arith) (omega arith) far h there))
        | yes same ↦
            subst
              (λ x.
                word_at x (ptx b) (set_entry (table pgdir (pdx va) ram, ptx va) v ram)
                ≡ word_at x (ptx b) ram)
              (ap (λ i. table pgdir i ram) same)
              (word_at-put_word_ne (table pgdir (pdx va) ram) (ptx va) (ptx b) v ram
                (elim off [ inl far ↦ absurd (far same) | inr far ↦ far ]))
      ]

-- The outcomes of `walkpgdir` that may add a table: no memory for one, or the entry, with all entries as before.
pub data Walked (pgdir va : ℕ) (m : Machine) : Option (ℕ × ℕ) × Machine → Type 0 where
  no_memory : m.kmem.freelist ≡ [] → Walked pgdir va m (none, m)
  at_entry :
      (m' : Machine)
      → IsSound pgdir m'
      → HasTable pgdir (pdx va) m'.ram
      → ((b : ℕ) → pte_of pgdir b m'.ram ≡ pte_of pgdir b m.ram)
      → Walked pgdir va m (some (table pgdir (pdx va) m'.ram, ptx va), m')

abbrev walk_new : ℕ → ℕ → Machine → Option ℕ × Kmem → Option (ℕ × ℕ) × Machine
walk_new pgdir va m k = elim k.0 [
  | none ↦ (none, record m { kmem = k.1 })
  | some pg ↦ (some (pg, ptx va), record { ram = add_table pgdir (pdx va) pg m.ram; kmem = k.1 })
]

module _ (pgdir va : ℕ) (m : Machine) where
  walk_there :
      HasTable pgdir (pdx va) m.ram
      → walkpgdir pgdir va true m ≡ (some (table pgdir (pdx va) m.ram, ptx va), m)
  unfolding walkpgdir
  walk_there e = rw (walkpgdir, e)

  walk_absent :
      is_present (word_at pgdir (pdx va) m.ram) ≡ false
      → walkpgdir pgdir va true m ≡ walk_new pgdir va m (kalloc m.kmem)
  unfolding walkpgdir
  walk_absent e = rw (walkpgdir, e)

  walk_new-Walked :
      IsSound pgdir m
      → is_present (word_at pgdir (pdx va) m.ram) ≡ false
      → Walked pgdir va m (walk_new pgdir va m (kalloc m.kmem))
  unfolding kalloc
  walk_new-Walked t e = go m.kmem.freelist refl
    where
      go :
          (free : List ℕ)
          → m.kmem.freelist ≡ free
          → Walked pgdir va m (
              walk_new pgdir va m (elim free [
                | [] ↦ (none, m.kmem)
                | v ∷ rest ↦ (some v, record m.kmem { freelist = rest })
              ]))
      go [] f = no_memory f
      go (pg ∷ rest) f =
          let t' : IsTree pgdir m.ram (pg ∷ rest) = subst (IsTree pgdir m.ram) f t in
          let found = at_new t' (pdx va) (pdx va) refl in
          subst
            (λ x. Walked pgdir va m (
              some (x, ptx va),
              record {
                ram = add_table pgdir (pdx va) pg m.ram;
                kmem = record m.kmem { freelist = rest };
              },
            ))
            found.1
            (at_entry _ (IsTree-add_table t' (pdx va)) found.0 (pte_of-add_table t' (pdx va) e))

  pub walkpgdir-Walked : IsSound pgdir m → Walked pgdir va m (walkpgdir pgdir va true m)
  walkpgdir-Walked t = elim (Bool-cases (is_present (word_at pgdir (pdx va) m.ram))) [
    | inl there ↦
        subst (Walked pgdir va m) (sym (walk_there there)) (at_entry m t there (λ b. refl))
    | inr absent ↦ subst (Walked pgdir va m) (sym (walk_absent absent)) (walk_new-Walked t absent)
  ]
