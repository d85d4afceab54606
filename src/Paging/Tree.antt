-- ===== src/Paging/Tree.antt =====
-- The page directory and the page tables of vm.c as a tree of pages, apart from each other and from the free pages.
use ele.Common.{
  ℕ, ◌+◌, ◌*◌, ◌%◌, ◌^◌, ◌<◌, ◌≤◌, ◌≡◌, ◌≢◌, ◌∙◌, ap, sym, arith, ℕ_discrete, true, false,
  Bool-cases, inl, inr, if◌then◌else◌, List, ◌∷◌, All, All-mono, Distinct, Store, word_at,
  put_word_away, word_at-put_word_self, word_at-put_word_ne, word_at-agree,
}
use ele.Kalloc.{kern_base, v2p}
use ele.Paging.{p2v, pdx, ptx, pte_addr, is_present, zero_page, add_table}

-- The page table behind an entry of the directory.
abbrev pub table : ℕ → ℕ → Store → ℕ
table pgdir i ram = p2v (pte_addr (word_at pgdir i ram))

abbrev pub HasTable : ℕ → ℕ → Store → Type 0
HasTable pgdir i ram = is_present (word_at pgdir i ram) ≡ true

-- The entry for an address, 0 where there is no page table.
abbrev pub pte_of : ℕ → ℕ → Store → ℕ
pte_of pgdir va ram =
    if is_present (word_at pgdir (pdx va) ram)
    then word_at (table pgdir (pdx va) ram) (ptx va) ram
    else 0

module _ (pgdir va : ℕ) (ram : Store) where
  pub pte_of_some :
      HasTable pgdir (pdx va) ram
      → pte_of pgdir va ram ≡ word_at (table pgdir (pdx va) ram) (ptx va) ram
  pte_of_some e = ap (λ b. if b then word_at (table pgdir (pdx va) ram) (ptx va) ram else 0) e

  pub pte_of_none : is_present (word_at pgdir (pdx va) ram) ≡ false → pte_of pgdir va ram ≡ 0
  pte_of_none e = ap (λ b. if b then word_at (table pgdir (pdx va) ram) (ptx va) ram else 0) e

abbrev pub IsPage : ℕ → Type 0
IsPage x = (x % 4096 ≡ 0) × ((kern_base ≤ x) × (x < 2 ^ 32))

pub record IsTree (pgdir : ℕ) (ram : Store) (free : List ℕ) : Type 0 where
  pub pages : All IsPage free
  pub distinct : Distinct free
  pub root_apart : All (λ x. x ≢ pgdir) free
  pub tables_apart :
      (i : ℕ) → i < 1024 → HasTable pgdir i ram → All (λ x. x ≢ table pgdir i ram) free
  pub not_root : (i : ℕ) → i < 1024 → HasTable pgdir i ram → table pgdir i ram ≢ pgdir
  pub apart :
      (i j : ℕ)
      → i < 1024
      → j < 1024
      → i ≢ j
      → HasTable pgdir i ram
      → HasTable pgdir j ram
      → table pgdir i ram ≢ table pgdir j ram

module _ (pgdir i pg : ℕ) (ram : Store) (off : pg ≢ pgdir) (page : IsPage pg) where
  zero_away : (y p : ℕ) → pg ≢ y → zero_page pg ram y p ≡ ram y p
  zero_away y p h = ground arith

  zero_inside : (p : ℕ) → p < 4096 → zero_page pg ram pg p ≡ 0
  zero_inside p h = ground arith

  -- The directory after a new table.
  pub add_table_here : word_at pgdir i (add_table pgdir i pg ram) ≡ v2p pg + 7
  add_table_here =
      word_at-put_word_self pgdir i (v2p pg + 7) (zero_page pg ram)
        (omega (arith, page.1.0, page.1.1))

  pub add_table_ne :
      (j : ℕ) → i ≢ j → word_at pgdir j (add_table pgdir i pg ram) ≡ word_at pgdir j ram
  add_table_ne j h =
      word_at-put_word_ne pgdir i j (v2p pg + 7) (zero_page pg ram) h
      ∙ word_at-agree pgdir j ram (zero_page pg ram) (λ p l. zero_away pgdir p off)

  -- The pages but the directory and the new one, and the new one.
  pub add_table_away :
      (y k : ℕ) → pg ≢ y → y ≢ pgdir → word_at y k (add_table pgdir i pg ram) ≡ word_at y k ram
  add_table_away y k h g = word_at-agree y k ram (add_table pgdir i pg ram) (λ p l.
      put_word_away pgdir (i * 4) (v2p pg + 7) (zero_page pg ram) y p (λ s. g (sym s))
      ∙ zero_away y p h)

  pub add_table_zero : (k : ℕ) → k < 1024 → word_at pg k (add_table pgdir i pg ram) ≡ 0
  add_table_zero k l =
      word_at-agree pg k (λ y p. 0) (add_table pgdir i pg ram)
        (λ p u.
          put_word_away pgdir (i * 4) (v2p pg + 7) (zero_page pg ram) pg p (λ s. off (sym s))
          ∙ zero_inside p (omega (arith, u, l)))

-- The new entry of the directory is present, and leads to the new table.
new_entry : (pg : ℕ) → IsPage pg → is_present (v2p pg + 7) ≡ true
new_entry pg page = ground (arith, page.0, page.1.0, page.1.1)

new_table : (pg : ℕ) → IsPage pg → p2v (pte_addr (v2p pg + 7)) ≡ pg
new_table pg page = omega (arith, page.0, page.1.0, page.1.1)

module _ {pgdir pg : ℕ} {ram : Store} {free : List ℕ} (t : IsTree pgdir ram (pg ∷ free))
    (i : ℕ) where
  pub at_new :
      (j : ℕ)
      → j ≡ i
      → (is_present (word_at pgdir j (add_table pgdir i pg ram)) ≡ true)
        × (table pgdir j (add_table pgdir i pg ram) ≡ pg)
  at_new j e =
      let w =
        ap (λ k. word_at pgdir k (add_table pgdir i pg ram)) e
        ∙ add_table_here pgdir i pg ram t.root_apart.0 t.pages.0 in
      (
        ap is_present w ∙ new_entry pg t.pages.0,
        ap (λ v. p2v (pte_addr v)) w ∙ new_table pg t.pages.0,
      )

  at_old : (j : ℕ) → j ≢ i → word_at pgdir j (add_table pgdir i pg ram) ≡ word_at pgdir j ram
  at_old j off = add_table_ne pgdir i pg ram t.root_apart.0 t.pages.0 j (λ s. off (sym s))

  old_present : (j : ℕ) → j ≢ i → HasTable pgdir j (add_table pgdir i pg ram) → HasTable pgdir j ram
  old_present j off h = ap is_present (sym (at_old j off)) ∙ h

  old_table : (j : ℕ) → j ≢ i → table pgdir j (add_table pgdir i pg ram) ≡ table pgdir j ram
  old_table j off = ap (λ v. p2v (pte_addr v)) (at_old j off)

  pub IsTree-add_table : IsTree pgdir (add_table pgdir i pg ram) free
  IsTree-add_table = record {
    pages = t.pages.1;
    distinct = t.distinct.1;
    root_apart = t.root_apart.1;
    tables_apart = λ j l h. elim (ℕ_discrete j i) [
      | yes here ↦ All-mono (λ x n s. n (sym (s ∙ (at_new j here).1))) free t.distinct.0
      | no off ↦
          All-mono (λ x n s. n (s ∙ old_table j off)) free
            (t.tables_apart j l (old_present j off h)).1
    ];
    not_root = λ j l h. elim (ℕ_discrete j i) [
      | yes here ↦ λ s. t.root_apart.0 (sym (at_new j here).1 ∙ s)
      | no off ↦ λ s. t.not_root j l (old_present j off h) (sym (old_table j off) ∙ s)
    ];
    apart = λ j k l u ne h g same. elim (ℕ_discrete j i) [
      | yes here ↦
          let off : k ≢ i = λ e. ne (here ∙ sym e) in
          (t.tables_apart k u (old_present k off g)).0
            (sym (at_new j here).1 ∙ same ∙ old_table k off)
      | no off ↦ elim (ℕ_discrete k i) [
        | yes there ↦
            (t.tables_apart j l (old_present j off h)).0
              (sym (at_new k there).1 ∙ sym same ∙ old_table j off)
        | no far ↦
            t.apart j k l u ne (old_present j off h) (old_present k far g)
              (sym (old_table j off) ∙ same ∙ old_table k far)
      ]
    ];
  }

  -- The entries for all addresses stay, if there was no table at `i`.
  pub pte_of-add_table :
      is_present (word_at pgdir i ram) ≡ false
      → (va : ℕ) → pte_of pgdir va (add_table pgdir i pg ram) ≡ pte_of pgdir va ram
  pte_of-add_table none_there va = elim (ℕ_discrete (pdx va) i) [
    | yes here ↦
        pte_of_some pgdir va (add_table pgdir i pg ram) (at_new (pdx va) here).0
        ∙ ap (λ x. word_at x (ptx va) (add_table pgdir i pg ram)) (at_new (pdx va) here).1
        ∙ add_table_zero pgdir i pg ram t.root_apart.0 t.pages.0 (ptx va) (omega arith)
        ∙ sym (
            pte_of_none pgdir va ram (ap (λ k. is_present (word_at pgdir k ram)) here ∙ none_there))
    | no off ↦ elim (Bool-cases (is_present (word_at pgdir (pdx va) ram))) [
      | inl there ↦
          pte_of_some pgdir va (add_table pgdir i pg ram)
            (ap is_present (at_old (pdx va) off) ∙ there)
          ∙ ap (λ x. word_at x (ptx va) (add_table pgdir i pg ram)) (old_table (pdx va) off)
          ∙ add_table_away pgdir i pg ram t.root_apart.0 t.pages.0 (table pgdir (pdx va) ram)
              (ptx va) (t.tables_apart (pdx va) (omega arith) there).0
              (t.not_root (pdx va) (omega arith) there)
          ∙ sym (pte_of_some pgdir va ram there)
      | inr none_either ↦
          pte_of_none pgdir va (add_table pgdir i pg ram)
            (ap is_present (at_old (pdx va) off) ∙ none_either)
          ∙ sym (pte_of_none pgdir va ram none_either)
    ]
  ]
