-- ===== src/Paging/Range.antt =====
-- A round of `mappages` in vm.c, and what the rounds come to.
use ele.Common.{
  ℕ, suc, ◌+◌, ◌*◌, ◌%◌, ◌-◌, ◌^◌, ◌<◌, ◌≤◌, ◌≡◌, ◌≢◌, ◌∙◌, ◌⊎◌, refl, ap, sym, arith, ℕ_discrete,
  ◌==◌, Bool, true, false, inl, inr, Option, none, some, [],
}
use ele.Paging.{Machine, pdx, ptx, is_present, entry, set_entry, made_entry, walkpgdir, map_pages}
use ele.Paging.Tree.{table, pte_of}
use ele.Paging.Entries.{IsSound}

-- Addresses outside the `n` pages from `a` on.
abbrev pub IsOutside : ℕ → ℕ → ℕ → Type 0
IsOutside a n b = (b < 2 ^ 32) × ((b < a) ⊎ (a + n * 4096 ≤ b))

-- The outcomes: all pages are mapped in their order, memory has run out, or a page was mapped before.
pub data Ranged (pgdir a n pa perm : ℕ) (m : Machine) : Option (Bool × Machine) → Type 0 where
  all_mapped :
      (m' : Machine)
      → IsSound pgdir m'
      → ((k : ℕ) → k < n → pte_of pgdir (a + k * 4096) m'.ram ≡ made_entry (pa + k * 4096) perm)
      → ((b : ℕ) → IsOutside a n b → pte_of pgdir b m'.ram ≡ pte_of pgdir b m.ram)
      → Ranged pgdir a n pa perm m (some (true, m'))
  out_of_memory :
      (m' : Machine)
      → IsSound pgdir m'
      → m'.kmem.freelist ≡ []
      → ((b : ℕ) → IsOutside a n b → pte_of pgdir b m'.ram ≡ pte_of pgdir b m.ram)
      → Ranged pgdir a n pa perm m (some (false, m'))
  remapped :
      (k : ℕ)
      → k < n
      → is_present (pte_of pgdir (a + k * 4096) m.ram) ≡ true
      → Ranged pgdir a n pa perm m none

-- Other pages have another entry.
pub other_page :
    (a b : ℕ)
    → a % 4096 ≡ 0
    → a + 4096 ≤ 2 ^ 32
    → IsOutside a 1 b
    → (pdx a ≢ pdx b) ⊎ (ptx a ≢ ptx b)
other_page a b e u out = elim (ℕ_discrete (pdx a) (pdx b)) [
  | no far ↦ inl far
  | yes same ↦ inr (λ s. go out.1 same s)
]
  where
    go : (b < a) ⊎ (a + 1 * 4096 ≤ b) → pdx a ≡ pdx b → ptx a ≡ ptx b → ⊥
    go (inl h) p q = omega (arith, e, u, out.0, h, p, q)
    go (inr h) p q = omega (arith, e, u, out.0, h, p, q)

-- One round, from what `walkpgdir` gives.
abbrev pub map_step : ℕ → ℕ → ℕ → ℕ → ℕ → ℕ → Option (ℕ × ℕ) × Machine → Option (Bool × Machine)
map_step n pgdir a last pa perm w = elim w.0 [
  | none ↦ some (false, w.1)
  | some e ↦ elim (is_present (entry e w.1.ram)) [
    | true ↦ none
    | false ↦
        let next = record w.1 { ram = set_entry e (made_entry pa perm) w.1.ram } in
        elim (a == last) [
          | true ↦ some (true, next)
          | false ↦ map_pages n pgdir ((a + 4096) % 2 ^ 32) last ((pa + 4096) % 2 ^ 32) perm next
        ]
  ]
]

pub map_pages-map_step :
    (n pgdir a last pa perm : ℕ) (m : Machine)
    → map_pages (suc n) pgdir a last pa perm m
      ≡ map_step n pgdir a last pa perm (walkpgdir pgdir a true m)
unfolding map_pages
map_pages-map_step n pgdir a last pa perm m = refl

-- The machine after a round.
abbrev pub put : ℕ → ℕ → ℕ → Machine → Machine
put pgdir a v m = record m { ram = set_entry (table pgdir (pdx a) m.ram, ptx a) v m.ram }

-- The tests of a round that has found its entry: whether it is present, and whether the page is the last.
abbrev pub after_entry : Machine → Option (Bool × Machine) → Bool → Bool → Option (Bool × Machine)
after_entry next more present at_last = elim present [
  | true ↦ none
  | false ↦ elim at_last [ true ↦ some (true, next) | false ↦ more ]
]

module _ (n pgdir a last pa perm : ℕ) (m : Machine) where
  abbrev pub rest_of : Option (Bool × Machine)
  rest_of =
      map_pages n pgdir ((a + 4096) % 2 ^ 32) last ((pa + 4096) % 2 ^ 32) perm
        (put pgdir a (made_entry pa perm) m)

  pub step_remap :
      is_present (entry (table pgdir (pdx a) m.ram, ptx a) m.ram) ≡ true
      → map_step n pgdir a last pa perm (some (table pgdir (pdx a) m.ram, ptx a), m) ≡ none
  step_remap e = ap (λ p. after_entry (put pgdir a (made_entry pa perm) m) rest_of p (a == last)) e

  pub step_last :
      is_present (entry (table pgdir (pdx a) m.ram, ptx a) m.ram) ≡ false
      → (a == last) ≡ true
      → map_step n pgdir a last pa perm (some (table pgdir (pdx a) m.ram, ptx a), m)
        ≡ some (true, put pgdir a (made_entry pa perm) m)
  step_last e f =
      ap (λ p. after_entry (put pgdir a (made_entry pa perm) m) rest_of p (a == last)) e
      ∙ ap (λ l. after_entry (put pgdir a (made_entry pa perm) m) rest_of false l) f

  pub step_more :
      is_present (entry (table pgdir (pdx a) m.ram, ptx a) m.ram) ≡ false
      → (a == last) ≡ false
      → map_step n pgdir a last pa perm (some (table pgdir (pdx a) m.ram, ptx a), m)
        ≡ map_pages n pgdir
            ((a + 4096) % 2 ^ 32)
            last
            ((pa + 4096) % 2 ^ 32)
            perm
            (put pgdir a (made_entry pa perm) m)
  step_more e f =
      ap (λ p. after_entry (put pgdir a (made_entry pa perm) m) rest_of p (a == last)) e
      ∙ ap (λ l. after_entry (put pgdir a (made_entry pa perm) m) rest_of false l) f

IsOutside-later : (a n b : ℕ) → IsOutside a (suc n) b → IsOutside (a + 4096) n b
IsOutside-later a n b (l, inl h) = (l, inl (omega (arith, h)))
IsOutside-later a n b (l, inr h) = (l, inr (omega (arith, h)))

IsOutside-once : (a n b : ℕ) → IsOutside a (suc n) b → IsOutside a 1 b
IsOutside-once a n b (l, inl h) = (l, inl h)
IsOutside-once a n b (l, inr h) = (l, inr (omega (arith, h)))

-- A round that is not the last, and the rounds behind it.
pub Ranged-next :
    {pgdir a n pa perm : ℕ} {m m' : Machine} {o : Option (Bool × Machine)}
    → a + suc n * 4096 ≤ 2 ^ 32
    → pte_of pgdir a m'.ram ≡ made_entry pa perm
    → ((b : ℕ) → IsOutside a 1 b → pte_of pgdir b m'.ram ≡ pte_of pgdir b m.ram)
    → Ranged pgdir (a + 4096) n (pa + 4096) perm m' o
    → Ranged pgdir a (suc n) pa perm m o
Ranged-next {pgdir} {a} {n} {pa} {perm} bound here same (all_mapped g t new old) =
    all_mapped g t
      (λ k l. elim (ℕ_discrete k 0) [
        | yes z ↦
            ap (λ k. pte_of pgdir (a + k * 4096) g.ram) z
            ∙ ap (λ b. pte_of pgdir b g.ram) (start a)
            ∙ old a (omega (arith, bound), inl (omega arith))
            ∙ here
            ∙ ap (λ x. made_entry x perm) (sym (start pa))
            ∙ ap (λ k. made_entry (pa + k * 4096) perm) (sym z)
        | no nz ↦
            ap (λ b. pte_of pgdir b g.ram) (sym (onward a k (omega (arith, nz))))
            ∙ new (k - 1) (omega (arith, l, nz))
            ∙ ap (λ x. made_entry x perm) (onward pa k (omega (arith, nz)))
      ])
      (λ b out. old b (IsOutside-later a n b out) ∙ same b (IsOutside-once a n b out))
  where
    start : (a : ℕ) → a + 0 * 4096 ≡ a
    start a = omega arith

    onward : (a k : ℕ) → 0 < k → a + 4096 + (k - 1) * 4096 ≡ a + k * 4096
    onward a k h = omega (arith, h)
Ranged-next {pgdir} {a} {n} {pa} {perm} bound here same (out_of_memory g t f old) =
    out_of_memory g t f
      (λ b out. old b (IsOutside-later a n b out) ∙ same b (IsOutside-once a n b out))
Ranged-next {pgdir} {a} {n} {pa} {perm} {m} {m'} bound here same (remapped k l p) =
    remapped (suc k) (omega (arith, l)) (
      ap is_present (
        ap (λ b. pte_of pgdir b m.ram) (sym (onward a k))
        ∙ sym (same (a + 4096 + k * 4096) (omega (arith, l, bound), inr (omega arith))))
      ∙ p)
  where
    onward : (a k : ℕ) → a + 4096 + k * 4096 ≡ a + suc k * 4096
    onward a k = omega arith
