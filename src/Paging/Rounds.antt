-- ===== src/Paging/Rounds.antt =====
-- The rounds of `mappages` in vm.c on a range of pages.
use ele.Common.{
  ℕ, zero, suc, ◌+◌, ◌*◌, ◌%◌, ◌^◌, ◌<◌, ◌≤◌, ◌≡◌, ◌≢◌, ◌∙◌, refl, ap, sym, subst, arith,
  ℕ_discrete, ◌==◌, true, false, Bool-cases, inl, inr, Option, some,
}
use ele.Paging.{Machine, pdx, ptx, is_present, entry, made_entry, walkpgdir, map_pages}
use ele.Paging.Tree.{table, HasTable, pte_of, pte_of_some}
use ele.Paging.Entries.{
  IsSound, Walked, no_memory, at_entry, walkpgdir-Walked, IsTree-set_entry, pte_of-set_entry_self,
  pte_of-set_entry_ne,
}
use ele.Paging.Range.{
  IsOutside, Ranged, all_mapped, out_of_memory, remapped, other_page, map_step, map_pages-map_step,
  put, step_remap, step_last, step_more, Ranged-next,
}

-- What a round leaves that has found its entry.
module _ (pgdir a pa perm : ℕ) (m m' : Machine) (t : IsSound pgdir m')
    (h : HasTable pgdir (pdx a) m'.ram)
    (same : (b : ℕ) → pte_of pgdir b m'.ram ≡ pte_of pgdir b m.ram) (aligned : a % 4096 ≡ 0)
    (bound : a + 4096 ≤ 2 ^ 32) (pa_bound : pa + 4096 ≤ 2 ^ 32) (flags : perm < 4096) where
  put-IsSound : IsSound pgdir (put pgdir a (made_entry pa perm) m')
  put-IsSound = IsTree-set_entry t a (made_entry pa perm) h

  put_here : pte_of pgdir a (put pgdir a (made_entry pa perm) m').ram ≡ made_entry pa perm
  put_here = pte_of-set_entry_self t a (made_entry pa perm) h (omega (arith, pa_bound, flags))

  put_outside :
      (b : ℕ)
      → IsOutside a 1 b
      → pte_of pgdir b (put pgdir a (made_entry pa perm) m').ram ≡ pte_of pgdir b m.ram
  put_outside b out =
      pte_of-set_entry_ne t a (made_entry pa perm) h b (other_page a b aligned bound out) ∙ same b

  last-Ranged : Ranged pgdir a 1 pa perm m (some (true, put pgdir a (made_entry pa perm) m'))
  last-Ranged =
      all_mapped (put pgdir a (made_entry pa perm) m') put-IsSound
        (λ k l.
          ap (λ k. pte_of pgdir (a + k * 4096) (put pgdir a (made_entry pa perm) m').ram) (only k l)
          ∙ ap (λ b. pte_of pgdir b (put pgdir a (made_entry pa perm) m').ram) (start a)
          ∙ put_here
          ∙ ap (λ x. made_entry x perm) (sym (start pa))
          ∙ ap (λ k. made_entry (pa + k * 4096) perm) (sym (only k l)))
        put_outside
    where
      only : (k : ℕ) → k < 1 → k ≡ 0
      only k l = omega (arith, l)

      start : (a : ℕ) → a + 0 * 4096 ≡ a
      start a = omega arith

-- One round, by what `walkpgdir` has come to, and given what the rounds behind it do.
step-Ranged :
    (n pgdir a last pa perm : ℕ) (m : Machine)
    → IsSound pgdir m
    → a % 4096 ≡ 0
    → a + suc n * 4096 ≤ 2 ^ 32
    → last ≡ a + n * 4096
    → pa + suc n * 4096 ≤ 2 ^ 32
    → perm < 4096
    → ((next : Machine)
        → IsSound pgdir next
        → 0 < n
        → Ranged pgdir
            (a + 4096)
            n
            (pa + 4096)
            perm
            next
            (map_pages n pgdir (a + 4096) last (pa + 4096) perm next))
    → (w : Option (ℕ × ℕ) × Machine) → Walked pgdir a m w
    → Ranged pgdir a (suc n) pa perm m (map_step n pgdir a last pa perm w)
step-Ranged n pgdir a last pa perm m t aligned bound at_last pa_bound flags later w (no_memory f) =
    out_of_memory m t f (λ b out. refl)
step-Ranged n pgdir a last pa perm m t aligned bound at_last pa_bound flags later w
      (at_entry m' t' h same) =
    let e = pte_of_some pgdir a m'.ram h in
    let next = put pgdir a (made_entry pa perm) m' in
    let fit : a + 4096 ≤ 2 ^ 32 = omega (arith, bound) in
    let pa_fit : pa + 4096 ≤ 2 ^ 32 = omega (arith, pa_bound) in
    elim (Bool-cases (is_present (entry (table pgdir (pdx a) m'.ram, ptx a) m'.ram))) [
      | inl there ↦
          subst (Ranged pgdir a (suc n) pa perm m)
            (sym (step_remap n pgdir a last pa perm m' there))
            (remapped 0 (omega arith)
              (ap is_present (ap (λ b. pte_of pgdir b m.ram) (start a) ∙ sym (same a) ∙ e) ∙ there))
      | inr absent ↦ elim (ℕ_discrete n 0) [
        | yes z ↦
            subst (Ranged pgdir a (suc n) pa perm m)
              (sym (step_last n pgdir a last pa perm m' absent (ends a last n z at_last)))
              (subst (λ k. Ranged pgdir a (suc k) pa perm m (some (true, next))) (sym z)
                (last-Ranged pgdir a pa perm m m' t' h same aligned fit pa_fit flags))
        | no nz ↦
            subst (Ranged pgdir a (suc n) pa perm m)
              (sym (step_more n pgdir a last pa perm m' absent (goes_on a last n nz at_last)))
              (Ranged-next bound (put_here pgdir a pa perm m m' t' h same aligned fit pa_fit flags)
                (put_outside pgdir a pa perm m m' t' h same aligned fit pa_fit flags)
                (subst
                  (λ b.
                    Ranged pgdir (a + 4096) n (pa + 4096) perm next
                      (map_pages n pgdir b last ((pa + 4096) % 2 ^ 32) perm next))
                  (sym (no_wrap a n nz bound))
                  (subst
                    (λ b.
                      Ranged pgdir (a + 4096) n (pa + 4096) perm next
                        (map_pages n pgdir (a + 4096) last b perm next))
                    (sym (no_wrap pa n nz pa_bound))
                    (later next
                      (put-IsSound pgdir a pa perm m m' t' h same aligned fit pa_fit flags)
                      (omega (arith, nz))))))
      ]
    ]
  where
    start : (a : ℕ) → a + 0 * 4096 ≡ a
    start a = omega arith

    ends : (a last n : ℕ) → n ≡ 0 → last ≡ a + n * 4096 → (a == last) ≡ true
    ends a last n z e = ground (arith, z, e)

    goes_on : (a last n : ℕ) → n ≢ 0 → last ≡ a + n * 4096 → (a == last) ≡ false
    goes_on a last n nz e = ground (arith, nz, e)

    no_wrap : (a n : ℕ) → n ≢ 0 → a + suc n * 4096 ≤ 2 ^ 32 → (a + 4096) % 2 ^ 32 ≡ a + 4096
    no_wrap a n nz h = omega (arith, nz, h)

pub map_pages-Ranged :
    (n pgdir a last pa perm : ℕ) (m : Machine)
    → IsSound pgdir m
    → a % 4096 ≡ 0
    → a + suc n * 4096 ≤ 2 ^ 32
    → last ≡ a + n * 4096
    → pa + suc n * 4096 ≤ 2 ^ 32
    → perm < 4096
    → Ranged pgdir a (suc n) pa perm m (map_pages (suc n) pgdir a last pa perm m)
map_pages-Ranged zero pgdir a last pa perm m t aligned bound at_last pa_bound flags =
    subst (Ranged pgdir a 1 pa perm m) (sym (map_pages-map_step 0 pgdir a last pa perm m)) (
      step-Ranged 0 pgdir a last pa perm m t aligned bound at_last pa_bound flags
        (λ next s l. absurd (omega (arith, l))) (walkpgdir pgdir a true m)
        (walkpgdir-Walked pgdir a m t))
map_pages-Ranged (suc n) pgdir a last pa perm m t aligned bound at_last pa_bound flags =
    subst (Ranged pgdir a (suc (suc n)) pa perm m)
      (sym (map_pages-map_step (suc n) pgdir a last pa perm m))
      (step-Ranged (suc n) pgdir a last pa perm m t aligned bound at_last pa_bound flags
        (λ next s l.
          map_pages-Ranged n pgdir (a + 4096) last (pa + 4096) perm next s (omega (arith, aligned))
            (omega (arith, bound)) (omega (arith, at_last)) (omega (arith, pa_bound)) flags)
        (walkpgdir pgdir a true m) (walkpgdir-Walked pgdir a m t))
