-- ===== src/Mlfq/Quantum.antt =====
-- The accounting of timer interrupts in project01/xv6-public/trap.c: quanta, levels and priorities.
use ele.Common.{
  ltb, ltb→lt, ℕ_discrete, get_elem?-set_ne, set-set, set_self, ℕ, zero, suc, ◌+◌, ◌-◌, ◌*◌, ◌≤◌,
  ◌<◌, ◌≡◌, refl, ap, sym, ◌∙◌, true, some, List, arith, pos, sub_ℕ, ◌==◌, if◌then◌else◌, get_elem?,
  set, get_elem?-set_self, get_elem?-lt, modify-eq-set, modify-set, find_index-set, find_index_here,
  find_index, Bool-cases, inl, inr, All, All-set, All-get_elem?,
}
use ele.Proc.{Proc, is_running, runnable, has_pid, clamp_priority, set_priority}
use ele.Mlfq.{check_quantum, demote, charge, timer_tick}

-- What one timer interrupt does to the process that it finds running, all else in `trap` aside.
unfoldable pub charged : Proc → Proc
unfolding clamp_priority
charged p =
    if p.tq + 1 == p.q_lv * 2 + 4
    then if p.q_lv == 2
      then record p { priority = p.priority - 1; tq = 0 }
      else record p { q_lv = p.q_lv + 1; tq = 0 }
    else record p { tq = p.tq + 1 }

-- No other process in the table has the id of the process at `i`.
pub record IsSole (ps : List Proc) (i : ℕ) (p : Proc) : Type 0 where
  pub here : get_elem? ps i ≡ some p
  pub sole : (j : ℕ) (q : Proc) → get_elem? ps j ≡ some q → q.pid ≡ p.pid → j ≡ i

-- The levels, priorities and quanta that the scheduler works with.
pub record IsLevelled (p : Proc) : Type 0 where
  pub level : p.q_lv ≤ 2
  pub rank : p.priority ≤ 3
  pub quantum : p.tq < p.q_lv * 2 + 4

find_self :
    (ps : List Proc) (i : ℕ) (p : Proc)
    → IsSole ps i p
    → find_index (has_pid (pos p.pid)) ps ≡ some i
unfolding has_pid
find_self ps i p h =
    find_index_here _ ps i p h.here (ground arith) (λ j q g t. h.sole j q g (ground arith))

-- The lowered priority stays in range, so that `setPriority` stores it as it is.
clamp_lower : (n : ℕ) → n ≤ 3 → clamp_priority (sub_ℕ n 1) ≡ n - 1
unfolding clamp_priority
clamp_lower n h = ground arith

module _ (ps : List Proc) (i : ℕ) (p : Proc) (only : IsSole ps i p) (small : p.priority ≤ 3) where
  -- The process in the middle of the interrupt.
  abbrev counted : Proc
  counted = record p { tq = p.tq + 1 }

  find-counted : find_index (has_pid (pos p.pid)) (set ps i counted) ≡ some i
  unfolding has_pid
  find-counted =
      find_index-set (has_pid (pos p.pid)) ps i p counted only.here refl ∙ find_self ps i p only

  set_priority-counted :
      set_priority (pos p.pid) (sub_ℕ p.priority 1) (set ps i counted)
      ≡ set ps i (record counted { priority = p.priority - 1 })
  unfolding set_priority
  set_priority-counted =
      rw (find-counted, set_priority, clamp_lower p.priority small) (modify-set ps i counted _)

  demote-counted :
      demote i counted (set ps i counted)
      ≡ set ps i (
          if p.q_lv == 2
          then record p { priority = p.priority - 1; tq = 0 }
          else record p { q_lv = p.q_lv + 1; tq = 0 })
  unfolding demote
  demote-counted = elim (Bool-cases (p.q_lv == 2)) [
    | inl last ↦ rw (last, demote, set_priority-counted) (modify-set ps i _ _)
    | inr more ↦ rw (more, demote, modify-set ps i counted _) (modify-set ps i _ _)
  ]

  check_quantum-counted : check_quantum i (set ps i counted) ≡ set ps i (charged p)
  unfolding check_quantum charged
  check_quantum-counted =
      rw (get_elem?-set_self ps i counted (get_elem?-lt ps i p only.here), check_quantum)
        (elim (Bool-cases (p.tq + 1 == p.q_lv * 2 + 4)) [
          | inl full ↦ rw (full, charged) demote-counted
          | inr left ↦ rw (left, charged)
        ])

  charge-charged : charge i ps ≡ set ps i (charged p)
  charge-charged =
      unfold charge in
      ap (check_quantum i) (modify-eq-set ps i (λ q. record q { tq = q.tq + 1 }) only.here)
      ∙ check_quantum-counted

  -- With process ids that are distinct and a priority in range, a timer interrupt that finds process
  -- `i` running changes that process alone: it is charged one tick and becomes runnable.
  pub timer_tick_lem :
      is_running p.state ≡ true
      → timer_tick i ps ≡ set ps i (record (charged p) { state = runnable })
  unfolding timer_tick
  timer_tick_lem run =
      rw (only.here, timer_tick, run, charge-charged) (modify-set ps i (charged p) _)

charged-IsLevelled : (p : Proc) → IsLevelled p → IsLevelled (charged p)
unfolding charged
charged-IsLevelled p h = ground arith

-- A timer interrupt that finds process `i` running keeps every level within 0 to 2, every priority
-- within 0 to 3 and every used quantum below that of its level, if process ids are distinct.
pub timer_tick-IsLevelled :
    (ps : List Proc) (i : ℕ) (p : Proc)
    → IsSole ps i p
    → is_running p.state ≡ true
    → All IsLevelled ps
    → All IsLevelled (timer_tick i ps)
timer_tick-IsLevelled ps i p only run h =
    let own : IsLevelled p = All-get_elem? IsLevelled ps i h only.here in
    let next = charged-IsLevelled p own in
    rw (timer_tick_lem ps i p only own.rank run) (
      All-set IsLevelled ps i h
        (record { level = next.level; rank = next.rank; quantum = next.quantum }))

-- The accounting of `n` timer interrupts that find process `i` running, whatever runs in between.
unfoldable pub charge_times : ℕ → ℕ → List Proc → List Proc
charge_times zero i ps = ps
charge_times (suc n) i ps = charge i (charge_times n i ps)

IsSole-set :
    (ps : List Proc) (i : ℕ) (p r : Proc) → IsSole ps i p → r.pid ≡ p.pid → IsSole (set ps i r) i r
IsSole-set ps i p r only same = record {
  here = get_elem?-set_self ps i r (get_elem?-lt ps i p only.here);
  sole = λ j q g e. elim (ℕ_discrete i j) [
    | yes at ↦ sym at
    | no off ↦ only.sole j q (sym (get_elem?-set_ne ps r off) ∙ g) (e ∙ same)
  ];
}

module _ (ps : List Proc) (i : ℕ) (p : Proc) (only : IsSole ps i p) (h : IsLevelled p)
    (fresh : p.tq ≡ 0) where
  charge-set :
      (r : Proc) → r.pid ≡ p.pid → r.priority ≤ 3 → charge i (set ps i r) ≡ set ps i (charged r)
  charge-set r same small =
      charge-charged (set ps i r) i r (IsSole-set ps i p r only same) small
      ∙ set-set ps i r (charged r)

  part_quantum : (n : ℕ) → n < p.q_lv * 2 + 4 → charge_times n i ps ≡ set ps i (record p { tq = n })
  unfolding charge_times charged
  part_quantum zero lt =
      sym (set_self ps i (only.here ∙ ap (λ t. some (record p { tq = t })) fresh))
  part_quantum (suc n) lt =
      ap (charge i) (part_quantum n (omega arith))
      ∙ charge-set (record p { tq = n }) refl h.rank
      ∙ ap (set ps i) (ground arith)

  last_charge :
      charge_times (suc (p.q_lv * 2 + 3)) i ps
      ≡ set ps i (
          if p.q_lv == 2
          then record p { priority = p.priority - 1; tq = 0 }
          else record p { q_lv = p.q_lv + 1; tq = 0 })
  unfolding charge_times charged
  last_charge =
      ap (charge i) (part_quantum (p.q_lv * 2 + 3) (omega arith))
      ∙ charge-set (record p { tq = p.q_lv * 2 + 3 }) refl h.rank
      ∙ ap (set ps i) (ground arith)

  full_quantum :
      charge_times (p.q_lv * 2 + 4) i ps
      ≡ set ps i (
          if p.q_lv == 2
          then record p { priority = p.priority - 1; tq = 0 }
          else record p { q_lv = p.q_lv + 1; tq = 0 })
  full_quantum = ap (λ k. charge_times k i ps) one_less ∙ last_charge
    where
      one_less : p.q_lv * 2 + 4 ≡ suc (p.q_lv * 2 + 3)
      one_less = omega arith

  -- If process ids are distinct, a process that starts its quantum at level l within the bounds
  -- keeps level and priority for the first 2 * l + 3 timer interrupts that it runs through, and at
  -- the next one goes down to level l + 1, or stays in L2 with its priority number lower by one
  -- (but not below 0), with a new quantum. Nothing else in the table changes.
  pub quantum_lem :
      (n : ℕ)
      → n ≤ p.q_lv * 2 + 4
      → charge_times n i ps
        ≡ set ps i (
            if ltb n (p.q_lv * 2 + 4)
            then record p { tq = n }
            else if p.q_lv == 2
            then record p { priority = p.priority - 1; tq = 0 }
            else record p { q_lv = p.q_lv + 1; tq = 0 })
  quantum_lem n le = elim (Bool-cases (ltb n (p.q_lv * 2 + 4))) [
    | inl within ↦ rw within (part_quantum n (ltb→lt _ _ within))
    | inr over ↦
        let all_used : n ≡ p.q_lv * 2 + 4 = ground arith in
        rw over (ap (λ k. charge_times k i ps) all_used ∙ full_quantum)
  ]
