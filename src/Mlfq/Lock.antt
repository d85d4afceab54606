-- ===== src/Mlfq/Lock.antt =====
-- The scheduler's lock in project01/xv6-public/proc.c: who runs while it is held, and after it.
use mathlib.Core.Bool.{true≢false}
use mathlib.Core.Option.{some_inj}
use ele.Common.{
  ℕ, ◌≡◌, ◌≢◌, refl, sym, ◌∙◌, ap, true, false, Option, none, some, List, arith, pos, negsuc, ◌<ℤ◌,
  All-get_elem?, get_elem?, get_elem?-lt, get_elem?-set_self, get_elem?-set_ne, set, modify-eq-set,
  ℕ_discrete,
}
use ele.Proc.{Proc, Ptable, is_runnable}
use ele.Mlfq.{password, unlocked, returns, choose, scheduler_unlock}
use ele.Mlfq.Order.{Precedes, level, arrival, IsChoice, Chosen, choose_lem}
use ele.Mlfq.Rounds.{unlock_lem}

-- A process that has just given up the lock comes before every process that has arrived since boot.
unlocked-Precedes : (p q : Proc) → ¬ (q.time <ℤ pos 0) → Precedes (unlocked p) q
unlocked-Precedes p q late = elim (ℕ_discrete q.q_lv 0) [
  | yes front ↦ arrival (sym front) (λ e. omega arith) (omega arith)
  | no back ↦ level (omega arith)
]

module _ (t : Ptable) (i : ℕ) (p : Proc) (here : get_elem? t.procs i ≡ some p)
    (ready : is_runnable p.state ≡ true)
    (late : (j : ℕ) (q : Proc) → j ≢ i → get_elem? t.procs j ≡ some q → ¬ (q.time <ℤ pos 0)) where
  abbrev after : List Proc
  after = set t.procs i (unlocked p)

  at_i : get_elem? after i ≡ some (unlocked p)
  at_i = get_elem?-set_self t.procs i (unlocked p) (get_elem?-lt t.procs i p here)

  choice_is_i : (j : ℕ) (q : Proc) → IsChoice after j q → (j ≡ i) × (q ≡ unlocked p)
  choice_is_i j q c = elim (ℕ_discrete j i) [
    | yes e ↦ (e, some_inj.0 (sym (rw e at c.here) ∙ at_i))
    | no off ↦ absurd (
        c.first i (unlocked p) at_i ready (
          unlocked-Precedes p q (
            late j q off
              (sym (get_elem?-set_ne t.procs (unlocked p) (λ x. off (sym x))) ∙ c.here))))
  ]

  only_choice : (c : Option (ℕ × Proc)) → Chosen after c → c ≡ some (i, unlocked p)
  only_choice none h =
      absurd
        (true≢false (sym ready ∙ All-get_elem? (λ q. is_runnable q.state ≡ false) after i h at_i))
  only_choice (some (j, q)) h = let (same, item) = choice_is_i j q h in λ k. some (same k, item k)

  choose-after : choose after ≡ some (i, unlocked p)
  choose-after = only_choice (choose after) (choose_lem after)

  -- If the process that holds the scheduler's lock is runnable, and no other process has an arrival
  -- time below 0, then after `schedulerUnlock` with the right password the scheduler is not locked,
  -- and the process that it runs next is the one that held the lock, now in L0 with priority 3
  -- no used quantum and the arrival time -1.
  pub unlock_next :
      t.is_lock ≡ true
      → t.lock_process ≡ some i
      → (u : Ptable) × (scheduler_unlock password t ≡ some (returns, u))
        × (u.is_lock ≡ false)
        × (u.lock_process ≡ none)
        × (choose u.procs ≡ some (i, record p { q_lv = 0; priority = 3; tq = 0; time = negsuc 0 }))
  unlock_next locked held = (
    record t { is_lock = false; lock_process = none; procs = after },
    unlock_lem t i locked held
        ∙ ap (λ ps. some (returns, record t { is_lock = false; lock_process = none; procs = ps }))
            (modify-eq-set t.procs i unlocked here),
    refl,
    refl,
    choose-after,
  )
