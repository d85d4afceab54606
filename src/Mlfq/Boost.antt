-- ===== src/Mlfq/Boost.antt =====
-- Whole passes of the scheduler's loop in project01/xv6-public/proc.c, and the priority boost that
-- bounds both starvation and the scheduler's lock.
use mathlib.Core.Path.{subst}
use ele.Common.{
  ℕ, ◌+◌, ◌≡◌, ◌∙◌, ◌⊎◌, false, Option, none, some, arith, All, Returns, Returns-mono, Returns-then,
}
use ele.Proc.{Ptable}
use ele.Mlfq.{sched_pick, stamp, drop_zombie_lock, count_round, sched_return, round}
use ele.Mlfq.Rounds.{
  IsSane, IsFront, Kept, Counted, stamp-Kept, sched_pick-Kept, drop_zombie_lock-Kept,
  count_round-Counted,
}

sched_return-Counted :
    (o : Option ℕ) (t : Ptable)
    → IsSane t
    → Returns (sched_return o t) (λ u. Counted t.upper_bound u)
unfolding sched_return
sched_return-Counted o t h =
    let (h1, same1) = stamp-Kept o t h in
    Returns-then (λ u. Kept t u) (λ u. Counted t.upper_bound u) count_round
      (λ u k.
        subst (λ n. Returns (count_round u) (λ v. Counted n v)) k.1 (count_round-Counted u k.0))
      (drop_zombie_lock (stamp o t))
      (Returns-mono (λ u. Kept (stamp o t) u) (λ u. Kept t u) (λ u k. (k.0, k.1 ∙ same1)) _
        (drop_zombie_lock-Kept (stamp o t) h1))

-- The rest of a pass, after the choice.
unfoldable pub finish : (ℕ → Ptable → Ptable) → Option ℕ × Ptable → Option Ptable
finish run (none, t) = sched_return none t
finish run (some i, t) = sched_return (some i) (run i t)

pub round-finish :
    (run : ℕ → Ptable → Ptable) (t : Ptable)
    → round run t ≡ elim (sched_pick t) [ none ↦ none | some r ↦ finish run r ]
unfolding round finish
round-finish run t = ground arith

module _ (run : ℕ → Ptable → Ptable) where
  -- What a running process may do to the count: the lock system call alone touches it.
  abbrev Steady : Type 0
  Steady = (i : ℕ) (u : Ptable) → IsSane u → Kept u (run i u)

  finish-Counted :
      Steady
      → (n : ℕ) (r : Option ℕ × Ptable) → IsSane r.1
      → r.1.upper_bound ≡ n
      → Returns (finish run r) (λ u. Counted n u)
  unfolding finish
  finish-Counted steady n (none, t) h e =
      subst (λ k. Returns (sched_return none t) (λ u. Counted k u)) e
        (sched_return-Counted none t h)
  finish-Counted steady n (some i, t) h e =
      let (h1, same) = steady i t h in
      subst (λ k. Returns (sched_return (some i) (run i t)) (λ u. Counted k u)) (same ∙ e)
        (sched_return-Counted (some i) (run i t) h1)

  round-Counted :
      Steady → (t : Ptable) → IsSane t → Returns (round run t) (λ u. Counted t.upper_bound u)
  round-Counted steady t h = rw round-finish (
      Returns-then (λ r. Kept t r.1) (λ u. Counted t.upper_bound u) (finish run)
        (λ r k. finish-Counted steady t.upper_bound r k.0 k.1) (sched_pick t) (sched_pick-Kept t h))

  -- From a sane state a pass of the scheduler does not fault, whichever process it runs and whatever
  -- that process does to the table, if only that keeps the table sane and leaves the count of
  -- rounds alone. The count goes up by one, or, at the hundredth pass, back to 0; then the
  -- scheduler is not locked and every process is in L0 with the arrival time 0 or -1, priority
  -- number 3 and a new quantum.
  pub round_lem :
      Steady
      → (t : Ptable) → IsSane t
      → Returns (round run t) (λ u.
        IsSane u
        × ((u.upper_bound ≡ t.upper_bound + 1)
            ⊎ (((t.upper_bound ≡ 99) × (u.upper_bound ≡ 0))
                × (u.is_lock ≡ false)
                × All IsFront u.procs)))
  round_lem = round-Counted

  abbrev Fresh : Ptable → Type 0
  Fresh u = IsSane u × (u.upper_bound ≡ 0) × (u.is_lock ≡ false) × All IsFront u.procs
