-- ===== src/Mlfq/Held.antt =====
-- The scheduler's lock in project01/xv6-public/proc.c over the passes of the scheduler's loop.
use ele.Common.{
  ℕ, zero, suc, ◌+◌, ◌<◌, ◌≡◌, refl, sym, ap, ◌∙◌, subst, true, false, Option, none, some, arith,
  Bool-cases, inl, inr, Returns, Returns-then, Returns-mono, get_elem?, get_elem?-lt,
  get_elem?-set_self, modify, modify-eq-set, if◌then◌else◌, leb,
}
use ele.Proc.{Proc, Ptable, is_runnable, is_sleeping, is_zombie}
use ele.Mlfq.{
  password, returns, scheduler_lock, start, sched_pick, stamp, drop_zombie_lock, count_round,
  sched_return, round, rounds,
}
use ele.Mlfq.Rounds.{sched_pick-locked, drop-alive}
use ele.Mlfq.Boost.{finish, round-finish}

-- The process in slot `i` holds the scheduler's lock, and has not exited.
pub record IsHeld (i : ℕ) (t : Ptable) : Type 0 where
  pub locked : t.is_lock ≡ true
  pub holder : t.lock_process ≡ some i
  pub alive : (p : Proc) × (get_elem? t.procs i ≡ some p) × (is_zombie p.state ≡ false)

-- The holder's entry is written, and not to a zombie.
pub modify-IsHeld :
    (i : ℕ) (f : Proc → Proc) (t : Ptable)
    → ((p : Proc) → is_zombie p.state ≡ false → is_zombie (f p).state ≡ false)
    → IsHeld i t
    → IsHeld i (record t { procs = modify t.procs i f })
modify-IsHeld i f t lives h =
    let (p, here, living) = h.alive in
    record {
      locked = h.locked;
      holder = h.holder;
      alive = (
        f p,
        ap (λ ps. get_elem? ps i) (modify-eq-set t.procs i f here)
            ∙ get_elem?-set_self t.procs i (f p) (get_elem?-lt t.procs i p here),
        lives p living,
      );
    }

count_round-early :
    (t : Ptable)
    → t.upper_bound + 1 < 100
    → count_round t ≡ some (record t { upper_bound = t.upper_bound + 1 })
unfolding count_round
count_round-early t l = rw (count_round, early t.upper_bound l)
  where
    early : (n : ℕ) → n + 1 < 100 → leb 100 (n + 1) ≡ false
    early n l = ground arith

module _ (i : ℕ) where
  -- The holder still has the lock, one pass later than the count `n`.
  abbrev Passed : ℕ → Ptable → Type 0
  Passed n u = IsHeld i u × (u.upper_bound ≡ n + 1)

  end_pass :
      (t : Ptable)
      → IsHeld i t
      → t.upper_bound + 1 < 100
      → Returns
          (elim (drop_zombie_lock t) [ none ↦ none | some u ↦ count_round u ])
          (Passed t.upper_bound)
  end_pass t h l =
      let (p, here, living) = h.alive in
      rw (drop-alive t i p h.locked h.holder here living, count_round-early t l)
        (record { locked = h.locked; holder = h.holder; alive = h.alive }, refl)

  idle-Passed :
      (t : Ptable)
      → IsHeld i t
      → t.upper_bound + 1 < 100
      → Returns (sched_return none t) (Passed t.upper_bound)
  unfolding sched_return stamp
  idle-Passed t h l = end_pass t h l

  ran-Passed :
      (t : Ptable)
      → IsHeld i t
      → t.upper_bound + 1 < 100
      → Returns (sched_return (some i) t) (Passed t.upper_bound)
  unfolding sched_return stamp
  ran-Passed t h l = end_pass _ (modify-IsHeld i _ t (λ p z. z) h) l

module _ (i : ℕ) (run : ℕ → Ptable → Ptable)
    (keeps : (u : Ptable)
      → IsHeld i u
      → IsHeld i (run i u) × ((run i u).upper_bound ≡ u.upper_bound)) where
  round-Passed :
      (t : Ptable)
      → IsHeld i t
      → t.upper_bound + 1 < 100
      → Returns (round run t) (Passed i t.upper_bound)
  unfolding finish start
  round-Passed t h l =
      let (p, here, living) = h.alive in
      elim (Bool-cases (is_runnable p.state)) [
        | inr rests ↦
            by_pick t (start none t)
              (sched_pick-locked t i p h.locked h.holder here
                ∙ ap (λ b. some (start (if b then some i else none) t)) rests)
              (idle-Passed i t h l)
        | inl ready ↦
            let t' = (start (some i) t).1 in
            let (h', same) = keeps t' (modify-IsHeld i _ t (λ p z. refl) h) in
            by_pick t (start (some i) t)
              (sched_pick-locked t i p h.locked h.holder here
                ∙ ap (λ b. some (start (if b then some i else none) t)) ready)
              (subst (λ n. Returns (sched_return (some i) (run i t')) (Passed i n)) same
                (ran-Passed i (run i t') h' (subst (λ n. n + 1 < 100) (sym same) l)))
      ]
    where
      by_pick :
          (t : Ptable) (r : Option ℕ × Ptable)
          → sched_pick t ≡ some r
          → Returns (finish run r) (Passed i t.upper_bound)
          → Returns (round run t) (Passed i t.upper_bound)
      by_pick t r e h =
          subst (λ o. Returns o (Passed i t.upper_bound)) (sym (round-finish run t))
            (subst
              (λ o.
                Returns (elim o [ none ↦ none | some r ↦ finish run r ]) (Passed i t.upper_bound))
              (sym e) h)

  rounds-IsHeld :
      (n : ℕ) (t : Ptable)
      → IsHeld i t
      → t.upper_bound + n < 100
      → Returns (rounds n run t) (λ v. IsHeld i v × (v.upper_bound ≡ t.upper_bound + n))
  unfolding rounds
  rounds-IsHeld zero t h l = (h, omega arith)
  rounds-IsHeld (suc n) t h l =
      Returns-then (Passed i t.upper_bound) _ (rounds n run)
        (λ u r.
          Returns-mono _ (λ v. IsHeld i v × (v.upper_bound ≡ t.upper_bound + suc n))
            (λ v s. (s.0, omega (arith, s.1, r.1))) _
            (rounds-IsHeld n u r.0 (omega (arith, r.1, l))))
        (round run t) (round-Passed t h (omega (arith, l)))

-- `schedulerLock` with the right password, called by a process `i` that neither sleeps nor has exited while the
-- scheduler is not locked, takes the lock. From then on, for fewer than 100 passes of the scheduler, if
-- only what `i` does when it runs keeps the lock and the count of passes, and keeps `i` from exiting: no pass
-- faults, and `i` still has the lock. What the other processes would do if they ran does not matter:
-- none of them runs.
pub lock_exclusive :
    (t : Ptable) (i n : ℕ) (p : Proc) (run : ℕ → Ptable → Ptable)
    → get_elem? t.procs i ≡ some p
    → is_sleeping p.state ≡ false
    → is_zombie p.state ≡ false
    → t.is_lock ≡ false
    → ((u : Ptable) → IsHeld i u → IsHeld i (run i u) × ((run i u).upper_bound ≡ u.upper_bound))
    → n < 100
    → (u : Ptable) × (scheduler_lock i password t ≡ some (returns, u))
      × (u.procs ≡ t.procs)
      × Returns (rounds n run u) (λ v. IsHeld i v × (v.upper_bound ≡ n))
unfolding scheduler_lock
lock_exclusive t i n p run here awake living free keeps l =
    let u = record t { upper_bound = 0; is_lock = true; lock_process = some i } in
    (
      u,
      ground arith,
      refl,
      Returns-mono _ (λ v. IsHeld i v × (v.upper_bound ≡ n)) (λ v r. (r.0, omega (arith, r.1))) _
          (rounds-IsHeld i run keeps n u
            (record { locked = refl; holder = refl; alive = (p, here, living) })
            (omega (arith, l))),
    )
