-- ===== src/Mlfq/Rounds.antt =====
-- The passes of the scheduler's loop in project01/xv6-public/proc.c: they do not fault, and a boost
-- comes within a hundred of them.
use ele.Common.{
  ℕ, ◌+◌, ◌<◌, ◌≡◌, refl, Bool, true, false, Option, none, some, List, arith, pos, negsuc, length,
  length-modify, map, modify, Bool-cases, inl, inr, All, All-modify, [], ◌∷◌, lt-get_elem?, ◌⊎◌,
  Returns, get_elem?, Returns-mono, leb→le, if◌then◌else◌, leb,
}
use mathlib.Core.Option
use ele.Proc.{Proc, Ptable, is_zombie, is_runnable}
use ele.Mlfq.{
  password, unlocked, boosted, choose, scheduler_unlock, start, sched_pick, stamp, drop_zombie_lock,
  boost, count_round, sched_return, round,
}

-- While the scheduler is locked, `lock_process` points into the table of `n` processes.
abbrev pub LockFits : Bool → Option ℕ → ℕ → Type 0
LockFits false holder n = Unit
LockFits true none n = ⊥
LockFits true (some i) n = i < n

pub record IsSane (t : Ptable) : Type 0 where
  pub count : t.upper_bound < 100
  pub lock : LockFits t.is_lock t.lock_process (length t.procs)

-- As after a boost: in L0, and no later than any process that has arrived since. The process that has held
-- the lock comes before the others, with the time -1.
pub record IsFront (p : Proc) : Type 0 where
  pub level : p.q_lv ≡ 0
  pub quantum : p.tq ≡ 0
  pub rank : p.priority ≡ 3
  pub arrival : (p.time ≡ pos 0) ⊎ (p.time ≡ negsuc 0)

-- The holder of a lock, from the invariant.
holder :
    (b : Bool) (o : Option ℕ) (n : ℕ) → LockFits b o n → b ≡ true → (i : ℕ) × (o ≡ some i) × (i < n)
holder true (some i) n h e = (i, refl, h)
holder false o n h e = cc
holder true none n h e = absurd h

pub unlock_lem :
    (t : Ptable) (i : ℕ)
    → t.is_lock ≡ true
    → t.lock_process ≡ some i
    → scheduler_unlock password t
      ≡ some (
        ele.Mlfq.Verdict.returns,
        record t { is_lock = false; lock_process = none; procs = modify t.procs i unlocked },
      )
unfolding scheduler_unlock
unlock_lem t i e f = ground arith

abbrev pub Kept : Ptable → Ptable → Type 0
Kept t u = IsSane u × (u.upper_bound ≡ t.upper_bound)

modify-Kept :
    (t : Ptable) (i : ℕ) (f : Proc → Proc)
    → IsSane t
    → Kept t (record t { procs = modify t.procs i f })
modify-Kept t i f h =
    (record { count = h.count; lock = rw (length-modify t.procs i f) h.lock }, refl)

pub start-Kept : (o : Option ℕ) (t : Ptable) → IsSane t → Kept t (start o t).1
unfolding start
start-Kept none t h = (h, refl)
start-Kept (some i) t h = modify-Kept t i _ h

pub stamp-Kept : (o : Option ℕ) (t : Ptable) → IsSane t → Kept t (stamp o t)
unfolding stamp
stamp-Kept none t h = (h, refl)
stamp-Kept (some i) t h = modify-Kept t i _ h

sched_pick-free :
    (t : Ptable)
    → t.is_lock ≡ false
    → sched_pick t ≡ some (start (Option.map (λ c. c.0) (choose t.procs)) t)
unfolding sched_pick
sched_pick-free t e = ground arith

pub sched_pick-locked :
    (t : Ptable) (i : ℕ) (p : Proc)
    → t.is_lock ≡ true
    → t.lock_process ≡ some i
    → get_elem? t.procs i ≡ some p
    → sched_pick t ≡ some (start (if is_runnable p.state then some i else none) t)
unfolding sched_pick
sched_pick-locked t i p e f g = ground arith

-- In a sane state the scheduler's choice does not follow a null pointer.
pub sched_pick-Kept : (t : Ptable) → IsSane t → Returns (sched_pick t) (λ r. Kept t r.1)
sched_pick-Kept t h = elim (Bool-cases t.is_lock) [
  | inl locked ↦
      let (i, held, lt) = holder t.is_lock t.lock_process (length t.procs) h.lock locked in
      let (p, here) = lt-get_elem? t.procs i lt in
      rw (sched_pick-locked t i p locked held here) (start-Kept _ t h)
  | inr free ↦ rw (sched_pick-free t free) (start-Kept _ t h)
]

pub drop-alive :
    (t : Ptable) (i : ℕ) (p : Proc)
    → t.is_lock ≡ true
    → t.lock_process ≡ some i
    → get_elem? t.procs i ≡ some p
    → is_zombie p.state ≡ false
    → drop_zombie_lock t ≡ some t
unfolding drop_zombie_lock
drop-alive t i p e f g d = ground arith

drop-dead :
    (t : Ptable) (i : ℕ) (p : Proc)
    → t.is_lock ≡ true
    → t.lock_process ≡ some i
    → get_elem? t.procs i ≡ some p
    → is_zombie p.state ≡ true
    → drop_zombie_lock t
      ≡ some (record t { is_lock = false; lock_process = none; procs = modify t.procs i unlocked })
unfolding drop_zombie_lock
drop-dead t i p e f g d = ground (arith, unlock_lem t i e f)

drop-free : (t : Ptable) → t.is_lock ≡ false → drop_zombie_lock t ≡ some t
unfolding drop_zombie_lock
drop-free t e = ground arith

pub drop_zombie_lock-Kept : (t : Ptable) → IsSane t → Returns (drop_zombie_lock t) (λ u. Kept t u)
drop_zombie_lock-Kept t h = elim (Bool-cases t.is_lock) [
  | inl locked ↦
      let (i, held, lt) = holder t.is_lock t.lock_process (length t.procs) h.lock locked in
      let (p, here) = lt-get_elem? t.procs i lt in
      elim (Bool-cases (is_zombie p.state)) [
        | inl dead ↦
            rw (drop-dead t i p locked held here dead) (record { count = h.count; lock = tt }, refl)
        | inr alive ↦ rw (drop-alive t i p locked held here alive) (h, refl)
      ]
  | inr free ↦ rw (drop-free t free) (h, refl)
]

-- What the count of rounds, `n` before, does: it goes up by one, or starts again with all processes
-- at the front.
abbrev pub Counted : ℕ → Ptable → Type 0
Counted n u =
    IsSane u
    × ((u.upper_bound ≡ n + 1)
        ⊎ (((n ≡ 99) × (u.upper_bound ≡ 0)) × (u.is_lock ≡ false) × All IsFront u.procs))

All-boosted : (ps : List Proc) → All IsFront (map boosted ps)
All-boosted [] = tt
All-boosted (p ∷ ps) =
    (record { level = refl; quantum = refl; rank = refl; arrival = inl refl }, All-boosted ps)

All-unlocked : (ps : List Proc) (i : ℕ) → All IsFront ps → All IsFront (modify ps i unlocked)
All-unlocked ps i h =
    All-modify IsFront unlocked
      (λ p a. record { level = refl; quantum = refl; rank = refl; arrival = inr refl }) ps i h

boost-free :
    (t : Ptable)
    → t.is_lock ≡ false
    → boost t ≡ some (record t { procs = map boosted t.procs; upper_bound = 0 })
unfolding boost
boost-free t e = ground arith

boost-locked :
    (t : Ptable) (i : ℕ)
    → t.is_lock ≡ true
    → t.lock_process ≡ some i
    → boost t
      ≡ some (record t {
        procs = modify (map boosted t.procs) i unlocked;
        upper_bound = 0;
        is_lock = false;
        lock_process = none;
      })
unfolding boost
boost-locked t i e f = ground (arith, unlock_lem (record t { procs = map boosted t.procs }) i e f)

boost_lem :
    (t : Ptable)
    → LockFits t.is_lock t.lock_process (length t.procs)
    → Returns
        (boost t)
        (λ u. IsSane u × (u.upper_bound ≡ 0) × (u.is_lock ≡ false) × All IsFront u.procs)
boost_lem t h = elim (Bool-cases t.is_lock) [
  | inl locked ↦
      let (i, held, lt) = holder t.is_lock t.lock_process (length t.procs) h locked in
      rw (boost-locked t i locked held) (
        record { count = omega arith; lock = tt },
        refl,
        refl,
        All-unlocked _ i (All-boosted t.procs),
      )
  | inr free ↦
      rw (boost-free t free)
        (record { count = omega arith; lock = rw free tt }, refl, free, All-boosted t.procs)
]

pub count_round-Counted :
    (t : Ptable) → IsSane t → Returns (count_round t) (λ u. Counted t.upper_bound u)
unfolding count_round
count_round-Counted t h = elim (Bool-cases (leb 100 (t.upper_bound + 1))) [
  | inl due ↦ rw due (
      Returns-mono _ (λ u. Counted t.upper_bound u)
        (λ u r. (r.0, inr ((omega (arith, leb→le 100 _ due), r.1), r.2, r.3))) _
        (boost_lem (record t { upper_bound = t.upper_bound + 1 }) h.lock))
  | inr early ↦ rw early (record { count = ground arith; lock = h.lock }, inl refl)
]
