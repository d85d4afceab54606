-- ===== src/Mlfq/Tests.antt =====
-- The scheduler of project01/xv6-public/proc.c on a table of four processes.
use ele.Common.{
  if◌then◌else◌, ◌==◌, modify, ℕ, zero, suc, ◌≡◌, refl, true, false, none, some, List, [], ◌∷◌, ℤ,
  pos, negsuc, arith, All, Returns, set, get_elem?, ◌⊎◌, ◌<ℤ◌,
}
use ele.Proc.{Proc, Ptable, ProcState, runnable, running, sleeping, null}
use ele.Mlfq.{
  prefers, choose, password, returns, scheduler_lock, scheduler_unlock, timer_tick, round, rounds,
}
use ele.Mlfq.Order.{IsChoice, choose_lem}
use ele.Mlfq.Quantum.{
  charged, charge_times, IsSole, IsLevelled, timer_tick_lem, timer_tick-IsLevelled, quantum_lem,
}
use ele.Mlfq.Rounds.{IsSane, IsFront}
use ele.Mlfq.Boost.{round_lem}
use ele.Mlfq.Lock.{unlock_next}
use ele.Mlfq.Held.{IsHeld, modify-IsHeld, lock_exclusive}

-- A process with an id, a state and what the queues look at.
abbrev proc : ℕ → ProcState → ℕ → ℕ → ℤ → Proc
proc id st lv prio at = record {
  priority = prio;
  tq = 0;
  q_lv = lv;
  time = at;
  sz = 4096;
  pgdir = some 1;
  kstack = some 2;
  state = st;
  pid = id;
  parent = none;
  tf = record { eax = 0; rest = [] };
  chan = null;
  killed = false;
  ofile = [];
  cwd = some 1;
}

-- One runs, one sleeps in L0, and two wait in L2.
abbrev mixed : List Proc
mixed =
    proc 1 running 0 3 (pos 4)
    ∷ proc 2 sleeping 0 3 (pos 1)
    ∷ proc 3 runnable 2 3 (pos 2)
    ∷ proc 4 runnable 2 1 (pos 9)
    ∷ []

abbrev table : Ptable
table = record {
  procs = mixed;
  upper_bound = 98;
  is_lock = false;
  lock_process = none;
  nextpid = 5;
  initproc = some 0;
  ticks = 12;
}

abbrev locked : Ptable
locked = record table { is_lock = true; lock_process = some 3 }

-- In L2 the lower priority number wins over the earlier arrival.
choose_runs : choose mixed ≡ some (3, proc 4 runnable 2 1 (pos 9))
unfolding choose prefers
choose_runs = refl

choose_lem_example : IsChoice mixed 3 (proc 4 runnable 2 1 (pos 9))
unfolding choose prefers
choose_lem_example = choose_lem mixed

same_pid : (j : ℕ) (q : Proc) → get_elem? mixed j ≡ some q → q.pid ≡ 1 → j ≡ 0
same_pid zero q g e = refl
same_pid (suc zero) q g e = ground arith
same_pid (suc (suc zero)) q g e = ground arith
same_pid (suc (suc (suc zero))) q g e = ground arith
same_pid (suc (suc (suc (suc j)))) q g e = ground arith

sole : IsSole mixed 0 (proc 1 running 0 3 (pos 4))
sole = record { here = refl; sole = same_pid }

levelled : All IsLevelled mixed
levelled = omega arith

timer_tick_lem_example :
    timer_tick 0 mixed
    ≡ set mixed 0 (record (charged (proc 1 running 0 3 (pos 4))) { state = runnable })
timer_tick_lem_example = timer_tick_lem mixed 0 (proc 1 running 0 3 (pos 4)) sole (omega arith) refl

timer_tick-IsLevelled_example : All IsLevelled (timer_tick 0 mixed)
timer_tick-IsLevelled_example =
    timer_tick-IsLevelled mixed 0 (proc 1 running 0 3 (pos 4)) sole refl levelled

quantum_lem_example : charge_times 4 0 mixed ≡ set mixed 0 (proc 1 running 1 3 (pos 4))
quantum_lem_example =
    quantum_lem mixed 0 (proc 1 running 0 3 (pos 4)) sole (omega arith) refl 4 (omega arith)

table-IsSane : IsSane table
table-IsSane = record { count = omega arith; lock = tt }

-- A process that runs and does nothing.
abbrev idle : ℕ → Ptable → Ptable
idle i t = t

round_lem_example : Returns (round idle table) (λ u.
    IsSane u
    × ((u.upper_bound ≡ 99)
        ⊎ (((table.upper_bound ≡ 99) × (u.upper_bound ≡ 0))
            × (u.is_lock ≡ false)
            × All IsFront u.procs)))
round_lem_example = round_lem idle (λ i u h. (h, refl)) table table-IsSane

late : (j : ℕ) (q : Proc) → (j ≡ 3 → ⊥) → get_elem? mixed j ≡ some q → ¬ (q.time <ℤ pos 0)
late zero q n g = ground arith
late (suc zero) q n g = ground arith
late (suc (suc zero)) q n g = ground arith
late (suc (suc (suc zero))) q n g = ground arith
late (suc (suc (suc (suc j)))) q n g = ground arith

unlock_next_example :
    (u : Ptable) × (scheduler_unlock password locked ≡ some (returns, u))
    × (u.is_lock ≡ false)
    × (u.lock_process ≡ none)
    × (choose u.procs ≡ some (3, proc 4 runnable 0 3 (negsuc 0)))
unlock_next_example = unlock_next locked 3 (proc 4 runnable 2 1 (pos 9)) refl refl late refl refl

-- Process 3 yields; the others would end the lock.
abbrev rivals : ℕ → Ptable → Ptable
rivals j t =
    if j == 3
    then record t { procs = modify t.procs 3 (λ p. record p { state = runnable }) }
    else record t { is_lock = false; lock_process = none }

rivals-IsHeld :
    (u : Ptable) → IsHeld 3 u → IsHeld 3 (rivals 3 u) × ((rivals 3 u).upper_bound ≡ u.upper_bound)
rivals-IsHeld u h = (modify-IsHeld 3 _ u (λ p z. refl) h, refl)

lock_exclusive_example :
    (u : Ptable) × (scheduler_lock 3 password table ≡ some (returns, u))
    × (u.procs ≡ mixed)
    × Returns (rounds 50 rivals u) (λ v. IsHeld 3 v × (v.upper_bound ≡ 50))
lock_exclusive_example =
    lock_exclusive table 3 50 (proc 4 runnable 2 1 (pos 9)) rivals refl refl refl refl rivals-IsHeld
      (omega arith)
