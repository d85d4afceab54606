-- ===== src/Mlfq.antt =====
-- project01/xv6-public/proc.c and trap.c: the multi-level feedback queue. One pass of the loop in
-- `scheduler` is `sched_pick`, then the chosen process runs, then `sched_return`.
pub mod Order
pub mod Quantum
pub mod Rounds
pub mod Boost
pub mod Lock
pub mod Held
mod Tests
use ele.Common.{
  ℕ, zero, suc, ◌+◌, ◌*◌, ◌==◌, ltb, leb, if◌then◌else◌, Bool, true, false, ◌&&◌, Option, none,
  some, List, [], ◌∷◌, ℤ, pos, negsuc, ltb_ℤ, eq_ℤ, sub_ℕ, int_of_uint, map, get_elem?, modify,
}
use mathlib.Core.Option
use ele.Proc.{
  Proc, Ptable, is_runnable, is_running, is_sleeping, is_zombie, running, runnable, set_priority,
}

-- Whether the loop over the table prefers `p` to the process `r` it has chosen so far.
unfoldable pub prefers : Proc → Proc → Bool
prefers p r =
    if ltb p.q_lv r.q_lv
    then true
    else if r.q_lv == p.q_lv
    then if r.q_lv == 2
      then if ltb p.priority r.priority
        then true
        else (r.priority == p.priority) && ltb_ℤ p.time r.time
      else ltb_ℤ p.time r.time
    else false

-- `running_p` with its index, once `chk` is set.
abbrev pub Choice : Type 0
Choice = Option (ℕ × Proc)

unfoldable pub consider : ℕ → Proc → Choice → Choice
consider i p none = if is_runnable p.state then some (i, p) else none
consider i p (some (j, r)) = if is_runnable p.state && prefers p r then some (i, p) else some (j, r)

unfoldable pub choose_from : List Proc → ℕ → Choice → Choice
choose_from [] i best = best
choose_from (p ∷ ps) i best = choose_from ps (suc i) (consider i p best)

-- The loop that finds the process to run.
unfoldable pub choose : List Proc → Choice
unfolding choose_from consider
choose ps = choose_from ps 0 none

abbrev pub password : ℤ
password = pos 2019030991

-- What a call does to its caller: it returns, or it ends the calling process by `exit`.
pub data Verdict : Type 0 where
  returns exits : Verdict

-- The locked process goes back to the front of L0.
abbrev pub unlocked : Proc → Proc
unlocked p = record p { q_lv = 0; tq = 0; priority = 3; time = negsuc 0 }

-- `schedulerUnlock`. `none` is the use of a null `lock_process`.
unfoldable pub scheduler_unlock : ℤ → Ptable → Option (Verdict × Ptable)
scheduler_unlock pass t =
    if t.is_lock
    then if eq_ℤ pass password
      then elim t.lock_process [
        | none ↦ none
        | some i ↦ some (
          returns,
          record t { is_lock = false; lock_process = none; procs = modify t.procs i unlocked },
        )
      ]
      else some (exits, t)
    else some (returns, t)

-- `schedulerLock`, called by process `cur`. `none`: there is no such process.
unfoldable pub scheduler_lock : ℕ → ℤ → Ptable → Option (Verdict × Ptable)
scheduler_lock cur pass t = elim (get_elem? t.procs cur) [
  | none ↦ none
  | some p ↦
      if is_sleeping p.state
      then some (returns, t)
      else if t.is_lock
      then some (returns, t)
      else if eq_ℤ pass password
      then some (returns, record t { upper_bound = 0; is_lock = true; lock_process = some cur })
      else some (exits, t)
]

-- The chosen process, if there is one, is marked as running.
unfoldable pub start : Option ℕ → Ptable → Option ℕ × Ptable
start none t = (none, t)
start (some i) t =
    (some i, record t { procs = modify t.procs i (λ q. record q { state = running }) })

-- The part of `scheduler` before `swtch`: the process that runs, if any, and the table.
-- `none` is the use of a null `lock_process`.
unfoldable pub sched_pick : Ptable → Option (Option ℕ × Ptable)
unfolding start
sched_pick t =
    if t.is_lock
    then elim t.lock_process [
      | none ↦ none
      | some i ↦ elim (get_elem? t.procs i) [
        | none ↦ none
        | some p ↦ some (start (if is_runnable p.state then some i else none) t)
      ]
    ]
    else some (start (Option.map (λ c. c.0) (choose t.procs)) t)

-- What the boost sets in every process.
abbrev pub boosted : Proc → Proc
boosted p = record p { tq = 0; q_lv = 0; priority = 3; time = pos 0 }

-- `running_p->time = ticks`, for the process that has run.
unfoldable pub stamp : Option ℕ → Ptable → Ptable
stamp none t = t
stamp (some i) t = record t {
  procs = modify t.procs i (λ q. record q { time = int_of_uint t.ticks });
}

-- The end of the lock when its process has exited.
unfoldable pub drop_zombie_lock : Ptable → Option Ptable
drop_zombie_lock t =
    if t.is_lock
    then elim t.lock_process [
      | none ↦ none
      | some i ↦ elim (get_elem? t.procs i) [
        | none ↦ none
        | some p ↦
            if is_zombie p.state
            then Option.map (λ r. r.1) (scheduler_unlock password t)
            else some t
      ]
    ]
    else some t

-- The priority boost, which also ends a lock.
unfoldable pub boost : Ptable → Option Ptable
boost t =
    let b = record t { procs = map boosted t.procs } in
    Option.map {A = Ptable} (λ s. record s { upper_bound = 0 })
      (if b.is_lock then Option.map (λ r. r.1) (scheduler_unlock password b) else some b)

-- The count of rounds, with the boost when it reaches 100.
unfoldable pub count_round : Ptable → Option Ptable
unfolding boost
count_round t =
    let t' = record t { upper_bound = t.upper_bound + 1 } in
    if leb 100 t'.upper_bound then boost t' else some t'

-- The part of `scheduler` after `swtch`.
unfoldable pub sched_return : Option ℕ → Ptable → Option Ptable
unfolding stamp drop_zombie_lock count_round
sched_return ran t = elim (drop_zombie_lock (stamp ran t)) [
  | none ↦ none
  | some t' ↦ count_round t'
]

-- One pass of the scheduler's loop; `run` is what happens to the table while process `i` runs.
unfoldable pub round : (ℕ → Ptable → Ptable) → Ptable → Option Ptable
unfolding sched_pick sched_return
round run t = elim (sched_pick t) [
  | none ↦ none
  | some (none, t') ↦ sched_return none t'
  | some (some i, t') ↦ sched_return (some i) (run i t')
]

-- A process that has used up its quantum goes down a level, or loses a priority in L2.
unfoldable pub demote : ℕ → Proc → List Proc → List Proc
demote i p ps =
    let lowered =
      (if p.q_lv == 2
        then set_priority (pos p.pid) (sub_ℕ p.priority 1) ps
        else modify ps i (λ q. record q { q_lv = q.q_lv + 1 })) in
    modify lowered i (λ q. record q { tq = 0 })

unfoldable pub check_quantum : ℕ → List Proc → List Proc
check_quantum i ps = elim (get_elem? ps i) [
  | none ↦ ps
  | some p ↦ if p.tq == p.q_lv * 2 + 4 then demote i p ps else ps
]

-- The accounting of a timer interrupt in `trap`.
unfoldable pub charge : ℕ → List Proc → List Proc
unfolding check_quantum
charge i ps = check_quantum i (modify ps i (λ q. record q { tq = q.tq + 1 }))

-- The timer interrupt's last part in `trap`, for the process that is running: the accounting, then
-- `yield`.
unfoldable pub timer_tick : ℕ → List Proc → List Proc
timer_tick cur ps = elim (get_elem? ps cur) [
  | none ↦ ps
  | some p ↦
      if is_running p.state
      then modify (charge cur ps) cur (λ q. record q { state = runnable })
      else ps
]

-- `n` passes of the loop.
unfoldable pub rounds : ℕ → (ℕ → Ptable → Ptable) → Ptable → Option Ptable
rounds zero run t = some t
rounds (suc n) run t = elim (round run t) [ none ↦ none | some t' ↦ rounds n run t' ]
