-- ===== src/Tasks.antt =====
-- project02/xv6-public/proc.c: processes whose threads take turns. A thread is its slot in the table
-- of its process, and a pointer to a trap frame is the slot of the thread in whose kernel stack it
-- lies. `none` is a panic, or the use of a pointer to nothing.
pub mod Turns
pub mod Limit
pub mod Birth
pub mod Panic
pub mod Reap
mod Tests
use mathlib.Core.Option
use ele.Common.{
  ℕ, zero, suc, ◌+◌, ◌-◌, ◌*◌, ◌/◌, ◌%◌, ◌^◌, ◌==◌, ltb, Bool, true, false, not, ◌&&◌, ◌||◌,
  if◌then◌else◌, Option, none, some, List, [], ◌∷◌, ◌++◌, map, ℤ, pos, negsuc, get_elem?, modify,
  find_index, length,
}
use ele.Proc.{
  ProcState, unused, sleeping, runnable, running, zombie, is_sleeping, is_runnable, is_zombie,
}
use ele.Thread.{Thread, Task, Vm, uint, has_tid}

-- `struct proc`, without the name.
pub record Process : Type 0 where
  pub task : Task
  pub open task use *
  pub pid : ℕ
  pub parent : Option ℕ
  pub killed : Bool
  pub kstack : Option ℕ
  pub tf : Option ℕ
  pub context : Option ℕ
  pub ofile : List (Option ℕ)
  pub cwd : Option ℕ

abbrev pub with_threads : Process → List Thread → Process
with_threads p ts = record p { task = record (p.task) { ttable = ts } }

abbrev pub with_state : Process → ProcState → Process
with_state p s = record p { task = record (p.task) { state = s } }

abbrev pub nthread : ℕ
nthread = 10

-- `wakeup1`: the thread that sleeps on an address.
unfoldable pub wake_thread : ℕ → Thread → Thread
wake_thread a t =
    if is_sleeping t.state && (t.asleep_on == a) then record t { state = runnable } else t

unfoldable pub wakeup1 : ℕ → List Process → List Process
unfolding wake_thread
wakeup1 a = map (λ p. with_threads p (map (wake_thread a) p.ttable))

abbrev pub has_id : ℤ → Process → Bool
has_id (pos n) p = p.pid == n
has_id (negsuc n) p = false

-- What `kill` does to its target: all its threads that sleep are woken.
unfoldable pub kill_all : Process → Process
kill_all p =
    record (with_threads p
      (map (λ t. if is_sleeping t.state then record t { state = runnable } else t) p.ttable)) {
        killed = true;
      }

unfoldable pub kill : ℤ → List Process → ℤ × List Process
unfolding kill_all
kill pid ps = elim (find_index (has_id pid) ps) [
  | none ↦ (negsuc 0, ps)
  | some i ↦ (pos 0, modify ps i kill_all)
]

-- The check of `setmemorylimit` on the process that it has found.
unfoldable pub limit_ok : ℤ → Process → Bool
limit_ok (negsuc n) p = false
limit_ok (pos n) p = (n == 0) || not (ltb n (p.sz / 4096))

abbrev pub limited : ℤ → Process → Process
limited (negsuc n) p = p
limited (pos n) p = record p { task = record (p.task) { sz_limit = n } }

unfoldable pub setmemorylimit : ℤ → ℤ → List Process → ℤ × List Process
unfolding limit_ok
setmemorylimit pid limit ps = elim (find_index (has_id pid) ps) [
  | none ↦ (negsuc 0, ps)
  | some i ↦ elim (get_elem? ps i) [
    | none ↦ (negsuc 0, ps)
    | some p ↦ if limit_ok limit p then (pos 0, modify ps i (limited limit)) else (negsuc 0, ps)
  ]
]

-- The bit pattern of an `int`.
abbrev pub uint_of : ℤ → ℕ
uint_of (pos n) = uint n
uint_of (negsuc n) = 2 ^ 32 - 1 - uint n

-- What `growproc` leaves: its result, the process, the memory, and whether the table's lock is held.
pub record Grown (M : Type 0) : Type 0 where
  pub result : ℤ
  pub process : Process
  pub mem : M
  pub held : Bool

abbrev pub with_sz : Process → ℕ → Process
with_sz p sz = record p { task = record (p.task) { sz = sz } }

-- `allocuvm` and `deallocuvm` of vm.c: the new size, 0 as they fail, and the memory.
module _ {M : Type 0} (allocuvm deallocuvm : ℕ → ℕ → ℕ → M → ℕ × M) where
  unfoldable pub resize : ℤ → Process → M → ℕ × M
  resize (pos zero) p m = (p.sz, m)
  resize (pos (suc n)) p m = allocuvm p.pgdir p.sz (uint (p.sz + uint_of (pos (suc n)))) m
  resize (negsuc n) p m = deallocuvm p.pgdir p.sz (uint (p.sz + uint_of (negsuc n))) m

  -- A resize to 0 counts as a failure, but not where the size stays.
  unfoldable pub resized : ℤ → Process → ℕ × M → Grown M
  resized (pos zero) p (sz, m) = record {
    result = pos 0;
    process = with_sz p sz;
    mem = m;
    held = false;
  }
  resized n p (sz, m) =
      if sz == 0
      then record { result = negsuc 0; process = p; mem = m; held = true }
      else record { result = pos 0; process = with_sz p sz; mem = m; held = false }

  unfoldable pub growproc : ℤ → Process → M → Grown M
  unfolding resize resized
  growproc n p m =
      if not (p.sz_limit == 0) && ltb p.sz_limit (uint (p.sz + uint_of n))
      then record { result = negsuc 0; process = p; mem = m; held = true }
      else resized n p (resize n p m)

-- `copy_thread` for the thread in slot `s`.
unfoldable pub copy_thread : ℕ → Thread → Process → Process
copy_thread s t p = record p {
  kstack = t.kstack;
  tf = Option.map (λ _. s) t.tf;
  context = t.context;
  task = record (p.task) { cur_thread = t.tid };
}

-- The trap frame that a process points to.
abbrev pub frame_of : Process → Thread → Thread
frame_of p t = record t {
  kstack = p.kstack;
  tf = Option.bind p.tf (λ s. Option.bind (get_elem? p.ttable s) (λ u. u.tf));
  context = p.context;
}

-- `copy_process` for the thread that the process counts as its current one.
unfoldable pub copy_process : Process → Process
copy_process p = with_threads p (modify p.ttable p.cur_thread (frame_of p))

-- Whether thread `s` of process `i` is ready.
unfoldable pub is_ready : ℕ → ℕ → List Process → Bool
is_ready i s ps = elim (get_elem? ps i) [
  | none ↦ false
  | some p ↦ elim (get_elem? p.ttable s) [ none ↦ false | some t ↦ is_runnable t.state ]
]

unfoldable pub is_gone : ℕ → List Process → Bool
is_gone i ps = elim (get_elem? ps i) [ none ↦ false | some p ↦ is_zombie p.state ]

-- The process `p` as it starts to run thread `s`.
unfoldable pub dispatched : ℕ → Process → Process
unfolding copy_thread
dispatched s p = elim (get_elem? p.ttable s) [
  | none ↦ p
  | some t ↦ with_state (copy_thread s t p) running
]

-- What runs between two switches: the table after thread `s` of process `i` has run on it.
module _ (run : ℕ → ℕ → List Process → List Process) where
  -- The loop over the threads of process `i` from thread `(first + k) % 10` on, with `n` left: the
  -- threads that have run, in their order, and the table.
  unfoldable pub visit : ℕ → ℕ → ℕ → ℕ → List Process → List ℕ × List Process
  unfolding is_ready is_gone dispatched copy_process
  visit zero k first i ps = ([], ps)
  visit (suc n) k first i ps =
      let s = (first + k) % 10 in
      elim (is_ready i s ps) [
        | false ↦ visit n (k + 1) first i ps
        | true ↦
            let qs = run i s (modify ps i (dispatched s)) in
            elim (is_gone i qs) [
              | true ↦ (s ∷ [], qs)
              | false ↦ let r = visit n (k + 1) first i (modify qs i copy_process) in (s ∷ r.0, r.1)
            ]
      ]

  -- The slot of the current thread, or the number of slots.
  unfoldable pub last_sched : Process → ℕ
  last_sched p = elim (find_index (has_tid p.cur_thread) p.ttable) [ none ↦ nthread | some i ↦ i ]

  -- One pass of `scheduler` over the table; `n` entries from `i` on are left. The result lists the
  -- processes and threads that have run.
  unfoldable pub pass : ℕ → ℕ → List Process → List (ℕ × ℕ) × List Process
  unfolding visit last_sched
  pass zero i ps = ([], ps)
  pass (suc n) i ps = elim (get_elem? ps i) [
    | none ↦ pass n (suc i) ps
    | some p ↦ elim (is_runnable p.state) [
      | false ↦ pass n (suc i) ps
      | true ↦
          let (ss, qs) = visit 10 1 (last_sched p) i ps in
          let r = pass n (suc i) qs in (map (λ s. (i, s)) ss ++ r.0, r.1)
    ]
  ]
