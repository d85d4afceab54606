-- ===== src/Thread.antt =====
-- project02/xv6-public/thread.c: the threads of a process. A thread is an index in the process's table;
-- `none` is a panic, or a read past a table or through a null pointer.
pub mod Life
pub mod Pool
mod Tests
use mathlib.Core.Option
use ele.Common.{
  ℕ, zero, suc, ◌+◌, ◌-◌, ◌*◌, ◌^◌, ◌%◌, ◌==◌, ltb, Bool, true, false, not, ◌||◌, ◌&&◌,
  if◌then◌else◌, Option, none, some, List, [], ◌∷◌, ℤ, pos, negsuc, map, get_elem?, modify, set,
  find_index,
}
use ele.Kalloc.{page_size, page_round_up}
use ele.Proc.{ProcState, unused, embryo, runnable, sleeping, zombie, is_unused, is_zombie}

-- The words of a trap frame that threads change, and the others.
pub record Frame : Type 0 where
  pub eax : ℕ
  pub eip : ℕ
  pub esp : ℕ
  pub rest : List ℕ

-- `struct thread`; the saved kernel context is an address in the kernel stack.
pub record Thread : Type 0 where
  pub start : ℕ
  pub tid : ℕ
  pub kstack : Option ℕ
  pub state : ProcState
  pub tf : Option Frame
  pub context : Option ℕ
  pub asleep_on : ℕ  -- an address, or 0
  pub retval : ℕ

-- The fields of `struct proc` that threads use, and the address of its table of threads.
pub record Task : Type 0 where
  pub sz : ℕ
  pub sz_limit : ℕ
  pub pgdir : ℕ
  pub state : ProcState
  pub ttable : List Thread
  pub thread_pool : List ℕ
  pub cur_thread : ℕ
  pub base : ℕ

-- The address of the thread in slot `i`: a thread is eight words.
abbrev pub address_of : Task → ℕ → ℕ
address_of p i = p.base + 32 * i

-- What thread.c calls of kalloc.c and vm.c: an address is 0 as a call fails.
pub record Vm : Type 1 where
  pub Mem : Type 0
  pub kalloc : Mem → Option ℕ × Mem
  pub kfree : ℕ → Mem → Option Mem
  pub allocuvm : ℕ → ℕ → ℕ → Mem → ℕ × Mem
  pub clearpteu : ℕ → ℕ → Mem → Mem
  pub copyout : ℕ → ℕ → List ℕ → Mem → Bool × Mem
  pub freevm : ℕ → Mem → Mem

-- A `uint`.
abbrev pub uint : ℕ → ℕ
uint n = n % 2 ^ 32

-- The slots of a table, and what is kept in a word of the pool.
abbrev pub has_tid : ℕ → Thread → Bool
has_tid n t = t.tid == n

-- A recycled user stack: the first word of the pool that is not 0, which is set to 0.
unfoldable pub take_stack : List ℕ → Option (ℕ × List ℕ)
take_stack pool = elim (find_index (λ a. not (a == 0)) pool) [
  | none ↦ none
  | some i ↦ elim (get_elem? pool i) [ none ↦ none | some a ↦ some (a, set pool i 0) ]
]

-- The loop of `thread_join` that gives the stack back: it goes on after the first empty word.
unfoldable pub give_stack : ℕ → List ℕ → List ℕ
give_stack start = map (λ a. if a == 0 then start else a)

-- `thread_exit`: back to the caller, with the table's lock held, or away into the scheduler.
pub data ExitEnd : Type 0 where
  still_here : Task → ExitEnd
  gone : Task → ExitEnd

unfoldable pub thread_wakeup : Task → Task
thread_wakeup p = record p { ttable = modify p.ttable 0 (λ t. record t { state = runnable }) }

-- The end of the thread in slot `i`.
unfoldable pub end_thread : ℕ → ℕ → Task → Task
end_thread retval i p = record p {
  ttable = modify p.ttable i (λ t. record t { retval = retval; state = zombie });
  state = runnable;
}

unfoldable pub thread_exit : ℕ → Task → Option ExitEnd
unfolding end_thread thread_wakeup
thread_exit retval p = elim (find_index (has_tid p.cur_thread) p.ttable) [
  | none ↦ none
  | some zero ↦ some (still_here p)
  | some (suc i) ↦ some (gone (end_thread retval (suc i) (thread_wakeup p)))
]

-- `thread_join`: -1 for a caller that is not the main thread, asleep, or 0 with the thread's value.
pub data JoinEnd : Type 0 where
  not_main : JoinEnd
  waits : JoinEnd
  joined : ℕ → JoinEnd

-- The slot of a thread that has been joined.
abbrev pub cleared : Thread → Thread
cleared t = record t {
  kstack = none;
  state = unused;
  tf = none;
  context = none;
  tid = 0;
  retval = 0;
}

-- `sleep` of proc.c, up to the entry into the scheduler, on address `chan`.
unfoldable pub sleep : ℕ → Task → Option Task
sleep chan p = elim (find_index (has_tid p.cur_thread) p.ttable) [
  | none ↦ none
  | some i ↦ some (record p {
    ttable = modify p.ttable i (λ t. record t { asleep_on = chan; state = sleeping });
    state = runnable;
  })
]

-- The slot for a new thread, if the caller may make one: it is the main thread, and a slot other than
-- its own is free.
unfoldable pub free_thread : Task → Option ℕ
free_thread p = elim (find_index (λ t. is_unused t.state) p.ttable) [
  | none ↦ none
  | some zero ↦ none
  | some (suc i) ↦ elim (find_index (has_tid p.cur_thread) p.ttable) [
    | some zero ↦ some (suc i)
    | some (suc j) ↦ none
    | none ↦ none
  ]
]

-- What `thread_create` returns: the result, what it stores at `*thread`, the process, the memory, and
-- how much deeper interrupts are disabled than before.
pub record Created (M : Type 0) : Type 0 where
  pub result : ℤ
  pub thread : Option ℕ
  pub task : Task
  pub mem : M
  pub cli : ℕ

-- The thread `t` as it gets its stack page `v` and a copy of its maker's trap frame.
abbrev pub embryonic : ℕ → ℕ → Frame → Thread → Thread
embryonic i v f t = record t {
  state = embryo;
  tid = i;
  kstack = some v;
  tf = some (record f { eax = 0 });
  context = some (v + 3996);
}

abbrev pub entering : ℕ → ℕ → Frame → Frame
entering routine sp f = record f { eip = routine; esp = sp }

-- The thread as it starts at `start_routine` with stack pointer `sp`.
abbrev pub started : ℕ → ℕ → ℕ → Thread → Thread
started base routine sp t = record t {
  start = base;
  tf = Option.map (entering routine sp) t.tf;
  state = runnable;
}

module _ (vm : Vm) where
  -- The failure of `thread_create` after the trap frame: the page table is freed.
  unfoldable pub bad : ℕ → Task → vm.Mem → Created vm.Mem
  bad i p m = record {
    result = negsuc 0;
    thread = some i;
    task = p;
    mem = if p.pgdir == 0 then m else vm.freevm p.pgdir m;
    cli = 0;
  }

  -- The arguments go on the stack whose top is `top`; a failure to copy them is a panic.
  unfoldable pub set_going : ℕ → ℕ → ℕ → ℕ → ℕ → ℕ → Task → vm.Mem → Option (Created vm.Mem)
  set_going i base top sz routine arg p m =
      let sp = uint (top + 2 ^ 32 - 8) in
      let (ok, m') = vm.copyout p.pgdir sp (0xffff_ffff ∷ arg ∷ []) m in
      if ok
      then some (record {
        result = pos 0;
        thread = some i;
        task = record p { sz = sz; ttable = modify p.ttable i (started base routine sp) };
        mem = m';
        cli = 0;
      })
      else none

  -- A fresh user stack, of two pages above the process's memory.
  unfoldable pub new_stack : ℕ → ℕ → ℕ → Task → vm.Mem → Option (Created vm.Mem)
  unfolding bad set_going
  new_stack i routine arg p m =
      let sz = uint (page_round_up p.sz) in
      let p' = record p { ttable = modify p.ttable i (λ t. record t { start = sz }) } in
      if not (p.sz_limit == 0) && ltb p.sz_limit (uint (sz + 2 * page_size))
      then some (bad i p' m)
      else (let (top, m') = vm.allocuvm p.pgdir sz (uint (sz + 2 * page_size)) m in
          if top == 0
          then some (bad i p' m')
          else set_going i sz top top routine arg p'
              (vm.clearpteu p.pgdir (uint (top + 2 ^ 32 - 2 * page_size)) m'))

  -- `thread_create` from the choice of the user stack on.
  unfoldable pub with_stack : ℕ → ℕ → ℕ → Task → vm.Mem → Option (Created vm.Mem)
  unfolding take_stack new_stack set_going
  with_stack i routine arg p m = elim (take_stack p.thread_pool) [
    | none ↦ new_stack i routine arg p m
    | some (base, pool) ↦ set_going i base base p.sz routine arg (record p { thread_pool = pool }) m
  ]

  -- `thread_create` with the kernel stack of the new thread, or without one.
  unfoldable pub with_kstack : ℕ → ℕ → ℕ → Task → Option ℕ × vm.Mem → Option (Created vm.Mem)
  unfolding with_stack
  with_kstack i routine arg p (none, m) = some (record {
    result = pos 0;
    thread = some i;
    task = record p {
      state = unused;
      ttable = modify p.ttable i (λ t. record t { tid = i; kstack = none; state = unused });
    };
    mem = m;
    cli = 1;
  })
  with_kstack i routine arg p (some v, m) = elim (Option.bind (get_elem? p.ttable 0) (λ t. t.tf)) [
    | none ↦ none
    | some f ↦
        with_stack i routine arg (record p { ttable = modify p.ttable i (embryonic i v f) }) m
  ]

  unfoldable pub thread_create : ℕ → ℕ → Task → vm.Mem → Option (Created vm.Mem)
  unfolding free_thread with_kstack
  thread_create routine arg p m = elim (free_thread p) [
    | none ↦ some (record { result = negsuc 0; thread = none; task = p; mem = m; cli = 0 })
    | some i ↦ with_kstack i routine arg p (vm.kalloc m)
  ]

  -- The thread `t` in slot `i` is a zombie.
  unfoldable pub reap_thread : ℕ → Thread → Task → vm.Mem → Option (JoinEnd × Task × vm.Mem)
  reap_thread i t p m = elim t.kstack [
    | none ↦ none
    | some v ↦ elim (vm.kfree v m) [
      | none ↦ none
      | some m' ↦ some (
        joined t.retval,
        record p {
          ttable = modify p.ttable i cleared;
          thread_pool = give_stack t.start p.thread_pool;
        },
        m',
      )
    ]
  ]

  -- `thread_join`, up to its return or its sleep.
  unfoldable pub thread_join : ℕ → Task → vm.Mem → Option (JoinEnd × Task × vm.Mem)
  unfolding reap_thread sleep
  thread_join thread p m =
      if not (p.cur_thread == 0)
      then some (not_main, p, m)
      else elim (find_index (has_tid thread) p.ttable) [
        | none ↦ none
        | some i ↦ elim (get_elem? p.ttable i) [
          | none ↦ none
          | some t ↦
              if is_zombie t.state
              then reap_thread i t p m
              else Option.map (λ q. (waits, q, m)) (sleep (address_of p p.cur_thread) p)
        ]
      ]
