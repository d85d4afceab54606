-- ===== src/Thread/Tests.antt =====
-- The threads of project02/xv6-public/thread.c in a process with a main thread and a second one.
use mathlib.Core.Option
use ele.Common.{
  ℕ, ◌+◌, zero, suc, ◌≡◌, refl, true, none, some, List, [], ◌∷◌, arith, get_elem?, pos, replicate,
  modify, find_index,
}
use ele.Kalloc.{page_round_up}
use ele.Proc.{running, sleeping}
use ele.Thread.{
  Thread, Task, Frame, Vm, thread_exit, gone, thread_join, joined, cleared, thread_create,
  with_kstack, with_stack, free_thread, take_stack, give_stack, new_stack, set_going, Created,
}
use ele.Thread.Life.{IsOwned, thread_exit-thread_join}
use ele.Thread.Pool.{give_stack-shares}

abbrev frame : Frame
frame = record { eax = 5; eip = 0; esp = 0; rest = [] }

abbrev main_thread : Thread
main_thread = record {
  start = 0;
  tid = 0;
  kstack = some 8;
  state = sleeping;
  tf = some frame;
  context = none;
  asleep_on = 0x8011_4000;
  retval = 0;
}

abbrev second : Thread
second = record {
  start = 0x4000;
  tid = 1;
  kstack = some 9;
  state = running;
  tf = some frame;
  context = none;
  asleep_on = 0;
  retval = 0;
}

abbrev task : Task
task = record {
  sz = 0x6000;
  sz_limit = 0;
  pgdir = 7;
  state = running;
  ttable = main_thread ∷ second ∷ cleared second ∷ [];
  thread_pool = replicate 10 0;
  cur_thread = 1;
  base = 0x8011_4000;
}

-- Memory that counts its free pages.
abbrev pages : Vm
pages = record {
  Mem = ℕ;
  kalloc = λ m. (some m, m);
  kfree = λ v m. some (m + 1);
  allocuvm = λ d old new m. (new, m);
  clearpteu = λ d a m. m;
  copyout = λ d a ws m. (true, m);
  freevm = λ d m. m;
}

task-IsOwned : IsOwned task.ttable
task-IsOwned zero t e = ground arith
task-IsOwned (suc zero) t e = ground arith
task-IsOwned (suc (suc zero)) t e = ground arith
task-IsOwned (suc (suc (suc i))) t e = ground arith

thread_exit-thread_join_example :
    (q : Task) × (thread_exit 42 task ≡ some (gone q))
    × ((r : Task) × (thread_join pages 1 (record q { cur_thread = 0 }) 3 ≡ some (joined 42, r, 4))
        × (get_elem? r.ttable 1 ≡ some (cleared second))
        × IsOwned r.ttable)
thread_exit-thread_join_example =
    thread_exit-thread_join pages task 0 42 9 second 3 4 task-IsOwned refl refl refl refl refl

give_stack-shares_example :
    (pool : List ℕ) × (take_stack (give_stack 0x4000 (replicate 10 0)) ≡ some (0x4000, pool))
    × ((pool' : List ℕ) × (take_stack pool ≡ some (0x4000, pool')))
give_stack-shares_example = give_stack-shares 0x4000 8 (omega arith)

-- A new thread gets a fresh stack above the process's memory.
create_runs :
    Option.map
      (λ (c : Created ℕ). c.task.sz)
      (thread_create pages 100 200 (record task { cur_thread = 0 }) 3)
    ≡ some 0x8000
unfolding thread_create free_thread with_kstack with_stack take_stack new_stack set_going find_index
    modify Option.bind page_round_up
create_runs = refl

-- Without a page for the kernel stack it returns 0 all the same.
create_out_of_memory :
    Option.map
      (λ (c : Created ℕ). c.result)
      (thread_create
        (record pages { kalloc = λ m. (none, m) })
        100
        200
        (record task { cur_thread = 0 })
        3)
    ≡ some (pos 0)
unfolding thread_create free_thread with_kstack with_stack take_stack new_stack set_going find_index
    modify
create_out_of_memory = refl
