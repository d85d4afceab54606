-- ===== src/Thread/Life.antt =====
-- The life of a thread of project02/xv6-public/thread.c.
use mathlib.Core.Option.{some_inj, none-ne-some}
use ele.Common.{
  ℕ, suc, ◌==◌, ◌≡◌, ◌≢◌, ℕ_discrete, refl, sym, ap, subst, ◌∙◌, Bool, true, false, if◌then◌else◌,
  Option, none, some, List, arith, get_elem?, get_elem?-modify, modify, find_index, find_index-some,
  find_index-none, All-get_elem?, Option-cases, inl, inr, ◌⊎◌,
}
use ele.Proc.{runnable, zombie, is_zombie}
use ele.Thread.{
  Thread, Task, Vm, has_tid, give_stack, thread_exit, gone, end_thread, thread_wakeup, thread_join,
  reap_thread, joined, cleared,
}

-- A slot's id is its index, or 0 as no thread has it.
abbrev pub IsOwned : List Thread → Type 0
IsOwned ts = (i : ℕ) (t : Thread) → get_elem? ts i ≡ some t → (t.tid ≡ i) ⊎ (t.tid ≡ 0)

find_tid :
    (ts : List Thread) (i : ℕ) (t : Thread)
    → IsOwned ts
    → get_elem? ts (suc i) ≡ some t
    → t.tid ≡ suc i
    → find_index (has_tid (suc i)) ts ≡ some (suc i)
find_tid ts i t own at id = elim (Option-cases (find_index (has_tid (suc i)) ts)) [
  | inl n ↦ absurd (
      ground (
        arith,
        All-get_elem? (λ z. has_tid (suc i) z ≡ false) ts (suc i)
            (find_index-none (has_tid (suc i)) ts n) at,
      ))
  | inr (j, e) ↦
      let f = find_index-some (has_tid (suc i)) ts j e in
      elim (own j f.item f.found) [
        | inl o ↦ e ∙ ap some (sym o ∙ same f.item f.passes)
        | inr o ↦ absurd (ground (arith, f.passes))
      ]
]
  where
    same : (z : Thread) → has_tid (suc i) z ≡ true → z.tid ≡ suc i
    same z h = ground arith

-- The table of threads after the thread in slot `suc i` has exited with `x`.
abbrev exited : ℕ → ℕ → List Thread → List Thread
exited x i ts =
    modify (modify ts 0 (λ t. record t { state = runnable })) (suc i)
      (λ t. record t { retval = x; state = zombie })

abbrev no_thread : Option Thread
no_thread = none

modify_here :
    (ts : List Thread) (i : ℕ) (f : Thread → Thread) (z : Thread)
    → get_elem? ts i ≡ some z
    → get_elem? (modify ts i f) i ≡ some (f z)
modify_here ts i f z e = get_elem?-modify ts i i f ∙ rw e (ground arith)

modify_off :
    (ts : List Thread) (i j : ℕ) (f : Thread → Thread)
    → i ≢ j
    → get_elem? (modify ts i f) j ≡ get_elem? ts j
modify_off ts i j f off = get_elem?-modify ts i j f ∙ ground arith

gone_none : (b : Bool) → none ≡ (if b then no_thread else no_thread)
gone_none true = refl
gone_none false = refl

modify-IsOwned :
    (ts : List Thread) (i : ℕ) (f : Thread → Thread)
    → ((t : Thread) → ((f t).tid ≡ t.tid) ⊎ ((f t).tid ≡ 0))
    → IsOwned ts
    → IsOwned (modify ts i f)
modify-IsOwned ts i f keeps own j t at = elim (ℕ_discrete i j) [
  | no off ↦ own j t (sym (modify_off ts i j f off) ∙ at)
  | yes same ↦ elim (Option-cases (get_elem? ts j)) [
    | inl n ↦
        absurd
          (none-ne-some t (gone_none (i == j) ∙ sym (rw n at (get_elem?-modify ts i j f)) ∙ at))
    | inr (z, e) ↦
        let hit : t ≡ f z = some_inj.0 (
          sym at
          ∙ subst (λ k. get_elem? (modify ts k f) j ≡ some (f z)) (sym same)
              (modify_here ts j f z e)) in
        elim (keeps z) [
          | inr zeroed ↦ inr (ap (λ (w : Thread). w.tid) hit ∙ zeroed)
          | inl kept ↦
              subst (λ w. (w ≡ j) ⊎ (w ≡ 0)) (sym (ap (λ (w : Thread). w.tid) hit ∙ kept))
                (own j z e)
        ]
  ]
]

thread_exit_lem :
    (p : Task) (i x : ℕ) (t : Thread)
    → IsOwned p.ttable
    → get_elem? p.ttable (suc i) ≡ some t
    → t.tid ≡ suc i
    → p.cur_thread ≡ suc i
    → thread_exit x p ≡ some (gone (record p { ttable = exited x i p.ttable; state = runnable }))
unfolding thread_exit end_thread thread_wakeup
thread_exit_lem p i x t own at id cur =
    let e =
      subst (λ c. find_index (has_tid c) p.ttable ≡ some (suc i)) (sym cur)
        (find_tid p.ttable i t own at id) in
    rw (thread_exit, e)

exited-at :
    (ts : List Thread) (i x : ℕ) (t : Thread)
    → get_elem? ts (suc i) ≡ some t
    → get_elem? (exited x i ts) (suc i) ≡ some (record t { retval = x; state = zombie })
exited-at ts i x t at =
    modify_here (modify ts 0 (λ t. record t { state = runnable })) (suc i)
      (λ t. record t { retval = x; state = zombie }) t
      (modify_off ts 0 (suc i) (λ t. record t { state = runnable }) (omega arith) ∙ at)

module _ (vm : Vm) where
  reap_thread_lem :
      (i v : ℕ) (t : Thread) (p : Task) (m m' : vm.Mem)
      → t.kstack ≡ some v
      → vm.kfree v m ≡ some m'
      → reap_thread vm i t p m
        ≡ some (
          joined t.retval,
          record p {
            ttable = modify p.ttable i cleared;
            thread_pool = give_stack t.start p.thread_pool;
          },
          m',
        )
  unfolding reap_thread
  reap_thread_lem i v t p m m' stack free = rw (reap_thread, stack, free)

  thread_join_lem :
      (p : Task) (i v : ℕ) (t : Thread) (m m' : vm.Mem)
      → IsOwned p.ttable
      → p.cur_thread ≡ 0
      → get_elem? p.ttable (suc i) ≡ some t
      → t.tid ≡ suc i
      → t.state ≡ zombie
      → t.kstack ≡ some v
      → vm.kfree v m ≡ some m'
      → thread_join vm (suc i) p m
        ≡ some (
          joined t.retval,
          record p {
            ttable = modify p.ttable (suc i) cleared;
            thread_pool = give_stack t.start p.thread_pool;
          },
          m',
        )
  unfolding thread_join
  thread_join_lem p i v t m m' own cur at id dead stack free =
      let main : (p.cur_thread == 0) ≡ true = subst (λ c. (c == 0) ≡ true) (sym cur) refl in
      let is_dead : is_zombie t.state ≡ true = subst (λ c. is_zombie c ≡ true) (sym dead) refl in
      rw (thread_join, main, find_tid p.ttable i t own at id, at, is_dead)
        (reap_thread_lem (suc i) v t p m m' stack free)

  -- The process after the thread in slot `suc i` has exited, as the main thread runs.
  abbrev pub left_by : ℕ → ℕ → Task → Task
  left_by x i p = record p { ttable = exited x i p.ttable; state = runnable; cur_thread = 0 }

  -- A thread that exits can be joined: given are a table in which each id is its slot's index or 0, a thread
  -- other than the main one that runs in its slot, and a kernel stack that can be freed. Its
  -- `thread_exit` with `x` leaves; the main thread's `thread_join` on its id then does not
  -- sleep: it returns `x`, the stack's page is freed, the slot is free with id 0, and the table's ids are in order
  -- again.
  pub thread_exit-thread_join :
      (p : Task) (i x v : ℕ) (t : Thread) (m m' : vm.Mem)
      → IsOwned p.ttable
      → get_elem? p.ttable (suc i) ≡ some t
      → t.tid ≡ suc i
      → p.cur_thread ≡ suc i
      → t.kstack ≡ some v
      → vm.kfree v m ≡ some m'
      → (q : Task) × (thread_exit x p ≡ some (gone q))
        × ((r : Task) × (thread_join vm (suc i) (record q { cur_thread = 0 }) m
              ≡ some (joined x, r, m'))
            × (get_elem? r.ttable (suc i) ≡ some (cleared t))
            × IsOwned r.ttable)
  thread_exit-thread_join p i x v t m m' own at id cur stack free =
      let dead = record t { retval = x; state = zombie } in
      let q = left_by x i p in
      let owned : IsOwned (exited x i p.ttable) =
        modify-IsOwned (modify p.ttable 0 (λ t. record t { state = runnable })) (suc i)
          (λ t. record t { retval = x; state = zombie }) (λ t. inl refl)
          (modify-IsOwned p.ttable 0 (λ t. record t { state = runnable }) (λ t. inl refl) own) in
      let here = exited-at p.ttable i x t at in
      (
        record p { ttable = exited x i p.ttable; state = runnable },
        thread_exit_lem p i x t own at id cur,
        (
          record q {
            ttable = modify (exited x i p.ttable) (suc i) cleared;
            thread_pool = give_stack t.start p.thread_pool;
          },
          thread_join_lem q i v dead m m' owned refl here id refl stack free,
          modify_here (exited x i p.ttable) (suc i) cleared dead here,
          modify-IsOwned (exited x i p.ttable) (suc i) cleared (λ t. inr refl) owned,
        ),
      )
