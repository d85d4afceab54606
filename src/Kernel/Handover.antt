-- ===== src/Kernel/Handover.antt =====
-- `exit` and `wait` of project01/xv6-public/proc.c together: a parent that waits hears of its child.
use mathlib.Core.Option
use ele.Common.{
  ℕ, ◌≤◌, ◌≡◌, ◌≢◌, refl, sym, ap, subst, ◌∙◌, Bool, true, false, ◌&&◌, Option, some, arith, ◌==◌,
  if◌then◌else◌, length, get_elem?, find_index, find_index-some, find_index-none, All-get_elem?,
  Option-cases, inl, inr,
}
use ele.Kalloc.{Kmem}
use ele.Proc.{Proc, runnable, sleeping, Chan, chan_eq, chan_of, proc_at, sleeps_on, is_sleeping}
use ele.Kernel.{Kernel, procs_of, with_procs}
use ele.Kernel.Exit.{is_child, is_dead_child, opt_eq, leave, reap, wait}
use ele.Kernel.Adopt.{given, woken, has_dead}
use ele.Kernel.Death.{ended, left, leave_lem}

-- A wake-up changes the state of its process and nothing else.
woken-parent : (b : Bool) (c : Chan) (p : Proc) → (woken b c p).parent ≡ p.parent
unfolding sleeps_on
woken-parent b c p = ground arith

given-other : (cur : ℕ) (init : Option ℕ) (p : Proc) → is_child cur p ≡ false → given cur init p ≡ p
given-other cur init p e = rw e refl

woken-ready : (b : Bool) (c : Chan) (p : Proc) → p.state ≡ runnable → (woken b c p).state ≡ runnable
unfolding sleeps_on
woken-ready b c p e = ground arith

woken-asleep :
    (i : ℕ) (p : Proc)
    → p.state ≡ sleeping
    → p.chan ≡ proc_at i
    → (woken true (proc_at i) p).state ≡ runnable
unfolding sleeps_on chan_eq
woken-asleep i p s c =
    let now : sleeps_on (proc_at i) p ≡ true =
      subst (λ a. (is_sleeping p.state && chan_eq a (proc_at i)) ≡ true) (sym c)
        (subst (λ a. (is_sleeping a && (i == i)) ≡ true) (sym s) (ground arith)) in
    ap (λ t. (if t then record p { state = runnable } else p).state) now

ended-dead :
    (cur : ℕ) (q : Proc) (par : ℕ)
    → is_child par q ≡ true
    → is_dead_child par (ended cur cur q) ≡ true
ended-dead cur q par e = ground arith

ended-other : (cur j : ℕ) (q : Proc) → j ≢ cur → ended cur j q ≡ q
ended-other cur j q off = ground arith

given-state : (cur : ℕ) (init : Option ℕ) (p : Proc) → (given cur init p).state ≡ p.state
given-state cur init p = ground arith

module _ (cur par : ℕ) (init : Option ℕ) (b : Bool) (other : par ≢ cur) where
  left-dead :
      (p : Proc) → p.parent ≡ some par → is_dead_child par (left cur init (some par) b cur p) ≡ true
  left-dead p e =
      let p1 = woken true (proc_at par) p in
      let e1 : p1.parent ≡ some par = woken-parent true (proc_at par) p ∙ e in
      let q = woken b (chan_of init) (given cur init p1) in
      let e2 : q.parent ≡ some par =
        woken-parent b (chan_of init) (given cur init p1)
        ∙ ap (λ (z : Proc). z.parent) (given-other cur init p1 (rw e1 (ground arith)))
        ∙ e1 in
      ended-dead cur q par (subst (λ o. opt_eq o par ≡ true) (sym e2) (ground arith))

  left-woken :
      (p : Proc)
      → p.state ≡ sleeping
      → p.chan ≡ proc_at par
      → (left cur init (some par) b par p).state ≡ runnable
  left-woken p s c =
      let p1 = woken true (proc_at par) p in
      let e1 =
        woken-ready b (chan_of init) (given cur init p1)
          (given-state cur init p1 ∙ woken-asleep par p s c) in
      ap (λ (z : Proc). z.state)
        (ended-other cur par (woken b (chan_of init) (given cur init p1)) other)
      ∙ e1

module _ (freevm : Option ℕ → Kmem → Option Kmem) where
  wait-at :
      (par : ℕ) (k : Kernel) (w : Proc) (i : ℕ) (p : Proc)
      → get_elem? (procs_of k) par ≡ some w
      → find_index (is_dead_child par) (procs_of k) ≡ some i
      → get_elem? (procs_of k) i ≡ some p
      → wait freevm par k ≡ reap freevm i p k
  unfolding wait
  wait-at par k w i p me e at = rw (wait, me, e, at)

  -- The parent `par` of a process at `cur` that has left is ready, and its scan reaps a dead child.
  pub record IsHeard (k : Kernel) (cur par : ℕ) (init : Option ℕ) : Type 0 where
    pub parent : Proc
    pub at_parent : get_elem? (leave cur (some par) init (procs_of k)) par ≡ some parent
    pub ready : parent.state ≡ runnable
    pub slot : ℕ
    pub child : Proc
    pub found : get_elem? (leave cur (some par) init (procs_of k)) slot ≡ some child
    pub dead : is_dead_child par child ≡ true
    pub reaps :
        wait freevm par (with_procs k (leave cur (some par) init (procs_of k)))
        ≡ reap freevm slot child (with_procs k (leave cur (some par) init (procs_of k)))

  wait-reap :
      (par : ℕ) (k : Kernel) (w : Proc) (j : ℕ) (q : Proc)
      → get_elem? (procs_of k) par ≡ some w
      → get_elem? (procs_of k) j ≡ some q
      → is_dead_child par q ≡ true
      → (i : ℕ) × (p : Proc) × (get_elem? (procs_of k) i ≡ some p)
        × (is_dead_child par p ≡ true)
        × (wait freevm par k ≡ reap freevm i p k)
  wait-reap par k w j q me at dead =
      elim (Option-cases (find_index (is_dead_child par) (procs_of k))) [
        | inl n ↦ absurd (
            ground (
              arith,
              All-get_elem? (λ z. is_dead_child par z ≡ false) (procs_of k) j
                  (find_index-none (is_dead_child par) (procs_of k) n) at,
            ))
        | inr (i, e) ↦
            let f = find_index-some (is_dead_child par) (procs_of k) i e in
            (i, f.item, f.found, f.passes, wait-at par k w i f.item me e f.found)
      ]

  -- A parent that waits hears of its child: given are a table of 64 entries at most, a child of
  -- `par` in slot `cur` that leaves, and `par` asleep on its own address in another slot, as `wait` sleeps. After
  -- `leave`, `par` is runnable; and the scan that it makes next reaps a dead child of it: it
  -- neither sleeps again nor finds that it has no child.
  pub leave-wait :
      (k : Kernel) (cur par : ℕ) (init : Option ℕ) (p w : Proc)
      → length (procs_of k) ≤ 64
      → par ≢ cur
      → get_elem? (procs_of k) cur ≡ some p
      → p.parent ≡ some par
      → get_elem? (procs_of k) par ≡ some w
      → w.state ≡ sleeping
      → w.chan ≡ proc_at par
      → IsHeard k cur par init
  leave-wait k cur par init p w small other at child me s c =
      let ps = procs_of k in
      let b = has_dead cur ps in
      let gone =
        leave_lem cur init (some par) ps cur small
        ∙ ap (Option.map (left cur init (some par) b cur)) at in
      let woke =
        leave_lem cur init (some par) ps par small
        ∙ ap (Option.map (left cur init (some par) b par)) me in
      let (i, q, found, dead, e) =
        wait-reap par (with_procs k (leave cur (some par) init ps))
          (left cur init (some par) b par w) cur (left cur init (some par) b cur p) woke gone
          (left-dead cur par init b other p child) in
      record {
        parent = left cur init (some par) b par w;
        at_parent = woke;
        ready = left-woken cur par init b other w s c;
        slot = i;
        child = q;
        found = found;
        dead = dead;
        reaps = e;
      }
