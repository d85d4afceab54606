-- ===== src/Kernel/Death.antt =====
-- `exit` of project01/xv6-public/proc.c, under the lock of the process table: the children of a
-- process that ends, and who is woken.
use mathlib.Core.Option
use mathlib.Core.Option.{some_inj, none-ne-some}
use ele.Common.{
  ℕ, zero, suc, ◌+◌, ◌<◌, ◌≤◌, ◌≡◌, refl, ap, subst, ◌∙◌, Bool, true, false, ◌||◌, Option, none,
  some, List, [], ◌∷◌, arith, ltb, ◌==◌, if◌then◌else◌, length, length-map, get_elem?, get_elem?-lt,
  get_elem?-modify, get_elem?-map, Option-cases, inl, inr,
}
use ele.Proc.{Proc, zombie, Chan, chan_of, sleeps_on, wakeup1}
use ele.Kernel.Exit.{is_child, is_dead_child, opt_eq, adopt, leave}
use ele.Kernel.Adopt.{given, woken, has_dead, entry, dead_at, dead_from, adopt-Stands}

abbrev no_proc : Option Proc
no_proc = none

-- The process that ends, among the others.
abbrev pub ended : ℕ → ℕ → Proc → Proc
ended cur j p = if cur == j then record p { state = zombie } else p

module _ (cur : ℕ) (init : Option ℕ) where
  dead_from-skip :
      (p : Proc) (ps : List Proc) (n i : ℕ)
      → dead_from cur init (p ∷ ps) n (suc i) ≡ dead_from cur init ps n i
  unfolding dead_from
  dead_from-skip p ps zero i = refl
  dead_from-skip p ps (suc n) i =
      ap (λ t. dead_at cur init (get_elem? ps i) || t) (dead_from-skip p ps n (suc i))

  dead_from-nil : (n i : ℕ) → dead_from cur init [] n i ≡ false
  unfolding dead_from
  dead_from-nil zero i = refl
  dead_from-nil (suc n) i = dead_from-nil n (suc i)

  dead_from-all :
      (ps : List Proc) (n : ℕ) → length ps ≤ n → dead_from cur init ps n 0 ≡ has_dead cur ps
  unfolding dead_from has_dead
  dead_from-all [] n h = dead_from-nil n 0
  dead_from-all (p ∷ ps) zero h = absurd (omega arith)
  dead_from-all (p ∷ ps) (suc n) h =
      ap (λ t. is_dead_child cur p || t)
        (dead_from-skip p ps n 0 ∙ dead_from-all ps n (omega arith))

  has_dead-wakeup1 : (c : Chan) (ps : List Proc) → has_dead cur (wakeup1 c ps) ≡ has_dead cur ps
  unfolding has_dead wakeup1 sleeps_on
  has_dead-wakeup1 c [] = refl
  has_dead-wakeup1 c (p ∷ ps) =
      ap (λ t. t || has_dead cur (wakeup1 c ps)) (same c p)
      ∙ ap (λ t. is_dead_child cur p || t) (has_dead-wakeup1 c ps)
    where
      same : (c : Chan) (p : Proc) → is_dead_child cur (woken true c p) ≡ is_dead_child cur p
      same c p = ground arith

  -- What `leave` makes of the process in slot `j`: a child of `cur` becomes a child of init, a process
  -- asleep on the parent wakes up, and so does one asleep on init if some child is dead; `cur` itself is
  -- a zombie.
  abbrev pub left : Option ℕ → Bool → ℕ → Proc → Proc
  left parent dead j p =
      ended cur j (woken dead (chan_of init) (given cur init (woken true (chan_of parent) p)))

  get_elem?-wakeup1 :
      (ps : List Proc) (c : Chan) (j : ℕ)
      → get_elem? (wakeup1 c ps) j ≡ Option.map (woken true c) (get_elem? ps j)
  unfolding wakeup1
  get_elem?-wakeup1 ps c j = get_elem?-map ps j _

  length-wakeup1 : (ps : List Proc) (c : Chan) → length (wakeup1 c ps) ≡ length ps
  unfolding wakeup1
  length-wakeup1 ps c = length-map ps _

  -- The loop over a table of `n` entries at most, after the first wake-up.
  adopt-at :
      (n : ℕ) (parent : Option ℕ) (ps : List Proc) (j : ℕ) (p : Proc)
      → length ps ≤ n
      → get_elem? ps j ≡ some p
      → get_elem? (adopt cur init n 0 (wakeup1 (chan_of parent) ps)) j
        ≡ some (
            woken (has_dead cur ps) (chan_of init) (given cur init (woken true (chan_of parent) p)))
  adopt-at n parent ps j p small e =
      let qs = wakeup1 (chan_of parent) ps in
      let here : get_elem? qs j ≡ some (woken true (chan_of parent) p) =
        get_elem?-wakeup1 ps (chan_of parent) j ∙ ap (Option.map (woken true (chan_of parent))) e in
      let dead : dead_from cur init qs n 0 ≡ has_dead cur ps =
        dead_from-all qs n (rw (length-wakeup1 ps (chan_of parent)) small)
        ∙ has_dead-wakeup1 (chan_of parent) ps in
      adopt-Stands cur init n qs qs 0 false (λ k. start k (get_elem? qs k)) j
      ∙ ap (Option.map (entry cur init (0 + n) (dead_from cur init qs n 0) j)) here
      ∙ ap some (
          ap
            (λ t. woken (dead_from cur init qs n 0) (chan_of init) (
              if t
              then given cur init (woken true (chan_of parent) p)
              else woken true (chan_of parent) p))
            (below n j (get_elem?-lt ps j p e) small)
          ∙ ap (λ t. woken t (chan_of init) (given cur init (woken true (chan_of parent) p))) dead)
    where
      start : (k : ℕ) (o : Option Proc) → o ≡ Option.map (entry cur init 0 false k) o
      start k none = refl
      start k (some r) = ground arith

      below : (n j : ℕ) → j < length ps → length ps ≤ n → ltb j (0 + n) ≡ true
      below n j l s = ground arith

  adopt-off :
      (n : ℕ) (parent : Option ℕ) (ps : List Proc) (j : ℕ)
      → get_elem? ps j ≡ none
      → get_elem? (adopt cur init n 0 (wakeup1 (chan_of parent) ps)) j ≡ none
  adopt-off n parent ps j e =
      let qs = wakeup1 (chan_of parent) ps in
      let here =
        get_elem?-wakeup1 ps (chan_of parent) j ∙ ap (Option.map (woken true (chan_of parent))) e in
      adopt-Stands cur init n qs qs 0 false (λ k. start k (get_elem? qs k)) j
      ∙ ap (Option.map (entry cur init (0 + n) (dead_from cur init qs n 0) j)) here
    where
      start : (k : ℕ) (o : Option Proc) → o ≡ Option.map (entry cur init 0 false k) o
      start k none = refl
      start k (some r) = ground arith

  -- `leave`, at each slot of a table of 64 entries at most.
  pub leave_lem :
      (parent : Option ℕ) (ps : List Proc) (j : ℕ)
      → length ps ≤ 64
      → get_elem? (leave cur parent init ps) j
        ≡ Option.map (left parent (has_dead cur ps) j) (get_elem? ps j)
  unfolding leave
  leave_lem parent ps j small =
      get_elem?-modify (adopt cur init 64 0 (wakeup1 (chan_of parent) ps)) cur j _
      ∙ elim (Option-cases (get_elem? ps j)) [
        | inl e ↦ rw (adopt-off 64 parent ps j e, e) (none_tail (cur == j))
        | inr (p, e) ↦ rw (adopt-at 64 parent ps j p small e, e) (tail (cur == j) _)
      ]
    where
      none_tail : (t : Bool) → (if t then none else none) ≡ no_proc
      none_tail true = refl
      none_tail false = refl

      tail :
          (t : Bool) (q : Proc)
          → (if t then some (record q { state = zombie }) else some q)
            ≡ some (if t then record q { state = zombie } else q)
      tail true q = refl
      tail false q = refl

-- After `leave` no process is a child of the one that ends, if init is another process.
pub leave-orphans :
    (cur : ℕ) (init parent : Option ℕ) (ps : List Proc) (j : ℕ) (q : Proc)
    → length ps ≤ 64
    → opt_eq init cur ≡ false
    → get_elem? (leave cur parent init ps) j ≡ some q
    → is_child cur q ≡ false
unfolding sleeps_on
leave-orphans cur init parent ps j q small other e = elim (Option-cases (get_elem? ps j)) [
  | inl n ↦ absurd (none-ne-some q (rw (leave_lem cur init parent ps j small, n) at e))
  | inr (p, h) ↦
      subst (λ z. is_child cur z ≡ false)
        (some_inj.0 ((rw (leave_lem cur init parent ps j small, h) at e)))
        (orphan p (has_dead cur ps))
]
  where
    orphan : (p : Proc) (b : Bool) → is_child cur (left cur init parent b j p) ≡ false
    orphan p b = ground arith
