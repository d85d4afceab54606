-- ===== src/Tasks/Turns.antt =====
-- The scheduler of project02/xv6-public/proc.c passes over no thread that is ready.
use ele.Common.{
  ℕ, zero, suc, ◌+◌, ◌-◌, ◌%◌, ◌<◌, ◌≤◌, ◌≡◌, ◌≢◌, ℕ_discrete, refl, sym, ap, subst, ◌∙◌, true,
  false, ◌||◌, ◌==◌, some, List, [], ◌∷◌, arith, has, get_elem?, get_elem?-modify, modify,
  Option-cases, Bool-cases, inl, inr,
}
use ele.Proc.{is_runnable, is_zombie}
use ele.Thread.{Thread}
use ele.Tasks.{Process, copy_thread, copy_process, frame_of, dispatched, is_ready, is_gone, visit}

-- Process `i` is there, has not ended, and its thread `j` is ready.
pub record Waits (i j : ℕ) (ps : List Process) : Type 0 where
  pub process : Process
  pub at_index : get_elem? ps i ≡ some process
  pub alive : is_zombie process.state ≡ false
  pub thread : Thread
  pub at_slot : get_elem? process.ttable j ≡ some thread
  pub ready : is_runnable thread.state ≡ true

Waits-ready : (i j : ℕ) (ps : List Process) → Waits i j ps → is_ready i j ps ≡ true
unfolding is_ready
Waits-ready i j ps w = rw (is_ready, w.at_index, w.at_slot) (w.ready)

Waits-gone : (i j : ℕ) (ps : List Process) → Waits i j ps → is_gone i ps ≡ false
unfolding is_gone
Waits-gone i j ps w = rw (is_gone, w.at_index) (w.alive)

at_modified :
    (i : ℕ) (ps : List Process) (f : Process → Process) (p : Process)
    → get_elem? ps i ≡ some p
    → get_elem? (modify ps i f) i ≡ some (f p)
at_modified i ps f p e = get_elem?-modify ps i i f ∙ rw e (ground arith)

dispatched-state :
    (s : ℕ) (p : Process) → is_zombie p.state ≡ false → is_zombie (dispatched s p).state ≡ false
unfolding dispatched copy_thread
dispatched-state s p h = elim (Option-cases (get_elem? p.ttable s)) [
  | inl e ↦ rw (dispatched, e) h
  | inr (t, e) ↦ rw (dispatched, e) refl
]

dispatched-ttable : (s : ℕ) (p : Process) → (dispatched s p).ttable ≡ p.ttable
unfolding dispatched copy_thread
dispatched-ttable s p = elim (Option-cases (get_elem? p.ttable s)) [
  | inl e ↦ rw (dispatched, e)
  | inr (t, e) ↦ rw (dispatched, e)
]

Waits-dispatched :
    (i j : ℕ) (ps : List Process) (s : ℕ) → Waits i j ps → Waits i j (modify ps i (dispatched s))
Waits-dispatched i j ps s w = record {
  process = dispatched s w.process;
  at_index = at_modified i ps (dispatched s) w.process w.at_index;
  alive = dispatched-state s w.process w.alive;
  thread = w.thread;
  at_slot = ap (λ ts. get_elem? ts j) (dispatched-ttable s w.process) ∙ w.at_slot;
  ready = w.ready;
}

-- `copy_process` leaves the state of each thread.
frame_of-at :
    (p : Process) (ts : List Thread) (k j : ℕ) (t : Thread)
    → get_elem? ts j ≡ some t
    → (u : Thread) × (get_elem? (modify ts k (frame_of p)) j ≡ some u) × (u.state ≡ t.state)
frame_of-at p ts k j t e = elim (Bool-cases (k == j)) [
  | inl same ↦ (frame_of p t, get_elem?-modify ts k j (frame_of p) ∙ rw (e, same) refl, refl)
  | inr off ↦ (t, get_elem?-modify ts k j (frame_of p) ∙ rw (e, off) refl, refl)
]

Waits-copy_process :
    (i j : ℕ) (ps : List Process) → Waits i j ps → Waits i j (modify ps i copy_process)
unfolding copy_process
Waits-copy_process i j ps w =
    let (u, at_u, same) =
      frame_of-at w.process w.process.ttable w.process.cur_thread j w.thread w.at_slot in
    record {
      process = copy_process w.process;
      at_index = at_modified i ps copy_process w.process w.at_index;
      alive = w.alive;
      thread = u;
      at_slot = at_u;
      ready = ap is_runnable same ∙ w.ready;
    }

module _ (run : ℕ → ℕ → List Process → List Process) (i j : ℕ)
    (calm : (s : ℕ) (ps : List Process) → s ≢ j → Waits i j ps → Waits i j (run i s ps)) where
  visit-idle :
      (n k first : ℕ) (ps : List Process)
      → is_ready i ((first + k) % 10) ps ≡ false
      → visit run (suc n) k first i ps ≡ visit run n (k + 1) first i ps
  unfolding visit
  visit-idle n k first ps h = rw (visit, h)

  visit-on :
      (n k first : ℕ) (ps : List Process)
      → is_ready i ((first + k) % 10) ps ≡ true
      → is_gone i (run i ((first + k) % 10) (modify ps i (dispatched ((first + k) % 10)))) ≡ false
      → (visit run (suc n) k first i ps).0
        ≡ ((first + k) % 10)
          ∷ (visit run n (k + 1) first i (
              modify
                (run i ((first + k) % 10) (modify ps i (dispatched ((first + k) % 10))))
                i
                copy_process)).0
  unfolding visit
  visit-on n k first ps h g = rw (visit, h, g)

  visit-head :
      (n k first : ℕ) (ps : List Process)
      → is_ready i ((first + k) % 10) ps ≡ true
      → (ss : List ℕ) × ((visit run (suc n) k first i ps).0 ≡ ((first + k) % 10) ∷ ss)
  unfolding visit
  visit-head n k first ps h =
      elim (Bool-cases
        (is_gone i (run i ((first + k) % 10) (modify ps i (dispatched ((first + k) % 10)))))) [
          | inl g ↦ ([], rw (visit, h, g))
          | inr g ↦ (_, visit-on n k first ps h g)
        ]

  visit-own :
      (n k first : ℕ) (ps : List Process)
      → (first + k) % 10 ≡ j
      → is_ready i j ps ≡ true
      → has j (visit run (suc n) k first i ps).0 ≡ true
  visit-own n k first ps e h =
      let (ss, shape) = visit-head n k first ps (subst (λ s. is_ready i s ps ≡ true) (sym e) h) in
      rw shape (first_is ((first + k) % 10) ss e)
    where
      first_is : (s : ℕ) (ss : List ℕ) → s ≡ j → ((s == j) || has j ss) ≡ true
      first_is s ss e = ground arith

  serves :
      (n k first d : ℕ) (ps : List Process)
      → d < n
      → (first + k + d) % 10 ≡ j
      → Waits i j ps
      → has j (visit run n k first i ps).0 ≡ true
  serves zero k first d ps l e w = absurd (omega arith)
  serves (suc n) k first zero ps l e w =
      visit-own n k first ps (omega (arith, e)) (Waits-ready i j ps w)
  serves (suc n) k first (suc d) ps l e w = elim (ℕ_discrete ((first + k) % 10) j) [
    | yes here ↦ visit-own n k first ps here (Waits-ready i j ps w)
    | no off ↦ elim (Bool-cases (is_ready i ((first + k) % 10) ps)) [
      | inr idle ↦
          rw (visit-idle n k first ps idle)
            (serves n (k + 1) first d ps (omega (arith, l)) (omega (arith, e)) w)
      | inl on ↦
          let after =
            calm ((first + k) % 10) (modify ps i (dispatched ((first + k) % 10))) off
              (Waits-dispatched i j ps ((first + k) % 10) w) in
          rw (visit-on n k first ps on (Waits-gone i j _ after)) (
            later ((first + k) % 10) _ (
              serves n (k + 1) first d _ (omega (arith, l)) (omega (arith, e))
                (Waits-copy_process i j _ after)))
    ]
  ]
    where
      later : (s : ℕ) (ss : List ℕ) → has j ss ≡ true → ((s == j) || has j ss) ≡ true
      later s ss h = ground arith

  -- No thread that is ready is passed over: given are a thread `j` of the ten of process `i`, ready as the scheduler
  -- comes to the process, and runs of the other threads that leave the process alive and this
  -- thread ready. Then the scheduler runs thread `j` in this visit of the process, whichever
  -- thread ran last.
  pub visit-serves :
      (first : ℕ) (ps : List Process)
      → first ≤ 10
      → j < 10
      → Waits i j ps
      → has j (visit run 10 1 first i ps).0 ≡ true
  visit-serves first ps f l w =
      serves 10 1 first ((j + 19 - first) % 10) ps (omega arith) (omega arith) w
