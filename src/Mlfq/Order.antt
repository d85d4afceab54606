-- ===== src/Mlfq/Order.antt =====
-- The order in which the scheduler of project01/xv6-public/proc.c prefers processes, and its choice.
use ele.Common.{
  ℕ, suc, ◌+◌, ◌<◌, ◌≡◌, ◌⊎◌, inl, inr, true, false, none, some, List, [], ◌∷◌, arith, get_elem?,
  get_elem?-lt, All, All-of, length, dec_lt, sym, ap, ◌∙◌, and_parts, and_fails, ◌&&◌, ◌<ℤ◌,
  Bool-cases,
}
use mathlib.Core.Path.{subst}
use mathlib.Core.Bool.{true≢false}
use mathlib.Core.Option.{some_inj}
use ele.Proc.{Proc, is_runnable}
use ele.Mlfq.{prefers, Choice, consider, choose_from, choose}

-- The order of the queues: a lower level first; in L2 a lower priority number, then the earlier
-- arrival; in L0 and L1 the earlier arrival.
pub data Precedes (p r : Proc) : Type 0 where
  level : p.q_lv < r.q_lv → Precedes p r
  rank : p.q_lv ≡ r.q_lv → r.q_lv ≡ 2 → p.priority < r.priority → Precedes p r
  arrival_l2 :
      p.q_lv ≡ r.q_lv → r.q_lv ≡ 2 → p.priority ≡ r.priority → p.time <ℤ r.time → Precedes p r
  arrival : p.q_lv ≡ r.q_lv → ¬ (r.q_lv ≡ 2) → p.time <ℤ r.time → Precedes p r

prefers_sound : (p r : Proc) → prefers p r ≡ true → Precedes p r
unfolding prefers
prefers_sound p r e = grind (arith, level, rank, arrival_l2, arrival)

prefers_complete : (p r : Proc) → Precedes p r → prefers p r ≡ true
unfolding prefers
prefers_complete p r h = ground arith

prefers_self : (p : Proc) → prefers p p ≡ false
unfolding prefers
prefers_self p = ground arith

prefers_step :
    (p r q : Proc)
    → prefers p r ≡ true
    → prefers q r ≡ false
    → (prefers q p ≡ false) × (prefers p q ≡ true)
unfolding prefers
prefers_step p r q h k = ground arith

-- Process `p` at index `i` is the choice among `ps`: it is runnable, no runnable process precedes
-- it, and it precedes each runnable one that stands before it in the table.
pub record IsChoice (ps : List Proc) (i : ℕ) (p : Proc) : Type 0 where
  pub here : get_elem? ps i ≡ some p
  pub ready : is_runnable p.state ≡ true
  pub first :
      (j : ℕ) (q : Proc) → get_elem? ps j ≡ some q → is_runnable q.state ≡ true → ¬ Precedes q p
  pub tie :
      (j : ℕ) (q : Proc)
      → get_elem? ps j ≡ some q
      → is_runnable q.state ≡ true
      → j < i
      → Precedes p q

-- `best` is the right choice among the first `n` of `ps`.
abbrev Best : List Proc → ℕ → Choice → Type 0
Best ps n none = (j : ℕ) (q : Proc) → j < n → get_elem? ps j ≡ some q → is_runnable q.state ≡ false
Best ps n (some (i, p)) =
    (get_elem? ps i ≡ some p)
    × (i < n)
    × (is_runnable p.state ≡ true)
    × ((j : ℕ) (q : Proc)
        → j < n
        → get_elem? ps j ≡ some q
        → is_runnable q.state ≡ true
        → (prefers q p ≡ false) × (j < i → prefers p q ≡ true))

-- An index up to `n` is an earlier one, or names the item at `n`.
upto :
    (ps : List Proc) (n j : ℕ) (p q : Proc)
    → get_elem? ps n ≡ some p
    → get_elem? ps j ≡ some q
    → j < suc n
    → (j < n) ⊎ ((j ≡ n) × (p ≡ q))
upto ps n j p q here g lt = elim (dec_lt j n) [
  | yes old ↦ inl old
  | no new ↦ let same : j ≡ n = omega arith in inr (same, some_inj.0 (sym here ∙ (rw same at g)))
]

consider-Best :
    (ps : List Proc) (n : ℕ) (p : Proc) (best : Choice)
    → get_elem? ps n ≡ some p
    → Best ps n best
    → Best ps (suc n) (consider n p best)
unfolding consider
consider-Best ps n p none here h = elim (Bool-cases (is_runnable p.state)) [
  | inl ready ↦ rw ready (
    here,
    omega arith,
    ready,
    λ j q lt g run. elim (upto ps n j p q here g lt) [
      | inl old ↦ absurd (true≢false (sym run ∙ h j q old g))
      | inr (same, e) ↦
          (subst (λ z. prefers z p ≡ false) e (prefers_self p), λ before. absurd (omega arith))
    ],
  )
  | inr idle ↦ rw idle (λ j q lt g. elim (upto ps n j p q here g lt) [
    | inl old ↦ h j q old g
    | inr (same, e) ↦ subst (λ z. is_runnable z.state ≡ false) e idle
  ])
]
consider-Best ps n p (some (i, r)) here (at, below, ready, wins) =
    elim (Bool-cases (is_runnable p.state && prefers p r)) [
      | inl better ↦
          let (run_p, beats) = and_parts (is_runnable p.state) (prefers p r) better in
          rw better (
            here,
            omega arith,
            run_p,
            λ j q lt g run. elim (upto ps n j p q here g lt) [
              | inl old ↦
                  let (lost, won) = prefers_step p r q beats (wins j q old g run).0 in
                  (lost, λ _. won)
              | inr (same, e) ↦ (
                subst (λ z. prefers z p ≡ false) e (prefers_self p),
                λ before. absurd (omega arith),
              )
            ],
          )
      | inr worse ↦ rw worse (
        at,
        omega arith,
        ready,
        λ j q lt g run. elim (upto ps n j p q here g lt) [
          | inl old ↦ wins j q old g run
          | inr (same, e) ↦ (
            subst (λ z. prefers z r ≡ false) e
                (and_fails (is_runnable p.state) (prefers p r) worse
                  (subst (λ (z : Proc). is_runnable z.state ≡ true) (sym e) run)),
            λ before. absurd (omega arith),
          )
        ],
      )
    ]

choose_from-Best :
    (ps rest : List Proc) (n : ℕ) (best : Choice)
    → ((j : ℕ) → get_elem? ps (n + j) ≡ get_elem? rest j)
    → Best ps n best
    → Best ps (n + length rest) (choose_from rest n best)
unfolding choose_from
choose_from-Best ps [] n best same h = subst (λ k. Best ps k best) (omega arith) h
choose_from-Best ps (p ∷ rest) n best same h =
    subst (λ k. Best ps k (choose_from rest (suc n) (consider n p best))) (omega arith)
      (choose_from-Best ps rest (suc n) (consider n p best)
        (λ j. ap (get_elem? ps) (omega arith) ∙ same (suc j))
        (consider-Best ps n p best (ap (get_elem? ps) (omega arith) ∙ same 0) h))

choose-Best : (ps : List Proc) → Best ps (length ps) (choose ps)
unfolding choose
choose-Best ps =
    subst (λ k. Best ps k (choose_from ps 0 none)) (omega arith)
      (choose_from-Best ps ps 0 none (λ j. ap (get_elem? ps) (omega arith))
        (λ j q lt g. absurd (omega arith)))

-- What a choice says of the table.
abbrev pub Chosen : List Proc → Choice → Type 0
Chosen ps none = All (λ q. is_runnable q.state ≡ false) ps
Chosen ps (some (i, p)) = IsChoice ps i p

Best-Chosen : (ps : List Proc) (c : Choice) → Best ps (length ps) c → Chosen ps c
Best-Chosen ps none h = All-of ps (λ j q g. h j q (get_elem?-lt ps j q g) g)
Best-Chosen ps (some (i, p)) (here, below, ready, wins) = record {
  here = here;
  ready = ready;
  first = λ j q g run before.
      true≢false (sym (prefers_complete q p before) ∙ (wins j q (get_elem?-lt ps j q g) g run).0);
  tie = λ j q g run lt. prefers_sound p q ((wins j q (get_elem?-lt ps j q g) g run).1 lt);
}

-- The loop finds a process exactly as the order of the queues says. If it finds none, no process in
-- the table is runnable; if it finds one, at index i, then that one is runnable, no runnable
-- process precedes it in the order of levels, priorities (in L2) and arrivals, and it precedes
-- strictly each runnable process of a smaller index.
pub choose_lem : (ps : List Proc) → Chosen ps (choose ps)
choose_lem ps = Best-Chosen ps (choose ps) (choose-Best ps)
