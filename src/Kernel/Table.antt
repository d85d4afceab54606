-- ===== src/Kernel/Table.antt =====
-- The process table of project01/xv6-public/proc.c: what keeps it in order.
use ele.Common.{
  map, map_inv, length-map, All-map, get_elem?-set_cases, inl, inr, ap, ℕ, ◌+◌, ◌<◌, ◌≡◌, sym, ◌∙◌,
  subst, false, some, List, arith, length, length-set, get_elem?, set, All, All-set, All-mono,
  All-get_elem?,
}
use ele.Proc.{Proc, is_unused, nproc}

-- The table has its size, ids are handed out in order, and no two processes in use share one.
pub record IsTable (ps : List Proc) (nextpid : ℕ) : Type 0 where
  pub size : length ps ≡ nproc
  pub below : All (λ p. p.pid < nextpid) ps
  pub apart :
      (i j : ℕ) (p q : Proc)
      → get_elem? ps i ≡ some p
      → get_elem? ps j ≡ some q
      → is_unused p.state ≡ false
      → is_unused q.state ≡ false
      → p.pid ≡ q.pid
      → i ≡ j

-- A slot is given the next id.
pub IsTable-new :
    (ps : List Proc) (n i : ℕ) (p : Proc) → IsTable ps n → p.pid ≡ n → IsTable (set ps i p) (n + 1)
IsTable-new ps n i p t new =
    let grown =
      All-mono {P = λ q. q.pid < n} {Q = λ q. q.pid < n + 1} (λ q h. omega arith) ps t.below in
    record {
      size = length-set ps i p ∙ t.size;
      below = All-set (λ q. q.pid < n + 1) ps i grown (omega arith);
      apart = λ a b q r at_a at_b use_q use_r same. elim (get_elem?-set_cases ps i a p at_a) [
        | inl (ia, e) ↦ elim (get_elem?-set_cases ps i b p at_b) [
          | inl (ib, f) ↦ ia ∙ sym ib
          | inr (nb, old) ↦ absurd (
              omega (
                arith,
                All-get_elem? (λ q. q.pid < n) ps b t.below old,
                ap (λ (z : Proc). z.pid) e,
              ))
        ]
        | inr (na, was) ↦ elim (get_elem?-set_cases ps i b p at_b) [
          | inl (ib, f) ↦ absurd (
              omega (
                arith,
                All-get_elem? (λ q. q.pid < n) ps a t.below was,
                ap (λ (z : Proc). z.pid) f,
              ))
          | inr (nb, old) ↦ t.apart a b q r was old use_q use_r same
        ]
      ];
    }

-- A slot that is in use after a write was in use before, with the same id.
abbrev pub Keeps : Proc → Proc → Type 0
Keeps p q = is_unused q.state ≡ false → (q.pid ≡ p.pid) × (is_unused p.state ≡ false)

pub IsTable-set :
    (ps : List Proc) (n i : ℕ) (p q : Proc)
    → IsTable ps n
    → get_elem? ps i ≡ some p
    → q.pid < n
    → Keeps p q
    → IsTable (set ps i q) n
IsTable-set ps n i p q t here small kept = record {
  size = length-set ps i q ∙ t.size;
  below = All-set (λ q. q.pid < n) ps i t.below small;
  apart = λ a b r s at_a at_b use_r use_s same. elim (get_elem?-set_cases ps i a q at_a) [
    | inl (ia, e) ↦ elim (get_elem?-set_cases ps i b q at_b) [
      | inl (ib, f) ↦ ia ∙ sym ib
      | inr (nb, old) ↦
          let (id, in_use) = kept (subst (λ z. is_unused z.state ≡ false) (sym e) use_r) in
          ia ∙ t.apart i b p s here old in_use use_s (sym id ∙ ap (λ (z : Proc). z.pid) e ∙ same)
    ]
    | inr (na, was) ↦ elim (get_elem?-set_cases ps i b q at_b) [
      | inl (ib, f) ↦
          let (id, in_use) = kept (subst (λ z. is_unused z.state ≡ false) (sym f) use_s) in
          t.apart a i r p was here use_r in_use (same ∙ sym (ap (λ (z : Proc). z.pid) f) ∙ id)
          ∙ sym ib
      | inr (nb, old) ↦ t.apart a b r s was old use_r use_s same
    ]
  ];
}

-- A change to every process that keeps ids, and takes no free slot into use.
pub IsTable-map :
    (ps : List Proc) (n : ℕ) (f : Proc → Proc)
    → IsTable ps n
    → ((p : Proc) → (f p).pid ≡ p.pid)
    → ((p : Proc) → Keeps p (f p))
    → IsTable (map f ps) n
IsTable-map ps n f t ids kept = record {
  size = length-map ps f ∙ t.size;
  below = All-map (λ p. p.pid < n) (λ p. p.pid < n) f (λ p h. omega (arith, ids p)) ps t.below;
  apart = λ a b r s at_a at_b use_r use_s same.
      let (p, was, e) = map_inv ps a f r at_a in
      let (q, old, g) = map_inv ps b f s at_b in
      t.apart a b p q was old (kept p (subst (λ z. is_unused z.state ≡ false) (sym e) use_r)).1
        (kept q (subst (λ z. is_unused z.state ≡ false) (sym g) use_s)).1
        (sym (ids p)
          ∙ ap (λ (z : Proc). z.pid) e
          ∙ same
          ∙ sym (ap (λ (z : Proc). z.pid) g)
          ∙ ids q);
}
