-- ===== src/Lock/Nesting.antt =====
-- spinlock.c: interrupts are disabled while a lock is held, and are afterwards as they were.
use ele.Common.{
  ℕ, ◌-◌, ◌≡◌, refl, ap, ◌∙◌, ◌==◌, true, false, ◌&&◌, if◌then◌else◌, none, some, arith, Bool-cases,
  inl, inr,
}
use ele.Lock.{Cpu, Spinlock, pushcli, popcli, is_cpu, holding, acquire, got, release}

-- Interrupts are disabled where pushcli calls are open.
abbrev pub IsNested : Cpu → Type 0
IsNested c = (c.ncli == 0) ≡ false → c.interrupts ≡ false

-- The processor after a pushcli and its popcli: at the outermost level the saved flag is the flag.
abbrev balanced : Cpu → Cpu
balanced c = record c { intena = if c.ncli == 0 then c.interrupts else c.intena }

pub popcli-pushcli : (c : Cpu) → IsNested c → popcli (pushcli c) ≡ some (balanced c)
unfolding popcli pushcli
popcli-pushcli c nested = elim (Bool-cases (c.ncli == 0)) [
  | inl out ↦ ground arith
  | inr deep ↦ ground (arith, nested deep)
]

pushcli-IsNested : (c : Cpu) → IsNested (pushcli c)
unfolding pushcli
pushcli-IsNested c deep = refl

holding_lem :
    (me : ℕ) (l : Spinlock) (c : Cpu)
    → IsNested c
    → holding me l c ≡ some (l.locked && is_cpu me l.cpu, balanced c)
unfolding holding
holding_lem me l c nested = rw (holding, popcli-pushcli c nested)

acquire_lem :
    (me : ℕ) (l : Spinlock) (c : Cpu)
    → l.locked ≡ false
    → acquire me l c ≡ some (got (record { locked = true; cpu = some me }) (balanced (pushcli c)))
unfolding acquire
acquire_lem me l c free = rw (acquire, holding_lem me l (pushcli c) (pushcli-IsNested c), free)

abbrev popped : Cpu → Cpu
popped c = record c { ncli = c.ncli - 1; interrupts = (c.ncli == 1) && c.intena }

balanced-deep : (c : Cpu) → (c.ncli == 0) ≡ false → balanced c ≡ c
balanced-deep c deep = ground (arith, deep)

popcli-deep : (c : Cpu) → c.interrupts ≡ false → (c.ncli == 0) ≡ false → popcli c ≡ some (popped c)
unfolding popcli
popcli-deep c off deep = ground (arith, off, deep)

self : (me : ℕ) → (me == me) ≡ true
self me = ground arith

release_lem :
    (me : ℕ) (c : Cpu)
    → c.interrupts ≡ false
    → (c.ncli == 0) ≡ false
    → release me (record { locked = true; cpu = some me }) c
      ≡ some (record { locked = false; cpu = none }, popped c)
unfolding release
release_lem me c off deep =
    let held =
      holding_lem me (record { locked = true; cpu = some me }) c (λ d. off)
      ∙ ap (λ z. some (me == me, z)) (balanced-deep c deep) in
    rw (release, held, self me, popcli-deep c off deep)

-- What an outer pushcli and popcli leave.
popped_same :
    (c : Cpu)
    → IsNested c
    → ((popped (balanced (pushcli c))).ncli ≡ c.ncli)
      × ((popped (balanced (pushcli c))).interrupts ≡ c.interrupts)
unfolding pushcli
popped_same c nested = elim (Bool-cases (c.ncli == 0)) [
  | inl out ↦ (omega arith, ground arith)
  | inr deep ↦ (omega arith, ground (arith, nested deep))
]

deeper : (c : Cpu) → ((pushcli c).interrupts ≡ false) × (((pushcli c).ncli == 0) ≡ false)
unfolding pushcli
deeper c = (refl, ground arith)

-- A lock that is free is taken by `acquire` with interrupts disabled; `release` on the same processor gives it
-- back, and the nesting and the interrupts are then as they were before.
pub acquire-release :
    (me : ℕ) (l : Spinlock) (c : Cpu)
    → IsNested c
    → l.locked ≡ false
    → (l1 : Spinlock) × (c1 : Cpu) × (acquire me l c ≡ some (got l1 c1))
      × (c1.interrupts ≡ false)
      × ((l2 : Spinlock) × (c2 : Cpu) × (release me l1 c1 ≡ some (l2, c2))
          × (l2.locked ≡ false)
          × (c2.ncli ≡ c.ncli)
          × (c2.interrupts ≡ c.interrupts))
acquire-release me l c nested free =
    let c1 = balanced (pushcli c) in
    let (off, deep) = deeper c in
    (
      record { locked = true; cpu = some me },
      c1,
      acquire_lem me l c free,
      off,
      (
        record { locked = false; cpu = none },
        popped c1,
        release_lem me c1 off deep,
        refl,
        (popped_same c nested).0,
        (popped_same c nested).1,
      ),
    )
