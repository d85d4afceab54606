-- ===== src/Str/Move.antt =====
-- `memmove` of string.c copies what was there before, also between blocks that overlap.
use ele.Common.{
  ℕ, zero, suc, ◌+◌, ◌-◌, ◌<◌, ◌≤◌, ◌≡◌, ◌≢◌, sym, ap, ◌∙◌, true, false, ◌&&◌, if◌then◌else◌, ltb,
  leb, arith, ℕ_discrete, Bool-cases, inl, inr, ◌⊎◌,
}
use ele.Str.{Memory, store, copy_up, copy_down, memmove}

-- The memory after a copy of `n` bytes, all at once.
abbrev pub moved : ℕ → ℕ → ℕ → Memory → Memory
moved d s n m a = if leb d a && ltb a (d + n) then m (s + (a - d)) else m a

moved-in : (d s n : ℕ) (m : Memory) (a : ℕ) → d ≤ a → a < d + n → moved d s n m a ≡ m (s + (a - d))
moved-in d s n m a l h = ap (λ t. if t then m (s + (a - d)) else m a) (inside d n a l h)
  where
    inside : (d n a : ℕ) → d ≤ a → a < d + n → (leb d a && ltb a (d + n)) ≡ true
    inside d n a l h = ground arith

moved-out : (d s n : ℕ) (m : Memory) (a : ℕ) → (a < d) ⊎ (d + n ≤ a) → moved d s n m a ≡ m a
moved-out d s n m a h = ap (λ t. if t then m (s + (a - d)) else m a) (outside d n a h)
  where
    outside : (d n a : ℕ) → (a < d) ⊎ (d + n ≤ a) → (leb d a && ltb a (d + n)) ≡ false
    outside d n a (inl h) = ground arith
    outside d n a (inr h) = ground arith

store-here : (b v : ℕ) (m : Memory) (a : ℕ) → a ≡ b → store b v m a ≡ v
store-here b v m a e = ground arith

store-other : (b v : ℕ) (m : Memory) (a : ℕ) → a ≢ b → store b v m a ≡ m a
store-other b v m a off = ground arith

-- Where an address stands to a block.
data Place (d n a : ℕ) : Type 0 where
  below : a < d → Place d n a
  within : d ≤ a → a < d + n → Place d n a
  above : d + n ≤ a → Place d n a

place : (d n a : ℕ) → Place d n a
place d n a = elim (Bool-cases (ltb a d)) [
  | inl l ↦ below (ground arith)
  | inr l ↦ elim (Bool-cases (ltb a (d + n))) [
    | inl h ↦ within (ground arith) (ground arith)
    | inr h ↦ above (ground arith)
  ]
]

-- One byte, and a copy of those above it.
moved-up :
    (d s n : ℕ) (m : Memory) (a : ℕ)
    → (d ≤ s) ⊎ (s + suc n ≤ d)
    → moved (d + 1) (s + 1) n (store d (m s) m) a ≡ moved d s (suc n) m a
moved-up d s n m a h = elim (ℕ_discrete a d) [
  | yes e ↦
      moved-out (d + 1) (s + 1) n (store d (m s) m) a (inl (omega (arith, e)))
      ∙ store-here d (m s) m a e
      ∙ ap m (omega (arith, e))
      ∙ sym (moved-in d s (suc n) m a (omega (arith, e)) (omega (arith, e)))
  | no off ↦ elim (place d (suc n) a) [
    | below l ↦
        moved-out (d + 1) (s + 1) n (store d (m s) m) a (inl (omega (arith, l)))
        ∙ store-other d (m s) m a off
        ∙ sym (moved-out d s (suc n) m a (inl l))
    | above l ↦
        moved-out (d + 1) (s + 1) n (store d (m s) m) a (inr (omega (arith, l)))
        ∙ store-other d (m s) m a off
        ∙ sym (moved-out d s (suc n) m a (inr l))
    | within l u ↦
        moved-in (d + 1) (s + 1) n (store d (m s) m) a (omega (arith, l, off)) (omega (arith, u))
        ∙ store-other d (m s) m (s + 1 + (a - (d + 1))) (apart h off l u)
        ∙ ap m (omega (arith, l, off))
        ∙ sym (moved-in d s (suc n) m a l u)
  ]
]
  where
    apart : (d ≤ s) ⊎ (s + suc n ≤ d) → a ≢ d → d ≤ a → a < d + suc n → s + 1 + (a - (d + 1)) ≢ d
    apart (inl h) off l u e = omega (arith, off)
    apart (inr h) off l u e = omega (arith, off)

copy_up-moved :
    (n d s : ℕ) (m : Memory) (a : ℕ) → (d ≤ s) ⊎ (s + n ≤ d) → copy_up n d s m a ≡ moved d s n m a
unfolding copy_up
copy_up-moved zero d s m a h = sym (moved-out d s 0 m a (none_in d a))
  where
    none_in : (d a : ℕ) → (a < d) ⊎ (d + 0 ≤ a)
    none_in d a = elim (Bool-cases (ltb a d)) [
      | inl l ↦ inl (ground arith)
      | inr l ↦ inr (ground arith)
    ]
copy_up-moved (suc n) d s m a h =
    copy_up-moved n (d + 1) (s + 1) (store d (m s) m) a (next h) ∙ moved-up d s n m a h
  where
    next : (d ≤ s) ⊎ (s + suc n ≤ d) → (d + 1 ≤ s + 1) ⊎ (s + 1 + n ≤ d + 1)
    next (inl h) = inl (omega arith)
    next (inr h) = inr (omega arith)

-- One byte, and a copy of those below it.
moved-down :
    (d s n : ℕ) (m : Memory) (a : ℕ)
    → s < d
    → moved d s n (store (d + n) (m (s + n)) m) a ≡ moved d s (suc n) m a
moved-down d s n m a h = elim (ℕ_discrete a (d + n)) [
  | yes e ↦
      moved-out d s n (store (d + n) (m (s + n)) m) a (inr (omega (arith, e)))
      ∙ store-here (d + n) (m (s + n)) m a e
      ∙ ap m (omega (arith, e))
      ∙ sym (moved-in d s (suc n) m a (omega (arith, e)) (omega (arith, e)))
  | no off ↦ elim (place d (suc n) a) [
    | below l ↦
        moved-out d s n (store (d + n) (m (s + n)) m) a (inl l)
        ∙ store-other (d + n) (m (s + n)) m a off
        ∙ sym (moved-out d s (suc n) m a (inl l))
    | above l ↦
        moved-out d s n (store (d + n) (m (s + n)) m) a (inr (omega (arith, l)))
        ∙ store-other (d + n) (m (s + n)) m a off
        ∙ sym (moved-out d s (suc n) m a (inr l))
    | within l u ↦
        moved-in d s n (store (d + n) (m (s + n)) m) a l (omega (arith, u, off))
        ∙ store-other (d + n) (m (s + n)) m (s + (a - d)) (omega (arith, h, l, u))
        ∙ sym (moved-in d s (suc n) m a l u)
  ]
]

copy_down-moved : (n d s : ℕ) (m : Memory) (a : ℕ) → s < d → copy_down n d s m a ≡ moved d s n m a
unfolding copy_down
copy_down-moved zero d s m a h = sym (moved-out d s 0 m a (none_in d a))
  where
    none_in : (d a : ℕ) → (a < d) ⊎ (d + 0 ≤ a)
    none_in d a = elim (Bool-cases (ltb a d)) [
      | inl l ↦ inl (ground arith)
      | inr l ↦ inr (ground arith)
    ]
copy_down-moved (suc n) d s m a h =
    copy_down-moved n d s (store (d + n) (m (s + n)) m) a h ∙ moved-down d s n m a h

-- `memmove` is a copy of the whole block at once, however the blocks overlap: each byte of the destination
-- is the byte that stood in the source before, and every other byte is as it was.
pub memmove-moved : (d s n : ℕ) (m : Memory) (a : ℕ) → memmove d s n m a ≡ moved d s n m a
unfolding memmove
memmove-moved d s n m a = elim (Bool-cases (ltb s d && ltb d (s + n))) [
  | inl y ↦
      ap (λ t. (if t then copy_down n d s m else copy_up n d s m) a) y
      ∙ copy_down-moved n d s m a (ground arith)
  | inr off ↦
      ap (λ t. (if t then copy_down n d s m else copy_up n d s m) a) off
      ∙ copy_up-moved n d s m a (apart off)
]
  where
    apart : (ltb s d && ltb d (s + n)) ≡ false → (d ≤ s) ⊎ (s + n ≤ d)
    apart h = elim (Bool-cases (ltb s d)) [
      | inl l ↦ inr (ground arith)
      | inr l ↦ inl (ground arith)
    ]
