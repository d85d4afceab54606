-- ===== src/Thread/Pool.antt =====
-- The pool of user stacks of project02/xv6-public/thread.c.
use ele.Common.{ℕ, zero, suc, ◌≡◌, ◌≢◌, refl, some, List, ◌∷◌, arith, replicate, find_index}
use ele.Thread.{take_stack, give_stack}

give_stack-replicate : (start n : ℕ) → give_stack start (replicate n 0) ≡ replicate n start
unfolding give_stack
give_stack-replicate start zero = refl
give_stack-replicate start (suc n) = rw (give_stack-replicate start n)

take_first : (a : ℕ) (pool : List ℕ) → a ≢ 0 → take_stack (a ∷ pool) ≡ some (a, 0 ∷ pool)
unfolding take_stack find_index
take_first a pool h = ground arith

take_second : (a : ℕ) (pool : List ℕ) → a ≢ 0 → take_stack (0 ∷ a ∷ pool) ≡ some (a, 0 ∷ 0 ∷ pool)
unfolding take_stack find_index
take_second a pool h = ground arith

-- A stack that is given back to an empty pool of two words or more is handed out twice: to each of the
-- next two threads.
pub give_stack-shares :
    (start n : ℕ)
    → start ≢ 0
    → (pool : List ℕ) × (take_stack (give_stack start (replicate (suc (suc n)) 0))
        ≡ some (start, pool))
      × ((pool' : List ℕ) × (take_stack pool ≡ some (start, pool')))
give_stack-shares start n h = rw (give_stack-replicate start (suc (suc n))) (
  0 ∷ start ∷ replicate n start,
  take_first start (start ∷ replicate n start) h,
  (0 ∷ 0 ∷ replicate n start, take_second start (replicate n start) h),
)
