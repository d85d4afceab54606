-- ===== src/Log/Disk.antt =====
-- The disk, as the writes that have reached it leave it.
use ele.Common.{ℕ, zero, suc, ◌≡◌, refl, List, [], ◌∷◌, ◌++◌, take, All, inl, inr, ◌⊎◌}
use ele.Log.{Cache, Write, put_block}

-- The disk after some writes, in their order.
abbrev pub after : List Write → Cache → Cache
after [] d = d
after ((b, v) ∷ ws) d = after ws (put_block b v d)

pub after-++ : (ws vs : List Write) (d : Cache) → after (ws ++ vs) d ≡ after vs (after ws d)
after-++ [] vs d = refl
after-++ ((b, v) ∷ ws) vs d = after-++ ws vs (put_block b v d)

-- A predicate on the disk that each of some writes keeps holds after any number of them.
abbrev pub Keeps : (Cache → Type 0) → List Write → Type 0
Keeps P ws = All (λ w. (d : Cache) → P d → P (put_block w.0 w.1 d)) ws

pub after-Keeps :
    (P : Cache → Type 0) (ws : List Write) (k : ℕ) (d : Cache)
    → Keeps P ws
    → P d
    → P (after (take k ws) d)
after-Keeps P [] zero d h p = p
after-Keeps P [] (suc k) d h p = p
after-Keeps P ((b, v) ∷ ws) zero d h p = p
after-Keeps P ((b, v) ∷ ws) (suc k) d h p = after-Keeps P ws k (put_block b v d) h.1 (h.0 d p)

pub after-all :
    (P : Cache → Type 0) (ws : List Write) (d : Cache) → Keeps P ws → P d → P (after ws d)
after-all P [] d h p = p
after-all P ((b, v) ∷ ws) d h p = after-all P ws (put_block b v d) h.1 (h.0 d p)

-- The same of some writes and what follows: as long as the first go on, `P` holds, and when they have
-- ended there are fewer of the others to make.
pub after-take-++ :
    (ws vs : List Write) (k : ℕ) (d : Cache)
    → (after (take k (ws ++ vs)) d ≡ after (take k ws) d)
      ⊎ ((j : ℕ) × (after (take k (ws ++ vs)) d ≡ after (take j vs) (after ws d)))
after-take-++ [] vs k d = inr (k, refl)
after-take-++ ((b, v) ∷ ws) vs zero d = inl refl
after-take-++ ((b, v) ∷ ws) vs (suc k) d = after-take-++ ws vs k (put_block b v d)
