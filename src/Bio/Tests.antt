-- ===== src/Bio/Tests.antt =====
-- bio.c on three buffers: one in use, one with data to be written, one idle.
use mathlib.Core.Option.{some_inj, none-ne-some}
use ele.Common.{
  ℕ, zero, suc, ◌≡◌, ◌==◌, if◌then◌else◌, sym, ap, ◌∙◌, refl, true, false, none, some, List, [],
  ◌∷◌, get_elem?, modify, find_index,
}
use ele.Bio.{Buf, bget, brelse, find_last, remove_at, recycled}
use ele.Bio.Order.{Got, bget-Got}
use ele.Bio.Unique.{IsUnique, IsBuffer, bget-IsUnique}

abbrev used : Buf
used = record {
  slot = 0;
  dev = 1;
  blockno = 5;
  valid = true;
  dirty = false;
  refcnt = 1;
  holder = some 4;
}

abbrev logged : Buf
logged = record used { slot = 1; blockno = 6; dirty = true; refcnt = 0; holder = none }

abbrev idle : Buf
idle = record used { slot = 2; blockno = 7; refcnt = 0; holder = none }

abbrev buffers : List Buf
buffers = used ∷ idle ∷ logged ∷ []

abbrev place_of : ℕ → ℕ
place_of n = if n == 5 then 0 else if n == 7 then 1 else 2

place_of_lem : (i : ℕ) (p : Buf) → get_elem? buffers i ≡ some p → place_of p.blockno ≡ i
place_of_lem zero p e = rw (← some_inj.0 e) refl
place_of_lem (suc zero) p e = rw (← some_inj.0 e) refl
place_of_lem (suc (suc zero)) p e = rw (← some_inj.0 e) refl
place_of_lem (suc (suc (suc i))) p e = absurd (none-ne-some p e)

buffers-IsUnique : IsUnique buffers
buffers-IsUnique i j p q at_i at_j d n nz =
    sym (place_of_lem i p at_i) ∙ ap place_of n ∙ place_of_lem j q at_j

bget-Got_example : Got 1 9 buffers (bget 1 9 buffers)
bget-Got_example = bget-Got 1 9 buffers

bget-IsUnique_example : IsBuffer 1 9 buffers (used ∷ recycled 1 9 idle ∷ logged ∷ []) 1
unfolding bget find_last find_index modify
bget-IsUnique_example =
    bget-IsUnique 1 9 buffers 1 (used ∷ recycled 1 9 idle ∷ logged ∷ []) buffers-IsUnique refl

-- A buffer that is given back comes to the front, if its holder gives it back.
brelse_runs :
    brelse 4 1 (idle ∷ used ∷ []) ≡ some (record used { refcnt = 0; holder = none } ∷ idle ∷ [])
unfolding brelse remove_at
brelse_runs = refl

brelse_by_other : brelse 5 1 (idle ∷ used ∷ []) ≡ none
unfolding brelse
brelse_by_other = refl
