-- ===== src/Tasks/Limit.antt =====
-- The memory limit of project02/xv6-public/proc.c.
use ele.Common.{
  ℕ, ◌+◌, ◌/◌, ◌%◌, ◌^◌, ◌<◌, ◌≤◌, ◌≡◌, ap, ◌∙◌, true, not, ◌&&◌, if◌then◌else◌, ◌==◌, ltb, some,
  List, arith, ℤ, pos, negsuc, get_elem?, get_elem?-modify, modify, find_index,
}
use ele.Tasks.{Process, has_id, limit_ok, limited, setmemorylimit, growproc}

-- The process that a call names, and what the call does to the table.
limit-some :
    (pid limit : ℤ) (ps : List Process) (i : ℕ) (p : Process)
    → find_index (has_id pid) ps ≡ some i
    → get_elem? ps i ≡ some p
    → setmemorylimit pid limit ps
      ≡ (if limit_ok limit p then (pos 0, modify ps i (limited limit)) else (negsuc 0, ps))
unfolding setmemorylimit
limit-some pid limit ps i p f e = rw (setmemorylimit, f, e)

-- `setmemorylimit` takes a limit as a number of pages, and `growproc` as a number of bytes. Given is a
-- process, the first with the id, whose size in bytes is above the limit and in whole pages is not. Then
-- `setmemorylimit` accepts the limit; and `growproc` afterwards refuses every growth of the process, leaves it as it
-- is, and returns with the lock of the table held.
pub setmemorylimit-growproc :
    {M : Type 0} (allocuvm deallocuvm : ℕ → ℕ → ℕ → M → ℕ × M) (m : M) (pid : ℤ) (limit n i : ℕ)
    (ps : List Process) (p : Process)
    → find_index (has_id pid) ps ≡ some i
    → get_elem? ps i ≡ some p
    → p.sz / 4096 ≤ limit
    → 0 < limit
    → limit < p.sz
    → p.sz + n < 2 ^ 32
    → (setmemorylimit pid (pos limit) ps ≡ (pos 0, modify ps i (limited (pos limit))))
      × (get_elem? (modify ps i (limited (pos limit))) i ≡ some (limited (pos limit) p))
      × (growproc allocuvm deallocuvm (pos n) (limited (pos limit) p) m
          ≡ record { result = negsuc 0; process = limited (pos limit) p; mem = m; held = true })
unfolding growproc limit_ok
setmemorylimit-growproc {M} allocuvm deallocuvm m pid limit n i ps p f e pages some_limit above
      small =
    (
      limit-some pid (pos limit) ps i p f e
          ∙ ap (λ b. if b then (pos 0, modify ps i (limited (pos limit))) else (negsuc 0, ps))
              (accepted p limit pages),
      get_elem?-modify ps i i (limited (pos limit)) ∙ rw e (ground arith),
      refused (limited (pos limit) p) n (over_limit p.sz limit n some_limit above small),
    )
  where
    accepted : (p : Process) (limit : ℕ) → p.sz / 4096 ≤ limit → limit_ok (pos limit) p ≡ true
    accepted p limit h = ground arith

    over_limit :
        (sz limit n : ℕ)
        → 0 < limit
        → limit < sz
        → sz + n < 2 ^ 32
        → (not (limit == 0) && ltb limit ((sz + n % 2 ^ 32) % 2 ^ 32)) ≡ true
    over_limit sz limit n a b c = ground arith

    refused :
        (p : Process) (n : ℕ)
        → (not (p.sz_limit == 0) && ltb p.sz_limit ((p.sz + n % 2 ^ 32) % 2 ^ 32)) ≡ true
        → growproc allocuvm deallocuvm (pos n) p m
          ≡ record { result = negsuc 0; process = p; mem = m; held = true }
    refused p n h = rw (growproc, h)
