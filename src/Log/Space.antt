-- ===== src/Log/Space.antt =====
-- log.c: how far the space that `begin_op` reserves is enough for the writes of a system call.
use ele.Common.{
  ℕ, suc, ◌+◌, ◌-◌, ◌*◌, ◌<◌, ◌≤◌, ◌≡◌, refl, ◌∙◌, Bool, true, false, ◌⊎◌, dec_lt, none, some, List,
  [], ◌∷◌, ◌++◌, arith, ◌==◌, if◌then◌else◌, length, length-set, All, find_index, Option-cases, inl,
  inr,
}
use ele.Log.{Log, logsize, maxopblocks, begin_op, end_op, finish_commit, absorb, log_write}

abbrev pub fresh : ℕ → ℕ → Log
fresh start size = record {
  start = start;
  size = size;
  outstanding = 0;
  committing = false;
  blocks = [];
}

-- A run of the log with system calls that each write at most `maxopblocks` times between their begin and their end: the
-- list holds how often each open call may still write.
pub data Runs (start size : ℕ) : List ℕ → Log → Type 0 where
  new : Runs start size [] (fresh start size)
  begins :
      (bs : List ℕ) (l l' : Log)
      → Runs start size bs l
      → begin_op l ≡ some l'
      → Runs start size (maxopblocks ∷ bs) l'
  writes :
      (pre post : List ℕ) (r b : ℕ) (l l' : Log)
      → Runs start size (pre ++ (suc r ∷ post)) l
      → log_write b l ≡ some l'
      → Runs start size (pre ++ (r ∷ post)) l'
  ends :
      (pre post : List ℕ) (r : ℕ) (commits : Bool) (l l' : Log)
      → Runs start size (pre ++ (r ∷ post)) l
      → end_op l ≡ some (commits, l')
      → Runs start size (pre ++ post) l'
  commits :
      (bs : List ℕ) (l : Log)
      → Runs start size bs l
      → l.committing ≡ true
      → Runs start size bs (finish_commit l)

unfoldable pub sum : List ℕ → ℕ
sum [] = 0
sum (x ∷ xs) = x + sum xs

-- What holds of every state of a run.
record IsReserved (size : ℕ) (bs : List ℕ) (l : Log) : Type 0 where
  count : length bs ≡ l.outstanding
  small : All (λ r. r ≤ maxopblocks) bs
  room : length l.blocks + sum bs ≤ logsize
  idle : l.committing ≡ true → l.outstanding ≡ 0
  same_size : l.size ≡ size

sum-++ : (xs ys : List ℕ) → sum (xs ++ ys) ≡ sum xs + sum ys
unfolding sum
sum-++ [] ys = omega arith
sum-++ (x ∷ xs) ys = omega (arith, sum-++ xs ys)

length-++ : (xs ys : List ℕ) → length (xs ++ ys) ≡ length xs + length ys
length-++ [] ys = omega arith
length-++ (x ∷ xs) ys = omega (arith, length-++ xs ys)

sum-small : (xs : List ℕ) → All (λ r. r ≤ maxopblocks) xs → sum xs ≤ length xs * maxopblocks
unfolding sum
sum-small [] h = omega arith
sum-small (x ∷ xs) h = omega (arith, sum-small xs h.1, h.0)

-- A split list.
All-middle :
    (P : ℕ → Type 0) (xs ys : List ℕ) (r : ℕ) → All P (xs ++ (r ∷ ys)) → P r × All P (xs ++ ys)
All-middle P [] ys r h = h
All-middle P (x ∷ xs) ys r h = let (p, q) = All-middle P xs ys r h.1 in (p, (h.0, q))

All-put :
    (P : ℕ → Type 0) (xs ys : List ℕ) (r : ℕ) → P r → All P (xs ++ ys) → All P (xs ++ (r ∷ ys))
All-put P [] ys r p h = (p, h)
All-put P (x ∷ xs) ys r p h = (h.0, All-put P xs ys r p h.1)

length-absorb : (b : ℕ) (bs : List ℕ) → length (absorb b bs) ≤ length bs + 1
unfolding absorb
length-absorb b bs = elim (Option-cases (find_index (λ a. a == b) bs)) [
  | inl e ↦ rw (absorb, e) (omega (arith, length-++ bs (b ∷ [])))
  | inr (i, e) ↦ rw (absorb, e) (omega (arith, length-set bs i b))
]

begin_op-some :
    (l l' : Log)
    → begin_op l ≡ some l'
    → (l.committing ≡ false)
      × (length l.blocks + (l.outstanding + 1) * maxopblocks ≤ logsize)
      × (l' ≡ record l { outstanding = l.outstanding + 1 })
unfolding begin_op
begin_op-some l l' e = ground arith

log_write-some :
    (b : ℕ) (l l' : Log)
    → log_write b l ≡ some l'
    → (0 < l.outstanding) × (l' ≡ record l { blocks = absorb b l.blocks })
unfolding log_write
log_write-some b l l' e = ground arith

-- The state after an end.
abbrev ended : Log → Log
ended l =
    if l.outstanding == 1
    then record l { outstanding = 0; committing = true }
    else record l { outstanding = l.outstanding - 1 }

end_op-some :
    (c : Bool) (l l' : Log)
    → end_op l ≡ some (c, l')
    → (l.committing ≡ false) × (0 < l.outstanding) × (l' ≡ ended l)
unfolding end_op
end_op-some c l l' e = ground arith

ended-out : (l : Log) → (ended l).outstanding ≡ l.outstanding - 1
ended-out l = ground arith

ended-same : (l : Log) → ((ended l).blocks ≡ l.blocks) × ((ended l).size ≡ l.size)
ended-same l = ground arith

ended-idle :
    (l : Log) → l.committing ≡ false → (ended l).committing ≡ true → (ended l).outstanding ≡ 0
ended-idle l c e = ground arith

log_write-lem :
    (b : ℕ) (l : Log)
    → 0 < l.outstanding
    → length l.blocks < logsize
    → length l.blocks + 1 < l.size
    → log_write b l ≡ some (record l { blocks = absorb b l.blocks })
unfolding log_write
log_write-lem b l o n s = ground arith

log_write-full : (b : ℕ) (l : Log) → l.size ≤ length l.blocks + 1 → log_write b l ≡ none
unfolding log_write
log_write-full b l full = ground arith

module _ (start size : ℕ) where
  reserved : (bs : List ℕ) (l : Log) → Runs start size bs l → IsReserved size bs l
  unfolding sum finish_commit
  reserved _ _ new = record {
    count = refl;
    small = tt;
    room = omega arith;
    idle = λ e. refl;
    same_size = refl;
  }
  reserved _ _ (begins bs' k l r e) =
      let h = reserved bs' k r in
      let (c, room, same) = begin_op-some k l e in
      rw same (record {
        count = omega (arith, h.count);
        small = (omega arith, h.small);
        room = omega (arith, h.count, room, sum-small bs' h.small);
        idle = λ t. absurd (ground (arith, c));
        same_size = h.same_size;
      })
  reserved _ _ (writes pre post r b k l run e) =
      let h = reserved (pre ++ (suc r ∷ post)) k run in
      let (o, same) = log_write-some b k l e in
      let (p, q) = All-middle (λ r. r ≤ maxopblocks) pre post (suc r) h.small in
      rw same (record {
        count = omega (arith, h.count, length-++ pre (r ∷ post), length-++ pre (suc r ∷ post));
        small = All-put (λ r. r ≤ maxopblocks) pre post r (omega (arith, p)) q;
        room = omega (
          arith,
          h.room,
          length-absorb b k.blocks,
          sum-++ pre (r ∷ post),
          sum-++ pre (suc r ∷ post),
        );
        idle = h.idle;
        same_size = h.same_size;
      })
  reserved _ _ (ends pre post r c k l run e) =
      let h = reserved (pre ++ (r ∷ post)) k run in
      let (idle, o, same) = end_op-some c k l e in
      let (p, q) = All-middle (λ r. r ≤ maxopblocks) pre post r h.small in
      let (sb, ss) = ended-same k in
      rw same (record {
        count = omega (arith, ended-out k, h.count, length-++ pre (r ∷ post), length-++ pre post);
        small = q;
        room = rw sb (omega (arith, h.room, sum-++ pre (r ∷ post), sum-++ pre post));
        idle = ended-idle k idle;
        same_size = ss ∙ h.same_size;
      })
  reserved _ _ (commits bs k run e) =
      let h = reserved bs k run in
      let nothing = h.idle e in
      record {
        count = h.count;
        small = h.small;
        room = omega (arith, h.count, nothing, sum-small bs h.small);
        idle = λ t. nothing;
        same_size = h.same_size;
      }

  -- In a log of at least `logsize` blocks, whatever begins, writes, ends and commits have been made: a system
  -- call that has made fewer than `maxopblocks` writes since its begin makes the next one without a panic,
  -- if the header has room for it; or `log_write` panics, and then the log has just `logsize` blocks, as
  -- mkfs.c makes it, its header holds one block less than that, and this is the last write that any call
  -- has left.
  pub log_write-room :
      (pre post : List ℕ) (r b : ℕ) (l : Log)
      → logsize ≤ size
      → Runs start size (pre ++ (suc r ∷ post)) l
      → ((length l.blocks + 1 < size)
          × (log_write b l ≡ some (record l { blocks = absorb b l.blocks })))
        ⊎ ((size ≡ logsize)
            × (length l.blocks + 1 ≡ logsize)
            × (sum (pre ++ (suc r ∷ post)) ≡ 1)
            × (log_write b l ≡ none))
  unfolding sum
  log_write-room pre post r b l big run =
      let h = reserved (pre ++ (suc r ∷ post)) l run in
      let more = sum-++ pre (suc r ∷ post) in
      elim (dec_lt (length l.blocks + 1) size) [
        | yes fits ↦ inl (
          fits,
          log_write-lem b l (omega (arith, h.count, length-++ pre (suc r ∷ post)))
              (omega (arith, h.room, more)) (omega (arith, h.same_size, fits)),
        )
        | no full ↦ inr (
          omega (arith, h.room, more, big, full),
          omega (arith, h.room, more, big, full),
          omega (arith, h.room, more, big, full),
          log_write-full b l (omega (arith, h.same_size, full)),
        )
      ]
