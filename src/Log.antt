-- ===== src/Log.antt =====
-- log.c, the same in both projects: the redo log of the file system. A block is its words, the block
-- cache is what `bread` finds, and each function gives the disk writes that it makes, in their order.
pub mod Disk
pub mod Traces
pub mod Crash
pub mod Atomic
pub mod Space
mod Tests
use ele.Common.{
  ℕ, zero, suc, ◌+◌, ◌-◌, ◌*◌, ◌==◌, ltb, leb, Bool, true, false, ◌||◌, if◌then◌else◌, Option, none,
  some, List, [], ◌∷◌, ◌++◌, length, take, set, find_index,
}

abbrev pub Block : Type 0
Block = List ℕ

abbrev pub Cache : Type 0
Cache = ℕ → Block

abbrev pub Write : Type 0
Write = ℕ × Block

-- The cache after the data of one block has been set.
abbrev pub put_block : ℕ → Block → Cache → Cache
put_block b v c = λ a. if b == a then v else c a

abbrev pub logsize : ℕ
logsize = 30

abbrev pub maxopblocks : ℕ
maxopblocks = 10

-- `struct log`; `blocks` are the first `n` entries of the header in memory.
pub record Log : Type 0 where
  pub start : ℕ
  pub size : ℕ
  pub outstanding : ℕ
  pub committing : Bool
  pub blocks : List ℕ

-- The loop of `write_log` from entry `tail` on.
unfoldable pub write_log : ℕ → ℕ → List ℕ → Cache → Cache × List Write
write_log start tail [] c = (c, [])
write_log start tail (b ∷ bs) c =
    let (c', ws) = write_log start (suc tail) bs (put_block (start + tail + 1) (c b) c) in
    (c', (start + tail + 1, c b) ∷ ws)

-- The loop of `install_trans` from entry `tail` on.
unfoldable pub install_trans : ℕ → ℕ → List ℕ → Cache → Cache × List Write
install_trans start tail [] c = (c, [])
install_trans start tail (b ∷ bs) c =
    let (c', ws) = install_trans start (suc tail) bs (put_block b (c (start + tail + 1)) c) in
    (c', (b, c (start + tail + 1)) ∷ ws)

-- Words written from the start of a block on; a header fits in its block.
unfoldable pub put_words : List ℕ → Block → Block
put_words [] b = b
put_words (w ∷ ws) [] = []
put_words (w ∷ ws) (x ∷ b) = w ∷ put_words ws b

abbrev pub head_block : List ℕ → Block → Block
head_block bs b = put_words (length bs ∷ bs) b

unfoldable pub write_head : ℕ → List ℕ → Cache → Cache × List Write
write_head start bs c =
    (put_block start (head_block bs (c start)) c, (start, head_block bs (c start)) ∷ [])

abbrev pub head_words : Block → List ℕ
head_words [] = []
head_words (n ∷ ws) = take n ws

unfoldable pub read_head : ℕ → Cache → List ℕ
read_head start c = head_words (c start)

-- `recover_from_log`
unfoldable pub recover : ℕ → Cache → Cache × List Write
unfolding read_head
recover start c =
    let (c1, ws) = install_trans start 0 (read_head start c) c in
    let (c2, hs) = write_head start [] c1 in (c2, ws ++ hs)

-- `commit`, for the blocks of the header in memory, which is empty afterwards.
unfoldable pub commit : ℕ → List ℕ → Cache → Cache × List Write
commit start [] c = (c, [])
commit start (b ∷ bs) c =
    let (c1, ws) = write_log start 0 (b ∷ bs) c in
    let (c2, hs) = write_head start (b ∷ bs) c1 in
    let (c3, vs) = install_trans start 0 (b ∷ bs) c2 in
    let (c4, es) = write_head start [] c3 in (c4, ws ++ (hs ++ (vs ++ es)))

-- One turn of the loop of `begin_op`; `none` as it sleeps.
unfoldable pub begin_op : Log → Option Log
begin_op l =
    if l.committing || ltb logsize (length l.blocks + (l.outstanding + 1) * maxopblocks)
    then none
    else some (record l { outstanding = l.outstanding + 1 })

-- `end_op` up to the commit: whether the caller commits. `none` is the panic, or an end without a
-- begin.
unfoldable pub end_op : Log → Option (Bool × Log)
end_op l =
    if l.committing || (l.outstanding == 0)
    then none
    else if l.outstanding == 1
    then some (true, record l { outstanding = 0; committing = true })
    else some (false, record l { outstanding = l.outstanding - 1 })

-- `end_op` after the commit.
unfoldable pub finish_commit : Log → Log
finish_commit l = record l { committing = false; blocks = [] }

-- A block number in the header; one that is there is not added again.
unfoldable pub absorb : ℕ → List ℕ → List ℕ
absorb b bs = elim (find_index (λ a. a == b) bs) [ none ↦ bs ++ (b ∷ []) | some i ↦ set bs i b ]

-- `log_write` for block `b`; `none` is a panic.
unfoldable pub log_write : ℕ → Log → Option Log
log_write b l =
    if leb logsize (length l.blocks) || leb (l.size - 1) (length l.blocks)
    then none
    else if ltb l.outstanding 1
    then none
    else some (record l { blocks = absorb b l.blocks })
