-- ===== src/Bio/Order.antt =====
-- bio.c: which buffer `bget` gives, and that a block has one buffer.
use mathlib.Core.Option.{some_inj, none-ne-some}
use ele.Common.{
  ℕ, zero, suc, ◌+◌, ◌%◌, ◌^◌, ◌<◌, ◌≡◌, refl, sym, ap, subst, ◌∙◌, Bool, true, false,
  if◌then◌else◌, Option, none, some, List, [], ◌∷◌, arith, All, All-get_elem?, get_elem?, set,
  modify, modify-eq-set, find_index, find_index-some, find_index-none, IsFirst, Option-cases, inl,
  inr,
}
use ele.Bio.{Buf, holds, is_idle, grabbed, recycled, find_last, bget}

-- What a search from the end finds: the last that passes.
pub record IsLast (test : Buf → Bool) (bs : List Buf) (i : ℕ) : Type 0 where
  pub item : Buf
  pub found : get_elem? bs i ≡ some item
  pub passes : test item ≡ true
  pub later : (j : ℕ) (b : Buf) → i < j → get_elem? bs j ≡ some b → test b ≡ false

abbrev first_if : Bool → Option ℕ
first_if true = some 0
first_if false = none

find_last-tail :
    (test : Buf → Bool) (c : Buf) (bs : List Buf) (i : ℕ)
    → find_last test bs ≡ some i
    → find_last test (c ∷ bs) ≡ some (suc i)
unfolding find_last
find_last-tail test c bs i h = rw (find_last, h)

find_last-head :
    (test : Buf → Bool) (c : Buf) (bs : List Buf)
    → find_last test bs ≡ none
    → find_last test (c ∷ bs) ≡ first_if (test c)
unfolding find_last
find_last-head test c bs h = rw (find_last, h) (as_if (test c))
  where
    as_if : (b : Bool) → (if b then some zero else none) ≡ first_if b
    as_if true = refl
    as_if false = refl

no_index : (b : Bool) → first_if b ≡ none → b ≡ false
no_index true e = cc
no_index false e = refl

an_index : (b : Bool) (i : ℕ) → first_if b ≡ some i → (b ≡ true) × (i ≡ 0)
an_index true i e = (refl, sym (some_inj.0 e))
an_index false i e = cc

find_last-none :
    (test : Buf → Bool) (bs : List Buf) → find_last test bs ≡ none → All (λ b. test b ≡ false) bs
unfolding find_last
find_last-none test [] e = tt
find_last-none test (c ∷ bs) e = elim (Option-cases (find_last test bs)) [
  | inr (i, h) ↦ absurd (none-ne-some (suc i) (sym e ∙ find_last-tail test c bs i h))
  | inl h ↦ (no_index (test c) (sym (find_last-head test c bs h) ∙ e), find_last-none test bs h)
]

find_last-some :
    (test : Buf → Bool) (bs : List Buf) (i : ℕ) → find_last test bs ≡ some i → IsLast test bs i
unfolding find_last
find_last-some test [] i e = cc
find_last-some test (c ∷ bs) i e = elim (Option-cases (find_last test bs)) [
  | inr (k, h) ↦
      subst (IsLast test (c ∷ bs)) (some_inj.0 (sym (find_last-tail test c bs k h) ∙ e))
        (deeper k (find_last-some test bs k h))
  | inl h ↦
      let (yes_c, zero_i) = an_index (test c) i (sym (find_last-head test c bs h) ∙ e) in
      subst (IsLast test (c ∷ bs)) (sym zero_i) (record {
        item = c;
        found = refl;
        passes = yes_c;
        later = none_later (find_last-none test bs h);
      })
]
  where
    deeper : (k : ℕ) → IsLast test bs k → IsLast test (c ∷ bs) (suc k)
    deeper k r = record {
      item = r.item;
      found = r.found;
      passes = r.passes;
      later = λ j b l at.
          elim j as (λ j. suc k < j → get_elem? (c ∷ bs) j ≡ some b → test b ≡ false) [
            | zero ↦ λ l at. absurd (omega arith)
            | suc j ↦ λ l at. r.later j b (omega (arith, l)) at
          ]
            l at;
    }

    none_later :
        All (λ b. test b ≡ false) bs
        → (j : ℕ) (b : Buf) → 0 < j
        → get_elem? (c ∷ bs) j ≡ some b
        → test b ≡ false
    none_later all zero b l at = absurd (omega arith)
    none_later all (suc j) b l at = All-get_elem? (λ b. test b ≡ false) bs j all at

-- How `bget` comes to its buffer.
pub data Got (dev blockno : ℕ) (bs : List Buf) (r : Option (ℕ × List Buf)) : Type 0 where
  cached :
      (i : ℕ) (f : IsFirst (holds dev blockno) bs i)
      → r ≡ some (i, set bs i (record f.item { refcnt = (f.item.refcnt + 1) % 2 ^ 32 }))
      → Got dev blockno bs r
  taken :
      (i : ℕ) (l : IsLast is_idle bs i)
      → All (λ b. holds dev blockno b ≡ false) bs
      → r
        ≡ some (
          i,
          set bs i (record l.item {
            dev = dev;
            blockno = blockno;
            valid = false;
            dirty = false;
            refcnt = 1;
          }),
        )
      → Got dev blockno bs r
  full :
      All (λ b. holds dev blockno b ≡ false) bs
      → All (λ b. is_idle b ≡ false) bs
      → r ≡ none
      → Got dev blockno bs r

-- `bget` gives the first buffer that holds the block, with one reference more; or, as there is none, the
-- least recently used of the buffers that nobody refers to and that have nothing to be written, set
-- up for the block: its number and device are those asked for, it is neither valid nor dirty, and it
-- has one reference. It panics just as there is neither. No other buffer changes.
pub bget-Got : (dev blockno : ℕ) (bs : List Buf) → Got dev blockno bs (bget dev blockno bs)
unfolding bget
bget-Got dev blockno bs = elim (Option-cases (find_index (holds dev blockno) bs)) [
  | inr (i, h) ↦
      let f = find_index-some (holds dev blockno) bs i h in
      cached i f (bget-cached i h ∙ ap (λ l. some (i, l)) (modify-eq-set bs i grabbed f.found))
  | inl h ↦ elim (Option-cases (find_last is_idle bs)) [
    | inr (i, k) ↦
        let l = find_last-some is_idle bs i k in
        taken i l (find_index-none (holds dev blockno) bs h) (
          bget-taken i h k
          ∙ ap (λ l. some (i, l)) (modify-eq-set bs i (recycled dev blockno) l.found))
    | inl k ↦
        full (find_index-none (holds dev blockno) bs h) (find_last-none is_idle bs k)
          (rw (bget, h, k))
  ]
]
  where
    bget-cached :
        (i : ℕ)
        → find_index (holds dev blockno) bs ≡ some i
        → bget dev blockno bs ≡ some (i, modify bs i grabbed)
    bget-cached i h = rw (bget, h)

    bget-taken :
        (i : ℕ)
        → find_index (holds dev blockno) bs ≡ none
        → find_last is_idle bs ≡ some i
        → bget dev blockno bs ≡ some (i, modify bs i (recycled dev blockno))
    bget-taken i h k = rw (bget, h, k)
