-- ===== src/Bio/Unique.antt =====
-- bio.c: a block has one buffer in the cache, and a buffer in use keeps its block.
use mathlib.Core.Option.{some_inj, none-ne-some}
use ele.Common.{
  ℕ, ◌≡◌, ◌≢◌, refl, sym, ap, subst, ◌∙◌, true, false, some, List, arith, All-get_elem?, get_elem?,
  get_elem?-set_cases, get_elem?-set_self, get_elem?-lt, set, inl, inr,
}
use ele.Bio.{Buf, holds, is_idle, grabbed, recycled, bget}
use ele.Bio.Order.{cached, taken, full, bget-Got}

-- No two buffers hold the same block; those of device 0 have not been used yet.
abbrev pub IsUnique : List Buf → Type 0
IsUnique bs =
    (i j : ℕ) (p q : Buf)
    → get_elem? bs i ≡ some p
    → get_elem? bs j ≡ some q
    → p.dev ≡ q.dev
    → p.blockno ≡ q.blockno
    → p.dev ≢ 0
    → i ≡ j

-- One buffer is written, whose block no other holds.
IsUnique-set :
    (bs : List Buf) (i : ℕ) (x : Buf)
    → IsUnique bs
    → ((j : ℕ) (q : Buf)
        → get_elem? bs j ≡ some q
        → x.dev ≡ q.dev
        → x.blockno ≡ q.blockno
        → x.dev ≢ 0
        → i ≡ j)
    → IsUnique (set bs i x)
IsUnique-set bs i x u sep a b p q at_a at_b d n used = elim (get_elem?-set_cases bs i a x at_a) [
  | inl (ia, e) ↦ elim (get_elem?-set_cases bs i b x at_b) [
    | inl (ib, f) ↦ ia ∙ sym ib
    | inr (nb, old) ↦
        ia
        ∙ sep b q old (ap (λ (z : Buf). z.dev) e ∙ d) (ap (λ (z : Buf). z.blockno) e ∙ n)
            (subst (λ (z : Buf). z.dev ≢ 0) (sym e) used)
  ]
  | inr (na, was) ↦ elim (get_elem?-set_cases bs i b x at_b) [
    | inl (ib, f) ↦ sym (
        ib
        ∙ sep a p was (ap (λ (z : Buf). z.dev) f ∙ sym d) (ap (λ (z : Buf). z.blockno) f ∙ sym n)
            (λ zero_dev. used (d ∙ sym (ap (λ (z : Buf). z.dev) f) ∙ zero_dev)))
    | inr (nb, old) ↦ u a b p q was old d n used
  ]
]

-- A buffer that holds another block.
other_block :
    (dev blockno : ℕ) (q : Buf) → holds dev blockno q ≡ false → dev ≡ q.dev → blockno ≢ q.blockno
other_block dev blockno q h d n = ground arith

-- What `bget` does to a buffer: its block stays unless the buffer was idle.
abbrev pub KeepsUsed : List Buf → List Buf → Type 0
KeepsUsed bs cs =
    (j : ℕ) (b c : Buf)
    → get_elem? bs j ≡ some b
    → get_elem? cs j ≡ some c
    → is_idle b ≡ false
    → (c.dev ≡ b.dev) × (c.blockno ≡ b.blockno)

KeepsUsed-set :
    (bs : List Buf) (k : ℕ) (p x : Buf)
    → get_elem? bs k ≡ some p
    → (is_idle p ≡ false → (x.dev ≡ p.dev) × (x.blockno ≡ p.blockno))
    → KeepsUsed bs (set bs k x)
KeepsUsed-set bs k p x at same j b c at_b at_c busy = elim (get_elem?-set_cases bs k j x at_c) [
  | inr (off, old) ↦
      let e = some_inj.0 (sym old ∙ at_b) in
      (ap (λ (z : Buf). z.dev) e, ap (λ (z : Buf). z.blockno) e)
  | inl (here, new) ↦
      let e = some_inj.0 (sym at ∙ subst (λ j. get_elem? bs j ≡ some b) here at_b) in
      let (d, n) = same (subst (λ z. is_idle z ≡ false) (sym e) busy) in
      (
        sym (ap (λ (z : Buf). z.dev) new) ∙ d ∙ ap (λ (z : Buf). z.dev) e,
        sym (ap (λ (z : Buf). z.blockno) new) ∙ n ∙ ap (λ (z : Buf). z.blockno) e,
      )
]

holds-key :
    (dev blockno : ℕ) (p : Buf) → holds dev blockno p ≡ true → (p.dev ≡ dev) × (p.blockno ≡ blockno)
holds-key dev blockno p h = (ground arith, ground arith)

busy_idle : (p : Buf) → is_idle p ≡ true → is_idle p ≢ false
busy_idle p h k = ground arith

pub record IsBuffer (dev blockno : ℕ) (bs cs : List Buf) (i : ℕ) : Type 0 where
  pub buffer : Buf
  pub at_place : get_elem? cs i ≡ some buffer
  pub its_dev : buffer.dev ≡ dev
  pub its_block : buffer.blockno ≡ blockno
  pub unique : IsUnique cs
  pub kept : KeepsUsed bs cs

-- Given are buffers of which no two hold the same block. When `bget` does not panic, the buffer that it
-- gives holds the block it was asked for, no two buffers hold the same block still, and each
-- buffer that was referred to or had something to be written holds the block that it held.
pub bget-IsUnique :
    (dev blockno : ℕ) (bs : List Buf) (i : ℕ) (cs : List Buf)
    → IsUnique bs
    → bget dev blockno bs ≡ some (i, cs)
    → IsBuffer dev blockno bs cs i
bget-IsUnique dev blockno bs i cs u e = elim (bget-Got dev blockno bs) [
  | full h k none_left ↦ absurd (none-ne-some (i, cs) (sym none_left ∙ e))
  | cached k f r ↦
      let (d, n) = holds-key dev blockno f.item f.passes in
      subst (λ z. IsBuffer dev blockno bs z.1 z.0) (some_inj.0 (sym r ∙ e))
        (record {
          buffer = grabbed f.item;
          at_place = get_elem?-set_self bs k (grabbed f.item) (get_elem?-lt bs k f.item f.found);
          its_dev = d;
          its_block = n;
          unique =
              IsUnique-set bs k (grabbed f.item) u
                (λ j q at same_d same_n used. u k j f.item q f.found at same_d same_n used);
          kept = KeepsUsed-set bs k f.item (grabbed f.item) f.found (λ b. (refl, refl));
        })
  | taken k l h r ↦
      let x = recycled dev blockno l.item in
      subst (λ z. IsBuffer dev blockno bs z.1 z.0) (some_inj.0 (sym r ∙ e))
        (record {
          buffer = x;
          at_place = get_elem?-set_self bs k x (get_elem?-lt bs k l.item l.found);
          its_dev = refl;
          its_block = refl;
          unique = IsUnique-set bs k x u (λ j q at same_d same_n used. absurd (
              other_block dev blockno q (All-get_elem? (λ b. holds dev blockno b ≡ false) bs j h at)
                same_d same_n));
          kept = KeepsUsed-set bs k l.item x l.found (λ b. absurd (busy_idle l.item l.passes b));
        })
]
