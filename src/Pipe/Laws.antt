-- ===== src/Pipe/Laws.antt =====
-- `pipewrite` and `piperead` of pipe.c against a queue of at most 512 bytes.
use mathlib.Core.List.{append-nil, append_assoc}
use ele.Common.{
  ℕ, zero, suc, ◌-◌, ◌<◌, ◌≡◌, refl, sym, ap, ◌∙◌, Bool, true, false, ◌&&◌, ◌||◌, not,
  if◌then◌else◌, List, [], ◌∷◌, ◌++◌, arith, leb, ◌==◌, length, length-zero, take, take-nil, drop,
  Bool-cases, inl, inr,
}
use ele.Pipe.{
  pipe_size, Pipe, is_full, is_empty, put, front, advance, WriteEnd, wrote, refused, write_waits,
  pipewrite, copy_out, ReadEnd, got, read_refused, read_waits, piperead,
}
use ele.Pipe.Ring.{
  waiting, IsValid, contents, is_full_lem, is_empty_lem, waiting-put, put-IsValid, advance-IsValid,
  contents-put, contents-advance, length-contents,
}

-- The room that is left.
abbrev pub room : Pipe → ℕ
room p = pipe_size - waiting p

-- How a write of `cs` into a pipe with room `n` ends.
abbrev pub write_end : Bool → Pipe → ℕ → List ℕ → WriteEnd
write_end killed p n cs =
    if leb (length cs) n
    then wrote
    else if not p.readopen || killed
    then refused
    else write_waits (drop n cs)

record Written (killed : Bool) (p : Pipe) (cs : List ℕ) (r : Pipe × WriteEnd) : Type 0 where
  valid : IsValid r.0
  bytes : contents r.0 ≡ contents p ++ take (room p) cs
  result : r.1 ≡ write_end killed p (room p) cs
  readers : r.0.readopen ≡ p.readopen
  writers : r.0.writeopen ≡ p.writeopen

pipewrite-full :
    (killed : Bool) (p : Pipe) (c : ℕ) (cs : List ℕ)
    → is_full p ≡ true
    → pipewrite killed p (c ∷ cs)
      ≡ (p, if not p.readopen || killed then refused else write_waits (c ∷ cs))
unfolding pipewrite
pipewrite-full killed p c cs e = rw (e, pipewrite)

pipewrite-step :
    (killed : Bool) (p : Pipe) (c : ℕ) (cs : List ℕ)
    → is_full p ≡ false
    → pipewrite killed p (c ∷ cs) ≡ pipewrite killed (put p c) cs
unfolding pipewrite
pipewrite-step killed p c cs e = rw (e, pipewrite)

write_end-step :
    (killed : Bool) (p : Pipe) (n c : ℕ) (cs : List ℕ)
    → write_end killed p n cs ≡ write_end killed p (suc n) (c ∷ cs)
write_end-step killed p n c cs = ground arith

Written-full :
    (killed : Bool) (p : Pipe) (c : ℕ) (cs : List ℕ)
    → IsValid p
    → waiting p ≡ pipe_size
    → Written killed p
        (c ∷ cs)
        (p, if not p.readopen || killed then refused else write_waits (c ∷ cs))
Written-full killed p c cs v full =
    let none_left : room p ≡ 0 = omega arith in
    record {
      valid = v;
      bytes = sym (ap (λ n. contents p ++ take n (c ∷ cs)) none_left ∙ append-nil (contents p));
      result = sym (ap (λ n. write_end killed p n (c ∷ cs)) none_left ∙ ground arith);
      readers = refl;
      writers = refl;
    }

Written-step :
    (killed : Bool) (p : Pipe) (c : ℕ) (cs : List ℕ) (r : Pipe × WriteEnd)
    → IsValid p
    → waiting p < pipe_size
    → Written killed (put p c) cs r
    → Written killed p (c ∷ cs) r
unfolding put
Written-step killed p c cs r v few w =
    let less : room p ≡ suc (room (put p c)) = omega (arith, waiting-put p c v few) in
    record {
      valid = w.valid;
      bytes =
          w.bytes
          ∙ ap (λ l. l ++ take (room (put p c)) cs) (contents-put p c v few)
          ∙ append_assoc (contents p) (c ∷ []) (take (room (put p c)) cs)
          ∙ ap (λ n. contents p ++ take n (c ∷ cs)) (sym less);
      result =
          w.result
          ∙ write_end-step killed p (room (put p c)) c cs
          ∙ ap (λ n. write_end killed p n (c ∷ cs)) (sym less);
      readers = w.readers;
      writers = w.writers;
    }

pipewrite-Written :
    (killed : Bool) (p : Pipe) (cs : List ℕ)
    → IsValid p
    → Written killed p cs (pipewrite killed p cs)
unfolding pipewrite
pipewrite-Written killed p [] v = record {
  valid = v;
  bytes = sym (ap (λ l. contents p ++ l) (take-nil ℕ (room p)) ∙ append-nil (contents p));
  result = ground arith;
  readers = refl;
  writers = refl;
}
pipewrite-Written killed p (c ∷ cs) v = elim (Bool-cases (is_full p)) [
  | inl full ↦
      rw (pipewrite-full killed p c cs full)
        (Written-full killed p c cs v ((is_full_lem p v).0 full))
  | inr free ↦
      let few = (is_full_lem p v).1 free in
      rw (pipewrite-step killed p c cs free) (
        Written-step killed p c cs _ v few
          (pipewrite-Written killed (put p c) cs (put-IsValid p c v few)))
]

-- `pipewrite` on a valid pipe appends to the bytes that wait as many of its own as there is room for,
-- in order, and leaves the pipe valid and its ends as they were. It returns if that is all of them;
-- otherwise it fails if no reader is left or the process has been killed, and else sleeps with
-- exactly the bytes for which there was no room.
pub pipewrite_lem :
    (killed : Bool) (p : Pipe) (cs : List ℕ)
    → IsValid p
    → let (p', end) = pipewrite killed p cs in
      IsValid p'
      × (contents p' ≡ contents p ++ take (room p) cs)
      × (end ≡ write_end killed p (room p) cs)
      × (p'.readopen ≡ p.readopen)
      × (p'.writeopen ≡ p.writeopen)
pipewrite_lem killed p cs v =
    let w = pipewrite-Written killed p cs v in (w.valid, w.bytes, w.result, w.readers, w.writers)

record Copied (n : ℕ) (p : Pipe) (r : List ℕ × Pipe) : Type 0 where
  valid : IsValid r.1
  bytes : r.0 ≡ take n (contents p)
  rest : contents r.1 ≡ drop n (contents p)
  readers : r.1.readopen ≡ p.readopen
  writers : r.1.writeopen ≡ p.writeopen

advance-ends :
    (p : Pipe) → ((advance p).readopen ≡ p.readopen) × ((advance p).writeopen ≡ p.writeopen)
unfolding advance
advance-ends p = (refl, refl)

copy_out-empty : (n : ℕ) (p : Pipe) → is_empty p ≡ true → copy_out (suc n) p ≡ ([], p)
unfolding copy_out
copy_out-empty n p e = rw (e, copy_out)

copy_out-step :
    (n : ℕ) (p : Pipe)
    → is_empty p ≡ false
    → copy_out (suc n) p ≡ (front p ∷ (copy_out n (advance p)).0, (copy_out n (advance p)).1)
unfolding copy_out
copy_out-step n p e = rw (e, copy_out)

contents-empty : (p : Pipe) → waiting p ≡ 0 → contents p ≡ []
contents-empty p e = length-zero (contents p) (length-contents p ∙ e)

copy_out-Copied : (n : ℕ) (p : Pipe) → IsValid p → Copied n p (copy_out n p)
unfolding copy_out
copy_out-Copied zero p v = record {
  valid = v;
  bytes = refl;
  rest = refl;
  readers = refl;
  writers = refl;
}
copy_out-Copied (suc n) p v = elim (Bool-cases (is_empty p)) [
  | inl over ↦
      let nil = contents-empty p ((is_empty_lem p v).0 over) in
      rw (copy_out-empty n p over) (record {
        valid = v;
        bytes = sym (ap (take (suc n)) nil);
        rest = nil ∙ sym (ap (drop (suc n)) nil);
        readers = refl;
        writers = refl;
      })
  | inr more ↦
      let some_left = (is_empty_lem p v).1 more in
      let c = copy_out-Copied n (advance p) (advance-IsValid p v some_left) in
      let split = contents-advance p v some_left in
      rw (copy_out-step n p more) (record {
        valid = c.valid;
        bytes = ap (λ l. front p ∷ l) c.bytes ∙ sym (ap (take (suc n)) split);
        rest = c.rest ∙ sym (ap (drop (suc n)) split);
        readers = c.readers ∙ (advance-ends p).0;
        writers = c.writers ∙ (advance-ends p).1;
      })
]

-- How a read of at most `n` bytes ends.
abbrev pub read_end : Bool → Pipe → ℕ → ReadEnd
read_end killed p n =
    if (waiting p == 0) && p.writeopen
    then if killed then read_refused else read_waits
    else got (take n (contents p))

record Read (killed : Bool) (p : Pipe) (n : ℕ) (r : Pipe × ReadEnd) : Type 0 where
  valid : IsValid r.0
  result : r.1 ≡ read_end killed p n
  rest :
      contents r.0 ≡ (if (waiting p == 0) && p.writeopen then contents p else drop n (contents p))
  readers : r.0.readopen ≡ p.readopen
  writers : r.0.writeopen ≡ p.writeopen

is_empty-waiting : (p : Pipe) → IsValid p → is_empty p ≡ (waiting p == 0)
is_empty-waiting p v = elim (Bool-cases (is_empty p)) [
  | inl over ↦ ground (arith, (is_empty_lem p v).0 over)
  | inr more ↦ ground (arith, (is_empty_lem p v).1 more)
]

piperead-Read :
    (killed : Bool) (p : Pipe) (n : ℕ) → IsValid p → Read killed p n (piperead killed p n)
unfolding piperead
piperead-Read killed p n v =
    let c = copy_out-Copied n p v in
    rw (is_empty-waiting p v) (elim (Bool-cases ((waiting p == 0) && p.writeopen)) [
      | inl idle ↦
          rw idle
            (record { valid = v; result = rw idle; rest = rw idle; readers = refl; writers = refl })
      | inr busy ↦ rw busy (record {
        valid = c.valid;
        result = rw busy (ap got c.bytes);
        rest = rw busy c.rest;
        readers = c.readers;
        writers = c.writers;
      })
    ])

-- `piperead` on a valid pipe, for at most `n` bytes: if no byte waits and a writer is left, it changes
-- nothing and fails if the process has been killed, else sleeps. Otherwise it returns the first
-- `n` of the bytes that wait, or all if they are fewer, and leaves the others waiting. The pipe stays
-- valid and its ends as they were.
pub piperead_lem :
    (killed : Bool) (p : Pipe) (n : ℕ)
    → IsValid p
    → let (p', end) = piperead killed p n in
      IsValid p'
      × (end ≡ read_end killed p n)
      × (contents p'
          ≡ (if (waiting p == 0) && p.writeopen then contents p else drop n (contents p)))
      × (p'.readopen ≡ p.readopen)
      × (p'.writeopen ≡ p.writeopen)
piperead_lem killed p n v =
    let r = piperead-Read killed p n v in (r.valid, r.result, r.rest, r.readers, r.writers)
