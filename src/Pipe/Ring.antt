-- ===== src/Pipe/Ring.antt =====
-- The ring of pipe.c as the list of the bytes that wait in it.
use ele.Common.{
  ℕ, zero, suc, ◌+◌, ◌-◌, ◌%◌, ◌^◌, ◌≤◌, ◌<◌, ◌≡◌, refl, ap, ◌∙◌, true, false, List, [], ◌∷◌, ◌++◌,
  arith, length, length-set, get_or, set, get_or-set_self, get_or-set_ne,
}
use ele.Pipe.{pipe_size, Pipe, add_uint, is_full, is_empty, put, front, advance}

-- How many bytes wait in the ring.
unfoldable pub waiting : Pipe → ℕ
waiting p = (p.nwrite + 2 ^ 32 - p.nread) % 2 ^ 32

pub record IsValid (p : Pipe) : Type 0 where
  pub room : length p.buf ≡ pipe_size
  pub read_word : p.nread < 2 ^ 32
  pub write_word : p.nwrite < 2 ^ 32
  pub few : waiting p ≤ pipe_size

-- The `n` bytes of `buf` from counter `r` on, going round.
unfoldable pub window : List ℕ → ℕ → ℕ → List ℕ
window buf r zero = []
window buf r (suc n) = get_or buf (r % pipe_size) 0 ∷ window buf (add_uint r 1) n

-- The bytes that wait in the pipe, in the order in which they were written.
unfoldable pub contents : Pipe → List ℕ
contents p = window p.buf p.nread (waiting p)

-- The tests of the code by the number of waiting bytes.
pub is_full_lem :
    (p : Pipe)
    → IsValid p
    → (is_full p ≡ true → waiting p ≡ pipe_size) × (is_full p ≡ false → waiting p < pipe_size)
unfolding is_full waiting
is_full_lem p v = ((λ e. ground arith), (λ e. ground arith))

pub is_empty_lem :
    (p : Pipe)
    → IsValid p
    → (is_empty p ≡ true → waiting p ≡ 0) × (is_empty p ≡ false → 0 < waiting p)
unfolding is_empty waiting
is_empty_lem p v = ((λ e. ground arith), (λ e. ground arith))

pub waiting-put :
    (p : Pipe) (c : ℕ) → IsValid p → waiting p < pipe_size → waiting (put p c) ≡ waiting p + 1
unfolding put waiting
waiting-put p c v h = omega arith

pub waiting-advance : (p : Pipe) → IsValid p → 0 < waiting p → waiting (advance p) + 1 ≡ waiting p
unfolding advance waiting
waiting-advance p v h = omega arith

pub put-IsValid : (p : Pipe) (c : ℕ) → IsValid p → waiting p < pipe_size → IsValid (put p c)
unfolding put
put-IsValid p c v h = record {
  room = length-set p.buf _ c ∙ v.room;
  read_word = v.read_word;
  write_word = omega arith;
  few = omega (arith, waiting-put p c v h);
}

pub advance-IsValid : (p : Pipe) → IsValid p → 0 < waiting p → IsValid (advance p)
unfolding advance
advance-IsValid p v h = record {
  room = v.room;
  read_word = omega arith;
  write_word = v.write_word;
  few = omega (arith, waiting-advance p v h, v.few);
}

-- A byte written behind a window that leaves room extends it.
window-set :
    (buf : List ℕ) (c n r i : ℕ)
    → length buf ≡ pipe_size
    → n < pipe_size
    → r < 2 ^ 32
    → i ≡ (r + n) % 2 ^ 32 % pipe_size
    → window (set buf i c) r (suc n) ≡ window buf r n ++ (c ∷ [])
unfolding window
window-set buf c zero r i room few word e =
    let at : i ≡ r % pipe_size = omega arith in
    rw (at, get_or-set_self buf (r % pipe_size) c 0 (omega arith))
window-set buf c (suc n) r i room few word e = λ k.
    get_or-set_ne buf i (r % pipe_size) c 0 (omega arith) k
    ∷ window-set buf c n (add_uint r 1) i room (omega arith) (omega arith) (omega arith) k

-- The counters are 512 or less apart, also when one of them has wrapped.
next_index :
    (p : Pipe) → IsValid p → p.nwrite % pipe_size ≡ (p.nread + waiting p) % 2 ^ 32 % pipe_size
unfolding waiting
next_index p v = omega (arith, v.read_word, v.write_word)

pub contents-put :
    (p : Pipe) (c : ℕ)
    → IsValid p
    → waiting p < pipe_size
    → contents (put p c) ≡ contents p ++ (c ∷ [])
unfolding contents put
contents-put p c v h =
    ap (window (put p c).buf p.nread) (waiting-put p c v h ∙ one_more)
    ∙ window-set p.buf c (waiting p) p.nread _ v.room h v.read_word (next_index p v)
  where
    one_more : waiting p + 1 ≡ suc (waiting p)
    one_more = omega arith

pub contents-advance :
    (p : Pipe) → IsValid p → 0 < waiting p → contents p ≡ front p ∷ contents (advance p)
unfolding contents front advance window
contents-advance p v h = ap (window p.buf p.nread) one_less
  where
    one_less : waiting p ≡ suc (waiting (advance p))
    one_less = omega (arith, waiting-advance p v h)

length-window : (buf : List ℕ) (r n : ℕ) → length (window buf r n) ≡ n
unfolding window
length-window buf r zero = refl
length-window buf r (suc n) = ap suc (length-window buf (add_uint r 1) n)

pub length-contents : (p : Pipe) → length (contents p) ≡ waiting p
unfolding contents
length-contents p = length-window p.buf p.nread (waiting p)
