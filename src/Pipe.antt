-- ===== src/Pipe.antt =====
-- pipe.c: a pipe's ring of 512 bytes between two counters that wrap at 2 ^ 32. The pipe's lock is
-- held except while a process sleeps, so each function is a run from one such point to the next. The
-- sleeping processes themselves are not in the state: `wakes_readers` and `wakes_writers` say which runs
-- call `wakeup` for the other side.
pub mod Ring
pub mod Laws
pub mod Stream
mod Tests
use ele.Common.{
  ℕ, zero, suc, ◌+◌, ◌%◌, ◌^◌, ◌==◌, Bool, true, false, ◌&&◌, ◌||◌, not, if◌then◌else◌, List, [],
  ◌∷◌, get_or, set,
}

abbrev pub pipe_size : ℕ
pipe_size = 512

-- `struct pipe`; the counters are `uint`.
pub record Pipe : Type 0 where
  pub buf : List ℕ
  pub nread : ℕ
  pub nwrite : ℕ
  pub readopen : Bool
  pub writeopen : Bool

-- A `uint` sum.
abbrev pub add_uint : ℕ → ℕ → ℕ
add_uint a b = (a + b) % 2 ^ 32

-- What `pipealloc` sets in a page that holds `junk`.
abbrev pub fresh_pipe : List ℕ → Pipe
fresh_pipe junk = record { buf = junk; nread = 0; nwrite = 0; readopen = true; writeopen = true }

unfoldable pub is_full : Pipe → Bool
is_full p = p.nwrite == add_uint p.nread pipe_size

unfoldable pub is_empty : Pipe → Bool
is_empty p = p.nread == p.nwrite

-- `p->data[p->nwrite++ % PIPESIZE] = c`
unfoldable pub put : Pipe → ℕ → Pipe
put p c = record p { buf = set p.buf (p.nwrite % pipe_size) c; nwrite = add_uint p.nwrite 1 }

-- `p->data[p->nread++ % PIPESIZE]`: the byte, and the pipe after it.
unfoldable pub front : Pipe → ℕ
front p = get_or p.buf (p.nread % pipe_size) 0

unfoldable pub advance : Pipe → Pipe
advance p = record p { nread = add_uint p.nread 1 }

-- How a run of `pipewrite` ends: all is written; it returns -1; or it sleeps with these bytes left.
pub data WriteEnd : Type 0 where
  wrote : WriteEnd
  refused : WriteEnd
  write_waits : List ℕ → WriteEnd

-- The calls of `wakeup` on `&p->nread`: before a writer sleeps, and when all is written.
abbrev wakes_readers : WriteEnd → Bool
wakes_readers wrote = true
wakes_readers refused = false
wakes_readers (write_waits cs) = true

-- `pipewrite` from its start, or from a wake-up, until it returns or sleeps.
unfoldable pub pipewrite : Bool → Pipe → List ℕ → Pipe × WriteEnd
pipewrite killed p [] = (p, wrote)
pipewrite killed p (c ∷ cs) = elim (is_full p) [
  | true ↦ (p, if not p.readopen || killed then refused else write_waits (c ∷ cs))
  | false ↦ pipewrite killed (put p c) cs
]

-- The copying loop of `piperead`, for at most `n` bytes.
unfoldable pub copy_out : ℕ → Pipe → List ℕ × Pipe
copy_out zero p = ([], p)
copy_out (suc n) p = elim (is_empty p) [
  | true ↦ ([], p)
  | false ↦ let (bytes, p') = copy_out n (advance p) in (front p ∷ bytes, p')
]

pub data ReadEnd : Type 0 where
  got : List ℕ → ReadEnd
  read_refused : ReadEnd
  read_waits : ReadEnd

-- The call of `wakeup` on `&p->nwrite`, when bytes have been read, or none are left to come.
abbrev wakes_writers : ReadEnd → Bool
wakes_writers (got bytes) = true
wakes_writers read_refused = false
wakes_writers read_waits = false

-- `piperead` from its start, or from a wake-up, until it returns or sleeps.
unfoldable pub piperead : Bool → Pipe → ℕ → Pipe × ReadEnd
unfolding copy_out
piperead killed p n =
    if is_empty p && p.writeopen
    then (p, if killed then read_refused else read_waits)
    else let (bytes, p') = copy_out n p in (p', got bytes)

-- `pipeclose` on the pipe itself; its page is freed when both ends are closed.
unfoldable pub close_end : Bool → Pipe → Pipe
close_end writable p =
    if writable then record p { writeopen = false } else record p { readopen = false }

unfoldable pub is_dead : Pipe → Bool
is_dead p = not p.readopen && not p.writeopen
