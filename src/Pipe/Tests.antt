-- ===== src/Pipe/Tests.antt =====
-- Pipes of pipe.c whose counters are about to wrap.
use ele.Common.{ℕ, ◌-◌, ◌^◌, ◌≡◌, refl, true, false, List, [], ◌∷◌, ◌++◌, arith, replicate, take}
use ele.Pipe.{
  Pipe, pipe_size, fresh_pipe, is_full, is_empty, put, front, advance, pipewrite, write_waits,
  piperead, got,
}
use ele.Pipe.Ring.{IsValid, waiting, window, contents}
use ele.Pipe.Laws.{room, pipewrite_lem, piperead_lem}
use ele.Pipe.Stream.{Stream, Reach, opened, later, write, read, fifo}

abbrev junk : List ℕ
junk = replicate 512 7

-- Three bytes wait, across the wrap of the counters.
abbrev wrapped : Pipe
wrapped = record { buf = junk; nread = 2 ^ 32 - 2; nwrite = 1; readopen = true; writeopen = true }

wrapped-IsValid : IsValid wrapped
unfolding waiting
wrapped-IsValid = record {
  room = refl;
  read_word = omega arith;
  write_word = omega arith;
  few = omega arith;
}

write_runs :
    (piperead false (pipewrite false wrapped (1 ∷ 2 ∷ [])).0 4).1 ≡ got (7 ∷ 7 ∷ 7 ∷ 1 ∷ [])
unfolding pipewrite piperead put front is_full is_empty advance
write_runs = refl

pipewrite_lem_example :
    let (p', end) = pipewrite false wrapped (1 ∷ 2 ∷ []) in
    IsValid p'
    × (contents p' ≡ contents wrapped ++ 1 ∷ 2 ∷ [])
    × (end ≡ ele.Pipe.wrote)
    × (p'.readopen ≡ true)
    × (p'.writeopen ≡ true)
unfolding waiting
pipewrite_lem_example = pipewrite_lem false wrapped (1 ∷ 2 ∷ []) wrapped-IsValid

piperead_lem_example :
    let (p', end) = piperead false wrapped 2 in
    IsValid p'
    × (end ≡ got (7 ∷ 7 ∷ []))
    × (contents p' ≡ 7 ∷ [])
    × (p'.readopen ≡ true)
    × (p'.writeopen ≡ true)
unfolding waiting contents window
piperead_lem_example = piperead_lem false wrapped 2 wrapped-IsValid

-- Two bytes written to a new pipe, then one read.
abbrev used : Stream
used = record {
  pipe = (piperead false (pipewrite false (fresh_pipe junk) (1 ∷ 2 ∷ [])).0 1).0;
  sent = take (room (fresh_pipe junk)) (1 ∷ 2 ∷ []);
  received =
      ele.Pipe.Stream.received_by
        (piperead false (pipewrite false (fresh_pipe junk) (1 ∷ 2 ∷ [])).0 1).1;
}

fifo_example : used.received ++ contents used.pipe ≡ used.sent
fifo_example =
    fifo {junk = junk} refl (later (later opened (write false (1 ∷ 2 ∷ []))) (read false 1))
