-- ===== src/Pipe/Stream.antt =====
-- Writers and readers of one pipe of pipe.c, taking turns in any order.
use mathlib.Core.List.{append_assoc}
use ele.Common.{
  ℕ, ◌≡◌, refl, sym, ap, ◌∙◌, Bool, true, false, ◌&&◌, if◌then◌else◌, List, [], ◌++◌, arith, ◌==◌,
  length, take, drop, take-append-drop, Bool-cases, inl, inr,
}
use ele.Pipe.{
  pipe_size, Pipe, fresh_pipe, pipewrite, piperead, ReadEnd, got, read_refused, read_waits,
  close_end,
}
use ele.Pipe.Ring.{IsValid, waiting, window, contents}
use ele.Pipe.Laws.{room, read_end, pipewrite_lem, piperead_lem}

-- The pipe with what has gone into it and come out of it since it was made.
pub record Stream : Type 0 where
  pub pipe : Pipe
  pub sent : List ℕ
  pub received : List ℕ

abbrev pub received_by : ReadEnd → List ℕ
received_by (got bytes) = bytes
received_by read_refused = []
received_by read_waits = []

-- One run of `pipewrite` with the bytes `cs`, of `piperead` for `n` bytes, or of `pipeclose`. What a
-- write sends is what there is room for at its start.
pub data Turn (s : Stream) : Stream → Type 0 where
  write :
      (killed : Bool) (cs : List ℕ)
      → Turn s (record s {
        pipe = (pipewrite killed s.pipe cs).0;
        sent = s.sent ++ take (room s.pipe) cs;
      })
  read :
      (killed : Bool) (n : ℕ)
      → Turn s (record s {
        pipe = (piperead killed s.pipe n).0;
        received = s.received ++ received_by (piperead killed s.pipe n).1;
      })
  close : (writable : Bool) → Turn s (record s { pipe = close_end writable s.pipe })

pub data Reach (junk : List ℕ) : Stream → Type 0 where
  opened : Reach junk (record { pipe = fresh_pipe junk; sent = []; received = [] })
  later : {s t : Stream} → Reach junk s → Turn s t → Reach junk t

record IsKept (s : Stream) : Type 0 where
  valid : IsValid s.pipe
  whole : s.received ++ contents s.pipe ≡ s.sent

abbrev cond_idle : Pipe → Bool
cond_idle p = (waiting p == 0) && p.writeopen

nothing_read :
    (killed : Bool) (l : List ℕ)
    → received_by (if killed then read_refused else read_waits) ++ l ≡ l
nothing_read true l = refl
nothing_read false l = refl

-- What a read takes and what it leaves make up what waited.
read_split :
    (killed : Bool) (p : Pipe) (n : ℕ)
    → received_by (read_end killed p n) ++ (if cond_idle p then contents p else drop n (contents p))
      ≡ contents p
read_split killed p n = elim (Bool-cases (cond_idle p)) [
  | inl idle ↦ rw idle (nothing_read killed (contents p))
  | inr busy ↦ rw busy (take-append-drop n (contents p))
]

close-IsKept : (s : Stream) (w : Bool) → IsKept s → IsKept (record s { pipe = close_end w s.pipe })
unfolding close_end waiting contents
close-IsKept s true k = record {
  valid = record {
    room = k.valid.room;
    read_word = k.valid.read_word;
    write_word = k.valid.write_word;
    few = k.valid.few;
  };
  whole = k.whole;
}
close-IsKept s false k = record {
  valid = record {
    room = k.valid.room;
    read_word = k.valid.read_word;
    write_word = k.valid.write_word;
    few = k.valid.few;
  };
  whole = k.whole;
}

Turn-IsKept : {s t : Stream} → Turn s t → IsKept s → IsKept t
Turn-IsKept {s} (write killed cs) k =
    let (valid, bytes, _, _, _) = pipewrite_lem killed s.pipe cs k.valid in
    record {
      valid = valid;
      whole =
          ap (λ l. s.received ++ l) bytes
          ∙ sym (append_assoc s.received _ _)
          ∙ ap (λ l. l ++ take (room s.pipe) cs) k.whole;
    }
Turn-IsKept {s} (read killed n) k =
    let (valid, end, rest, _, _) = piperead_lem killed s.pipe n k.valid in
    record {
      valid = valid;
      whole =
          append_assoc s.received _ _
          ∙ ap (λ l. s.received ++ l)
              ((λ i. received_by (end i) ++ rest i) ∙ read_split killed s.pipe n)
          ∙ k.whole;
    }
Turn-IsKept {s} (close w) k = close-IsKept s w k

opened-IsKept :
    (junk : List ℕ)
    → length junk ≡ pipe_size
    → IsKept (record { pipe = fresh_pipe junk; sent = []; received = [] })
unfolding waiting contents window
opened-IsKept junk e = record {
  valid = record { room = e; read_word = omega arith; write_word = omega arith; few = omega arith };
  whole = refl;
}

Reach-IsKept : {junk : List ℕ} {s : Stream} → length junk ≡ pipe_size → Reach junk s → IsKept s
Reach-IsKept {junk} e opened = opened-IsKept junk e
Reach-IsKept e (later r t) = Turn-IsKept t (Reach-IsKept e r)

-- First in, first out, across the wrap of the counters: in every state that runs of writers, readers
-- and closers can reach from a new pipe, in any order, the bytes received so far, followed by those
-- that wait in the pipe, are the bytes sent so far, in the same order.
pub fifo :
    {junk : List ℕ} {s : Stream}
    → length junk ≡ pipe_size
    → Reach junk s
    → s.received ++ contents s.pipe ≡ s.sent
fifo e r = (Reach-IsKept e r).whole
