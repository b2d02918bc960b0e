-- ===== src/Pipe.antt =====
-- user/lib/pipe.c: the ring buffer of a pipe, with one reader and one writer that run in parallel.
-- The tests of a round and the copy of its byte are one step, the increment of `p_rpos` or
-- `p_wpos` is another. What `_pipe_is_closed` returns is given to the
-- step that calls it; `syscall_yield` is the choice of the next process to step.
pub mod Streams
pub mod Fifo
mod Examples
use os_challenging_mission.Base.{
  ℕ, ◌+◌, ◌-◌, ◌%◌, ◌^◌, Bool, not, ◌||◌, List, [], ◌∷◌, ◌==◌, leb, if◌then◌else◌, update,
}

abbrev pub pipe_size : ℕ
pipe_size = 32

pub record Pipe : Type 0 where
  pub p_rpos : ℕ  -- u_int
  pub p_wpos : ℕ  -- u_int
  pub p_buf : ℕ → ℕ

-- Where a call of `pipe_read` or `pipe_write` is: at the tests of its loops; before
-- `_pipe_is_closed`, since the buffer was empty or full; before `p_rpos++` or `p_wpos++`, when the
-- byte has been copied; or it has returned.
pub data Place : Type 0 where
  testing blocked copied returned : Place

-- `i`, `n` and the user's buffer of a call.
pub record Transfer : Type 0 where
  pub place : Place
  pub i : ℕ
  pub n : ℕ
  pub user : ℕ → ℕ

pub record System : Type 0 where
  pub pipe : Pipe
  pub reader : Transfer
  pub writer : Transfer

abbrev pub at_place : Place → Transfer → Transfer
at_place p t = record t { place = p }

-- `for (...) while (p->p_rpos == p->p_wpos)`, and the copy of a byte.
unfoldable pub read_test : System → System
read_test s =
    let p = s.pipe in
    let t = s.reader in
    if leb t.n t.i
    then record s { reader = at_place returned t }
    else if p.p_rpos == p.p_wpos
    then record s { reader = at_place blocked t }
    else record s {
      reader = record t {
        place = copied;
        user = update t.user t.i (p.p_buf (p.p_rpos % pipe_size));
      };
    }

-- `for (...) while (p->p_wpos - p->p_rpos == PIPE_SIZE)`, and the copy of a byte.
unfoldable pub write_test : System → System
write_test s =
    let p = s.pipe in
    let t = s.writer in
    if leb t.n t.i
    then record s { writer = at_place returned t }
    else if (p.p_wpos + 2 ^ 32 - p.p_rpos) % 2 ^ 32 == pipe_size
    then record s { writer = at_place blocked t }
    else record s {
      pipe = record p { p_buf = update p.p_buf (p.p_wpos % pipe_size) (t.user t.i) };
      writer = at_place copied t;
    }

-- One step of `pipe_read`, by its place.
unfoldable pub read_at : Place → (closed : Bool) → System → System
unfolding read_test
read_at testing closed s = read_test s
read_at blocked closed s =
    if closed || not (s.reader.i == 0)
    then record s { reader = at_place returned s.reader }
    else record s { reader = at_place testing s.reader }
read_at copied closed s = record s {
  pipe = record (s.pipe) { p_rpos = (s.pipe.p_rpos + 1) % 2 ^ 32 };
  reader = record (s.reader) { place = testing; i = s.reader.i + 1 };
}
read_at returned closed s = s

unfoldable pub pipe_read : (closed : Bool) → System → System
unfolding read_at
pipe_read closed s = read_at s.reader.place closed s

-- One step of `pipe_write`, by its place.
unfoldable pub write_at : Place → (closed : Bool) → System → System
unfolding write_test
write_at testing closed s = write_test s
write_at blocked closed s =
    if closed
    then record s { writer = at_place returned s.writer }
    else record s { writer = at_place testing s.writer }
write_at copied closed s = record s {
  pipe = record (s.pipe) { p_wpos = (s.pipe.p_wpos + 1) % 2 ^ 32 };
  writer = record (s.writer) { place = testing; i = s.writer.i + 1 };
}
write_at returned closed s = s

unfoldable pub pipe_write : (closed : Bool) → System → System
unfolding write_at
pipe_write closed s = write_at s.writer.place closed s

-- Whose step is next, and whether the pipe is closed then.
pub data Event : Type 0 where
  reads writes : (closed : Bool) → Event

unfoldable pub step : Event → System → System
unfolding pipe_read pipe_write
step (reads closed) s = pipe_read closed s
step (writes closed) s = pipe_write closed s

unfoldable pub run : List Event → System → System
unfolding step
run [] s = s
run (e ∷ es) s = run es (step e s)
