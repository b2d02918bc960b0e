-- ===== src/Pipe/Examples.antt =====
-- A pipe whose positions are about to wrap, with a call that writes three bytes and one that reads.
use os_challenging_mission.Base.{ℕ, ◌+◌, ◌-◌, ◌^◌, ◌≤◌, ◌<◌, ◌≡◌, refl, false, List, [], ◌∷◌}
use os_challenging_mission.Pipe.{
  pipe_size, testing, System, Event, reads, writes, run, step, pipe_read, pipe_write, read_at,
  write_at, read_test, write_test,
}
use os_challenging_mission.Pipe.Fifo.{run-fifo}

abbrev last : ℕ
last = 2 ^ 32 - 1

abbrev begun : System
begun = record {
  pipe = record { p_rpos = last; p_wpos = last; p_buf = λ _. 0 };
  reader = record { place = testing; i = 0; n = 8; user = λ _. 0 };
  writer = record { place = testing; i = 0; n = 3; user = λ k. 65 + k };
}

-- The reader finds nothing, two bytes are written, and the reader takes them.
abbrev some_order : List Event
some_order =
    reads false
    ∷ writes false
    ∷ reads false
    ∷ writes false
    ∷ reads false
    ∷ writes false
    ∷ reads false
    ∷ writes false
    ∷ reads false
    ∷ reads false
    ∷ []

two_read : (run some_order begun).reader.i ≡ 2
unfolding run step pipe_read pipe_write read_at write_at read_test write_test
two_read = refl

run-fifo_example :
    ((k : ℕ) → k < (run some_order begun).reader.i → (run some_order begun).reader.user k ≡ 65 + k)
    × ((run some_order begun).reader.i ≤ (run some_order begun).writer.i)
    × ((run some_order begun).writer.i ≤ (run some_order begun).reader.i + pipe_size)
run-fifo_example =
    run-fifo last some_order begun
      (record { empty = (refl, refl); reader_begins = (refl, refl); writer_begins = (refl, refl) })
