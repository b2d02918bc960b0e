-- ===== src/Pipe/Fifo.antt =====
-- user/lib/pipe.c: the bytes come out of the pipe as they went in, however the steps interleave.
use os_challenging_mission.Base.{
  ℕ, ◌+◌, ◌-◌, ◌%◌, ◌^◌, ◌≤◌, ◌<◌, ◌≡◌, refl, ap, ◌∙◌, not, ◌||◌, List, [], ◌∷◌, arith, ◌==◌, leb,
  if-cases,
}
use os_challenging_mission.Pipe.{
  pipe_size, Place, testing, blocked, copied, returned, System, read_at, write_at, read_test,
  write_test, pipe_read, pipe_write, Event, reads, writes, step, run,
}
use os_challenging_mission.Pipe.Streams.{run-Streams}

-- The steps only read the writer's bytes.
step_source : (e : Event) (s : System) → (step e s).writer.user ≡ s.writer.user
unfolding step pipe_read pipe_write read_at write_at read_test write_test
step_source (reads closed) s = from s.reader.place
  where
    Same : System → Type 0
    Same t = t.writer.user ≡ s.writer.user

    from : (p : Place) → Same (read_at p closed s)
    from testing =
        if-cases Same (leb s.reader.n s.reader.i) (λ _. refl)
          (λ _. if-cases Same (s.pipe.p_rpos == s.pipe.p_wpos) (λ _. refl) (λ _. refl))
    from blocked = if-cases Same (closed || not (s.reader.i == 0)) (λ _. refl) (λ _. refl)
    from copied = refl
    from returned = refl
step_source (writes closed) s = from s.writer.place
  where
    Same : System → Type 0
    Same t = t.writer.user ≡ s.writer.user

    from : (p : Place) → Same (write_at p closed s)
    from testing =
        if-cases Same (leb s.writer.n s.writer.i) (λ _. refl)
          (λ _.
            if-cases Same ((s.pipe.p_wpos + 2 ^ 32 - s.pipe.p_rpos) % 2 ^ 32 == pipe_size)
              (λ _. refl) (λ _. refl))
    from blocked = if-cases Same closed (λ _. refl) (λ _. refl)
    from copied = refl
    from returned = refl

run_source : (es : List Event) (s : System) → (run es s).writer.user ≡ s.writer.user
unfolding run
run_source [] s = refl
run_source (e ∷ es) s = run_source es (step e s) ∙ step_source e s

-- Both calls have just begun, on a pipe that is empty.
pub record Fresh (start : ℕ) (s : System) : Type 0 where
  pub empty : (s.pipe.p_rpos ≡ start % 2 ^ 32) × (s.pipe.p_wpos ≡ start % 2 ^ 32)
  pub reader_begins : (s.reader.i ≡ 0) × (s.reader.place ≡ testing)
  pub writer_begins : (s.writer.i ≡ 0) × (s.writer.place ≡ testing)

-- A pipe is first in, first out: from an empty pipe, wherever its positions stand in their 32 bits,
-- and in whatever order the steps of the reader and of the writer interleave, the bytes that have
-- been read are the first ones written, in order, and the reader is at most the 32 bytes of the
-- buffer behind the writer.
pub run-fifo :
    (start : ℕ) (es : List Event) (s : System)
    → Fresh start s
    → ((k : ℕ) → k < (run es s).reader.i → (run es s).reader.user k ≡ s.writer.user k)
      × ((run es s).reader.i ≤ (run es s).writer.i)
      × ((run es s).writer.i ≤ (run es s).reader.i + pipe_size)
run-fifo start es s f =
    let v = run-Streams start es s (record {
      rpos_is = ground (arith, f.empty, f.reader_begins);
      wpos_is = ground (arith, f.empty, f.writer_begins);
      behind = omega (arith, f.reader_begins.0, f.writer_begins.0);
      fits = omega (arith, f.reader_begins.0, f.writer_begins.0);
      holds = λ k a b. absurd (omega (arith, f.writer_begins.0));
      got = λ k h. absurd (omega (arith, f.reader_begins.0));
      taken = λ h. absurd (ground (arith, h, f.reader_begins.1));
      stored = λ h. absurd (ground (arith, h, f.writer_begins.1));
    }) in
    ((λ k h. v.got k h ∙ ap (λ f. f k) (run_source es s)), v.behind, v.fits)
