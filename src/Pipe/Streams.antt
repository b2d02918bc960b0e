-- ===== src/Pipe/Streams.antt =====
-- user/lib/pipe.c: what the positions and the buffer of a pipe say of the bytes in it.
use os_challenging_mission.Base.{
  ℕ, ◌+◌, ◌%◌, ◌^◌, ◌≤◌, ◌<◌, ◌≡◌, refl, ap, ◌∙◌, Bool, true, false, arith, ◌==◌, leb, if-cases,
  ◌≢◌, ℕ_discrete, ◌-◌, List, [], ◌∷◌, not, ◌||◌,
}
use os_challenging_mission.Pipe.{
  read_at, write_at, blocked, copied, returned, Event, reads, writes, step, run, write_test,
  pipe_read, pipe_write, testing, pipe_size, Place, System, at_place, read_test,
}

abbrev is_copied : Place → Bool
is_copied copied = true
is_copied _ = false

-- `r` and `w` bytes have been read and written since both positions were `start`.
pub record Streams (start : ℕ) (s : System) : Type 0 where
  pub rpos_is : s.pipe.p_rpos ≡ (start + s.reader.i) % 2 ^ 32
  pub wpos_is : s.pipe.p_wpos ≡ (start + s.writer.i) % 2 ^ 32
  pub behind : s.reader.i ≤ s.writer.i
  pub fits : s.writer.i ≤ s.reader.i + pipe_size
  pub holds :
      (k : ℕ)
      → s.reader.i ≤ k
      → k < s.writer.i
      → s.pipe.p_buf ((start + k) % pipe_size) ≡ s.writer.user k
  pub got : (k : ℕ) → k < s.reader.i → s.reader.user k ≡ s.writer.user k
  pub taken :
      is_copied s.reader.place ≡ true
      → (s.reader.i < s.writer.i) × (s.reader.user s.reader.i ≡ s.writer.user s.reader.i)
  pub stored :
      is_copied s.writer.place ≡ true
      → (s.writer.i < s.reader.i + pipe_size)
        × (s.pipe.p_buf ((start + s.writer.i) % pipe_size) ≡ s.writer.user s.writer.i)

read_test-Streams :
    (start : ℕ) (s : System)
    → is_copied s.reader.place ≡ false
    → Streams start s
    → Streams start (read_test s)
unfolding read_test
read_test-Streams start s here v =
    if-cases (Streams start) (leb s.reader.n s.reader.i) (λ _. moved returned refl)
      (λ _.
        if-cases (Streams start) (s.pipe.p_rpos == s.pipe.p_wpos) (λ _. moved blocked refl)
          (λ some_.
            let more : s.reader.i < s.writer.i =
              ground (arith, some_, v.rpos_is, v.wpos_is, v.behind) in
            let byte : s.pipe.p_buf (s.pipe.p_rpos % pipe_size) ≡ s.writer.user s.reader.i =
              ap s.pipe.p_buf (omega (arith, v.rpos_is)) ∙ v.holds s.reader.i (omega arith) more in
            record {
              rpos_is = v.rpos_is;
              wpos_is = v.wpos_is;
              behind = v.behind;
              fits = v.fits;
              holds = v.holds;
              got = λ k h. ground (arith, v.got k h, h);
              taken = λ _. (more, ground (arith, byte));
              stored = v.stored;
            }))
  where
    moved :
        (p : Place)
        → is_copied p ≡ false
        → Streams start (record s { reader = at_place p s.reader })
    moved p h = record {
      rpos_is = v.rpos_is;
      wpos_is = v.wpos_is;
      behind = v.behind;
      fits = v.fits;
      holds = v.holds;
      got = v.got;
      taken = λ y. absurd (ground (arith, y, h));
      stored = v.stored;
    }

module _ (start : ℕ) (s : System) (v : Streams start s) where
  -- The other side of a step leaves the reader's or the writer's call at another place.
  reader_moves :
      (p : Place) → is_copied p ≡ false → Streams start (record s { reader = at_place p s.reader })
  reader_moves p h = record {
    rpos_is = v.rpos_is;
    wpos_is = v.wpos_is;
    behind = v.behind;
    fits = v.fits;
    holds = v.holds;
    got = v.got;
    taken = λ y. absurd (ground (arith, y, h));
    stored = v.stored;
  }

  writer_moves :
      (p : Place) → is_copied p ≡ false → Streams start (record s { writer = at_place p s.writer })
  writer_moves p h = record {
    rpos_is = v.rpos_is;
    wpos_is = v.wpos_is;
    behind = v.behind;
    fits = v.fits;
    holds = v.holds;
    got = v.got;
    taken = v.taken;
    stored = λ y. absurd (ground (arith, y, h));
  }

  -- A byte in the buffer is not where the next one goes.
  apart :
      (k : ℕ)
      → s.reader.i ≤ k
      → k < s.writer.i
      → s.writer.i < s.reader.i + pipe_size
      → (start + k) % pipe_size ≢ s.pipe.p_wpos % pipe_size
  apart k a b c h = omega (arith, v.wpos_is)

  write_test-Streams : is_copied s.writer.place ≡ false → Streams start (write_test s)
  unfolding write_test
  write_test-Streams here =
      if-cases (Streams start) (leb s.writer.n s.writer.i) (λ _. writer_moves returned refl)
        (λ _.
          if-cases (Streams start) ((s.pipe.p_wpos + 2 ^ 32 - s.pipe.p_rpos) % 2 ^ 32 == pipe_size)
            (λ _. writer_moves blocked refl)
            (λ room.
              let space : s.writer.i < s.reader.i + pipe_size =
                ground (arith, room, v.rpos_is, v.wpos_is, v.behind, v.fits) in
              record {
                rpos_is = v.rpos_is;
                wpos_is = v.wpos_is;
                behind = v.behind;
                fits = v.fits;
                holds = λ k a b. ground (arith, v.holds k a b, apart k a b space);
                got = v.got;
                taken = v.taken;
                stored = λ _. (space, ground (arith, v.wpos_is));
              }))

  advance_reader :
      is_copied s.reader.place ≡ true
      → Streams start (record s {
        pipe = record (s.pipe) { p_rpos = (s.pipe.p_rpos + 1) % 2 ^ 32 };
        reader = record (s.reader) { place = testing; i = s.reader.i + 1 };
      })
  advance_reader here = record {
    rpos_is = omega (arith, v.rpos_is);
    wpos_is = v.wpos_is;
    behind = omega (arith, (v.taken here).0);
    fits = omega (arith, v.fits);
    holds = λ k a b. v.holds k (omega arith) b;
    got = λ k h. ground (arith, v.got k, v.taken here, h);
    taken = λ y. absurd (ground (arith, y));
    stored = λ y. (omega (arith, (v.stored y).0), (v.stored y).1);
  }

  advance_writer :
      is_copied s.writer.place ≡ true
      → Streams start (record s {
        pipe = record (s.pipe) { p_wpos = (s.pipe.p_wpos + 1) % 2 ^ 32 };
        writer = record (s.writer) { place = testing; i = s.writer.i + 1 };
      })
  advance_writer here = record {
    rpos_is = v.rpos_is;
    wpos_is = omega (arith, v.wpos_is);
    behind = omega (arith, v.behind);
    fits = omega (arith, (v.stored here).0);
    holds = λ k a b. elim (ℕ_discrete k s.writer.i) [
      | yes y ↦ rw y (v.stored here).1
      | no n ↦ v.holds k a (omega (arith, n))
    ];
    got = v.got;
    taken = λ y. (omega (arith, (v.taken y).0), (v.taken y).1);
    stored = λ y. absurd (ground (arith, y));
  }

  read_at-Streams :
      (p : Place) (closed : Bool) → s.reader.place ≡ p → Streams start (read_at p closed s)
  unfolding read_at
  read_at-Streams testing closed h = read_test-Streams start s (ground (arith, h)) v
  read_at-Streams blocked closed h =
      if-cases (Streams start) (closed || not (s.reader.i == 0)) (λ _. reader_moves returned refl)
        (λ _. reader_moves testing refl)
  read_at-Streams copied closed h = advance_reader (ground (arith, h))
  read_at-Streams returned closed h = v

  write_at-Streams :
      (p : Place) (closed : Bool) → s.writer.place ≡ p → Streams start (write_at p closed s)
  unfolding write_at
  write_at-Streams testing closed h = write_test-Streams (ground (arith, h))
  write_at-Streams blocked closed h =
      if-cases (Streams start) closed (λ _. writer_moves returned refl)
        (λ _. writer_moves testing refl)
  write_at-Streams copied closed h = advance_writer (ground (arith, h))
  write_at-Streams returned closed h = v

  step-Streams : (e : Event) → Streams start (step e s)
  unfolding step pipe_read pipe_write
  step-Streams (reads closed) = read_at-Streams s.reader.place closed refl
  step-Streams (writes closed) = write_at-Streams s.writer.place closed refl

pub run-Streams :
    (start : ℕ) (es : List Event) (s : System) → Streams start s → Streams start (run es s)
unfolding run
run-Streams start [] s v = v
run-Streams start (e ∷ es) s v = run-Streams start es (step e s) (step-Streams start s v e)
