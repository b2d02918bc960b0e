-- ===== src/Fs/Sizes.antt =====
-- fs/fs.c: `file_set_size` returns no error.
use os_challenging_mission.Base.{
  ℕ, zero, suc, ◌-◌, ◌≢◌, inl, inr, sym, ap, ◌∙◌, false, not, arith, ◌==◌, ltb, if◌then◌else◌,
  if-cases,
}
use os_challenging_mission.Errors.{
  M, Outcome, Error, ok, err, and_then, and_then_err, panicked, switched, waiting,
}
use os_challenging_mission.Fs.{Fs, write_block, block_is_dirty, copy_block}
use os_challenging_mission.Fs.Ops.{
  panic_on, clear_blocks, file_truncate, write_if_dirty, flush_found, flush_blocks, file_flush,
  flush_dir, file_set_size, file_at, blocks_of, truncate_to, end_truncate, set_f_size,
}
use os_challenging_mission.Fs.File.{f_size, f_dir, file_clear_block, file_map_block}

abbrev pub NoError : Outcome (Unit {0}) × Fs → Type 0
NoError r = (e : Error) → r.0 ≢ err e

and_then-NoError :
    (r : Outcome (Unit {0}) × Fs) (k : Unit {0} → M Fs (Unit {0}))
    → NoError r
    → ((s : Fs) → NoError (k tt s))
    → NoError (and_then r k)
and_then-NoError r k n f e h = elim (and_then_err r k h) [
  | inl (p, _) ↦ n e p
  | inr (a, _, same) ↦ f r.1 e (sym (ap (λ (x : Outcome (Unit {0}) × Fs). x.0) same) ∙ h)
]

ok-NoError : (s : Fs) → NoError (ok tt, s)
ok-NoError s e h = absurd (ground (arith, h))

panic_on-NoError :
    (rest : M Fs (Unit {0})) (o : Outcome (Unit {0})) (s : Fs)
    → ((t : Fs) → NoError (rest t))
    → NoError (panic_on rest o s)
unfolding panic_on
panic_on-NoError rest (ok _) s f = f s
panic_on-NoError rest (err x) s f = λ e h. absurd (ground (arith, h))
panic_on-NoError rest panicked s f = λ e h. absurd (ground (arith, h))
panic_on-NoError rest switched s f = λ e h. absurd (ground (arith, h))
panic_on-NoError rest waiting s f = λ e h. absurd (ground (arith, h))

clear_blocks-NoError : (f n bno : ℕ) (s : Fs) → NoError (clear_blocks f n bno s)
unfolding clear_blocks
clear_blocks-NoError f zero bno s = ok-NoError s
clear_blocks-NoError f (suc n) bno s =
    panic_on-NoError (clear_blocks f n (suc bno)) (file_clear_block f bno s).0
      (file_clear_block f bno s).1 (clear_blocks-NoError f n (suc bno))

write_if_dirty-NoError : (b : ℕ) (s : Fs) → NoError (write_if_dirty b s)
unfolding write_if_dirty write_block
write_if_dirty-NoError b s =
    if-cases NoError (block_is_dirty b s)
      (λ _.
        if-cases NoError (not (s.is_mapped b)) (λ _ e h. absurd (ground (arith, h)))
          (λ _. ok-NoError (record s { disk = copy_block b s.mem s.disk })))
      (λ _. ok-NoError s)

flush_found-NoError :
    (rest : M Fs (Unit {0})) (o : Outcome ℕ) (s : Fs)
    → ((t : Fs) → NoError (rest t))
    → NoError (flush_found rest o s)
unfolding flush_found
flush_found-NoError rest (ok b) s f =
    and_then-NoError (write_if_dirty b s) (λ _. rest) (write_if_dirty-NoError b s) f
flush_found-NoError rest (err x) s f = f s
flush_found-NoError rest panicked s f = λ e h. absurd (ground (arith, h))
flush_found-NoError rest switched s f = λ e h. absurd (ground (arith, h))
flush_found-NoError rest waiting s f = λ e h. absurd (ground (arith, h))

flush_blocks-NoError : (f n bno : ℕ) (s : Fs) → NoError (flush_blocks f n bno s)
unfolding flush_blocks
flush_blocks-NoError f zero bno s = ok-NoError s
flush_blocks-NoError f (suc n) bno s =
    flush_found-NoError (flush_blocks f n (suc bno)) (file_map_block f bno false s).0
      (file_map_block f bno false s).1 (flush_blocks-NoError f n (suc bno))

flush_dir-NoError : (f : ℕ) (s : Fs) → NoError (flush_dir f s)
unfolding flush_dir file_flush
flush_dir-NoError f s =
    if-cases NoError (s.mem (f_dir f) == 0) (λ _. ok-NoError s)
      (λ _.
        flush_blocks-NoError (file_at (s.mem (f_dir f)))
          (blocks_of (s.mem (f_size (file_at (s.mem (f_dir f)))))) 0 s)

file_truncate-NoError : (f size : ℕ) (s : Fs) → NoError (file_truncate f size s)
unfolding file_truncate
file_truncate-NoError f size s =
    let new = if size == 0 then 0 else blocks_of size in
    let rounds = blocks_of (s.mem (f_size f)) - new in
    and_then-NoError (clear_blocks f rounds new s) (λ _. end_truncate f size new)
      (clear_blocks-NoError f rounds new s) (λ t. ok-NoError (end_truncate f size new t).1)

truncate_to-NoError : (f size : ℕ) (s : Fs) → NoError (truncate_to f size s)
truncate_to-NoError f size s =
    if-cases NoError (ltb size (s.mem (f_size f))) (λ _. file_truncate-NoError f size s)
      (λ _. ok-NoError s)

-- `file_set_size` returns 0, or a panic ends it.
pub file_set_size-NoError : (f size : ℕ) (s : Fs) → NoError (file_set_size f size s)
unfolding file_set_size
file_set_size-NoError f size s =
    and_then-NoError (truncate_to f size s)
      (λ _ t. and_then (set_f_size f size t) (λ _. flush_dir f)) (truncate_to-NoError f size s)
      λ t.
        and_then-NoError (set_f_size f size t) (λ _. flush_dir f)
          (ok-NoError (set_f_size f size t).1) (flush_dir-NoError f)
