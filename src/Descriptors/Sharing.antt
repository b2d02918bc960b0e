-- ===== src/Descriptors/Sharing.antt =====
-- user/lib/fd.c: after `dup` the two numbers share their offset.
use os_challenging_mission.Base.{
  ℕ, ◌<◌, ◌≡◌, ◌≢◌, refl, sym, ap, ◌∙◌, false, arith, leb, some, update, if-cases, update_same,
}
use os_challenging_mission.Errors.{M, Outcome, ok, err, and_then}
use os_challenging_mission.Descriptors.{
  Space, Pte, index2fd, page_valid, maxfd, fd_lookup, close_found, close, dev_lookup, dup_to, dup,
  seek, set_offset, fd_at, inval, Fd,
}
use os_challenging_mission.Descriptors.Dup.{
  Keeps, Keeps-trans, Keeps-and_then, close_found-Keeps, dev_lookup-Keeps, Dups, dup_to-Dups,
}

-- A call on the descriptor that `fd_lookup` finds, or an error that changes nothing.
looked_up :
    {A : Type 0} (P : Outcome A × Space → Type 0) (i : ℕ) (s : Space) (k : ℕ → M Space A)
    → P (k (index2fd i) s)
    → P (err inval, s)
    → P (and_then (fd_lookup i s) k)
unfolding fd_lookup
looked_up P i s k f g =
    if-cases (λ (r : Outcome ℕ × Space). P (and_then r k)) (leb maxfd i) (λ _. g)
      (λ _.
        if-cases (λ (r : Outcome ℕ × Space). P (and_then r k)) (page_valid s (index2fd i)) (λ _. f)
          (λ _. g))

module _ (dev_close : (dev fd : ℕ) → M Space (Unit {0}))
    (closes : (dev fd : ℕ) (s : Space) → Keeps fd s (dev_close dev fd s).1) where
  abbrev end_close : (fd dev : ℕ) → M Space (Unit {0})
  end_close fd dev s = close_found fd (dev_close dev fd s).0 (dev_close dev fd s).1

  close-Keeps : (j : ℕ) (s : Space) → Keeps (index2fd j) s (close dev_close j s).1
  unfolding close
  close-Keeps j s =
      let fd = index2fd j in
      looked_up (λ (r : Outcome (Unit {0}) × Space). Keeps fd s r.1) j s
        (λ fd t. and_then (dev_lookup (fd_at t fd).fd_dev_id t) (end_close fd))
        (Keeps-and_then fd s (dev_lookup (fd_at s fd).fd_dev_id s) (end_close fd)
          (dev_lookup-Keeps (fd_at s fd).fd_dev_id fd s)
          (λ dev t.
            Keeps-trans fd t (dev_close dev fd t).1 (end_close fd dev t).1 (closes dev fd t)
              (close_found-Keeps fd (dev_close dev fd t).0 (dev_close dev fd t).1)))
        (λ p h n. refl)

  dup-Dups :
      (i j : ℕ) (s : Space) → i < maxfd → j < maxfd → i ≢ j → Dups i j s (dup dev_close i j s)
  unfolding dup
  dup-Dups i j s hi hj n =
      looked_up (Dups i j s) i s
        (λ fd t. dup_to fd j (close dev_close j t).0 (close dev_close j t).1)
        (dup_to-Dups i j hi hj n s (close dev_close j s).0 (close dev_close j s).1
          (close-Keeps j s))
        (λ n h. absurd (ground (arith, h)))

seek-set_offset :
    (j off : ℕ) (q : Pte) (s : Space)
    → j < maxfd
    → s.vpt (index2fd j) ≡ some q
    → seek j off s ≡ (ok tt, set_offset (some q) off s)
unfolding seek fd_lookup
seek-set_offset j off q s h e =
    let below : leb maxfd j ≡ false = ground (arith, h) in
    rw (below, e) (ap (λ o. (ok tt, set_offset o off s)) e)

-- What is set through an entry of the same frame is seen.
shared_offset :
    (fd off : ℕ) (p q : Pte) (s : Space)
    → s.vpt fd ≡ some p
    → q.frame ≡ p.frame
    → (fd_at (set_offset (some q) off s) fd).fd_offset ≡ off
shared_offset fd off p q s e same =
    let new : Fd = record (s.fds q.frame) { fd_offset = off } in
    rw e (
      ap (λ (f : ℕ). (update s.fds q.frame new f).fd_offset) (sym same)
      ∙ ap (λ (x : Fd). x.fd_offset) (update_same s.fds q.frame new))

-- If `dup` of one number to another returns, it returns the second number; the first one has its page
-- as before, and an offset that `seek` then sets through the second number is the offset of the first.
-- What a device does on close is taken to leave the other descriptors' pages in place.
pub seek-dup :
    (dev_close : (dev fd : ℕ) → M Space (Unit {0}))
    (closes : (dev fd : ℕ) (s : Space) → Keeps fd s (dev_close dev fd s).1) (i j n off : ℕ)
    (s : Space)
    → i < maxfd
    → j < maxfd
    → i ≢ j
    → (dup dev_close i j s).0 ≡ ok n
    → (n ≡ j)
      × ((dup dev_close i j s).1.vpt (index2fd i) ≡ s.vpt (index2fd i))
      × ((seek j off (dup dev_close i j s).1).0 ≡ ok tt)
      × ((fd_at (seek j off (dup dev_close i j s).1).1 (index2fd i)).fd_offset ≡ off)
seek-dup dev_close closes i j n off s hi hj ne h =
    let (e, (p, q, ep, eq, same), kept) = dup-Dups dev_close closes i j s hi hj ne n h in
    let t = (dup dev_close i j s).1 in
    rw (seek-set_offset j off q t hj eq)
      (e, kept, refl, shared_offset (index2fd i) off p q t ep same)
