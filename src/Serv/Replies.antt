-- ===== src/Serv/Replies.antt =====
-- fs/serv.c: each request that is served gets one reply.
use os_challenging_mission.Base.{
  ℕ, zero, suc, ◌/◌, ◌≡◌, ◌≢◌, inl, inr, refl, sym, ap, ◌∙◌, subst, true, false, List, ◌∷◌, arith,
  ◌==◌, leb, Option, none, some, Bool-cases, update, if-cases,
}
use os_challenging_mission.Errors.{
  M, Outcome, Error, ok, err, and_then, panicked, pure, switched, waiting,
}
use os_challenging_mission.Fs.{Fs, block_size, user_spin_unlock, user_spin_lock}
use os_challenging_mission.Fs.Sizes.{file_set_size-NoError}
use os_challenging_mission.Fs.Ops.{fs_sync}
use os_challenging_mission.Serv.{
  Server, Reply, Page, ipc_send, or_reply, try_call, open_scan, open_lookup, truncate_if, opened,
  serve_open, serve_request, no_page, alloc_entry, fill_out, open_alloc, on_fs, serve_map, maxopen,
  has_flag, filefd_page, serve_set_size, o_trunc, create_if, serve_close, file_set_size, file_open,
  serve_dirty, serve_remove, serve_sync, Request, fsreq_open, fsreq_map, file_get_block, block_page,
  fsreq_set_size, fsreq_close, file_close, fsreq_dirty, file_dirty, fsreq_remove, file_remove,
  serve_round, fsreq_sync, request,
}

-- A call that returns has added one reply to the list, and it is to `envid`.
abbrev pub Answers : ℕ → List Reply → Outcome (Unit {0}) × Server → Type 0
Answers envid l r =
    r.0 ≡ ok tt
    → (v : Option Error) × (p : Page) × (r.1.sent
        ≡ record { whom = envid; value = v; page = p } ∷ l)

ipc_send-Answers :
    (envid : ℕ) (v : Option Error) (p : Page) (s : Server)
    → Answers envid s.sent (ipc_send envid v p s)
ipc_send-Answers envid v p s h = (v, p, refl)

module _ {A : Type 0} (envid : ℕ) (l : List Reply) (k : A → M Server (Unit {0})) where
  or_reply-Answers :
      (o : Outcome A) (s : Server)
      → s.sent ≡ l
      → ((a : A) → Answers envid l (k a s))
      → Answers envid l (or_reply envid k o s)
  or_reply-Answers (ok a) s e f = f a
  or_reply-Answers (err x) s e f = λ h.
      (some x, no_page, ap (λ t. record { whom = envid; value = some x; page = no_page } ∷ t) e)
  or_reply-Answers panicked s e f = λ h. absurd (ground (arith, h))
  or_reply-Answers switched s e f = λ h. absurd (ground (arith, h))
  or_reply-Answers waiting s e f = λ h. absurd (ground (arith, h))

  -- A step that may fail, before what answers.
  try_call-Answers :
      (m : M Server A) (s : Server)
      → (m s).1.sent ≡ l
      → ((a : A) → Answers envid l (k a (m s).1))
      → Answers envid l (try_call envid m k s)
  try_call-Answers m s e f = or_reply-Answers (m s).0 (m s).1 e f

module _ (envid : ℕ) (l : List Reply) where
  -- A step that has sent nothing, before what answers.
  and_then-Answers :
      {A : Type 0} (r : Outcome A × Server) (k : A → M Server (Unit {0}))
      → r.1.sent ≡ l
      → ((a : A) → Answers envid l (k a r.1))
      → Answers envid l (and_then r k)
  and_then-Answers (ok a, s) k e f = f a
  and_then-Answers (err x, s) k e f = λ h. absurd (ground (arith, h))
  and_then-Answers (panicked, s) k e f = λ h. absurd (ground (arith, h))
  and_then-Answers (switched, s) k e f = λ h. absurd (ground (arith, h))
  and_then-Answers (waiting, s) k e f = λ h. absurd (ground (arith, h))

  send-Answers :
      (v : Option Error) (p : Page) (s : Server)
      → s.sent ≡ l
      → Answers envid l (ipc_send envid v p s)
  send-Answers v p s e h = (v, p, ap (λ t. record { whom = envid; value = v; page = p } ∷ t) e)

sent-open_scan : (n i : ℕ) (s : Server) → (open_scan n i s).1.sent ≡ s.sent
unfolding open_scan alloc_entry
sent-open_scan zero i s = refl
sent-open_scan (suc n) i s =
    let Same = λ (r : Outcome ℕ × Server). r.1.sent ≡ s.sent in
    if-cases Same (s.refs i == 0) (λ _. if-cases Same (s.fs.frames == 0) (λ _. refl) (λ _. refl))
      (λ _. if-cases Same (s.refs i == 1) (λ _. refl) (λ _. sent-open_scan n (suc i) s))

sent-open_lookup : (envid fileid : ℕ) (s : Server) → (open_lookup envid fileid s).1.sent ≡ s.sent
unfolding open_lookup
sent-open_lookup envid fileid s =
    let Same = λ (r : Outcome ℕ × Server). r.1.sent ≡ s.sent in
    if-cases Same (leb maxopen fileid) (λ _. refl)
      (λ _. if-cases Same (leb (s.refs fileid) 1) (λ _. refl) (λ _. refl))

-- A call of the file system that returns no error sends nothing.
sent-no_error :
    (envid : ℕ) (o : Outcome (Unit {0})) (s : Server)
    → ((e : Error) → o ≢ err e)
    → (or_reply envid pure o s).1.sent ≡ s.sent
sent-no_error envid (ok _) s h = refl
sent-no_error envid (err e) s h = absurd (h e refl)
sent-no_error envid panicked s h = refl
sent-no_error envid switched s h = refl
sent-no_error envid waiting s h = refl

sent-truncate_if : (envid omode f : ℕ) (s : Server) → (truncate_if envid omode f s).1.sent ≡ s.sent
unfolding truncate_if
sent-truncate_if envid omode f s =
    if-cases (λ (r : Outcome (Unit {0}) × Server). r.1.sent ≡ s.sent) (has_flag omode o_trunc)
      (λ _.
        sent-no_error envid (file_set_size f 0 s.fs).0
          (record s { fs = (file_set_size f 0 s.fs).1 }) (file_set_size-NoError f 0 s.fs))
      (λ _. refl)

fill_out-Answers :
    (envid omode i f : ℕ) (l : List Reply) (s : Server)
    → s.sent ≡ l
    → Answers envid l (fill_out envid omode i f s)
unfolding fill_out
fill_out-Answers envid omode i f l s e h = (
  none,
  filefd_page i,
  ap (λ t. record { whom = envid; value = none; page = filefd_page i } ∷ t) e,
)

opened-Answers :
    (envid omode i f : ℕ) (l : List Reply) (s : Server)
    → s.sent ≡ l
    → Answers envid l (opened envid omode i f s)
unfolding opened
opened-Answers envid omode i f l s e =
    let s1 = record s { o_file = update s.o_file i f } in
    let sent = sent-truncate_if envid omode f s1 ∙ e in
    and_then-Answers envid l (truncate_if envid omode f s1) (λ _. fill_out envid omode i f) sent
      (λ _. fill_out-Answers envid omode i f l (truncate_if envid omode f s1).1 sent)

module _ (envid : ℕ) (s : Server) where
  serve_open-Answers :
      (path : List ℕ) (omode : ℕ) → Answers envid s.sent (serve_open envid path omode s)
  unfolding serve_open open_alloc
  serve_open-Answers path omode =
      let l = s.sent in
      let sent = sent-open_scan maxopen 0 s in
      try_call-Answers envid l _ open_alloc s sent λ i.
        try_call-Answers envid l _ (on_fs (create_if path omode)) (open_alloc s).1 sent λ _.
          try_call-Answers envid l (opened envid omode i) (on_fs (file_open path))
            (on_fs (create_if path omode) (open_alloc s).1).1 sent
            λ f.
              opened-Answers envid omode i f l
                (on_fs (file_open path) (on_fs (create_if path omode) (open_alloc s).1).1).1 sent

  -- A request that looks up its file and then answers.
  looked_up-Answers :
      (fileid : ℕ) (k : ℕ → M Server (Unit {0}))
      → ((i : ℕ) (t : Server) → t.sent ≡ s.sent → Answers envid s.sent (k i t))
      → Answers envid s.sent (try_call envid (open_lookup envid fileid) k s)
  looked_up-Answers fileid k f =
      let sent = sent-open_lookup envid fileid s in
      try_call-Answers envid s.sent k (open_lookup envid fileid) s sent
        (λ i. f i (open_lookup envid fileid s).1 sent)

-- A call of the file system whose result is sent.
fs_call-Answers :
    {A : Type 0} (envid : ℕ) (l : List Reply) (m : M Fs A) (p : A → Page) (s : Server)
    → s.sent ≡ l
    → Answers envid l (try_call envid (on_fs m) (λ a. ipc_send envid none (p a)) s)
fs_call-Answers envid l m p s e =
    try_call-Answers envid l (λ a. ipc_send envid none (p a)) (on_fs m) s e
      (λ a. send-Answers envid l none (p a) (on_fs m s).1 e)

serve_request-Answers :
    (envid : ℕ) (r : Request) (s : Server) → Answers envid s.sent (serve_request envid r s)
unfolding serve_request serve_map serve_set_size serve_close serve_dirty serve_remove serve_sync
serve_request-Answers envid (fsreq_open path omode) s = serve_open-Answers envid s path omode
serve_request-Answers envid (fsreq_map fileid offset) s =
    looked_up-Answers envid s fileid _ λ i t e.
      fs_call-Answers envid s.sent (file_get_block (t.o_file i) (offset / block_size)) block_page t
        e
serve_request-Answers envid (fsreq_set_size fileid size) s =
    looked_up-Answers envid s fileid _
      λ i t e. fs_call-Answers envid s.sent (file_set_size (t.o_file i) size) (λ _. no_page) t e
serve_request-Answers envid (fsreq_close fileid) s = looked_up-Answers envid s fileid _ λ i t e.
    and_then-Answers envid s.sent (on_fs (file_close (t.o_file i)) t)
      (λ _. ipc_send envid none no_page) e
      (λ _. send-Answers envid s.sent none no_page (on_fs (file_close (t.o_file i)) t).1 e)
serve_request-Answers envid (fsreq_dirty fileid offset) s =
    looked_up-Answers envid s fileid _
      λ i t e. fs_call-Answers envid s.sent (file_dirty (t.o_file i) offset) (λ _. no_page) t e
serve_request-Answers envid (fsreq_remove path) s =
    fs_call-Answers envid s.sent (file_remove path) (λ _. no_page) s refl
serve_request-Answers envid fsreq_sync s =
    and_then-Answers envid s.sent (on_fs fs_sync s) (λ _. ipc_send envid none no_page) refl
      (λ _. send-Answers envid s.sent none no_page (on_fs fs_sync s).1 refl)

-- What a round has done when it returns.
abbrev pub Served : ℕ → List Reply → Outcome (Unit {0}) × Server → Type 0
Served envid l r =
    r.0 ≡ ok tt
    → ((v : Option Error) × (p : Page) × (r.1.sent
          ≡ record { whom = envid; value = v; page = p } ∷ l))
      × (r.1.fs.is_locked ≡ false)

released-Served :
    (envid : ℕ) (l : List Reply) (r : Outcome (Unit {0}) × Server)
    → Answers envid l r
    → Served envid l (and_then r (λ _. on_fs user_spin_unlock))
unfolding user_spin_unlock
released-Served envid l (ok _, s) a h = (a refl, refl)
released-Served envid l (err e, s) a h = absurd (ground (arith, h))
released-Served envid l (panicked, s) a h = absurd (ground (arith, h))
released-Served envid l (switched, s) a h = absurd (ground (arith, h))
released-Served envid l (waiting, s) a h = absurd (ground (arith, h))

abbrev locked : Server → Server
locked s = record s { fs = record (s.fs) { is_locked = true } }

serve_round-locked :
    (envid : ℕ) (r : Request) (s : Server)
    → s.fs.is_locked ≡ true
    → serve_round envid (request r) s ≡ (waiting, s)
unfolding serve_round user_spin_lock
serve_round-locked envid r s e = rw e refl

serve_round-free :
    (envid : ℕ) (r : Request) (s : Server)
    → s.fs.is_locked ≡ false
    → serve_round envid (request r) s
      ≡ and_then (serve_request envid r (locked s)) (λ _. on_fs user_spin_unlock)
unfolding serve_round user_spin_lock
serve_round-free envid r s e = rw e refl

-- A round of `serve` that serves a request and returns has sent exactly one reply, to the env that has
-- sent the request, and leaves `fs_lock` free.
pub serve_round-Served :
    (envid : ℕ) (r : Request) (s : Server)
    → (serve_round envid (request r) s).0 ≡ ok tt
    → ((v : Option Error) × (p : Page) × ((serve_round envid (request r) s).1.sent
          ≡ record { whom = envid; value = v; page = p } ∷ s.sent))
      × ((serve_round envid (request r) s).1.fs.is_locked ≡ false)
serve_round-Served envid r s = elim (Bool-cases (s.fs.is_locked)) [
  | inl e ↦
      subst (Served envid s.sent) (sym (serve_round-locked envid r s e))
        (λ h. absurd (ground (arith, h)))
  | inr e ↦ subst (Served envid s.sent) (sym (serve_round-free envid r s e)) (
      released-Served envid s.sent (serve_request envid r (locked s))
        (serve_request-Answers envid r (locked s)))
]

-- A FSREQ_SYNC is never answered: the round that serves it waits for `fs_lock`, which it has taken
-- itself, and sends nothing; and in the state that it leaves every request waits.
pub serve_round-fsreq_sync :
    (envid : ℕ) (s : Server)
    → s.fs.is_locked ≡ false
    → ((serve_round envid (request fsreq_sync) s).0 ≡ waiting)
      × ((serve_round envid (request fsreq_sync) s).1.sent ≡ s.sent)
      × ((other : ℕ) (r : Request)
          → (serve_round other (request r) (serve_round envid (request fsreq_sync) s).1).0
            ≡ waiting)
unfolding serve_request serve_sync fs_sync user_spin_lock
serve_round-fsreq_sync envid s e = rw (serve_round-free envid fsreq_sync s e) (
  refl,
  refl,
  λ other r.
      ap (λ (x : Outcome (Unit {0}) × Server). x.0) (serve_round-locked other r (locked s) refl),
)
