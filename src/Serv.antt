-- ===== src/Serv.antt =====
-- fs/serv.c: the server of the file system and its table of open files.
-- Entry `i` of `opentab` has the file id i and the page at FILEVA + i * BLOCK_SIZE, as `serve_init`
-- sets them. `refs` is `pageref` of these pages: clients map and unmap them between the requests. A reply
-- is the first of `sent` and stands for the `ipc_send` that delivers it.
mod Replies
mod Table
mod Examples
use os_challenging_mission.Base.{
  ℕ, zero, suc, ◌+◌, ◌-◌, ◌*◌, ◌/◌, ◌%◌, ◌^◌, ◌≤◌, ◌<◌, ◌≡◌, ◌≢◌, ◌⊎◌, ◌↔◌, inl, inr, refl, sym, ap,
  ◌∙◌, subst, Bool, true, false, not, ◌&&◌, ◌||◌, List, [], ◌∷◌, ◌++◌, arith, ◌==◌, ltb, leb,
  if◌then◌else◌, Option, none, some, Bool-cases, Option-cases, List-cases, update, count, length,
}
use Prim.Native.Nat.{bit_and}
use os_challenging_mission.Errors.{
  M, Outcome, Error, ok, err, panicked, switched, waiting, no_mem, max_open, inval, file_exists,
  ◌>>=◌, ◌>>◌, pure,
}
use os_challenging_mission.Fs.{Fs, block_size, user_spin_lock, user_spin_unlock}
use os_challenging_mission.Fs.File.{file_get_block, file_dirty}
use os_challenging_mission.Fs.Path.{file_open, file_create}
use os_challenging_mission.Fs.Ops.{file_set_size, file_close, file_remove, fs_sync}

-- `struct Filefd`, less the padding. `f_file` is a copy of the file's structure.
pub record Filefd : Type 0 where
  pub fd_dev_id : ℕ
  pub fd_offset : ℕ
  pub fd_omode : ℕ
  pub f_fileid : ℕ
  pub f_file : ℕ → ℕ

-- The page that a reply carries: none, the Filefd page of an entry, or a block of the cache.
pub data Page : Type 0 where
  no_page : Page
  filefd_page : (i : ℕ) → Page
  block_page : (blk : ℕ) → Page

-- `value` is `none` for 0.
pub record Reply : Type 0 where
  pub whom : ℕ
  pub value : Option Error
  pub page : Page

pub record Server : Type 0 where
  pub fs : Fs
  pub refs : ℕ → ℕ
  pub o_file : ℕ → ℕ
  pub o_mode : ℕ → ℕ
  pub o_ff : ℕ → Filefd
  pub sent : List Reply

abbrev pub maxopen : ℕ
maxopen = 1024

abbrev pub o_creat : ℕ
o_creat = 0x100

abbrev pub o_trunc : ℕ
o_trunc = 0x200

-- `devfile.dev_id`, which is 'f'
abbrev pub dev_file : ℕ
dev_file = 102

module _ {A : Type 0} where
  abbrev pub on_fs : M Fs A → M Server A
  on_fs m s = ((m s.fs).0, record s { fs = (m s.fs).1 })

-- `ipc_send(envid, value, page, perm)`
abbrev pub ipc_send : ℕ → Option Error → Page → M Server (Unit {0})
ipc_send envid v p s =
    (ok tt, record s { sent = record { whom = envid; value = v; page = p } ∷ s.sent })

module _ {A : Type 0} where
  -- `if ((r = ...) < 0) { ipc_send(envid, r, 0, 0); return; }`
  abbrev pub or_reply : ℕ → (A → M Server (Unit {0})) → Outcome A → M Server (Unit {0})
  or_reply envid k (ok a) s = k a s
  or_reply envid k (err e) s = ipc_send envid (some e) no_page s
  or_reply envid k panicked s = (panicked, s)
  or_reply envid k switched s = (switched, s)
  or_reply envid k waiting s = (waiting, s)

  abbrev pub try_call : ℕ → M Server A → (A → M Server (Unit {0})) → M Server (Unit {0})
  try_call envid m k s = or_reply envid k (m s).0 (m s).1

abbrev zero_ff : Filefd
zero_ff = record { fd_dev_id = 0; fd_offset = 0; fd_omode = 0; f_fileid = 0; f_file = λ _. 0 }

-- `memset(opentab[i].o_ff, 0, BLOCK_SIZE)`, with the new page of `syscall_mem_alloc` if there was none
abbrev pub clear_entry : ℕ → M Server ℕ
clear_entry i s = (ok i, record s { o_ff = update s.o_ff i zero_ff })

unfoldable pub alloc_entry : ℕ → M Server ℕ
alloc_entry i s =
    if s.fs.frames == 0
    then (err no_mem, s)
    else clear_entry i
        (record s { fs = record (s.fs) { frames = s.fs.frames - 1 }; refs = update s.refs i 1 })

-- The loop of `open_alloc`: `n` entries from entry `i`.
unfoldable pub open_scan : ℕ → ℕ → M Server ℕ
unfolding alloc_entry
open_scan zero i s = (err max_open, s)
open_scan (suc n) i s =
    let rest = open_scan n (suc i) s in
    if s.refs i == 0 then alloc_entry i s else if s.refs i == 1 then clear_entry i s else rest

unfoldable pub open_alloc : M Server ℕ
unfolding open_scan
open_alloc = open_scan maxopen 0

-- `envid` is not looked at.
unfoldable pub open_lookup : ℕ → ℕ → M Server ℕ
open_lookup envid fileid s =
    if leb maxopen fileid
    then (err inval, s)
    else if leb (s.refs fileid) 1
    then (err inval, s)
    else (ok fileid, s)

abbrev pub has_flag : ℕ → ℕ → Bool
has_flag omode flag = not (bit_and omode flag == 0)

-- The file that exists is no error for O_CREAT.
unfoldable pub created : Outcome ℕ → M Fs (Unit {0})
created (ok f) s = (ok tt, s)
created (err file_exists) s = (ok tt, s)
created (err e) s = (err e, s)
created _ s = (panicked, s)

unfoldable pub create_if : List ℕ → ℕ → M Fs (Unit {0})
unfolding file_create created
create_if path omode s =
    if has_flag omode o_creat
    then created (file_create path s).0 (file_create path s).1
    else (ok tt, s)

-- O_TRUNC. An error is sent, and the call goes on.
unfoldable pub truncate_if : ℕ → ℕ → ℕ → M Server (Unit {0})
unfolding file_set_size
truncate_if envid omode f s =
    if has_flag omode o_trunc then try_call envid (on_fs (file_set_size f 0)) pure s else (ok tt, s)

-- The Filefd page is filled out and sent.
unfoldable pub fill_out : ℕ → ℕ → ℕ → ℕ → M Server (Unit {0})
fill_out envid omode i f s = ipc_send envid none (filefd_page i) (record s {
  o_mode = update s.o_mode i omode;
  o_ff = update s.o_ff i (record (s.o_ff i) {
    f_file = λ w. s.fs.mem (f + w);
    f_fileid = i;
    fd_omode = omode;
    fd_dev_id = dev_file;
  });
})

-- What follows `file_open`.
unfoldable pub opened : ℕ → ℕ → ℕ → ℕ → M Server (Unit {0})
unfolding truncate_if fill_out
opened envid omode i f = do
  λ s. (ok tt, record s { o_file = update s.o_file i f })
  truncate_if envid omode f
  fill_out envid omode i f

unfoldable pub serve_open : ℕ → List ℕ → ℕ → M Server (Unit {0})
unfolding open_alloc create_if file_open opened
serve_open envid path omode = try_call envid open_alloc λ i.
    try_call envid (on_fs (create_if path omode))
      λ _. try_call envid (on_fs (file_open path)) (opened envid omode i)

unfoldable pub serve_map : ℕ → ℕ → ℕ → M Server (Unit {0})
unfolding open_lookup file_get_block
serve_map envid fileid offset = try_call envid (open_lookup envid fileid) λ i s.
    try_call envid (on_fs (file_get_block (s.o_file i) (offset / block_size)))
      (λ blk. ipc_send envid none (block_page blk)) s

unfoldable pub serve_set_size : ℕ → ℕ → ℕ → M Server (Unit {0})
unfolding open_lookup file_set_size
serve_set_size envid fileid size = try_call envid (open_lookup envid fileid) λ i s.
    try_call envid (on_fs (file_set_size (s.o_file i) size)) (λ _. ipc_send envid none no_page) s

unfoldable pub serve_close : ℕ → ℕ → M Server (Unit {0})
unfolding open_lookup file_close
serve_close envid fileid =
    try_call envid (open_lookup envid fileid)
      λ i s. (do on_fs (file_close (s.o_file i)); ipc_send envid none no_page) s

-- The result of `file_remove` is sent, whatever it is.
unfoldable pub serve_remove : ℕ → List ℕ → M Server (Unit {0})
unfolding file_remove
serve_remove envid path =
    try_call envid (on_fs (file_remove path)) (λ _. ipc_send envid none no_page)

unfoldable pub serve_dirty : ℕ → ℕ → ℕ → M Server (Unit {0})
unfolding open_lookup file_dirty
serve_dirty envid fileid offset = try_call envid (open_lookup envid fileid) λ i s.
    try_call envid (on_fs (file_dirty (s.o_file i) offset)) (λ _. ipc_send envid none no_page) s

unfoldable pub serve_sync : ℕ → M Server (Unit {0})
unfolding fs_sync
serve_sync envid = do on_fs fs_sync; ipc_send envid none no_page

-- The requests, by their codes and with what their pages hold.
pub data Request : Type 0 where
  fsreq_open : (req_path : List ℕ) (req_omode : ℕ) → Request
  fsreq_map : (req_fileid req_offset : ℕ) → Request
  fsreq_set_size : (req_fileid req_size : ℕ) → Request
  fsreq_close : (req_fileid : ℕ) → Request
  fsreq_dirty : (req_fileid req_offset : ℕ) → Request
  fsreq_remove : (req_path : List ℕ) → Request
  fsreq_sync : Request

-- `serve_table`
unfoldable pub serve_request : ℕ → Request → M Server (Unit {0})
unfolding serve_open serve_map serve_set_size serve_close serve_dirty serve_remove serve_sync
serve_request envid (fsreq_open path omode) = serve_open envid path omode
serve_request envid (fsreq_map fileid offset) = serve_map envid fileid offset
serve_request envid (fsreq_set_size fileid size) = serve_set_size envid fileid size
serve_request envid (fsreq_close fileid) = serve_close envid fileid
serve_request envid (fsreq_dirty fileid offset) = serve_dirty envid fileid offset
serve_request envid (fsreq_remove path) = serve_remove envid path
serve_request envid fsreq_sync = serve_sync envid

-- What `ipc_recv` has got in a round of `serve`: no argument page, a code that is none of the seven, or
-- a request.
pub data Received : Type 0 where
  no_argument bad_code : Received
  request : Request → Received

-- One round of the loop of `serve`. `fs_lock` is held while a request is served.
unfoldable pub serve_round : ℕ → Received → M Server (Unit {0})
unfolding serve_request user_spin_lock user_spin_unlock
serve_round envid no_argument = pure tt
serve_round envid bad_code = pure tt
serve_round envid (request r) = do
  on_fs user_spin_lock
  serve_request envid r
  on_fs user_spin_unlock
