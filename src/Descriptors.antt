-- ===== src/Descriptors.antt =====
-- user/lib/fd.c: the file descriptors of an env.
-- A page is given by its number, va / PTMAP, and a page of the descriptor table is a `struct Fd *`. What a
-- page holds is with the frame that it is mapped to: two pages of one frame have one descriptor.
mod Table
mod Dup
mod Sharing
mod Examples
use os_challenging_mission.Base.{
  ℕ, zero, suc, ◌+◌, ◌-◌, ◌*◌, ◌/◌, ◌%◌, ◌^◌, ◌≤◌, ◌<◌, ◌≡◌, ◌≢◌, ◌⊎◌, ◌↔◌, inl, inr, refl, sym, ap,
  ◌∙◌, subst, Bool, true, false, not, ◌&&◌, ◌||◌, List, [], ◌∷◌, ◌++◌, arith, ◌==◌, ltb, leb,
  if◌then◌else◌, Option, none, some, Bool-cases, Option-cases, List-cases, update, count, length,
}
use Prim.Native.Nat.{bit_and}
use os_challenging_mission.Errors.{
  M, Outcome, ok, err, panicked, switched, waiting, inval, no_mem, max_open, ◌>>=◌, ◌>>◌, pure,
}

pub record Fd : Type 0 where
  pub fd_dev_id : ℕ
  pub fd_offset : ℕ
  pub fd_omode : ℕ

-- A valid entry of a page table: the frame and the low 12 bits.
pub record Pte : Type 0 where
  pub frame : ℕ
  pub perm : ℕ

-- `vpt` and the valid entries of `vpd`, the descriptors by frame, and the pages left for page tables.
pub record Space : Type 0 where
  pub vpt : ℕ → Option Pte
  pub vpd : ℕ → Bool
  pub fds : ℕ → Fd
  pub frames : ℕ

abbrev pub maxfd : ℕ
maxfd = 32

-- The pages that a page table maps, PDMAP / PTMAP.
abbrev pub pages_of_pd : ℕ
pages_of_pd = 1024

-- FILEBASE / PTMAP
abbrev pub filebase : ℕ
filebase = 0x60000

-- FDTABLE / PTMAP
abbrev pub fdtable : ℕ
fdtable = filebase - pages_of_pd

abbrev pub index2fd : ℕ → ℕ
index2fd i = fdtable + i

abbrev pub index2data : ℕ → ℕ
index2data i = filebase + i * pages_of_pd

abbrev pub fd2num : ℕ → ℕ
fd2num fd = fd - fdtable

abbrev pub fd2data : ℕ → ℕ
fd2data fd = index2data (fd2num fd)

-- PTE_D | PTE_LIBRARY
abbrev pub shared_bits : ℕ
shared_bits = 0x102

-- `(vpd[va / PDMAP] & PTE_V) != 0 && (vpt[va / PTMAP] & PTE_V) != 0`
abbrev pub pte_valid : Option Pte → Bool
pte_valid none = false
pte_valid (some p) = true

abbrev pub perm_of : Option Pte → ℕ
perm_of none = 0
perm_of (some p) = p.perm

abbrev pub page_valid : Space → ℕ → Bool
page_valid s p = pte_valid (s.vpt p)

-- What `sys_mem_map` does in the caller's own space, at legal addresses, with the entry that the source
-- has: -E_INVAL if it has none, and -E_NO_MEM if a page table is wanted and there is no page.
abbrev pub map_entry : Option Pte → (dst perm : ℕ) → M Space (Unit {0})
map_entry none dst perm s = (err inval, s)
map_entry (some p) dst perm s =
    if not (s.vpd (dst / pages_of_pd)) && (s.frames == 0) then (err no_mem, s) else (
      ok tt,
      record s {
        vpt = update s.vpt dst (some (record { frame = p.frame; perm = perm }));
        vpd = update s.vpd (dst / pages_of_pd) true;
        frames = if s.vpd (dst / pages_of_pd) then s.frames else s.frames - 1;
      },
    )

-- `syscall_mem_map(0, src, 0, dst, perm)` and `syscall_mem_unmap(0, p)`
unfoldable pub syscall_mem_map : (src dst perm : ℕ) → M Space (Unit {0})
syscall_mem_map src dst perm s = map_entry (s.vpt src) dst perm s

unfoldable pub syscall_mem_unmap : ℕ → M Space (Unit {0})
syscall_mem_unmap p s = (ok tt, record s { vpt = update s.vpt p none })

-- `devtab`: the file, the console and the pipe
unfoldable pub dev_lookup : ℕ → M Space ℕ
dev_lookup id s =
    if id == 102
    then (ok id, s)
    else if id == 99
    then (ok id, s)
    else if id == 112
    then (ok id, s)
    else (err inval, s)

-- The loop of `fd_alloc`: `n` numbers from `fdno`.
unfoldable pub scan_fds : ℕ → ℕ → M Space ℕ
scan_fds zero fdno s = (err max_open, s)
scan_fds (suc n) fdno s =
    let rest = scan_fds n (suc fdno) s in
    if not (s.vpd (index2fd fdno / pages_of_pd))
    then (ok (index2fd fdno), s)
    else if not (page_valid s (index2fd fdno))
    then (ok (index2fd fdno), s)
    else rest

unfoldable pub fd_alloc : M Space ℕ
unfolding scan_fds
fd_alloc = scan_fds (maxfd - 1) 0

unfoldable pub fd_close : ℕ → M Space (Unit {0})
unfolding syscall_mem_unmap
fd_close fd = syscall_mem_unmap fd

-- For a number that is not negative.
unfoldable pub fd_lookup : ℕ → M Space ℕ
fd_lookup fdnum s =
    if leb maxfd fdnum
    then (err inval, s)
    else if page_valid s (index2fd fdnum)
    then (ok (index2fd fdnum), s)
    else (err inval, s)

abbrev no_fd : Fd
no_fd = record { fd_dev_id = 0; fd_offset = 0; fd_omode = 0 }

-- The descriptor that a page shows.
abbrev pub fd_of : Space → Option Pte → Fd
fd_of s none = no_fd
fd_of s (some p) = s.fds p.frame

abbrev pub fd_at : Space → ℕ → Fd
fd_at s fd = fd_of s (s.vpt fd)

-- `fd->fd_offset = offset`
abbrev pub set_offset : Option Pte → ℕ → Space → Space
set_offset none offset s = s
set_offset (some p) offset s = record s {
  fds = update s.fds p.frame (record (s.fds p.frame) { fd_offset = offset });
}

unfoldable pub seek : ℕ → ℕ → M Space (Unit {0})
unfolding fd_lookup
seek fdnum offset = do fd ← fd_lookup fdnum; λ s. (ok tt, set_offset (s.vpt fd) offset s)

-- `r = (*dev->dev_close)(fd); fd_close(fd); return r;`
unfoldable pub close_found : ℕ → Outcome (Unit {0}) → M Space (Unit {0})
unfolding fd_close
close_found fd (ok _) s = fd_close fd s
close_found fd (err e) s = (err e, (fd_close fd s).1)
close_found fd panicked s = (panicked, s)
close_found fd switched s = (switched, s)
close_found fd waiting s = (waiting, s)

-- `if (r > 0) fd->fd_offset += r;`
unfoldable pub advance : ℕ → ℕ → M Space ℕ
advance fd r s =
    (ok r, if r == 0 then s else set_offset (s.vpt fd) (((fd_at s fd).fd_offset + r) % 2 ^ 32) s)

-- `fd->fd_omode & O_ACCMODE`
abbrev pub accmode : Space → ℕ → ℕ
accmode s fd = (fd_at s fd).fd_omode % 4

-- `if (pte & PTE_V)`: one page of the data is shared.
unfoldable pub share_page : Option Pte → (src dst : ℕ) → M Space (Unit {0})
unfolding syscall_mem_map
share_page none src dst s = (ok tt, s)
share_page (some p) src dst s = syscall_mem_map src dst (bit_and p.perm shared_bits) s

-- The loop of `dup` over the data: `n` pages from page `i`.
unfoldable pub share_data : (ova nva n i : ℕ) → M Space (Unit {0})
unfolding share_page
share_data ova nva zero i s = (ok tt, s)
share_data ova nva (suc n) i s =
    let rest = share_data ova nva n (suc i) in
    (do λ t. share_page (t.vpt (ova + i)) (ova + i) (nva + i) t; rest) s

-- The label `err` of `dup`: `n` pages from page `i` are unmapped.
unfoldable pub unmap_data : (nva n i : ℕ) → Space → Space
unfolding syscall_mem_unmap
unmap_data nva zero i s = s
unmap_data nva (suc n) i s = unmap_data nva n (suc i) (syscall_mem_unmap (nva + i) s).1

-- The pages of data, if there are any.
unfoldable pub data_step : (oldfd newfd : ℕ) → M Space (Unit {0})
data_step oldfd newfd s =
    if s.vpd (fd2data oldfd / pages_of_pd)
    then share_data (fd2data oldfd) (fd2data newfd) pages_of_pd 0 s
    else (ok tt, s)

-- The descriptor itself.
unfoldable pub fd_step : (oldfd newfd : ℕ) → M Space (Unit {0})
fd_step oldfd newfd s = syscall_mem_map oldfd newfd (bit_and (perm_of (s.vpt oldfd)) shared_bits) s

unfoldable pub share_all : (oldfd newfd : ℕ) → M Space (Unit {0})
share_all oldfd newfd = do data_step oldfd newfd; fd_step oldfd newfd

unfoldable pub dup_end : (newfdnum : ℕ) → Outcome (Unit {0}) → M Space ℕ
unfolding unmap_data syscall_mem_unmap
dup_end newfdnum (ok _) s = (ok newfdnum, s)
dup_end newfdnum (err e) s = (
  err e,
  unmap_data (index2data newfdnum) pages_of_pd 0 (syscall_mem_unmap (index2fd newfdnum) s).1,
)
dup_end newfdnum _ s = (panicked, s)

-- Steps 3 to 5 of `dup`. What `close` returned is not looked at, but for a panic.
unfoldable pub dup_to : (oldfd newfdnum : ℕ) → Outcome (Unit {0}) → M Space ℕ
unfolding share_all dup_end
dup_to oldfd newfdnum (ok _) s =
    dup_end newfdnum (share_all oldfd (index2fd newfdnum) s).0
      (share_all oldfd (index2fd newfdnum) s).1
dup_to oldfd newfdnum (err _) s =
    dup_end newfdnum (share_all oldfd (index2fd newfdnum) s).0
      (share_all oldfd (index2fd newfdnum) s).1
dup_to oldfd newfdnum _ s = (panicked, s)

-- A result that is not looked at: a call that returns is followed by the rest.
unfoldable pub go_on : M Space (Unit {0}) → Outcome (Unit {0}) → M Space (Unit {0})
go_on rest (ok _) s = rest s
go_on rest (err _) s = rest s
go_on rest _ s = (panicked, s)

-- `dev->dev_close`
module _ (dev_close : (dev fd : ℕ) → M Space (Unit {0})) where
  unfoldable pub close : ℕ → M Space (Unit {0})
  unfolding fd_lookup dev_lookup close_found
  close fdnum = do
    fd ← fd_lookup fdnum
    dev ← λ s. dev_lookup (fd_at s fd).fd_dev_id s
    λ s. close_found fd (dev_close dev fd s).0 (dev_close dev fd s).1

  unfoldable pub dup : (oldfdnum newfdnum : ℕ) → M Space ℕ
  unfolding fd_lookup close dup_to
  dup oldfdnum newfdnum = do
    oldfd ← fd_lookup oldfdnum
    λ s. dup_to oldfd newfdnum (close newfdnum s).0 (close newfdnum s).1

  -- The loop of `close_all`: `n` numbers from `i`.
  unfoldable pub close_from : ℕ → ℕ → M Space (Unit {0})
  unfolding close go_on
  close_from zero i s = (ok tt, s)
  close_from (suc n) i s = let rest = close_from n (suc i) in go_on rest (close i s).0 (close i s).1

  unfoldable pub close_all : M Space (Unit {0})
  unfolding close_from
  close_all = close_from maxfd 0

-- `dev->dev_read`, with the device, the descriptor, the count and the offset: how many bytes were moved.
module _ (dev_read : (dev fd n offset : ℕ) → M Space ℕ) where
  -- O_WRONLY is 1.
  unfoldable pub read_open : (fd n dev : ℕ) → M Space ℕ
  unfolding advance
  read_open fd n dev s =
      if accmode s fd == 1
      then (err inval, s)
      else (do r ← dev_read dev fd n (fd_at s fd).fd_offset; advance fd r) s

  unfoldable pub read : ℕ → ℕ → M Space ℕ
  unfolding fd_lookup dev_lookup read_open
  read fdnum n = do
    fd ← fd_lookup fdnum
    dev ← λ s. dev_lookup (fd_at s fd).fd_dev_id s
    read_open fd n dev

  -- The loop of `readn`, with `tot`: each round but the last reads a byte at least.
  unfoldable pub readn_from : (fuel : ℕ) (fdnum n tot : ℕ) → M Space ℕ
  unfolding read
  readn_from zero fdnum n tot s = (ok tot, s)
  readn_from (suc fuel) fdnum n tot s =
      let rest = readn_from fuel fdnum n in
      if leb n tot
      then (ok tot, s)
      else (do m ← read fdnum (n - tot); λ t. if m == 0 then (ok tot, t) else rest (tot + m) t) s

  unfoldable pub readn : ℕ → ℕ → M Space ℕ
  unfolding readn_from
  readn fdnum n = readn_from n fdnum n 0

-- `dev->dev_write`, with the same arguments
module _ (dev_write : (dev fd n offset : ℕ) → M Space ℕ) where
  -- O_RDONLY is 0.
  unfoldable pub write_open : (fd n dev : ℕ) → M Space ℕ
  unfolding advance
  write_open fd n dev s =
      if accmode s fd == 0
      then (err inval, s)
      else (do r ← dev_write dev fd n (fd_at s fd).fd_offset; advance fd r) s

  unfoldable pub write : ℕ → ℕ → M Space ℕ
  unfolding fd_lookup dev_lookup write_open
  write fdnum n = do
    fd ← fd_lookup fdnum
    dev ← λ s. dev_lookup (fd_at s fd).fd_dev_id s
    write_open fd n dev
