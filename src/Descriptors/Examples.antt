-- ===== src/Descriptors/Examples.antt =====
-- An env with two descriptors, 0 and 1, of which the first one is duplicated.
use os_challenging_mission.Base.{ℕ, ◌+◌, ◌/◌, ◌≡◌, refl, arith, ◌==◌, if◌then◌else◌, none, some}
use os_challenging_mission.Errors.{M, ok}
use os_challenging_mission.Descriptors.{
  Space, index2fd, fdtable, fd_at, dup, seek, fd_alloc, fd_lookup, close, close_found, fd_close,
  dev_lookup, dup_to, dup_end, share_all, data_step, fd_step, syscall_mem_map, syscall_mem_unmap,
}
use os_challenging_mission.Descriptors.Dup.{Keeps}
use os_challenging_mission.Descriptors.Table.{Unused, fd_alloc_lem}
use os_challenging_mission.Descriptors.Sharing.{seek-dup}

-- A file and a console; neither has pages of data.
abbrev env_space : Space
env_space = record {
  vpt = λ p.
      if p == fdtable
      then some (record { frame = 5; perm = 0x102 })
      else if p == fdtable + 1
      then some (record { frame = 6; perm = 0x102 })
      else none;
  vpd = λ d. d == fdtable / 1024;
  fds = λ f. record { fd_dev_id = if f == 5 then 102 else 99; fd_offset = 40; fd_omode = 2 };
  frames = 0;
}

-- A device that does nothing on close.
abbrev plain_close : (dev fd : ℕ) → M Space (Unit {0})
plain_close dev fd s = (ok tt, s)

plain_close-Keeps : (dev fd : ℕ) (s : Space) → Keeps fd s (plain_close dev fd s).1
plain_close-Keeps dev fd s p h n = refl

duplicated : (dup plain_close 0 1 env_space).0 ≡ ok 1
unfolding dup fd_lookup close close_found fd_close dev_lookup dup_to dup_end share_all data_step
    fd_step syscall_mem_map syscall_mem_unmap
duplicated = refl

seek_example :
    (◌≡◌ {A = ℕ} 1 1)
    × ((dup plain_close 0 1 env_space).1.vpt (index2fd 0) ≡ env_space.vpt (index2fd 0))
    × ((seek 1 7 (dup plain_close 0 1 env_space).1).0 ≡ ok tt)
    × ((fd_at (seek 1 7 (dup plain_close 0 1 env_space).1).1 (index2fd 0)).fd_offset ≡ 7)
seek_example =
    seek-dup plain_close plain_close-Keeps 0 1 1 7 env_space (omega arith) (omega arith)
      (omega arith) duplicated

fd_alloc_example : Unused 31 0 env_space (fd_alloc env_space)
fd_alloc_example = fd_alloc_lem env_space
