-- ===== src/Serv/Examples.antt =====
-- The server with one open file, the root directory of the small file system.
use os_challenging_mission.Base.{ℕ, ◌≡◌, refl, false, [], ◌∷◌, ◌==◌, if◌then◌else◌, Option}
use os_challenging_mission.Errors.{Error, ok, waiting}
use os_challenging_mission.Fs.{
  user_spin_lock, user_spin_unlock, read_block, block_is_free, block_is_mapped,
}
use os_challenging_mission.Fs.File.{file_get_block, file_map_block, file_block_walk, map_slot}
use os_challenging_mission.Fs.Path.{s_root}
use os_challenging_mission.Fs.Examples.{small}
use os_challenging_mission.Serv.{
  Server, Page, Request, open_lookup, zero_ff, serve_round, serve_request, serve_map, request,
  fsreq_map, fsreq_sync, open_lookup,
}
use os_challenging_mission.Serv.Replies.{serve_round-Served, serve_round-fsreq_sync}

abbrev serving : Server
serving = record {
  fs = small;
  refs = λ i. if i == 0 then 2 else 0;
  o_file = λ _. s_root;
  o_mode = λ _. 0;
  o_ff = λ _. zero_ff;
  sent = [];
}

returned : (serve_round 7 (request (fsreq_map 0 0)) serving).0 ≡ ok tt
unfolding serve_round serve_request serve_map open_lookup user_spin_lock user_spin_unlock
    file_get_block file_map_block file_block_walk map_slot read_block block_is_free block_is_mapped
returned = refl

serve_round_example :
    ((v : Option Error) × (p : Page) × ((serve_round 7 (request (fsreq_map 0 0)) serving).1.sent
        ≡ record { whom = 7; value = v; page = p } ∷ []))
    × ((serve_round 7 (request (fsreq_map 0 0)) serving).1.fs.is_locked ≡ false)
serve_round_example = serve_round-Served 7 (fsreq_map 0 0) serving returned

fsreq_sync_example :
    ((serve_round 7 (request fsreq_sync) serving).0 ≡ waiting)
    × ((serve_round 7 (request fsreq_sync) serving).1.sent ≡ [])
    × ((other : ℕ) (r : Request)
        → (serve_round other (request r) (serve_round 7 (request fsreq_sync) serving).1).0
          ≡ waiting)
fsreq_sync_example = serve_round-fsreq_sync 7 serving refl
