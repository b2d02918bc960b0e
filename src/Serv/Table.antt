-- ===== src/Serv/Table.antt =====
-- fs/serv.c: which entry of the table of open files a new file gets.
use os_challenging_mission.Base.{ℕ, ◌+◌, ◌≤◌, ◌<◌, ◌≡◌, ◌⊎◌, update}
use os_challenging_mission.Errors.{Outcome, ok, err, no_mem, max_open}
use os_challenging_mission.Serv.{Server, zero_ff}

-- Clients hold all the entries from `from` up to `to`.
abbrev pub Held : ℕ → ℕ → Server → Type 0
Held from to s = (j : ℕ) → from ≤ j → j < to → 2 ≤ s.refs j

-- What a search among the `n` entries from `from` does.
abbrev pub Entry : ℕ → ℕ → Server → Outcome ℕ × Server → Type 0
Entry n from s (ok i, t) =
    (from ≤ i)
    × (i < from + n)
    × (s.refs i ≤ 1)
    × Held from i s
    × (t.refs ≡ update s.refs i 1)
    × (t.o_ff ≡ update s.o_ff i zero_ff)
Entry n from s (err e, t) =
    (t ≡ s) × (((e ≡ max_open) × Held from (from + n) s) ⊎ ((e ≡ no_mem) × (s.fs.frames ≡ 0)))
Entry n from s _ = ⊥
