-- ===== src/Memory.antt =====
-- lib/string.c: `memcpy`, which moves words of four bytes where it can. Memory is a
-- function from addresses to bytes. `left` is `max - dst`, so that the loops that copy single bytes
-- recurse on it; the loop over words has fuel.

pub mod Copy
pub mod Fill
mod Examples
use os_challenging_mission.Base.{
  ℕ, zero, suc, ◌+◌, ◌-◌, ◌%◌, ◌&&◌, ◌==◌, ltb, leb, if◌then◌else◌, update,
}

pub record Cursor : Type 0 where
  pub dst : ℕ
  pub src : ℕ
  pub left : ℕ
  pub mem : ℕ → ℕ

-- `*(char *)dst++ = *(char *)src++`
abbrev pub copy_byte : Cursor → Cursor
copy_byte c = record {
  dst = c.dst + 1;
  src = c.src + 1;
  left = c.left - 1;
  mem = update c.mem c.dst (c.mem c.src);
}

-- The four bytes of a word, all read before the first is written.
abbrev pub write_four : (ℕ → ℕ) → ℕ → (ℕ → ℕ) → ℕ → ℕ
write_four m dst w j = if leb dst j && ltb j (dst + 4) then w (j - dst) else m j

-- `*(uint32_t *)dst = *(uint32_t *)src; dst += 4; src += 4`
abbrev pub copy_word : Cursor → Cursor
copy_word c = record {
  dst = c.dst + 4;
  src = c.src + 4;
  left = c.left - 4;
  mem = write_four c.mem c.dst (λ i. c.mem (c.src + i));
}

-- `while (((u_long)dst & 3) && dst < max)`
unfoldable pub align : ℕ → Cursor → Cursor
align zero c = c
align (suc n) c = let rest = align n (copy_byte c) in if c.dst % 4 == 0 then c else rest

-- `while (dst + 4 <= max)`
unfoldable pub copy_words : (fuel : ℕ) → Cursor → Cursor
copy_words zero c = c
copy_words (suc fuel) c =
    let rest = copy_words fuel (copy_word c) in if leb 4 c.left then rest else c

-- `while (dst < max)`
unfoldable pub copy_bytes : ℕ → Cursor → Cursor
copy_bytes zero c = c
copy_bytes (suc n) c = copy_bytes n (copy_byte c)

-- Enough fuel is the number of bytes.
unfoldable pub memcpy : (dst src n : ℕ) → (ℕ → ℕ) → ℕ → ℕ
unfolding align copy_words copy_bytes
memcpy dst src n m =
    let c : Cursor = record { dst = dst; src = src; left = n; mem = m } in
    if src % 4 == dst % 4
    then (let a = align c.left c in let w = copy_words a.left a in (copy_bytes w.left w).mem)
    else (copy_bytes c.left c).mem
