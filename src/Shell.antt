-- ===== src/Shell.antt =====
-- user/sh.c: how the shell takes a command line apart. `buf` is the memory by bytes, 0 is NULL, and a
-- token is told by what `_gettoken` returns: 0, a symbol, or 'w' for a word.
pub mod Words
pub mod Tokens
pub mod Parse
mod Examples
use os_challenging_mission.Base.{
  ℕ, zero, suc, ◌+◌, ◌-◌, ◌*◌, ◌/◌, ◌%◌, ◌^◌, ◌≤◌, ◌<◌, ◌≡◌, ◌≢◌, ◌⊎◌, ◌↔◌, inl, inr, refl, sym, ap,
  ◌∙◌, subst, Bool, true, false, not, ◌&&◌, ◌||◌, List, [], ◌∷◌, ◌++◌, arith, ◌==◌, ltb, leb,
  if◌then◌else◌, Option, none, some, Bool-cases, Option-cases, List-cases, update, count, length,
}

-- lib/string.c: whether `strchr` finds a byte in a string; it does not find the 0 at the end.
unfoldable pub strchr : List ℕ → ℕ → Bool
strchr [] c = false
strchr (x ∷ l) c = let rest = strchr l c in if x == c then true else rest

abbrev pub whitespace : List ℕ
whitespace = 0x20 ∷ 0x09 ∷ 0x0d ∷ 0x0a ∷ []

abbrev pub symbols : List ℕ
symbols = 0x3c ∷ 0x7c ∷ 0x3e ∷ 0x26 ∷ 0x3b ∷ 0x28 ∷ 0x29 ∷ []

abbrev pub is_white : ℕ → Bool
is_white c = strchr whitespace c

abbrev pub is_symbol : ℕ → Bool
is_symbol c = strchr symbols c

-- `while (strchr(WHITESPACE, *s)) *s++ = 0;`
unfoldable pub skip_white : (fuel s : ℕ) → (ℕ → ℕ) → ℕ × (ℕ → ℕ)
skip_white zero s buf = (s, buf)
skip_white (suc n) s buf =
    let rest = skip_white n (s + 1) (update buf s 0) in if is_white (buf s) then rest else (s, buf)

-- `while (*s && !strchr(WHITESPACE SYMBOLS, *s)) s++;`
unfoldable pub word_end : (fuel s : ℕ) → (ℕ → ℕ) → ℕ
word_end zero s buf = s
word_end (suc n) s buf =
    let rest = word_end n (s + 1) buf in
    if not (buf s == 0) && not (strchr (whitespace ++ symbols) (buf s)) then rest else s

pub record Token : Type 0 where
  pub kind : ℕ
  pub p1 : ℕ
  pub p2 : ℕ

-- What follows the loop over the spaces.
unfoldable pub token_at : (fuel s : ℕ) → (ℕ → ℕ) → Token × (ℕ → ℕ)
unfolding word_end
token_at fuel s buf =
    if buf s == 0
    then (record { kind = 0; p1 = 0; p2 = 0 }, buf)
    else if is_symbol (buf s)
    then (record { kind = buf s; p1 = s; p2 = s + 1 }, update buf s 0)
    else (record { kind = 0x77; p1 = s; p2 = word_end fuel s buf }, buf)

-- `_gettoken`
unfoldable pub raw_gettoken : (fuel s : ℕ) → (ℕ → ℕ) → Token × (ℕ → ℕ)
unfolding skip_white token_at
raw_gettoken fuel s buf =
    if s == 0
    then (record { kind = 0; p1 = 0; p2 = 0 }, buf)
    else let r = skip_white fuel s buf in token_at fuel r.0 r.1

-- The statics of `gettoken`, and the memory.
pub record Lexer : Type 0 where
  pub next : Token
  pub buf : ℕ → ℕ

-- `gettoken(s, 0)` for a string.
unfoldable pub gettoken_start : (fuel s : ℕ) → (ℕ → ℕ) → Lexer
gettoken_start fuel s buf = let r = raw_gettoken fuel s buf in record { next = r.0; buf = r.1 }

-- `gettoken(0, &t)`: `c` and `t`.
unfoldable pub gettoken : ℕ → Lexer → (ℕ × ℕ) × Lexer
gettoken fuel x =
    let r = raw_gettoken fuel x.next.p2 x.buf in
    ((x.next.kind, x.next.p1), record { next = r.0; buf = r.1 })
