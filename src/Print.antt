-- ===== src/Print.antt =====
-- lib/print.c: `print_num` and `print_char`. What `out` is given is a text of `len`
-- characters.
mod Digits
pub mod Format
mod Examples
use os_challenging_mission.Base.{
  ℕ, zero, suc, ◌+◌, ◌-◌, ◌*◌, ◌/◌, ◌%◌, ◌^◌, ◌≤◌, ◌<◌, ◌≡◌, ◌≢◌, ◌⊎◌, ◌↔◌, inl, inr, refl, sym, ap,
  ◌∙◌, subst, Bool, true, false, not, ◌&&◌, ◌||◌, List, [], ◌∷◌, ◌++◌, arith, ◌==◌, ltb, leb,
  if◌then◌else◌, Option, none, some, Bool-cases, Option-cases, List-cases, update, count, length,
}

pub record Text : Type 0 where
  pub len : ℕ
  pub chars : ℕ → ℕ

abbrev pub digit_char : (upcase : Bool) → ℕ → ℕ
digit_char upcase tmp =
    if leb tmp 9 then 48 + tmp else if upcase then 65 + tmp - 10 else 97 + tmp - 10

-- The loop over the digits, with `p` as an index: each round but the last makes `u` smaller.
unfoldable pub put_digits : (fuel : ℕ) (base : ℕ) (upcase : Bool) (u p : ℕ) (buf : ℕ → ℕ) → Text
put_digits zero base upcase u p buf = record { len = p; chars = buf }
put_digits (suc fuel) base upcase u p buf =
    let next = update buf p (digit_char upcase (u % base)) in
    let rest = put_digits fuel base upcase (u / base) (p + 1) next in
    if u / base == 0 then record { len = p + 1; chars = next } else rest

-- `for (i = from; i < to; i++) buf[i] = padc`
abbrev pub pad : (from to padc : ℕ) (buf : ℕ → ℕ) → ℕ → ℕ
pad from to padc buf i = if leb from i && ltb i to then padc else buf i

-- '-'
abbrev pub minus : ℕ
minus = 45

abbrev pub put_sign : Bool → Text → Text
put_sign false t = t
put_sign true t = record { len = t.len + 1; chars = update t.chars t.len minus }

-- `while (end > begin)`: the characters from `begin` to `end` are reversed.
unfoldable pub reverse_loop : (fuel begin end : ℕ) (buf : ℕ → ℕ) → ℕ → ℕ
reverse_loop zero begin end buf = buf
reverse_loop (suc fuel) begin end buf =
    let rest =
      reverse_loop fuel (begin + 1) (end - 1)
        (update (update buf begin (buf end)) end (buf begin)) in
    if ltb begin end then rest else buf

abbrev pub max_len : ℕ → ℕ → ℕ
max_len length actual = if ltb length actual then actual else length

-- The padding of `print_num`: a sign goes before zeros.
unfoldable pub add_padding : (neg ladjust : Bool) (padc actual length : ℕ) (buf : ℕ → ℕ) → ℕ → ℕ
add_padding neg ladjust padc actual length buf =
    let padc = if ladjust then 32 else padc in
    if neg && not ladjust && (padc == 48)
    then update (pad (actual - 1) (length - 1) padc buf) (length - 1) minus
    else pad actual length padc buf

-- What follows the sign in `print_num`.
abbrev pub finish : (neg_flag ladjust : Bool) (padc length : ℕ) → Text → Text
finish neg_flag ladjust padc length t =
    let long = max_len length t.len in
    let end = if ladjust then t.len - 1 else long - 1 in
    record {
      len = long;
      chars = reverse_loop long 0 end (add_padding neg_flag ladjust padc t.len long t.chars);
    }

unfoldable pub print_num :
    (u base : ℕ) (neg_flag : Bool) (length : ℕ) (ladjust : Bool) (padc : ℕ) (upcase : Bool)
    → (ℕ → ℕ)
    → Text
print_num u base neg_flag length ladjust padc upcase buf =
    finish neg_flag ladjust padc length (put_sign neg_flag (put_digits (u + 1) base upcase u 0 buf))

-- `print_char`
unfoldable pub print_char : (c length : ℕ) (ladjust : Bool) → Text
print_char c length ladjust =
    let long = if ltb length 1 then 1 else length in
    record { len = long; chars = λ i. if i == (if ladjust then 0 else long - 1) then c else 32 }
