-- ===== src/Print/Format.antt =====
-- lib/print.c: `vprintfmt` and `print_str`. The format is the list of its bytes. `ap i` is the i-th word
-- of the arguments, `string_at` the bytes of the string at an address; the result is all that `out` is
-- given, in order. A long has 32 bits, as an int.
use os_challenging_mission.Base.{
  ℕ, zero, suc, ◌+◌, ◌-◌, ◌*◌, ◌%◌, ◌^◌, Bool, true, false, ◌&&◌, ◌||◌, List, [], ◌∷◌, ◌++◌, ◌==◌,
  ltb, leb, if◌then◌else◌, Option, none, some, length,
}
use os_challenging_mission.Print.{print_num, print_char, Text}

abbrev pub blanks : ℕ → List ℕ
blanks zero = []
blanks (suc n) = 32 ∷ blanks n

-- The characters of a text from `i` on, `n` of them.
abbrev pub chars_from : (n i : ℕ) → (ℕ → ℕ) → List ℕ
chars_from zero i chars = []
chars_from (suc n) i chars = chars i ∷ chars_from n (suc i) chars

abbrev pub chars_of : Text → List ℕ
chars_of t = chars_from t.len 0 t.chars

unfoldable pub print_str : List ℕ → (length : ℕ) → (ladjust : Bool) → List ℕ
print_str s width ladjust =
    let long = if ltb width (length s) then length s else width in
    if ladjust then s ++ blanks (long - length s) else blanks (long - length s) ++ s

-- What stands before the next '%', and what follows it.
unfoldable pub scan_percent : List ℕ → List ℕ × Option (List ℕ)
scan_percent [] = ([], none)
scan_percent (c ∷ fmt) =
    let rest = scan_percent fmt in if c == 37 then ([], some fmt) else (c ∷ rest.0, rest.1)

-- `ladjust`, `padc` and the rest
unfoldable pub get_flag : List ℕ → Bool × ℕ × List ℕ
get_flag [] = (false, 32, [])
get_flag (c ∷ fmt) =
    if c == 45 then (true, 32, fmt) else if c == 48 then (false, 48, fmt) else (false, 32, c ∷ fmt)

-- The loop over the digits of the width; none if an int overflows in it, which C leaves undefined.
unfoldable pub get_width : ℕ → List ℕ → Option (ℕ × List ℕ)
get_width width [] = some (width, [])
get_width width (c ∷ fmt) =
    let rest = get_width (width * 10 + c - 48) fmt in
    if leb 48 c && leb c 57
    then if leb (2 ^ 31) (width * 10 + c) then none else rest
    else some (width, c ∷ fmt)

-- The loop over 'l'.
unfoldable pub get_long : List ℕ → List ℕ
get_long [] = []
get_long (c ∷ fmt) = let rest = get_long fmt in if c == 108 then rest else c ∷ fmt

abbrev pub is_negative : ℕ → Bool
is_negative w = leb (2 ^ 31) (w % 2 ^ 32)

-- `num = neg_flag ? -num : num`
abbrev pub magnitude : ℕ → ℕ
magnitude w = if is_negative w then 2 ^ 32 - w % 2 ^ 32 else w % 2 ^ 32

abbrev pub number :
    (base : ℕ) → (upcase : Bool) → (w width : ℕ) → (ladjust : Bool) → (padc : ℕ) → List ℕ
number base upcase w width ladjust padc =
    chars_of (print_num (w % 2 ^ 32) base false width ladjust padc upcase (λ _. 0))

abbrev pub decimal : (w width : ℕ) → (ladjust : Bool) → (padc : ℕ) → List ℕ
decimal w width ladjust padc =
    chars_of (print_num (magnitude w) 10 (is_negative w) width ladjust padc false (λ _. 0))

-- The `switch`: what is put out for the directive `c` with the argument `w`, and whether it took it.
unfoldable pub directive :
    (ℕ → List ℕ) → (c w width : ℕ) → (ladjust : Bool) → (padc : ℕ) → List ℕ × Bool
unfolding print_str
directive string_at c w width ladjust padc =
    if c == 98
    then (number 2 false w width ladjust padc, true)
    else if (c == 100) || (c == 68)
    then (decimal w width ladjust padc, true)
    else if (c == 111) || (c == 79)
    then (number 8 false w width ladjust padc, true)
    else if (c == 117) || (c == 85)
    then (number 10 false w width ladjust padc, true)
    else if c == 120
    then (number 16 false w width ladjust padc, true)
    else if c == 88
    then (number 16 true w width ladjust padc, true)
    else if c == 99
    then (chars_of (print_char (w % 256) width ladjust), true)
    else if c == 115
    then (print_str (string_at w) width ladjust, true)
    else (c ∷ [], false)

abbrev pub after_text : List ℕ → Option (List ℕ) → Option (List ℕ)
after_text l none = none
after_text l (some out) = some (l ++ out)

-- A directive, and what follows it; the string may end in the flags.
unfoldable pub put_directive :
    (ℕ → List ℕ)
    → (ℕ → ℕ)
    → (List ℕ → ℕ → Option (List ℕ))
    → (i width : ℕ) → (ladjust : Bool) → (padc : ℕ) → List ℕ
    → Option (List ℕ)
put_directive string_at ap_ rest i width ladjust padc [] = rest [] i
put_directive string_at ap_ rest i width ladjust padc (c ∷ fmt) =
    let r = directive string_at c (ap_ i) width ladjust padc in
    after_text r.0 (rest fmt (if r.1 then i + 1 else i))

-- From the width on.
unfoldable pub after_width :
    (ℕ → List ℕ)
    → (ℕ → ℕ)
    → (List ℕ → ℕ → Option (List ℕ))
    → (i : ℕ) → (ladjust : Bool) → (padc : ℕ) → Option (ℕ × List ℕ)
    → Option (List ℕ)
unfolding put_directive get_long
after_width string_at ap_ rest i ladjust padc none = none
after_width string_at ap_ rest i ladjust padc (some (width, fmt)) =
    put_directive string_at ap_ rest i width ladjust padc (get_long fmt)

-- What follows a '%'.
unfoldable pub after_percent :
    (ℕ → List ℕ) → (ℕ → ℕ) → (List ℕ → ℕ → Option (List ℕ)) → ℕ → Option (List ℕ) → Option (List ℕ)
after_percent string_at ap_ rest i none = some []
after_percent string_at ap_ rest i (some []) = some []
after_percent string_at ap_ rest i (some (c ∷ fmt)) =
    let flag = get_flag (c ∷ fmt) in
    after_width string_at ap_ rest i flag.0 flag.1 (get_width 0 flag.2)

-- The rounds of the loop; none if there are more than `fuel`, or if a width overflows. The stack that
-- `print_num` takes for a wide number (`buf`) is not bounded here.
unfoldable pub vprintfmt : (ℕ → List ℕ) → (ℕ → ℕ) → (fuel : ℕ) → List ℕ → (i : ℕ) → Option (List ℕ)
vprintfmt string_at ap_ zero fmt i = none
vprintfmt string_at ap_ (suc n) fmt i =
    let rest = vprintfmt string_at ap_ n in
    let r = scan_percent fmt in after_text r.0 (after_percent string_at ap_ rest i r.1)
