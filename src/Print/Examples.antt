-- ===== src/Print/Examples.antt =====
-- The number -1023 in base 10, with leading zeros in seven characters.
use os_challenging_mission.Base.{
  ℕ, zero, suc, ◌-◌, ◌/◌, ◌%◌, ◌^◌, ◌≤◌, ◌<◌, ◌≡◌, refl, true, false, List, [], ◌∷◌, arith, some,
  none,
}
use os_challenging_mission.Print.{
  Text, print_num, put_digits, reverse_loop, add_padding, digit_char, max_len,
}
use os_challenging_mission.Print.Digits.{print_num_lem, signed, last_place}
use os_challenging_mission.Print.Format.{
  vprintfmt, after_percent, after_width, put_directive, directive, get_flag, get_width, get_long,
  scan_percent, print_str,
}

abbrev blank : ℕ → ℕ
blank i = 0

abbrev printed : Text
printed = print_num 1023 10 true 7 false 48 false blank

sign_first : printed.chars 0 ≡ 45
unfolding print_num put_digits reverse_loop add_padding
sign_first = refl

print_num_example :
    (n : ℕ) × (1 ≤ n)
    × (1023 < 10 ^ n)
    × (printed.len ≡ max_len 7 (signed true n))
    × ((i : ℕ)
        → i < n
        → printed.chars (last_place false (signed true n) (max_len 7 (signed true n)) - i)
          ≡ digit_char false (1023 / 10 ^ i % 10))
print_num_example = print_num_lem 1023 10 true 7 false 48 false blank (omega arith)

-- "a%5d%s%%" with -7 and the string "hi".
abbrev fmt : List ℕ
fmt = 97 ∷ 37 ∷ 53 ∷ 100 ∷ 37 ∷ 115 ∷ 37 ∷ 37 ∷ []

abbrev args : ℕ → ℕ
args zero = 2 ^ 32 - 7
args (suc i) = 0

vprintfmt_run :
    vprintfmt (λ a. 104 ∷ 105 ∷ []) args 9 fmt 0
    ≡ some (97 ∷ 32 ∷ 32 ∷ 32 ∷ 45 ∷ 55 ∷ 104 ∷ 105 ∷ 37 ∷ [])
unfolding vprintfmt after_percent after_width put_directive directive get_flag get_width get_long
    scan_percent print_num put_digits reverse_loop add_padding print_str
vprintfmt_run = refl

-- A width of 2 ^ 31 overflows.
wide :
    vprintfmt (λ a. []) args 9 (37 ∷ 50 ∷ 49 ∷ 52 ∷ 55 ∷ 52 ∷ 56 ∷ 51 ∷ 54 ∷ 52 ∷ 56 ∷ 100 ∷ []) 0
    ≡ none
unfolding vprintfmt after_percent after_width get_flag get_width scan_percent
wide = refl
