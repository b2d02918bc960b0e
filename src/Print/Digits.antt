-- ===== src/Print/Digits.antt =====
-- lib/print.c: the digits that `print_num` prints.
use os_challenging_mission.Base.{
  ℕ, zero, suc, ◌+◌, ◌-◌, ◌/◌, ◌%◌, ◌^◌, ◌≤◌, ◌<◌, ◌≡◌, refl, sym, ap, ◌∙◌, subst, Bool, true,
  false, not, ◌&&◌, arith, ◌==◌, ltb, leb, if◌then◌else◌, update, length, ℕ_discrete, if-cases,
  update_same, update_other,
}
use native.Mathlib.Nat.{
  pow-suc, pow-zero, div-lt_iff_lt-mul, div-lt_self, pow-succ', div-div-eq-div-mul, div-one,
}
use os_challenging_mission.Print.{
  Text, digit_char, put_digits, reverse_loop, max_len, add_padding, finish, put_sign, print_num,
  minus,
}

abbrev swapped : (begin end : ℕ) (buf : ℕ → ℕ) → ℕ → ℕ
swapped begin end buf = update (update buf begin (buf end)) end (buf begin)

-- The buffer with the characters from `begin` to `end` in the other order.
abbrev mirrored : (begin end : ℕ) (buf : ℕ → ℕ) → ℕ → ℕ
mirrored begin end buf i = if leb begin i && leb i end then buf (begin + end - i) else buf i

same_at : (buf : ℕ → ℕ) (i j : ℕ) → i ≡ j → buf i ≡ buf j
same_at buf i j e = ap buf e

mirrored-swapped :
    (begin end : ℕ) (buf : ℕ → ℕ) (i : ℕ)
    → begin < end
    → mirrored (begin + 1) (end - 1) (swapped begin end buf) i ≡ mirrored begin end buf i
mirrored-swapped begin end buf i l = elim (ℕ_discrete i begin) [
  | yes e ↦
      subst
        (λ i. mirrored (begin + 1) (end - 1) (swapped begin end buf) i ≡ mirrored begin end buf i)
        (sym e) (ground (arith, l, same_at buf (begin + end - begin) (end) (omega arith)))
  | no n ↦ elim (ℕ_discrete i end) [
    | yes e ↦
        subst
          (λ i. mirrored (begin + 1) (end - 1) (swapped begin end buf) i ≡ mirrored begin end buf i)
          (sym e) (ground (arith, l, same_at buf (begin + end - end) (begin) (omega arith)))
    | no m ↦ ground (
      arith,
      l,
      n,
      m,
      same_at buf (begin + 1 + (end - 1) - i) (begin + end - i) (omega (arith, l)),
    )
  ]
]

-- The loop swaps each character with the one opposite.
reverse_loop-mirrored :
    (fuel begin end : ℕ) (buf : ℕ → ℕ) (i : ℕ)
    → end ≤ begin + fuel
    → reverse_loop fuel begin end buf i ≡ mirrored begin end buf i
unfolding reverse_loop
reverse_loop-mirrored zero begin end buf i h =
    if-cases (λ v. buf i ≡ v) (leb begin i && leb i end) (λ e. ap buf (ground (arith, e, h)))
      (λ _. refl)
reverse_loop-mirrored (suc fuel) begin end buf i h =
    if-cases (λ (r : ℕ → ℕ). r i ≡ mirrored begin end buf i) (ltb begin end)
      (λ e.
        let l : begin < end = ground (arith, e) in
        reverse_loop-mirrored fuel (begin + 1) (end - 1) (swapped begin end buf) i
          (omega (arith, h, l))
        ∙ mirrored-swapped begin end buf i l)
      (λ e.
        if-cases (λ v. buf i ≡ v) (leb begin i && leb i end) (λ f. ap buf (ground (arith, e, f)))
          (λ _. refl))

-- Digit `i` of `u` is at place p + i of the buffer, and there are `n` digits.
abbrev Digits : ℕ → Bool → ℕ → ℕ → (ℕ → ℕ) → Text → Type 0
Digits base upcase u p buf t =
    (n : ℕ) × (t.len ≡ p + n)
    × (1 ≤ n)
    × (u < base ^ n)
    × ((i : ℕ) → i < n → t.chars (p + i) ≡ digit_char upcase (u / base ^ i % base))
    × ((i : ℕ) → i < p → t.chars i ≡ buf i)

div-pow : (u base i : ℕ) → u / base / base ^ i ≡ u / base ^ suc i
div-pow u base i = rw (pow-succ' base i) (div-div-eq-div-mul u base (base ^ i))

below_pow : (u base n : ℕ) → 2 ≤ base → u / base < base ^ n → u < base ^ suc n
below_pow u base n h l = rw (pow-suc base n) ((div-lt_iff_lt-mul (omega (arith, h))).0 l)

-- The first character that is put down, at index p + 0.
first_digit :
    (base : ℕ) (upcase : Bool) (u p : ℕ) (buf : ℕ → ℕ)
    → update buf p (digit_char upcase (u % base)) (p + 0) ≡ digit_char upcase (u / base ^ 0 % base)
first_digit base upcase u p buf =
    same_at (update buf p (digit_char upcase (u % base))) (p + 0) p (omega arith)
    ∙ update_same buf p (digit_char upcase (u % base))
    ∙ ap (λ v. digit_char upcase (v % base))
        (sym (div-one u) ∙ ap (λ k. u / k) (sym (pow-zero base)))

last-Digits :
    (base : ℕ) (upcase : Bool) (u p : ℕ) (buf : ℕ → ℕ)
    → 2 ≤ base
    → u / base ≡ 0
    → Digits base upcase u p buf
        (record { len = p + 1; chars = update buf p (digit_char upcase (u % base)) })
last-Digits base upcase u p buf h e = (
  1,
  refl,
  omega arith,
  below_pow u base 0 h (ground (arith, e, pow-zero base)),
  only,
  λ i l. update_other buf p (digit_char upcase (u % base)) i (λ q. absurd (omega (arith, l, q))),
)
  where
    only :
        (i : ℕ)
        → i < 1
        → update buf p (digit_char upcase (u % base)) (p + i)
          ≡ digit_char upcase (u / base ^ i % base)
    only zero l = first_digit base upcase u p buf
    only (suc i) l = absurd (omega (arith, l))

more-Digits :
    (base : ℕ) (upcase : Bool) (u p : ℕ) (buf : ℕ → ℕ) (t : Text)
    → 2 ≤ base
    → Digits base upcase (u / base) (p + 1) (update buf p (digit_char upcase (u % base))) t
    → Digits base upcase u p buf t
more-Digits base upcase u p buf t h (n, len, pos, lt, dig, low) = (
  suc n,
  omega (arith, len),
  omega arith,
  below_pow u base n h lt,
  each,
  λ i l.
      low i (omega (arith, l))
      ∙ update_other buf p (digit_char upcase (u % base)) i (λ q. absurd (omega (arith, l, q))),
)
  where
    each : (i : ℕ) → i < suc n → t.chars (p + i) ≡ digit_char upcase (u / base ^ i % base)
    each zero l = low (p + 0) (omega arith) ∙ first_digit base upcase u p buf
    each (suc i) l =
        same_at t.chars (p + suc i) (p + 1 + i) (omega arith)
        ∙ dig i (omega (arith, l))
        ∙ ap (λ v. digit_char upcase (v % base)) (div-pow u base i)

put_digits-Digits :
    (fuel base : ℕ) (upcase : Bool) (u p : ℕ) (buf : ℕ → ℕ)
    → 2 ≤ base
    → u < fuel
    → Digits base upcase u p buf (put_digits fuel base upcase u p buf)
unfolding put_digits
put_digits-Digits zero base upcase u p buf hb hu = absurd (omega (arith, hu))
put_digits-Digits (suc fuel) base upcase u p buf hb hu =
    if-cases (Digits base upcase u p buf) (u / base == 0)
      (λ e. last-Digits base upcase u p buf hb (ground (arith, e)))
      (λ e. more-Digits base upcase u p buf _ hb (
        put_digits-Digits fuel base upcase (u / base) (p + 1)
          (update buf p (digit_char upcase (u % base))) hb (smaller e)))
  where
    smaller : (u / base == 0) ≡ false → u / base < fuel
    smaller e = elim (ℕ_discrete u 0) [
      | yes z ↦ absurd (ground (arith, e, ap (λ v. v / base) z))
      | no n ↦ omega (arith, hu, div-lt_self {n = u} {k = base} (omega (arith, n)) hb)
    ]

-- Padding begins after the digits and leaves them.
add_padding-low :
    (neg ladjust : Bool) (padc actual length : ℕ) (buf : ℕ → ℕ) (i : ℕ)
    → (neg ≡ true → suc i < actual)
    → i < actual
    → actual ≤ length
    → add_padding neg ladjust padc actual length buf i ≡ buf i
unfolding add_padding
add_padding-low neg ladjust padc actual length buf i sign h l =
    if-cases (λ (r : ℕ → ℕ). r i ≡ buf i)
      (neg && not ladjust && ((if ladjust then 32 else padc) == 48))
      (λ e. let s : suc i < actual = sign (ground (arith, e)) in ground (arith, h, l, s))
      (λ e. ground (arith, h, l))

-- The number of characters with the sign, and the place of the last digit.
abbrev pub signed : Bool → ℕ → ℕ
signed neg n = if neg then n + 1 else n

abbrev pub last_place : (ladjust : Bool) (actual length : ℕ) → ℕ
last_place ladjust actual length = if ladjust then actual - 1 else length - 1

mirrored-end : (end i : ℕ) (buf : ℕ → ℕ) → i ≤ end → mirrored 0 end buf (end - i) ≡ buf i
mirrored-end end i buf h =
    if-cases (λ v. v ≡ buf i) (leb 0 (end - i) && leb (end - i) end)
      (λ e. same_at buf (0 + end - (end - i)) i (omega (arith, h)))
      (λ e. absurd (ground (arith, e)))

-- A character of the text with its sign is printed as far from the end as it stood from the begin.
finished :
    (neg ladjust : Bool) (padc length n i : ℕ) (chars : ℕ → ℕ)
    → i < n
    → reverse_loop
        (max_len length (signed neg n))
        0
        (last_place ladjust (signed neg n) (max_len length (signed neg n)))
        (add_padding neg ladjust padc (signed neg n) (max_len length (signed neg n)) chars)
        (last_place ladjust (signed neg n) (max_len length (signed neg n)) - i)
      ≡ chars i
finished neg ladjust padc length n i chars h =
    let actual = signed neg n in
    let long = max_len length actual in
    let end = last_place ladjust actual long in
    let padded = add_padding neg ladjust padc actual long chars in
    let fits : actual ≤ long = ground arith in
    let inside : i < actual = ground (arith, h) in
    let below : end ≤ 0 + long = ground (arith, fits) in
    let within : i ≤ end = ground (arith, fits, h) in
    reverse_loop-mirrored long 0 end padded (end - i) below
    ∙ mirrored-end end i padded within
    ∙ add_padding-low neg ladjust padc actual long chars i (λ e. ground (arith, e, h)) inside fits

finish-put_sign :
    (neg ladjust : Bool) (padc length : ℕ) (d : Text) (i : ℕ)
    → i < d.len
    → (finish neg ladjust padc length (put_sign neg d)).chars
        (last_place ladjust (signed neg d.len) (max_len length (signed neg d.len)) - i)
      ≡ d.chars i
finish-put_sign false ladjust padc length d i h =
    finished false ladjust padc length d.len i d.chars h
finish-put_sign true ladjust padc length d i h =
    finished true ladjust padc length d.len i (update d.chars d.len minus) h
    ∙ update_other d.chars d.len minus i (λ e. absurd (omega (arith, h, e)))

len-put_sign : (neg : Bool) (d : Text) → (put_sign neg d).len ≡ signed neg d.len
len-put_sign false d = refl
len-put_sign true d = refl

-- `print_num` in a base from 2 on prints `n` digits, where `u` is below the `n`-th power of the base: the
-- `i`-th from the right is that of u / base ^ i % base. The last one stands at the end of the text, or,
-- adjusted to the left, at the end of the number with its sign; the text has the given length, or that
-- of the number if this is longer.
pub print_num_lem :
    (u base : ℕ) (neg : Bool) (length : ℕ) (ladjust : Bool) (padc : ℕ) (upcase : Bool) (buf : ℕ → ℕ)
    → 2 ≤ base
    → (n : ℕ) × (1 ≤ n)
      × (u < base ^ n)
      × ((print_num u base neg length ladjust padc upcase buf).len ≡ max_len length (signed neg n))
      × ((i : ℕ)
          → i < n
          → (print_num u base neg length ladjust padc upcase buf).chars
              (last_place ladjust (signed neg n) (max_len length (signed neg n)) - i)
            ≡ digit_char upcase (u / base ^ i % base))
unfolding print_num
print_num_lem u base neg length ladjust padc upcase buf h =
    let d = put_digits (u + 1) base upcase u 0 buf in
    let (n, len, pos, lt, dig, low) =
      put_digits-Digits (u + 1) base upcase u 0 buf h (omega arith) in
    let same : n ≡ d.len = omega (arith, len) in
    (
      d.len,
      omega (arith, same, pos),
      subst (λ k. u < base ^ k) same lt,
      ap (max_len length) (len-put_sign neg d),
      λ i l.
          finish-put_sign neg ladjust padc length d i l
          ∙ same_at d.chars i (0 + i) (omega arith)
          ∙ dig i (omega (arith, same, l)),
    )
