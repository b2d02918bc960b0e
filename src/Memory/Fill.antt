-- ===== src/Memory/Fill.antt =====
-- lib/string.c: `memset`, which stores words of four bytes where it can.
use Prim.Native.Nat.{bit_or}
use os_challenging_mission.Base.{
  ℕ, zero, suc, ◌+◌, ◌-◌, ◌*◌, ◌/◌, ◌%◌, ◌^◌, ◌≤◌, ◌<◌, ◌≡◌, inl, inr, refl, ◌∙◌, ◌&&◌, arith, ◌==◌,
  ltb, leb, if◌then◌else◌, Bool-cases, update, if-cases,
}
use os_challenging_mission.Base.Bits.{or_add, bit_or_comm}
use os_challenging_mission.Memory.{write_four}

pub record Target : Type 0 where
  pub at_ : ℕ
  pub left : ℕ
  pub mem : ℕ → ℕ

-- `byte | byte << 8 | byte << 16 | byte << 24`
unfoldable pub fill_word : ℕ → ℕ
fill_word byte = bit_or (bit_or (bit_or byte (2 ^ 8 * byte)) (2 ^ 16 * byte)) (2 ^ 24 * byte)

-- `*(u_char *)dst++ = byte`
abbrev pub fill_byte : ℕ → Target → Target
fill_byte byte t = record { at_ = t.at_ + 1; left = t.left - 1; mem = update t.mem t.at_ byte }

-- `*(uint32_t *)dst = word; dst += 4`, the low byte first
abbrev pub store_word : ℕ → Target → Target
store_word word t = record {
  at_ = t.at_ + 4;
  left = t.left - 4;
  mem = write_four t.mem t.at_ (λ i. word / 2 ^ (8 * i) % 256);
}

unfoldable pub fill_align : ℕ → ℕ → Target → Target
fill_align byte zero t = t
fill_align byte (suc n) t =
    let rest = fill_align byte n (fill_byte byte t) in if t.at_ % 4 == 0 then t else rest

unfoldable pub fill_words : ℕ → (fuel : ℕ) → Target → Target
fill_words word zero t = t
fill_words word (suc fuel) t =
    let rest = fill_words word fuel (store_word word t) in if leb 4 t.left then rest else t

unfoldable pub fill_bytes : ℕ → ℕ → Target → Target
fill_bytes byte zero t = t
fill_bytes byte (suc n) t = fill_bytes byte n (fill_byte byte t)

unfoldable pub memset : (dst c n : ℕ) → (ℕ → ℕ) → ℕ → ℕ
unfolding fill_word fill_align fill_words fill_bytes
memset dst c n m =
    let byte = c % 256 in
    let t : Target = record { at_ = dst; left = n; mem = m } in
    let a = fill_align byte n t in
    let w = fill_words (fill_word byte) a.left a in (fill_bytes byte w.left w).mem

fill_word_sum : (b : ℕ) → b < 256 → fill_word b ≡ 2 ^ 24 * b + (2 ^ 16 * b + (2 ^ 8 * b + b))
unfolding fill_word
fill_word_sum b h =
    let one : bit_or b (2 ^ 8 * b) ≡ 2 ^ 8 * b + b = bit_or_comm b (2 ^ 8 * b) ∙ or_add 8 b b h in
    let two : bit_or (2 ^ 8 * b + b) (2 ^ 16 * b) ≡ 2 ^ 16 * b + (2 ^ 8 * b + b) =
      bit_or_comm (2 ^ 8 * b + b) (2 ^ 16 * b) ∙ or_add 16 b (2 ^ 8 * b + b) (omega (arith, h)) in
    rw (one, two)
      (bit_or_comm (2 ^ 16 * b + (2 ^ 8 * b + b)) (2 ^ 24 * b)
        ∙ or_add 24 b (2 ^ 16 * b + (2 ^ 8 * b + b)) (omega (arith, h)))

-- Each byte of the word is the byte.
fill_word_byte : (b i : ℕ) → b < 256 → i < 4 → fill_word b / 2 ^ (8 * i) % 256 ≡ b
fill_word_byte b zero h g = omega (arith, fill_word_sum b h)
fill_word_byte b (suc zero) h g = omega (arith, fill_word_sum b h)
fill_word_byte b (suc (suc zero)) h g = omega (arith, fill_word_sum b h)
fill_word_byte b (suc (suc (suc zero))) h g = omega (arith, fill_word_sum b h)
fill_word_byte b (suc (suc (suc (suc i)))) h g = absurd (omega arith)

module _ (dst b n : ℕ) (m : ℕ → ℕ) (small : b < 256) where
  record Filled (t : Target) : Type 0 where
    k : ℕ
    stands : t.at_ ≡ dst + k
    left_is : t.left + k ≡ n
    bytes : (j : ℕ) → t.mem j ≡ (if leb dst j && ltb j (dst + k) then b else m j)

  fill_byte-Filled : (t : Target) → 0 < t.left → Filled t → Filled (fill_byte b t)
  fill_byte-Filled t h v = record {
    k = v.k + 1;
    stands = omega (arith, v.stands);
    left_is = omega (arith, v.left_is);
    bytes = λ j. ground (arith, v.bytes j, v.stands);
  }

  store_word-Filled : (t : Target) → 4 ≤ t.left → Filled t → Filled (store_word (fill_word b) t)
  store_word-Filled t h v = record {
    k = v.k + 4;
    stands = omega (arith, v.stands);
    left_is = omega (arith, v.left_is);
    bytes = λ j. elim (Bool-cases (leb t.at_ j && ltb j (t.at_ + 4))) [
      | inl y ↦
          let low : t.at_ ≤ j = ground (arith, y) in
          let high : j < t.at_ + 4 = ground (arith, y) in
          let here = fill_word_byte b (j - t.at_) small (omega arith) in
          ground (arith, here, y, v.stands)
      | inr ne ↦ ground (arith, ne, v.bytes j, v.stands)
    ];
  }

  fill_align-Filled : (l : ℕ) (t : Target) → l ≤ t.left → Filled t → Filled (fill_align b l t)
  unfolding fill_align
  fill_align-Filled zero t h v = v
  fill_align-Filled (suc l) t h v =
      if-cases Filled (t.at_ % 4 == 0) (λ _. v)
        (λ _.
          fill_align-Filled l (fill_byte b t) (omega arith) (fill_byte-Filled t (omega arith) v))

  fill_words-Filled : (fuel : ℕ) (t : Target) → Filled t → Filled (fill_words (fill_word b) fuel t)
  unfolding fill_words
  fill_words-Filled zero t v = v
  fill_words-Filled (suc fuel) t v =
      if-cases Filled (leb 4 t.left)
        (λ y.
          fill_words-Filled fuel (store_word (fill_word b) t)
            (store_word-Filled t (ground (arith, y)) v))
        (λ _. v)

  fill_bytes-Filled :
      (l : ℕ) (t : Target)
      → l ≡ t.left
      → Filled t
      → (j : ℕ) → (fill_bytes b l t).mem j ≡ (if leb dst j && ltb j (dst + n) then b else m j)
  unfolding fill_bytes
  fill_bytes-Filled zero t h v j =
      let whole : v.k ≡ n = omega (arith, v.left_is, h) in rw (← whole) (v.bytes j)
  fill_bytes-Filled (suc l) t h v j =
      fill_bytes-Filled l (fill_byte b t) (omega arith) (fill_byte-Filled t (omega arith) v) j

-- `memset` sets each of the `n` bytes from `dst` to the low byte of `c`, whatever the alignment, and
-- no other byte changes.
pub memset_lem :
    (dst c n : ℕ) (m : ℕ → ℕ) (j : ℕ)
    → memset dst c n m j ≡ (if leb dst j && ltb j (dst + n) then c % 256 else m j)
unfolding memset
memset_lem dst c n m j =
    let b = c % 256 in
    let small : b < 256 = omega arith in
    let t : Target = record { at_ = dst; left = n; mem = m } in
    let begins : Filled dst b n m small t = record {
      k = 0;
      stands = omega arith;
      left_is = omega arith;
      bytes = λ i. ground arith;
    } in
    let a = fill_align b n t in
    let w = fill_words (fill_word b) a.left a in
    let aligned = fill_align-Filled dst b n m small n t (omega arith) begins in
    fill_bytes-Filled dst b n m small w.left w refl
      (fill_words-Filled dst b n m small a.left a aligned) j
