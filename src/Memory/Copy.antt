-- ===== src/Memory/Copy.antt =====
-- lib/string.c: `memcpy` against a reference that says what each byte is afterwards.
use os_challenging_mission.Base.{
  ℕ, zero, suc, ◌+◌, ◌-◌, ◌%◌, ◌≤◌, ◌<◌, ◌≡◌, ◌⊎◌, inl, inr, refl, sym, ap, ◌∙◌, ◌&&◌, arith, ◌==◌,
  ltb, leb, if◌then◌else◌, Bool-cases, if-cases, ℕ_discrete,
}
use os_challenging_mission.Memory.{
  copy_word, align, copy_words, copy_bytes, memcpy, Cursor, copy_byte,
}

-- The regions `[dst, dst + n)` and `[src, src + n)` do not overlap.
abbrev pub Disjoint : (dst src n : ℕ) → Type 0
Disjoint dst src n = (dst + n ≤ src) ⊎ (src + n ≤ dst)

module _ (dst src n : ℕ) (m : ℕ → ℕ) (disjoint : Disjoint dst src n) where
  -- After `k` of the `n` bytes.
  record Moved (c : Cursor) : Type 0 where
    k : ℕ
    dst_at : c.dst ≡ dst + k
    src_at : c.src ≡ src + k
    left_is : c.left + k ≡ n
    bytes : (j : ℕ) → c.mem j ≡ (if leb dst j && ltb j (dst + k) then m (src + (j - dst)) else m j)

  unmoved : (c : Cursor) (v : Moved c) (i : ℕ) → i < c.left → c.mem (c.src + i) ≡ m (c.src + i)
  unmoved c v i h = v.bytes (c.src + i) ∙ elim disjoint [
    | inl before ↦ ground (arith, before, v.src_at, v.left_is)
    | inr after ↦ ground (arith, after, v.src_at, v.left_is)
  ]

  source :
      (c : Cursor) (v : Moved c) (j : ℕ)
      → c.dst ≤ j
      → j < c.dst + c.left
      → c.mem (c.src + (j - c.dst)) ≡ m (src + (j - dst))
  source c v j a b =
      unmoved c v (j - c.dst) (omega arith) ∙ ap m (omega (arith, v.src_at, v.dst_at))

  copy_byte-Moved : (c : Cursor) → 0 < c.left → Moved c → Moved (copy_byte c)
  copy_byte-Moved c h v = record {
    k = v.k + 1;
    dst_at = omega (arith, v.dst_at);
    src_at = omega (arith, v.src_at);
    left_is = omega (arith, v.left_is);
    bytes = λ j. elim (ℕ_discrete j c.dst) [
      | yes y ↦
          let here : c.mem c.src ≡ m (src + (j - dst)) =
            ap c.mem (omega arith) ∙ source c v j (omega arith) (omega arith) in
          ground (arith, here, y, v.dst_at)
      | no ne ↦ ground (arith, ne, v.bytes j, v.dst_at)
    ];
  }

  copy_word-Moved : (c : Cursor) → 4 ≤ c.left → Moved c → Moved (copy_word c)
  copy_word-Moved c h v = record {
    k = v.k + 4;
    dst_at = omega (arith, v.dst_at);
    src_at = omega (arith, v.src_at);
    left_is = omega (arith, v.left_is);
    bytes = λ j. elim (Bool-cases (leb c.dst j && ltb j (c.dst + 4))) [
      | inl y ↦
          let a : c.dst ≤ j = ground (arith, y) in
          let b : j < c.dst + 4 = ground (arith, y) in
          let here = source c v j a (omega arith) in ground (arith, here, y, v.dst_at)
      | inr ne ↦ ground (arith, ne, v.bytes j, v.dst_at)
    ];
  }

  align-Moved : (l : ℕ) (c : Cursor) → l ≤ c.left → Moved c → Moved (align l c)
  unfolding align
  align-Moved zero c h v = v
  align-Moved (suc l) c h v =
      if-cases Moved (c.dst % 4 == 0) (λ _. v)
        (λ _. align-Moved l (copy_byte c) (omega arith) (copy_byte-Moved c (omega arith) v))

  copy_words-Moved : (fuel : ℕ) (c : Cursor) → Moved c → Moved (copy_words fuel c)
  unfolding copy_words
  copy_words-Moved zero c v = v
  copy_words-Moved (suc fuel) c v =
      if-cases Moved (leb 4 c.left)
        (λ y. copy_words-Moved fuel (copy_word c) (copy_word-Moved c (ground (arith, y)) v))
        (λ _. v)

  -- After the last loop nothing is left.
  copy_bytes-Moved :
      (l : ℕ) (c : Cursor)
      → l ≡ c.left
      → Moved c
      → Moved (copy_bytes l c) × ((copy_bytes l c).left ≡ 0)
  unfolding copy_bytes
  copy_bytes-Moved zero c h v = (v, sym h)
  copy_bytes-Moved (suc l) c h v =
      copy_bytes-Moved l (copy_byte c) (omega arith) (copy_byte-Moved c (omega arith) v)

  bytes_at_end :
      (c : Cursor)
      → Moved c
      → (c.left ≡ 0)
      → (j : ℕ) → c.mem j ≡ (if leb dst j && ltb j (dst + n) then m (src + (j - dst)) else m j)
  bytes_at_end c v h j =
      let whole : v.k ≡ n = omega (arith, v.left_is, h) in rw (← whole) (v.bytes j)

-- The words that `memcpy` moves and the single bytes before and after them are the same as a copy
-- byte by byte, whatever the alignment: each byte of the target is the one of the source, and all
-- others are as before. The regions must not overlap.
pub memcpy_lem :
    (dst src n : ℕ) (m : ℕ → ℕ)
    → Disjoint dst src n
    → (j : ℕ)
    → memcpy dst src n m j ≡ (if leb dst j && ltb j (dst + n) then m (src + (j - dst)) else m j)
unfolding memcpy
memcpy_lem dst src n m apart j =
    if-cases
      (λ (f : ℕ → ℕ). f j ≡ (if leb dst j && ltb j (dst + n) then m (src + (j - dst)) else m j))
      (src % 4 == dst % 4)
      (λ _.
        let w_moved =
          copy_words-Moved dst src n m apart a.left a
            (align-Moved dst src n m apart n c (omega arith) begins) in
        let end_ = copy_bytes-Moved dst src n m apart w.left w refl w_moved in
        bytes_at_end dst src n m apart (copy_bytes w.left w) end_.0 end_.1 j)
      (λ _.
        let end_ = copy_bytes-Moved dst src n m apart n c refl begins in
        bytes_at_end dst src n m apart (copy_bytes n c) end_.0 end_.1 j)
  where
    c : Cursor
    c = record { dst = dst; src = src; left = n; mem = m }

    a : Cursor
    a = align n c

    w : Cursor
    w = copy_words a.left a

    begins : Moved dst src n m apart c
    begins = record {
      k = 0;
      dst_at = omega arith;
      src_at = omega arith;
      left_is = omega arith;
      bytes = λ i. ground arith;
    }

-- The fuel of the loop over words is enough: the loop ends since less than a word is left.
pub copy_words_end : (fuel : ℕ) (c : Cursor) → c.left ≤ fuel → (copy_words fuel c).left < 4
unfolding copy_words
copy_words_end zero c h = omega arith
copy_words_end (suc fuel) c h =
    if-cases (λ (d : Cursor). d.left < 4) (leb 4 c.left)
      (λ y. copy_words_end fuel (copy_word c) (omega arith)) (λ n. ground (arith, n))
