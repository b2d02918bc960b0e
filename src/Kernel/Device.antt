-- ===== src/Kernel/Device.antt =====
-- kern/syscall_all.c: which physical addresses `sys_read_dev` and `sys_write_dev` let a user reach.
mod Examples
use os_challenging_mission.Base.{
  if-cases, refl, ◌≡◌, ℕ, zero, suc, ◌+◌, ◌%◌, ◌^◌, ◌≤◌, ◌<◌, ◌⊎◌, inl, inr, Bool, true, false, not,
  ◌&&◌, ◌||◌, arith, ◌==◌, leb, if◌then◌else◌, Bool-cases,
}

-- The console and the IDE disk.
abbrev pub valid_addr_start : ℕ → ℕ
valid_addr_start zero = 0x180003f8
valid_addr_start (suc i) = 0x180001f0

abbrev pub valid_addr_end : ℕ → ℕ
valid_addr_end zero = 0x18000418
valid_addr_end (suc i) = 0x180001f8

-- The loop over the devices, `n` rounds from device `i`: is the range in one of them?
unfoldable pub in_device : (n i : ℕ) → (target_start target_end : ℕ) → Bool
in_device zero i target_start target_end = false
in_device (suc n) i target_start target_end =
    let rest = in_device n (suc i) target_start target_end in
    if leb (valid_addr_start i) target_start && leb target_end (valid_addr_end i)
    then true
    else rest

-- `target_end` is a u_int: it wraps.
unfoldable pub is_illegal_dev_range : ℕ → ℕ → Bool
unfolding in_device
is_illegal_dev_range pa len =
    if (not (pa % 4 == 0) && not (len == 1) && not (len == 2))
      || (not (pa % 2 == 0) && not (len == 1))
    then true
    else not (in_device 2 0 pa ((pa + len) % 2 ^ 32))

-- What the check is to say: the access is aligned, and inside the registers of one device.
abbrev pub InDevice : ℕ → ℕ → Type 0
InDevice pa len =
    ((0x180003f8 ≤ pa) × (pa + len ≤ 0x18000418)) ⊎ ((0x180001f0 ≤ pa) × (pa + len ≤ 0x180001f8))

inside_or_wraps :
    (pa len : ℕ)
    → pa < 2 ^ 32
    → 0 < len
    → len ≤ 4
    → in_device 2 0 pa ((pa + len) % 2 ^ 32) ≡ true
    → InDevice pa len ⊎ (2 ^ 32 ≤ pa + len)
unfolding in_device
inside_or_wraps pa len a b c h = elim (Bool-cases (leb (2 ^ 32) (pa + len))) [
  | inl wraps ↦ inr (ground (arith, wraps))
  | inr flat ↦
      let short : pa + len < 2 ^ 32 = ground (arith, flat) in
      elim (Bool-cases (leb 0x180003f8 pa && leb (pa + len) 0x18000418)) [
        | inl first ↦ inl (inl (ground (arith, first), ground (arith, first)))
        | inr other ↦ inl (inr (ground (arith, h, other, short), ground (arith, h, other, short)))
      ]
]

inside_passes :
    (pa len : ℕ)
    → pa < 2 ^ 32
    → len ≤ 4
    → InDevice pa len ⊎ (pa + len ≡ 2 ^ 32)
    → in_device 2 0 pa ((pa + len) % 2 ^ 32) ≡ true
unfolding in_device
inside_passes pa len a short (inl (inl (b, c))) = ground (arith, b, c)
inside_passes pa len a short (inl (inr (b, c))) = ground (arith, b, c)
inside_passes pa len a short (inr w) = rw w (ground (arith, w, short))

-- The accesses that the system calls make.
pub data Width : ℕ → Type 0 where
  byte : Width 1
  half : Width 2
  word : Width 4

Width-bound : {len : ℕ} → Width len → (0 < len) × (len ≤ 4)
Width-bound byte = (omega arith, omega arith)
Width-bound half = (omega arith, omega arith)
Width-bound word = (omega arith, omega arith)

aligned_if :
    (pa : ℕ) {len : ℕ}
    → Width len
    → ((not (pa % 4 == 0) && not (len == 1) && not (len == 2))
        || (not (pa % 2 == 0) && not (len == 1)))
      ≡ false
    → pa % len ≡ 0
aligned_if pa byte h = omega arith
aligned_if pa half h = ground (arith, h)
aligned_if pa word h = ground (arith, h)

-- The check of `sys_read_dev` and `sys_write_dev` lets only aligned accesses pass, and of these only
-- the ones inside the registers of one device, or up to the very end of the 32-bit space, where the
-- sum wraps to 0.
pub is_illegal_dev_range_lem :
    (pa len : ℕ)
    → Width len
    → pa < 2 ^ 32
    → is_illegal_dev_range pa len ≡ false
    → (pa % len ≡ 0) × (InDevice pa len ⊎ (2 ^ 32 ≤ pa + len))
unfolding is_illegal_dev_range
is_illegal_dev_range_lem pa len w a =
    if-cases (λ (b : Bool). b ≡ false → (pa % len ≡ 0) × (InDevice pa len ⊎ (2 ^ 32 ≤ pa + len)))
      ((not (pa % 4 == 0) && not (len == 1) && not (len == 2))
        || (not (pa % 2 == 0) && not (len == 1)))
      (λ _ h. absurd (ground (arith, h)))
      (λ ok_ h.
        let passed : in_device 2 0 pa ((pa + len) % 2 ^ 32) ≡ true = ground (arith, h) in
        (aligned_if pa w ok_, inside_or_wraps pa len a (Width-bound w).0 (Width-bound w).1 passed))

misaligned_not :
    (pa : ℕ) {len : ℕ}
    → Width len
    → pa % len ≡ 0
    → ((not (pa % 4 == 0) && not (len == 1) && not (len == 2))
        || (not (pa % 2 == 0) && not (len == 1)))
      ≡ false
misaligned_not pa byte h = ground arith
misaligned_not pa half h = ground (arith, h)
misaligned_not pa word h = ground (arith, h)

-- All of these do pass, also the last word of the address space, which is no device.
pub is_illegal_dev_range_passes :
    (pa len : ℕ)
    → Width len
    → pa < 2 ^ 32
    → pa % len ≡ 0
    → InDevice pa len ⊎ (pa + len ≡ 2 ^ 32)
    → is_illegal_dev_range pa len ≡ false
unfolding is_illegal_dev_range
is_illegal_dev_range_passes pa len w a aligned inside =
    rw (misaligned_not pa w aligned, inside_passes pa len a (Width-bound w).1 inside) refl
