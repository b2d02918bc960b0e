-- ===== src/Errors.antt =====
-- include/error.h: the error codes, and calls that may fail.
-- A C function that returns `-E_X` gives `err e_x`; one that returns 0 or a value gives `ok`.

use os_challenging_mission.Base.{◌≡◌, ◌≢◌, ◌⊎◌, inl, inr, refl, arith}

pub data Error : Type 0 where
  unspecified bad_env inval no_mem no_sys no_free_env ipc_not_recv : Error
  no_disk max_open not_found bad_path file_exists not_exec : Error

-- How a call ends. `panicked`: `panic` or a failed assertion stopped the system. `switched`: the
-- call does not return to its caller, the CPU has gone on to another env. `waiting`: the CPU stays
-- in the loop of `schedule`, or of a spin lock.
pub data Outcome {ℓ} (A : Type ℓ) : Type ℓ where
  ok : A → Outcome A
  err : Error → Outcome A
  panicked switched waiting : Outcome A

-- A call on a state `S`. What it did to the state before it failed stays done.
abbrev pub M : Type 0 → Type 0 → Type 0
M S A = S → Outcome A × S

module _ {S A B : Type 0} where
  abbrev pub and_then : Outcome A × S → (A → M S B) → Outcome B × S
  and_then (ok a, s) k = k a s
  and_then (err e, s) k = (err e, s)
  and_then (panicked, s) k = (panicked, s)
  and_then (switched, s) k = (switched, s)
  and_then (waiting, s) k = (waiting, s)

  infixl 5 ◌>>=◌ ◌>>◌
  abbrev pub ◌>>=◌ : M S A → (A → M S B) → M S B
  ◌>>=◌ m k s = and_then (m s) k

  abbrev pub ◌>>◌ : M S A → M S B → M S B
  ◌>>◌ m k s = and_then (m s) (λ _. k)

module _ {S A : Type 0} where
  abbrev pub pure : A → M S A
  pure a s = (ok a, s)

  abbrev pub fail : Error → M S A
  fail e s = (err e, s)

  abbrev pub panic : M S A
  panic s = (panicked, s)

-- An invariant of the state is kept by a chain of calls.
pub and_then_keeps {ℓ} :
    {S A B : Type 0} (P : S → Type ℓ) (r : Outcome A × S) (k : A → M S B)
    → P r.1
    → ((a : A) → r.0 ≡ ok a → P (k a r.1).1)
    → P (and_then r k).1
and_then_keeps P (ok a, s) k h f = f a refl
and_then_keeps P (err e, s) k h f = h
and_then_keeps P (panicked, s) k h f = h
and_then_keeps P (switched, s) k h f = h
and_then_keeps P (waiting, s) k h f = h

-- What holds of a chain of calls, from what holds if its first call fails and if it returns.
pub and_then-cases {ℓ} :
    {S A B : Type 0} (Q : Outcome B × S → Type ℓ) (r : Outcome A × S) (k : A → M S B)
    → (((a : A) → r.0 ≢ ok a) → (o : Outcome B) → ((b : B) → o ≢ ok b) → Q (o, r.1))
    → ((a : A) → r.0 ≡ ok a → Q (k a r.1))
    → Q (and_then r k)
and_then-cases Q (ok a, s) k h f = f a refl
and_then-cases Q (err e, s) k h f = h (λ a. ground arith) (err e) (λ b. ground arith)
and_then-cases Q (panicked, s) k h f = h (λ a. ground arith) panicked (λ b. ground arith)
and_then-cases Q (switched, s) k h f = h (λ a. ground arith) switched (λ b. ground arith)
and_then-cases Q (waiting, s) k h f = h (λ a. ground arith) waiting (λ b. ground arith)

-- A chain that returns has gone on after its first call.
pub and_then_ok :
    {S A B : Type 0} (r : Outcome A × S) (k : A → M S B) {b : B}
    → (and_then r k).0 ≡ ok b
    → (a : A) × (r.0 ≡ ok a) × (and_then r k ≡ k a r.1)
and_then_ok (ok a, s) k h = (a, refl, refl)
and_then_ok (err e, s) k h = absurd (ground (arith, h))
and_then_ok (panicked, s) k h = absurd (ground (arith, h))
and_then_ok (switched, s) k h = absurd (ground (arith, h))
and_then_ok (waiting, s) k h = absurd (ground (arith, h))

-- A chain that fails has failed in its first call, or in what follows it.
pub and_then_err :
    {S A B : Type 0} (r : Outcome A × S) (k : A → M S B) {x : Error}
    → (and_then r k).0 ≡ err x
    → ((r.0 ≡ err x) × ((and_then r k).1 ≡ r.1))
      ⊎ ((a : A) × (r.0 ≡ ok a) × (and_then r k ≡ k a r.1))
and_then_err (ok a, s) k h = inr (a, refl, refl)
and_then_err (err e, s) k {x} h = inl (ground (arith, h), refl)
and_then_err (panicked, s) k h = absurd (ground (arith, h))
and_then_err (switched, s) k h = absurd (ground (arith, h))
and_then_err (waiting, s) k h = absurd (ground (arith, h))
