-- ===== src/Shell/Words.antt =====
-- user/sh.c: a token is found in the line, and ends in a 0 once the next one has been taken.
use os_challenging_mission.Base.{
  ℕ, zero, suc, ◌+◌, ◌≤◌, ◌<◌, ◌≡◌, ◌≢◌, refl, ◌∙◌, subst, true, false, List, [], ◌∷◌, ◌++◌, arith,
  update, length, update_other, ==_ne, dec_lt,
}
use os_challenging_mission.Shell.{skip_white, word_end, strchr, is_white, whitespace, symbols}

-- The string `l` stands at `s`.
abbrev pub Stands : (ℕ → ℕ) → ℕ → List ℕ → Type 0
Stands buf s [] = buf s ≡ 0
Stands buf s (c ∷ l) = (buf s ≡ c) × (c ≢ 0) × Stands buf (s + 1) l

abbrev pub White : List ℕ → Type 0
White [] = Unit {0}
White (c ∷ l) = (is_white c ≡ true) × White l

-- No space, no symbol.
abbrev pub Plain : List ℕ → Type 0
Plain [] = Unit {0}
Plain (c ∷ l) = (strchr (whitespace ++ symbols) c ≡ false) × Plain l

-- A word ends at the end of the line, at a space or at a symbol.
abbrev pub Ends : List ℕ → Type 0
Ends [] = Unit {0}
Ends (c ∷ l) = strchr (whitespace ++ symbols) c ≡ true

pub Stands-later :
    (l : List ℕ) (s t : ℕ) (buf buf' : ℕ → ℕ)
    → t ≤ s
    → ((i : ℕ) → t ≤ i → buf' i ≡ buf i)
    → Stands buf s l
    → Stands buf' s l
Stands-later [] s t buf buf' h e st = e s h ∙ st
Stands-later (c ∷ l) s t buf buf' h e (x, n, st) =
    (e s h ∙ x, n, Stands-later l (s + 1) t buf buf' (omega (arith, h)) e st)

-- The spaces `ws` become zeros, and nothing else changes.
pub skip_white_lem :
    (ws l : List ℕ) (fuel s : ℕ) (buf : ℕ → ℕ)
    → length ws < fuel
    → White ws
    → Stands buf s (ws ++ l)
    → is_white (buf (s + length ws)) ≡ false
    → ((skip_white fuel s buf).0 ≡ s + length ws)
      × ((i : ℕ) → s + length ws ≤ i → (skip_white fuel s buf).1 i ≡ buf i)
      × ((i : ℕ) → i < s → (skip_white fuel s buf).1 i ≡ buf i)
      × ((i : ℕ) → s ≤ i → i < s + length ws → (skip_white fuel s buf).1 i ≡ 0)
unfolding skip_white
skip_white_lem [] l (suc n) s buf f w st stop =
    let here : is_white (buf s) ≡ false =
      subst (λ x. is_white (buf x) ≡ false) (omega arith) stop in
    rw here (omega arith, λ i h. refl, λ i h. refl, λ i a b. absurd (omega (arith, a, b)))
skip_white_lem (c ∷ ws) l (suc n) s buf f (w, more) (e, z, st) stop =
    let here : is_white (buf s) ≡ true = rw e w in
    let cleared : ℕ → ℕ = update buf s 0 in
    let later : (i : ℕ) → s + 1 ≤ i → cleared i ≡ buf i =
      λ i h. update_other buf s 0 i (omega (arith, h)) in
    let (at_end, kept, before, zeros) =
      skip_white_lem ws l n (s + 1) cleared (omega (arith, f)) more
        (Stands-later (ws ++ l) (s + 1) (s + 1) buf cleared (omega arith) later st)
        (rw (later (s + 1 + length ws) (omega arith))
          (subst (λ x. is_white (buf x) ≡ false) (omega arith) stop)) in
    rw here (
      at_end ∙ omega arith,
      λ i h. kept i (omega (arith, h)) ∙ later i (omega (arith, h)),
      λ i h. before i (omega (arith, h)) ∙ update_other buf s 0 i (omega (arith, h)),
      λ i a b. elim (dec_lt s i) [
        | yes past ↦ zeros i (omega (arith, past)) (omega (arith, b))
        | no there ↦ before i (omega (arith, there)) ∙ ground (arith, a, there)
      ],
    )
skip_white_lem ws l zero s buf f w st stop = absurd (omega arith)

pub word_end_lem :
    (w l : List ℕ) (fuel s : ℕ) (buf : ℕ → ℕ)
    → length w < fuel
    → Plain w
    → Ends l
    → Stands buf s (w ++ l)
    → word_end fuel s buf ≡ s + length w
unfolding word_end
word_end_lem [] [] (suc n) s buf f p e st = rw st (omega arith)
word_end_lem [] (c ∷ l) (suc n) s buf f p e (x, z, st) = rw (x, e, ==_ne c 0 z) (omega arith)
word_end_lem (c ∷ w) l (suc n) s buf f (p, more) e (x, z, st) =
    rw (x, p, ==_ne c 0 z)
      (word_end_lem w l n (s + 1) buf (omega (arith, f)) more e st ∙ omega arith)
word_end_lem w l zero s buf f p e st = absurd (omega arith)

pub Stands-drop :
    (ws l : List ℕ) (s : ℕ) (buf : ℕ → ℕ) → Stands buf s (ws ++ l) → Stands buf (s + length ws) l
Stands-drop [] l s buf st = subst (λ x. Stands buf x l) (omega arith) st
Stands-drop (c ∷ ws) l s buf (e, n, st) =
    subst (λ x. Stands buf x l) (omega arith) (Stands-drop ws l (s + 1) buf st)
