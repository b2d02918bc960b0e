-- ===== src/Shell/Tokens.antt =====
-- user/sh.c: what `_gettoken` finds in a line, and that a word is a string once the next token was taken.
use os_challenging_mission.Base.{
  ℕ, ◌+◌, ◌≤◌, ◌<◌, ◌≡◌, ◌≢◌, refl, sym, ap, ◌∙◌, subst, true, false, List, [], ◌∷◌, ◌++◌, arith,
  update, length, ==_ne, update_other,
}
use os_challenging_mission.Shell.Words.{
  Plain, Stands, Ends, word_end_lem, White, Stands-drop, skip_white_lem, Stands-later,
}
use os_challenging_mission.Shell.{
  strchr, Token, token_at, whitespace, is_symbol, is_white, symbols, raw_gettoken, skip_white,
  gettoken, gettoken_start, Lexer,
}

-- What stands in a line after its spaces: a word with its first byte, a symbol, or nothing.
pub data Lexeme : Type 0 where
  word : (c : ℕ) → (w : List ℕ) → Lexeme
  symbol : (c : ℕ) → Lexeme
  nothing : Lexeme

abbrev pub text : Lexeme → List ℕ
text (word c w) = c ∷ w
text (symbol c) = c ∷ []
text nothing = []

-- The lexeme and the rest of the line after it.
abbrev pub Shape : Lexeme → List ℕ → Type 0
Shape (word c w) rest = Plain (c ∷ w) × Ends rest
Shape (symbol c) rest = is_symbol c ≡ true
Shape nothing rest = rest ≡ []

abbrev pub kind_of : Lexeme → ℕ
kind_of (word c w) = 0x77
kind_of (symbol c) = c
kind_of nothing = 0

abbrev pub token_of : Lexeme → ℕ → Token
token_of (word c w) a = record { kind = 0x77; p1 = a; p2 = a + length (c ∷ w) }
token_of (symbol c) a = record { kind = c; p1 = a; p2 = a + 1 }
token_of nothing a = record { kind = 0; p1 = 0; p2 = 0 }

plain_not_white :
    (c : ℕ)
    → strchr (whitespace ++ symbols) c ≡ false
    → (is_white c ≡ false) × (is_symbol c ≡ false)
unfolding strchr
plain_not_white c h = (ground (arith, h), ground (arith, h))

symbol_not_white : (c : ℕ) → is_symbol c ≡ true → is_white c ≡ false
unfolding strchr
symbol_not_white c h = ground (arith, h)

stop_white :
    (x : Lexeme) (rest : List ℕ) (a : ℕ) (buf : ℕ → ℕ)
    → Shape x rest
    → Stands buf a (text x ++ rest)
    → is_white (buf a) ≡ false
unfolding strchr
stop_white (word c w) rest a buf h st = rw (st.0) ((plain_not_white c h.0.0).0)
stop_white (symbol c) rest a buf h st = rw (st.0) (symbol_not_white c h)
stop_white nothing rest a buf h st =
    let ended : buf a ≡ 0 = subst (Stands buf a) h st in rw ended refl

-- The byte of a symbol becomes 0.
abbrev pub cut : Lexeme → ℕ → (ℕ → ℕ) → ℕ → ℕ
cut (symbol c) a buf = update buf a 0
cut _ a buf = buf

token_at_lem :
    (x : Lexeme) (rest : List ℕ) (fuel a : ℕ) (buf : ℕ → ℕ)
    → length (text x) < fuel
    → Shape x rest
    → Stands buf a (text x ++ rest)
    → token_at fuel a buf ≡ (token_of x a, cut x a buf)
unfolding token_at
token_at_lem (word c w) rest fuel a buf f h (e, z, st) =
    rw (e, ==_ne c 0 z, (plain_not_white c h.0.0).1)
      (rw (word_end_lem (c ∷ w) rest fuel a buf f h.0 h.1 (e, z, st)) refl)
token_at_lem (symbol c) rest fuel a buf f h (e, z, st) = rw (e, ==_ne c 0 z, h) refl
token_at_lem nothing rest fuel a buf f h st =
    let ended : buf a ≡ 0 = subst (Stands buf a) h st in rw ended refl

-- `_gettoken` skips spaces, and returns the lexeme that stands after them with its ends. It turns the
-- spaces, and the byte of a symbol, into zeros, and changes nothing else.
pub record Taken (buf : ℕ → ℕ) (s a : ℕ) (x : Lexeme) (r : Token × (ℕ → ℕ)) : Type 0 where
  pub token : r.0 ≡ token_of x a
  pub onwards : (i : ℕ) → a ≤ i → r.1 i ≡ cut x a buf i
  pub before : (i : ℕ) → i < s → r.1 i ≡ buf i
  pub spaces : (i : ℕ) → s ≤ i → i < a → r.1 i ≡ 0

cut-before : (x : Lexeme) (a i : ℕ) (buf : ℕ → ℕ) → i < a → cut x a buf i ≡ buf i
cut-before (word c w) a i buf h = refl
cut-before (symbol c) a i buf h = update_other buf a 0 i (omega (arith, h))
cut-before nothing a i buf h = refl

cut-after :
    (x : Lexeme) (a i : ℕ) (buf other : ℕ → ℕ) → other i ≡ buf i → cut x a other i ≡ cut x a buf i
cut-after (word c w) a i buf other h = h
cut-after (symbol c) a i buf other h = rw h refl
cut-after nothing a i buf other h = h

pub raw_gettoken-Taken :
    (ws : List ℕ) (x : Lexeme) (rest : List ℕ) (fuel s : ℕ) (buf : ℕ → ℕ)
    → s ≢ 0
    → length ws + length (text x) < fuel
    → White ws
    → Shape x rest
    → Stands buf s (ws ++ (text x ++ rest))
    → Taken buf s (s + length ws) x (raw_gettoken fuel s buf)
unfolding raw_gettoken
raw_gettoken-Taken ws x rest fuel s buf n f w h st =
    let a = s + length ws in
    let there = Stands-drop ws (text x ++ rest) s buf st in
    let (at_end, kept, before, zeros) =
      skip_white_lem ws (text x ++ rest) fuel s buf (omega (arith, f)) w st
        (stop_white x rest a buf h there) in
    let skipped = (skip_white fuel s buf).1 in
    let found =
      token_at_lem x rest fuel a skipped (omega (arith, f)) h
        (Stands-later (text x ++ rest) a a buf skipped (omega arith) kept there) in
    rw (==_ne s 0 n, at_end, found)
      record {
        token = refl;
        onwards = λ i l. cut-after x a i buf skipped (kept i l);
        before = λ i l. cut-before x a i skipped (omega (arith, l)) ∙ before i l;
        spaces = λ i l m. cut-before x a i skipped m ∙ zeros i l m;
      }

-- The bytes of `w` are still there, and a 0 behind them.
terminated :
    (w l : List ℕ) (a : ℕ) (buf v : ℕ → ℕ)
    → Stands buf a (w ++ l)
    → ((i : ℕ) → a ≤ i → i < a + length w → v i ≡ buf i)
    → v (a + length w) ≡ 0
    → Stands v a w
terminated [] l a buf v st same stop = subst (λ i. v i ≡ 0) (omega arith) stop
terminated (c ∷ w) l a buf v (e, n, st) same stop = (
  same a (omega arith) (omega arith) ∙ e,
  n,
  terminated w l (a + 1) buf v st (λ i o h. same i (omega (arith, o)) (omega (arith, h)))
      (subst (λ i. v i ≡ 0) (omega arith) stop),
)

-- The byte behind a word is 0 after the next token was taken.
behind :
    (ws : List ℕ) (y : Lexeme) (rest : List ℕ) (a : ℕ) (buf : ℕ → ℕ) (r : Token × (ℕ → ℕ))
    → Ends (ws ++ (text y ++ rest))
    → Shape y rest
    → Stands buf a (ws ++ (text y ++ rest))
    → Taken buf a (a + length ws) y r
    → r.1 a ≡ 0
behind (d ∷ ws) y rest a buf r e h st t = t.spaces a (omega arith) (omega arith)
behind [] (word c w) rest a buf r e h st t = absurd (ground (arith, e, h.0.0))
behind [] (symbol c) rest a buf r e h st t = t.onwards a (omega arith) ∙ ground arith
behind [] nothing rest a buf r e h st t = t.onwards a (omega arith) ∙ subst (Stands buf a) h st

-- The result of `gettoken` after the first token, and what it has fetched.
abbrev fetched : ℕ → (ℕ → ℕ) → Token → (ℕ × ℕ) × Lexer
fetched fuel u first =
    let r = raw_gettoken fuel first.p2 u in
    ((first.kind, first.p1), record { next = r.0; buf = r.1 })

gettoken-fetched :
    (fuel s : ℕ) (buf : ℕ → ℕ)
    → gettoken fuel (gettoken_start fuel s buf)
      ≡ fetched fuel (raw_gettoken fuel s buf).1 (raw_gettoken fuel s buf).0
unfolding gettoken gettoken_start
gettoken-fetched fuel s buf = refl

-- `gettoken` has returned the word `l`, which begins at `a`, and the next token is `y` at `b`.
abbrev pub Word : (a : ℕ) (l : List ℕ) (y : Lexeme) (b : ℕ) → (ℕ × ℕ) × Lexer → Type 0
Word a l y b r = (r.0 ≡ (0x77, a)) × Stands r.1.buf a l × (r.1.next ≡ token_of y b)

-- A word of the line, when `gettoken` returns it: the result is 'w' and where the word begins, the
-- word is by then a string of its own in the memory, and the next token is the lexeme after it.
pub gettoken-Word :
    (ws : List ℕ) (c : ℕ) (w ws' : List ℕ) (y : Lexeme) (rest : List ℕ) (fuel s : ℕ) (buf : ℕ → ℕ)
    → s ≢ 0
    → length ws + length (c ∷ w) < fuel
    → length ws' + length (text y) < fuel
    → White ws
    → White ws'
    → Plain (c ∷ w)
    → Ends (ws' ++ (text y ++ rest))
    → Shape y rest
    → Stands buf s (ws ++ ((c ∷ w) ++ (ws' ++ (text y ++ rest))))
    → Word
        (s + length ws)
        (c ∷ w)
        y
        (s + length ws + length (c ∷ w) + length ws')
        (gettoken fuel (gettoken_start fuel s buf))
gettoken-Word ws c w ws' y rest fuel s buf n f f' white white' plain ends h st =
    subst (Word a (c ∷ w) y (p2 + length ws'))
      (sym (gettoken-fetched fuel s buf ∙ ap (fetched fuel u) first.token))
      (
        refl,
        terminated (c ∷ w) l a buf second.1 there (λ i o m. again.before i m ∙ first.onwards i o)
            stop,
        again.token,
      )
  where
    l : List ℕ
    l = ws' ++ (text y ++ rest)

    a : ℕ
    a = s + length ws

    p2 : ℕ
    p2 = a + length (c ∷ w)

    there : Stands buf a ((c ∷ w) ++ l)
    there = Stands-drop ws ((c ∷ w) ++ l) s buf st

    first : Taken buf s a (word c w) (raw_gettoken fuel s buf)
    first = raw_gettoken-Taken ws (word c w) l fuel s buf n f white (plain, ends) st

    u : ℕ → ℕ
    u = (raw_gettoken fuel s buf).1

    left : Stands u p2 l
    left = Stands-later l p2 a buf u (omega arith) first.onwards (Stands-drop (c ∷ w) l a buf there)

    second : Token × (ℕ → ℕ)
    second = raw_gettoken fuel p2 u

    again : Taken u p2 (p2 + length ws') y second
    again = raw_gettoken-Taken ws' y rest fuel p2 u (omega arith) f' white' h left

    stop : second.1 p2 ≡ 0
    stop = behind ws' y rest p2 u second ends h left again
