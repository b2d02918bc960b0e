-- ===== src/Shell/Examples.antt =====
-- The shell at the line " ls>a".
use os_challenging_mission.Base.{
  ℕ, zero, suc, ◌-◌, ◌≡◌, refl, List, [], ◌∷◌, arith, ltb, if◌then◌else◌,
}
use os_challenging_mission.Shell.{gettoken, Lexer, strchr, gettoken_start, raw_gettoken}
use os_challenging_mission.Shell.Words.{Stands}
use os_challenging_mission.Shell.Tokens.{symbol, gettoken-Word, Word}
use os_challenging_mission.Errors.{Outcome, ok}
use os_challenging_mission.Shell.Parse.{parsecmd, UserLib, Command}

abbrev bytes_at : List ℕ → ℕ → ℕ
bytes_at [] i = 0
bytes_at (c ∷ l) zero = c
bytes_at (c ∷ l) (suc i) = bytes_at l i

-- The line stands at 100.
abbrev line : ℕ → ℕ
line i = if ltb i 100 then 0 else bytes_at (0x20 ∷ 0x6c ∷ 0x73 ∷ 0x3e ∷ 0x61 ∷ []) (i - 100)

abbrev ls : (ℕ × ℕ) × Lexer
ls = gettoken 10 (gettoken_start 10 100 line)

ls_run : (ls.0 ≡ (0x77, 101)) × (ls.1.buf 103 ≡ 0) × (ls.1.next.kind ≡ 0x3e)
unfolding gettoken gettoken_start raw_gettoken strchr
ls_run = (refl, refl, refl)

line-Stands : Stands line 100 (0x20 ∷ 0x6c ∷ 0x73 ∷ 0x3e ∷ 0x61 ∷ [])
line-Stands = (
  refl,
  omega arith,
  (refl, omega arith, (refl, omega arith, (refl, omega arith, (refl, omega arith, refl)))),
)

gettoken_example : Word 101 (0x6c ∷ 0x73 ∷ []) (symbol 0x3e) 103 ls
unfolding strchr
gettoken_example =
    gettoken-Word (0x20 ∷ []) 0x6c (0x73 ∷ []) [] (symbol 0x3e) (0x61 ∷ []) 10 100 line
      (omega arith) (omega arith) (omega arith) (refl, tt) tt (refl, (refl, tt)) refl refl
      line-Stands

-- A library that opens descriptor 3 and writes down what is asked of it.
abbrev noting : UserLib (List (ℕ × ℕ))
noting = record {
  open_file = λ buf t flags s. (ok 3, (t, flags) ∷ s);
  dup_file = λ a b s. (ok b, (a, b) ∷ s);
  close_file = λ a s. (ok tt, (a, 99) ∷ s);
  pipe = λ s. (ok (4, 5), s);
  fork = λ s. (ok 7, s);
}

abbrev parsed : Outcome ℕ × Command (List (ℕ × ℕ))
parsed =
    parsecmd noting 10 5
      (record { lexer = gettoken_start 10 100 line; argv = []; rightpipe = 0; user = [] })

-- "ls" is the only argument, and "a" is opened for writing in the place of descriptor 1.
parsed_run :
    (parsed.0 ≡ ok 1)
    × (parsed.1.argv ≡ 101 ∷ [])
    × (parsed.1.user ≡ (3, 99) ∷ (3, 1) ∷ (104, 0x301) ∷ [])
unfolding parsecmd gettoken gettoken_start raw_gettoken strchr
parsed_run = (refl, refl, refl)
