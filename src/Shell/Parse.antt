-- ===== src/Shell/Parse.antt =====
-- user/sh.c: `parsecmd`, over the calls of the user library that it makes.
use os_challenging_mission.Serv.{o_creat, o_trunc}
use os_challenging_mission.Errors.{M, Outcome, ok, err, panicked, ◌>>=◌, ◌>>◌, waiting}
use os_challenging_mission.Base.{
  ℕ, zero, suc, ◌+◌, not, List, [], ◌∷◌, ◌++◌, ◌==◌, leb, if◌then◌else◌, length,
}
use os_challenging_mission.Shell.{Lexer, gettoken}

-- user/include/lib.h
abbrev pub o_rdonly : ℕ
o_rdonly = 0

abbrev pub o_wronly : ℕ
o_wronly = 1

abbrev pub maxargs : ℕ
maxargs = 128

-- The calls, on the state of the env and its files; `open` is given the memory and where the path is.
pub record UserLib (S : Type 0) : Type 0 where
  pub open_file : (ℕ → ℕ) → ℕ → ℕ → M S ℕ
  pub dup_file : ℕ → ℕ → M S ℕ
  pub close_file : ℕ → M S (Unit {0})
  pub pipe : M S (ℕ × ℕ)
  pub fork : M S ℕ

-- `argv` has `argc` entries.
pub record Command (S : Type 0) : Type 0 where
  pub lexer : Lexer
  pub argv : List ℕ
  pub rightpipe : ℕ
  pub user : S

module _ {S : Type 0} where
  abbrev on_user : {A : Type 0} → M S A → M (Command S) A
  on_user m s = ((m s.user).0, record s { user = (m s.user).1 })

  -- A call whose result is not looked at.
  abbrev ignoring : {A : Type 0} → Outcome A × Command S → Outcome (Unit {0}) × Command S
  ignoring (ok a, s) = (ok tt, s)
  ignoring (err e, s) = (ok tt, s)
  ignoring (_, s) = (panicked, s)

  -- `exit()` if the call fails.
  abbrev or_exit : {A : Type 0} → Outcome A × Command S → Outcome A × Command S
  or_exit (err e, s) = (panicked, s)
  or_exit r = r

  abbrev next_token : ℕ → M (Command S) (ℕ × ℕ)
  next_token fuel s = let r = gettoken fuel s.lexer in (ok r.0, record s { lexer = r.1 })

  abbrev push : ℕ → M (Command S) (Unit {0})
  push t s = (ok tt, record s { argv = s.argv ++ t ∷ [] })

  -- `<` and `>`: the next token is opened and takes the place of `fd`.
  unfoldable pub redirect : UserLib S → ℕ → ℕ → ℕ → M (Command S) (Unit {0})
  redirect lib fuel flags fd = do
    token ← next_token fuel
    λ s.
        if not (token.0 == 0x77)
        then (panicked, s)
        else (do
          r ← λ t. or_exit (on_user (lib.open_file t.lexer.buf token.1 flags) t)
          λ t. ignoring (on_user (lib.dup_file r fd) t)
          λ t. ignoring (on_user (lib.close_file r) t))
            s

  -- An end of the pipe takes the place of `fd`, and both ends are closed.
  unfoldable pub take_end : UserLib S → ℕ → ℕ → ℕ → M (Command S) (Unit {0})
  take_end lib end other fd = do
    λ t. ignoring (on_user (lib.dup_file end fd) t)
    λ t. ignoring (on_user (lib.close_file end) t)
    λ t. ignoring (on_user (lib.close_file other) t)

  -- The child goes on with the right side of the pipe, as a command of its own.
  unfoldable pub after_fork : UserLib S → M (Command S) ℕ → ℕ × ℕ → ℕ → M (Command S) ℕ
  unfolding take_end
  after_fork lib rest p r s =
      let t = record s { rightpipe = r } in
      if r == 0
      then (do take_end lib p.0 p.1 0; λ u. rest (record u { argv = [] })) t
      else (do take_end lib p.1 p.0 1; λ u. (ok (length u.argv), u)) t

  unfoldable pub split_pipe : UserLib S → M (Command S) ℕ → M (Command S) ℕ
  unfolding after_fork
  split_pipe lib rest = do
    p ← λ t. or_exit (on_user lib.pipe t)
    r ← λ t. or_exit (on_user lib.fork t)
    after_fork lib rest p r

  -- `switch (c)`; a token of another kind is passed over.
  unfoldable pub on_token : UserLib S → ℕ → M (Command S) ℕ → ℕ × ℕ → M (Command S) ℕ
  unfolding redirect split_pipe
  on_token lib fuel rest (c, t) s =
      if c == 0
      then (ok (length s.argv), s)
      else if c == 0x77
      then if leb maxargs (length s.argv) then (panicked, s) else (do push t; rest) s
      else if c == 0x3c
      then (do redirect lib fuel o_rdonly 0; rest) s
      else if c == 0x3e
      then (do redirect lib fuel (o_wronly + o_creat + o_trunc) 1; rest) s
      else if c == 0x7c
      then split_pipe lib rest s
      else rest s

  -- The loop of `parsecmd`, for `n` tokens at most; the result is `argc`.
  unfoldable pub parsecmd : UserLib S → (fuel n : ℕ) → M (Command S) ℕ
  unfolding on_token
  parsecmd lib fuel zero s = (waiting, s)
  parsecmd lib fuel (suc n) s =
      let rest = parsecmd lib fuel n in (do token ← next_token fuel; on_token lib fuel rest token) s
