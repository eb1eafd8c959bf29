-- ===== src/Exec/Command.antt =====
-- The command that the launcher gives to the shell.
use mathlib.Core.List.{append_assoc}
use sve.Base.{
  ℕ, ◌≡◌, refl, ap, ◌∙◌, false, List, [], ◌∷◌, ◌++◌, some, length-append, inl, inr, Bool-cases,
  arith, if◌then◌else◌, eqb, length, ℤ, pos, minus_one, ◌==◌,
}
use sve.Kernel.{Kernel, Call, Reply, World, pure, sys, ◌>>◌}
use sve.Kernel.Runs
use sve.Kernel.Runs.{Ends, came_back, Called}
use sve.Kernel.Stuck.{Stuck, sys-Stuck}
use sve.Exec.{
  ld_preload_lib, space, command_size, build_command, arguments_size, c_string, execute, main,
}
use sve.Exec.Fits.{words, build_command-HoldsString}

-- No byte of the text ends a string.
abbrev pub IsString : List ℕ → Type 0
IsString [] = Unit
IsString (b ∷ bs) = (eqb b 0 ≡ false) × IsString bs

abbrev pub AreStrings : List (List ℕ) → Type 0
AreStrings [] = Unit
AreStrings (arg ∷ argv) = IsString arg × AreStrings argv

pub append-IsString : (xs ys : List ℕ) → IsString xs → IsString ys → IsString (xs ++ ys)
append-IsString [] ys hx hy = hy
append-IsString (x ∷ xs) ys (h, hx) hy = (h, append-IsString xs ys hx hy)

words-IsString : (argv : List (List ℕ)) → AreStrings argv → IsString (words argv)
words-IsString [] h = tt
words-IsString (arg ∷ argv) (h, hs) =
    append-IsString arg (space ++ words argv) h (refl, words-IsString argv hs)

pub c_string-append : (text rest : List ℕ) → IsString text → c_string (text ++ 0 ∷ rest) ≡ text
unfolding c_string
c_string-append [] rest h = refl
c_string-append (b ∷ bs) rest (h, hs) = rw (h, c_string-append bs rest hs)

-- What is to be run: the library, and the arguments with spaces behind them.
abbrev pub command_line : List (List ℕ) → List ℕ
command_line argv = (ld_preload_lib ++ space) ++ words argv

command_line-IsString : (argv : List (List ℕ)) → AreStrings argv → IsString (command_line argv)
command_line-IsString argv h =
    append-IsString (ld_preload_lib ++ space) (words argv) (ground arith) (words-IsString argv h)

-- One call of the shell, and a message where it failed.
pub record Ran (k : Kernel) (text : List ℕ) (w : World) (result : ℤ) (v : World) : Type 0 where
  pub exit_code : result ≡ pos 0
  pub calls : v.log ≡ (
      if (k w.log (Call.system text)).value == minus_one
      then Call.perror ∷ Call.system text ∷ w.log
      else Call.system text ∷ w.log)

-- What the two loops leave for the shell.
build_command-command_line :
    (argv : List (List ℕ)) (junk : List ℕ)
    → AreStrings argv
    → length junk ≡ command_size argv
    → (r : List ℕ × ℕ) × (build_command argv junk ≡ some r) × (c_string r.0 ≡ command_line argv)
build_command-command_line argv junk strings size =
    let (r, built, holds) = build_command-HoldsString argv junk size in
    (
      r,
      built,
      ap c_string holds.content
          ∙ c_string-append (command_line argv) holds.rest (command_line-IsString argv strings),
    )

report-Ran :
    {k : Kernel} {text : List ℕ} {w : World} (reply : Reply) (v : World)
    → Called k (Call.system text) w reply v
    → Ends
        (λ _ v'. v'.log ≡ (
          if (k w.log (Call.system text)).value == minus_one
          then Call.perror ∷ Call.system text ∷ w.log
          else Call.system text ∷ w.log))
        (Stuck k)
        ((if reply.value == minus_one then sys k Call.perror >> pure tt else pure tt) v)
report-Ran {k} reply v c = elim (Bool-cases (reply.value == minus_one)) [
  | inl failed ↦
      rw (failed, ← c.reply, failed)
        (Runs.bind-Ends (sys-Stuck k Call.perror v)
          λ _ v' c'. came_back (c'.logged ∙ ap (◌∷◌ Call.perror) c.logged))
  | inr ran ↦ rw (ran, ← c.reply, ran) (came_back c.logged)
]

-- Whatever the arguments are, the launcher asks the shell once, for exactly the library's assignment
-- and the arguments in order, each followed by a space; it reports a failure and returns 0. It does not
-- come back only if the system does not answer.
pub main-Ran :
    (k : Kernel) (argv : List (List ℕ)) (junk : List ℕ) (w : World)
    → AreStrings argv
    → length junk ≡ command_size argv
    → Ends (Ran k (command_line argv) w) (Stuck k) (main k argv junk w)
unfolding main execute
main-Ran k argv junk w strings size =
    let (r, built, text) = build_command-command_line argv junk strings size in
    rw (built, execute, text)
      (Runs.bind-Ends (sys-Stuck k (Call.system (command_line argv)) w) λ reply v c.
        Runs.bind-Ends (report-Ran reply v c)
          λ _ v' calls. came_back (record { exit_code = refl; calls = calls }))

-- The arguments are not quoted: one that has a space in it is run as two, so the launcher does the same
-- for both lists of arguments.
pub main-unquoted :
    (k : Kernel) (a b : List ℕ) (argv : List (List ℕ)) (junk : List ℕ) (w : World)
    → IsString a
    → IsString b
    → AreStrings argv
    → length junk ≡ command_size (a ∷ b ∷ argv)
    → main k ((a ++ (space ++ b)) ∷ argv) junk w ≡ main k (a ∷ b ∷ argv) junk w
unfolding main execute command_size arguments_size
main-unquoted k a b argv junk w ha hb hs size =
    let (r, built, text) =
      build_command-command_line ((a ++ (space ++ b)) ∷ argv) junk
        (append-IsString a (space ++ b) ha (refl, hb), hs)
        (omega (arith, size, length-append a (space ++ b))) in
    let (r', built', text') = build_command-command_line (a ∷ b ∷ argv) junk (ha, (hb, hs)) size in
    rw (built, built', execute, text, text', append_assoc a (space ++ b) (space ++ words argv))
