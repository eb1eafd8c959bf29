-- ===== src/Exec.antt =====
-- src/exec.c: the launcher builds the command line in a buffer whose size it has computed. An argument
-- is the bytes of a C string, without its end.
pub mod Fits
pub mod Command
use sve.Base.{
  pos, minus_one, ◌==◌, eqb, ℕ, ◌+◌, ◌≤◌, Option, none, some, List, [], ◌∷◌, ◌++◌, length, take,
  drop, replicate, ltb, if◌then◌else◌, ℤ,
}
use sve.Kernel.{Kernel, Call, Prog, pure, ended, exited, ◌>>=◌, ◌>>◌, sys}

-- "LD_PRELOAD=$LD_PRELOAD:/usr/local/lib/libopenDSU.so"
abbrev pub ld_preload_lib : List ℕ
ld_preload_lib =
    b'L' ∷ b'D' ∷ b'_' ∷ b'P' ∷ b'R' ∷ b'E' ∷ b'L' ∷ b'O' ∷ b'A' ∷ b'D' ∷ b'=' ∷ b'$' ∷ b'L' ∷ b'D'
    ∷ b'_' ∷ b'P' ∷ b'R' ∷ b'E' ∷ b'L' ∷ b'O' ∷ b'A' ∷ b'D' ∷ b':' ∷ b'/' ∷ b'u' ∷ b's' ∷ b'r'
    ∷ b'/' ∷ b'l' ∷ b'o' ∷ b'c' ∷ b'a' ∷ b'l' ∷ b'/' ∷ b'l' ∷ b'i' ∷ b'b' ∷ b'/' ∷ b'l' ∷ b'i'
    ∷ b'b' ∷ b'o' ∷ b'p' ∷ b'e' ∷ b'n' ∷ b'D' ∷ b'S' ∷ b'U' ∷ b'.' ∷ b's' ∷ b'o' ∷ []

abbrev pub space : List ℕ
space = b' ' ∷ []

-- The first loop: the room for the arguments.
unfoldable pub arguments_size : List (List ℕ) → ℕ
arguments_size [] = 0
arguments_size (arg ∷ argv) = length arg + 1 + arguments_size argv

unfoldable pub command_size : List (List ℕ) → ℕ
unfolding arguments_size
command_size argv = arguments_size argv + (length ld_preload_lib + 1) + 1

-- `strcpy(&command[idx], s)`: the text and its end, and `none` where they do not fit.
unfoldable pub strcpy : List ℕ → ℕ → List ℕ → Option (List ℕ)
strcpy command idx s =
    if ltb (length command) (idx + length s + 1)
    then none
    else some (take idx command ++ (s ++ 0 ∷ drop (idx + length s + 1) command))

-- Two copies, each with the step of `idx` behind it: a text and a space.
unfoldable pub append_word : List ℕ → ℕ → List ℕ → Option (List ℕ × ℕ)
unfolding strcpy
append_word command idx s = elim (strcpy command idx s) [
  | none ↦ none
  | some command' ↦ elim (strcpy command' (idx + length s) space) [
    | none ↦ none
    | some command'' ↦ some (command'', idx + length s + 1)
  ]
]

-- The second loop.
unfoldable pub append_arguments : List (List ℕ) → List ℕ → ℕ → Option (List ℕ × ℕ)
unfolding append_word
append_arguments [] command idx = some (command, idx)
append_arguments (arg ∷ argv) command idx = elim (append_word command idx arg) [
  | none ↦ none
  | some (command', idx') ↦ append_arguments argv command' idx'
]

-- The buffer that is handed to `system`. `junk` is what the array holds before.
unfoldable pub build_command : List (List ℕ) → List ℕ → Option (List ℕ × ℕ)
unfolding append_word append_arguments
build_command argv junk = elim (append_word junk 0 ld_preload_lib) [
  | none ↦ none
  | some (command, idx) ↦ append_arguments argv command idx
]

-- The string that stands at the front of an array: its bytes up to the first 0.
unfoldable pub c_string : List ℕ → List ℕ
c_string [] = []
c_string (b ∷ bs) = let rest = c_string bs in if eqb b 0 then [] else b ∷ rest

module _ (k : Kernel) where
  -- The part behind the two loops. A copy that leaves the array is undefined: here the process ends.
  unfoldable pub execute : Option (List ℕ × ℕ) → Prog ℤ
  execute none = ended exited
  execute (some (command, idx)) = do
    r ← sys k (Call.system (c_string command))
    (if r.value == minus_one then sys k Call.perror >> pure tt else pure tt)
    pure (pos 0)

  -- `argv` is without the program's own name, and `junk` what the array holds before.
  unfoldable pub main : List (List ℕ) → List ℕ → Prog ℤ
  main argv junk = execute (build_command argv junk)
