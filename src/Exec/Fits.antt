-- ===== src/Exec/Fits.antt =====
-- The command line fits the buffer, and is what it should be.
use mathlib.Core.List.{append_assoc, append-nil}
use sve.Base.{
  ℕ, ◌+◌, ◌≤◌, ◌≡◌, refl, some, List, [], ◌∷◌, ◌++◌, length, take, drop, arith, length-append,
  le→ltb, take-append, length-drop,
}
use sve.Exec.{
  ld_preload_lib, space, arguments_size, command_size, strcpy, append_word, append_arguments,
  build_command,
}

-- The buffer holds `text` up to `idx`, then the end, and it has `size` bytes in all.
pub record Holds (text : List ℕ) (size : ℕ) (command : List ℕ) (idx : ℕ) : Type 0 where
  pub rest : List ℕ
  pub content : command ≡ text ++ rest
  pub index : idx ≡ length text
  pub bytes : length command ≡ size

-- ... and the end of the string stands behind the text.
pub record HoldsString (text : List ℕ) (size : ℕ) (command : List ℕ) (idx : ℕ) : Type 0 where
  pub rest : List ℕ
  pub content : command ≡ text ++ 0 ∷ rest
  pub index : idx ≡ length text
  pub bytes : length command ≡ size

strcpy-HoldsString :
    (text s : List ℕ) (size : ℕ) (command : List ℕ) (idx : ℕ)
    → Holds text size command idx
    → idx + length s + 1 ≤ size
    → (command' : List ℕ) × (strcpy command idx s ≡ some command')
      × HoldsString (text ++ s) size command' (idx + length s)
unfolding strcpy
strcpy-HoldsString text s size command idx h fits = (
  take idx command ++ (s ++ 0 ∷ drop (idx + length s + 1) command),
  rw (h.bytes, le→ltb (idx + length s + 1) size fits),
  record {
    rest = drop (idx + length s + 1) command;
    content = rw (front, append_assoc text s _);
    index = omega (arith, h.index, length-append text s);
    bytes = rw front (
        omega (
          arith,
          length-append text (s ++ 0 ∷ drop (idx + length s + 1) command),
          length-append s (0 ∷ drop (idx + length s + 1) command),
          length-drop (idx + length s + 1) command,
          h.index,
          h.bytes,
        ));
  },
)
  where
    front : take idx command ≡ text
    front = rw (h.content, h.index) (take-append text h.rest)

HoldsString-Holds :
    {text : List ℕ} {size : ℕ} {command : List ℕ} {idx : ℕ}
    → HoldsString text size command idx
    → Holds text size command idx
HoldsString-Holds h = record {
  rest = 0 ∷ h.rest;
  content = h.content;
  index = h.index;
  bytes = h.bytes;
}

-- The text behind the words: each with a space.
abbrev pub words : List (List ℕ) → List ℕ
words [] = []
words (arg ∷ argv) = arg ++ (space ++ words argv)

append_word-HoldsString :
    (text s : List ℕ) (size : ℕ) (command : List ℕ) (idx : ℕ)
    → Holds text size command idx
    → idx + length s + 2 ≤ size
    → (r : List ℕ × ℕ) × (append_word command idx s ≡ some r)
      × HoldsString (text ++ (s ++ space)) size r.0 r.1
      × (r.1 ≡ idx + length s + 1)
unfolding append_word
append_word-HoldsString text s size command idx h fits =
    let first = strcpy-HoldsString text s size command idx h (omega arith) in
    let second =
      strcpy-HoldsString (text ++ s) space size first.0 (idx + length s) (HoldsString-Holds first.2)
        (omega arith) in
    (
      (second.0, idx + length s + 1),
      rw (first.1, append_word, second.1),
      rw (← append_assoc text s space) second.2,
      refl,
    )

append_arguments-HoldsString :
    (argv : List (List ℕ)) (text : List ℕ) (size : ℕ) (command : List ℕ) (idx : ℕ)
    → HoldsString text size command idx
    → idx + arguments_size argv + 1 ≤ size
    → (r : List ℕ × ℕ) × (append_arguments argv command idx ≡ some r)
      × HoldsString (text ++ words argv) size r.0 r.1
unfolding append_arguments arguments_size
append_arguments-HoldsString [] text size command idx h fits =
    ((command, idx), refl, rw (append-nil text) h)
append_arguments-HoldsString (arg ∷ argv) text size command idx h fits =
    let word =
      append_word-HoldsString text arg size command idx (HoldsString-Holds h) (omega arith) in
    let rest =
      append_arguments-HoldsString argv (text ++ (arg ++ space)) size word.0.0 word.0.1 word.2
        (omega (arith, word.3)) in
    (
      rest.0,
      rw (word.1, append_arguments) rest.1,
      rw (← append_assoc arg space (words argv), ← append_assoc text (arg ++ space) (words argv))
          rest.2,
    )

-- For every list of arguments and whatever the array of the computed size holds before, all copies fit,
-- and the buffer then holds the text of the library and each argument, in order, each followed by a
-- space, and behind it the end of the string.
pub build_command-HoldsString :
    (argv : List (List ℕ)) (junk : List ℕ)
    → length junk ≡ command_size argv
    → (r : List ℕ × ℕ) × (build_command argv junk ≡ some r)
      × HoldsString ((ld_preload_lib ++ space) ++ words argv) (command_size argv) r.0 r.1
unfolding build_command command_size
build_command-HoldsString argv junk bytes =
    let word =
      append_word-HoldsString [] ld_preload_lib (command_size argv) junk 0
        (record { rest = junk; content = refl; index = refl; bytes = bytes }) (omega arith) in
    let rest =
      append_arguments-HoldsString argv (ld_preload_lib ++ space) (command_size argv) word.0.0
        word.0.1 word.2 (omega (arith, word.3)) in
    (rest.0, rw (word.1, build_command) rest.1, rest.2)
