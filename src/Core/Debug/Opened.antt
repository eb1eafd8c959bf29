-- ===== src/Core/Debug/Opened.antt =====
-- The log file of a build with DEBUG or TEST: the head of dsu_init in src/core.c.
use sve.Base.{
  ℕ, zero, suc, ◌+◌, ◌/◌, ◌≡◌, ◌⊎◌, inl, inr, refl, Bool, true, false, some, List, [], ◌∷◌, ◌++◌,
  arith, ltb, drop, if◌then◌else◌, length, le→ltb, ℤ, pos, negsuc, ◌==◌, ==_iff,
}
use sve.Kernel.{Kernel, Call, World, Reply, pure, sys, ◌>>◌}
use sve.Kernel.Runs
use sve.Kernel.Runs.{Ends, came_back, did_not, Called, if_program-Ends}
use sve.Kernel.Stuck.{sys-answered}
use sve.Core.Handover.{decimal}
use sve.Core.Wrappers.{exit_failure}
use sve.Exec.{strcpy, c_string}
use sve.Exec.Command.{IsString, append-IsString, c_string-append}
use sve.Core.Debug.{int_text, log_path, print, open_file, open_log}

if_IsString : (b : Bool) (text : List ℕ) → IsString text → IsString (if b then [] else text)
if_IsString true text h = tt
if_IsString false text h = h

decimal-IsString : (fuel n : ℕ) → IsString (decimal fuel n)
unfolding decimal
decimal-IsString zero n = tt
decimal-IsString (suc fuel) n =
    append-IsString (if ltb n 10 then [] else decimal fuel (n / 10)) _
      (if_IsString (ltb n 10) _ (decimal-IsString fuel (n / 10))) (ground arith, tt)

int_text-IsString : (n : ℤ) → IsString (int_text n)
unfolding int_text
int_text-IsString (pos n) = decimal-IsString 10 n
int_text-IsString (negsuc m) = (refl, decimal-IsString 10 (m + 1))

log_path-IsString : (dir : List ℕ) (pid : ℤ) → IsString dir → IsString (log_path dir pid)
unfolding log_path
log_path-IsString dir pid h =
    append-IsString _ _
      (append-IsString _ _ (append-IsString dir _ h (ground arith)) (int_text-IsString pid))
      (ground arith)

-- A copy to the front of an array that it fills.
strcpy-front :
    (array s : List ℕ)
    → length array ≡ length s + 1
    → strcpy array 0 s ≡ some (s ++ 0 ∷ drop (length s + 1) array)
unfolding strcpy
strcpy-front array s fits =
    let same : 0 + length s + 1 ≡ length s + 1 = omega arith in
    rw (same, le→ltb (length s + 1) (length array) (omega arith)) refl

-- Why the file is not there: the system does not answer, or could not open it.
abbrev pub NoFile : Kernel → Bool → List ℕ → World → World → Type 0
NoFile k test path w v =
    ((k w.log (Call.fopen path)).returns ≡ false)
    ⊎ (((k w.log (Call.fopen path)).value ≡ pos 0)
        × (test ≡ true → v.log ≡ Call.fopen path ∷ w.log))

module _ (k : Kernel) (path : List ℕ) (complaint : List ℕ) (w : World) where
  abbrev Opened : ℤ → World → Type 0
  Opened logfd v = ((logfd == pos 0) ≡ false) × (v.log ≡ Call.fopen path ∷ w.log)

  -- No file.
  no_file :
      (test : Bool) (r : Reply) (v : World)
      → Called k (Call.fopen path) w r v
      → r.value ≡ pos 0
      → Ends Opened
          (λ u. NoFile k test path w u)
          (((if test then print k r.value complaint else pure tt)
              >> (sys k Call.perror >> exit_failure k))
            v)
  unfolding print exit_failure ◌==◌
  no_file true r v c failed = rw failed (did_not (inr (rw (← c.reply) failed, λ test. c.logged)))
  no_file false r v c failed =
      Runs.bind-Ends
        (Runs.mono-Ends (sys-answered k Call.perror v) (λ r u q. q) λ u q. inr (gone u))
        λ r' u q. did_not (inr (gone (record u { log = Call.exit_failure ∷ u.log })))
    where
      gone :
          (u : World)
          → ((k w.log (Call.fopen path)).value ≡ pos 0)
            × (false ≡ true → u.log ≡ Call.fopen path ∷ w.log)
      gone u = (rw (← c.reply) failed, λ test. cc)

  open_file-Opened :
      (test : Bool) (logfile : List ℕ)
      → c_string logfile ≡ path
      → Ends Opened (λ v. NoFile k test path w v) (open_file k test complaint (some logfile) w)
  unfolding open_file
  open_file-Opened test logfile e = rw e (
      Runs.bind-Ends
        (Runs.mono-Ends (sys-answered k (Call.fopen path) w) (λ r v q. q)
          λ v (logged, silent). inl silent)
        λ r v (c, _).
          if_program-Ends (r.value == pos 0) _ _ v
            (λ failed. no_file test r v c ((==_iff r.value (pos 0)).0 failed))
            λ fine. came_back (fine, c.logged))

-- The path fits the array of the computed size, and the file of that name is opened. Where the system
-- does not open it, the process ends; with TEST it makes no further call, neither the message nor the
-- exit, since the print macro writes to the stream that is NULL.
pub open_log-Opened :
    (k : Kernel) (test : Bool) (dir : List ℕ) (pid : ℤ) (junk complaint : List ℕ) (w : World)
    → IsString dir
    → length junk ≡ length (log_path dir pid) + 1
    → Ends
        (λ logfd v. ((logfd == pos 0) ≡ false) × (v.log ≡ Call.fopen (log_path dir pid) ∷ w.log))
        (λ v. NoFile k test (log_path dir pid) w v)
        (open_log k test dir pid junk complaint w)
unfolding open_log
open_log-Opened k test dir pid junk complaint w string fits =
    rw (strcpy-front junk (log_path dir pid) fits) (
      open_file-Opened k (log_path dir pid) complaint w test
        (log_path dir pid ++ 0 ∷ drop (length (log_path dir pid) + 1) junk)
        (c_string-append (log_path dir pid) _ (log_path-IsString dir pid string)))
