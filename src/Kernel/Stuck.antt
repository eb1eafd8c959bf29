-- ===== src/Kernel/Stuck.antt =====
-- Why a run does not come back: the last call waits for ever, or ended the process.
use sve.Base.{arith, Bool, ◌≡◌, refl, true, false, ◌∷◌, is_negative, if◌then◌else◌}
use sve.Kernel.{Kernel, Call, Log, World, Run, sys}
use sve.Kernel.Runs.{Returns, returns, Ends, came_back, did_not, Called}
use sve.Kernel.Runs

-- The system does not answer the last call, or the process exits since there was no socket pair.
pub data Stuck (k : Kernel) (v : World) : Type 0 where
  waits :
      (call : Call) (before : Log)
      → v.log ≡ call ∷ before
      → (k before call).returns ≡ false
      → Stuck k v
  exits :
      (before : Log)
      → v.log ≡ Call.exit_failure ∷ Call.socketpair ∷ before
      → is_negative (k before Call.socketpair).value ≡ true
      → Stuck k v

if-Ends :
    {A : Type 0} {Q : A → World → Type 0} {P : World → Type 0} (b : Bool) {r s : Run A}
    → (b ≡ true → Ends Q P r)
    → (b ≡ false → Ends Q P s)
    → Ends Q P (if b then r else s)
if-Ends true yes_case no_case = yes_case refl
if-Ends false yes_case no_case = no_case refl

pub sys-Stuck :
    (k : Kernel) (call : Call) (w : World) → Ends (Called k call w) (Stuck k) (sys k call w)
unfolding sys
sys-Stuck k call w =
    if-Ends (k w.log call).returns
      (λ comes.
        came_back (record { quiet = ground arith; reply = refl; logged = refl; errno = refl }))
      λ stays. did_not (waits call w.log refl stays)

-- Whether the system answered the call is known from how the run ends.
pub sys-answered :
    (k : Kernel) (call : Call) (v : World)
    → Ends
        (λ r u. Called k call v r u × ((k v.log call).returns ≡ true))
        (λ u. (u.log ≡ call ∷ v.log) × ((k v.log call).returns ≡ false))
        (sys k call v)
unfolding sys
sys-answered k call v =
    if-Ends (k v.log call).returns
      (λ answers.
        came_back
          (record { quiet = ground arith; reply = refl; logged = refl; errno = refl }, answers))
      (λ silent. did_not (refl, silent))

pub mono-Stuck :
    {k : Kernel} {A : Type 0} {Q R : A → World → Type 0} {r : Run A}
    → Ends Q (Stuck k) r
    → ((a : A) (w : World) → Q a w → R a w)
    → Ends R (Stuck k) r
mono-Stuck ends weaken = Runs.mono-Ends ends weaken λ w p. p
