-- ===== src/Kernel/Runs.antt =====
-- Runs of programs: total and partial correctness with a rule for each step, the calls that do not
-- wait, and what a step leaves alone.
use sve.Base.{◌≡◌, refl, Bool, true, false, ◌∷◌, arith, if◌then◌else◌, minus_one, ◌==◌}
use sve.Kernel.{
  Call, Errno, Log, Kernel, Reply, World, Run, ok, ended, End, Prog, and_then, sys, confirm,
  dontwait, dontwait_peek,
}

-- The run comes back, and what it returns and leaves satisfies `P`.
pub data Returns {A : Type 0} (P : A → World → Type 0) : Run A → Type 0 where
  returns : {a : A} {w : World} → P a w → Returns P (ok a w)

-- If the run comes back, what it returns and leaves satisfies `P`.
pub data Safely {A : Type 0} (P : A → World → Type 0) : Run A → Type 0 where
  returned : {a : A} {w : World} → P a w → Safely P (ok a w)
  stopped : {e : End} {w : World} → Safely P (ended e w)

module _ {A : Type 0} {P : A → World → Type 0} where
  pub bind :
      {B : Type 0} {Q : B → World → Type 0} {r : Run A} {f : A → Prog B}
      → Returns P r
      → ((a : A) (w : World) → P a w → Returns Q (f a w))
      → Returns Q (and_then r f)
  bind (returns p) next = next _ _ p

  pub mono :
      {Q : A → World → Type 0} {r : Run A}
      → Returns P r
      → ((a : A) (w : World) → P a w → Q a w)
      → Returns Q r
  mono (returns p) weaken = returns (weaken _ _ p)

  pub bind-Safely :
      {B : Type 0} {Q : B → World → Type 0} {r : Run A} {f : A → Prog B}
      → Safely P r
      → ((a : A) (w : World) → P a w → Safely Q (f a w))
      → Safely Q (and_then r f)
  bind-Safely (returned p) next = next _ _ p
  bind-Safely stopped next = stopped

  pub mono-Safely :
      {Q : A → World → Type 0} {r : Run A}
      → Safely P r
      → ((a : A) (w : World) → P a w → Q a w)
      → Safely Q r
  mono-Safely (returned p) weaken = returned (weaken _ _ p)
  mono-Safely stopped weaken = stopped

  pub safely : {r : Run A} → Returns P r → Safely P r
  safely (returns p) = returned p

  -- A branch on a test, with the test's value in each.
  pub if-Returns :
      (b : Bool) {r s : Run A}
      → (b ≡ true → Returns P r)
      → (b ≡ false → Returns P s)
      → Returns P (if b then r else s)
  if-Returns true yes_case no_case = yes_case refl
  if-Returns false yes_case no_case = no_case refl

  pub if_Safely : (b : Bool) {r s : Run A} → Safely P r → Safely P s → Safely P (if b then r else s)
  if_Safely true p q = p
  if_Safely false p q = q

  -- The same for a branch between programs.
  pub if_program-Returns :
      (b : Bool) (m n : Prog A) (w : World)
      → (b ≡ true → Returns P (m w))
      → (b ≡ false → Returns P (n w))
      → Returns P ((if b then m else n) w)
  if_program-Returns true m n w yes_case no_case = yes_case refl
  if_program-Returns false m n w yes_case no_case = no_case refl

  pub if_program-Safely :
      (b : Bool) (m n : Prog A) (w : World)
      → (b ≡ true → Safely P (m w))
      → (b ≡ false → Safely P (n w))
      → Safely P ((if b then m else n) w)
  if_program-Safely true m n w yes_case no_case = yes_case refl
  if_program-Safely false m n w yes_case no_case = no_case refl

-- What is left whether the run comes back (`Q`) or not (`P`).
pub data Ends {A : Type 0} (Q : A → World → Type 0) (P : World → Type 0) : Run A → Type 0 where
  came_back : {a : A} {w : World} → Q a w → Ends Q P (ok a w)
  did_not : {e : End} {w : World} → P w → Ends Q P (ended e w)

module _ {A : Type 0} {Q : A → World → Type 0} {P : World → Type 0} where
  pub bind-Ends :
      {B : Type 0} {R : B → World → Type 0} {r : Run A} {f : A → Prog B}
      → Ends Q P r
      → ((a : A) (w : World) → Q a w → Ends R P (f a w))
      → Ends R P (and_then r f)
  bind-Ends (came_back q) next = next _ _ q
  bind-Ends (did_not p) next = did_not p

  pub bind_returns-Ends :
      {B : Type 0} {R : B → World → Type 0} {r : Run A} {f : A → Prog B}
      → Returns Q r
      → ((a : A) (w : World) → Q a w → Ends R P (f a w))
      → Ends R P (and_then r f)
  bind_returns-Ends (returns q) next = next _ _ q

  pub mono-Ends :
      {R : A → World → Type 0} {P' : World → Type 0} {r : Run A}
      → Ends Q P r
      → ((a : A) (w : World) → Q a w → R a w)
      → ((w : World) → P w → P' w)
      → Ends R P' r
  mono-Ends (came_back q) weaken weaken' = came_back (weaken _ _ q)
  mono-Ends (did_not p) weaken weaken' = did_not (weaken' _ p)

  pub if_Ends : (b : Bool) {r s : Run A} → Ends Q P r → Ends Q P s → Ends Q P (if b then r else s)
  if_Ends true p q = p
  if_Ends false p q = q

  pub if_program-Ends :
      (b : Bool) (m n : Prog A) (w : World)
      → (b ≡ true → Ends Q P (m w))
      → (b ≡ false → Ends Q P (n w))
      → Ends Q P ((if b then m else n) w)
  if_program-Ends true m n w yes_case no_case = yes_case refl
  if_program-Ends false m n w yes_case no_case = no_case refl

-- Two facts of one run.
pub both :
    {A : Type 0} {P Q : A → World → Type 0} {r : Run A}
    → Returns P r
    → Returns Q r
    → Returns (λ a w. P a w × Q a w) r
both (returns p) (returns q) = returns (p, q)

-- The calls that the event handlers make and that never wait.
abbrev pub is_prompt : Call → Bool
is_prompt (Call.accept4_nonblock fd) = true
is_prompt (Call.close fd) = true
is_prompt (Call.send fd message confirm) = true
is_prompt (Call.recv fd len dontwait) = true
is_prompt (Call.recv fd len dontwait_peek) = true
is_prompt (Call.sendmsg fd message) = true
is_prompt (Call.getsockopt fd option) = true
is_prompt (Call.epoll_add epollfd fd mask data_fd) = true
is_prompt (Call.epoll_del epollfd fd) = true
is_prompt call = false

-- The system answers the calls that do not wait.
abbrev pub Responsive : Kernel → Type 0
Responsive k = (log : Log) (call : Call) → is_prompt call ≡ true → (k log call).returns ≡ true

-- All is as it was but `errno` and the record of the calls.
pub record Quiet (w w' : World) : Type 0 where
  pub sockets : w'.sockets ≡ w.sockets
  pub binds : w'.binds ≡ w.binds
  pub close : w'.close ≡ w.close
  pub accept : w'.accept ≡ w.accept
  pub ping : w'.ping ≡ w.ping
  pub wakeup : w'.wakeup ≡ w.wakeup
  pub activate : w'.activate ≡ w.activate
  pub deactivate : w'.deactivate ≡ w.deactivate
  pub correction : w'.correction ≡ w.correction
  pub max_fds : w'.max_fds ≡ w.max_fds
  pub live : w'.live ≡ w.live
  pub live_epoll : w'.live_epoll ≡ w.live_epoll

pub Quiet-refl : (w : World) → Quiet w w
Quiet-refl w = ground arith

pub Quiet-trans : {u v w : World} → Quiet u v → Quiet v w → Quiet u w
Quiet-trans p q = ground arith

-- `errno` behind a call: set by one that returns -1.
abbrev pub errno_behind : Reply → Errno → Errno
errno_behind r errno = if r.value == minus_one then r.errno else errno

-- What one call does to the world.
pub record Called (k : Kernel) (call : Call) (w : World) (r : Reply) (w' : World) : Type 0 where
  pub quiet : Quiet w w'
  pub reply : r ≡ k w.log call
  pub logged : w'.log ≡ call ∷ w.log
  pub errno : w'.errno ≡ errno_behind r w.errno

pub sys-Safely : (k : Kernel) (call : Call) (w : World) → Safely (Called k call w) (sys k call w)
unfolding sys
sys-Safely k call w =
    if_Safely (k w.log call).returns
      (returned (record { quiet = ground arith; reply = refl; logged = refl; errno = refl }))
      stopped

pub sys-Returns :
    (k : Kernel) (call : Call) (w : World)
    → (k w.log call).returns ≡ true
    → Returns (Called k call w) (sys k call w)
unfolding sys
sys-Returns k call w e =
    if-Returns (k w.log call).returns
      (λ _. returns (record { quiet = ground arith; reply = refl; logged = refl; errno = refl }))
      (λ waits. cc)

pub prompt-Returns :
    (k : Kernel)
    → Responsive k
    → (call : Call) (w : World) → is_prompt call ≡ true
    → Returns (Called k call w) (sys k call w)
prompt-Returns k responsive call w e = sys-Returns k call w (responsive w.log call e)

pub sys-Ends :
    (k : Kernel) (call : Call) (w : World)
    → Ends (Called k call w) (λ v. v.log ≡ call ∷ w.log) (sys k call w)
unfolding sys
sys-Ends k call w =
    if_Ends (k w.log call).returns
      (came_back (record { quiet = ground arith; reply = refl; logged = refl; errno = refl }))
      (did_not refl)

-- A fact of a run that comes back, and one of it in case that it does.
pub returns_with :
    {A : Type 0} {P Q : A → World → Type 0} {S : World → Type 0} {r : Run A}
    → Returns P r
    → Ends Q S r
    → Returns (λ a w. P a w × Q a w) r
returns_with (returns p) (came_back q) = returns (p, q)

pub along_with :
    {A : Type 0} {P Q : A → World → Type 0} {S T : World → Type 0} {r : Run A}
    → Ends P S r
    → Ends Q T r
    → Ends (λ a w. P a w × Q a w) S r
along_with (came_back p) (came_back q) = came_back (p, q)
along_with (did_not s) _ = did_not s
