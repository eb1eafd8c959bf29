-- ===== src/Kernel/Frame.antt =====
-- What programs leave alone: a relation between the worlds before and behind, that calls of the system
-- satisfy and that passes through the composition of programs.
use sve.Base.{◌≡◌, refl, ◌∙◌, Bool, true, false, arith, if◌then◌else◌}
use sve.Kernel.{Log, Reply, Call, Kernel, World, Prog, pure, put, ◌>>=◌, sys}
use sve.Kernel.Runs
use sve.Kernel.Stuck.{Stuck, sys-Stuck}
use sve.Kernel.Runs.{
  Ends, came_back, Called, Safely, returned, stopped, Quiet, sys-Safely, if_program-Safely,
}

-- The system calls in place of which the library puts its own.
abbrev pub is_wait : Call → Bool
is_wait (Call.select nfds sets timeout) = true
is_wait (Call.epoll_wait epfd maxevents timeout) = true
is_wait call = false

-- `Stays` is what holds where a program does not come back.
pub record Frame (k : Kernel) : Type 1 where
  pub Rel : World → World → Type 0
  pub same : (w : World) → Rel w w
  pub then_after : {u v w : World} → Rel u v → Rel v w → Rel u w
  pub called :
      {call : Call} {r : Reply} {w v : World} → is_wait call ≡ false → Called k call w r v → Rel w v
  pub Stays : World → Type 0
  pub stays : {v : World} → Stuck k v → Stays v

abbrev pub Any : {A : Type 0} → A → Type 0
Any _ = Unit

module _ {k : Kernel} (F : Frame k) where
  -- If the program comes back, its result satisfies `P`, and the worlds are related.
  abbrev pub Gives : {A : Type 0} → (A → Type 0) → Prog A → Type 0
  Gives P m = (w : World) → Ends (λ a v. P a × F.Rel w v) F.Stays (m w)

  pub gives : {A : Type 0} {P : A → Type 0} {a : A} → P a → Gives P (pure a)
  gives p w = came_back (p, F.same w)

  pub chain :
      {A B : Type 0} {P : A → Type 0} {Q : B → Type 0} {m : Prog A} {f : A → Prog B}
      → Gives P m
      → ((a : A) → P a → Gives Q (f a))
      → Gives Q (m >>= f)
  chain p next w =
      Runs.bind-Ends (p w)
        λ a v (x, r). Runs.mono-Ends (next a x v) (λ b u (y, r'). (y, F.then_after r r')) λ u q. q

  pub calls : (call : Call) → is_wait call ≡ false → Gives Any (sys k call)
  calls call e w =
      Runs.mono-Ends (sys-Stuck k call w) (λ r v c. (tt, F.called e c)) λ v q. F.stays q

  -- The same, with the reply.
  pub replies :
      (call : Call)
      → is_wait call ≡ false
      → Gives (λ r. (log : Log) × (r ≡ k log call)) (sys k call)
  replies call e w =
      Runs.mono-Ends (sys-Stuck k call w) (λ r v c. ((w.log, c.reply), F.called e c))
        λ v q. F.stays q

  -- A write to the globals.
  pub writes : (f : World → World) → ((w : World) → F.Rel w (f w)) → Gives Any (λ w. put (f w) w)
  writes f p w = came_back (tt, p w)

  pub branch :
      {A : Type 0} {P : A → Type 0} (b : Bool) {m n : Prog A}
      → Gives P m
      → Gives P n
      → Gives P (if b then m else n)
  branch true p q = p
  branch false p q = q

  pub weaken :
      {A : Type 0} {P Q : A → Type 0} {m : Prog A} → Gives P m → ((a : A) → P a → Q a) → Gives Q m
  weaken p f w = Runs.mono-Ends (p w) (λ a v (x, r). (f a x, r)) λ v q. q

  -- The same relation, where nothing is known of a program that does not come back.
  abbrev pub loose : Frame k
  loose = record {
    Rel = F.Rel;
    same = F.same;
    then_after = F.then_after;
    called = F.called;
    Stays = λ _. Unit;
    stays = λ _. tt;
  }

pub loosen :
    {k : Kernel} (F : Frame k) {A : Type 0} {P : A → Type 0} {m : Prog A}
    → Gives F P m
    → Gives (loose F) P m
loosen F p w = Runs.mono-Ends (p w) (λ a v q. q) λ v q. tt

-- A smaller relation will do.
pub embed :
    {k : Kernel} (F G : Frame k) {A : Type 0} {P : A → Type 0} {m : Prog A}
    → ((w v : World) → F.Rel w v → G.Rel w v)
    → ((v : World) → F.Stays v → G.Stays v)
    → Gives F P m
    → Gives G P m
embed F G f g p w = Runs.mono-Ends (p w) (λ a v (x, r). (x, f w v r)) g

-- The lists, and the descriptors of the three pairs.
pub record SameLists (w v : World) : Type 0 where
  pub sockets : v.sockets ≡ w.sockets
  pub binds : v.binds ≡ w.binds

pub record SameQueues (w v : World) : Type 0 where
  pub close : v.close ≡ w.close
  pub accept : v.accept ≡ w.accept
  pub ping : v.ping ≡ w.ping
  pub wakeup : v.wakeup ≡ w.wakeup
  pub activate : v.activate ≡ w.activate
  pub deactivate : v.deactivate ≡ w.deactivate

pub SameQueues-trans : {u v w : World} → SameQueues u v → SameQueues v w → SameQueues u w
SameQueues-trans p q = ground arith

abbrev pub SameState : World → World → Type 0
SameState w v = SameLists w v × SameQueues w v

pub SameState-refl : (w : World) → SameState w w
SameState-refl w = ground arith

pub SameState-trans : {u v w : World} → SameState u v → SameState v w → SameState u w
SameState-trans p q = ground arith

pub Quiet-SameState : {w v : World} → Quiet w v → SameState w v
Quiet-SameState q = ground arith

-- All but the correction, the largest descriptor, the marks of a live worker, errno and the calls.
abbrev pub lists_and_queues : (k : Kernel) → Frame k
lists_and_queues k = record {
  Rel = SameState;
  same = SameState-refl;
  then_after = SameState-trans;
  called = λ e c. Quiet-SameState c.quiet;
  Stays = Stuck k;
  stays = λ stuck. stuck;
}

-- The correction too.
abbrev pub with_correction : (k : Kernel) → Frame k
with_correction k = record {
  Rel = λ w v. SameState w v × (v.correction ≡ w.correction);
  same = λ w. (SameState-refl w, refl);
  then_after = λ (p, e) (q, e'). (SameState-trans p q, e' ∙ e);
  called = λ e c. (Quiet-SameState c.quiet, c.quiet.correction);
  Stays = Stuck k;
  stays = λ stuck. stuck;
}
