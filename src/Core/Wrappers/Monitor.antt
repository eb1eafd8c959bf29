-- ===== src/Core/Wrappers/Monitor.antt =====
-- dsu_monitor_init of src/core.c: the calls that it makes, and whether it finds the address in use.
use sve.Base.{
  arith, ◌≡◌, refl, ap, Bool, true, false, not, ◌&&◌, ◌∷◌, if◌then◌else◌, ℤ, pos, minus_one, ◌==◌,
  is_negative,
}
use sve.State.{DsuSocket}
use sve.Kernel.{Kernel, Call, World, Log, Errno, Reply, sun}
use sve.Kernel.Runs
use sve.Kernel.Runs.{Ends, came_back, Quiet, Quiet-trans, Called, errno_behind, if_program-Ends}
use sve.Kernel.Stuck.{Stuck, sys-Stuck}
use sve.Core.Handover.{or_nonblock, max_num_of_proc, set_nonblock, monitor_init}
use sve.Core.Wrappers.{is_eaddrinuse}

-- The own rendezvous socket is bound, and then listens.
abbrev pub binds_own : DsuSocket → Call
binds_own s = Call.bind s.comfd (sun s.comfd_addr)

abbrev pub listens_own : DsuSocket → Call
listens_own s = Call.listen s.comfd max_num_of_proc

-- The calls behind it.
abbrev pub monitor_log : Kernel → DsuSocket → Log → Log
monitor_log k s log =
    let log1 = binds_own s ∷ log in
    let log2 = listens_own s ∷ log1 in
    let log3 = Call.getfl s.comfd ∷ log2 in
    if (k log (binds_own s)).value == pos 0
    then (if (k log1 (listens_own s)).value == pos 0
        then Call.setfl s.comfd (or_nonblock (k log2 (Call.getfl s.comfd)).value) ∷ log3
        else log2)
    else log1

-- Whether it fails with EADDRINUSE in `errno`, which was `errno` before.
abbrev pub in_use : Kernel → DsuSocket → Errno → Log → Bool
in_use k s errno log =
    let bound = k log (binds_own s) in
    let listening = k (binds_own s ∷ log) (listens_own s) in
    if bound.value == pos 0
    then not (listening.value == pos 0) && is_eaddrinuse (errno_behind listening errno)
    else is_eaddrinuse (errno_behind bound errno)

-- What it leaves.
pub record Monitored (k : Kernel) (s : DsuSocket) (w : World) (monitor : ℤ) (v : World)
    : Type 0 where
  pub quiet : Quiet w v
  pub logged : v.log ≡ monitor_log k s w.log
  pub decided : (monitor == minus_one && is_eaddrinuse v.errno) ≡ in_use k s w.errno w.log

module _ (k : Kernel) where
  set_nonblock-logged :
      (fd : ℤ) (w : World)
      → Ends
          (λ _ v.
            Quiet w v
            × (v.log
                ≡ Call.setfl fd (or_nonblock (k w.log (Call.getfl fd)).value)
                  ∷ Call.getfl fd
                  ∷ w.log))
          (Stuck k)
          (set_nonblock k fd w)
  unfolding set_nonblock
  set_nonblock-logged fd w = Runs.bind-Ends (sys-Stuck k _ w) λ flags v c.
      Runs.bind-Ends (sys-Stuck k _ v)
        λ r v' c'. came_back (Quiet-trans c.quiet c'.quiet, rw (c'.logged, c.logged, c.reply) refl)

  fine : (n : ℤ) → (n == pos 0) ≡ true → is_negative n ≡ false
  unfolding ◌==◌
  fine n e = ground arith

  -- A call that has succeeded leaves `errno`.
  pub lasting :
      {call : Call} {w : World} {r : Reply} {v : World}
      → Called k call w r v
      → is_negative r.value ≡ false
      → v.errno ≡ w.errno
  unfolding ◌==◌
  lasting {r} c e = rw c.errno (ground arith)

  pub monitor_init-Monitored :
      (s : DsuSocket) (w : World) → Ends (Monitored k s w) (Stuck k) (monitor_init k s w)
  unfolding monitor_init ◌==◌
  monitor_init-Monitored s w = Runs.bind-Ends (sys-Stuck k _ w) λ bound v c.
      if_program-Ends (bound.value == pos 0) _ _ v
        (λ ours.
          let ours' : ((k w.log (binds_own s)).value == pos 0) ≡ true = rw (← c.reply) ours in
          Runs.bind-Ends (sys-Stuck k _ v) λ listening v' c'.
            let replied : listening ≡ k (binds_own s ∷ w.log) (listens_own s) =
              rw (c'.reply, c.logged) refl in
            if_program-Ends (listening.value == pos 0) _ _ v'
              (λ listens.
                let listens' : ((k (binds_own s ∷ w.log) (listens_own s)).value == pos 0) ≡ true =
                  rw (← replied) listens in
                Runs.bind-Ends (set_nonblock-logged s.comfd v') λ _ v'' (q, l). came_back (record {
                  quiet = Quiet-trans c.quiet (Quiet-trans c'.quiet q);
                  logged = rw (l, c'.logged, c.logged, ours', listens') refl;
                  decided = rw (ours', listens') refl;
                }))
              λ deaf.
                let deaf' : ((k (binds_own s ∷ w.log) (listens_own s)).value == pos 0) ≡ false =
                  rw (← replied) deaf in
                came_back (record {
                  quiet = Quiet-trans c.quiet c'.quiet;
                  logged = rw (c'.logged, c.logged, ours', deaf') refl;
                  decided =
                      rw (ours', deaf', c'.errno, ← replied)
                        (ap (λ (e : Errno). is_eaddrinuse (errno_behind listening e))
                          (lasting c (fine _ ours)));
                }))
        λ taken_address.
          let taken' : ((k w.log (binds_own s)).value == pos 0) ≡ false =
            rw (← c.reply) taken_address in
          came_back (record {
            quiet = c.quiet;
            logged = rw (c.logged, taken') refl;
            decided = rw (c.errno, ← c.reply, taken_address) refl;
          })
