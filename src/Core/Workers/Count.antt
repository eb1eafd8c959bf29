-- ===== src/Core/Workers/Count.antt =====
-- The count of active workers: `activate` and `deactivate` refine a counter, and the last worker that
-- leaves ends the group.
use sve.Base.{
  ℕ, ◌+◌, ◌-◌, ◌≡◌, refl, ◌∙◌, Bool, true, not, [], ◌∷◌, arith, ltb, ==_refl, is_negative,
}
use sve.Kernel.{Kernel, Reply, Call, World, bytes, confirm, dontwait, dontwait_peek}
use sve.Kernel.Runs
use sve.Kernel.Runs.{
  Returns, returns, Responsive, Called, Quiet, Quiet-trans, prompt-Returns, if_program-Returns,
}
use sve.Kernel.Queue.{pending, advance, pending-call, peek-call, take-call, IsQueue}
use sve.Core.Workers.{change_number_of_workers, activate_process, deactivate_process}

-- The active workers, as far as the library knows.
abbrev pub workers : Kernel → World → ℕ
workers k w = pending k w.activate w.deactivate w.log

-- Whether the next `send` on the queue succeeds.
abbrev pub has_room : Kernel → World → Bool
has_room k w = not (is_negative (k w.log (Call.send w.activate (bytes (b'a' ∷ [])) confirm)).value)

-- The count behind one call.
workers-call :
    {k : Kernel} {call : Call} {w : World} {r : Reply} {v : World}
    → Called k call w r v
    → workers k v ≡ advance w.activate w.deactivate call r.value (workers k w)
workers-call {w} c =
    rw (c.quiet.activate, c.quiet.deactivate) (pending-call w.activate w.deactivate c)

IsQueue-call :
    {k : Kernel} {call : Call} {w : World} {r : Reply} {v : World}
    → Called k call w r v
    → IsQueue k w.activate w.deactivate
    → IsQueue k v.activate v.deactivate
IsQueue-call c queue = rw (c.quiet.activate, c.quiet.deactivate) queue

module _ (k : Kernel) (responsive : Responsive k) where
  -- A worker that arrives while the queue has room is counted, and is told that one is active.
  pub activate-workers :
      (w : World)
      → IsQueue k w.activate w.deactivate
      → has_room k w ≡ true
      → Returns
          (λ active v. (active ≡ true) × (workers k v ≡ workers k w + 1) × Quiet w v)
          (activate_process k w)
  unfolding activate_process change_number_of_workers
  activate-workers w queue room = Runs.bind (prompt-Returns k responsive _ w refl) λ r v called.
      Runs.bind (prompt-Returns k responsive (Call.recv w.deactivate 1 dontwait_peek) v refl)
        λ r' v' called'.
          let counted : workers k v ≡ workers k w + 1 =
            rw (workers-call called, ==_refl w.activate, called.reply, room) (omega arith) in
          returns (
            peek-call (IsQueue-call called queue) (rw (← called.quiet.deactivate) at called')
                ∙ rw counted (ground arith),
            workers-call called' ∙ counted,
            Quiet-trans called.quiet called'.quiet,
          )

  -- A worker that leaves is no longer counted, and is told whether another one is active.
  pub deactivate-workers :
      (w : World)
      → IsQueue k w.activate w.deactivate
      → Returns
          (λ active v. (active ≡ ltb 1 (workers k w)) × (workers k v ≡ workers k w - 1) × Quiet w v)
          (deactivate_process k w)
  unfolding deactivate_process change_number_of_workers
  deactivate-workers w queue =
      Runs.bind (prompt-Returns k responsive (Call.recv w.deactivate 1 dontwait) w refl)
        λ r v called.
          Runs.bind (prompt-Returns k responsive (Call.recv w.deactivate 1 dontwait_peek) v refl)
            λ r' v' called'.
              let counted : workers k v ≡ workers k w - 1 =
                rw (workers-call called, ==_refl w.deactivate, take-call queue called)
                  (ground arith) in
              returns (
                peek-call (IsQueue-call called queue) (rw (← called.quiet.deactivate) at called')
                    ∙ rw counted (ground arith),
                workers-call called' ∙ counted,
                Quiet-trans called.quiet called'.quiet,
              )
