-- ===== src/Core/Workers/Kept.antt =====
-- What the end of a version, in src/core.c, leaves alone: all globals of the library.
use sve.Base.{refl, ℤ, pos, minus_one, is_positive}
use sve.Kernel.{Kernel}
use sve.Kernel.Frame.{Frame, Gives, Any, gives, chain, calls, branch}
use sve.Core.Workers.{
  termination_detection, send_ping, change_number_of_workers, deactivate_process, activate_process,
  kill_group, terminate, terminate_if_done,
}

module _ {k : Kernel} (F : Frame k) where
  workers-Kept : (delta : ℤ) → Gives F Any (change_number_of_workers k delta)
  unfolding change_number_of_workers
  workers-Kept delta = λ w.
      chain F {P = Any} (branch F (is_positive delta) (calls F _ refl) (calls F _ refl))
        (λ done _. chain F (calls F _ refl) λ r _. gives F tt) w

  pub activate-Kept : Gives F Any (activate_process k)
  unfolding activate_process
  activate-Kept = workers-Kept (pos 1)

  terminate-Kept : Gives F Any (terminate k)
  unfolding terminate deactivate_process kill_group send_ping
  terminate-Kept = chain F (workers-Kept minus_one) λ workers _.
      chain F {P = Any} (branch F workers (gives F tt) (chain F (calls F _ refl) λ r _. gives F tt))
        λ _ _.
          chain F {P = Any} (λ w. chain F (calls F _ refl) (λ sent _. gives F tt) w)
            λ _ _. chain F (calls F _ refl) λ signalled _. gives F tt

  pub terminate_if_done-Kept : Gives F Any (terminate_if_done k)
  unfolding terminate_if_done termination_detection
  terminate_if_done-Kept =
      chain F {P = Any} (λ w. chain F (calls F _ refl) (λ r _. gives F tt) w)
        λ done _. branch F done terminate-Kept (gives F tt)
