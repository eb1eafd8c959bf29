-- ===== src/Select/Forked.antt =====
-- A process that is forked behind the first select of its parent: src/event_handlers/select.c and
-- dsu_terminate of src/core.c. `fork` copies the globals, `dsu_live` among them, and the queue is shared,
-- so the child begins in the world that its parent has left.
use sve.Base.{◌+◌, ◌≡◌, true}
use sve.Kernel.{Kernel, World}
use sve.Kernel.Runs
use sve.Kernel.Runs.{Responsive}
use sve.Core.Workers.Count.{workers}
use sve.Core.Workers.Termination.{kills}

module _ (k : Kernel) (responsive : Responsive k) where
  -- What the first select of a process leaves.
  record Live (w v : World) : Type 0 where
    live : v.live ≡ true
    counted : workers k v ≡ workers k w + 1
    activate : v.activate ≡ w.activate
    deactivate : v.deactivate ≡ w.deactivate
    spared : kills v.log ≡ kills w.log
