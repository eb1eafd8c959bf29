-- ===== src/Epoll/Unlisted.antt =====
-- What epoll_wait leaves in the epoll instance: src/event_handlers/epoll.c, dsu_post_epoll.
use sve.Base.{ℕ, ◌≡◌, ◌⊎◌, Bool, true, false, ◌||◌, ℤ, pos, ◌==◌, some_of, is_negative}
use sve.State.{DsuSocket, fd_list_has}
use sve.Kernel.{Kernel, World}
use sve.Kernel.Runs
use sve.Kernel.Stuck.{Stuck}
use sve.Kernel.Frame.{Frame}
use sve.Epoll.Reported.{Since, unreporting}
use sve.Epoll.Registered.{asked}

-- The rendezvous socket of the bind, or one of its connections of other versions.
abbrev pub withdrawn : ℤ → DsuSocket → Bool
withdrawn x s = s.comfd == x || fd_list_has s.comfds x

-- What is not left: the wake-up descriptor, and every bind's rendezvous socket and connections.
pub record Unlisted (epfd : ℤ) (v : World) : Type 0 where
  pub asleep : asked epfd v.wakeup v.log ≡ false
  pub internal : (x : ℤ) → some_of (withdrawn x) v.binds ≡ true → asked epfd x v.log ≡ false

module _ (k : Kernel) where
  -- Why it stays away: the system does not answer or, with a negative timeout, the rounds run out, each
  -- with one call of the system's epoll_wait.
  abbrev Away : ℤ → ℕ → World → World → Type 0
  Away timeout rounds w v = ((is_negative timeout ≡ true) × Since rounds w v) ⊎ Stuck k v

  -- The calls are counted for any descriptor.
  abbrev counting : Frame k
  counting = unreporting k (pos 0)
