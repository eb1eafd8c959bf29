-- ===== src/Messages/Kept.antt =====
-- The treatment of messages within a frame.
use sve.Base.{ℤ, is_negative, minus_one, ◌==◌, ◌≡◌, refl}
use sve.State.{DsuSocket}
use sve.Kernel.{Kernel}
use sve.Kernel.Frame.{Frame, Gives, Any, gives, chain, calls, branch}
use sve.Communication.{write_fd}
use sve.Messages.{send_ready, send_both, tell_ready}

module _ {k : Kernel} (F : Frame k) where
  write_fd-Kept : (fd sendfd port : ℤ) → Gives F Any (write_fd k fd sendfd port)
  unfolding write_fd
  write_fd-Kept fd sendfd port = chain F (calls F _ refl) λ error _.
      branch F (is_negative error.value) (gives F tt)
        (chain F (calls F _ refl) λ sent _. gives F tt)

  pub send_both-Kept : (s : DsuSocket) (fd port : ℤ) → Gives F Any (send_both k s fd port)
  unfolding send_both
  send_both-Kept s fd port =
      chain F (write_fd-Kept fd s.fd port)
        λ _ _. chain F (write_fd-Kept fd s.comfd port) λ _ _. gives F tt

  pub send_ready-Kept : (s : DsuSocket) → Gives F Any (send_ready k s)
  unfolding send_ready
  send_ready-Kept s = chain F (calls F _ refl) λ sent _. gives F tt

  pub tell_ready-Kept :
      (s : DsuSocket)
      → Gives F (λ node. node ≡ record s { comfd_close = minus_one }) (tell_ready k s)
  unfolding tell_ready
  tell_ready-Kept s = chain F (calls F _ refl) λ sent _.
      chain F (branch F {P = Any} (sent.value == minus_one) (gives F tt) (calls F _ refl))
        λ closed _. gives F refl
