-- ===== src/Messages/Quiet.antt =====
-- What the treatment of messages leaves alone: all of the world but `errno` and the record of calls.
use sve.Base.{◌≡◌, refl, ℤ, is_negative, minus_one, ◌==◌}
use sve.State.{DsuSocket}
use sve.Kernel.{Kernel, World}
use sve.Kernel.Runs
use sve.Kernel.Runs.{
  Returns, returns, Responsive, Quiet, Quiet-trans, Called, prompt-Returns, if_program-Returns,
}
use sve.Communication.{write_fd}
use sve.Messages.{send_ready, send_both, tell_ready}

module _ (k : Kernel) (responsive : Responsive k) where
  pub write_fd-Quiet :
      (fd sendfd port : ℤ) (w : World) → Returns (λ _ w'. Quiet w w') (write_fd k fd sendfd port w)
  unfolding write_fd
  write_fd-Quiet fd sendfd port w = Runs.bind (prompt-Returns k responsive _ w refl) λ error v c.
      if_program-Returns (is_negative error.value) _ _ v (λ _. returns c.quiet)
        λ _.
          Runs.bind (prompt-Returns k responsive _ v refl)
            λ sent v' c'. returns (Quiet-trans c.quiet c'.quiet)

  pub send_both-Quiet :
      (s : DsuSocket) (fd port : ℤ) (w : World)
      → Returns (λ _ w'. Quiet w w') (send_both k s fd port w)
  unfolding send_both
  send_both-Quiet s fd port w =
      Runs.bind (write_fd-Quiet fd s.fd port w)
        λ _ v q. Runs.bind (write_fd-Quiet fd s.comfd port v) λ _ v' q'. returns (Quiet-trans q q')

  pub send_ready-Quiet :
      (s : DsuSocket) (w : World) → Returns (λ _ w'. Quiet w w') (send_ready k s w)
  unfolding send_ready
  send_ready-Quiet s w =
      Runs.bind (prompt-Returns k responsive _ w refl) λ sent v c. returns c.quiet

  pub tell_ready-Quiet :
      (s : DsuSocket) (w : World)
      → Returns
          (λ node w'. (node ≡ record s { comfd_close = minus_one }) × Quiet w w')
          (tell_ready k s w)
  unfolding tell_ready
  tell_ready-Quiet s w = Runs.bind (prompt-Returns k responsive _ w refl) λ sent v c.
      Runs.bind
        (if_program-Returns {P = λ _ w'. Quiet v w'} (sent.value == minus_one) _ _ v
          (λ _. returns (Runs.Quiet-refl v))
          (λ _. Runs.mono (prompt-Returns k responsive _ v refl) λ r v' c'. c'.quiet))
        λ closed v' q. returns (refl, Quiet-trans c.quiet q)
