-- ===== src/Select/Kept.antt =====
-- What a call of `select` leaves alone: src/event_handlers/select.c.
use sve.Base.{
  Bool, true, false, arith, if◌then◌else◌, refl, ℕ, zero, suc, Option, none, some, List, [], ◌∷◌, ℤ,
  pos, minus_one, ◌==◌, is_none, ◌&&◌, is_positive,
}
use sve.State.{DsuSocket, internal_fd}
use sve.State.Evolves.{
  Evolved, Evolved-refl, Evolved-trans, remove_fds-Evolved, told-Evolved, accepted-Evolved,
  ready-Evolved,
}
use sve.Kernel.{World, Kernel, FdSet, FdSets, pure}
use sve.Kernel.Runs
use sve.Kernel.Runs.{Ends, came_back, did_not}
use sve.Kernel.Frame.{
  Frame, loose, loosen, Gives, Any, gives, chain, calls, branch, weaken, writes, lists_and_queues,
  with_correction,
}
use sve.Core.Workers.Kept.{activate-Kept, terminate_if_done-Kept}
use sve.Forall.Kept.{
  settling-waits, KeepsNodes, Served, Served-trans, settling, keeps-settling, forall_binds-Served,
  forall_binds-settling, SameState-Served,
}
use sve.Messages.{Answer, hang_up, ignore, mark_ready, send_fds, answer_to}
use sve.Messages.Kept.{send_both-Kept, send_ready-Kept, tell_ready-Kept}
use sve.Select.{
  clr, isset, correct, serve, respond, respond_all, accept_internal, handle_conn, take_ready,
  hide_public, signal_ready, post_select, pre_select, sniff_binds, take_correction, finish, select,
  go_live, prepare,
}

-- The node that comes back is the one that was given.
abbrev Evolves : DsuSocket → DsuSocket × Option FdSet → Type 0
Evolves s (node, x) = Evolved s node

uncorrected : {u w : World} → Served u w → Served u (record w { correction = 0 })
uncorrected p = Served-trans p (SameState-Served (ground arith))

module _ {k : Kernel} (F : Frame k)
    (corrects : (n : ℕ) (w : World) → F.Rel w (record w { correction = n })) where
  unchanged : {x : Option FdSet} (s : DsuSocket) → Gives F (Evolves s) (pure (s, x))
  unchanged s = gives F (Evolved-refl s)

  pub correct-Kept : Gives F Any correct
  unfolding correct
  correct-Kept = writes F _ λ w. corrects _ w

  serve-KeepsNodes : (fd : ℤ) (answer : Answer) → KeepsNodes F (serve k fd answer)
  unfolding serve
  serve-KeepsNodes fd hang_up s x =
      chain F (calls F _ refl) λ closed _. gives F (remove_fds-Evolved s fd internal_fd)
  serve-KeepsNodes fd ignore s x = unchanged s
  serve-KeepsNodes fd mark_ready s x =
      chain F (send_ready-Kept F s)
        λ _ _. chain F (calls F _ refl) λ closed _. gives F (remove_fds-Evolved s fd internal_fd)
  serve-KeepsNodes fd (send_fds port) s x = chain F (send_both-Kept F s fd port) λ _ _. unchanged s

  respond-KeepsNodes : (fd : ℤ) → KeepsNodes F (respond k fd)
  unfolding respond
  respond-KeepsNodes fd s x = chain F correct-Kept λ _ _.
      chain F (calls F _ refl)
        λ r _. λ w. serve-KeepsNodes fd (answer_to r w.errno s.port) s (clr fd x) w

  respond_all-KeepsNodes : (fds : List ℤ) → KeepsNodes F (respond_all k fds)
  unfolding respond_all
  respond_all-KeepsNodes [] s x = unchanged s
  respond_all-KeepsNodes (fd ∷ fds) s x =
      chain F (branch F (isset fd x) (respond-KeepsNodes fd s x) (unchanged s))
        λ (node, x') e. weaken F (respond_all-KeepsNodes fds node x') λ r e'. Evolved-trans e e'

  accept_internal-KeepsNodes : KeepsNodes F (accept_internal k)
  unfolding accept_internal
  accept_internal-KeepsNodes s x = chain F correct-Kept λ _ _.
      chain F (calls F _ refl) λ acc _. gives F (accepted-Evolved (acc.value == minus_one) s _ _ _)

  pub handle_conn-KeepsNodes : KeepsNodes F (handle_conn k)
  unfolding handle_conn
  handle_conn-KeepsNodes s x =
      chain F (branch F (isset s.comfd x) (accept_internal-KeepsNodes s x) (unchanged s))
        λ (node, x') e.
          weaken F (respond_all-KeepsNodes node.comfds node x') λ r e'. Evolved-trans e e'

  take_ready-KeepsNodes : KeepsNodes F (take_ready k)
  unfolding take_ready
  take_ready-KeepsNodes s x =
      branch F (isset s.readyfd x) (chain F correct-Kept λ _ _. gives F (ready-Evolved s))
        (unchanged s)

  hide_public-KeepsNodes : KeepsNodes F (hide_public k)
  unfolding hide_public
  hide_public-KeepsNodes s x =
      branch F (isset s.fd x && s.ready) (chain F correct-Kept λ _ _. unchanged s) (unchanged s)

  signal_ready-KeepsNodes : KeepsNodes F (signal_ready k)
  unfolding signal_ready
  signal_ready-KeepsNodes s x =
      branch F (isset s.fd x && is_positive s.comfd_close)
        (chain F (tell_ready-Kept F s) λ node e. gives F (rw e (told-Evolved s))) (unchanged s)

  pub post_select-KeepsNodes : KeepsNodes F (post_select k)
  unfolding post_select
  post_select-KeepsNodes s x = chain F (take_ready-KeepsNodes s x) λ (node, x') e.
      chain F (hide_public-KeepsNodes node x') λ (node', x'') e'.
        weaken F (signal_ready-KeepsNodes node' x'') λ r e''. Evolved-trans e (Evolved-trans e' e'')

module _ (k : Kernel) where
  pub corrected : (n : ℕ) (w : World) → (lists_and_queues k).Rel w (record w { correction = n })
  corrected n w = ground arith

  unwatched : {n : ℤ} (w : World) → (with_correction k).Rel w (record w { max_fds = n })
  unwatched w = (ground arith, refl)

  if_live :
      (active : Bool) (w : World)
      → (with_correction k).Rel w (if active then record w { live = true } else w)
  if_live true w = (ground arith, refl)
  if_live false w = (ground arith, refl)

  pre_select-KeepsNodes : KeepsNodes (with_correction k) (pre_select k)
  unfolding pre_select
  pre_select-KeepsNodes s x = gives (with_correction k) (Evolved-refl s)

  finish-Kept : (result : ℤ) (sets : FdSets) → Gives (settling k) Any (finish k result sets)
  unfolding finish take_correction
  finish-Kept result sets w =
      Runs.bind-Ends
        (forall_binds-Served k (handle_conn k)
          (handle_conn-KeepsNodes (lists_and_queues k) corrected) sets.read_set w)
        λ x v (_, p).
          Runs.bind-Ends
            (forall_binds-Served k (post_select k)
              (post_select-KeepsNodes (lists_and_queues k) corrected) x v)
            λ y u (_, q). came_back (tt, (uncorrected (Served-trans p q), λ settled. refl))

  go_live-Kept : Gives (with_correction k) Any (go_live k)
  unfolding go_live
  go_live-Kept w =
      branch (with_correction k) w.live (gives (with_correction k) tt)
        (chain (with_correction k) (activate-Kept (with_correction k)) λ active _.
          writes (with_correction k) (λ v. if active then record v { live = true } else v)
            λ v. if_live active v)
        w

  sniff_binds-Kept :
      (readfds : Option FdSet) → Gives (with_correction k) Any (sniff_binds k readfds)
  unfolding sniff_binds
  sniff_binds-Kept none w = gives (with_correction k) tt w
  sniff_binds-Kept (some readfds) w = came_back (tt, unwatched w)

  pub prepare-Kept :
      (nfds : ℤ) (readfds : Option FdSet) → Gives (settling k) Any (prepare k nfds readfds)
  unfolding prepare
  prepare-Kept nfds readfds w =
      chain (settling k) (keeps-settling k (writes (with_correction k) _ unwatched))
        (λ _ _. chain (settling k) (keeps-settling k go_live-Kept) λ _ _.
          chain (settling k) (terminate_if_done-Kept (settling k)) λ _ _.
            chain (settling k)
              (forall_binds-settling k (pre_select k) pre_select-KeepsNodes readfds)
              λ x _. keeps-settling k (sniff_binds-Kept x))
        w

  -- Whatever the system answers, a call of select that comes back has changed the binds only as the
  -- event handlers may, and no other list or pair.
  pub select-Kept :
      (fuel : ℕ) (nfds : ℤ) (sets : FdSets) (timeout : Option ℕ)
      → Gives (loose (settling k)) Any (select k fuel nfds sets timeout)
  unfolding select
  select-Kept zero nfds sets timeout w = did_not tt
  select-Kept (suc fuel) nfds sets timeout w =
      chain (loose (settling k)) (loosen (settling k) (prepare-Kept nfds sets.read_set))
        (λ readfds _ v.
          chain (loose (settling k)) (loosen (settling k) (settling-waits k _))
            (λ r _.
              branch (loose (settling k)) (r.value == minus_one) (gives (loose (settling k)) tt) (
                chain (loose (settling k)) (loosen (settling k) (finish-Kept r.value _))
                  λ (result, sets') _.
                    branch (loose (settling k)) (result == pos 0 && is_none timeout)
                      (select-Kept fuel nfds sets none) (gives (loose (settling k)) tt)))
            v)
        w
