-- ===== src/Select/Handlers.antt =====
-- What the handlers of `select` in src/event_handlers/select.c do to one node and the caller's set.
use sve.Base.{
  ◌≡◌, refl, true, false, ◌&&◌, Option, List, [], ◌∷◌, arith, inl, inr, Bool-cases, ℤ, minus_one,
  ◌==◌, ==_iff, is_positive,
}
use sve.State.{DsuSocket, socket_add_fds, fd_list_has}
use sve.State.Evolves.{Shrunk, Shrunk-refl, Shrunk-trans, remove_fds-Shrunk}
use sve.Kernel.{Kernel, World, FdSet}
use sve.Kernel.Runs
use sve.Kernel.Runs.{
  Returns, returns, Responsive, Quiet, Quiet-trans, Called, prompt-Returns, if_program-Returns,
}
use sve.Messages.{Answer, hang_up, ignore, mark_ready, send_fds}
use sve.Messages.Quiet.{send_both-Quiet, send_ready-Quiet, tell_ready-Quiet}
use sve.Select.{
  clr, isset, correct, serve, respond, respond_all, accept_internal, handle_conn, take_ready,
  hide_public, signal_ready, post_select,
}
use sve.Select.Sets.{isset-clr, isset-clr_self}

-- `after` has no member that `before` has not.
abbrev pub Fewer : Option FdSet → Option FdSet → Type 0
Fewer before after = (x : ℤ) → isset x before ≡ false → isset x after ≡ false

Fewer-clr : (fd : ℤ) (readfds : Option FdSet) → Fewer readfds (clr fd readfds)
Fewer-clr fd readfds x h = ground (arith, isset-clr fd x readfds)

-- None of the descriptors is in the set.
abbrev pub Clear : List ℤ → Option FdSet → Type 0
Clear xs readfds = (x : ℤ) → fd_list_has xs x ≡ true → isset x readfds ≡ false

-- After `dsu_handle_conn`.
pub record Handled (readfds : Option FdSet) (s : DsuSocket) : Type 0 where
  pub comfd : isset s.comfd readfds ≡ false
  pub comfds : Clear s.comfds readfds

-- After `dsu_post_select`: no descriptor of the library's own, and no public socket that another
-- version serves.
pub record Hidden (readfds : Option FdSet) (s : DsuSocket) : Type 0 where
  pub comfd : isset s.comfd readfds ≡ false
  pub comfds : Clear s.comfds readfds
  pub readyfd : isset s.readyfd readfds ≡ false
  pub public : s.ready ≡ true → isset s.fd readfds ≡ false

Hidden-close :
    {readfds : Option FdSet} {s : DsuSocket}
    → Hidden readfds s
    → Hidden readfds (record s { comfd_close = minus_one })
Hidden-close h = record {
  comfd = h.comfd;
  comfds = h.comfds;
  readyfd = h.readyfd;
  public = h.public;
}

module _ (k : Kernel) (responsive : Responsive k) where
  serve-Shrunk :
      (fd : ℤ) (a : Answer) (s : DsuSocket) (readfds : Option FdSet) (w : World)
      → Returns
          (λ (node, readfds') w'. Shrunk s node × Fewer readfds readfds')
          (serve k fd a s readfds w)
  unfolding serve
  serve-Shrunk fd hang_up s readfds w =
      Runs.bind (prompt-Returns k responsive _ w refl)
        λ _ v called. returns (remove_fds-Shrunk s fd, Fewer-clr fd readfds)
  serve-Shrunk fd ignore s readfds w = returns (Shrunk-refl s, λ x h. h)
  serve-Shrunk fd mark_ready s readfds w = Runs.bind (send_ready-Quiet k responsive s w) λ _ v q.
      Runs.bind (prompt-Returns k responsive _ v refl)
        λ _ v' called. returns (remove_fds-Shrunk s fd, λ x h. h)
  serve-Shrunk fd (send_fds port) s readfds w =
      Runs.bind (send_both-Quiet k responsive s fd port w)
        λ _ v q. returns (Shrunk-refl s, λ x h. h)

  -- The node, fewer members, and the connection at hand among those that are gone.
  abbrev Round : ℤ → DsuSocket → Option FdSet → DsuSocket × Option FdSet → World → Type 0
  Round fd s readfds (node, readfds') w' =
      Shrunk s node × Fewer readfds readfds' × (isset fd readfds' ≡ false)

  respond-Round :
      (fd : ℤ) (s : DsuSocket) (readfds : Option FdSet) (w : World)
      → Returns (Round fd s readfds) (respond k fd s readfds w)
  unfolding respond correct
  respond-Round fd s readfds w = Runs.bind (prompt-Returns k responsive _ _ refl) λ r v called.
      Runs.mono (serve-Shrunk fd _ s (clr fd readfds) v) λ (node, readfds') w' (shrunk, fewer).
        (shrunk, λ x h. fewer x (Fewer-clr fd readfds x h), fewer fd (isset-clr_self fd readfds))

  abbrev Loop : List ℤ → DsuSocket → Option FdSet → DsuSocket × Option FdSet → World → Type 0
  Loop comfds s readfds (node, readfds') w' =
      Shrunk s node × Fewer readfds readfds' × Clear comfds readfds'

  respond_all-Loop :
      (comfds : List ℤ) (s : DsuSocket) (readfds : Option FdSet) (w : World)
      → Returns (Loop comfds s readfds) (respond_all k comfds s readfds w)
  unfolding respond_all fd_list_has
  respond_all-Loop [] s readfds w = returns (Shrunk-refl s, λ x h. h, λ x h. cc)
  respond_all-Loop (fd ∷ comfds) s readfds w =
      Runs.bind
        (if_program-Returns {P = Round fd s readfds} (isset fd readfds) _ _ w
          (λ _. respond-Round fd s readfds w) (λ e. returns (Shrunk-refl s, λ x h. h, e)))
        λ (node, readfds') v (shrunk, fewer, gone).
          Runs.mono (respond_all-Loop comfds node readfds' v)
            λ (node', readfds'') w' (shrunk', fewer', gone'). (
              Shrunk-trans shrunk shrunk',
              λ x h. fewer' x (fewer x h),
              λ x h. elim (Bool-cases (fd == x)) [
                | inl e ↦ rw (← (==_iff fd x).0 e) (fewer' fd gone)
                | inr e ↦ gone' x (ground arith)
              ],
            )

  abbrev Accepted : DsuSocket → Option FdSet → DsuSocket × Option FdSet → World → Type 0
  Accepted s readfds (node, readfds') w' =
      (node.comfd ≡ s.comfd) × Fewer readfds readfds' × (isset s.comfd readfds' ≡ false)

  accept_internal-Accepted :
      (s : DsuSocket) (readfds : Option FdSet) (w : World)
      → Returns (Accepted s readfds) (accept_internal k s readfds w)
  unfolding accept_internal correct socket_add_fds
  accept_internal-Accepted s readfds w =
      Runs.bind (prompt-Returns k responsive _ _ refl) λ r v called.
        returns (ground arith, Fewer-clr s.comfd readfds, isset-clr_self s.comfd readfds)

  pub handle_conn-Handled :
      (s : DsuSocket) (readfds : Option FdSet) (w : World)
      → Returns
          (λ (node, readfds') w'. Handled readfds' node × Fewer readfds readfds')
          (handle_conn k s readfds w)
  unfolding handle_conn
  handle_conn-Handled s readfds w =
      Runs.bind
        (if_program-Returns {P = Accepted s readfds} (isset s.comfd readfds) _ _ w
          (λ _. accept_internal-Accepted s readfds w) (λ e. returns (refl, λ x h. h, e)))
        λ (node, readfds') v (same, fewer, gone).
          Runs.mono (respond_all-Loop node.comfds node readfds' v)
            λ (node', readfds'') w' (shrunk, fewer', clear). (
              record {
                comfd = rw (shrunk.comfd, same) (fewer' s.comfd gone);
                comfds = λ x h. clear x (shrunk.comfds x h);
              },
              λ x h. fewer' x (fewer x h),
            )

  abbrev Posted : Option FdSet → DsuSocket × Option FdSet → World → Type 0
  Posted readfds (node, readfds') w' = Hidden readfds' node × Fewer readfds readfds'

  abbrev Taken : Option FdSet → DsuSocket × Option FdSet → World → Type 0
  Taken readfds (node, readfds') w' =
      Handled readfds' node × (isset node.readyfd readfds' ≡ false) × Fewer readfds readfds'

  take_ready-Taken :
      (s : DsuSocket) (readfds : Option FdSet) (w : World)
      → Handled readfds s
      → Returns (Taken readfds) (take_ready k s readfds w)
  unfolding take_ready correct
  take_ready-Taken s readfds w h =
      if_program-Returns (isset s.readyfd readfds) _ _ w
        (λ _. returns (
          record { comfd = fewer s.comfd h.comfd; comfds = λ x e. fewer x (h.comfds x e) },
          isset-clr_self s.readyfd readfds,
          fewer,
        ))
        (λ e. returns (h, e, λ x h'. h'))
    where
      fewer : Fewer readfds (clr s.readyfd readfds)
      fewer = Fewer-clr s.readyfd readfds

  hide_public-Posted :
      (s : DsuSocket) (readfds : Option FdSet) (w : World)
      → Handled readfds s
      → isset s.readyfd readfds ≡ false
      → Returns (Posted readfds) (hide_public k s readfds w)
  unfolding hide_public correct
  hide_public-Posted s readfds w h quiet =
      if_program-Returns (isset s.fd readfds && s.ready) _ _ w
        (λ _. returns (
          record {
            comfd = fewer s.comfd h.comfd;
            comfds = λ x e. fewer x (h.comfds x e);
            readyfd = fewer s.readyfd quiet;
            public = λ _. isset-clr_self s.fd readfds;
          },
          fewer,
        ))
        (λ e. returns (
          record {
            comfd = h.comfd;
            comfds = h.comfds;
            readyfd = quiet;
            public = λ ready. ground arith;
          },
          λ x h'. h',
        ))
    where
      fewer : Fewer readfds (clr s.fd readfds)
      fewer = Fewer-clr s.fd readfds

  signal_ready-Hidden :
      (s : DsuSocket) (readfds : Option FdSet) (w : World)
      → Hidden readfds s
      → Returns
          (λ (node, readfds') w'. Hidden readfds' node × (readfds' ≡ readfds))
          (signal_ready k s readfds w)
  unfolding signal_ready
  signal_ready-Hidden s readfds w h =
      if_program-Returns (isset s.fd readfds && is_positive s.comfd_close) _ _ w
        (λ _.
          Runs.bind (tell_ready-Quiet k responsive s w)
            λ node v (e, q). returns (rw e (Hidden-close h), refl))
        (λ _. returns (h, refl))

  pub post_select-Hidden :
      (s : DsuSocket) (readfds : Option FdSet) (w : World)
      → Handled readfds s
      → Returns (Posted readfds) (post_select k s readfds w)
  unfolding post_select
  post_select-Hidden s readfds w h =
      Runs.bind (take_ready-Taken s readfds w h) λ (node, readfds') v (h', quiet, fewer).
        Runs.bind (hide_public-Posted node readfds' v h' quiet)
          λ (node', readfds'') v' (hidden, fewer').
            Runs.mono (signal_ready-Hidden node' readfds'' v' hidden)
              λ (node'', last) w' (hidden', e). (hidden', λ x m. rw e (fewer' x (fewer x m)))
