-- ===== src/Select/Count.antt =====
-- The number that `select` returns. Every step of the handlers that clears a member of the caller's
-- set adds one to `correction`, so what is left in the set and `correction` make up what the system
-- reported.
use sve.Base.{
  ℕ, ◌+◌, ◌≡◌, refl, true, false, ◌&&◌, Option, List, [], ◌∷◌, arith, ℤ, pos, ◌-ℤ◌, is_positive,
}
use sve.State.{DsuSocket}
use sve.Kernel.{Kernel, World, FdSet, FdSets, Prog}
use sve.Kernel.Runs
use sve.Kernel.Runs.{
  Returns, returns, Responsive, Quiet, Quiet-trans, Called, prompt-Returns, if_program-Returns,
}
use sve.Forall.{forall_sockets, forall_binds}
use sve.Messages.{Answer, hang_up, ignore, mark_ready, send_fds}
use sve.Messages.Quiet.{send_both-Quiet, send_ready-Quiet, tell_ready-Quiet}
use sve.Select.{
  clr, isset, correct, serve, respond, respond_all, accept_internal, handle_conn, take_ready,
  hide_public, signal_ready, post_select, take_correction, finish,
}
use sve.Select.Sets.{count_at, Bounded, count_at-clr, Bounded-clr, clr-absent, isset-clr_self}

-- What is left in the set and the correction make `total`.
pub record Counted (size total : ℕ) (readfds : Option FdSet) (w : World) : Type 0 where
  pub bounded : Bounded size readfds
  pub sum : count_at size readfds + w.correction ≡ total

module _ {size total : ℕ} where
  Counted-Quiet :
      {readfds : Option FdSet} {w w' : World}
      → Quiet w w'
      → Counted size total readfds w
      → Counted size total readfds w'
  Counted-Quiet q c = record { bounded = c.bounded; sum = omega (arith, q.correction, c.sum) }

  -- `++correction` with the `FD_CLR` of a member.
  Counted-correct :
      {readfds : Option FdSet} {w : World} (fd : ℤ)
      → isset fd readfds ≡ true
      → Counted size total readfds w
      → Counted size total (clr fd readfds) (record w { correction = w.correction + 1 })
  Counted-correct {readfds} fd e c = record {
    bounded = Bounded-clr size fd readfds c.bounded;
    sum = omega (arith, count_at-clr size fd readfds c.bounded e, c.sum);
  }

-- A handler of a node that keeps the sum.
abbrev pub Keeps : (DsuSocket → Option FdSet → Prog (DsuSocket × Option FdSet)) → ℕ → ℕ → Type 0
Keeps y size total =
    (s : DsuSocket) (readfds : Option FdSet) (w : World)
    → Counted size total readfds w
    → Returns (λ (_, readfds') w'. Counted size total readfds' w') (y s readfds w)

module _ (k : Kernel) (responsive : Responsive k) {size total : ℕ} where
  serve-Counted :
      (fd : ℤ) (a : Answer) (s : DsuSocket) (readfds : Option FdSet) (w : World)
      → Counted size total readfds w
      → isset fd readfds ≡ false
      → Returns (λ (_, readfds') w'. Counted size total readfds' w') (serve k fd a s readfds w)
  unfolding serve
  serve-Counted fd hang_up s readfds w c gone = rw (clr-absent fd readfds gone) (
      Runs.bind (prompt-Returns k responsive _ w refl)
        λ _ v called. returns (Counted-Quiet called.quiet c))
  serve-Counted fd ignore s readfds w c gone = returns c
  serve-Counted fd mark_ready s readfds w c gone =
      Runs.bind (send_ready-Quiet k responsive s w) λ _ v q.
        Runs.bind (prompt-Returns k responsive _ v refl)
          λ _ v' called. returns (Counted-Quiet (Quiet-trans q called.quiet) c)
  serve-Counted fd (send_fds port) s readfds w c gone =
      Runs.bind (send_both-Quiet k responsive s fd port w) λ _ v q. returns (Counted-Quiet q c)

  respond-Counted :
      (fd : ℤ) (s : DsuSocket) (readfds : Option FdSet) (w : World)
      → isset fd readfds ≡ true
      → Counted size total readfds w
      → Returns (λ (_, readfds') w'. Counted size total readfds' w') (respond k fd s readfds w)
  unfolding respond correct
  respond-Counted fd s readfds w e c =
      Runs.bind (prompt-Returns k responsive _ _ refl) λ r v called.
        serve-Counted fd _ s _ v (Counted-Quiet called.quiet (Counted-correct fd e c))
          (isset-clr_self fd readfds)

  respond_all-Counted :
      (comfds : List ℤ) (s : DsuSocket) (readfds : Option FdSet) (w : World)
      → Counted size total readfds w
      → Returns
          (λ (_, readfds') w'. Counted size total readfds' w')
          (respond_all k comfds s readfds w)
  unfolding respond_all
  respond_all-Counted [] s readfds w c = returns c
  respond_all-Counted (fd ∷ comfds) s readfds w c =
      Runs.bind
        (if_program-Returns {P = λ (_, readfds') w'. Counted size total readfds' w'}
          (isset fd readfds) _ _ w (λ e. respond-Counted fd s readfds w e c) (λ _. returns c))
        λ (node, readfds') v c'. respond_all-Counted comfds node readfds' v c'

  accept_internal-Counted :
      (s : DsuSocket) (readfds : Option FdSet) (w : World)
      → isset s.comfd readfds ≡ true
      → Counted size total readfds w
      → Returns (λ (_, readfds') w'. Counted size total readfds' w') (accept_internal k s readfds w)
  unfolding accept_internal correct
  accept_internal-Counted s readfds w e c =
      Runs.bind (prompt-Returns k responsive _ _ refl)
        λ r v called. returns (Counted-Quiet called.quiet (Counted-correct s.comfd e c))

  handle_conn-Counted : Keeps (handle_conn k) size total
  unfolding handle_conn
  handle_conn-Counted s readfds w c =
      Runs.bind
        (if_program-Returns {P = λ (_, readfds') w'. Counted size total readfds' w'}
          (isset s.comfd readfds) _ _ w (λ e. accept_internal-Counted s readfds w e c)
          (λ _. returns c))
        λ (node, readfds') v c'. respond_all-Counted node.comfds node readfds' v c'

  take_ready-Counted : Keeps (take_ready k) size total
  unfolding take_ready correct
  take_ready-Counted s readfds w c =
      if_program-Returns (isset s.readyfd readfds) _ _ w
        (λ e. returns (Counted-correct s.readyfd e c)) (λ _. returns c)

  hide_public-Counted : Keeps (hide_public k) size total
  unfolding hide_public correct
  hide_public-Counted s readfds w c =
      if_program-Returns (isset s.fd readfds && s.ready) _ _ w
        (λ e. returns (Counted-correct s.fd (ground arith) c)) (λ _. returns c)

  signal_ready-Counted : Keeps (signal_ready k) size total
  unfolding signal_ready
  signal_ready-Counted s readfds w c =
      if_program-Returns (isset s.fd readfds && is_positive s.comfd_close) _ _ w
        (λ _.
          Runs.bind (tell_ready-Quiet k responsive s w)
            λ node v (_, q). returns (Counted-Quiet q c))
        (λ _. returns c)

  post_select-Counted : Keeps (post_select k) size total
  unfolding post_select
  post_select-Counted s readfds w c =
      Runs.bind (take_ready-Counted s readfds w c) λ (node, readfds') v c'.
        Runs.bind (hide_public-Counted node readfds' v c')
          λ (node', readfds'') v' c''. signal_ready-Counted node' readfds'' v' c''

module _ {size total : ℕ} (y : DsuSocket → Option FdSet → Prog (DsuSocket × Option FdSet)) where
  forall_sockets-Counted :
      (xs : List DsuSocket) (readfds : Option FdSet) (w : World)
      → Keeps y size total
      → Counted size total readfds w
      → Returns (λ (_, readfds') w'. Counted size total readfds' w') (forall_sockets y xs readfds w)
  unfolding forall_sockets
  forall_sockets-Counted [] readfds w keeps c = returns c
  forall_sockets-Counted (s ∷ xs) readfds w keeps c =
      Runs.bind (keeps s readfds w c) λ (node, readfds') v c'.
        Runs.bind (forall_sockets-Counted xs readfds' v keeps c')
          λ (nodes, readfds'') v' c''. returns c''

  forall_binds-Counted :
      (readfds : Option FdSet) (w : World)
      → Keeps y size total
      → Counted size total readfds w
      → Returns (λ readfds' w'. Counted size total readfds' w') (forall_binds y readfds w)
  unfolding forall_binds
  forall_binds-Counted readfds w keeps c =
      Runs.bind (forall_sockets-Counted w.binds readfds w keeps c)
        λ (nodes, readfds') v c'. returns (record { bounded = c'.bounded; sum = c'.sum })

-- What the system has reported: a number made up of the members of the read set and of others, and a
-- read set of the system's size.
pub record Reported (size others : ℕ) (result : ℤ) (sets : FdSets) : Type 0 where
  pub bounded : Bounded size sets.read_set
  pub number : result ≡ pos (count_at size sets.read_set + others)

-- Behind a `select` of the system that reported the members of the read set and `others` more, with no
-- correction pending, and where the system answers the calls that do not wait, the wrapper comes
-- back; its result is the number of members that are left in the caller's read set, and the others;
-- no correction is pending again, and the other two sets are as they were.
pub finish-count :
    (k : Kernel) (size others : ℕ) (result : ℤ) (sets : FdSets) (w : World)
    → Responsive k
    → Reported size others result sets
    → w.correction ≡ 0
    → Returns
        (λ (result', sets') w'.
          Reported size others result' sets'
          × (w'.correction ≡ 0)
          × (sets'.write_set ≡ sets.write_set)
          × (sets'.except_set ≡ sets.except_set))
        (finish k result sets w)
unfolding finish take_correction ◌-ℤ◌
finish-count k size others result sets w responsive reported none_pending =
    Runs.bind
      (forall_binds-Counted {total = count_at size sets.read_set} (handle_conn k) sets.read_set w
        (handle_conn-Counted k responsive)
        (record { bounded = reported.bounded; sum = omega arith }))
      λ readfds v c.
        Runs.bind
          (forall_binds-Counted (post_select k) readfds v (post_select-Counted k responsive) c)
          λ readfds' v' c'. returns (
            record { bounded = c'.bounded; number = rw reported.number (ground (arith, c'.sum)) },
            refl,
            refl,
            refl,
          )
