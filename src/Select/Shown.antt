-- ===== src/Select/Shown.antt =====
-- The calls of the system's select, and what they show of one descriptor: what
-- src/event_handlers/select.c does to that before and behind each.
use mathlib.Core.List.{append_assoc}
use sve.Base.{
  ℕ, suc, ◌+◌, ◌≡◌, refl, sym, ◌∙◌, Bool, true, false, ◌||◌, Option, none, some, List, [], ◌∷◌,
  ◌++◌, arith, if◌then◌else◌, ℤ, minus_one, ◌==◌,
}
use sve.State.{DsuSocket}
use sve.Kernel.{Kernel, Call, Log, World, Reply, FdSet, FdSets, ok}
use sve.Kernel.Runs.{Called, Ends}
use sve.Kernel.Stuck.{Stuck}
use sve.Kernel.Frame.{
  Frame, is_wait, Gives, Any, gives, chain, branch, writes, SameState, SameState-refl,
  SameState-trans, Quiet-SameState,
}
use sve.Core.Workers.Kept.{activate-Kept, terminate_if_done-Kept}
use sve.Forall.{forall_sockets, forall_binds}
use sve.Forall.Kept.{forall_binds-Kept}
use sve.Select.Kept.{handle_conn-KeepsNodes, post_select-KeepsNodes}
use sve.Select.{
  isset, replied_sets, pre_select, sniff_binds, go_live, prepare, handle_conn, post_select,
  take_correction, finish,
}

-- Whether one call of select has failed, or has left the descriptor in the read set.
abbrev pub shows : ℤ → FdSets → Reply → Bool
shows x passed r = r.value == minus_one || isset x (replied_sets passed r.sets).read_set

abbrev pub count_if : Bool → ℕ → ℕ
count_if b n = if b then suc n else n

-- How many calls have.
abbrev pub shown : Kernel → ℤ → Log → ℕ
shown k x [] = 0
shown k x (Call.select nfds passed timeout ∷ log) =
    count_if (shows x passed (k log (Call.select nfds passed timeout))) (shown k x log)
shown k x (call ∷ log) = shown k x log

-- How often the system's select has been called.
abbrev pub selects : Log → ℕ
selects [] = 0
selects (Call.select nfds passed timeout ∷ log) = suc (selects log)
selects (call ∷ log) = selects log

shown-other :
    (k : Kernel) (x : ℤ) (call : Call) (log : Log)
    → is_wait call ≡ false
    → shown k x (call ∷ log) ≡ shown k x log
shown-other k x (Call.select nfds passed timeout) log e = cc
shown-other k x call log e = refl

selects-other : (call : Call) → is_wait call ≡ false → selects (call ∷ []) ≡ 0
selects-other (Call.select nfds passed timeout) e = cc
selects-other call e = refl

pub selects-append : (log more : Log) → selects (log ++ more) ≡ selects log + selects more
selects-append [] more = omega arith
selects-append (Call.select nfds passed timeout ∷ log) more = omega (arith, selects-append log more)
selects-append (call ∷ log) more = selects-append log more

-- Some calls were made from one world to the other, `n` of them calls of select, and none of these has
-- failed or has shown the descriptor.
pub record Hushed (k : Kernel) (x : ℤ) (n : ℕ) (w v : World) : Type 0 where
  pub more : Log
  pub logged : v.log ≡ more ++ w.log
  pub rounds : selects more ≡ n
  pub silent : shown k x v.log ≡ shown k x w.log

-- A write to another global.
pub unlogged : (k : Kernel) (x : ℤ) (w : World) {v : World} → v.log ≡ w.log → Hushed k x 0 w v
unlogged k x w e = record { more = []; logged = e; rounds = refl; silent = rw e refl }

pub Hushed-trans :
    {k : Kernel} {x : ℤ} {m n : ℕ} {u v w : World}
    → Hushed k x m u v
    → Hushed k x n v w
    → Hushed k x (n + m) u w
Hushed-trans {u} p q = record {
  more = q.more ++ p.more;
  logged = rw (q.logged, p.logged) (sym (append_assoc q.more p.more u.log));
  rounds = rw (selects-append q.more p.more, q.rounds, p.rounds) refl;
  silent = q.silent ∙ p.silent;
}

pub Called-Hushed :
    {k : Kernel} {call : Call} {w : World} {r : Reply} {v : World} (x : ℤ)
    → is_wait call ≡ false
    → Called k call w r v
    → Hushed k x 0 w v
Called-Hushed {k} {call} {w} x e c = record {
  more = call ∷ [];
  logged = c.logged;
  rounds = selects-other call e;
  silent = rw c.logged (shown-other k x call w.log e);
}

-- A call of select that has not failed and has not shown the descriptor.
pub quiet-Hushed :
    {k : Kernel} {x nfds : ℤ} {passed : FdSets} {timeout : Option ℕ} {w : World} {r : Reply}
    {v : World}
    → Called k (Call.select nfds passed timeout) w r v
    → shows x passed r ≡ false
    → Hushed k x 1 w v
quiet-Hushed {nfds} {passed} {timeout} c e = record {
  more = Call.select nfds passed timeout ∷ [];
  logged = c.logged;
  rounds = refl;
  silent = rw (c.logged, ← c.reply, e) refl;
}

module _ (k : Kernel) (x : ℤ) where
  -- The lists, the pairs and the correction are as they were, and select was not called.
  abbrev pub unshown : Frame k
  unshown = record {
    Rel = λ w v. (SameState w v × (v.correction ≡ w.correction)) × Hushed k x 0 w v;
    same = λ w. ((SameState-refl w, refl), unlogged k x w refl);
    then_after = λ ((p, e), h) ((q, e'), h'). ((SameState-trans p q, e' ∙ e), Hushed-trans h h');
    called = λ e c. ((Quiet-SameState c.quiet, c.quiet.correction), Called-Hushed x e c);
    Stays = Stuck k;
    stays = λ stuck. stuck;
  }

  unwatched : {n : ℤ} (w : World) → unshown.Rel w (record w { max_fds = n })
  unwatched w = ((ground arith, refl), unlogged k x w refl)

  if_live :
      (active : Bool) (w : World) → unshown.Rel w (if active then record w { live = true } else w)
  if_live true w = ((ground arith, refl), unlogged k x w refl)
  if_live false w = ((ground arith, refl), unlogged k x w refl)

  go_live-Hushed : Gives unshown Any (go_live k)
  unfolding go_live
  go_live-Hushed w =
      branch unshown w.live (gives unshown tt)
        (chain unshown (activate-Kept unshown) λ active _.
          writes unshown (λ v. if active then record v { live = true } else v)
            λ v. if_live active v)
        w

  sniff_binds-Hushed : (readfds : Option FdSet) → Gives unshown Any (sniff_binds k readfds)
  unfolding sniff_binds
  sniff_binds-Hushed none w = gives unshown tt w
  sniff_binds-Hushed (some readfds) w = Ends.came_back (tt, unwatched w)

-- The traversal with dsu_pre_select does nothing.
forall_sockets-pre_select :
    (k : Kernel) (xs : List DsuSocket) (readfds : Option FdSet) (w : World)
    → forall_sockets (pre_select k) xs readfds w ≡ ok (xs, readfds) w
unfolding forall_sockets pre_select
forall_sockets-pre_select k [] readfds w = refl
forall_sockets-pre_select k (s ∷ xs) readfds w = rw (forall_sockets-pre_select k xs readfds w) refl

module _ (k : Kernel) (x : ℤ) where
  pre_select-Hushed :
      (readfds : Option FdSet) → Gives (unshown k x) Any (forall_binds (pre_select k) readfds)
  unfolding forall_binds
  pre_select-Hushed readfds w =
      rw (forall_sockets-pre_select k w.binds readfds w) (Ends.came_back (tt, (unshown k x).same w))

  -- What comes before the system's select.
  pub prepare-Hushed :
      (nfds : ℤ) (readfds : Option FdSet) → Gives (unshown k x) Any (prepare k nfds readfds)
  unfolding prepare
  prepare-Hushed nfds readfds w =
      chain (unshown k x) (writes (unshown k x) _ (unwatched k x))
        (λ _ _. chain (unshown k x) (go_live-Hushed k x) λ _ _.
          chain (unshown k x) (terminate_if_done-Kept (unshown k x))
            λ _ _. chain (unshown k x) (pre_select-Hushed readfds) λ y _. sniff_binds-Hushed k x y)
        w

  -- Nothing but the calls counts.
  abbrev hushed : Frame k
  hushed = record {
    Rel = Hushed k x 0;
    same = λ w. unlogged k x w refl;
    then_after = Hushed-trans;
    called = Called-Hushed x;
    Stays = Stuck k;
    stays = λ stuck. stuck;
  }

  -- What comes behind it.
  pub finish-Hushed : (result : ℤ) (sets : FdSets) → Gives hushed Any (finish k result sets)
  unfolding finish take_correction
  finish-Hushed result sets =
      chain hushed
        (forall_binds-Kept hushed (handle_conn k) (λ nodes w. unlogged k x w refl)
          (handle_conn-KeepsNodes hushed λ n w. unlogged k x w refl) sets.read_set)
        λ y _.
          chain hushed
            (forall_binds-Kept hushed (post_select k) (λ nodes w. unlogged k x w refl)
              (post_select-KeepsNodes hushed λ n w. unlogged k x w refl) y)
            λ z _ w. Ends.came_back (tt, unlogged k x w refl)
