-- ===== src/Core/Workers/Interleaved/Moved.antt =====
-- One worker moved on, the others left where they were.
use sve.Base.{ℕ, ◌<◌, ◌≡◌, ◌≢◌, refl, ◌∙◌, ap, true, false, ◌∷◌, arith, ltb, if◌then◌else◌}
use sve.Kernel.{Kernel}
use sve.Kernel.Runs.{is_prompt, Responsive}
use sve.Kernel.Queue.{pending}
use sve.Core.Workers.Interleaved.{
  Pc, starting, sent, active, taken, alone, pinging, Sockets, go, Pool, Step, pick, Reach, later,
  after, next_call,
}
use sve.Core.Workers.Interleaved.Tally.{update, tally-pos}
use sve.Core.Workers.Interleaved.Invariant.{counted, Setting, Inv, Reach-Inv}

module _ (k : Kernel) (fds : Sockets) (n : ℕ) where
  pub data Leads (s : Pool) : Pool → Type 0 where
    stay : Leads s s
    on : {t u : Pool} → Leads s t → Step k fds n t u → Leads s u

  -- Worker `i` went from `s` to `p`, which is in `t`.
  pub record Moved (s : Pool) (i : ℕ) (p : Pc) (t : Pool) : Type 0 where
    pub leads : Leads s t
    pub here : t.pc i ≡ p
    pub others : (j : ℕ) → i ≢ j → t.pc j ≡ s.pc j

module _ {k : Kernel} {fds : Sockets} {n : ℕ} where
  pub Leads-trans : {s t u : Pool} → Leads k fds n s t → Leads k fds n t u → Leads k fds n s u
  Leads-trans l stay = l
  Leads-trans l (on l' step) = on (Leads-trans l l') step

  pub Reach-Leads : {s t : Pool} → Reach k fds n s → Leads k fds n s t → Reach k fds n t
  Reach-Leads r stay = r
  Reach-Leads r (on l step) = later (Reach-Leads r l) step

  pub Moved-at :
      {s t : Pool} {i : ℕ} {p q : Pc} → p ≡ q → Moved k fds n s i p t → Moved k fds n s i q t
  Moved-at e m = record { leads = m.leads; here = m.here ∙ e; others = m.others }

  pub Moved-trans :
      {s t u : Pool} {i : ℕ} {p q : Pc}
      → Moved k fds n s i p t
      → Moved k fds n t i q u
      → Moved k fds n s i q u
  Moved-trans a b = record {
    leads = Leads-trans a.leads b.leads;
    here = b.here;
    others = λ j apart. b.others j apart ∙ a.others j apart;
  }

  module _ (setting : Setting k fds) (responsive : Responsive k) (i : ℕ) (lt : i < n) where
    open setting use {queue}

    move :
        (s : Pool) (p : Pc)
        → s.pc i ≡ p
        → is_prompt (next_call fds p) ≡ true
        → (t : Pool) × Moved k fds n s i (after p (k s.log (next_call fds p)).value) t
    move s p e prompt = (
      record {
        log = next_call fds (s.pc i) ∷ s.log;
        pc = update s.pc i (after (s.pc i) (k s.log (next_call fds (s.pc i))).value);
      },
      record {
        leads = on stay (pick i lt (go (rw e (responsive s.log (next_call fds p) prompt))));
        here = rw e (ground arith);
        others = λ j apart. ground arith;
      },
    )

    abbrev queued : Pool → ℕ
    queued s = pending k fds.activate fds.deactivate s.log

    pub peek-active :
        (s : Pool) → Reach k fds n s → s.pc i ≡ sent → (t : Pool) × Moved k fds n s i active t
    peek-active s r e =
        let (t, m) = move s sent e refl in (t, Moved-at (told (Reach-Inv setting r)) m)
      where
        -- It is counted itself.
        told : Inv k fds n s → after sent (k s.log (next_call fds sent)).value ≡ active
        told inv = ground (arith, queue.peek s.log 1, inv.counts, tally-pos counted n s.pc i lt)

    pub arrive :
        (s : Pool) → Reach k fds n s → s.pc i ≡ starting → (t : Pool) × Moved k fds n s i active t
    arrive s r e =
        let (t, m) = move s starting e refl in
        let (u, m') = peek-active t (Reach-Leads r m.leads) m.here in (u, Moved-trans m m')

    pub take : (s : Pool) → s.pc i ≡ active → (t : Pool) × Moved k fds n s i taken t
    take s e = move s active e refl

    -- The last peek.
    pub look :
        (s : Pool)
        → s.pc i ≡ taken
        → (t : Pool) × Moved k fds n s i (if ltb 0 (queued s) then pinging false else alone) t
    look s e =
        let (t, m) = move s taken e refl in
        (t, Moved-at (ap (λ b. if b then pinging false else alone) (queue.peek s.log 1)) m)
