-- ===== src/Core/Wrappers/Clients.antt =====
-- The count of announced clients, the messages in the queue between `accept` and `close`: `accept4` adds
-- one, `close` of a client takes one, and the other wrappers leave it.
use sve.Base.{
  suc, ◌+◌, ◌-◌, ◌≡◌, refl, ap, ◌∙◌, ◌⊎◌, Bool, false, ◌&&◌, [], ◌∷◌, arith, ltb, if◌then◌else◌, ℤ,
  pos, minus_one, ◌==◌, ==_refl, ◌+ℤ◌, is_positive, is_negative,
}
use sve.Kernel.{
  Kernel, Reply, Call, Log, World, pure, sys, ◌>>=◌, bytes, confirm, dontwait, SockOption, so_type,
  so_acceptconn, so_domain,
}
use sve.Kernel.Runs
use sve.Kernel.Runs.{
  Returns, returns, Safely, returned, stopped, Responsive, Called, Quiet, Quiet-trans,
  prompt-Returns, sys-Returns, sys-Safely, if_program-Returns, if_program-Safely,
}
use sve.Kernel.Queue.{advance, IsQueue, pending-call, take-call}
use sve.Core.Workers.Termination.{announced_clients}
use sve.Core.Wrappers.{accept4, close, socket_option, is_client}

pub clients-call :
    {k : Kernel} {call : Call} {w : World} {r : Reply} {v : World}
    → Called k call w r v
    → announced_clients k v ≡ advance w.accept w.close call r.value (announced_clients k w)
clients-call {w} c = rw (c.quiet.accept, c.quiet.close) (pending-call w.accept w.close c)

-- The queue takes every message.
abbrev pub TakesAll : Kernel → ℤ → Type 0
TakesAll k fd =
    (log : Log) → is_negative (k log (Call.send fd (bytes (b'a' ∷ [])) confirm)).value ≡ false

-- If it comes back, `accept4` returns what the system's returned, and one more client is announced exactly
-- when that is positive, on a queue that takes every message.
pub accept4-announced_clients :
    (k : Kernel) (sockfd flags : ℤ) (w : World)
    → TakesAll k w.accept
    → Safely
        (λ acc v.
          (acc ≡ (k w.log (Call.accept4 sockfd flags)).value)
          × (announced_clients k v ≡ announced_clients k w + (if is_positive acc then 1 else 0))
          × Quiet w v)
        (accept4 k sockfd flags w)
unfolding accept4
accept4-announced_clients k sockfd flags w room =
    Runs.bind-Safely (sys-Safely k (Call.accept4 sockfd flags) w) λ acc v called.
      if_program-Safely (is_positive acc.value) _ _ v
        (λ e.
          Runs.bind-Safely (sys-Safely k (Call.send w.accept (bytes (b'a' ∷ [])) confirm) v)
            λ sent u called'.
              let added : announced_clients k u ≡ suc (announced_clients k v) = rw (
                clients-call called',
                called.quiet.accept,
                ==_refl w.accept,
                called'.reply,
                room v.log,
              ) in
              returned (
                ap (λ (r : Reply). r.value) called.reply,
                rw e (omega (arith, added, clients-call called)),
                Quiet-trans called.quiet called'.quiet,
              ))
        (λ e. returned (
          ap (λ (r : Reply). r.value) called.reply,
          rw e (omega (arith, clients-call called)),
          called.quiet,
        ))

-- The calls that `close` makes before it knows what it closed.
abbrev asked : ℤ → SockOption → Call
asked sockfd option = Call.getsockopt sockfd option

-- The calls made up to there.
abbrev pub asked_log : ℤ → Log → Log
asked_log sockfd log =
    asked sockfd so_domain ∷ asked sockfd so_acceptconn ∷ asked sockfd so_type ∷ log

-- Whether the system says, call for call, that the descriptor closed is the socket of a client: a
-- stream socket of the internet domain that does not listen, and closed without an error.
pub closes_client : Kernel → ℤ → Log → Bool
closes_client k sockfd log =
    let log1 = asked sockfd so_type ∷ log in
    let log2 = asked sockfd so_acceptconn ∷ log1 in
    (k (asked_log sockfd log) (Call.close sockfd)).value == pos 0
    && (answers log so_type (pos 1)
        && (answers log1 so_acceptconn (pos 0) && answers log2 so_domain (pos 2)))
  where
    answers : Log → SockOption → ℤ → Bool
    answers at option value =
        (k at (asked sockfd option)).value == pos 0
        && (k at (asked sockfd option)).option_value == value

-- `getsockopt` returns 0 or -1.
abbrev pub AnswersOptions : Kernel → Type 0
AnswersOptions k =
    (log : Log) (fd : ℤ) (option : SockOption)
    → ((k log (asked fd option)).value ≡ pos 0) ⊎ ((k log (asked fd option)).value ≡ minus_one)

-- What one question leaves: the answer, and the count.
record Asked (k : Kernel) (sockfd : ℤ) (option : SockOption) (w : World) (a : ℤ × ℤ) (v : World)
    : Type 0 where
  result : a.0 ≡ (k w.log (asked sockfd option)).value
  option_value : a.1 ≡ (
      if (k w.log (asked sockfd option)).value == pos 0
      then (k w.log (asked sockfd option)).option_value
      else minus_one)
  quiet : Quiet w v
  logged : v.log ≡ asked sockfd option ∷ w.log
  clients : announced_clients k v ≡ announced_clients k w

module _ (k : Kernel) (responsive : Responsive k) where
  socket_option-Asked :
      (sockfd : ℤ) (option : SockOption) (w : World)
      → Returns (Asked k sockfd option w) (socket_option k sockfd option w)
  unfolding socket_option
  socket_option-Asked sockfd option w =
      Runs.bind (prompt-Returns k responsive (asked sockfd option) w refl) λ r v called.
        returns (record {
          result = rw called.reply;
          option_value = rw called.reply;
          quiet = called.quiet;
          logged = called.logged;
          clients = clients-call called;
        })

-- The three answers, and the condition of the source.
client_test :
    (r r' r'' type listen domain : ℤ)
    → (r ≡ pos 0) ⊎ (r ≡ minus_one)
    → (r' ≡ pos 0) ⊎ (r' ≡ minus_one)
    → (r'' ≡ pos 0) ⊎ (r'' ≡ minus_one)
    → is_client
        (r +ℤ r' +ℤ r'')
        (if r == pos 0 then type else minus_one)
        (if r' == pos 0 then listen else minus_one)
        (if r'' == pos 0 then domain else minus_one)
      ≡ ((r == pos 0 && type == pos 1)
          && ((r' == pos 0 && listen == pos 0) && (r'' == pos 0 && domain == pos 2)))
unfolding is_client ◌+ℤ◌ ◌==◌
client_test r r' r'' type listen domain h h' h'' = ground arith

-- The condition of the source is what the system says.
condition-closes_client :
    {k : Kernel} {sockfd : ℤ} {w v1 v2 v3 v4 : World} {a1 a2 a3 : ℤ × ℤ} {result : Reply}
    → AnswersOptions k
    → Asked k sockfd so_type w a1 v1
    → Asked k sockfd so_acceptconn v1 a2 v2
    → Asked k sockfd so_domain v2 a3 v3
    → Called k (Call.close sockfd) v3 result v4
    → (result.value == pos 0 && is_client (a1.0 +ℤ a2.0 +ℤ a3.0) a1.1 a2.1 a3.1)
      ≡ closes_client k sockfd w.log
unfolding closes_client
condition-closes_client {k} {sockfd} {w} {v1} {v2} options q1 q2 q3 called = rw (
  called.reply,
  q1.result,
  q1.option_value,
  q2.result,
  q2.option_value,
  q3.result,
  q3.option_value,
  client_test _ _ _ _ _ _ (options w.log sockfd so_type) (options v1.log sockfd so_acceptconn)
      (options v2.log sockfd so_domain),
  q3.logged,
  q2.logged,
  q1.logged,
)

module _ (k : Kernel) (responsive : Responsive k) where
  -- The message that is taken for a client.
  take-clients :
      {w : World}
      → IsQueue k w.accept w.close
      → (v : World) (value : ℤ) → Quiet w v
      → announced_clients k v ≡ announced_clients k w
      → Returns
          (λ result u.
            (result ≡ value) × (announced_clients k u ≡ announced_clients k w - 1) × Quiet w u)
          ((sys k (Call.recv w.close 1 dontwait) >>= λ taken. pure value) v)
  take-clients {w} queue v value quiet same =
      Runs.bind (prompt-Returns k responsive (Call.recv w.close 1 dontwait) v refl)
        λ taken u called.
          let queue' : IsQueue k v.accept w.close = rw quiet.accept queue in
          let got : is_positive taken.value ≡ ltb 0 (announced_clients k v) =
            rw quiet.close (take-call queue' called) in
          let left : announced_clients k u ≡ announced_clients k v - 1 =
            rw (clients-call called, quiet.close, ==_refl w.close, got) (ground arith) in
          returns (refl, rw left (rw same), Quiet-trans quiet called.quiet)

  -- Where the system answers the calls that do not wait, getsockopt returns 0 or -1, and the queue gives
  -- what was sent: `close` comes back with the result of the system's, asked behind the three
  -- questions, and takes one from the count of announced clients, unless that is 0, exactly when the
  -- system says that the descriptor was a client's and its own `close` succeeds.
  pub close-announced_clients :
      (sockfd : ℤ) (w : World)
      → IsQueue k w.accept w.close
      → AnswersOptions k
      → Returns
          (λ result v.
            (result ≡ (k (asked_log sockfd w.log) (Call.close sockfd)).value)
            × (announced_clients k v
                ≡ announced_clients k w - (if closes_client k sockfd w.log then 1 else 0))
            × Quiet w v)
          (close k sockfd w)
  unfolding close
  close-announced_clients sockfd w queue options =
      Runs.bind (socket_option-Asked k responsive sockfd so_type w) λ a1 v1 q1.
        Runs.bind (socket_option-Asked k responsive sockfd so_acceptconn v1) λ a2 v2 q2.
          Runs.bind (socket_option-Asked k responsive sockfd so_domain v2) λ a3 v3 q3.
            Runs.bind (prompt-Returns k responsive (Call.close sockfd) v3 refl) λ result v4 called.
              let quiet =
                Quiet-trans q1.quiet (Quiet-trans q2.quiet (Quiet-trans q3.quiet called.quiet)) in
              let replied : result.value ≡ (k (asked_log sockfd w.log) (Call.close sockfd)).value =
                rw (called.reply, q3.logged, q2.logged, q1.logged) refl in
              let same : announced_clients k v4 ≡ announced_clients k w =
                clients-call called ∙ q3.clients ∙ q2.clients ∙ q1.clients in
              rw (condition-closes_client options q1 q2 q3 called) (
                if_program-Returns (closes_client k sockfd w.log) _ _ v4
                  (λ e.
                    Runs.mono (take-clients queue v4 result.value quiet same)
                      λ value u (value_kept, left, quiet').
                        (value_kept ∙ replied, rw (e, left), quiet'))
                  (λ e. returns (replied, rw (e, same) (omega arith), quiet)))
