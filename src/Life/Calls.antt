-- ===== src/Life/Calls.antt =====
-- What each call of the application does to the invariant: the functions that src/core.c and
-- src/event_handlers put in place of the system's.
use sve.Base.{
  ℕ, ◌^◌, ◌<◌, ◌≡◌, refl, ◌∙◌, Bool, true, false, arith, Option, none, some, [], ◌∷◌, if◌then◌else◌,
  ℤ, pos, minus_one, ◌==◌, is_positive,
}
use sve.State.{
  DsuSocket, non_internal_fd, socket_add_fds, socket_list_init, sockets_search_fd,
  sockets_update_fd,
}
use sve.State.Lists.{sockets_add-append}
use sve.State.Evolves.{add_fds-Evolved}
use sve.Kernel.{Log, World, Kernel, Prog, SockaddrIn, SockOption, so_type, so_acceptconn, so_domain}
use sve.Kernel.Runs
use sve.Kernel.Runs.{Ends, came_back, Quiet}
use sve.Kernel.Frame.{loose, embed, Frame, Quiet-SameState, Gives, Any, gives, chain, calls, branch}
use sve.Core.Wrappers.{
  ntohs, register, socket, bind, accept, accept4, close, socket_option, signal, sigaction,
}
use sve.Core.Wrappers.Bind.{
  Origin, inherited, refused, bound, BindOutcome, unknown, known, moved, bind-BindOutcome,
}
use sve.Forall.Kept.{Served, settling}
use sve.Life.{IsSound, Progress, Fresh, HasPort}
use sve.Life.Growth.{
  Grown-refl, Grown-append, AllEvolved-Grown, All-AllEvolved, All-add, All-remove, search-All,
  update-AllEvolved, Progress-refl, Progress-trans,
}

-- The lists go on, and the invariant stays.
abbrev pub Lives : World → World → Type 0
Lives w v = Progress w v × (IsSound w → IsSound v)

pub Lives-refl : (w : World) → Lives w w
Lives-refl w = (Progress-refl w, λ sound. sound)

pub Lives-trans : {u v w : World} → Lives u v → Lives v w → Lives u w
Lives-trans (p, f) (q, g) = (Progress-trans p q, λ sound. g (f sound))

pub Quiet-living : {w v : World} → Quiet w v → Lives w v
Quiet-living {w} {v} q = (
  record { binds = rw q.binds (Grown-refl w.binds); queues = (Quiet-SameState q).1 },
  λ sound. record {
    sockets = rw q.sockets sound.sockets;
    binds = rw q.binds sound.binds;
    settled = q.correction ∙ sound.settled;
  },
)

abbrev pub living : (k : Kernel) → Frame k
living k = record {
  Rel = Lives;
  same = Lives-refl;
  then_after = Lives-trans;
  called = λ e c. Quiet-living c.quiet;
  Stays = λ _. Unit;
  stays = λ _. tt;
}

Served-living : {w v : World} → Served w v → (w.correction ≡ 0 → v.correction ≡ 0) → Lives w v
Served-living served settles = (
  record { binds = AllEvolved-Grown served.binds; queues = served.queues },
  λ sound. record {
    sockets = rw served.sockets sound.sockets;
    binds = All-AllEvolved served.binds sound.binds;
    settled = settles sound.settled;
  },
)

pub waits-living :
    (k : Kernel) {A : Type 0} {m : Prog A}
    → Gives (loose (settling k)) Any m
    → Gives (living k) Any m
waits-living k =
    embed (loose (settling k)) (living k) (λ w v (served, settles). Served-living served settles)
      λ v q. q

fresh :
    (uninit : DsuSocket) (fd : ℤ)
    → is_positive fd ≡ true
    → Fresh (record (socket_list_init uninit) { fd = fd })
unfolding socket_list_init
fresh uninit fd positive = record {
  fd = positive;
  port = refl;
  fds = refl;
  comfds = refl;
  comfd = refl;
  comfd_close = refl;
  ready = refl;
}

register-living :
    (k : Kernel) (b : Bool) (uninit : DsuSocket) (fd : ℤ) (w : World)
    → is_positive fd ≡ b
    → Lives w (if b then register k uninit fd w else w)
unfolding register
register-living k true uninit fd w e = (
  record { binds = Grown-refl w.binds; queues = ground arith },
  λ sound. record {
    sockets = All-add Fresh w.sockets _ sound.sockets (fresh uninit fd e);
    binds = sound.binds;
    settled = sound.settled;
  },
)
register-living k false uninit fd w e = Lives-refl w

recorded-living :
    (b : Bool) (sockfd session : ℤ) (w : World)
    → Lives w (
        if b then w else record w {
          binds = sockets_update_fd w.binds sockfd λ s. socket_add_fds s session non_internal_fd;
        })
recorded-living true sockfd session w = Lives-refl w
recorded-living false sockfd session w =
    let updated =
      update-AllEvolved w.binds sockfd (λ s. socket_add_fds s session non_internal_fd)
        λ s. add_fds-Evolved s session non_internal_fd s.comfd_addr in
    (
      record { binds = AllEvolved-Grown updated; queues = ground arith },
      λ sound. record {
        sockets = sound.sockets;
        binds = All-AllEvolved updated sound.binds;
        settled = sound.settled;
      },
    )

ntohs-small : (n : ℕ) → ntohs n < 2 ^ 16
unfolding ntohs
ntohs-small n = omega arith

-- The node has passed from the sockets to the binds.
moved-living :
    (sockfd : ℤ) (addr : SockaddrIn) (w : World) (n node : DsuSocket)
    → sockets_search_fd w.sockets sockfd ≡ some n
    → (node.fd ≡ n.fd) × (node.port ≡ pos (ntohs addr.sin_port))
    → Lives w (moved w node)
moved-living sockfd addr w n node e (same, port) = (
  record { binds = Grown-append w.binds (node ∷ []); queues = ground arith },
  λ sound. record {
    sockets = All-remove Fresh w.sockets node.fd sound.sockets;
    binds = rw (← sockets_add-append w.binds node) (
        All-add HasPort w.binds node sound.binds (record {
          fd = rw same (search-All Fresh w.sockets sockfd n sound.sockets e).fd;
          number = ntohs addr.sin_port;
          port = port;
          small = ntohs-small addr.sin_port;
        }));
    settled = sound.settled;
  },
)

-- Where the socket comes from does not change what is known of the node.
module _ {k : Kernel} {uninit sockfd : ℤ} {addr : SockaddrIn} where
  Origin-fd :
      {s node : DsuSocket} {log : Log} {w : World} {used : Bool} {result : ℤ}
      → Origin k uninit sockfd addr s node log w used result
      → (node.fd ≡ s.fd) × (node.port ≡ s.port)
  Origin-fd (inherited _ _ adopted) = rw adopted.changed (refl, refl)
  Origin-fd (refused _ _ e _) = rw e (refl, refl)
  Origin-fd (bound e _) = rw e (refl, refl)

  BindOutcome-living :
      {w v : World} {result : ℤ} (o : Option DsuSocket)
      → sockets_search_fd w.sockets sockfd ≡ o
      → BindOutcome k uninit sockfd addr w o result v
      → Lives w v
  BindOutcome-living none e unknown = Quiet-living (ground arith)
  BindOutcome-living {w} {v} (some n) e (known b) =
      Lives-trans (moved-living sockfd addr w n b.node e (Origin-fd b.origin))
        (Quiet-living b.passed)

module _ (k : Kernel) where
  pub bind-living :
      (uninit sockfd : ℤ) (addr : SockaddrIn) → Gives (living k) Any (bind k uninit sockfd addr)
  bind-living uninit sockfd addr w =
      Runs.mono-Ends (bind-BindOutcome k uninit sockfd addr w)
        (λ result v outcome. (tt, BindOutcome-living _ refl outcome)) λ v q. tt

  pub socket-living :
      (uninit : DsuSocket) (domain type protocol : ℤ)
      → Gives (living k) Any (socket k uninit domain type protocol)
  unfolding socket
  socket-living uninit domain type protocol =
      chain (living k) (calls (living k) _ refl)
        λ r _ w. came_back (tt, register-living k (is_positive r.value) uninit r.value w refl)

  pub accept-living : (sockfd : ℤ) → Gives (living k) Any (accept k sockfd)
  unfolding accept
  accept-living sockfd = chain (living k) (calls (living k) _ refl) λ session _ w.
      came_back (tt, recorded-living (session.value == minus_one) sockfd session.value w)

  pub accept4-living : (sockfd flags : ℤ) → Gives (living k) Any (accept4 k sockfd flags)
  unfolding accept4
  accept4-living sockfd flags w =
      chain (living k) (calls (living k) _ refl)
        (λ acc _.
          branch (living k) (is_positive acc.value)
            (chain (living k) (calls (living k) _ refl) λ sent _. gives (living k) tt)
            (gives (living k) tt))
        w

  option-living :
      (sockfd : ℤ) (option : SockOption) → Gives (living k) Any (socket_option k sockfd option)
  unfolding socket_option
  option-living sockfd option =
      chain (living k) (calls (living k) _ refl) λ r _. gives (living k) tt

  pub close-living : (sockfd : ℤ) → Gives (living k) Any (close k sockfd)
  unfolding close
  close-living sockfd w =
      chain (living k) (option-living sockfd so_type)
        (λ (r, type) _. chain (living k) (option-living sockfd so_acceptconn) λ (r', listen) _.
          chain (living k) (option-living sockfd so_domain) λ (r'', domain) _.
            chain (living k) (calls (living k) _ refl) λ result _.
              branch (living k) _
                (chain (living k) (calls (living k) _ refl) λ taken _. gives (living k) tt)
                (gives (living k) tt))
        w

  pub signal-living : (signum : ℕ) → Gives (living k) Any (signal k signum)
  unfolding signal
  signal-living signum = chain (living k) (calls (living k) _ refl) λ r _. gives (living k) tt

  pub sigaction-living : (signum : ℕ) → Gives (living k) Any (sigaction k signum)
  unfolding sigaction
  sigaction-living signum =
      branch (living k) _ (gives (living k) tt)
        (chain (living k) (calls (living k) _ refl) λ r _. gives (living k) tt)
