-- ===== src/Core/Wrappers/Accept.antt =====
-- `accept` of src/core.c: what it records of a connection, and what it does not count.
use sve.Base.{
  ◌≡◌, refl, true, ◌⊎◌, inl, inr, Bool-cases, some, List, [], ◌∷◌, arith, ℤ, minus_one, ◌==◌,
  ==_refl, ==_iff,
}
use sve.State.{
  DsuSocket, non_internal_fd, socket_add_fds, sockets_search_fd, sockets_search_fds,
  sockets_update_fd,
}
use sve.State.Lists.{has-add}
use sve.State.Search.{first_with, owns, search_fds-first_with}
use sve.Kernel.{Kernel, Call, World}
use sve.Kernel.Runs
use sve.Kernel.Runs.{Ends, came_back}
use sve.Kernel.Stuck.{Stuck, sys-Stuck}
use sve.Core.Workers.Termination.{announced_clients}
use sve.Core.Wrappers.{accept}
use sve.Core.Wrappers.Clients.{clients-call}

-- The write behind `accept`.
abbrev recorded : List DsuSocket → ℤ → ℤ → List DsuSocket
recorded xs sockfd session =
    sockets_update_fd xs sockfd λ s. socket_add_fds s session non_internal_fd

add-owns :
    (s : DsuSocket) (fd : ℤ) → owns fd non_internal_fd (socket_add_fds s fd non_internal_fd) ≡ true
unfolding owns socket_add_fds
add-owns s fd = ground (arith, has-add s.fds fd fd, ==_refl fd)

first_with-recorded :
    (xs : List DsuSocket) (sockfd session : ℤ) (s : DsuSocket)
    → sockets_search_fd xs sockfd ≡ some s
    → (n : DsuSocket) × (first_with (owns session non_internal_fd) (recorded xs sockfd session)
        ≡ some n)
unfolding sockets_search_fd sockets_update_fd
first_with-recorded [] sockfd session s e = cc
first_with-recorded (x ∷ xs) sockfd session s e = elim (Bool-cases (x.fd == sockfd)) [
  | inl hit ↦ rw (hit, add-owns x session) (_, refl)
  | inr miss ↦
      let rest = first_with-recorded xs sockfd session s (ground arith) in
      elim (Bool-cases (owns session non_internal_fd x)) [
        | inl mine ↦ rw (miss, mine) (x, refl)
        | inr other ↦ rw (miss, other) rest
      ]
]

-- What `accept` has done.
pub record Accepted (k : Kernel) (sockfd : ℤ) (w : World) (session : ℤ) (v : World) : Type 0 where
  pub clients : announced_clients k v ≡ announced_clients k w
  pub sockets : v.sockets ≡ w.sockets
  pub found :
      (session ≡ minus_one)
      ⊎ ((n : DsuSocket) × (sockets_search_fds v.binds session non_internal_fd ≡ some n))

-- If `accept` on a bound socket comes back with a connection, the connection is found among those of
-- the binds; the count of announced clients is as it was, whether a connection was made or not. It stays
-- away only if the last call is one that the system does not answer, or an exit behind a socket pair
-- that could not be made.
pub accept-Accepted :
    (k : Kernel) (sockfd : ℤ) (s : DsuSocket) (w : World)
    → sockets_search_fd w.binds sockfd ≡ some s
    → Ends (Accepted k sockfd w) (Stuck k) (accept k sockfd w)
unfolding accept
accept-Accepted k sockfd s w e = Runs.bind-Ends (sys-Stuck k (Call.accept sockfd) w) λ r v c.
    elim (Bool-cases (r.value == minus_one)) [
      | inl failed ↦ rw failed (
          came_back (record {
            clients = clients-call c;
            sockets = c.quiet.sockets;
            found = inl ((==_iff r.value minus_one).0 failed);
          }))
      | inr made ↦ rw made (
          came_back (record {
            clients = clients-call c;
            sockets = c.quiet.sockets;
            found = inr (found_in v.binds r.value (rw c.quiet.binds e));
          }))
    ]
  where
    found_in :
        (xs : List DsuSocket) (session : ℤ)
        → sockets_search_fd xs sockfd ≡ some s
        → (n : DsuSocket) × (sockets_search_fds (recorded xs sockfd session) session non_internal_fd
            ≡ some n)
    found_in xs session h =
        rw (search_fds-first_with (recorded xs sockfd session) session non_internal_fd)
          (first_with-recorded xs sockfd session s h)
