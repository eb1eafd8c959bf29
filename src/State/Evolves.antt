-- ===== src/State/Evolves.antt =====
-- How the event handlers may change a node.
use sve.Base.{
  arith, ℕ, minus_one, ◌⊎◌, inl, inr, ◌≡◌, refl, ◌∙◌, Bool, true, false, if◌then◌else◌, ℤ,
}
use sve.State.{DsuSocket, SockaddrUn, internal_fd, socket_add_fds, fd_list_has, socket_remove_fds}
use sve.State.Lists.{has-remove}

-- Connections of other versions may have gone; all else is as it was.
pub record Shrunk (s node : DsuSocket) : Type 0 where
  pub fd : node.fd ≡ s.fd
  pub port : node.port ≡ s.port
  pub fds : node.fds ≡ s.fds
  pub comfd : node.comfd ≡ s.comfd
  pub comfd_close : node.comfd_close ≡ s.comfd_close
  pub readyfd : node.readyfd ≡ s.readyfd
  pub markreadyfd : node.markreadyfd ≡ s.markreadyfd
  pub ready : node.ready ≡ s.ready
  pub comfds : (x : ℤ) → fd_list_has node.comfds x ≡ true → fd_list_has s.comfds x ≡ true

pub Shrunk-refl : (s : DsuSocket) → Shrunk s s
Shrunk-refl s = record {
  fd = refl;
  port = refl;
  fds = refl;
  comfd = refl;
  comfd_close = refl;
  readyfd = refl;
  markreadyfd = refl;
  ready = refl;
  comfds = λ x h. h;
}

pub Shrunk-trans : {s t u : DsuSocket} → Shrunk s t → Shrunk t u → Shrunk s u
Shrunk-trans p q = record {
  fd = q.fd ∙ p.fd;
  port = q.port ∙ p.port;
  fds = q.fds ∙ p.fds;
  comfd = q.comfd ∙ p.comfd;
  comfd_close = q.comfd_close ∙ p.comfd_close;
  readyfd = q.readyfd ∙ p.readyfd;
  markreadyfd = q.markreadyfd ∙ p.markreadyfd;
  ready = q.ready ∙ p.ready;
  comfds = λ x h. p.comfds x (q.comfds x h);
}

pub remove_fds-Shrunk : (s : DsuSocket) (fd : ℤ) → Shrunk s (socket_remove_fds s fd internal_fd)
unfolding socket_remove_fds
remove_fds-Shrunk s fd = record {
  fd = refl;
  port = refl;
  fds = refl;
  comfd = refl;
  comfd_close = refl;
  readyfd = refl;
  markreadyfd = refl;
  ready = refl;
  comfds = λ x h. has-remove s.comfds fd x h;
}

-- What the event handlers may do to a node: the socket, its port and the descriptors that belong to it
-- stay, and a port that the new version serves stays one.
pub record Evolved (s node : DsuSocket) : Type 0 where
  pub fd : node.fd ≡ s.fd
  pub port : node.port ≡ s.port
  pub comfd : node.comfd ≡ s.comfd
  pub readyfd : node.readyfd ≡ s.readyfd
  pub markreadyfd : node.markreadyfd ≡ s.markreadyfd
  pub ready : s.ready ≡ true → node.ready ≡ true
  pub told : (node.comfd_close ≡ s.comfd_close) ⊎ (node.comfd_close ≡ minus_one)

pub Evolved-refl : (s : DsuSocket) → Evolved s s
Evolved-refl s = record {
  fd = refl;
  port = refl;
  comfd = refl;
  readyfd = refl;
  markreadyfd = refl;
  ready = λ h. h;
  told = inl refl;
}

told_trans :
    {a b c : ℤ} → (b ≡ a) ⊎ (b ≡ minus_one) → (c ≡ b) ⊎ (c ≡ minus_one) → (c ≡ a) ⊎ (c ≡ minus_one)
told_trans p (inr e) = inr e
told_trans (inl e) (inl e') = inl (e' ∙ e)
told_trans (inr e) (inl e') = inr (e' ∙ e)

pub Evolved-trans : {s t u : DsuSocket} → Evolved s t → Evolved t u → Evolved s u
Evolved-trans p q = record {
  fd = q.fd ∙ p.fd;
  port = q.port ∙ p.port;
  comfd = q.comfd ∙ p.comfd;
  readyfd = q.readyfd ∙ p.readyfd;
  markreadyfd = q.markreadyfd ∙ p.markreadyfd;
  ready = λ h. q.ready (p.ready h);
  told = told_trans p.told q.told;
}

pub add_fds-Evolved :
    (s : DsuSocket) (fd : ℤ) (flag : ℕ) (addr : SockaddrUn)
    → Evolved s (socket_add_fds (record s { comfd_addr = addr }) fd flag)
unfolding socket_add_fds
add_fds-Evolved s fd flag addr = ground arith

pub remove_fds-Evolved :
    (s : DsuSocket) (fd : ℤ) (flag : ℕ) → Evolved s (socket_remove_fds s fd flag)
unfolding socket_remove_fds
remove_fds-Evolved s fd flag = ground arith

pub told-Evolved : (s : DsuSocket) → Evolved s (record s { comfd_close = minus_one })
told-Evolved s = ground arith

pub ready-Evolved : (s : DsuSocket) → Evolved s (record s { ready = true })
ready-Evolved s = ground arith

-- A request to connect has been accepted, or has not.
pub accepted-Evolved :
    (b : Bool) (s : DsuSocket) (fd : ℤ) (flag : ℕ) (addr : SockaddrUn)
    → Evolved s (if b then s else socket_add_fds (record s { comfd_addr = addr }) fd flag)
accepted-Evolved true s fd flag addr = Evolved-refl s
accepted-Evolved false s fd flag addr = add_fds-Evolved s fd flag addr
