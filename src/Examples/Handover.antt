-- ===== src/Examples/Handover.antt =====
-- The theorems on bind and on the meeting of two versions, at concrete inputs.
use sve.Base.{◌≡◌, ◌==◌, ◌*◌, ◌^◌, refl, none, [], ◌∷◌, arith, ℤ, pos, minus_one}
use sve.State.{DsuSocket, sockets_search_fd}
use sve.Kernel.{Kernel, Call, Log, Reply, World, SockaddrIn, sun, eaddrinuse, eagain, Msghdr}
use sve.Kernel.Runs.{Returns, Ends}
use sve.Kernel.Stuck.{Stuck}
use sve.Communication.{fd_message}
use sve.Communication.RoundTrip.{delivered}
use sve.Messages.{answer_to}
use sve.Core.Handover.{int_bytes, receive_fds}
use sve.Core.Handover.Meeting.{sent, left, next_read, all_read, receive_fds-serve}
use sve.Core.Wrappers.{bind, accept}
use sve.Core.Wrappers.Accept.{Accepted, accept-Accepted}
use sve.Core.Wrappers.Bind.{BindOutcome, bind-BindOutcome}
use sve.Select.{serve}
use sve.Examples.Kernels.{calm, calm-Responsive, running, comm_socket, reply}

-- The newer version's node, which has asked on its socket 6.
abbrev asking : DsuSocket
asking = record comm_socket { fd = pos 5; comfds = []; comfd = pos 6 }

abbrev carrying : Msghdr → ℤ → Reply
carrying m fd = record (reply (pos 4)) {
  message = record { iov = m.iov; control = delivered m.control fd };
}

-- The newer version's system: the address is taken, and the older version's two descriptors arrive as
-- 21 and 22.
abbrev arriving : Log → Reply
arriving (Call.recvmsg _ ∷ log) = carrying (fd_message (pos 4) (pos 80)) (pos 22)
arriving log = carrying (fd_message (pos 3) (pos 80)) (pos 21)

abbrev occupied : Kernel
occupied log (Call.recvmsg fd) = arriving log
occupied log (Call.bind fd (sun addr)) = record (reply minus_one) { errno = eaddrinuse }
occupied log call = calm log call

abbrev request : Reply
request = record (reply (pos 4)) { received = int_bytes (pos 80) }

receive_fds-serve_example :
    Returns
      (λ x v. x ≡ (comm_socket, none))
      (serve calm (pos 7) (answer_to request eagain (pos 80)) comm_socket none running)
    × Returns
        (λ result v.
          (result ≡ (pos 80, record asking { comfd_close = pos 6; comfd = pos 22 }))
          × (v.log
              ≡ Call.dup2 (pos 21) (pos 5)
                ∷ Call.getfl (pos 5)
                ∷ Call.recvmsg (pos 6)
                ∷ Call.recvmsg (pos 6)
                ∷ []))
        (receive_fds occupied (pos 0) asking running)
unfolding ◌==◌ sent left serve answer_to int_bytes sve.Messages.send_both sve.Communication.write_fd
    sve.Kernel.sys
receive_fds-serve_example =
    receive_fds-serve calm occupied comm_socket asking (pos 7) (pos 21) (pos 22) (pos 0) request
      eagain none running running calm-Responsive (λ log. refl) (λ log. refl) refl (omega arith)
      refl (record { value = refl; received = refl }) (omega arith) refl
      (next_read (record { returns = refl; value = refl; iov = refl; control = refl })
        (next_read (record { returns = refl; value = refl; iov = refl; control = refl }) all_read))
      (record { flags = λ log. refl; comes = λ log. refl; succeeds = λ log. refl })

abbrev address : SockaddrIn
address = record { sin_family = 2; sin_port = 80 * 2 ^ 8; sin_addr = 0 }

abbrev with_socket : World
with_socket = record running { sockets = asking ∷ []; binds = [] }

bind-BindOutcome_example :
    Ends
      (BindOutcome occupied
        (pos 0)
        (pos 5)
        address
        with_socket
        (sockets_search_fd with_socket.sockets (pos 5)))
      (Stuck occupied)
      (bind occupied (pos 0) (pos 5) address with_socket)
bind-BindOutcome_example = bind-BindOutcome occupied (pos 0) (pos 5) address with_socket

accept-Accepted_example :
    Ends (Accepted calm (pos 3) running) (Stuck calm) (accept calm (pos 3) running)
unfolding ◌==◌ sve.State.sockets_search_fd
accept-Accepted_example = accept-Accepted calm (pos 3) comm_socket running refl
