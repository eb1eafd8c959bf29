-- ===== src/Examples/Requests.antt =====
-- The theorems on requests, addresses and the command line, at concrete inputs.
use sve.Base.{
  ℕ, ◌≡◌, ◌≢◌, length, refl, List, [], ◌∷◌, ◌++◌, some, arith, pos, replicate, if◌then◌else◌, ◌==◌,
}
use sve.Kernel.{Reply, eagain}
use sve.Core.Handover.{int_bytes, comm_addr}
use sve.Core.Handover.Address.{comm_addr-injective}
use sve.Messages.{mark_ready, send_fds, answer_to}
use sve.Messages.Requests.{answer_to-request}
use sve.Kernel.Runs.{Ends}
use sve.Kernel.Stuck.{Stuck}
use sve.Exec.{ld_preload_lib, space, command_size, build_command, main}
use sve.Exec.Command.{Ran, command_line, main-Ran, main-unquoted}
use sve.Exec.Fits.{HoldsString, words, build_command-HoldsString}
use sve.Examples.Kernels.{reply, calm, running}

-- The port 443 has arrived.
abbrev asks_443 : Reply
asks_443 = record (reply (pos 4)) { received = int_bytes (pos 443) }

answer_to-request_example :
    answer_to asks_443 eagain (pos 80)
    ≡ (if pos 443 == pos 1 then mark_ready else send_fds (pos 80))
answer_to-request_example =
    answer_to-request asks_443 eagain (pos 443) (pos 80) (omega arith)
      (record { value = refl; received = refl })

abbrev arguments : List (List ℕ)
arguments = (b'n' ∷ b'c' ∷ []) ∷ (b'-' ∷ b'l' ∷ []) ∷ []

abbrev junk : List ℕ
junk = replicate 59 1

buffer_size : length junk ≡ command_size arguments
unfolding command_size
buffer_size = refl

abbrev short : List ℕ
short = replicate 57 1

short_size : length short ≡ command_size ((b'a' ∷ []) ∷ (b'b' ∷ []) ∷ [])
unfolding command_size
short_size = refl

build_command-HoldsString_example :
    (r : List ℕ × ℕ) × (build_command arguments junk ≡ some r)
    × HoldsString ((ld_preload_lib ++ space) ++ words arguments) (command_size arguments) r.0 r.1
build_command-HoldsString_example = build_command-HoldsString arguments junk buffer_size

comm_addr-injective_example : comm_addr 80 ≢ comm_addr 443
comm_addr-injective_example = comm_addr-injective 80 443 (omega arith) (omega arith) (omega arith)

main-Ran_example :
    Ends (Ran calm (command_line arguments) running) (Stuck calm) (main calm arguments junk running)
main-Ran_example = main-Ran calm arguments junk running (ground arith) buffer_size

-- `nc "a b"` and `nc a b`
main-unquoted_example :
    main calm ((b'a' ∷ b' ' ∷ b'b' ∷ []) ∷ []) short running
    ≡ main calm ((b'a' ∷ []) ∷ (b'b' ∷ []) ∷ []) short running
main-unquoted_example =
    main-unquoted calm (b'a' ∷ []) (b'b' ∷ []) [] short running (refl, tt) (refl, tt) tt short_size
