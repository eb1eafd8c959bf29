-- ===== src/Messages/Requests.antt =====
-- What a version asks of the other, and how the other reads it: a request is the port number, the ready
-- signal is the number 1.
use sve.Base.{
  ℕ, ◌/◌, ◌%◌, ◌^◌, ◌<◌, ◌≡◌, ap, ◌∙◌, [], ◌∷◌, arith, if◌then◌else◌, ℤ, pos, minus_one, ◌==◌,
}
use sve.Kernel.{Reply, Errno}
use sve.Communication.{word32, int32}
use sve.Communication.RoundTrip.{IsInt32, word32-bound, int32-word32}
use sve.Core.Handover.{int_bytes}
use sve.Messages.{from_memory, buffer_int, ignore, mark_ready, send_fds, answer_to, is_eagain}

memory_bytes :
    (w : ℕ)
    → w < 2 ^ 32
    → from_memory ((w % 2 ^ 8) ∷ (w / 2 ^ 8 % 2 ^ 8) ∷ (w / 2 ^ 16 % 2 ^ 8) ∷ (w / 2 ^ 24) ∷ []) ≡ w
unfolding from_memory
memory_bytes w h = omega arith

-- An int that is sent as its bytes is read back.
pub buffer_int-int_bytes : (n : ℤ) → IsInt32 n → buffer_int (int_bytes n) ≡ n
unfolding buffer_int int_bytes
buffer_int-int_bytes n h = ap int32 (memory_bytes (word32 n) (word32-bound n h)) ∙ int32-word32 n h

-- What `recv` reports where the whole of the int has arrived.
pub record Receives (r : Reply) (n : ℤ) : Type 0 where
  pub value : r.value ≡ pos 4
  pub received : r.received ≡ int_bytes n

-- A request for a port other than 1 is answered by the descriptors with the port of the socket that is
-- asked; the ready signal, and a request for port 1, mark the socket as served by the new version.
pub answer_to-request :
    (r : Reply) (errno : Errno) (asked own : ℤ)
    → IsInt32 asked
    → Receives r asked
    → answer_to r errno own ≡ (if asked == pos 1 then mark_ready else send_fds own)
unfolding answer_to ◌==◌
answer_to-request r errno asked own range got =
    rw (got.value, got.received, buffer_int-int_bytes asked range)

-- A receive that fails is answered by nothing if it would have had to wait, and else by the
-- descriptors with port -1.
pub answer_to-failure :
    (r : Reply) (errno : Errno) (own : ℤ)
    → r.value ≡ minus_one
    → answer_to r errno own ≡ (if is_eagain errno then ignore else send_fds minus_one)
unfolding answer_to ◌==◌
answer_to-failure r errno own failed = rw failed
