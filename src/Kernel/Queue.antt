-- ===== src/Kernel/Queue.antt =====
-- A pair of connected datagram sockets as a counter: the messages that were sent at one end and not
-- yet taken at the other, read off the record of calls and their replies. Processes that share the
-- pair by `fork` share the record.
use sve.Base.{
  ℕ, suc, ◌-◌, ◌≡◌, ◌&&◌, not, [], ◌∷◌, ltb, if◌then◌else◌, ℤ, ◌==◌, is_positive, is_negative,
}
use sve.Kernel.{World, Reply, Kernel, Call, Log, confirm, dontwait, dontwait_peek}
use sve.Kernel.Runs.{Called}

-- One call: a `send` that succeeds adds a message, a `recv` that gets one takes it, a peek leaves it.
abbrev pub advance : (sender receiver : ℤ) → Call → ℤ → ℕ → ℕ
advance sender receiver (Call.send fd message confirm) value n =
    if fd == sender && not (is_negative value) then suc n else n
advance sender receiver (Call.recv fd len dontwait) value n =
    if fd == receiver && is_positive value then n - 1 else n
advance sender receiver call value n = n

unfoldable pub pending : Kernel → (sender receiver : ℤ) → Log → ℕ
pending k sender receiver [] = 0
pending k sender receiver (call ∷ log) =
    advance sender receiver call (k log call).value (pending k sender receiver log)

-- What the system promises of the pair: a `recv` that does not wait gets a message exactly when one is
-- there, whether it takes it or not.
pub record IsQueue (k : Kernel) (sender receiver : ℤ) : Type 0 where
  pub take :
      (log : Log) (len : ℕ)
      → is_positive (k log (Call.recv receiver len dontwait)).value
        ≡ ltb 0 (pending k sender receiver log)
  pub peek :
      (log : Log) (len : ℕ)
      → is_positive (k log (Call.recv receiver len dontwait_peek)).value
        ≡ ltb 0 (pending k sender receiver log)

-- The counter behind one call.
pub pending-call :
    {k : Kernel} {call : Call} {w : World} {r : Reply} {v : World} (a b : ℤ)
    → Called k call w r v
    → pending k a b v.log ≡ advance a b call r.value (pending k a b w.log)
unfolding pending
pending-call a b c = rw (c.logged, c.reply)

pub peek-call :
    {k : Kernel} {a b : ℤ} {len : ℕ} {w : World} {r : Reply} {v : World}
    → IsQueue k a b
    → Called k (Call.recv b len dontwait_peek) w r v
    → is_positive r.value ≡ ltb 0 (pending k a b w.log)
peek-call {len} {w} queue c = rw c.reply (queue.peek w.log len)

pub take-call :
    {k : Kernel} {a b : ℤ} {len : ℕ} {w : World} {r : Reply} {v : World}
    → IsQueue k a b
    → Called k (Call.recv b len dontwait) w r v
    → is_positive r.value ≡ ltb 0 (pending k a b w.log)
take-call {len} {w} queue c = rw c.reply (queue.take w.log len)
