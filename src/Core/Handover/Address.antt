-- ===== src/Core/Handover/Address.antt =====
-- The address on which the versions of one port meet.
use mathlib.Core.List.{append_assoc}
use sve.Base.{
  ℕ, zero, suc, ◌+◌, ◌-◌, ◌*◌, ◌/◌, ◌%◌, ◌^◌, ◌<◌, ◌≤◌, ◌≡◌, ◌≢◌, refl, ap, ◌∙◌, sym, Bool, false,
  List, [], ◌∷◌, ◌++◌, arith, if◌then◌else◌, ltb, length, replicate, drop, Bool-cases, inl, inr,
  lt→ltb, take-append_le, length-append,
}
use sve.State.{SockaddrUn}
use sve.Core.Handover.{decimal, comm_suffix, comm_path, comm_addr}

-- The bytes of a text up to a byte that is no digit, as a number.
abbrev is_digit : ℕ → Bool
is_digit b = if ltb b b'0' then false else ltb b 58

parse : ℕ → List ℕ → ℕ
parse acc [] = acc
parse acc (b ∷ bs) = if is_digit b then parse (acc * 10 + (b - b'0')) bs else acc

-- 10 ^ fuel
abbrev pub limit : ℕ → ℕ
limit zero = 1
limit (suc fuel) = 10 * limit fuel

digit-parse :
    (acc n : ℕ) (rest : List ℕ)
    → parse acc ((b'0' + n % 10) ∷ rest) ≡ parse (acc * 10 + n % 10) rest
unfolding parse
digit-parse acc n rest = ground arith

stop-parse : (acc : ℕ) (rest : List ℕ) → parse acc (b'.' ∷ rest) ≡ acc
unfolding parse
stop-parse acc rest = refl

-- The digits of a number are read back as that number.
parse-decimal :
    (fuel n : ℕ) (rest : List ℕ)
    → n < limit (suc fuel)
    → parse 0 (decimal (suc fuel) n ++ rest) ≡ parse n rest
unfolding decimal
parse-decimal zero n rest h =
    rw (lt→ltb n 10 (omega arith)) (digit-parse 0 n rest ∙ ap (λ m. parse m rest) (omega arith))
parse-decimal (suc fuel) n rest h = elim (Bool-cases (ltb n 10)) [
  | inl small ↦ rw small (digit-parse 0 n rest ∙ ap (λ m. parse m rest) (ground arith))
  | inr large ↦
      rw (large, append_assoc (decimal (suc fuel) (n / 10)) ((b'0' + n % 10) ∷ []) rest)
        (parse-decimal fuel (n / 10) ((b'0' + n % 10) ∷ rest) (omega arith)
          ∙ digit-parse (n / 10) n rest
          ∙ ap (λ m. parse m rest) (omega arith))
]

length-decimal : (fuel n : ℕ) → length (decimal fuel n) ≤ fuel
unfolding decimal
length-decimal zero n = omega arith
length-decimal (suc fuel) n =
    let rest = decimal fuel (n / 10) in
    ground (arith, length-append rest ((b'0' + n % 10) ∷ []), length-decimal fuel (n / 10))

-- The port of an address: the digits behind the first nine bytes.
port_of : List ℕ → ℕ
port_of path = parse 0 (drop 9 path)

port_of-comm_path : (port : ℕ) → port < 2 ^ 16 → port_of (comm_path port) ≡ port
unfolding port_of comm_path
port_of-comm_path port h =
    rw
      (take-append_le 99 (decimal 5 port) (comm_suffix ++ replicate 108 0)
        (omega (arith, length-decimal 5 port)))
      (let e : 99 - length (decimal 5 port) ≡ suc (98 - length (decimal 5 port)) =
          omega (arith, length-decimal 5 port) in
        rw e (parse-decimal 4 port _ (omega arith) ∙ stop-parse port _))

-- Versions of different 16-bit ports never meet: the ports have different addresses.
pub comm_addr-injective : (p q : ℕ) → p < 2 ^ 16 → q < 2 ^ 16 → p ≢ q → comm_addr p ≢ comm_addr q
unfolding comm_addr
comm_addr-injective p q hp hq different e = different (
    sym (port_of-comm_path p hp)
    ∙ ap (λ (a : SockaddrUn). port_of a.sun_path) e
    ∙ port_of-comm_path q hq)
