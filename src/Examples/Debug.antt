-- ===== src/Examples/Debug.antt =====
-- The texts of the debugging build.
use sve.Base.{ℕ, ◌≡◌, refl, [], ◌∷◌, pos, negsuc, List}
use sve.Core.Debug.{line, log_path}

abbrev tmp : List ℕ
tmp = b'/' ∷ b't' ∷ b'm' ∷ b'p' ∷ []

log_path_test :
    log_path tmp (pos 42)
    ≡ b'/' ∷ b't' ∷ b'm' ∷ b'p' ∷ b'/' ∷ b'd' ∷ b's' ∷ b'u' ∷ b'_' ∷ b'4' ∷ b'2' ∷ b'.' ∷ b'l'
      ∷ b'o' ∷ b'g' ∷ []
unfolding log_path sve.Core.Handover.decimal
log_path_test = refl

line_test :
    line (b'r' ∷ []) (negsuc 0) (pos 7) (pos 7)
    ≡ b'r' ∷ b'-' ∷ b'1' ∷ b' ' ∷ b'(' ∷ b'7' ∷ b'-' ∷ b'7' ∷ b')' ∷ 10 ∷ []
unfolding line sve.Core.Handover.decimal
line_test = refl
