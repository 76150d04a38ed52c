-- ===== src/Capabilities/Size.antt =====
-- The SIZE parameter is the decimal number that it spells, or no limit where it does not fit.
use smtpc_cli.Common.{ℕ, zero, suc, ◌+◌, ◌-◌, ◌*◌, ◌≤◌, [], ◌∷◌, Bytes}

abbrev pub IsDigit : ℕ → Type 0
IsDigit c = (b'0' ≤ c) × (c ≤ b'9')

-- The text does not go on with a digit.
abbrev pub Stops : Bytes → Type 0
Stops [] = Unit
Stops (c ∷ _) = ¬ IsDigit c

-- The number that digits spell behind the number `n`.
abbrev pub value : ℕ → Bytes → ℕ
value n [] = n
value n (c ∷ cs) = value (n * 10 + (c - b'0')) cs

abbrev pub spaces : ℕ → Bytes → Bytes
spaces zero text = text
spaces (suc n) text = b' ' ∷ spaces n text
