-- ===== src/Common/Ledger.antt =====
-- Resources taken and given back, as a list in the order of the calls.
use smtpc_cli.Common.Tests.{if◌then◌else◌}
use mathlib.Core.Bool.{Bool}
use mathlib.Core.List.{List, [], ◌∷◌}
use Prim.Native.Nat.{ℕ, ◌+◌}

pub data Holding (R : Type 0) : Type 0 where
  acquired released : R → Holding R

module _ {R : Type 0} (same : R → R → Bool) (r : R) where
  abbrev pub times_acquired : List (Holding R) → ℕ
  times_acquired [] = 0
  times_acquired (acquired s ∷ hs) = (if same r s then 1 else 0) + times_acquired hs
  times_acquired (released _ ∷ hs) = times_acquired hs

  abbrev pub times_released : List (Holding R) → ℕ
  times_released [] = 0
  times_released (acquired _ ∷ hs) = times_released hs
  times_released (released s ∷ hs) = (if same r s then 1 else 0) + times_released hs
