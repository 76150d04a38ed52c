-- ===== src/Common/Checked.antt =====
-- What the validators return: success, or `*_fail(err, offset)`, which also stores the two in the
-- thread's last error. A success stores OK and the offset 0, so the result determines both.
use Prim.Native.Nat.{ℕ}
use mathlib.Core.Path.{◌≡◌, refl}
use mathlib.Core.Logic.{◌⊎◌, inl, inr}
use mathlib.Core.Option.{Option, none, some}

pub data Checked {ℓ κ} (E : Type ℓ) (A : Type κ) : Type (ℓ ⊔ κ) where
  ok : A → Checked E A
  fail : E → ℕ → Checked E A

module _ {ℓ κ} {E : Type ℓ} {A : Type κ} where
  -- `*_get_last_error_offset()` behind a return.
  abbrev pub last_offset : Checked E A → ℕ
  last_offset (ok _) = 0
  last_offset (fail _ o) = o

  -- The last error's code behind a return, `none` for OK.
  abbrev pub last_err : Checked E A → Option E
  last_err (ok _) = none
  last_err (fail e _) = some e

  pub Checked-cases :
      (r : Checked E A) → ((a : A) × (r ≡ ok a)) ⊎ ((e : E) × (o : ℕ) × (r ≡ fail e o))
  Checked-cases (ok a) = inl (a, refl)
  Checked-cases (fail e o) = inr (e, o, refl)

infixl 5 ◌>>=◌
abbrev pub ◌>>=◌ {ℓ κ μ} :
    {E : Type ℓ} {A : Type κ} {B : Type μ} → Checked E A → (A → Checked E B) → Checked E B
ok a >>= f = f a
fail e o >>= f = fail e o
