-- ===== src/Examples/Bodies.antt =====
-- Message contents through the body validator.
use smtpc_cli.Common.{[], ◌∷◌, Bytes, cr, lf, ◌≡◌, ◌≢◌, refl, some, true, false, ◌↔◌}
use smtpc_cli.Common.Checked.{ok, fail}
use smtpc_cli.BodyValidator.{validate, err_8bit_not_allowed, err_premature_terminator, err_bare_lf}
use smtpc_cli.BodyValidator.Content.{IsBody}
use smtpc_cli.BodyValidator.Exact.{validate_iff}
use smtpc_cli.BodyValidator.Terminator.{validate_no_terminator}

-- "hi" CRLF ".."
abbrev hi : Bytes
hi = b'h' ∷ b'i' ∷ cr ∷ lf ∷ b'.' ∷ b'.' ∷ []

validate-hi : validate (some hi) false ≡ ok tt
unfolding validate
validate-hi = refl

validate_dot : validate (some (b'a' ∷ cr ∷ lf ∷ b'.' ∷ [])) true ≡ fail err_premature_terminator 3
unfolding validate
validate_dot = refl

validate_8bit :
    (validate (some (b'a' ∷ 0xe9 ∷ [])) false ≡ fail err_8bit_not_allowed 1)
    × (validate (some (b'a' ∷ 0xe9 ∷ [])) true ≡ ok tt)
unfolding validate
validate_8bit = (refl, refl)

validate-lf : validate (some (b'a' ∷ lf ∷ [])) true ≡ fail err_bare_lf 1
unfolding validate
validate-lf = refl

validate_iff_example : (validate (some hi) false ≡ ok tt) ↔ ((hi ≢ []) × IsBody false hi)
validate_iff_example = validate_iff hi false

validate_no_terminator_example :
    (validate (some (b'a' ∷ cr ∷ lf ∷ b'.' ∷ cr ∷ lf ∷ b'b' ∷ [])) true ≢ ok tt)
    × (validate (some (b'.' ∷ cr ∷ lf ∷ b'b' ∷ [])) true ≢ ok tt)
validate_no_terminator_example = validate_no_terminator true (b'a' ∷ []) (b'b' ∷ [])
