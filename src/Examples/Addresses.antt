-- ===== src/Examples/Addresses.antt =====
-- Envelope addresses through the address validator.
use smtpc_cli.AddressValidator.Chars.{is_alnum, is_atext, is_qtext, is_dlit}
use smtpc_cli.AddressValidator.Local.{step_local, local_loop, parse_local_part}
use smtpc_cli.AddressValidator.Domain.{step_domain, domain_end, domain_loop, parse_domain}
use smtpc_cli.AddressValidator.{validate}
use smtpc_cli.AddressValidator.Offsets.{Within, validate-Within}
use smtpc_cli.Common.Checked.{ok}
use smtpc_cli.Common.{ℕ, zero, suc, [], ◌∷◌, ◌++◌, Bytes, codes, ◌≡◌, refl, some, length}

-- `n` times an escaped letter.
abbrev escaped : ℕ → Bytes
escaped zero = []
escaped (suc n) = 92 ∷ b'a' ∷ escaped n

-- A quoted local part of 64 escaped letters, which takes 130 octets.
abbrev long_local : Bytes
long_local = 34 ∷ (escaped 64 ++ 34 ∷ [])

-- An empty literal behind a label, an atom behind a quoted string, a local part of 130 octets.
validate_accepts :
    (validate (some (codes "a@b.[]")) ≡ ok tt)
    × (validate (some (34 ∷ b'a' ∷ 34 ∷ codes "b@c")) ≡ ok tt)
    × (validate (some (long_local ++ codes "@b")) ≡ ok tt)
    × (length long_local ≡ 130)
unfolding validate parse_local_part local_loop step_local parse_domain domain_loop step_domain
    domain_end is_atext is_alnum is_qtext is_dlit
validate_accepts = (refl, refl, refl, refl)

validate-Within_test : Within 6 (validate (some (codes "a@b..c")))
validate-Within_test = validate-Within (codes "a@b..c")
