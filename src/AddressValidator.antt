-- ===== src/AddressValidator.antt =====
-- src/smtp_address_validator.c: an envelope address, whose states and steps are in Local and Domain.
pub mod Chars
pub mod Local
pub mod Domain
pub mod Printable
pub mod Offsets
use smtpc_cli.AddressValidator.Chars.{AddrErr, err_empty, err_total_too_long, address_max_len}
use smtpc_cli.AddressValidator.Local.{parse_local_part}
use smtpc_cli.AddressValidator.Domain.{parse_domain}
use smtpc_cli.Common.Checked.{Checked, ok, fail}
use smtpc_cli.Common.{ℕ, ◌+◌, Option, none, some, [], ◌∷◌, Bytes, ltb, if◌then◌else◌, length}

abbrev pub domain_behind : Bytes → Checked AddrErr ℕ → Checked AddrErr (Unit {0})
domain_behind addr (fail e o) = fail e o
domain_behind addr (ok at_index) = parse_domain addr (at_index + 1)

-- `smtp_address_validate`
unfoldable pub validate : Option Bytes → Checked AddrErr (Unit {0})
validate none = fail err_empty 0
validate (some []) = fail err_empty 0
validate (some (c ∷ cs)) =
    if ltb address_max_len (length (c ∷ cs))
    then fail err_total_too_long address_max_len
    else domain_behind (c ∷ cs) (parse_local_part (c ∷ cs))
