-- ===== src/AddressValidator/Chars.antt =====
-- src/smtp_address_validator.c: the errors, the bounds and the classes of characters.
use smtpc_cli.Common.{ℕ, Bool, false, not, ◌&&◌, ◌||◌, ◌==◌, within, [], ◌∷◌, Bytes, codes}

-- The members of `smtp_addr_err` but OK.
pub data AddrErr : Type 0 where
  err_empty err_local_empty err_local_invalid_char err_local_too_long : AddrErr
  err_local_leading_dot err_local_trailing_dot err_local_consecutive_dots : AddrErr
  err_local_unterminated_quote err_local_bad_escape err_local_bad_quoted_char : AddrErr
  err_missing_at err_multiple_at err_domain_empty err_domain_invalid_char : AddrErr
  err_domain_label_empty err_domain_label_too_long err_domain_too_long : AddrErr
  err_domain_leading_hyphen err_domain_trailing_hyphen err_domain_literal_empty : AddrErr
  err_domain_literal_unterminated err_domain_literal_invalid err_total_too_long : AddrErr

abbrev pub local_part_max_len : ℕ
local_part_max_len = 64

abbrev pub domain_label_max_len : ℕ
domain_label_max_len = 63

abbrev pub domain_max_len : ℕ
domain_max_len = 255

abbrev pub address_max_len : ℕ
address_max_len = 256

-- The flags ALPHA and DIGIT of `g_smtp_addr_char_class`.
unfoldable pub is_alnum : ℕ → Bool
is_alnum c = within b'A' b'Z' c || within b'a' b'z' c || within b'0' b'9' c

abbrev pub is_one_of : Bytes → ℕ → Bool
is_one_of [] c = false
is_one_of (d ∷ ds) c = c == d || is_one_of ds c

-- The flag ATEXT.
unfoldable pub is_atext : ℕ → Bool
unfolding is_alnum
is_atext c = is_alnum c || is_one_of (codes "!#$%&'*+-/=?^_`{|}~") c

-- The flag QTEXT.
unfoldable pub is_qtext : ℕ → Bool
is_qtext c = within 32 126 c && not (c == 34) && not (c == 92)

-- The flag DLIT.
unfoldable pub is_dlit : ℕ → Bool
is_dlit c = within 33 126 c && not (c == b'[') && not (c == b']') && not (c == 92)
