-- ===== src/AddressValidator/Local.antt =====
-- src/smtp_address_validator.c: the local part. On success a step returns what it stores through
-- its pointers.
use smtpc_cli.AddressValidator.Chars.{
  AddrErr, err_local_empty, err_local_invalid_char, err_local_too_long, err_local_leading_dot,
  err_local_trailing_dot, err_local_consecutive_dots, err_local_unterminated_quote,
  err_local_bad_escape, err_local_bad_quoted_char, err_missing_at, local_part_max_len, is_atext,
  is_qtext,
}
use smtpc_cli.Common.Checked.{Checked, ok, fail}
use smtpc_cli.Common.{
  ℕ, ◌+◌, ◌-◌, Bool, true, false, not, [], ◌∷◌, Bytes, ltb, ◌==◌, if◌then◌else◌, within,
}

pub data LocalState : Type 0 where
  start atom dot quoted_start quoted_char quoted_escape : LocalState

pub record LocalStep : Type 0 where
  pub state : LocalState
  pub local_len : ℕ
  pub found_at : Bool

abbrev pub go_on : LocalState → ℕ → Checked AddrErr LocalStep
go_on s n = ok (record { state = s; local_len = n; found_at = false })

-- `if (*local_len > LOCAL_PART_MAX_LEN)` at the end of a step.
abbrev pub bounded : ℕ → LocalState → ℕ → Checked AddrErr LocalStep
bounded i s n = if ltb local_part_max_len n then fail err_local_too_long i else go_on s n

abbrev pub step_local_start : ℕ → ℕ → ℕ → Checked AddrErr LocalStep
step_local_start c i n =
    if c == 34
    then go_on quoted_start n
    else if c == b'.'
    then fail err_local_leading_dot i
    else if c == b'@'
    then fail err_local_empty i
    else if is_atext c
    then go_on atom 1
    else fail err_local_invalid_char i

abbrev pub step_local_atom : ℕ → ℕ → ℕ → Checked AddrErr LocalStep
step_local_atom c i n =
    if c == b'@'
    then ok (record { state = atom; local_len = n; found_at = true })
    else if c == b'.'
    then bounded i dot (n + 1)
    else if is_atext c
    then bounded i atom (n + 1)
    else fail err_local_invalid_char i

abbrev pub step_local_dot : ℕ → ℕ → ℕ → Checked AddrErr LocalStep
step_local_dot c i n =
    if c == b'.'
    then fail err_local_consecutive_dots i
    else if c == b'@'
    then fail err_local_trailing_dot i
    else if is_atext c
    then bounded i atom (n + 1)
    else fail err_local_invalid_char i

abbrev pub step_local_quoted_start : ℕ → ℕ → ℕ → Checked AddrErr LocalStep
step_local_quoted_start c i n =
    if c == 34
    then fail err_local_empty i
    else if c == 92
    then go_on quoted_escape n
    else if is_qtext c
    then go_on quoted_char (n + 1)
    else fail err_local_bad_quoted_char i

abbrev pub step_local_quoted_char : ℕ → ℕ → ℕ → Checked AddrErr LocalStep
step_local_quoted_char c i n =
    if c == 34
    then go_on atom n
    else if c == 92
    then go_on quoted_escape n
    else if is_qtext c
    then bounded i quoted_char (n + 1)
    else fail err_local_bad_quoted_char i

abbrev pub step_local_quoted_escape : ℕ → ℕ → ℕ → Checked AddrErr LocalStep
step_local_quoted_escape c i n =
    if not (within 32 126 c) then fail err_local_bad_escape i else bounded i quoted_char (n + 1)

-- The switch on the state.
unfoldable pub step_local : LocalState → ℕ → ℕ → ℕ → Checked AddrErr LocalStep
step_local start c i n = step_local_start c i n
step_local atom c i n = step_local_atom c i n
step_local dot c i n = step_local_dot c i n
step_local quoted_start c i n = step_local_quoted_start c i n
step_local quoted_char c i n = step_local_quoted_char c i n
step_local quoted_escape c i n = step_local_quoted_escape c i n

abbrev pub is_quoted : LocalState → Bool
is_quoted quoted_start = true
is_quoted quoted_char = true
is_quoted quoted_escape = true
is_quoted _ = false

-- Behind a step: the index of the "@", or the rest of the loop.
abbrev pub local_next :
    Checked AddrErr LocalStep → ℕ → (LocalState → ℕ → Checked AddrErr ℕ) → Checked AddrErr ℕ
local_next (fail e o) i next = fail e o
local_next (ok step) i next = if step.found_at then ok i else next step.state step.local_len

-- The loop of `smtp_addr_parse_local_part` at index `i`, over `addr[i..len)`; at the end `i` is `len`.
-- The bound ADDRESS_MAX_LEN on `i` follows from the asserted bound on `len`.
unfoldable pub local_loop : LocalState → (local_len i : ℕ) → Bytes → Checked AddrErr ℕ
local_loop s n i [] =
    if is_quoted s
    then fail err_local_unterminated_quote i
    else fail err_missing_at (if ltb 0 i then i - 1 else 0)
local_loop s n i (c ∷ cs) = local_next (step_local s c i n) i (λ s' n'. local_loop s' n' (i + 1) cs)

unfoldable pub parse_local_part : Bytes → Checked AddrErr ℕ
parse_local_part addr = local_loop start 0 0 addr
