-- ===== src/AddressValidator/Domain.antt =====
-- src/smtp_address_validator.c: the domain.
use smtpc_cli.AddressValidator.Chars.{
  AddrErr, err_domain_empty, err_domain_invalid_char, err_domain_label_empty,
  err_domain_label_too_long, err_domain_too_long, err_domain_leading_hyphen,
  err_domain_trailing_hyphen, err_domain_literal_empty, err_domain_literal_unterminated,
  err_domain_literal_invalid, domain_label_max_len, domain_max_len, is_alnum, is_dlit,
}
use smtpc_cli.Common.Checked.{Checked, ok, fail}
use smtpc_cli.Common.{
  ℕ, ◌+◌, ◌-◌, Bool, true, false, not, ◌&&◌, ◌||◌, none, some, [], ◌∷◌, Bytes, ltb, ◌==◌,
  if◌then◌else◌, length, drop, get_elem?,
}

pub data DomainState : Type 0 where
  label_start label_char literal literal_done : DomainState

pub record DomainStep : Type 0 where
  pub state : DomainState
  pub label_len : ℕ
  pub domain_len : ℕ

abbrev pub stepped : DomainState → ℕ → ℕ → Checked AddrErr DomainStep
stepped s l d = ok (record { state = s; label_len = l; domain_len = d })

-- `addr[i] == c`
abbrev pub char_at : Bytes → ℕ → ℕ → Bool
char_at addr i c = elim (get_elem? addr i) [ none ↦ false | some b ↦ b == c ]

abbrev pub step_domain_label_start : ℕ → ℕ → ℕ → ℕ → Checked AddrErr DomainStep
step_domain_label_start c i l d =
    if c == b'['
    then stepped literal l d
    else if c == b'.'
    then fail err_domain_label_empty i
    else if c == b'-'
    then fail err_domain_leading_hyphen i
    else if is_alnum c
    then stepped label_char 1 (d + 1)
    else fail err_domain_invalid_char i

-- The two checks at the end of the step on a label.
abbrev pub bounded : ℕ → DomainState → ℕ → ℕ → Checked AddrErr DomainStep
bounded i s l d =
    if ltb domain_label_max_len l
    then fail err_domain_label_too_long i
    else if ltb domain_max_len d
    then fail err_domain_too_long i
    else stepped s l d

abbrev pub step_domain_label_char : Bytes → ℕ → ℕ → ℕ → ℕ → Checked AddrErr DomainStep
step_domain_label_char addr c i l d =
    if c == b'.'
    then (if char_at addr (i - 1) b'-'
        then fail err_domain_trailing_hyphen (i - 1)
        else bounded i label_start 0 (d + 1))
    else if c == b'-' || is_alnum c
    then bounded i label_char (l + 1) (d + 1)
    else fail err_domain_invalid_char i

abbrev pub step_domain_literal : ℕ → ℕ → ℕ → ℕ → ℕ → Checked AddrErr DomainStep
step_domain_literal len c i l d =
    if c == b']'
    then (if d == 0
        then fail err_domain_literal_empty i
        else if not (i == len - 1)
        then fail err_domain_literal_invalid i
        else stepped literal_done l d)
    else if is_dlit c
    then stepped literal l (d + 1)
    else fail err_domain_literal_invalid i

-- The switch on the state; the loop ends before the state LITERAL_DONE sees a character.
unfoldable pub step_domain : Bytes → DomainState → ℕ → ℕ → ℕ → ℕ → Checked AddrErr DomainStep
step_domain addr label_start c i l d = step_domain_label_start c i l d
step_domain addr label_char c i l d = step_domain_label_char addr c i l d
step_domain addr literal c i l d = step_domain_literal (length addr) c i l d
step_domain addr literal_done c i l d = fail err_domain_literal_invalid i

abbrev pub is_done : DomainState → Bool
is_done literal_done = true
is_done _ = false

abbrev pub domain_next :
    Checked AddrErr DomainStep
    → (DomainState → ℕ → ℕ → Checked AddrErr (Unit {0}))
    → Checked AddrErr (Unit {0})
domain_next (fail e o) next = fail e o
domain_next (ok step) next =
    if is_done step.state then ok tt else next step.state step.label_len step.domain_len

-- The switch behind the loop.
unfoldable pub domain_end : Bytes → DomainState → Checked AddrErr (Unit {0})
domain_end addr label_start = fail err_domain_empty (length addr)
domain_end addr label_char =
    if ltb 0 (length addr) && char_at addr (length addr - 1) b'-'
    then fail err_domain_trailing_hyphen (length addr - 1)
    else ok tt
domain_end addr literal = fail err_domain_literal_unterminated (length addr)
domain_end addr literal_done = ok tt

-- The loop of `smtp_addr_parse_domain` at index `i`, over `addr[i..len)`.
unfoldable pub domain_loop :
    Bytes → DomainState → (label_len domain_len i : ℕ) → Bytes → Checked AddrErr (Unit {0})
domain_loop addr s l d i [] = domain_end addr s
domain_loop addr s l d i (c ∷ cs) =
    domain_next (step_domain addr s c i l d) (λ s' l' d'. domain_loop addr s' l' d' (i + 1) cs)

unfoldable pub parse_domain : Bytes → ℕ → Checked AddrErr (Unit {0})
parse_domain addr start = domain_loop addr label_start 0 0 start (drop start addr)
