-- ===== src/BodyValidator.antt =====
-- src/smtp_body_validator.c: the content that goes out behind DATA, already dot-stuffed.
pub mod Content
pub mod Exact
pub mod Terminator
use smtpc_cli.Common.Checked.{Checked, ok, fail}
use smtpc_cli.Common.{
  ℕ, ◌+◌, ◌-◌, Bool, true, false, not, ◌&&◌, ◌||◌, Option, some, none, [], ◌∷◌, Bytes, ltb, leb,
  ◌==◌, if◌then◌else◌, cr, lf, get_elem?,
}

-- The members of `smtp_body_err` but OK.
pub data BodyErr : Type 0 where
  err_empty err_bare_cr err_bare_lf err_line_too_long : BodyErr
  err_premature_terminator err_control_char err_8bit_not_allowed : BodyErr

abbrev pub Verdict : Type 0
Verdict = Checked BodyErr (Unit {0})

abbrev pub max_line_len : ℕ
max_line_len = 998

unfoldable pub is_disallowed_control : ℕ → Bool
is_disallowed_control c = if c == cr || c == lf || c == 9 then false else leb c 0x1f || c == 0x7f

-- `body[i] == c`
abbrev pub holds_at : Bytes → ℕ → ℕ → Bool
holds_at body i c = elim (get_elem? body i) [ none ↦ false | some b ↦ b == c ]

unfoldable pub is_bare_dot_line : Bytes → ℕ → ℕ → Bool
is_bare_dot_line body line_start line_end =
    line_end - line_start == 1 && holds_at body line_start b'.'

unfoldable pub check_byte : ℕ → ℕ → Bool → Verdict
unfolding is_disallowed_control
check_byte c i allow_8bit =
    if is_disallowed_control c
    then fail err_control_char i
    else if not allow_8bit && leb 0x80 c
    then fail err_8bit_not_allowed i
    else ok tt

-- At a CR with index `i`; the list is what stands behind it. On success the caller goes on behind
-- the LF, with `i`, `line_start` and `line_len` reset to `cr + 2`, `cr + 2` and 0.
unfoldable pub step_handle_crlf : Bytes → ℕ → ℕ → Bytes → Verdict
unfolding is_bare_dot_line
step_handle_crlf body line_start i [] = fail err_bare_cr i
step_handle_crlf body line_start i (d ∷ _) =
    if not (d == lf)
    then fail err_bare_cr i
    else if is_bare_dot_line body line_start i
    then fail err_premature_terminator line_start
    else ok tt

-- A byte that is no CR: `next` is the rest of the loop.
unfoldable pub step_content : ℕ → ℕ → Bool → ℕ → Verdict → Verdict
unfolding check_byte
step_content c i allow_8bit line_len next =
    if c == lf then fail err_bare_lf i else elim (check_byte c i allow_8bit) [
      | fail e o ↦ fail e o
      | ok _ ↦ if ltb max_line_len (line_len + 1) then fail err_line_too_long (i + 1) else next
    ]

-- The loop at index `i`; the last argument is `body[i..len)`. A CR takes the LF behind it along.
unfoldable pub validate_loop : Bytes → Bool → (line_start line_len i : ℕ) → Bytes → Verdict
unfolding step_handle_crlf step_content
validate_loop body allow_8bit line_start line_len i [] =
    if is_bare_dot_line body line_start i then fail err_premature_terminator line_start else ok tt
validate_loop body allow_8bit line_start line_len i (c ∷ []) =
    let next = validate_loop body allow_8bit line_start (line_len + 1) (i + 1) [] in
    if c == cr
    then step_handle_crlf body line_start i []
    else step_content c i allow_8bit line_len next
validate_loop body allow_8bit line_start line_len i (c ∷ d ∷ rest) =
    let next = validate_loop body allow_8bit line_start (line_len + 1) (i + 1) (d ∷ rest) in
    let next_line = validate_loop body allow_8bit (i + 2) 0 (i + 2) rest in
    if c == cr
    then elim (step_handle_crlf body line_start i (d ∷ rest)) [
      | fail e o ↦ fail e o
      | ok _ ↦ next_line
    ]
    else step_content c i allow_8bit line_len next

-- `smtp_body_validate`
unfoldable pub validate : Option Bytes → Bool → Verdict
unfolding validate_loop
validate none allow_8bit = fail err_empty 0
validate (some []) allow_8bit = fail err_empty 0
validate (some (c ∷ cs)) allow_8bit = validate_loop (c ∷ cs) allow_8bit 0 0 0 (c ∷ cs)
