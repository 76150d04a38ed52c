-- ===== src/HeaderValue.antt =====
-- src/smtp_header_value.c: the unstructured value of a header field. A position in the value is its
-- index together with the bytes from there on.
mod Locate
pub mod Grammar
mod Iteration
pub mod Fuel
pub mod Exact
pub mod Safety
use smtpc_cli.HeaderEncoding.{validate_encoded_word}
use smtpc_cli.Common.Checked.{Checked, ok, fail}
use smtpc_cli.Common.{
  ℕ, zero, suc, ◌+◌, ◌-◌, Bool, false, not, ◌&&◌, ◌||◌, Option, some, none, [], ◌∷◌, Bytes, ltb,
  ◌==◌, if◌then◌else◌, within, length, take, cr, lf,
}

-- The members of `smtp_hdrval_err` but OK.
pub data ValueErr : Type 0 where
  err_empty err_control_char err_bare_cr err_bare_lf : ValueErr
  err_fold_not_wsp err_line_too_long err_encoded_word_invalid : ValueErr

abbrev pub Verdict : Type 0
Verdict = Checked ValueErr (Unit {0})

abbrev pub max_line_len : ℕ
max_line_len = 998

unfoldable pub is_wsp : ℕ → Bool
is_wsp c = c == 32 || c == 9

unfoldable pub is_vchar : ℕ → Bool
is_vchar c = within 33 126 c

unfoldable pub is_disallowed_control : ℕ → Bool
unfolding is_wsp is_vchar
is_disallowed_control c = if c == cr || c == lf then false else not (is_vchar c) && not (is_wsp c)

-- How an iteration of the loop ends: the function returns an error, or the loop goes on with `i`,
-- `line_len` and the bytes from `i` on.
pub data Step : Type 0 where
  stop : ValueErr → ℕ → Step
  next : (i line_len : ℕ) → Bytes → Step

-- `smtp_hdrval_step_handle_fold` at a CR with index `i`; the list is what stands behind the CR.
unfoldable pub step_handle_fold : (i line_len : ℕ) → Bytes → Step
step_handle_fold i line_len [] = stop err_bare_cr i
step_handle_fold i line_len (d ∷ []) =
    if not (d == lf) then stop err_bare_cr i else next (i + 2) line_len []
step_handle_fold i line_len (d ∷ e ∷ rest) =
    if not (d == lf)
    then stop err_bare_cr i
    else if not (is_wsp e)
    then stop err_fold_not_wsp (i + 2)
    else next (i + 2) 0 (e ∷ rest)

-- The two inner loops: up to a `?` or a CR, or the end.
unfoldable pub scan : ℕ → Bytes → ℕ × Bytes
scan i [] = (i, [])
scan i (c ∷ cs) =
    let rest = scan (i + 1) cs in if not (c == b'?') && not (c == cr) then rest else (i, c ∷ cs)

-- Behind the encoded text: `*end` and the bytes from there on, or `none` for not found.
unfoldable pub locate_close : ℕ × Bytes → Option (ℕ × Bytes)
locate_close (text_end, q ∷ e ∷ rest) =
    if not (q == b'?') || not (e == b'=') then none else some (text_end + 2, rest)
locate_close (text_end, _) = none

-- Behind the charset: one character, and a `?`.
unfoldable pub locate_text : ℕ × Bytes → Option (ℕ × Bytes)
locate_text (charset_end, q ∷ e ∷ d ∷ rest) =
    if not (q == b'?')
    then none
    else if not (d == b'?')
    then none
    else locate_close (scan (charset_end + 3) rest)
locate_text (charset_end, _) = none

-- `smtp_hdrval_locate_encoded_word_candidate`, with the bytes behind the opening `=?`.
unfoldable pub locate_encoded_word_candidate : ℕ → Bytes → Option (ℕ × Bytes)
locate_encoded_word_candidate start rest = locate_text (scan (start + 2) rest)

-- The test for `=?` in the main loop, and the search behind it.
unfoldable pub candidate : ℕ → Bytes → Option (ℕ × Bytes)
candidate i (c ∷ d ∷ rest) =
    if c == b'=' && d == b'?' then locate_encoded_word_candidate i rest else none
candidate i _ = none

-- The limit of a physical line, behind an advance to `i`.
unfoldable pub counted : (i line_len : ℕ) → Bytes → Step
counted i line_len rest =
    if ltb max_line_len line_len then stop err_line_too_long i else next i line_len rest

-- With a candidate that ends at `end`: the word is what `value[i..end)` holds.
unfoldable pub step_word : (i line_len : ℕ) → Bytes → (end : ℕ) → Bytes → Step
step_word i line_len value end rest = elim (validate_encoded_word (some (take (end - i) value))) [
  | fail _ _ ↦ stop err_encoded_word_invalid i
  | ok _ ↦ counted end (line_len + (end - i)) rest
]

unfoldable pub step_text : (i line_len : ℕ) → ℕ → Bytes → Step
step_text i line_len c cs = elim (candidate i (c ∷ cs)) [
  | some (end, rest) ↦ step_word i line_len (c ∷ cs) end rest
  | none ↦ counted (i + 1) (line_len + 1) cs
]

-- An iteration of the main loop at the byte `c`.
unfoldable pub step : (i line_len : ℕ) → ℕ → Bytes → Step
step i line_len c cs =
    if c == cr
    then step_handle_fold i line_len cs
    else if c == lf
    then stop err_bare_lf i
    else if is_disallowed_control c
    then stop err_control_char i
    else step_text i line_len c cs

-- The main loop, on fuel: `none` means that the fuel ran out.
unfoldable pub validate_loop : (fuel i line_len : ℕ) → Bytes → Option Verdict
validate_loop fuel i line_len [] = some (ok tt)
validate_loop zero i line_len (c ∷ cs) = none
validate_loop (suc fuel) i line_len (c ∷ cs) = elim (step i line_len c cs) [
  | stop e o ↦ some (fail e o)
  | next i' line_len' rest ↦ validate_loop fuel i' line_len' rest
]

-- `smtp_hdrval_validate`; every iteration takes a byte, so the length is fuel enough.
unfoldable pub validate : Option Bytes → Option Verdict
validate none = some (fail err_empty 0)
validate (some []) = some (fail err_empty 0)
validate (some (c ∷ cs)) = validate_loop (length (c ∷ cs)) 0 0 (c ∷ cs)
