-- ===== src/Examples/Headers.antt =====
-- Encoded-words and header values.
use smtpc_cli.HeaderEncoding.{
  validate_encoded_word, validate_inner, validate_text, validate_q_text, validate_b_text, b_loop,
  parse_charset, charset_loop, parse_encoding, is_token_char, is_enctext_char, is_hex_digit,
  is_b64_char, err_q_bad_hex_escape, err_b_bad_padding,
}
use smtpc_cli.HeaderValue.{
  Verdict, validate, validate_loop, step, step_text, step_word, step_handle_fold, counted,
  candidate, locate_encoded_word_candidate, locate_text, locate_close, scan, is_disallowed_control,
  is_wsp, err_fold_not_wsp, err_encoded_word_invalid,
}
use smtpc_cli.HeaderValue.Grammar.{IsValue}
use smtpc_cli.HeaderValue.Exact.{validate-IsValue}
use smtpc_cli.HeaderValue.Fuel.{validate_total}
use smtpc_cli.HeaderValue.Safety.{IsPlaced, IsInLine, validate-IsPlaced, validate-length_line}
use smtpc_cli.Common.Checked.{ok, fail}
use smtpc_cli.Common.{
  arith, ◌≤◌, ◌≡◌, ◌≢◌, ◌↔◌, refl, some, [], ◌∷◌, ◌++◌, Bytes, All, codes, cr, lf, length,
}

abbrev q_word : Bytes
q_word = codes "=?utf-8?Q?a=20b?="

q_word_passes : validate_encoded_word (some q_word) ≡ ok tt
unfolding validate_encoded_word validate_inner validate_text validate_q_text parse_charset
    charset_loop parse_encoding is_token_char is_enctext_char is_hex_digit
q_word_passes = refl

bad_escape : validate_encoded_word (some (codes "=?utf-8?q?a=2?=")) ≡ fail err_q_bad_hex_escape 11
unfolding validate_encoded_word validate_inner validate_text validate_q_text parse_charset
    charset_loop parse_encoding is_token_char is_enctext_char is_hex_digit
bad_escape = refl

bad_padding : validate_encoded_word (some (codes "=?utf-8?B?a=b=?=")) ≡ fail err_b_bad_padding 12
unfolding validate_encoded_word validate_inner validate_text validate_b_text b_loop parse_charset
    charset_loop parse_encoding is_token_char is_b64_char
bad_padding = refl

-- A folded value with an encoded-word.
abbrev folded : Bytes
folded = codes "Hi =?utf-8?Q?a=20b?=" ++ cr ∷ lf ∷ codes " there =?"

folded_passes : validate (some folded) ≡ some (ok tt)
unfolding validate validate_loop step step_text step_word step_handle_fold counted candidate
    locate_encoded_word_candidate locate_text locate_close scan is_disallowed_control is_wsp
    validate_encoded_word validate_inner validate_text validate_q_text parse_charset charset_loop
    parse_encoding is_token_char is_enctext_char is_hex_digit
folded_passes = refl

injected : validate (some (codes "Hi" ++ cr ∷ lf ∷ codes "Bcc: x")) ≡ some (fail err_fold_not_wsp 4)
unfolding validate validate_loop step step_text step_handle_fold counted candidate
    is_disallowed_control is_wsp
injected = refl

bad_word : validate (some (codes "a =?x?Q??=")) ≡ some (fail err_encoded_word_invalid 2)
unfolding validate validate_loop step step_text step_word counted candidate
    locate_encoded_word_candidate locate_text locate_close scan is_disallowed_control
    validate_encoded_word validate_inner validate_text parse_charset charset_loop parse_encoding
    is_token_char
bad_word = refl

validate-IsValue_example :
    (validate (some folded) ≡ some (ok tt)) ↔ (folded ≢ []) × IsValue 0 folded
validate-IsValue_example = validate-IsValue folded

validate_total_example : (r : Verdict) × (validate (some folded) ≡ some r)
validate_total_example = validate_total (some folded)

validate-IsPlaced_example : IsPlaced (codes "Hi =?utf-8?Q?a=20b?=") cr (lf ∷ codes " there =?")
validate-IsPlaced_example =
    validate-IsPlaced folded (codes "Hi =?utf-8?Q?a=20b?=") cr (lf ∷ codes " there =?")
      folded_passes refl

there_IsInLine : All IsInLine (codes "there")
there_IsInLine = ground arith

validate-length_line_test : length (codes "there") ≤ 998
validate-length_line_test =
    validate-length_line folded (codes "Hi =?utf-8?Q?a=20b?=" ++ cr ∷ lf ∷ codes " ")
      (codes "there") (codes " =?") folded_passes refl there_IsInLine
