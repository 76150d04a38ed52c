-- ===== src/HeaderEncoding.antt =====
-- src/smtp_header_encoding.c: one RFC 2047 encoded-word. A position in the word is its index together
-- with the bytes from there on.
pub mod Grammar
mod Texts
mod Parts
mod Inner
pub mod Exact
use smtpc_cli.Common.Checked.{Checked, ok, fail, ◌>>=◌}
use smtpc_cli.Common.{
  ℕ, ◌+◌, ◌-◌, ◌%◌, Bool, true, false, not, ◌&&◌, ◌||◌, Option, some, none, [], ◌∷◌, Bytes, codes,
  ltb, leb, ◌==◌, if◌then◌else◌, within, length, take, get_elem?,
}

-- The members of `smtp_hdr_err` but OK.
pub data HdrErr : Type 0 where
  err_empty err_too_long err_missing_open_delim err_charset_empty : HdrErr
  err_charset_invalid_char err_missing_charset_delim err_encoding_invalid : HdrErr
  err_missing_encoding_delim err_missing_close_delim err_text_empty err_text_invalid_char : HdrErr
  err_q_bad_hex_escape err_b_invalid_char err_b_bad_length err_b_bad_padding : HdrErr

abbrev pub Verdict : Type 0
Verdict = Checked HdrErr (Unit {0})

abbrev pub encoded_word_max_len : ℕ
encoded_word_max_len = 75

abbrev pub is_printable : ℕ → Bool
is_printable c = within 33 126 c

abbrev pub is_one_of : Bytes → ℕ → Bool
is_one_of [] c = false
is_one_of (d ∷ ds) c = c == d || is_one_of ds c

-- The RFC 2045 tspecials, `"` and `\` by their codes.
abbrev pub is_tspecial : ℕ → Bool
is_tspecial c = is_one_of (codes "()<>@,;:/[]?=") c || c == 92 || c == 34

-- The flags of `g_hdr_char_class`: TOKEN, ENCTEXT, HEX and B64.
unfoldable pub is_token_char : ℕ → Bool
is_token_char c = is_printable c && not (is_tspecial c)

unfoldable pub is_enctext_char : ℕ → Bool
is_enctext_char c = is_printable c && not (c == b'?')

unfoldable pub is_hex_digit : ℕ → Bool
is_hex_digit c = within b'0' b'9' c || within b'A' b'F' c || within b'a' b'f' c

unfoldable pub is_b64_char : ℕ → Bool
is_b64_char c =
    within b'A' b'Z' c || within b'a' b'z' c || within b'0' b'9' c || c == b'+' || c == b'/'

-- The loop of `smtp_hdr_parse_charset` at index `i`. The result is `*end` and the bytes behind it.
unfoldable pub charset_loop : ℕ → Bytes → Checked HdrErr (ℕ × Bytes)
charset_loop i [] = fail err_missing_charset_delim i
charset_loop i (c ∷ cs) =
    let rest = charset_loop (i + 1) cs in
    if c == b'?'
    then ok (i, cs)
    else if not (is_token_char c)
    then fail err_charset_invalid_char i
    else rest

unfoldable pub parse_charset : ℕ → Bytes → Checked HdrErr (ℕ × Bytes)
parse_charset i [] = fail err_charset_empty i
parse_charset i (c ∷ cs) = if c == b'?' then fail err_charset_empty i else charset_loop i (c ∷ cs)

-- `*is_base64`, for a character that is an encoding.
abbrev pub encoding_of : ℕ → Option Bool
encoding_of c =
    if c == b'Q' || c == b'q'
    then some false
    else if c == b'B' || c == b'b'
    then some true
    else none

-- The delimiter behind the encoding: `*is_base64`, `*end` and the bytes behind it.
abbrev pub delimited : Option Bool → ℕ → Bytes → Checked HdrErr (Bool × ℕ × Bytes)
delimited none i cs = fail err_encoding_invalid i
delimited (some is_base64) i [] = fail err_missing_encoding_delim (i + 1)
delimited (some is_base64) i (d ∷ ds) =
    if not (d == b'?') then fail err_missing_encoding_delim (i + 1) else ok (is_base64, i + 1, ds)

unfoldable pub parse_encoding : ℕ → Bytes → Checked HdrErr (Bool × ℕ × Bytes)
parse_encoding i [] = fail err_encoding_invalid i
parse_encoding i (c ∷ cs) = delimited (encoding_of c) i cs

-- A character of Q text that starts no escape; `next` is the rest of the loop.
abbrev pub q_char : ℕ → ℕ → Verdict → Verdict
q_char c i next =
    if c == b'='
    then fail err_q_bad_hex_escape i
    else if is_enctext_char c
    then next
    else fail err_text_invalid_char i

-- The loop of `smtp_hdr_validate_q_text` at index `i`, over `word[i..end)`.
unfoldable pub validate_q_text : ℕ → Bytes → Verdict
validate_q_text i [] = ok tt
validate_q_text i (c ∷ []) = q_char c i (ok tt)
validate_q_text i (c ∷ d ∷ []) = let next = validate_q_text (i + 1) (d ∷ []) in q_char c i next
validate_q_text i (c ∷ d ∷ e ∷ rest) =
    let next = validate_q_text (i + 1) (d ∷ e ∷ rest) in
    let behind = validate_q_text (i + 3) rest in
    if c == b'=' && is_hex_digit d && is_hex_digit e then behind else q_char c i next

-- The checks behind the loop of `smtp_hdr_validate_b_text`, at `end`.
abbrev pub b_end : (len pad_count end : ℕ) → Verdict
b_end len pad_count end =
    if ltb 2 pad_count
    then fail err_b_bad_padding (end - pad_count)
    else if not (len % 4 == 0)
    then fail err_b_bad_length end
    else ok tt

-- The loop at index `i`; `len` is the length of the whole text.
unfoldable pub b_loop : (len pad_count i : ℕ) → Bytes → Verdict
b_loop len pad_count i [] = b_end len pad_count i
b_loop len pad_count i (c ∷ cs) =
    let padded = b_loop len (pad_count + 1) (i + 1) cs in
    let next = b_loop len pad_count (i + 1) cs in
    if c == b'='
    then padded
    else if ltb 0 pad_count
    then fail err_b_bad_padding i
    else if not (is_b64_char c)
    then fail err_b_invalid_char i
    else next

unfoldable pub validate_b_text : ℕ → Bytes → Verdict
validate_b_text start text = b_loop (length text) 0 start text

-- Behind the encoding, with the text from `start` up to `end`.
unfoldable pub validate_text : (is_base64 : Bool) → (start end : ℕ) → Bytes → Verdict
validate_text is_base64 start end rest =
    if leb end start
    then fail err_text_empty start
    else if is_base64
    then validate_b_text start (take (end - start) rest)
    else validate_q_text start (take (end - start) rest)

-- `word[i] == c`
abbrev pub char_at : Bytes → ℕ → ℕ → Bool
char_at word i c = elim (get_elem? word i) [ none ↦ false | some b ↦ b == c ]

-- Behind the checks of both delimiters, from index 2 on.
unfoldable pub validate_inner : (len : ℕ) → Bytes → Verdict
validate_inner len rest = do
  (charset_end, rest₁) ← parse_charset 2 rest
  (is_base64, encoding_end, rest₂) ← parse_encoding (charset_end + 1) rest₁
  validate_text is_base64 (encoding_end + 1) (len - 2) rest₂

-- `smtp_hdr_validate_encoded_word`
unfoldable pub validate_encoded_word : Option Bytes → Verdict
validate_encoded_word none = fail err_empty 0
validate_encoded_word (some []) = fail err_empty 0
validate_encoded_word (some (c ∷ [])) = fail err_missing_open_delim 0
validate_encoded_word (some (c ∷ d ∷ rest)) =
    let word = c ∷ d ∷ rest in
    let len = length word in
    if ltb encoded_word_max_len len
    then fail err_too_long encoded_word_max_len
    else if not (c == b'=') || not (d == b'?')
    then fail err_missing_open_delim 0
    else if not (char_at word (len - 2) b'?') || not (char_at word (len - 1) b'=')
    then fail err_missing_close_delim (len - 2)
    else validate_inner len rest
