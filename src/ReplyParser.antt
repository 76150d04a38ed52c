-- ===== src/ReplyParser.antt =====
-- src/smtp_reply_parser.c: one reply line of RFC 5321 Sec 4.2, from a buffer that may not hold the
-- whole line yet. A buffer is the list of the bytes received, `none` is the null pointer, and a
-- scan at index `i` walks the list from `buf[i]` on.
pub mod Wire
pub mod Exact
pub mod Streaming
pub mod Errors
use smtpc_cli.Common.{
  ℕ, zero, suc, ◌+◌, ◌-◌, ◌*◌, Bool, true, false, not, ◌||◌, Option, none, some, List, [], ◌∷◌,
  Bytes, ltb, ◌==◌, if◌then◌else◌, within, cr, lf, drop,
}

-- The members of `smtp_reply_line_err` but OK and INCOMPLETE, which are `ok` and `incomplete` below.
pub data LineErr : Type 0 where
  err_empty err_code_digit err_separator err_text_char err_bare_cr err_bare_lf : LineErr

-- What a parsing function returns: its out parameters, a wait for more bytes, or
-- `smtp_reply_fail(err, offset)`.
pub data Parsed {ℓ} (A : Type ℓ) : Type ℓ where
  ok : A → Parsed A
  incomplete : Parsed A
  fail : LineErr → ℕ → Parsed A

infixl 5 ◌>>=◌
abbrev pub ◌>>=◌ {ℓ κ} : {A : Type ℓ} {B : Type κ} → Parsed A → (A → Parsed B) → Parsed B
ok a >>= f = f a
incomplete >>= f = incomplete
fail e o >>= f = fail e o

pub record ReplyLine : Type 0 where
  pub code : ℕ
  pub is_final : Bool
  pub text_offset : ℕ
  pub text_len : ℕ
  pub consumed : ℕ

unfoldable pub is_text_char : ℕ → Bool
is_text_char c = c == 9 || c == 32 || within 33 126 c

unfoldable pub parse_code : Bytes → Parsed ℕ
parse_code (d0 ∷ d1 ∷ d2 ∷ _) =
    if ltb d0 b'2' || ltb b'5' d0
    then fail err_code_digit 0
    else if ltb d1 b'0' || ltb b'5' d1
    then fail err_code_digit 1
    else if ltb d2 b'0' || ltb b'9' d2
    then fail err_code_digit 2
    else ok ((d0 - b'0') * 100 + (d1 - b'0') * 10 + (d2 - b'0'))
parse_code _ = incomplete

-- `is_final` and `text_start`, from `buf[3]`.
unfoldable pub determine_separator : Bytes → Parsed (Bool × ℕ)
determine_separator (_ ∷ _ ∷ _ ∷ sep ∷ _) =
    if sep == b'-'
    then ok (false, 4)
    else if sep == b' '
    then ok (true, 4)
    else if sep == cr
    then ok (true, 3)
    else fail err_separator 3
determine_separator _ = incomplete

-- The bytes behind the CR at index `i`.
unfoldable pub finish_line : ℕ → ℕ → Bytes → Parsed (ℕ × ℕ)
finish_line text_start i [] = incomplete
finish_line text_start i (c ∷ _) =
    if not (c == lf) then fail err_bare_cr i else ok (i - text_start, i + 2)

-- `text_len` and `consumed`; the list is `buf[i..len)`.
unfoldable pub scan_text_and_crlf : ℕ → ℕ → Bytes → Parsed (ℕ × ℕ)
unfolding finish_line is_text_char
scan_text_and_crlf text_start i [] = incomplete
scan_text_and_crlf text_start i (c ∷ cs) =
    let next = scan_text_and_crlf text_start (i + 1) cs in
    if c == cr
    then finish_line text_start i cs
    else if c == lf
    then fail err_bare_lf i
    else if not (is_text_char c)
    then fail err_text_char i
    else next

unfoldable pub parse_buffer : Bytes → Parsed ReplyLine
unfolding parse_code determine_separator scan_text_and_crlf
parse_buffer [] = incomplete
parse_buffer buf = do
  code ← parse_code buf
  (is_final, text_start) ← determine_separator buf
  (text_len, consumed) ← scan_text_and_crlf text_start text_start (drop text_start buf)
  ok (record {
    code = code;
    is_final = is_final;
    text_offset = text_start;
    text_len = text_len;
    consumed = consumed;
  })

-- `g_reply_last_err` and `g_reply_last_err_offset`; `none` is OK.
pub record LastError : Type 0 where
  pub err : Option LineErr
  pub offset : ℕ

-- What a return leaves in the last error: INCOMPLETE is returned without `smtp_reply_fail`.
abbrev pub recorded {ℓ} : {A : Type ℓ} → Parsed A → LastError → LastError
recorded (ok _) g = record { err = none; offset = 0 }
recorded incomplete g = g
recorded (fail e o) g = record { err = some e; offset = o }

abbrev pub parse_pointer : Option Bytes → Parsed ReplyLine
parse_pointer none = fail err_empty 0
parse_pointer (some buf) = parse_buffer buf

-- `smtp_reply_parse_line`, with the thread's last error before and after.
unfoldable pub parse_line : Option Bytes → LastError → Parsed ReplyLine × LastError
unfolding parse_buffer
parse_line buf g = let r = parse_pointer buf in (r, recorded r g)
