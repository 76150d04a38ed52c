-- ===== src/ReplyParser/Wire.antt =====
-- The reply lines of RFC 5321 Sec 4.2 as data, their bytes on the wire, and what the parser of
-- src/smtp_reply_parser.c reports of each. The grammar is the one in include/smtp_reply_parser.h.
use smtpc_cli.Common.{
  ℕ, ◌+◌, ◌-◌, ◌*◌, ◌≤◌, ◌≡◌, ◌⊎◌, true, false, [], ◌∷◌, ◌++◌, Bytes, cr, lf, length, All,
}
use smtpc_cli.ReplyParser.{ReplyLine}

-- What stands behind the code: "-" and a text, SP and a text, or nothing.
pub data Tail : Type 0 where
  more : Bytes → Tail
  last : Bytes → Tail
  bare : Tail

pub record Line : Type 0 where
  pub d0 : ℕ
  pub d1 : ℕ
  pub d2 : ℕ
  pub tail : Tail

abbrev pub tail_bytes : Tail → Bytes
tail_bytes (more text) = b'-' ∷ text
tail_bytes (last text) = b' ' ∷ text
tail_bytes bare = []

abbrev pub crlf : Bytes → Bytes
crlf rest = cr ∷ lf ∷ rest

-- The line's bytes, with the bytes that follow it.
abbrev pub wire : Line → Bytes → Bytes
wire l rest = l.d0 ∷ l.d1 ∷ l.d2 ∷ (tail_bytes l.tail ++ crlf rest)

-- HTAB / %x20-7E
abbrev pub IsText : ℕ → Type 0
IsText c = (c ≡ 9) ⊎ ((32 ≤ c) × (c ≤ 126))

abbrev pub IsTail : Tail → Type 0
IsTail (more text) = All IsText text
IsTail (last text) = All IsText text
IsTail bare = Unit

-- Reply-code = %x32-35 %x30-35 %x30-39
pub record IsLine (l : Line) : Type 0 where
  pub lo0 : b'2' ≤ l.d0
  pub hi0 : l.d0 ≤ b'5'
  pub lo1 : b'0' ≤ l.d1
  pub hi1 : l.d1 ≤ b'5'
  pub lo2 : b'0' ≤ l.d2
  pub hi2 : l.d2 ≤ b'9'
  pub tail_ok : IsTail l.tail

abbrev pub code_of : Line → ℕ
code_of l = (l.d0 - b'0') * 100 + (l.d1 - b'0') * 10 + (l.d2 - b'0')

-- The report on a line: a reader of the buffer finds the text at `text_offset`.
abbrev pub report_tail : ℕ → Tail → ReplyLine
report_tail code (more text) = record {
  code = code;
  is_final = false;
  text_offset = 4;
  text_len = length text;
  consumed = length text + 6;
}
report_tail code (last text) = record {
  code = code;
  is_final = true;
  text_offset = 4;
  text_len = length text;
  consumed = length text + 6;
}
report_tail code bare = record {
  code = code;
  is_final = true;
  text_offset = 3;
  text_len = 0;
  consumed = 5;
}

abbrev pub report : Line → ReplyLine
report l = report_tail (code_of l) l.tail
