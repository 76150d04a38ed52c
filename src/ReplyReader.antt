-- ===== src/ReplyReader.antt =====
-- src/smtp_reply_reader.c: a whole reply, lines with one code up to the first final line.
-- The assertion `max_lines > 0` is a precondition: its callers pass the constant 64.
pub mod Lines
pub mod Exact
use smtpc_cli.ReplyParser.{LastError, Parsed, ReplyLine, parse_line, recorded}
use smtpc_cli.Common.{
  ℕ, zero, suc, ◌+◌, Bool, true, false, not, ◌&&◌, Option, some, none, Bytes, ◌==◌, if◌then◌else◌,
  drop,
}

-- The members of `smtp_reply_read_err` but OK and INCOMPLETE.
pub data ReadErr : Type 0 where
  err_line err_code_mismatch err_too_many_lines : ReadErr

pub record Reply : Type 0 where
  pub code : ℕ
  pub consumed : ℕ
  pub line_count : ℕ

pub data Outcome : Type 0 where
  ok : Reply → Outcome
  incomplete : Outcome
  fail : ReadErr → Outcome

-- `buf + n`; the null pointer is only ever moved by 0.
abbrev pub advance : ℕ → Option Bytes → Option Bytes
advance n none = none
advance n (some buf) = some (drop n buf)

-- The loop with `left` rounds to go; `buf` is the pointer `buf + offset`. The second part of the
-- result is the line parser's last error.
unfoldable pub read_loop : (left : ℕ) → ℕ → ℕ → ℕ → Option Bytes → LastError → Outcome × LastError
read_loop zero line_count first_code offset buf g = (fail err_too_many_lines, g)
read_loop (suc left) line_count first_code offset buf g = elim (parse_line buf g).0 [
  | Parsed.incomplete ↦ (incomplete, (parse_line buf g).1)
  | Parsed.fail _ _ ↦ (fail err_line, (parse_line buf g).1)
  | Parsed.ok line ↦
      let first = if line_count == 0 then line.code else first_code in
      let end = offset + line.consumed in
      let next =
        read_loop left (line_count + 1) first end (advance line.consumed buf)
          (parse_line buf g).1 in
      if not (line_count == 0) && not (line.code == first_code)
      then (fail err_code_mismatch, (parse_line buf g).1)
      else if line.is_final
      then (
        ok (record { code = first; consumed = end; line_count = line_count + 1 }),
        (parse_line buf g).1,
      )
      else next
]

-- `smtp_reply_read`. The reader's own last error, `g_reply_read_last_err`, is the outcome itself:
-- every return goes through `smtp_reply_read_fail`.
unfoldable pub read : Option Bytes → (max_lines : ℕ) → LastError → Outcome × LastError
unfolding read_loop
read buf max_lines g = read_loop max_lines 0 0 0 buf g
