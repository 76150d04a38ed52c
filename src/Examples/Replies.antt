-- ===== src/Examples/Replies.antt =====
-- Replies of a server, through the line parser and the reply reader.
use smtpc_cli.Connection.State.{wait_banner, mode_none, aborted, World}
use smtpc_cli.Connection.Handlers.{io_read}
use smtpc_cli.Connection.Machine.{on_io}
use smtpc_cli.Connection.Reachable.{fresh}
use smtpc_cli.Connection.Greeting.{greeting_aborts}
use smtpc_cli.Capabilities.{cap_init}
use smtpc_cli.Examples.Sessions.{pipe}
use smtpc_cli.Common.{
  ◌⊎◌, ℕ, [], ◌∷◌, List, Bytes, cr, lf, arith, ◌≡◌, ◌≢◌, refl, inr, some, none, false,
}
use smtpc_cli.ReplyParser.{
  parse_buffer, parse_line, ReplyLine, LastError, ok, incomplete, fail, err_separator,
  err_code_digit,
}
use smtpc_cli.ReplyParser.Wire.{Line, IsLine, more, last, wire, report}
use smtpc_cli.ReplyParser.Exact.{Accepted, parse_buffer-wire, parse_buffer-Accepted}
use smtpc_cli.ReplyParser.Streaming.{parse_line-append}
use smtpc_cli.ReplyParser.Errors.{Blames, parse_buffer-Blames, parse_buffer_completes, late_digit}
use smtpc_cli.ReplyReader.{read, Outcome}
use smtpc_cli.ReplyReader.Lines.{wires, IsReply}
use smtpc_cli.ReplyReader.Exact.{ReadReply, read-wires, read-ReadReply}

abbrev ehlo_text : Bytes
ehlo_text = b'm' ∷ b'x' ∷ []

-- 250-mx, 250 SIZE
abbrev first_line : Line
first_line = record { d0 = b'2'; d1 = b'5'; d2 = b'0'; tail = more ehlo_text }

abbrev last_line : Line
last_line = record { d0 = b'2'; d1 = b'5'; d2 = b'0'; tail = last (b'S' ∷ b'I' ∷ b'Z' ∷ b'E' ∷ []) }

abbrev clean : LastError
clean = record { err = none; offset = 0 }

first_line-IsLine : IsLine first_line
first_line-IsLine = omega arith

last_line-IsLine : IsLine last_line
last_line-IsLine = omega arith

parse_first :
    parse_buffer (wire first_line [])
    ≡ ok (record { code = 250; is_final = false; text_offset = 4; text_len = 2; consumed = 8 })
unfolding parse_buffer
parse_first = refl

parse_bad_separator : parse_buffer (b'2' ∷ b'5' ∷ b'0' ∷ b'x' ∷ []) ≡ fail err_separator 3
unfolding parse_buffer
parse_bad_separator = refl

parse_partial : parse_buffer (b'2' ∷ b'5' ∷ b'0' ∷ b' ' ∷ b'o' ∷ []) ≡ incomplete
unfolding parse_buffer
parse_partial = refl

-- "999" is reported with its third byte, "99" is not.
late_digit_reported : parse_buffer (b'9' ∷ b'9' ∷ b'9' ∷ []) ≡ fail err_code_digit 0
unfolding parse_buffer
late_digit_reported = refl

parse_buffer-wire_example :
    parse_buffer (wire first_line (wire last_line [])) ≡ ok (report first_line)
parse_buffer-wire_example = parse_buffer-wire first_line (wire last_line []) first_line-IsLine

parse_buffer-Accepted_example :
    Accepted
      (wire first_line [])
      (record { code = 250; is_final = false; text_offset = 4; text_len = 2; consumed = 8 })
parse_buffer-Accepted_example = parse_buffer-Accepted (wire first_line []) parse_first

parse_line-append_example :
    (parse_line (some (b'2' ∷ b'5' ∷ [])) clean ≡ (incomplete, clean))
    ⊎ (parse_line (some (b'2' ∷ b'5' ∷ b'0' ∷ [])) clean
        ≡ parse_line (some (b'2' ∷ b'5' ∷ [])) clean)
parse_line-append_example = parse_line-append (b'2' ∷ b'5' ∷ []) (b'0' ∷ []) clean

parse_buffer-Blames_example : Blames (b'2' ∷ b'5' ∷ b'0' ∷ b'x' ∷ []) err_separator 3
parse_buffer-Blames_example =
    parse_buffer-Blames (b'2' ∷ b'5' ∷ b'0' ∷ b'x' ∷ []) parse_bad_separator

parse_buffer_completes_test :
    (rest : Bytes) × (r : ReplyLine) × (parse_buffer (b'2' ∷ b'5' ∷ b'0' ∷ b' ' ∷ b'o' ∷ rest)
      ≡ ok r)
parse_buffer_completes_test =
    parse_buffer_completes (b'2' ∷ b'5' ∷ b'0' ∷ b' ' ∷ b'o' ∷ []) parse_partial (omega arith)

late_digit_test :
    (parse_buffer (b'9' ∷ []) ≡ incomplete)
    × ((x : ℕ) → parse_buffer (b'9' ∷ x ∷ []) ≡ incomplete)
    × ((r : ReplyLine) → parse_buffer (wire (record first_line { d0 = b'9' }) []) ≢ ok r)
late_digit_test =
    late_digit b'9' (b'5' ∷ b'0' ∷ b'-' ∷ b'm' ∷ b'x' ∷ cr ∷ lf ∷ []) (inr (omega arith))

abbrev ehlo : List Line
ehlo = first_line ∷ last_line ∷ []

ehlo-IsReply : IsReply 250 ehlo
ehlo-IsReply = (first_line-IsLine, refl, refl, (last_line-IsLine, refl, refl))

read-ehlo :
    (read (some (wires ehlo [])) 64 clean).0
    ≡ Outcome.ok (record { code = 250; consumed = 18; line_count = 2 })
unfolding read parse_line
read-ehlo = refl

read-wires_example :
    (read (some (wires ehlo (b'2' ∷ []))) 64 clean).0
    ≡ Outcome.ok (record { code = 250; consumed = 18; line_count = 2 })
read-wires_example = read-wires 250 64 ehlo (b'2' ∷ []) clean ehlo-IsReply (omega arith)

read-ReadReply_example :
    ReadReply (wires ehlo []) 64 (record { code = 250; consumed = 18; line_count = 2 })
read-ReadReply_example = read-ReadReply (wires ehlo []) 64 clean read-ehlo

abbrev greeted : World pipe.Engine
greeted = fresh pipe [] mode_none false cap_init

greeting_aborts_example :
    on_io pipe
      (record { kind = io_read; failed = false; chunk = wires ehlo []; sent = 0 })
      []
      0
      (record greeted {
        conn = record (greeted.conn) { state = wait_banner; tls = none; received = [] };
      })
    ≡ aborted
greeting_aborts_example =
    greeting_aborts pipe greeted [] 0 250 first_line last_line [] ehlo-IsReply (omega arith)
      (omega arith)
