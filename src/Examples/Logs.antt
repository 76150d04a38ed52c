-- ===== src/Examples/Logs.antt =====
-- Log lines and hex dumps of concrete events and bytes.
use smtpc_cli.Log.{Logger, LogId, Timestamp, init, emit_line, format_id, zero_padded, line_text}
use smtpc_cli.Log.Dump.{
  hex_dump, dump_loop, append_char, append_str, append_hex_byte, append_uint, uint_digits,
  append_more,
}
use smtpc_cli.Log.Clean.{hex_dump-contains_cr_or_lf}
use smtpc_cli.Log.Lines.{IsOneLine, emit_line-IsOneLine}
use smtpc_cli.Capabilities.Summary.{decimal}
use smtpc_cli.Connection.State.{contains_cr_or_lf, log_error}
use smtpc_cli.Common.{
  arith, ◌<◌, ◌≤◌, ◌≡◌, refl, true, false, some, none, [], ◌∷◌, ◌++◌, Bytes, codes, length, lf,
}

abbrev idle : Logger
idle = record { ready = false; file_open = false; mutex_live = false; last_err = none }

abbrev opened : Logger
opened = record { ready = true; file_open = true; mutex_live = true; last_err = none }

abbrev noon : Timestamp
noon = record { year = 2026; month = 1; day = 9; hour = 12; minute = 0; second = 5; ms = 42 }

abbrev first_id : LogId
first_id = record { thread_id = 0; connection_id = 17; message_seq = 0; has_message_seq = false }

abbrev error_line : Bytes
error_line =
    codes "[2026-01-09] [12:00:05.042] [T0000.C0017] [mail (::1)] [ERROR] 'socket failed'"
    ++ (lf ∷ [])

-- The logger is made ready once.
init_twice : init true true true opened ≡ none
unfolding init
init_twice = refl

init_opened : init true true true idle ≡ some (opened, true)
unfolding init
init_opened = refl

error_logged :
    emit_line opened noon first_id (codes "mail (::1)") log_error (codes "socket failed")
    ≡ some error_line
unfolding emit_line line_text format_id zero_padded decimal contains_cr_or_lf
error_logged = refl

-- A detail with a line break is a failed assertion.
break_refused : emit_line opened noon first_id [] log_error (lf ∷ []) ≡ none
unfolding emit_line contains_cr_or_lf
break_refused = refl

abbrev greeting : Bytes
greeting = 13 ∷ 10 ∷ 50 ∷ []

dump_cut : hex_dump 64 greeting 2 ≡ codes "[0D 0A +1 more bytes]"
unfolding hex_dump dump_loop append_char append_str append_hex_byte append_uint uint_digits
    append_more
dump_cut = refl

-- What does not fit is left out whole, the bracket too.
dump_small : hex_dump 6 greeting 3 ≡ codes "[0D ]"
unfolding hex_dump dump_loop append_char append_str append_hex_byte append_uint uint_digits
    append_more
dump_small = refl

hex_dump-contains_cr_or_lf_example :
    (length (hex_dump 32 greeting 2) < 32) × (contains_cr_or_lf (hex_dump 32 greeting 2) ≡ false)
hex_dump-contains_cr_or_lf_example = hex_dump-contains_cr_or_lf 32 greeting 2 (omega arith)

emit_line-IsOneLine_example : (length error_line ≤ 2047) × IsOneLine error_line
emit_line-IsOneLine_example =
    emit_line-IsOneLine opened noon first_id (codes "mail (::1)") log_error (codes "socket failed")
      error_line error_logged
