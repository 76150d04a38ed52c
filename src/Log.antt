-- ===== src/Log.antt =====
-- src/smtp_log.c: the logger's life, the line that an event becomes, and the hex dump. The file, the
-- mutex and the clock are arguments; that a pointer is not null is taken for granted.
pub mod Dump
pub mod Lines
pub mod Clean
use smtpc_cli.Connection.State.{
  contains_cr_or_lf, LogEvent, log_connecting, log_connected, log_ehlo, log_reply, log_capabilities,
  log_starttls, log_tls_begin, log_tls_ok, log_tls_fail, log_tls_cert_warning, log_error,
  log_timeout, log_resolved, log_mail_from, log_rcpt_to, log_data_begin, log_data_end, log_rset,
  log_quit, log_disconnect,
}
use smtpc_cli.Capabilities.Summary.{decimal}
use smtpc_cli.Common.{
  ℕ, zero, suc, ◌+◌, ◌-◌, Bool, true, false, not, ◌||◌, Option, some, none, [], ◌∷◌, ◌++◌, Bytes,
  lf, ltb, if◌then◌else◌, codes, take, length, List,
}

pub data InitErr : Type 0 where
  err_null_path err_open_failed err_mutex_failed : InitErr

-- The global state of the logger.
pub record Logger : Type 0 where
  pub ready : Bool
  pub file_open : Bool
  pub mutex_live : Bool
  pub last_err : Option InitErr

-- `smtp_log_init`, for a path, a file that opens, a mutex that can be made. The Boolean is its success;
-- `none` is the failed assertion.
unfoldable pub init : (path opens mutex_ok : Bool) → Logger → Option (Logger × Bool)
init path opens mutex_ok g =
    if g.ready
    then none
    else if not path
    then some (record g { last_err = some err_null_path }, false)
    else if not opens
    then some (record g { file_open = false; last_err = some err_open_failed }, false)
    else if not mutex_ok
    then some (record g { file_open = false; last_err = some err_mutex_failed }, false)
    else some (record { ready = true; file_open = true; mutex_live = true; last_err = none }, true)

-- `smtp_log_shutdown`
unfoldable pub shutdown : Logger → Logger
shutdown g =
    if not g.ready then g else record g { ready = false; file_open = false; mutex_live = false }

abbrev pub zeros : ℕ → Bytes
zeros zero = []
zeros (suc n) = b'0' ∷ zeros n

-- `%0<width>d` of a number that is not negative.
unfoldable pub zero_padded : (width : ℕ) → ℕ → Bytes
zero_padded width n = zeros (width - length (decimal n)) ++ decimal n

-- `g_smtp_log_event_names`
abbrev pub event_name : LogEvent → Bytes
event_name log_connecting = codes "CONNECTING"
event_name log_connected = codes "CONNECTED"
event_name log_ehlo = codes "EHLO"
event_name log_reply = codes "REPLY"
event_name log_capabilities = codes "CAPABILITIES"
event_name log_starttls = codes "STARTTLS"
event_name log_tls_begin = codes "TLS_BEGIN"
event_name log_tls_ok = codes "TLS_OK"
event_name log_tls_fail = codes "TLS_FAIL"
event_name log_tls_cert_warning = codes "TLS_CERT_WARNING"
event_name log_error = codes "ERROR"
event_name log_timeout = codes "TIMEOUT"
event_name log_resolved = codes "RESOLVED"
event_name log_mail_from = codes "MAIL_FROM"
event_name log_rcpt_to = codes "RCPT_TO"
event_name log_data_begin = codes "DATA_BEGIN"
event_name log_data_end = codes "DATA_END"
event_name log_rset = codes "RSET"
event_name log_quit = codes "QUIT"
event_name log_disconnect = codes "DISCONNECT"

pub record LogId : Type 0 where
  pub thread_id : ℕ
  pub connection_id : ℕ
  pub message_seq : ℕ
  pub has_message_seq : Bool

pub record Timestamp : Type 0 where
  pub year : ℕ
  pub month : ℕ
  pub day : ℕ
  pub hour : ℕ
  pub minute : ℕ
  pub second : ℕ
  pub ms : ℕ

-- `smtp_log_format_id`
unfoldable pub format_id : (dst_size : ℕ) → LogId → Bytes
format_id dst_size id = take (dst_size - 1) (
    codes "T"
    ++ (zero_padded 4 id.thread_id
        ++ (codes ".C"
            ++ (zero_padded 4 id.connection_id
                ++ (if id.has_message_seq
                    then codes ".M" ++ zero_padded 4 id.message_seq
                    else [])))))

-- The pieces of a format, one behind the other.
abbrev pub joined : List Bytes → Bytes → Bytes
joined [] end = end
joined (piece ∷ pieces) end = piece ++ joined pieces end

abbrev pub line_pieces :
    Timestamp → LogId → (actor : Bytes) → LogEvent → (detail : Bytes) → List Bytes
line_pieces ts id actor event detail =
    codes "["
    ∷ zero_padded 4 ts.year
    ∷ codes "-"
    ∷ zero_padded 2 ts.month
    ∷ codes "-"
    ∷ zero_padded 2 ts.day
    ∷ codes "] ["
    ∷ zero_padded 2 ts.hour
    ∷ codes ":"
    ∷ zero_padded 2 ts.minute
    ∷ codes ":"
    ∷ zero_padded 2 ts.second
    ∷ codes "."
    ∷ zero_padded 3 ts.ms
    ∷ codes "] ["
    ∷ format_id 64 id
    ∷ codes "] ["
    ∷ actor
    ∷ codes "] ["
    ∷ event_name event
    ∷ codes "] '"
    ∷ detail
    ∷ codes "'"
    ∷ []

-- The text that `smtp_log_emit` prints into `line`, before it is cut to the buffer.
unfoldable pub line_text : Timestamp → LogId → (actor : Bytes) → LogEvent → (detail : Bytes) → Bytes
line_text ts id actor event detail = joined (line_pieces ts id actor event detail) (lf ∷ [])

abbrev pub line_size : ℕ
line_size = 2048

-- `smtp_log_emit`: the bytes that go to the file, or `none` for a failed assertion.
unfoldable pub emit_line :
    Logger → Timestamp → LogId → (actor : Bytes) → LogEvent → (detail : Bytes) → Option Bytes
emit_line g ts id actor event detail =
    if not g.ready || contains_cr_or_lf actor || contains_cr_or_lf detail
    then none
    else some (take (line_size - 1) (line_text ts id actor event detail))
