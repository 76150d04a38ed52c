-- ===== src/Connection/State.antt =====
-- include/smtp_connection.h, smtp_tls.h, smtp_reactor.h and smtp_log.h: the state of a connection,
-- and the interfaces that its handlers call.
use smtpc_cli.Capabilities.{Capabilities}
use smtpc_cli.Common.{
  ℕ, ◌+◌, ◌^◌, ◌%◌, ◌*◌, Bool, false, ◌||◌, [], ◌∷◌, List, Bytes, Option, cr, lf, ◌==◌,
}
use Prim.Native.String.{String}

pub data ConnState : Type 0 where
  connecting wait_banner sending_ehlo wait_ehlo sending_starttls wait_starttls_reply : ConnState
  tls_handshaking ready error timed_out : ConnState

pub data TlsMode : Type 0 where
  mode_none opportunistic explicit implicit : TlsMode

pub data TlsStatus : Type 0 where
  tls_ok want_read want_write tls_error : TlsStatus

-- `smtp_log_event`
pub data LogEvent : Type 0 where
  log_connecting log_connected log_ehlo log_reply log_capabilities log_starttls : LogEvent
  log_tls_begin log_tls_ok log_tls_fail log_tls_cert_warning log_error log_timeout : LogEvent
  log_resolved log_mail_from log_rcpt_to log_data_begin log_data_end log_rset : LogEvent
  log_quit log_disconnect : LogEvent

-- A log line's detail: a literal of the program, which holds no CR and no LF, or a computed text.
pub data Detail : Type 0 where
  literal : String → Detail
  text : Bytes → Detail

-- What a connection does to the world: log lines, and submissions to the reactor with its answer.
-- A read names the room in the buffer, a write the bytes that go to the wire.
pub data Event : Type 0 where
  logged : LogEvent → Detail → Event
  submitted_connect : Bool → Event
  submitted_read : ℕ → Bool → Event
  submitted_write : Bytes → Bool → Event

pub record CertInfo : Type 0 where
  pub validated : Bool
  pub failure_reason : Bytes
  pub subject : Bytes

-- The result of an engine call: its status, the bytes left in the output buffer, the engine after.
pub record TlsStep (Engine : Type 0) : Type 0 where
  pub status : TlsStatus
  pub out : Bytes
  pub engine : Engine

-- The TLS engine (smtp_tls_openssl.c, smtp_tls_schannel.c) and the reactor, as the connection sees
-- them: an engine is made for a host name and the trust flag; its calls take the input bytes and the
-- size of the output buffer. `accepts` is the reactor's answer to a submission, after what went on.
pub record Platform : Type 1 where
  pub Engine : Type 0
  pub create : Bytes → Bool → Option Engine
  pub handshake : Engine → Bytes → ℕ → TlsStep Engine
  pub encrypt : Engine → Bytes → ℕ → TlsStep Engine
  pub decrypt : Engine → Bytes → ℕ → TlsStep Engine
  pub cert_info : Engine → CertInfo
  pub accepts : List Event → Bool

-- `smtp_connection`: `received` is `read_buf[0..read_len)`. The socket, the operation's memory and
-- the log id are passed through and not modelled; `caps` is a field of `World`.
pub record Conn (Engine : Type 0) : Type 0 where
  pub state : ConnState
  pub received : Bytes
  pub write_len : ℕ
  pub wire_write_len : ℕ
  pub connect_timeout_ms : ℕ
  pub deadline_ms : ℕ
  pub actor : Bytes
  pub greeting_code : ℕ
  pub tls_mode : TlsMode
  pub tls : Option Engine
  pub trust : Bool
  pub banner_seen : Bool

-- A connection, the thread's capabilities, and the events so far, the newest first.
pub record World (Engine : Type 0) : Type 0 where
  pub conn : Conn Engine
  pub caps : Capabilities
  pub events : List Event

-- A handler returns, or a failed assertion ends the process.
pub data Run (Engine : Type 0) : Type 0 where
  done : World Engine → Run Engine
  aborted : Run Engine

infixl 5 ◌>>=◌
abbrev pub ◌>>=◌ : {E : Type 0} → Run E → (World E → Run E) → Run E
done w >>= f = f w
aborted >>= f = aborted

-- What holds if the handler returns.
abbrev pub Holds {ℓ} : {E : Type 0} → Run E → (World E → Type ℓ) → Type ℓ
Holds (done w) P = P w
Holds aborted P = Unit

abbrev pub read_buf_size : ℕ
read_buf_size = 4096

abbrev pub write_buf_size : ℕ
write_buf_size = 320

abbrev pub max_reply_lines : ℕ
max_reply_lines = 64

-- The greeting, EHLO and handshake timeouts: five minutes each.
abbrev pub step_timeout_ms : ℕ
step_timeout_ms = 5 * 60 * 1000

-- `now_ms + timeout`, in a uint64_t.
abbrev pub deadline : ℕ → ℕ → ℕ
deadline now timeout = (now + timeout) % 2 ^ 64

-- `smtp_log_contains_cr_or_lf`
unfoldable pub contains_cr_or_lf : Bytes → Bool
contains_cr_or_lf [] = false
contains_cr_or_lf (c ∷ cs) = c == cr || c == lf || contains_cr_or_lf cs
