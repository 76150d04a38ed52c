-- ===== src/Connection/Handlers.antt =====
-- src/smtp_connection.c: the handler of each state. A completion of a read brings its bytes along:
-- they are what the reactor, or the decryption, has put into the buffer.
pub mod Starttls
pub mod Handshake
use smtpc_cli.Connection.State.{
  wait_banner, sending_ehlo, wait_ehlo, sending_starttls, wait_starttls_reply, ready, TlsMode,
  mode_none, opportunistic, explicit, implicit, tls_ok, want_read, want_write, tls_error,
  log_connected, log_ehlo, log_reply, log_capabilities, log_starttls, log_tls_ok, log_tls_fail,
  log_tls_cert_warning, log_error, literal, text, CertInfo, TlsStep, Platform, World, Run, done,
  aborted, ◌>>=◌, read_buf_size, write_buf_size, max_reply_lines, step_timeout_ms, deadline,
}
use smtpc_cli.Connection.Io.{
  build_ehlo_command, starttls_command, copy_reply_text, set_state, emit, fail_with, or_error,
  submit_read_bytes, write_raw, submit_write_bytes, read_cipher, begin_tls_handshake,
}
use smtpc_cli.Capabilities.{cap_init, EhloResult, parse_ehlo_response}
use smtpc_cli.Capabilities.Summary.{format_summary}
use smtpc_cli.ReplyParser.{LastError}
use smtpc_cli.ReplyReader.{Outcome, Reply, read}
use smtpc_cli.Common.{
  ℕ, ◌-◌, Bool, true, not, ◌||◌, [], ◌∷◌, ◌++◌, Bytes, Option, some, none, ltb, leb, ◌==◌,
  if◌then◌else◌, length,
}
use Prim.Native.String.{String}

pub data IoKind : Type 0 where
  io_connect io_read io_write : IoKind

-- `smtp_io_result`: `failed` is a non-zero result; `chunk` the bytes of a read, `sent` the number of
-- bytes of a write.
pub record IoResult : Type 0 where
  pub kind : IoKind
  pub failed : Bool
  pub chunk : Bytes
  pub sent : ℕ

-- The line parser's last error has no reader in this module: each call starts from a clean one.
abbrev pub no_error : LastError
no_error = record { err = none; offset = 0 }

abbrev pub is_2xx : ℕ → Bool
is_2xx code = not (ltb code 200 || leb 300 code)

module _ {E : Type 0} where
  abbrev pub append_received : Bytes → World E → World E
  append_received chunk w = record w {
    conn = record (w.conn) { received = w.conn.received ++ chunk };
  }

  -- The two checks at the head of each read handler: a failed read, and a closed peer.
  unfoldable pub on_chunk : IoResult → String → String → World E → (World E → Run E) → Run E
  on_chunk result read_failed closed w next =
      if result.failed
      then fail_with log_error read_failed w
      else if length result.chunk == 0
      then fail_with log_error closed w
      else next (append_received result.chunk w)

module _ (p : Platform) where
  open p use {Engine, create, handshake, encrypt, cert_info, accepts}

  -- An incomplete reply: fail on a full buffer, else read on.
  unfoldable pub read_more : String → World Engine → Run Engine
  read_more too_long w =
      if leb read_buf_size (length w.conn.received)
      then fail_with log_error too_long w
      else done (or_error (submit_read_bytes p w))

  -- The first read of the greeting, from an empty buffer.
  unfoldable pub await_banner : ℕ → World Engine → Run Engine
  await_banner now_ms w = done (
      or_error (
        submit_read_bytes p (record w {
          conn = record (w.conn) {
            state = wait_banner;
            deadline_ms = deadline now_ms step_timeout_ms;
            received = [];
          };
        })))

  unfoldable pub handle_connected : TlsMode → ℕ → World Engine → Run Engine
  handle_connected implicit now_ms w =
      begin_tls_handshake p now_ms "starting implicit TLS handshake" w
  handle_connected _ now_ms w = await_banner now_ms w

  -- `smtp_conn_handle_connect_completion`
  unfoldable pub handle_connect_completion : IoResult → ℕ → World Engine → Run Engine
  handle_connect_completion result now_ms w =
      if result.failed then fail_with log_error "connect failed" w else (do
        w' ← emit log_connected (literal "connected") w
        handle_connected w'.conn.tls_mode now_ms w')

  -- The EHLO command, built; the end of the banner's and of the handshake's handler.
  unfoldable pub send_command : Bytes → Bytes → ℕ → World Engine → Run Engine
  send_command [] identity now_ms w =
      fail_with log_error "EHLO identity too long to fit the command buffer" w
  send_command (c ∷ cs) identity now_ms w = do
    w' ← emit log_ehlo (text identity) w
    done (
        or_error (
          submit_write_bytes p (c ∷ cs) (record w' {
            conn = record (w'.conn) {
              state = sending_ehlo;
              deadline_ms = deadline now_ms step_timeout_ms;
            };
          })))

  unfoldable pub send_ehlo : Bytes → ℕ → World Engine → Run Engine
  send_ehlo identity now_ms w =
      let command = build_ehlo_command write_buf_size identity in
      send_command command identity now_ms
        (record w { conn = record (w.conn) { write_len = length command } })

  -- The banner's handler behind a reply: the text is the reply's bytes up to its last CRLF.
  unfoldable pub handle_greeting : Reply → Bytes → ℕ → World Engine → Run Engine
  handle_greeting reply ehlo_identity now_ms w = do
    w' ←
        emit log_reply
          (text (
            copy_reply_text w.conn.received (if ltb 2 reply.consumed then reply.consumed - 2 else 0)
              256))
          (record w { conn = record (w.conn) { greeting_code = reply.code; banner_seen = true } })
    if not (is_2xx reply.code)
        then fail_with log_error "greeting was not a 2xx reply" w'
        else send_ehlo ehlo_identity now_ms w'

  unfoldable pub handle_banner : Outcome → Bytes → ℕ → World Engine → Run Engine
  handle_banner (Outcome.ok reply) ehlo_identity now_ms w =
      handle_greeting reply ehlo_identity now_ms w
  handle_banner Outcome.incomplete ehlo_identity now_ms w =
      read_more "greeting exceeded the read buffer without completing" w
  handle_banner (Outcome.fail _) ehlo_identity now_ms w = fail_with log_error "malformed greeting" w

  -- `smtp_conn_handle_banner_read`
  unfoldable pub handle_banner_read : IoResult → Bytes → ℕ → World Engine → Run Engine
  handle_banner_read result ehlo_identity now_ms w =
      on_chunk result "banner read failed" "peer closed before sending a greeting" w (λ w'.
        handle_banner (read (some w'.conn.received) max_reply_lines no_error).0 ehlo_identity now_ms
          w')
