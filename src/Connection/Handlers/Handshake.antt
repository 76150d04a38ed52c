-- ===== src/Connection/Handlers/Handshake.antt =====
-- src/smtp_connection.c: the handler of the TLS handshake.
use smtpc_cli.Connection.State.{
  tls_ok, want_read, want_write, tls_error, log_tls_ok, log_tls_fail, log_tls_cert_warning, text,
  CertInfo, TlsStep, Platform, World, Run, done, ◌>>=◌, read_buf_size,
}
use smtpc_cli.Connection.Io.{emit, fail_with, or_error, write_raw, read_cipher}
use smtpc_cli.Capabilities.{cap_init}
use smtpc_cli.Common.{ℕ, not, [], Bytes, Option, some, none, ◌==◌, if◌then◌else◌, length}
use smtpc_cli.Connection.Handlers.{io_read, IoResult, await_banner, send_ehlo}

module _ (p : Platform) where
  open p use {Engine, create, handshake, encrypt, cert_info, accepts}

  -- Behind a finished handshake: the banner is still to come, or EHLO is sent again with no
  -- capabilities kept.
  unfoldable pub handle_established : CertInfo → Bytes → ℕ → World Engine → Run Engine
  handle_established cert ehlo_identity now_ms w = do
    w' ←
        (if cert.validated
          then emit log_tls_ok (text cert.subject) w
          else emit log_tls_cert_warning (text cert.failure_reason) w)
    if not w'.conn.banner_seen
        then await_banner p now_ms w'
        else send_ehlo p ehlo_identity now_ms
            (record w' { conn = record (w'.conn) { received = [] }; caps = cap_init })

  -- Behind a step of the engine.
  unfoldable pub handle_handshake_step : TlsStep Engine → Bytes → ℕ → World Engine → Run Engine
  handle_handshake_step step ehlo_identity now_ms w =
      let w' = record w { conn = record (w.conn) { tls = some step.engine } } in
      elim step.status [
        | want_write ↦ done (or_error (write_raw p step.out w'))
        | want_read ↦ done (or_error (read_cipher p w'))
        | tls_error ↦ fail_with log_tls_fail "TLS handshake failed" w'
        | tls_ok ↦ handle_established (cert_info step.engine) ehlo_identity now_ms w'
      ]

  -- The bytes that a completion feeds to the engine; `none` is a read that found the peer closed.
  abbrev pub handshake_input : IoResult → Option Bytes
  handshake_input result = elim result.kind [
    | io_read ↦ if length result.chunk == 0 then none else some result.chunk
    | _ ↦ some []
  ]

  unfoldable pub handle_handshake_input :
      Option Bytes → Engine → Bytes → ℕ → World Engine → Run Engine
  handle_handshake_input none engine ehlo_identity now_ms w =
      fail_with log_tls_fail "peer closed during the TLS handshake" w
  handle_handshake_input (some input) engine ehlo_identity now_ms w =
      handle_handshake_step (handshake engine input read_buf_size) ehlo_identity now_ms w

  -- `smtp_conn_handle_tls_handshake`; its callers have an engine.
  unfoldable pub handle_tls_handshake : IoResult → Engine → Bytes → ℕ → World Engine → Run Engine
  handle_tls_handshake result engine ehlo_identity now_ms w =
      if result.failed
      then fail_with log_tls_fail "TLS handshake I/O failed" w
      else handle_handshake_input (handshake_input result) engine ehlo_identity now_ms w
