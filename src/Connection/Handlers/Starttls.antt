-- ===== src/Connection/Handlers/Starttls.antt =====
-- src/smtp_connection.c: the handlers of EHLO and of STARTTLS.
use smtpc_cli.Connection.State.{
  wait_ehlo, sending_starttls, wait_starttls_reply, ready, TlsMode, mode_none, opportunistic,
  explicit, implicit, log_capabilities, log_starttls, log_tls_fail, log_error, literal, text,
  Platform, World, Run, done, aborted, ◌>>=◌, max_reply_lines, step_timeout_ms, deadline,
}
use smtpc_cli.Connection.Io.{
  starttls_command, set_state, emit, fail_with, or_error, submit_read_bytes, submit_write_bytes,
  begin_tls_handshake,
}
use smtpc_cli.Capabilities.{EhloResult, parse_ehlo_response}
use smtpc_cli.Capabilities.Summary.{format_summary}
use smtpc_cli.ReplyReader.{Outcome, read}
use smtpc_cli.Common.{ℕ, not, ◌||◌, [], Option, some, none, ◌==◌, if◌then◌else◌}
use smtpc_cli.Connection.Handlers.{IoResult, on_chunk, read_more, no_error, is_2xx}

module _ (p : Platform) where
  open p use {Engine, create, handshake, encrypt, cert_info, accepts}

  -- `smtp_conn_handle_ehlo_write_completion`
  unfoldable pub handle_ehlo_write_completion : IoResult → World Engine → Run Engine
  handle_ehlo_write_completion result w =
      if result.failed
      then fail_with log_error "sending EHLO failed" w
      else if not (result.sent == w.conn.wire_write_len)
      then fail_with log_error "EHLO write was partial (not yet handled)" w
      else done (
          or_error (
            submit_read_bytes p
              (record w { conn = record (w.conn) { state = wait_ehlo; received = [] } })))

  unfoldable pub send_starttls : ℕ → World Engine → Run Engine
  send_starttls now_ms w = do
    w' ← emit log_starttls (literal "sending STARTTLS") w
    done (
        or_error (
          submit_write_bytes p starttls_command (record w' {
            conn = record (w'.conn) {
              state = sending_starttls;
              deadline_ms = deadline now_ms step_timeout_ms;
            };
          })))

  -- The switch on the TLS mode, on an unencrypted connection.
  unfoldable pub upgrade_or_ready : TlsMode → ℕ → World Engine → Run Engine
  upgrade_or_ready mode_none now_ms w = done (set_state ready w)
  upgrade_or_ready opportunistic now_ms w =
      if w.caps.has_starttls then send_starttls now_ms w else done (set_state ready w)
  upgrade_or_ready explicit now_ms w =
      if w.caps.has_starttls
      then send_starttls now_ms w
      else fail_with log_error "STARTTLS required but not offered by the server" w
  upgrade_or_ready implicit now_ms w = aborted

  -- Behind a whole EHLO response: READY under TLS.
  unfoldable pub handle_summarised : Option Engine → ℕ → World Engine → Run Engine
  handle_summarised (some _) now_ms w = done (set_state ready w)
  handle_summarised none now_ms w = upgrade_or_ready w.conn.tls_mode now_ms w

  unfoldable pub handle_capabilities : ℕ → World Engine → Run Engine
  handle_capabilities now_ms w = do
    w' ← emit log_capabilities (text (format_summary w.caps 256)) w
    handle_summarised w'.conn.tls now_ms w'

  unfoldable pub handle_ehlo : EhloResult → ℕ → World Engine → Run Engine
  handle_ehlo (EhloResult.ok caps) now_ms w = handle_capabilities now_ms (record w { caps = caps })
  handle_ehlo (EhloResult.other Outcome.incomplete) now_ms w =
      read_more p "EHLO response exceeded the read buffer without completing" w
  handle_ehlo (EhloResult.other _) now_ms w = fail_with log_error "malformed EHLO response" w
  handle_ehlo EhloResult.aborted now_ms w = aborted

  -- `smtp_conn_handle_ehlo_read`
  unfoldable pub handle_ehlo_read : IoResult → ℕ → World Engine → Run Engine
  handle_ehlo_read result now_ms w =
      on_chunk result "EHLO response read failed" "peer closed before completing the EHLO response"
        w
        (λ w'.
          handle_ehlo (parse_ehlo_response w'.conn.received max_reply_lines no_error).0 now_ms w')

  -- `smtp_conn_handle_starttls_write_completion`
  unfoldable pub handle_starttls_write_completion : IoResult → World Engine → Run Engine
  handle_starttls_write_completion result w =
      if result.failed || not (result.sent == w.conn.wire_write_len)
      then fail_with log_error "sending STARTTLS failed" w
      else done (
          or_error (
            submit_read_bytes p
              (record w { conn = record (w.conn) { state = wait_starttls_reply; received = [] } })))

  unfoldable pub handle_starttls_answer : Outcome → ℕ → World Engine → Run Engine
  handle_starttls_answer (Outcome.ok reply) now_ms w =
      if not (is_2xx reply.code)
      then fail_with log_tls_fail "server declined STARTTLS" w
      else begin_tls_handshake p now_ms "starting TLS handshake after STARTTLS" w
  handle_starttls_answer Outcome.incomplete now_ms w =
      read_more p "STARTTLS reply exceeded the read buffer without completing" w
  handle_starttls_answer (Outcome.fail _) now_ms w =
      fail_with log_error "malformed STARTTLS reply" w

  -- `smtp_conn_handle_starttls_reply`
  unfoldable pub handle_starttls_reply : IoResult → ℕ → World Engine → Run Engine
  handle_starttls_reply result now_ms w =
      on_chunk result "STARTTLS reply read failed" "peer closed before replying to STARTTLS" w
        (λ w'.
          handle_starttls_answer (read (some w'.conn.received) max_reply_lines no_error).0 now_ms
            w')
