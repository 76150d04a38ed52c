-- ===== src/Connection/Frame.antt =====
-- src/smtp_connection.c: what its handlers keep. A predicate on the received bytes, the TLS mode, the
-- actor and the trust flag survives a handler if it survives the emptying of the buffer.
mod Dialogue
pub mod Machine
use smtpc_cli.Connection.Runs.{either, either_under, after, asserting_under, after_either}
use smtpc_cli.Connection.State.{
  TlsMode, LogEvent, Detail, literal, text, logged, log_error, log_ehlo, log_reply, log_connected,
  log_starttls, log_capabilities, log_tls_begin, log_tls_fail, log_tls_ok, log_tls_cert_warning,
  TlsStep, TlsStatus, tls_ok, want_read, want_write, tls_error, Platform, World, Run, done, aborted,
  Holds, ◌>>=◌, contains_cr_or_lf, ConnState, mode_none, implicit, opportunistic, explicit,
  CertInfo, connecting, wait_banner, sending_ehlo, wait_ehlo, sending_starttls, wait_starttls_reply,
  tls_handshaking, ready, error, timed_out, read_buf_size, write_buf_size, log_timeout,
}
use smtpc_cli.Connection.Io.{
  emit, fail_with, or_error, add_event, submit_read_bytes, submit_write_bytes, write_encrypted,
  write_raw, read_cipher, first_step, start_engine, begin_tls_handshake, set_state, detail_is_bad,
  build_ehlo_command,
}
use smtpc_cli.Connection.Handlers.{
  IoResult, append_received, on_chunk, read_more, await_banner, handle_connected,
  handle_connect_completion, send_command, send_ehlo, handle_greeting, handle_banner,
  handle_banner_read, is_2xx,
}
use smtpc_cli.Connection.Handlers.Starttls.{
  handle_ehlo_write_completion, send_starttls, upgrade_or_ready, handle_summarised,
  handle_capabilities, handle_ehlo, handle_ehlo_read, handle_starttls_write_completion,
  handle_starttls_answer, handle_starttls_reply,
}
use smtpc_cli.Connection.Handlers.Handshake.{
  handle_established, handle_handshake_step, handle_handshake_input, handle_tls_handshake,
  handshake_input,
}
use smtpc_cli.Connection.Machine.{
  is_read, is_write, is_connect, is_handshaking, is_terminal, asserting, dispatch, decrypted,
  on_plain_io, on_handshake_io, on_io, check_timeout,
}
use smtpc_cli.ReplyReader.{Outcome, Reply}
use smtpc_cli.Capabilities.{EhloResult}
use smtpc_cli.Common.{
  arith, ℕ, ◌-◌, ◌<◌, Bool, true, false, ◌||◌, ◌&&◌, not, Bytes, [], ◌∷◌, ◌++◌, ◌≡◌, refl, Option,
  some, none, leb, ◌==◌, length, if◌then◌else◌,
}
use Prim.Native.String.{String}

pub record Frame : Type 1 where
  pub holds : (received : Bytes) (mode : TlsMode) (actor : Bytes) (trust : Bool) → Type 0
  pub emptied :
      (received : Bytes) (mode : TlsMode) (actor : Bytes) (trust : Bool)
      → holds received mode actor trust
      → holds [] mode actor trust

module _ (k : Frame) (p : Platform) where
  open p use {Engine, create, decrypt}

  abbrev pub Keeps : World Engine → Type 0
  Keeps w = k.holds w.conn.received w.conn.tls_mode w.conn.actor w.conn.trust

  pub empties : (w : World Engine) → Keeps w → k.holds [] w.conn.tls_mode w.conn.actor w.conn.trust
  empties w h = k.emptied w.conn.received w.conn.tls_mode w.conn.actor w.conn.trust h

  pub fail_with-Keeps :
      (e : LogEvent) (m : String) (w : World Engine) → Keeps w → Holds (fail_with e m w) Keeps
  unfolding fail_with
  fail_with-Keeps e m w h = after Keeps e (literal m) w (λ w'. done (set_state error w')) h

  pub or_error-Keeps : (w : World Engine) (answer : Bool) → Keeps w → Keeps (or_error (w, answer))
  or_error-Keeps w true h = h
  or_error-Keeps w false h = h

  pub submit_read_bytes-Keeps :
      (w : World Engine) → Keeps w → Keeps (or_error (submit_read_bytes p w))
  unfolding submit_read_bytes
  submit_read_bytes-Keeps w h = ground arith

  pub write_encrypted-Keeps :
      (step : TlsStep Engine) (w : World Engine)
      → Keeps w
      → Keeps (or_error (write_encrypted p step w))
  write_encrypted-Keeps step w h = ground arith

  pub submit_write_bytes-Keeps :
      (bytes : Bytes) (w : World Engine) → Keeps w → Keeps (or_error (submit_write_bytes p bytes w))
  unfolding submit_write_bytes
  submit_write_bytes-Keeps bytes w h = ground arith

  pub first_step-Keeps :
      (step : TlsStep Engine) (w : World Engine) → Keeps w → Holds (first_step p step w) Keeps
  unfolding first_step
  first_step-Keeps step w h =
      let f =
        fail_with-Keeps log_tls_fail "TLS handshake failed to start"
          (record w { conn = record (w.conn) { tls = some step.engine } }) h in
      ground arith

  pub begin_tls_handshake-Keeps :
      (now_ms : ℕ) (detail : String) (w : World Engine)
      → Keeps w
      → Holds (begin_tls_handshake p now_ms detail w) Keeps
  unfolding begin_tls_handshake start_engine
  begin_tls_handshake-Keeps now_ms detail w h =
      let f =
        fail_with-Keeps log_tls_fail "failed to create the TLS engine"
          (record w { conn = record (w.conn) { tls = none } }) h in
      elim (create w.conn.actor w.conn.trust)
        as (λ made.
          Holds
            (elim made [
              | none ↦
                  fail_with log_tls_fail "failed to create the TLS engine"
                    (record w { conn = record (w.conn) { tls = none } })
              | some engine ↦
                  start_engine p engine now_ms detail
                    (record w { conn = record (w.conn) { tls = some engine } })
            ])
            Keeps) [
              | none ↦ f
              | some engine ↦
                  after Keeps log_tls_begin (literal detail) _ _
                    (first_step-Keeps _ _ (empties w h))
            ]
