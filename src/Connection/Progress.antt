-- ===== src/Connection/Progress.antt =====
-- src/smtp_connection.c: a connection that is not finished waits for one completion, of a kind that
-- its state expects.
mod Dialogue
pub mod Machine
use smtpc_cli.Connection.Runs.{either, after, after_either}
use smtpc_cli.Connection.State.{
  TlsMode, LogEvent, Detail, literal, text, Event, logged, submitted_connect, submitted_read,
  submitted_write, log_error, log_ehlo, log_reply, log_connected, log_starttls, log_capabilities,
  log_tls_begin, log_tls_fail, log_tls_ok, log_tls_cert_warning, log_connecting, TlsStep, TlsStatus,
  tls_ok, want_read, want_write, tls_error, Platform, World, Run, done, aborted, Holds, ◌>>=◌,
  contains_cr_or_lf, ConnState, mode_none, implicit, opportunistic, explicit, CertInfo, connecting,
  wait_banner, sending_ehlo, wait_ehlo, sending_starttls, wait_starttls_reply, tls_handshaking,
  ready, error, timed_out, read_buf_size, write_buf_size, log_timeout,
}
use smtpc_cli.Connection.Io.{
  emit, fail_with, or_error, add_event, submit_read_bytes, submit_write_bytes, write_encrypted,
  write_raw, read_cipher, first_step, start_engine, begin_tls_handshake, set_state, detail_is_bad,
  build_ehlo_command,
}
use smtpc_cli.Connection.Handlers.{
  IoKind, io_connect, io_read, io_write, IoResult, append_received, on_chunk, read_more,
  await_banner, handle_connected, handle_connect_completion, send_command, send_ehlo,
  handle_greeting, handle_banner, handle_banner_read, is_2xx,
}
use smtpc_cli.Connection.Handlers.Starttls.{
  handle_ehlo_write_completion, send_starttls, upgrade_or_ready, handle_summarised,
  handle_capabilities, handle_ehlo, handle_ehlo_read, handle_starttls_write_completion,
  handle_starttls_answer, handle_starttls_reply,
}
use smtpc_cli.Connection.Handlers.Handshake.{
  handle_established, handle_handshake_step, handle_handshake_input, handle_tls_handshake,
  handshake_input,
}
use smtpc_cli.Connection.Machine.{
  is_read, is_write, is_connect, is_handshaking, is_terminal, asserting, dispatch, decrypted,
  on_plain_io, on_handshake_io, on_io, check_timeout, connection_start,
}
use smtpc_cli.ReplyReader.{Outcome, Reply}
use smtpc_cli.Capabilities.{EhloResult}
use smtpc_cli.Common.{
  arith, ℕ, ◌-◌, ◌<◌, Bool, true, false, ◌||◌, ◌&&◌, not, List, Bytes, [], ◌∷◌, ◌++◌, ◌≡◌, refl,
  sym, ap, subst, Option, some, none, leb, ◌==◌, length, if◌then◌else◌,
}
use Prim.Native.String.{String}

-- The kind of completion that a state's handler takes.
abbrev pub answers : ConnState → IoKind → Bool
answers connecting kind = is_connect kind
answers wait_banner kind = is_read kind
answers wait_ehlo kind = is_read kind
answers wait_starttls_reply kind = is_read kind
answers sending_ehlo kind = is_write kind
answers sending_starttls kind = is_write kind
answers tls_handshaking kind = is_read kind || is_write kind
answers _ kind = false

-- The newest event is a submission that was accepted, of a kind that the state takes.
abbrev pub outstanding : ConnState → List Event → Bool
outstanding s (submitted_connect accepted ∷ _) = answers s io_connect && accepted
outstanding s (submitted_read _ accepted ∷ _) = answers s io_read && accepted
outstanding s (submitted_write _ accepted ∷ _) = answers s io_write && accepted
outstanding s _ = false

module _ {E : Type 0} where
  abbrev pub IsWaiting : World E → Type 0
  IsWaiting w = is_terminal w.conn.state || outstanding w.conn.state w.events ≡ true

  pub fail_with-IsWaiting :
      (e : LogEvent) (m : String) (w : World E) → Holds (fail_with e m w) IsWaiting
  unfolding fail_with
  fail_with-IsWaiting e m w = after IsWaiting e (literal m) w (λ w'. done (set_state error w')) refl

module _ (p : Platform) where
  open p use {Engine, create}

  pub submit_read_bytes-IsWaiting :
      (w : World Engine)
      → is_terminal w.conn.state || answers w.conn.state io_read ≡ true
      → IsWaiting (or_error (submit_read_bytes p w))
  unfolding submit_read_bytes
  submit_read_bytes-IsWaiting w h = ground arith

  pub read_cipher-IsWaiting :
      (w : World Engine)
      → answers w.conn.state io_read ≡ true
      → IsWaiting (or_error (read_cipher p w))
  read_cipher-IsWaiting w h = ground arith

  pub write_raw-IsWaiting :
      (bytes : Bytes) (w : World Engine)
      → answers w.conn.state io_write ≡ true
      → IsWaiting (or_error (write_raw p bytes w))
  write_raw-IsWaiting bytes w h = ground arith

  write_encrypted-IsWaiting :
      (step : TlsStep Engine) (w : World Engine)
      → answers w.conn.state io_write ≡ true
      → IsWaiting (or_error (write_encrypted p step w))
  write_encrypted-IsWaiting step w h = ground arith

  pub submit_write_bytes-IsWaiting :
      (bytes : Bytes) (w : World Engine)
      → answers w.conn.state io_write ≡ true
      → IsWaiting (or_error (submit_write_bytes p bytes w))
  unfolding submit_write_bytes
  submit_write_bytes-IsWaiting bytes w h = ground arith

  first_step-IsWaiting :
      (step : TlsStep Engine) (w : World Engine)
      → w.conn.state ≡ tls_handshaking
      → Holds (first_step p step w) IsWaiting
  unfolding first_step
  first_step-IsWaiting step w h =
      let w' = record w { conn = record (w.conn) { tls = some step.engine } } in
      let f = fail_with-IsWaiting log_tls_fail "TLS handshake failed to start" w' in
      let r = read_cipher-IsWaiting w' (ap (λ s. answers s io_read) h) in
      let s = write_raw-IsWaiting step.out w' (ap (λ s. answers s io_write) h) in ground arith

  pub begin_tls_handshake-IsWaiting :
      (now_ms : ℕ) (detail : String) (w : World Engine)
      → Holds (begin_tls_handshake p now_ms detail w) IsWaiting
  unfolding begin_tls_handshake start_engine
  begin_tls_handshake-IsWaiting now_ms detail w =
      let f =
        fail_with-IsWaiting log_tls_fail "failed to create the TLS engine"
          (record w { conn = record (w.conn) { tls = none } }) in
      elim (create w.conn.actor w.conn.trust)
        as (λ made.
          Holds
            (elim made [
              | none ↦
                  fail_with log_tls_fail "failed to create the TLS engine"
                    (record w { conn = record (w.conn) { tls = none } })
              | some engine ↦
                  start_engine p engine now_ms detail
                    (record w { conn = record (w.conn) { tls = some engine } })
            ])
            IsWaiting) [
              | none ↦ f
              | some engine ↦
                  after IsWaiting log_tls_begin (literal detail) _ _ (first_step-IsWaiting _ _ refl)
            ]
