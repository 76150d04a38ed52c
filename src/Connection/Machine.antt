-- ===== src/Connection/Machine.antt =====
-- src/smtp_connection.c: the calls of the orchestrator. Arguments that the assertions want non-null
-- are values here.
use smtpc_cli.Connection.State.{
  ConnState, connecting, wait_banner, sending_ehlo, wait_ehlo, sending_starttls,
  wait_starttls_reply, tls_handshaking, ready, error, timed_out, TlsMode, tls_ok, want_read,
  want_write, tls_error, log_connecting, log_error, log_timeout, literal, submitted_connect,
  TlsStep, Platform, Conn, World, Run, done, aborted, ◌>>=◌, read_buf_size, deadline,
}
use smtpc_cli.Connection.Io.{set_state, emit, fail_with, or_error, submit, submit_read_bytes}
use smtpc_cli.Connection.Handlers.{
  IoKind, io_connect, io_read, io_write, IoResult, handle_connect_completion, handle_banner_read,
}
use smtpc_cli.Connection.Handlers.Starttls.{
  handle_ehlo_write_completion, handle_ehlo_read, handle_starttls_write_completion,
  handle_starttls_reply,
}
use smtpc_cli.Connection.Handlers.Handshake.{handle_tls_handshake}
use smtpc_cli.Common.{
  ℕ, ◌-◌, Bool, true, false, not, ◌&&◌, ◌||◌, [], Bytes, Option, some, none, leb, if◌then◌else◌,
  length, take,
}

abbrev pub max_actor_size : ℕ
max_actor_size = 320

-- `smtp_connection_init`: all zero, but for what it is given; the zero state is CONNECTING.
abbrev pub connection_init : {E : Type 0} → Bytes → TlsMode → (trust : Bool) → Conn E
connection_init actor tls_mode trust = record {
  state = connecting;
  received = [];
  write_len = 0;
  wire_write_len = 0;
  connect_timeout_ms = 0;
  deadline_ms = 0;
  actor = take (max_actor_size - 1) actor;
  greeting_code = 0;
  tls_mode = tls_mode;
  tls = none;
  trust = trust;
  banner_seen = false;
}

-- `smtp_connection_close`: the engine is released.
unfoldable pub connection_close : {E : Type 0} → World E → World E
connection_close w = record w { conn = record (w.conn) { tls = none } }

abbrev pub is_read : IoKind → Bool
is_read io_read = true
is_read _ = false

abbrev pub is_write : IoKind → Bool
is_write io_write = true
is_write _ = false

abbrev pub is_connect : IoKind → Bool
is_connect io_connect = true
is_connect _ = false

abbrev pub is_handshaking : ConnState → Bool
is_handshaking tls_handshaking = true
is_handshaking _ = false

abbrev pub is_terminal : ConnState → Bool
is_terminal ready = true
is_terminal error = true
is_terminal timed_out = true
is_terminal _ = false

-- `SMTP_CONN_ASSERT(test)` in front of a handler.
abbrev pub asserting : {E : Type 0} → Bool → Run E → Run E
asserting true r = r
asserting false r = aborted

module _ (p : Platform) where
  open p use {Engine, decrypt}

  -- `smtp_connection_start`; the asserted `conn->tls == NULL` is what `connection_init` leaves. A
  -- failure is the state ERROR.
  unfoldable pub connection_start : (now_ms connect_timeout_ms : ℕ) → World Engine → Run Engine
  connection_start now_ms connect_timeout_ms w = do
    w' ← emit log_connecting (literal "connecting") (record w {
      conn = record (w.conn) {
        state = connecting;
        connect_timeout_ms = connect_timeout_ms;
        deadline_ms = deadline now_ms connect_timeout_ms;
        received = [];
        write_len = 0;
        banner_seen = false;
      };
    })
    done (or_error (submit p submitted_connect w'))

  -- The switch on the state.
  unfoldable pub dispatch : ConnState → IoResult → Bytes → ℕ → World Engine → Run Engine
  dispatch connecting result ehlo_identity now_ms w =
      asserting (is_connect result.kind) (handle_connect_completion p result now_ms w)
  dispatch wait_banner result ehlo_identity now_ms w =
      asserting (is_read result.kind) (handle_banner_read p result ehlo_identity now_ms w)
  dispatch sending_ehlo result ehlo_identity now_ms w =
      asserting (is_write result.kind) (handle_ehlo_write_completion p result w)
  dispatch wait_ehlo result ehlo_identity now_ms w =
      asserting (is_read result.kind) (handle_ehlo_read p result now_ms w)
  dispatch sending_starttls result ehlo_identity now_ms w =
      asserting (is_write result.kind) (handle_starttls_write_completion p result w)
  dispatch wait_starttls_reply result ehlo_identity now_ms w =
      asserting (is_read result.kind) (handle_starttls_reply p result now_ms w)
  dispatch _ result ehlo_identity now_ms w = aborted

  -- Behind `smtp_tls_decrypt`: the plaintext takes the place of the ciphertext.
  unfoldable pub decrypted : TlsStep Engine → IoResult → Bytes → ℕ → World Engine → Run Engine
  decrypted step result ehlo_identity now_ms w =
      let w' = record w { conn = record (w.conn) { tls = some step.engine } } in
      elim step.status [
        | want_read ↦ done (or_error (submit_read_bytes p w'))
        | tls_error ↦ fail_with log_error "TLS decrypt failed" w'
        | tls_ok ↦
            dispatch w'.conn.state (record result { chunk = step.out }) ehlo_identity now_ms w'
        | want_write ↦ aborted
      ]

  -- A completion outside the handshake.
  unfoldable pub on_plain_io : Option Engine → IoResult → Bytes → ℕ → World Engine → Run Engine
  on_plain_io none result ehlo_identity now_ms w =
      dispatch w.conn.state result ehlo_identity now_ms w
  on_plain_io (some engine) result ehlo_identity now_ms w =
      if not (is_read result.kind && not result.failed)
      then dispatch w.conn.state result ehlo_identity now_ms w
      else if leb read_buf_size (length w.conn.received)
      then fail_with log_error "decrypt data would exceed the read buffer" w
      else decrypted (decrypt engine result.chunk (read_buf_size - length w.conn.received)) result
          ehlo_identity now_ms w

  -- A completion of the handshake; its state has an engine.
  unfoldable pub on_handshake_io : Option Engine → IoResult → Bytes → ℕ → World Engine → Run Engine
  on_handshake_io none result ehlo_identity now_ms w = aborted
  on_handshake_io (some engine) result ehlo_identity now_ms w =
      asserting (is_read result.kind || is_write result.kind)
        (handle_tls_handshake p result engine ehlo_identity now_ms w)

  -- `smtp_connection_on_io`
  unfoldable pub on_io : IoResult → Bytes → ℕ → World Engine → Run Engine
  on_io result ehlo_identity now_ms w =
      if is_handshaking w.conn.state
      then on_handshake_io w.conn.tls result ehlo_identity now_ms w
      else on_plain_io w.conn.tls result ehlo_identity now_ms w

  -- `smtp_connection_check_timeout`
  unfoldable pub check_timeout : ℕ → World Engine → Run Engine
  check_timeout now_ms w =
      if is_terminal w.conn.state
      then done w
      else if leb w.conn.deadline_ms now_ms
      then (do
        w' ← emit log_timeout (literal "step deadline exceeded") w
        done (set_state timed_out w'))
      else done w
