-- ===== src/Connection/Security/Machine.antt =====
-- The calls of src/smtp_connection.c that the orchestrator makes stay where they are allowed.
use smtpc_cli.Connection.State.{
  ConnState, connecting, wait_banner, sending_ehlo, wait_ehlo, sending_starttls,
  wait_starttls_reply, tls_handshaking, ready, error, timed_out, TlsMode, mode_none, opportunistic,
  explicit, implicit, log_error, log_timeout, log_connecting, TlsStep, Platform, World, Run, Holds,
  read_buf_size,
}
use smtpc_cli.Connection.Handlers.{IoResult}
use smtpc_cli.Connection.Machine.{
  connection_start, is_read, is_write, is_connect, is_handshaking, is_terminal, asserting, dispatch,
  decrypted, on_plain_io, on_handshake_io, on_io, check_timeout,
}
use smtpc_cli.Connection.Security.{has_engine, shaking, IsAllowed}
use smtpc_cli.Connection.Security.Io.{after_emit, fail_with-IsAllowed, submit_read_bytes-IsAllowed}
use smtpc_cli.Connection.Security.Handlers.{
  either_holds, allowed_at, may_fail, handle_banner_read-IsAllowed,
  handle_connect_completion-IsAllowed, handle_ehlo_write_completion-IsAllowed,
}
use smtpc_cli.Connection.Security.Starttls.{
  handle_ehlo_read-IsAllowed, handle_starttls_write_completion-IsAllowed,
  handle_starttls_reply-IsAllowed,
}
use smtpc_cli.Connection.Security.Handshake.{handle_tls_handshake-IsAllowed}
use smtpc_cli.Common.{
  if◌then◌else◌, ap, arith, ℕ, Bool, true, false, ◌||◌, ◌&&◌, not, Bytes, ◌≡◌, refl, Option, some,
  none, leb, length,
}

asserting_holds :
    {E : Type 0} (b : Bool) (r : Run E) → Holds r IsAllowed → Holds (asserting b r) IsAllowed
asserting_holds true r h = h
asserting_holds false r h = tt

engine_may_shake :
    (mode : TlsMode) (engine : Bool) → shaking mode engine ≡ true → shaking mode true ≡ true
engine_may_shake mode_none engine h = ground arith
engine_may_shake opportunistic engine h = refl
engine_may_shake explicit engine h = refl
engine_may_shake implicit engine h = refl

module _ (p : Platform) where
  open p use {Engine}

  dispatch-IsAllowed :
      (s : ConnState) (result : IoResult) (identity : Bytes) (now_ms : ℕ) (w : World Engine)
      → w.conn.state ≡ s
      → IsAllowed w
      → Holds (dispatch p s result identity now_ms w) IsAllowed
  unfolding dispatch
  dispatch-IsAllowed connecting result identity now_ms w e h =
      asserting_holds (is_connect result.kind) _
        (handle_connect_completion-IsAllowed p result now_ms w e h)
  dispatch-IsAllowed wait_banner result identity now_ms w e h =
      asserting_holds (is_read result.kind) _
        (handle_banner_read-IsAllowed p result identity now_ms w e h)
  dispatch-IsAllowed sending_ehlo result identity now_ms w e h =
      asserting_holds (is_write result.kind) _
        (handle_ehlo_write_completion-IsAllowed p result w (allowed_at w sending_ehlo e h))
  dispatch-IsAllowed wait_ehlo result identity now_ms w e h =
      asserting_holds (is_read result.kind) _ (handle_ehlo_read-IsAllowed p result now_ms w e h)
  dispatch-IsAllowed sending_starttls result identity now_ms w e h =
      asserting_holds (is_write result.kind) _ (
        handle_starttls_write_completion-IsAllowed p result w (allowed_at w sending_starttls e h) h)
  dispatch-IsAllowed wait_starttls_reply result identity now_ms w e h =
      asserting_holds (is_read result.kind) _
        (handle_starttls_reply-IsAllowed p result now_ms w e h)
  dispatch-IsAllowed tls_handshaking result identity now_ms w e h = tt
  dispatch-IsAllowed ready result identity now_ms w e h = tt
  dispatch-IsAllowed error result identity now_ms w e h = tt
  dispatch-IsAllowed timed_out result identity now_ms w e h = tt

  engine_kept :
      (engine : Engine) (w : World Engine)
      → has_engine w.conn.tls ≡ true
      → IsAllowed w
      → IsAllowed (record w { conn = record (w.conn) { tls = some engine } })
  engine_kept engine w e h = ground arith

  decrypted-IsAllowed :
      (step : TlsStep Engine) (result : IoResult) (identity : Bytes) (now_ms : ℕ) (w : World Engine)
      → has_engine w.conn.tls ≡ true
      → IsAllowed w
      → Holds (decrypted p step result identity now_ms w) IsAllowed
  unfolding decrypted
  decrypted-IsAllowed step result identity now_ms w e h =
      let w' = record w { conn = record (w.conn) { tls = some step.engine } } in
      let h' = engine_kept step.engine w e h in
      let f = fail_with-IsAllowed log_error "TLS decrypt failed" w' (may_fail w' h') in
      let r = submit_read_bytes-IsAllowed p w' h' in
      let d =
        dispatch-IsAllowed w.conn.state (record result { chunk = step.out }) identity now_ms w' refl
          h' in
      ground arith

  on_plain_io-IsAllowed :
      (tls : Option Engine) (result : IoResult) (identity : Bytes) (now_ms : ℕ) (w : World Engine)
      → w.conn.tls ≡ tls
      → IsAllowed w
      → Holds (on_plain_io p tls result identity now_ms w) IsAllowed
  unfolding on_plain_io
  on_plain_io-IsAllowed none result identity now_ms w t h =
      dispatch-IsAllowed w.conn.state result identity now_ms w refl h
  on_plain_io-IsAllowed (some engine) result identity now_ms w t h =
      either_holds (not (is_read result.kind && not result.failed)) _ _
        (dispatch-IsAllowed w.conn.state result identity now_ms w refl h)
        (either_holds (leb read_buf_size (length w.conn.received)) _ _
          (fail_with-IsAllowed log_error _ w (may_fail w h))
          (decrypted-IsAllowed _ result identity now_ms w (ap has_engine t) h))

  on_handshake_io-IsAllowed :
      (tls : Option Engine) (result : IoResult) (identity : Bytes) (now_ms : ℕ) (w : World Engine)
      → w.conn.state ≡ tls_handshaking
      → IsAllowed w
      → Holds (on_handshake_io p tls result identity now_ms w) IsAllowed
  unfolding on_handshake_io
  on_handshake_io-IsAllowed none result identity now_ms w s h = tt
  on_handshake_io-IsAllowed (some engine) result identity now_ms w s h =
      asserting_holds (is_read result.kind || is_write result.kind) _ (
        handle_tls_handshake-IsAllowed p result engine identity now_ms w
          (engine_may_shake w.conn.tls_mode _ (allowed_at w tls_handshaking s h)) s)

  io_at-IsAllowed :
      (s : ConnState) (result : IoResult) (identity : Bytes) (now_ms : ℕ) (w : World Engine)
      → w.conn.state ≡ s
      → IsAllowed w
      → Holds
          (if is_handshaking s
            then on_handshake_io p w.conn.tls result identity now_ms w
            else on_plain_io p w.conn.tls result identity now_ms w)
          IsAllowed
  io_at-IsAllowed tls_handshaking result identity now_ms w e h =
      on_handshake_io-IsAllowed w.conn.tls result identity now_ms w e h
  io_at-IsAllowed _ result identity now_ms w e h =
      on_plain_io-IsAllowed w.conn.tls result identity now_ms w refl h

  pub on_io-IsAllowed :
      (result : IoResult) (identity : Bytes) (now_ms : ℕ) (w : World Engine)
      → IsAllowed w
      → Holds (on_io p result identity now_ms w) IsAllowed
  unfolding on_io
  on_io-IsAllowed result identity now_ms w h =
      io_at-IsAllowed w.conn.state result identity now_ms w refl h

  pub check_timeout-IsAllowed :
      (now_ms : ℕ) (w : World Engine) → IsAllowed w → Holds (check_timeout p now_ms w) IsAllowed
  unfolding check_timeout
  check_timeout-IsAllowed now_ms w h = either_holds (is_terminal w.conn.state) _ _ h (
      either_holds (leb w.conn.deadline_ms now_ms) _ _
        (after_emit log_timeout _ w _ IsAllowed (may_fail w h)) h)

  pub connection_start-IsAllowed :
      (now_ms timeout : ℕ) (w : World Engine)
      → w.conn.tls ≡ none
      → Holds (connection_start p now_ms timeout w) IsAllowed
  unfolding connection_start
  connection_start-IsAllowed now_ms timeout w h =
      after_emit log_connecting _ _ _ IsAllowed (ground arith)
