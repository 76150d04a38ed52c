-- ===== src/Connection/Progress/Machine.antt =====
-- src/smtp_connection.c: every completion and deadline check leaves a connection waiting or finished.
use smtpc_cli.Connection.Runs.{either, after, after_either}
use smtpc_cli.Connection.State.{
  literal, log_error, log_connected, log_tls_fail, log_tls_ok, log_tls_cert_warning, log_connecting,
  TlsStep, Platform, World, Run, Holds, ConnState, CertInfo, connecting, wait_banner, sending_ehlo,
  wait_ehlo, sending_starttls, wait_starttls_reply, tls_handshaking, read_buf_size, log_timeout,
}
use smtpc_cli.Connection.Handlers.{
  IoKind, io_connect, io_read, io_write, IoResult, handle_connect_completion, handle_banner_read,
}
use smtpc_cli.Connection.Handlers.Starttls.{
  handle_ehlo_write_completion, handle_ehlo_read, handle_starttls_write_completion,
  handle_starttls_reply,
}
use smtpc_cli.Connection.Handlers.Handshake.{
  handle_established, handle_handshake_step, handle_handshake_input, handle_tls_handshake,
}
use smtpc_cli.Connection.Machine.{
  is_read, is_write, is_connect, is_handshaking, is_terminal, asserting, dispatch, decrypted,
  on_plain_io, on_handshake_io, on_io, check_timeout, connection_start,
}
use smtpc_cli.Common.{
  arith, ℕ, Bool, true, false, ◌||◌, ◌&&◌, not, Bytes, ◌≡◌, refl, ap, Option, some, none, leb, ◌==◌,
  length, if◌then◌else◌,
}
use smtpc_cli.Connection.Progress.{
  answers, IsWaiting, fail_with-IsWaiting, submit_read_bytes-IsWaiting, read_cipher-IsWaiting,
  write_raw-IsWaiting,
}
use smtpc_cli.Connection.Progress.Dialogue.{
  IsReading, on_chunk-IsWaiting, await_banner-IsWaiting, send_ehlo-IsWaiting,
  handle_connected-IsWaiting, handle_banner-IsWaiting, handle_ehlo-IsWaiting,
  handle_starttls_answer-IsWaiting,
}

asserting_holds :
    {E : Type 0} (b : Bool) (r : Run E) → Holds r IsWaiting → Holds (asserting b r) IsWaiting
asserting_holds true r h = h
asserting_holds false r h = tt

either_under :
    {E : Type 0} (b : Bool) (r s : Run E)
    → Holds r IsWaiting
    → (b ≡ false → Holds s IsWaiting)
    → Holds (if b then r else s) IsWaiting
either_under true r s h n = h
either_under false r s h n = n refl

a_read :
    (result : IoResult)
    → not (is_read result.kind && not result.failed) ≡ false
    → is_read result.kind ≡ true
a_read result h = ground arith

module _ (p : Platform) where
  open p use {Engine, decrypt}

  handle_established-IsWaiting :
      (cert : CertInfo) (identity : Bytes) (now_ms : ℕ) (w : World Engine)
      → Holds (handle_established p cert identity now_ms w) IsWaiting
  unfolding handle_established
  handle_established-IsWaiting cert identity now_ms w =
      after_either IsWaiting cert.validated log_tls_ok log_tls_cert_warning _ _ w _
        (either IsWaiting (not w.conn.banner_seen) _ _ (await_banner-IsWaiting p now_ms _)
          (send_ehlo-IsWaiting p identity now_ms _))
        (either IsWaiting (not w.conn.banner_seen) _ _ (await_banner-IsWaiting p now_ms _)
          (send_ehlo-IsWaiting p identity now_ms _))

  handle_handshake_step-IsWaiting :
      (step : TlsStep Engine) (identity : Bytes) (now_ms : ℕ) (w : World Engine)
      → w.conn.state ≡ tls_handshaking
      → Holds (handle_handshake_step p step identity now_ms w) IsWaiting
  unfolding handle_handshake_step
  handle_handshake_step-IsWaiting step identity now_ms w h =
      let w' = record w { conn = record (w.conn) { tls = some step.engine } } in
      let f = fail_with-IsWaiting log_tls_fail "TLS handshake failed" w' in
      let e = handle_established-IsWaiting (p.cert_info step.engine) identity now_ms w' in
      let r = read_cipher-IsWaiting p w' (ap (λ s. answers s io_read) h) in
      let s = write_raw-IsWaiting p step.out w' (ap (λ s. answers s io_write) h) in ground arith

  handle_handshake_input-IsWaiting :
      (input : Option Bytes) (engine : Engine) (identity : Bytes) (now_ms : ℕ) (w : World Engine)
      → w.conn.state ≡ tls_handshaking
      → Holds (handle_handshake_input p input engine identity now_ms w) IsWaiting
  unfolding handle_handshake_input
  handle_handshake_input-IsWaiting none engine identity now_ms w h =
      fail_with-IsWaiting log_tls_fail _ w
  handle_handshake_input-IsWaiting (some input) engine identity now_ms w h =
      handle_handshake_step-IsWaiting _ identity now_ms w h

  handle_tls_handshake-IsWaiting :
      (result : IoResult) (engine : Engine) (identity : Bytes) (now_ms : ℕ) (w : World Engine)
      → w.conn.state ≡ tls_handshaking
      → Holds (handle_tls_handshake p result engine identity now_ms w) IsWaiting
  unfolding handle_tls_handshake
  handle_tls_handshake-IsWaiting result engine identity now_ms w h =
      either IsWaiting result.failed _ _ (fail_with-IsWaiting log_tls_fail _ w)
        (handle_handshake_input-IsWaiting _ engine identity now_ms w h)

  IsReading-at :
      (w : World Engine) (s : ConnState)
      → w.conn.state ≡ s
      → answers s io_read ≡ true
      → IsReading p w
  IsReading-at w s e h = ground arith

  dispatch-IsWaiting :
      (s : ConnState) (result : IoResult) (identity : Bytes) (now_ms : ℕ) (w : World Engine)
      → w.conn.state ≡ s
      → Holds (dispatch p s result identity now_ms w) IsWaiting
  unfolding dispatch handle_connect_completion handle_banner_read handle_ehlo_write_completion
      handle_ehlo_read handle_starttls_write_completion handle_starttls_reply
  dispatch-IsWaiting connecting result identity now_ms w e =
      asserting_holds (is_connect result.kind) _ (
        either IsWaiting result.failed _ _ (fail_with-IsWaiting log_error _ w) (
          after IsWaiting log_connected (literal "connected") w _
            (handle_connected-IsWaiting p w.conn.tls_mode now_ms _)))
  dispatch-IsWaiting wait_banner result identity now_ms w e =
      asserting_holds (is_read result.kind) _ (
        on_chunk-IsWaiting result _ _ w _
          (handle_banner-IsWaiting p _ identity now_ms _ (IsReading-at w wait_banner e refl)))
  dispatch-IsWaiting sending_ehlo result identity now_ms w e =
      asserting_holds (is_write result.kind) _ (
        either IsWaiting result.failed _ _ (fail_with-IsWaiting log_error _ w) (
          either IsWaiting (not (result.sent == w.conn.wire_write_len)) _ _
            (fail_with-IsWaiting log_error _ w) (submit_read_bytes-IsWaiting p _ refl)))
  dispatch-IsWaiting wait_ehlo result identity now_ms w e =
      asserting_holds (is_read result.kind) _ (
        on_chunk-IsWaiting result _ _ w _
          (handle_ehlo-IsWaiting p _ now_ms _ (IsReading-at w wait_ehlo e refl)))
  dispatch-IsWaiting sending_starttls result identity now_ms w e =
      asserting_holds (is_write result.kind) _ (
        either IsWaiting (result.failed || not (result.sent == w.conn.wire_write_len)) _ _
          (fail_with-IsWaiting log_error _ w) (submit_read_bytes-IsWaiting p _ refl))
  dispatch-IsWaiting wait_starttls_reply result identity now_ms w e =
      asserting_holds (is_read result.kind) _ (
        on_chunk-IsWaiting result _ _ w _ (
          handle_starttls_answer-IsWaiting p _ now_ms _
            (IsReading-at w wait_starttls_reply e refl)))
  dispatch-IsWaiting _ result identity now_ms w e = tt

  -- A state that takes this kind of completion, when it is a read, can read on.
  decrypted-IsWaiting :
      (step : TlsStep Engine) (result : IoResult) (identity : Bytes) (now_ms : ℕ) (w : World Engine)
      → is_terminal w.conn.state || answers w.conn.state io_read ≡ true
      → Holds (decrypted p step result identity now_ms w) IsWaiting
  unfolding decrypted
  decrypted-IsWaiting step result identity now_ms w h =
      let w' = record w { conn = record (w.conn) { tls = some step.engine } } in
      let f = fail_with-IsWaiting log_error "TLS decrypt failed" w' in
      let s = submit_read_bytes-IsWaiting p w' h in
      let d =
        dispatch-IsWaiting w.conn.state (record result { chunk = step.out }) identity now_ms w'
          refl in
      ground arith

  on_plain_io-IsWaiting :
      (tls : Option Engine) (result : IoResult) (identity : Bytes) (now_ms : ℕ) (w : World Engine)
      → (is_read result.kind ≡ true
          → is_terminal w.conn.state || answers w.conn.state io_read ≡ true)
      → Holds (on_plain_io p tls result identity now_ms w) IsWaiting
  unfolding on_plain_io
  on_plain_io-IsWaiting none result identity now_ms w h =
      dispatch-IsWaiting w.conn.state result identity now_ms w refl
  on_plain_io-IsWaiting (some engine) result identity now_ms w h =
      either_under (not (is_read result.kind && not result.failed)) _ _
        (dispatch-IsWaiting w.conn.state result identity now_ms w refl)
        (λ n.
          either IsWaiting (leb read_buf_size (length w.conn.received)) _ _
            (fail_with-IsWaiting log_error _ w)
            (decrypted-IsWaiting _ result identity now_ms w (h (a_read result n))))

  on_handshake_io-IsWaiting :
      (tls : Option Engine) (result : IoResult) (identity : Bytes) (now_ms : ℕ) (w : World Engine)
      → w.conn.state ≡ tls_handshaking
      → Holds (on_handshake_io p tls result identity now_ms w) IsWaiting
  unfolding on_handshake_io
  on_handshake_io-IsWaiting none result identity now_ms w h = tt
  on_handshake_io-IsWaiting (some engine) result identity now_ms w h =
      asserting_holds (is_read result.kind || is_write result.kind) _
        (handle_tls_handshake-IsWaiting result engine identity now_ms w h)

  -- A state that takes a read can read on.
  read_again :
      (s : ConnState) (kind : IoKind)
      → answers s kind ≡ true
      → is_read kind ≡ true
      → is_terminal s || answers s io_read ≡ true
  read_again s io_read h r = ground arith
  read_again s io_write h r = absurd (ground arith)
  read_again s io_connect h r = absurd (ground arith)

  io_at-IsWaiting :
      (s : ConnState) (result : IoResult) (identity : Bytes) (now_ms : ℕ) (w : World Engine)
      → w.conn.state ≡ s
      → answers w.conn.state result.kind ≡ true
      → Holds
          (if is_handshaking s
            then on_handshake_io p w.conn.tls result identity now_ms w
            else on_plain_io p w.conn.tls result identity now_ms w)
          IsWaiting
  io_at-IsWaiting tls_handshaking result identity now_ms w e h =
      on_handshake_io-IsWaiting w.conn.tls result identity now_ms w e
  io_at-IsWaiting _ result identity now_ms w e h =
      on_plain_io-IsWaiting w.conn.tls result identity now_ms w
        (read_again w.conn.state result.kind h)

  -- A completion of a kind that the state takes ends in an assertion, or leaves the connection
  -- READY, failed or timed out, or with a submission as the newest event that the reactor accepted
  -- and whose completion is of a kind that the new state takes.
  pub on_io-IsWaiting :
      (result : IoResult) (identity : Bytes) (now_ms : ℕ) (w : World Engine)
      → answers w.conn.state result.kind ≡ true
      → Holds (on_io p result identity now_ms w) IsWaiting
  unfolding on_io
  on_io-IsWaiting result identity now_ms w h =
      io_at-IsWaiting w.conn.state result identity now_ms w refl h

  connection_start-IsWaiting :
      (now_ms timeout_ms : ℕ) (w : World Engine)
      → Holds (connection_start p now_ms timeout_ms w) IsWaiting
  unfolding connection_start
  connection_start-IsWaiting now_ms timeout_ms w =
      after IsWaiting log_connecting _ _ _ (ground arith)

  check_timeout-IsWaiting :
      (now_ms : ℕ) (w : World Engine) → IsWaiting w → Holds (check_timeout p now_ms w) IsWaiting
  unfolding check_timeout
  check_timeout-IsWaiting now_ms w h = either IsWaiting (is_terminal w.conn.state) _ _ h (
      either IsWaiting (leb w.conn.deadline_ms now_ms) _ _ (after IsWaiting log_timeout _ w _ refl)
        h)
