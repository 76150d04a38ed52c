-- ===== src/Connection/Frame/Machine.antt =====
-- src/smtp_connection.c: what the handshake and the calls of the orchestrator keep.
use smtpc_cli.Connection.Runs.{either, either_under, after, asserting_under, after_either}
use smtpc_cli.Connection.State.{
  submitted_connect, log_connecting, literal, log_error, log_connected, log_tls_fail, log_tls_ok,
  log_tls_cert_warning, TlsStep, Platform, World, Holds, ConnState, CertInfo, connecting,
  wait_banner, sending_ehlo, wait_ehlo, sending_starttls, wait_starttls_reply, read_buf_size,
  log_timeout,
}
use smtpc_cli.Connection.Io.{submit}
use smtpc_cli.Connection.Handlers.{
  IoResult, append_received, handle_connect_completion, handle_banner_read,
}
use smtpc_cli.Connection.Handlers.Starttls.{
  handle_ehlo_write_completion, handle_ehlo_read, handle_starttls_write_completion,
  handle_starttls_reply,
}
use smtpc_cli.Connection.Handlers.Handshake.{
  handle_established, handle_handshake_step, handle_handshake_input, handle_tls_handshake,
}
use smtpc_cli.Connection.Machine.{
  connection_start, is_read, is_write, is_connect, is_handshaking, is_terminal, dispatch, decrypted,
  on_plain_io, on_handshake_io, on_io, check_timeout,
}
use smtpc_cli.Common.{
  arith, ℕ, ◌-◌, true, false, ◌||◌, ◌&&◌, not, Bytes, ◌≡◌, refl, Option, some, none, leb, ◌==◌,
  length,
}
use smtpc_cli.Connection.Frame.{
  or_error-Keeps, Frame, empties, fail_with-Keeps, submit_read_bytes-Keeps, Keeps,
}
use smtpc_cli.Connection.Frame.Dialogue.{
  on_chunk-Keeps, await_banner-Keeps, send_ehlo-Keeps, handle_connected-Keeps, handle_banner-Keeps,
  handle_ehlo-Keeps, handle_starttls_answer-Keeps,
}

module _ (k : Frame) (p : Platform) where
  open p use {Engine, create, decrypt}

  handle_established-Keeps :
      (cert : CertInfo) (identity : Bytes) (now_ms : ℕ) (w : World Engine)
      → Keeps k p w
      → Holds (handle_established p cert identity now_ms w) (Keeps k p)
  unfolding handle_established
  handle_established-Keeps cert identity now_ms w h =
      after_either (Keeps k p) cert.validated log_tls_ok log_tls_cert_warning _ _ w _
        (either (Keeps k p) (not w.conn.banner_seen) _ _ (await_banner-Keeps k p now_ms _ h)
          (send_ehlo-Keeps k p identity now_ms _ (empties k p w h)))
        (either (Keeps k p) (not w.conn.banner_seen) _ _ (await_banner-Keeps k p now_ms _ h)
          (send_ehlo-Keeps k p identity now_ms _ (empties k p w h)))

  handle_handshake_step-Keeps :
      (step : TlsStep Engine) (identity : Bytes) (now_ms : ℕ) (w : World Engine)
      → Keeps k p w
      → Holds (handle_handshake_step p step identity now_ms w) (Keeps k p)
  unfolding handle_handshake_step
  handle_handshake_step-Keeps step identity now_ms w h =
      let w' = record w { conn = record (w.conn) { tls = some step.engine } } in
      let f = fail_with-Keeps k p log_tls_fail "TLS handshake failed" w' h in
      let e = handle_established-Keeps (p.cert_info step.engine) identity now_ms w' h in
      ground arith

  handle_handshake_input-Keeps :
      (input : Option Bytes) (engine : Engine) (identity : Bytes) (now_ms : ℕ) (w : World Engine)
      → Keeps k p w
      → Holds (handle_handshake_input p input engine identity now_ms w) (Keeps k p)
  unfolding handle_handshake_input
  handle_handshake_input-Keeps none engine identity now_ms w h =
      fail_with-Keeps k p log_tls_fail _ w h
  handle_handshake_input-Keeps (some input) engine identity now_ms w h =
      handle_handshake_step-Keeps _ identity now_ms w h

  handle_tls_handshake-Keeps :
      (result : IoResult) (engine : Engine) (identity : Bytes) (now_ms : ℕ) (w : World Engine)
      → Keeps k p w
      → Holds (handle_tls_handshake p result engine identity now_ms w) (Keeps k p)
  unfolding handle_tls_handshake
  handle_tls_handshake-Keeps result engine identity now_ms w h =
      either (Keeps k p) result.failed _ _ (fail_with-Keeps k p log_tls_fail _ w h)
        (handle_handshake_input-Keeps _ engine identity now_ms w h)

  -- Where the bytes of a successful read may be received.
  abbrev pub Receives : IoResult → World Engine → Type 0
  Receives result w =
      is_read result.kind ≡ true
      → result.failed ≡ false
      → Keeps k p (append_received result.chunk w)

  dispatch-Keeps :
      (s : ConnState) (result : IoResult) (identity : Bytes) (now_ms : ℕ) (w : World Engine)
      → Keeps k p w
      → Receives result w
      → Holds (dispatch p s result identity now_ms w) (Keeps k p)
  unfolding dispatch handle_connect_completion handle_banner_read handle_ehlo_write_completion
      handle_ehlo_read handle_starttls_write_completion handle_starttls_reply
  dispatch-Keeps connecting result identity now_ms w h r =
      asserting_under (Keeps k p) (is_connect result.kind) _ (λ _.
        either (Keeps k p) result.failed _ _ (fail_with-Keeps k p log_error _ w h) (
          after (Keeps k p) log_connected (literal "connected") w _
            (handle_connected-Keeps k p w.conn.tls_mode now_ms _ h)))
  dispatch-Keeps wait_banner result identity now_ms w h r =
      asserting_under (Keeps k p) (is_read result.kind) _ (λ kind.
        on_chunk-Keeps k p result _ _ w _ h
          (λ f. handle_banner-Keeps k p _ identity now_ms _ (r kind f)))
  dispatch-Keeps sending_ehlo result identity now_ms w h r =
      asserting_under (Keeps k p) (is_write result.kind) _ (λ _.
        either (Keeps k p) result.failed _ _ (fail_with-Keeps k p log_error _ w h) (
          either (Keeps k p) (not (result.sent == w.conn.wire_write_len)) _ _
            (fail_with-Keeps k p log_error _ w h)
            (submit_read_bytes-Keeps k p _ (empties k p w h))))
  dispatch-Keeps wait_ehlo result identity now_ms w h r =
      asserting_under (Keeps k p) (is_read result.kind) _ (λ kind.
        on_chunk-Keeps k p result _ _ w _ h (λ f. handle_ehlo-Keeps k p _ now_ms _ (r kind f)))
  dispatch-Keeps sending_starttls result identity now_ms w h r =
      asserting_under (Keeps k p) (is_write result.kind) _ (λ _.
        either (Keeps k p) (result.failed || not (result.sent == w.conn.wire_write_len)) _ _
          (fail_with-Keeps k p log_error _ w h) (submit_read_bytes-Keeps k p _ (empties k p w h)))
  dispatch-Keeps wait_starttls_reply result identity now_ms w h r =
      asserting_under (Keeps k p) (is_read result.kind) _ (λ kind.
        on_chunk-Keeps k p result _ _ w _ h
          (λ f. handle_starttls_answer-Keeps k p _ now_ms _ (r kind f)))
  dispatch-Keeps _ result identity now_ms w h r = tt

  decrypted-Keeps :
      (step : TlsStep Engine) (result : IoResult) (identity : Bytes) (now_ms : ℕ) (w : World Engine)
      → Keeps k p w
      → Keeps k p (append_received step.out w)
      → Holds (decrypted p step result identity now_ms w) (Keeps k p)
  unfolding decrypted
  decrypted-Keeps step result identity now_ms w h r =
      let w' = record w { conn = record (w.conn) { tls = some step.engine } } in
      let f = fail_with-Keeps k p log_error "TLS decrypt failed" w' h in
      let s = submit_read_bytes-Keeps k p w' h in
      let d =
        dispatch-Keeps w.conn.state (record result { chunk = step.out }) identity now_ms w' h
          (λ _ _. r) in
      ground arith

  -- A read that is none, or has failed, brings no bytes.
  no_read-Receives :
      (result : IoResult) (w : World Engine)
      → not (is_read result.kind && not result.failed) ≡ true
      → Receives result w
  no_read-Receives result w n kind f = absurd (ground arith)

  on_plain_io-Keeps :
      (tls : Option Engine) (result : IoResult) (identity : Bytes) (now_ms : ℕ) (w : World Engine)
      → Keeps k p w
      → (tls ≡ none → Receives result w)
      → ((engine : Engine)
          → tls ≡ some engine
          → leb read_buf_size (length w.conn.received) ≡ false
          → Keeps k p (
              append_received
                (decrypt engine result.chunk (read_buf_size - length w.conn.received)).out
                w))
      → Holds (on_plain_io p tls result identity now_ms w) (Keeps k p)
  unfolding on_plain_io
  on_plain_io-Keeps none result identity now_ms w h plain deciphered =
      dispatch-Keeps w.conn.state result identity now_ms w h (plain refl)
  on_plain_io-Keeps (some engine) result identity now_ms w h plain deciphered =
      either_under (Keeps k p) (not (is_read result.kind && not result.failed)) _ _
        (λ n. dispatch-Keeps w.conn.state result identity now_ms w h (no_read-Receives result w n))
        (λ _.
          either_under (Keeps k p) (leb read_buf_size (length w.conn.received)) _ _
            (λ _. fail_with-Keeps k p log_error _ w h)
            (λ room. decrypted-Keeps _ result identity now_ms w h (deciphered engine refl room)))

  on_handshake_io-Keeps :
      (tls : Option Engine) (result : IoResult) (identity : Bytes) (now_ms : ℕ) (w : World Engine)
      → Keeps k p w
      → Holds (on_handshake_io p tls result identity now_ms w) (Keeps k p)
  unfolding on_handshake_io
  on_handshake_io-Keeps none result identity now_ms w h = tt
  on_handshake_io-Keeps (some engine) result identity now_ms w h =
      asserting_under (Keeps k p) (is_read result.kind || is_write result.kind) _
        (λ _. handle_tls_handshake-Keeps result engine identity now_ms w h)

  pub on_io-Keeps :
      (result : IoResult) (identity : Bytes) (now_ms : ℕ) (w : World Engine)
      → Keeps k p w
      → (w.conn.tls ≡ none → Receives result w)
      → ((engine : Engine)
          → w.conn.tls ≡ some engine
          → leb read_buf_size (length w.conn.received) ≡ false
          → Keeps k p (
              append_received
                (decrypt engine result.chunk (read_buf_size - length w.conn.received)).out
                w))
      → Holds (on_io p result identity now_ms w) (Keeps k p)
  unfolding on_io
  on_io-Keeps result identity now_ms w h plain deciphered =
      either (Keeps k p) (is_handshaking w.conn.state) _ _
        (on_handshake_io-Keeps w.conn.tls result identity now_ms w h)
        (on_plain_io-Keeps w.conn.tls result identity now_ms w h plain deciphered)

  pub check_timeout-Keeps :
      (now_ms : ℕ) (w : World Engine) → Keeps k p w → Holds (check_timeout p now_ms w) (Keeps k p)
  unfolding check_timeout
  check_timeout-Keeps now_ms w h = either (Keeps k p) (is_terminal w.conn.state) _ _ h (
      either (Keeps k p) (leb w.conn.deadline_ms now_ms) _ _ (after (Keeps k p) log_timeout _ w _ h)
        h)

  pub connection_start-Keeps :
      (now_ms timeout_ms : ℕ) (w : World Engine)
      → Keeps k p w
      → Holds (connection_start p now_ms timeout_ms w) (Keeps k p)
  unfolding connection_start
  connection_start-Keeps now_ms timeout_ms w h =
      after (Keeps k p) log_connecting _ _ _
        (or_error-Keeps k p (submit p submitted_connect _).0 _ (empties k p w h))
