-- ===== src/Connection/Finished/Machine.antt =====
-- src/smtp_connection.c: every completion and every deadline check leaves a finished engine where a
-- handshake has been logged as finished.
use smtpc_cli.Connection.Runs.{either, after, asserting_under, after_either}
use smtpc_cli.Connection.State.{
  TlsMode, submitted_connect, log_connecting, literal, logged, log_error, log_connected,
  log_tls_fail, log_tls_ok, log_tls_cert_warning, TlsStep, Platform, World, Holds, ConnState,
  CertInfo, connecting, wait_banner, sending_ehlo, wait_ehlo, sending_starttls, wait_starttls_reply,
  read_buf_size, log_timeout, tls_ok, want_read, want_write, tls_error, tls_handshaking, ready,
  error, timed_out, deadline, done,
}
use smtpc_cli.Connection.Io.{add_event, or_error}
use smtpc_cli.Connection.Handlers.{IoResult, handle_connect_completion, handle_banner_read}
use smtpc_cli.Connection.Handlers.Starttls.{
  handle_ehlo_write_completion, handle_ehlo_read, handle_starttls_write_completion,
  handle_starttls_reply,
}
use smtpc_cli.Connection.Handlers.Handshake.{
  handle_established, handle_handshake_step, handle_handshake_input, handle_tls_handshake,
}
use smtpc_cli.Connection.Machine.{
  connection_start, is_read, is_write, is_connect, is_handshaking, is_terminal, dispatch, decrypted,
  on_plain_io, on_handshake_io, on_io, check_timeout,
}
use smtpc_cli.Common.{
  [], arith, ℕ, ◌-◌, Bool, true, false, ◌||◌, ◌&&◌, not, Bytes, ◌≡◌, refl, Option, some, none, leb,
  ◌==◌, length,
}
use smtpc_cli.Connection.Finished.{
  aborted, fail_with, submit_read_bytes, tls_ok, Finishes, Backed, IsBacked, Backed-step,
  fail_with-IsBacked, submit_read_bytes-IsBacked, or_error-IsBacked,
}
use smtpc_cli.Connection.Security.{established, has_engine, allowed, IsAllowed}
use smtpc_cli.Connection.Io.{write_raw, read_cipher}
use smtpc_cli.Connection.State.{TlsStatus}
use smtpc_cli.Connection.Finished.Dialogue.{
  on_chunk-IsBacked, await_banner-IsBacked, send_ehlo-IsBacked, handle_connected-IsBacked,
  handle_banner-IsBacked, handle_ehlo-IsBacked, handle_starttls_answer-IsBacked,
}

module _ (p : Platform) (Q : p.Engine → Type 0) (finishes : Finishes p Q) where
  open p use {Engine, create, handshake, decrypt, accepts}

  abbrev Backs : World Engine → Type 0
  Backs = IsBacked p Q finishes

  handle_established-IsBacked :
      (cert : CertInfo) (identity : Bytes) (now_ms : ℕ) (w : World Engine)
      → Backed p Q finishes true w.conn.tls
      → Holds (handle_established p cert identity now_ms w) Backs
  unfolding handle_established
  handle_established-IsBacked cert identity now_ms w h =
      after_either Backs cert.validated log_tls_ok log_tls_cert_warning _ _ w _
        (either Backs (not w.conn.banner_seen) _ _ (await_banner-IsBacked p Q finishes now_ms _ h)
          (send_ehlo-IsBacked p Q finishes identity now_ms _ h))
        (either Backs (not w.conn.banner_seen) _ _ (await_banner-IsBacked p Q finishes now_ms _ h)
          (send_ehlo-IsBacked p Q finishes identity now_ms _ h))

  handle_handshake_step-IsBacked :
      (step : TlsStep Engine) (identity : Bytes) (now_ms : ℕ) (w : World Engine)
      → Backed p Q finishes (established w.events) (some step.engine)
      → (step.status ≡ tls_ok → Q step.engine)
      → Holds (handle_handshake_step p step identity now_ms w) Backs
  unfolding handle_handshake_step
  handle_handshake_step-IsBacked step identity now_ms w h q = by_status step.status step.out q
    where
      w' : World Engine
      w' = record w { conn = record (w.conn) { tls = some step.engine } }

      by_status :
          (s : TlsStatus) (out : Bytes)
          → (s ≡ tls_ok → Q step.engine)
          → Holds
              (elim s [
                | want_write ↦ done (or_error (write_raw p out w'))
                | want_read ↦ done (or_error (read_cipher p w'))
                | tls_error ↦ fail_with log_tls_fail "TLS handshake failed" w'
                | tls_ok ↦ handle_established p (p.cert_info step.engine) identity now_ms w'
              ])
              Backs
      by_status want_write out q = or_error-IsBacked p Q finishes (write_raw p out w').0 _ h
      by_status want_read out q = or_error-IsBacked p Q finishes (read_cipher p w').0 _ h
      by_status tls_error out q = fail_with-IsBacked p Q finishes log_tls_fail _ w' h
      by_status tls_ok out q = handle_established-IsBacked _ identity now_ms w' (q refl)

  handle_handshake_input-IsBacked :
      (input : Option Bytes) (engine : Engine) (identity : Bytes) (now_ms : ℕ) (w : World Engine)
      → Backed p Q finishes (established w.events) (some engine)
      → Backs w
      → Holds (handle_handshake_input p input engine identity now_ms w) Backs
  unfolding handle_handshake_input
  handle_handshake_input-IsBacked none engine identity now_ms w e h =
      fail_with-IsBacked p Q finishes log_tls_fail _ w h
  handle_handshake_input-IsBacked (some input) engine identity now_ms w e h =
      handle_handshake_step-IsBacked _ identity now_ms w
        (Backed-step p Q finishes (established w.events) engine _
          (finishes.by_handshake engine input read_buf_size) e)
        (finishes.established_by engine input read_buf_size)

  handle_tls_handshake-IsBacked :
      (result : IoResult) (engine : Engine) (identity : Bytes) (now_ms : ℕ) (w : World Engine)
      → Backed p Q finishes (established w.events) (some engine)
      → Backs w
      → Holds (handle_tls_handshake p result engine identity now_ms w) Backs
  unfolding handle_tls_handshake
  handle_tls_handshake-IsBacked result engine identity now_ms w e h =
      either Backs result.failed _ _ (fail_with-IsBacked p Q finishes log_tls_fail _ w h)
        (handle_handshake_input-IsBacked _ engine identity now_ms w e h)

  -- The states that a handshake starts from.
  abbrev starts : ConnState → Bool
  starts connecting = true
  starts wait_starttls_reply = true
  starts _ = false

  abbrev Unfinished : World Engine → Type 0
  Unfinished w = Backed p Q finishes (established w.events) none

  dispatch-IsBacked :
      (s : ConnState) (result : IoResult) (identity : Bytes) (now_ms : ℕ) (w : World Engine)
      → Backs w
      → (starts s ≡ true → Unfinished w)
      → Holds (dispatch p s result identity now_ms w) Backs
  unfolding dispatch handle_connect_completion handle_banner_read handle_ehlo_write_completion
      handle_ehlo_read handle_starttls_write_completion handle_starttls_reply
  dispatch-IsBacked connecting result identity now_ms w h r =
      asserting_under Backs (is_connect result.kind) _ (λ _.
        either Backs result.failed _ _ (fail_with-IsBacked p Q finishes log_error _ w h) (
          after Backs log_connected (literal "connected") w _
            (handle_connected-IsBacked p Q finishes w.conn.tls_mode now_ms _ (r refl) h)))
  dispatch-IsBacked wait_banner result identity now_ms w h r =
      asserting_under Backs (is_read result.kind) _ (λ kind.
        on_chunk-IsBacked p Q finishes result _ _ w _ h
          (λ f. handle_banner-IsBacked p Q finishes _ identity now_ms _ h))
  dispatch-IsBacked sending_ehlo result identity now_ms w h r =
      asserting_under Backs (is_write result.kind) _ (λ _.
        either Backs result.failed _ _ (fail_with-IsBacked p Q finishes log_error _ w h) (
          either Backs (not (result.sent == w.conn.wire_write_len)) _ _
            (fail_with-IsBacked p Q finishes log_error _ w h)
            (submit_read_bytes-IsBacked p Q finishes _ h)))
  dispatch-IsBacked wait_ehlo result identity now_ms w h r =
      asserting_under Backs (is_read result.kind) _ (λ kind.
        on_chunk-IsBacked p Q finishes result _ _ w _ h
          (λ f. handle_ehlo-IsBacked p Q finishes _ now_ms _ h))
  dispatch-IsBacked sending_starttls result identity now_ms w h r =
      asserting_under Backs (is_write result.kind) _ (λ _.
        either Backs (result.failed || not (result.sent == w.conn.wire_write_len)) _ _
          (fail_with-IsBacked p Q finishes log_error _ w h)
          (submit_read_bytes-IsBacked p Q finishes _ h))
  dispatch-IsBacked wait_starttls_reply result identity now_ms w h r =
      asserting_under Backs (is_read result.kind) _ (λ kind.
        on_chunk-IsBacked p Q finishes result _ _ w _ h
          (λ f. handle_starttls_answer-IsBacked p Q finishes _ now_ms _ (r refl) h))
  dispatch-IsBacked _ result identity now_ms w h r = tt

  decrypted-IsBacked :
      (step : TlsStep Engine) (result : IoResult) (identity : Bytes) (now_ms : ℕ) (w : World Engine)
      → Backed p Q finishes (established w.events) (some step.engine)
      → (starts w.conn.state ≡ true → Unfinished w)
      → Holds (decrypted p step result identity now_ms w) Backs
  unfolding decrypted
  decrypted-IsBacked step result identity now_ms w h r = by_status step.status step.out
    where
      w' : World Engine
      w' = record w { conn = record (w.conn) { tls = some step.engine } }

      by_status :
          (s : TlsStatus) (out : Bytes)
          → Holds
              (elim s [
                | want_read ↦ done (or_error (submit_read_bytes p w'))
                | tls_error ↦ fail_with log_error "TLS decrypt failed" w'
                | tls_ok ↦
                    dispatch p w'.conn.state (record result { chunk = out }) identity now_ms w'
                | want_write ↦ aborted
              ])
              Backs
      by_status want_read out = submit_read_bytes-IsBacked p Q finishes w' h
      by_status tls_error out = fail_with-IsBacked p Q finishes log_error _ w' h
      by_status tls_ok out = dispatch-IsBacked w.conn.state _ identity now_ms w' h r
      by_status want_write out = tt

  on_plain_io-IsBacked :
      (tls : Option Engine) (result : IoResult) (identity : Bytes) (now_ms : ℕ) (w : World Engine)
      → Backed p Q finishes (established w.events) tls
      → Backs w
      → (starts w.conn.state ≡ true → Unfinished w)
      → Holds (on_plain_io p tls result identity now_ms w) Backs
  unfolding on_plain_io
  on_plain_io-IsBacked none result identity now_ms w e h r =
      dispatch-IsBacked w.conn.state result identity now_ms w h r
  on_plain_io-IsBacked (some engine) result identity now_ms w e h r =
      either Backs (not (is_read result.kind && not result.failed)) _ _
        (dispatch-IsBacked w.conn.state result identity now_ms w h r)
        (either Backs (leb read_buf_size (length w.conn.received)) _ _
          (fail_with-IsBacked p Q finishes log_error _ w h)
          (decrypted-IsBacked _ result identity now_ms w
            (Backed-step p Q finishes (established w.events) engine _
              (finishes.by_decrypt engine result.chunk (read_buf_size - length w.conn.received)) e)
            r))

  on_handshake_io-IsBacked :
      (tls : Option Engine) (result : IoResult) (identity : Bytes) (now_ms : ℕ) (w : World Engine)
      → Backed p Q finishes (established w.events) tls
      → Backs w
      → Holds (on_handshake_io p tls result identity now_ms w) Backs
  unfolding on_handshake_io
  on_handshake_io-IsBacked none result identity now_ms w e h = tt
  on_handshake_io-IsBacked (some engine) result identity now_ms w e h =
      asserting_under Backs (is_read result.kind || is_write result.kind) _
        (λ _. handle_tls_handshake-IsBacked result engine identity now_ms w e h)

  -- An allowed world holds no engine where a handshake starts.
  starts-Unfinished :
      (s : ConnState) (w : World Engine)
      → allowed w.conn.tls_mode s (has_engine w.conn.tls) (established w.events) ≡ true
      → Backs w
      → starts s ≡ true
      → Unfinished w
  starts-Unfinished s w a h t = by_engine w.conn.tls (engineless s w.conn.tls_mode _ _ a t) h
    where
      engineless :
          (s : ConnState) (mode : TlsMode) (engine finished : Bool)
          → allowed mode s engine finished ≡ true
          → starts s ≡ true
          → engine ≡ false
      engineless connecting mode engine finished a t = ground arith
      engineless wait_starttls_reply mode engine finished a t = ground arith
      engineless wait_banner mode engine finished a t = cc
      engineless sending_ehlo mode engine finished a t = cc
      engineless wait_ehlo mode engine finished a t = cc
      engineless sending_starttls mode engine finished a t = cc
      engineless tls_handshaking mode engine finished a t = cc
      engineless ready mode engine finished a t = cc
      engineless error mode engine finished a t = cc
      engineless timed_out mode engine finished a t = cc

      by_engine :
          (tls : Option Engine)
          → has_engine tls ≡ false
          → Backed p Q finishes (established w.events) tls
          → Unfinished w
      by_engine none n h = h
      by_engine (some e) n h = cc

  pub on_io-IsBacked :
      (result : IoResult) (identity : Bytes) (now_ms : ℕ) (w : World Engine)
      → IsAllowed w
      → IsBacked p Q finishes w
      → Holds (on_io p result identity now_ms w) (IsBacked p Q finishes)
  unfolding on_io
  on_io-IsBacked result identity now_ms w a h =
      either Backs (is_handshaking w.conn.state) _ _
        (on_handshake_io-IsBacked w.conn.tls result identity now_ms w h h)
        (on_plain_io-IsBacked w.conn.tls result identity now_ms w h h
          (starts-Unfinished w.conn.state w a h))

  pub check_timeout-IsBacked :
      (now_ms : ℕ) (w : World Engine) → Backs w → Holds (check_timeout p now_ms w) Backs
  unfolding check_timeout
  check_timeout-IsBacked now_ms w h =
      either Backs (is_terminal w.conn.state) _ _ h
        (either Backs (leb w.conn.deadline_ms now_ms) _ _ (after Backs log_timeout _ w _ h) h)

  pub connection_start-IsBacked :
      (now_ms timeout_ms : ℕ) (w : World Engine)
      → IsBacked p Q finishes w
      → Holds (connection_start p now_ms timeout_ms w) (IsBacked p Q finishes)
  unfolding connection_start
  connection_start-IsBacked now_ms timeout_ms w h =
      after Backs log_connecting _ _ _ (either_answer (accepts _))
    where
      either_answer :
          (answer : Bool)
          → Backs (
              or_error (
                add_event (submitted_connect answer) (
                    add_event (logged log_connecting (literal "connecting")) (record w {
                      conn = record (w.conn) {
                        state = connecting;
                        connect_timeout_ms = timeout_ms;
                        deadline_ms = deadline now_ms timeout_ms;
                        received = [];
                        write_len = 0;
                        banner_seen = false;
                      };
                    })),
                answer,
              ))
      either_answer true = h
      either_answer false = h
