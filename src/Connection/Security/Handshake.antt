-- ===== src/Connection/Security/Handshake.antt =====
-- The TLS handshake of src/smtp_connection.c stays where it is allowed.
use smtpc_cli.Connection.State.{
  Detail, tls_handshaking, TlsMode, mode_none, opportunistic, explicit, implicit, LogEvent,
  log_tls_ok, log_tls_fail, log_tls_cert_warning, text, logged, CertInfo, TlsStep, Platform, World,
  Run, Holds, ◌>>=◌,
}
use smtpc_cli.Connection.Io.{add_event, emit}
use smtpc_cli.Connection.Handlers.{await_banner, IoResult, send_ehlo}
use smtpc_cli.Connection.Handlers.Handshake.{
  handle_established, handle_handshake_step, handle_handshake_input, handle_tls_handshake,
}
use smtpc_cli.Connection.Security.{conversing, has_engine, shaking, IsAllowed}
use smtpc_cli.Connection.Security.Io.{shaking_may_fail, after_emit, fail_with-IsAllowed, MayShake}
use smtpc_cli.Common.{
  if◌then◌else◌, arith, ℕ, Bool, true, false, not, Bytes, ◌≡◌, refl, Option, some, none,
}
use smtpc_cli.Connection.Security.Handlers.{
  either_holds, MayConverse, send_ehlo-IsAllowed, await_banner-IsAllowed,
}

shaken_may_converse : (mode : TlsMode) → shaking mode true ≡ true → conversing mode true true ≡ true
shaken_may_converse mode_none h = h
shaken_may_converse opportunistic h = refl
shaken_may_converse explicit h = refl
shaken_may_converse implicit h = refl

module _ {E : Type 0} where
  after_either :
      (b : Bool) (e e' : LogEvent) (d d' : Detail) (w : World E) (f : World E → Run E)
      → Holds (f (add_event (logged e d) w)) IsAllowed
      → Holds (f (add_event (logged e' d') w)) IsAllowed
      → Holds ((if b then emit e d w else emit e' d' w) >>= f) IsAllowed
  after_either true e e' d d' w f h k = after_emit e d w f IsAllowed h
  after_either false e e' d d' w f h k = after_emit e' d' w f IsAllowed k

module _ (p : Platform) where
  open p use {Engine}

  -- Behind the log line of a finished handshake, with the engine in place.
  handle_reported-IsAllowed :
      (seen : Bool) (identity : Bytes) (now_ms : ℕ) (w v : World Engine)
      → MayConverse p w
      → MayConverse p v
      → Holds
          (if not seen then await_banner p now_ms w else send_ehlo p identity now_ms v)
          IsAllowed
  handle_reported-IsAllowed seen identity now_ms w v h k =
      either_holds (not seen) _ _ (await_banner-IsAllowed p now_ms w h)
        (send_ehlo-IsAllowed p identity now_ms v k)

  handle_established-IsAllowed :
      (cert : CertInfo) (identity : Bytes) (now_ms : ℕ) (w : World Engine)
      → MayShake p w
      → has_engine w.conn.tls ≡ true
      → Holds (handle_established p cert identity now_ms w) IsAllowed
  unfolding handle_established
  handle_established-IsAllowed cert identity now_ms w h e =
      let c = shaken_may_converse w.conn.tls_mode h in
      after_either cert.validated log_tls_ok log_tls_cert_warning (text cert.subject)
        (text cert.failure_reason) w _
        (handle_reported-IsAllowed w.conn.banner_seen identity now_ms _ _ (ground arith)
          (ground arith))
        (handle_reported-IsAllowed w.conn.banner_seen identity now_ms _ _ (ground arith)
          (ground arith))

  handle_handshake_step-IsAllowed :
      (step : TlsStep Engine) (identity : Bytes) (now_ms : ℕ) (w : World Engine)
      → MayShake p w
      → w.conn.state ≡ tls_handshaking
      → Holds (handle_handshake_step p step identity now_ms w) IsAllowed
  unfolding handle_handshake_step
  handle_handshake_step-IsAllowed step identity now_ms w h s =
      let w' = record w { conn = record (w.conn) { tls = some step.engine } } in
      let f =
        fail_with-IsAllowed log_tls_fail "TLS handshake failed" w'
          (shaking_may_fail w.conn.tls_mode h true) in
      let e = handle_established-IsAllowed (p.cert_info step.engine) identity now_ms w' h refl in
      ground arith

  handle_handshake_input-IsAllowed :
      (input : Option Bytes) (engine : Engine) (identity : Bytes) (now_ms : ℕ) (w : World Engine)
      → MayShake p w
      → w.conn.state ≡ tls_handshaking
      → Holds (handle_handshake_input p input engine identity now_ms w) IsAllowed
  unfolding handle_handshake_input
  handle_handshake_input-IsAllowed none engine identity now_ms w h s =
      fail_with-IsAllowed log_tls_fail _ w (shaking_may_fail w.conn.tls_mode h _)
  handle_handshake_input-IsAllowed (some input) engine identity now_ms w h s =
      handle_handshake_step-IsAllowed _ identity now_ms w h s

  pub handle_tls_handshake-IsAllowed :
      (result : IoResult) (engine : Engine) (identity : Bytes) (now_ms : ℕ) (w : World Engine)
      → MayShake p w
      → w.conn.state ≡ tls_handshaking
      → Holds (handle_tls_handshake p result engine identity now_ms w) IsAllowed
  unfolding handle_tls_handshake
  handle_tls_handshake-IsAllowed result engine identity now_ms w h s =
      either_holds result.failed _ _
        (fail_with-IsAllowed log_tls_fail _ w (shaking_may_fail w.conn.tls_mode h _))
        (handle_handshake_input-IsAllowed _ engine identity now_ms w h s)
