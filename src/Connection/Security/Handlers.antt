-- ===== src/Connection/Security/Handlers.antt =====
-- The handlers of src/smtp_connection.c stay where they are allowed.
use smtpc_cli.Connection.State.{
  ConnState, connecting, wait_banner, TlsMode, mode_none, opportunistic, explicit, implicit,
  log_connected, log_ehlo, log_reply, log_error, literal, text, Platform, World, Run, Holds,
  write_buf_size,
}
use smtpc_cli.Connection.Io.{build_ehlo_command}
use smtpc_cli.Connection.Handlers.{
  await_banner, handle_connected, IoResult, append_received, on_chunk, read_more,
  handle_connect_completion, send_command, send_ehlo, handle_greeting, handle_banner,
  handle_banner_read, is_2xx,
}
use smtpc_cli.Connection.Handlers.Starttls.{handle_ehlo_write_completion}
use smtpc_cli.Connection.Security.{allowed, conversing, has_engine, established, IsAllowed}
use smtpc_cli.Connection.Security.Io.{
  allowed_may_fail, after_emit, MayFail, fail_with-IsAllowed, submit_read_bytes-IsAllowed,
  submit_write_bytes-IsAllowed, begin_tls_handshake-IsAllowed,
}
use smtpc_cli.Common.{
  ◌==◌, if◌then◌else◌, arith, ℕ, Bool, true, false, not, Bytes, [], ◌∷◌, ◌≡◌, refl,
}
use smtpc_cli.ReplyReader.{Outcome, Reply}
use Prim.Native.String.{String}

module _ {E : Type 0} where
  pub either_holds :
      (b : Bool) (r s : Run E)
      → Holds r IsAllowed
      → Holds s IsAllowed
      → Holds (if b then r else s) IsAllowed
  either_holds true r s h k = h
  either_holds false r s h k = k

  -- What is allowed where the connection is.
  pub allowed_at :
      (w : World E) (s : ConnState)
      → w.conn.state ≡ s
      → IsAllowed w
      → allowed w.conn.tls_mode s (has_engine w.conn.tls) (established w.events) ≡ true
  allowed_at w s e h = ground arith

  pub may_fail : (w : World E) → IsAllowed w → MayFail w
  may_fail w h = allowed_may_fail w.conn.tls_mode w.conn.state _ _ h

  pub on_chunk-IsAllowed :
      (result : IoResult) (m c : String) (w : World E) (next : World E → Run E)
      → IsAllowed w
      → Holds (next (append_received result.chunk w)) IsAllowed
      → Holds (on_chunk result m c w next) IsAllowed
  unfolding on_chunk
  on_chunk-IsAllowed result m c w next h k =
      let may = may_fail w h in
      let f = fail_with-IsAllowed log_error m w may in
      let g = fail_with-IsAllowed log_error c w may in ground arith

module _ (p : Platform) where
  open p use {Engine}

  pub read_more-IsAllowed :
      (m : String) (w : World Engine) → IsAllowed w → Holds (read_more p m w) IsAllowed
  unfolding read_more
  read_more-IsAllowed m w h =
      let f = fail_with-IsAllowed log_error m w (may_fail w h) in
      let r = submit_read_bytes-IsAllowed p w h in ground arith

  -- Where EHLO may be sent.
  abbrev pub MayConverse : World Engine → Type 0
  MayConverse w = conversing w.conn.tls_mode (has_engine w.conn.tls) (established w.events) ≡ true

  send_command-IsAllowed :
      (command identity : Bytes) (now_ms : ℕ) (w : World Engine)
      → MayConverse w
      → Holds (send_command p command identity now_ms w) IsAllowed
  unfolding send_command
  send_command-IsAllowed [] identity now_ms w h =
      fail_with-IsAllowed log_error _ w (allowed_may_fail w.conn.tls_mode wait_banner _ _ h)
  send_command-IsAllowed (c ∷ cs) identity now_ms w h =
      after_emit log_ehlo (text identity) w _ IsAllowed
        (submit_write_bytes-IsAllowed p (c ∷ cs) _ h)

  pub send_ehlo-IsAllowed :
      (identity : Bytes) (now_ms : ℕ) (w : World Engine)
      → MayConverse w
      → Holds (send_ehlo p identity now_ms w) IsAllowed
  unfolding send_ehlo
  send_ehlo-IsAllowed identity now_ms w h =
      send_command-IsAllowed (build_ehlo_command write_buf_size identity) identity now_ms _ h

  handle_greeting-IsAllowed :
      (reply : Reply) (identity : Bytes) (now_ms : ℕ) (w : World Engine)
      → MayConverse w
      → Holds (handle_greeting p reply identity now_ms w) IsAllowed
  unfolding handle_greeting
  handle_greeting-IsAllowed reply identity now_ms w h =
      after_emit log_reply (text _) _ _ IsAllowed (
        either_holds (not (is_2xx reply.code)) _ _
          (fail_with-IsAllowed log_error _ _ (allowed_may_fail w.conn.tls_mode wait_banner _ _ h))
          (send_ehlo-IsAllowed identity now_ms _ h))

  handle_banner-IsAllowed :
      (o : Outcome) (identity : Bytes) (now_ms : ℕ) (w : World Engine)
      → w.conn.state ≡ wait_banner
      → IsAllowed w
      → Holds (handle_banner p o identity now_ms w) IsAllowed
  unfolding handle_banner
  handle_banner-IsAllowed (Outcome.ok reply) identity now_ms w s h =
      handle_greeting-IsAllowed reply identity now_ms w (allowed_at w wait_banner s h)
  handle_banner-IsAllowed Outcome.incomplete identity now_ms w s h = read_more-IsAllowed _ w h
  handle_banner-IsAllowed (Outcome.fail _) identity now_ms w s h =
      fail_with-IsAllowed log_error _ w (may_fail w h)

  pub handle_banner_read-IsAllowed :
      (result : IoResult) (identity : Bytes) (now_ms : ℕ) (w : World Engine)
      → w.conn.state ≡ wait_banner
      → IsAllowed w
      → Holds (handle_banner_read p result identity now_ms w) IsAllowed
  unfolding handle_banner_read
  handle_banner_read-IsAllowed result identity now_ms w s h =
      on_chunk-IsAllowed result _ _ w _ h (handle_banner-IsAllowed _ identity now_ms _ s h)

  pub await_banner-IsAllowed :
      (now_ms : ℕ) (w : World Engine) → MayConverse w → Holds (await_banner p now_ms w) IsAllowed
  unfolding await_banner
  await_banner-IsAllowed now_ms w h = submit_read_bytes-IsAllowed p _ h

  handle_connected-IsAllowed :
      (mode : TlsMode) (now_ms : ℕ) (w : World Engine)
      → w.conn.tls_mode ≡ mode
      → has_engine w.conn.tls ≡ false
      → Holds (handle_connected p mode now_ms w) IsAllowed
  unfolding handle_connected
  handle_connected-IsAllowed implicit now_ms w m n =
      begin_tls_handshake-IsAllowed p now_ms _ w (ground arith)
  handle_connected-IsAllowed mode_none now_ms w m n = await_banner-IsAllowed now_ms w (ground arith)
  handle_connected-IsAllowed opportunistic now_ms w m n =
      await_banner-IsAllowed now_ms w (ground arith)
  handle_connected-IsAllowed explicit now_ms w m n = await_banner-IsAllowed now_ms w (ground arith)

  pub handle_connect_completion-IsAllowed :
      (result : IoResult) (now_ms : ℕ) (w : World Engine)
      → w.conn.state ≡ connecting
      → IsAllowed w
      → Holds (handle_connect_completion p result now_ms w) IsAllowed
  unfolding handle_connect_completion
  handle_connect_completion-IsAllowed result now_ms w s h =
      either_holds result.failed _ _ (fail_with-IsAllowed log_error _ w (may_fail w h)) (
        after_emit log_connected (literal "connected") w _ IsAllowed (
          handle_connected-IsAllowed w.conn.tls_mode now_ms _ refl
            (let a = allowed_at w connecting s h in ground arith)))

  pub handle_ehlo_write_completion-IsAllowed :
      (result : IoResult) (w : World Engine)
      → MayConverse w
      → Holds (handle_ehlo_write_completion p result w) IsAllowed
  unfolding handle_ehlo_write_completion
  handle_ehlo_write_completion-IsAllowed result w h =
      let f = allowed_may_fail w.conn.tls_mode wait_banner _ _ h in
      either_holds result.failed _ _ (fail_with-IsAllowed log_error _ w f) (
        either_holds (not (result.sent == w.conn.wire_write_len)) _ _
          (fail_with-IsAllowed log_error _ w f) (submit_read_bytes-IsAllowed p _ h))
