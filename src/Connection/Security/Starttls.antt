-- ===== src/Connection/Security/Starttls.antt =====
-- EHLO and STARTTLS of src/smtp_connection.c stay where they are allowed.
use smtpc_cli.Connection.State.{
  wait_ehlo, wait_starttls_reply, TlsMode, mode_none, opportunistic, explicit, implicit,
  log_capabilities, log_starttls, log_tls_fail, log_error, literal, text, Platform, World, Holds,
}
use smtpc_cli.Connection.Handlers.{IoResult, is_2xx}
use smtpc_cli.Connection.Handlers.Starttls.{
  handle_summarised, send_starttls, upgrade_or_ready, handle_capabilities, handle_ehlo,
  handle_ehlo_read, handle_starttls_write_completion, handle_starttls_answer, handle_starttls_reply,
}
use smtpc_cli.Connection.Security.{
  finishing, conversing, upgrading, has_engine, shaking, established, IsAllowed,
}
use smtpc_cli.Connection.Security.Io.{
  after_emit, fail_with-IsAllowed, submit_read_bytes-IsAllowed, submit_write_bytes-IsAllowed,
  begin_tls_handshake-IsAllowed,
}
use smtpc_cli.Common.{
  ap, ◌==◌, arith, ℕ, Bool, true, false, ◌||◌, not, ◌≡◌, refl, Option, some, none,
}
use smtpc_cli.ReplyReader.{Outcome}
use smtpc_cli.Capabilities.{EhloResult}
use smtpc_cli.Connection.Security.Handlers.{
  either_holds, allowed_at, may_fail, on_chunk-IsAllowed, read_more-IsAllowed, MayConverse,
}

upgrading_may_shake :
    (mode : TlsMode) (engine : Bool) → upgrading mode engine ≡ true → shaking mode true ≡ true
upgrading_may_shake mode_none engine h = h
upgrading_may_shake opportunistic engine h = refl
upgrading_may_shake explicit engine h = refl
upgrading_may_shake implicit engine h = refl

may_finish :
    (mode : TlsMode) (finished : Bool)
    → conversing mode true finished ≡ true
    → finishing mode true finished ≡ true
may_finish mode_none finished h = h
may_finish opportunistic finished h = h
may_finish explicit finished h = h
may_finish implicit finished h = h

module _ (p : Platform) where
  open p use {Engine}

  -- Where STARTTLS may be sent.
  abbrev pub MayUpgrade : World Engine → Type 0
  MayUpgrade w = upgrading w.conn.tls_mode (has_engine w.conn.tls) ≡ true

  send_starttls-IsAllowed :
      (now_ms : ℕ) (w : World Engine) → MayUpgrade w → Holds (send_starttls p now_ms w) IsAllowed
  unfolding send_starttls
  send_starttls-IsAllowed now_ms w h =
      after_emit log_starttls (literal "sending STARTTLS") w _ IsAllowed
        (submit_write_bytes-IsAllowed p _ _ h)

  upgrade_or_ready-IsAllowed :
      (mode : TlsMode) (now_ms : ℕ) (w : World Engine)
      → w.conn.tls_mode ≡ mode
      → has_engine w.conn.tls ≡ false
      → Holds (upgrade_or_ready p mode now_ms w) IsAllowed
  unfolding upgrade_or_ready
  upgrade_or_ready-IsAllowed mode_none now_ms w m n = ground arith
  upgrade_or_ready-IsAllowed opportunistic now_ms w m n =
      either_holds w.caps.has_starttls _ _ (send_starttls-IsAllowed now_ms w (ground arith))
        (ground arith)
  upgrade_or_ready-IsAllowed explicit now_ms w m n =
      either_holds w.caps.has_starttls _ _ (send_starttls-IsAllowed now_ms w (ground arith))
        (fail_with-IsAllowed log_error _ w (ground arith))
  upgrade_or_ready-IsAllowed implicit now_ms w m n = tt

  handle_summarised-IsAllowed :
      (tls : Option Engine) (now_ms : ℕ) (w : World Engine)
      → w.conn.tls ≡ tls
      → MayConverse p w
      → Holds (handle_summarised p tls now_ms w) IsAllowed
  unfolding handle_summarised
  handle_summarised-IsAllowed none now_ms w t h =
      upgrade_or_ready-IsAllowed w.conn.tls_mode now_ms w refl (ap has_engine t)
  handle_summarised-IsAllowed (some engine) now_ms w t h =
      (let m = may_finish w.conn.tls_mode (established w.events) in ground arith)

  handle_ehlo-IsAllowed :
      (r : EhloResult) (now_ms : ℕ) (w : World Engine)
      → MayConverse p w
      → IsAllowed w
      → Holds (handle_ehlo p r now_ms w) IsAllowed
  unfolding handle_ehlo handle_capabilities
  handle_ehlo-IsAllowed (EhloResult.ok caps) now_ms w c h =
      after_emit log_capabilities (text _) _ _ IsAllowed
        (handle_summarised-IsAllowed w.conn.tls now_ms _ refl c)
  handle_ehlo-IsAllowed (EhloResult.other Outcome.incomplete) now_ms w c h =
      read_more-IsAllowed p _ w h
  handle_ehlo-IsAllowed (EhloResult.other (Outcome.ok _)) now_ms w c h =
      fail_with-IsAllowed log_error _ w (may_fail w h)
  handle_ehlo-IsAllowed (EhloResult.other (Outcome.fail _)) now_ms w c h =
      fail_with-IsAllowed log_error _ w (may_fail w h)
  handle_ehlo-IsAllowed EhloResult.aborted now_ms w c h = tt

  pub handle_ehlo_read-IsAllowed :
      (result : IoResult) (now_ms : ℕ) (w : World Engine)
      → w.conn.state ≡ wait_ehlo
      → IsAllowed w
      → Holds (handle_ehlo_read p result now_ms w) IsAllowed
  unfolding handle_ehlo_read
  handle_ehlo_read-IsAllowed result now_ms w s h =
      on_chunk-IsAllowed result _ _ w _ h
        (handle_ehlo-IsAllowed _ now_ms _ (allowed_at w wait_ehlo s h) h)

  pub handle_starttls_write_completion-IsAllowed :
      (result : IoResult) (w : World Engine)
      → MayUpgrade w
      → IsAllowed w
      → Holds (handle_starttls_write_completion p result w) IsAllowed
  unfolding handle_starttls_write_completion
  handle_starttls_write_completion-IsAllowed result w u h =
      either_holds (result.failed || not (result.sent == w.conn.wire_write_len)) _ _
        (fail_with-IsAllowed log_error _ w (may_fail w h)) (submit_read_bytes-IsAllowed p _ u)

  handle_starttls_answer-IsAllowed :
      (o : Outcome) (now_ms : ℕ) (w : World Engine)
      → MayUpgrade w
      → IsAllowed w
      → Holds (handle_starttls_answer p o now_ms w) IsAllowed
  unfolding handle_starttls_answer
  handle_starttls_answer-IsAllowed (Outcome.ok reply) now_ms w u h =
      either_holds (not (is_2xx reply.code)) _ _
        (fail_with-IsAllowed log_tls_fail _ w (may_fail w h))
        (begin_tls_handshake-IsAllowed p now_ms _ w (upgrading_may_shake w.conn.tls_mode _ u))
  handle_starttls_answer-IsAllowed Outcome.incomplete now_ms w u h = read_more-IsAllowed p _ w h
  handle_starttls_answer-IsAllowed (Outcome.fail _) now_ms w u h =
      fail_with-IsAllowed log_error _ w (may_fail w h)

  pub handle_starttls_reply-IsAllowed :
      (result : IoResult) (now_ms : ℕ) (w : World Engine)
      → w.conn.state ≡ wait_starttls_reply
      → IsAllowed w
      → Holds (handle_starttls_reply p result now_ms w) IsAllowed
  unfolding handle_starttls_reply
  handle_starttls_reply-IsAllowed result now_ms w s h =
      on_chunk-IsAllowed result _ _ w _ h
        (handle_starttls_answer-IsAllowed _ now_ms _ (allowed_at w wait_starttls_reply s h) h)
