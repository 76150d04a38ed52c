-- ===== src/Connection/Finished/Dialogue.antt =====
-- src/smtp_connection.c: the handlers of the greeting, of EHLO and of STARTTLS leave a finished engine.
use smtpc_cli.Connection.Runs.{either, either_under, after}
use smtpc_cli.Connection.State.{
  TlsMode, literal, text, log_error, log_ehlo, log_reply, log_starttls, log_capabilities,
  log_tls_fail, Platform, World, Run, Holds, mode_none, implicit, opportunistic, explicit,
  write_buf_size,
}
use smtpc_cli.Connection.Io.{build_ehlo_command}
use smtpc_cli.Connection.Handlers.{
  IoResult, append_received, on_chunk, read_more, await_banner, handle_connected, send_command,
  send_ehlo, handle_greeting, handle_banner, is_2xx,
}
use smtpc_cli.Connection.Handlers.Starttls.{
  send_starttls, upgrade_or_ready, handle_summarised, handle_capabilities, handle_ehlo,
  handle_starttls_answer,
}
use smtpc_cli.ReplyReader.{Outcome}
use smtpc_cli.Capabilities.{EhloResult}
use smtpc_cli.Common.{arith, ℕ, false, not, Bytes, [], ◌∷◌, ◌≡◌, Option, some, none, ◌==◌, length}
use Prim.Native.String.{String}
use smtpc_cli.Connection.Finished.{
  Finishes, Backed, IsBacked, fail_with-IsBacked, submit_read_bytes-IsBacked,
  submit_write_bytes-IsBacked, begin_tls_handshake-IsBacked,
}
use smtpc_cli.Connection.Security.{established}

module _ (p : Platform) (Q : p.Engine → Type 0) (finishes : Finishes p Q) where
  open p use {Engine, create, decrypt}

  pub on_chunk-IsBacked :
      (result : IoResult) (m c : String) (w : World Engine) (next : World Engine → Run Engine)
      → IsBacked p Q finishes w
      → (result.failed ≡ false
          → Holds (next (append_received result.chunk w)) (IsBacked p Q finishes))
      → Holds (on_chunk result m c w next) (IsBacked p Q finishes)
  unfolding on_chunk
  on_chunk-IsBacked result m c w next h n =
      either_under (IsBacked p Q finishes) result.failed _ _
        (λ _. fail_with-IsBacked p Q finishes log_error m w h)
        (λ f.
          either (IsBacked p Q finishes) (length result.chunk == 0) _ _
            (fail_with-IsBacked p Q finishes log_error c w h) (n f))

  pub read_more-IsBacked :
      (m : String) (w : World Engine)
      → IsBacked p Q finishes w
      → Holds (read_more p m w) (IsBacked p Q finishes)
  unfolding read_more
  read_more-IsBacked m w h =
      let f = fail_with-IsBacked p Q finishes log_error m w h in
      let r = submit_read_bytes-IsBacked p Q finishes w h in ground arith

  pub await_banner-IsBacked :
      (now_ms : ℕ) (w : World Engine)
      → IsBacked p Q finishes w
      → Holds (await_banner p now_ms w) (IsBacked p Q finishes)
  unfolding await_banner
  await_banner-IsBacked now_ms w h = submit_read_bytes-IsBacked p Q finishes _ h

  pub send_command-IsBacked :
      (command identity : Bytes) (now_ms : ℕ) (w : World Engine)
      → IsBacked p Q finishes w
      → Holds (send_command p command identity now_ms w) (IsBacked p Q finishes)
  unfolding send_command
  send_command-IsBacked [] identity now_ms w h = fail_with-IsBacked p Q finishes log_error _ w h
  send_command-IsBacked (c ∷ cs) identity now_ms w h =
      after (IsBacked p Q finishes) log_ehlo (text identity) w _
        (submit_write_bytes-IsBacked p Q finishes (c ∷ cs) _ h)

  pub send_ehlo-IsBacked :
      (identity : Bytes) (now_ms : ℕ) (w : World Engine)
      → IsBacked p Q finishes w
      → Holds (send_ehlo p identity now_ms w) (IsBacked p Q finishes)
  unfolding send_ehlo
  send_ehlo-IsBacked identity now_ms w h =
      send_command-IsBacked (build_ehlo_command write_buf_size identity) identity now_ms _ h

  pub handle_connected-IsBacked :
      (mode : TlsMode) (now_ms : ℕ) (w : World Engine)
      → Backed p Q finishes (established w.events) none
      → IsBacked p Q finishes w
      → Holds (handle_connected p mode now_ms w) (IsBacked p Q finishes)
  unfolding handle_connected
  handle_connected-IsBacked implicit now_ms w n h =
      begin_tls_handshake-IsBacked p Q finishes now_ms _ w n
  handle_connected-IsBacked _ now_ms w n h = await_banner-IsBacked now_ms w h

  pub handle_banner-IsBacked :
      (o : Outcome) (identity : Bytes) (now_ms : ℕ) (w : World Engine)
      → IsBacked p Q finishes w
      → Holds (handle_banner p o identity now_ms w) (IsBacked p Q finishes)
  unfolding handle_banner handle_greeting
  handle_banner-IsBacked (Outcome.ok reply) identity now_ms w h =
      after (IsBacked p Q finishes) log_reply (text _) _ _ (
        either (IsBacked p Q finishes) (not (is_2xx reply.code)) _ _
          (fail_with-IsBacked p Q finishes log_error _ _ h)
          (send_ehlo-IsBacked identity now_ms _ h))
  handle_banner-IsBacked Outcome.incomplete identity now_ms w h = read_more-IsBacked _ w h
  handle_banner-IsBacked (Outcome.fail _) identity now_ms w h =
      fail_with-IsBacked p Q finishes log_error _ w h

  pub send_starttls-IsBacked :
      (now_ms : ℕ) (w : World Engine)
      → IsBacked p Q finishes w
      → Holds (send_starttls p now_ms w) (IsBacked p Q finishes)
  unfolding send_starttls
  send_starttls-IsBacked now_ms w h =
      after (IsBacked p Q finishes) log_starttls (literal "sending STARTTLS") w _
        (submit_write_bytes-IsBacked p Q finishes _ _ h)

  pub upgrade_or_ready-IsBacked :
      (mode : TlsMode) (now_ms : ℕ) (w : World Engine)
      → IsBacked p Q finishes w
      → Holds (upgrade_or_ready p mode now_ms w) (IsBacked p Q finishes)
  unfolding upgrade_or_ready
  upgrade_or_ready-IsBacked mode_none now_ms w h = h
  upgrade_or_ready-IsBacked opportunistic now_ms w h =
      either (IsBacked p Q finishes) w.caps.has_starttls _ _ (send_starttls-IsBacked now_ms w h) h
  upgrade_or_ready-IsBacked explicit now_ms w h =
      either (IsBacked p Q finishes) w.caps.has_starttls _ _ (send_starttls-IsBacked now_ms w h)
        (fail_with-IsBacked p Q finishes log_error _ w h)
  upgrade_or_ready-IsBacked implicit now_ms w h = tt

  pub handle_summarised-IsBacked :
      (tls : Option Engine) (now_ms : ℕ) (w : World Engine)
      → IsBacked p Q finishes w
      → Holds (handle_summarised p tls now_ms w) (IsBacked p Q finishes)
  unfolding handle_summarised
  handle_summarised-IsBacked none now_ms w h = upgrade_or_ready-IsBacked w.conn.tls_mode now_ms w h
  handle_summarised-IsBacked (some engine) now_ms w h = h

  pub handle_ehlo-IsBacked :
      (r : EhloResult) (now_ms : ℕ) (w : World Engine)
      → IsBacked p Q finishes w
      → Holds (handle_ehlo p r now_ms w) (IsBacked p Q finishes)
  unfolding handle_ehlo handle_capabilities
  handle_ehlo-IsBacked (EhloResult.ok caps) now_ms w h =
      after (IsBacked p Q finishes) log_capabilities (text _) _ _
        (handle_summarised-IsBacked w.conn.tls now_ms _ h)
  handle_ehlo-IsBacked (EhloResult.other Outcome.incomplete) now_ms w h = read_more-IsBacked _ w h
  handle_ehlo-IsBacked (EhloResult.other (Outcome.ok _)) now_ms w h =
      fail_with-IsBacked p Q finishes log_error _ w h
  handle_ehlo-IsBacked (EhloResult.other (Outcome.fail _)) now_ms w h =
      fail_with-IsBacked p Q finishes log_error _ w h
  handle_ehlo-IsBacked EhloResult.aborted now_ms w h = tt

  pub handle_starttls_answer-IsBacked :
      (o : Outcome) (now_ms : ℕ) (w : World Engine)
      → Backed p Q finishes (established w.events) none
      → IsBacked p Q finishes w
      → Holds (handle_starttls_answer p o now_ms w) (IsBacked p Q finishes)
  unfolding handle_starttls_answer
  handle_starttls_answer-IsBacked (Outcome.ok reply) now_ms w n h =
      either (IsBacked p Q finishes) (not (is_2xx reply.code)) _ _
        (fail_with-IsBacked p Q finishes log_tls_fail _ w h)
        (begin_tls_handshake-IsBacked p Q finishes now_ms _ w n)
  handle_starttls_answer-IsBacked Outcome.incomplete now_ms w n h = read_more-IsBacked _ w h
  handle_starttls_answer-IsBacked (Outcome.fail _) now_ms w n h =
      fail_with-IsBacked p Q finishes log_error _ w h
