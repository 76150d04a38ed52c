-- ===== src/Connection/Frame/Dialogue.antt =====
-- src/smtp_connection.c: what the handlers of the greeting, of EHLO and of STARTTLS keep.
use smtpc_cli.Connection.Runs.{either, either_under, after}
use smtpc_cli.Connection.State.{
  TlsMode, literal, text, log_error, log_ehlo, log_reply, log_starttls, log_capabilities,
  log_tls_fail, Platform, World, Run, Holds, mode_none, implicit, opportunistic, explicit,
  write_buf_size,
}
use smtpc_cli.Connection.Io.{build_ehlo_command}
use smtpc_cli.Connection.Handlers.{
  IoResult, append_received, on_chunk, read_more, await_banner, handle_connected, send_command,
  send_ehlo, handle_greeting, handle_banner, is_2xx,
}
use smtpc_cli.Connection.Handlers.Starttls.{
  send_starttls, upgrade_or_ready, handle_summarised, handle_capabilities, handle_ehlo,
  handle_starttls_answer,
}
use smtpc_cli.ReplyReader.{Outcome}
use smtpc_cli.Capabilities.{EhloResult}
use smtpc_cli.Common.{arith, ℕ, false, not, Bytes, [], ◌∷◌, ◌≡◌, Option, some, none, ◌==◌, length}
use Prim.Native.String.{String}
use smtpc_cli.Connection.Frame.{
  Frame, empties, fail_with-Keeps, submit_read_bytes-Keeps, submit_write_bytes-Keeps,
  begin_tls_handshake-Keeps, Keeps,
}

module _ (k : Frame) (p : Platform) where
  open p use {Engine, create, decrypt}

  pub on_chunk-Keeps :
      (result : IoResult) (m c : String) (w : World Engine) (next : World Engine → Run Engine)
      → Keeps k p w
      → (result.failed ≡ false → Holds (next (append_received result.chunk w)) (Keeps k p))
      → Holds (on_chunk result m c w next) (Keeps k p)
  unfolding on_chunk
  on_chunk-Keeps result m c w next h n =
      either_under (Keeps k p) result.failed _ _ (λ _. fail_with-Keeps k p log_error m w h)
        (λ f.
          either (Keeps k p) (length result.chunk == 0) _ _ (fail_with-Keeps k p log_error c w h)
            (n f))

  pub read_more-Keeps :
      (m : String) (w : World Engine) → Keeps k p w → Holds (read_more p m w) (Keeps k p)
  unfolding read_more
  read_more-Keeps m w h =
      let f = fail_with-Keeps k p log_error m w h in
      let r = submit_read_bytes-Keeps k p w h in ground arith

  pub await_banner-Keeps :
      (now_ms : ℕ) (w : World Engine) → Keeps k p w → Holds (await_banner p now_ms w) (Keeps k p)
  unfolding await_banner
  await_banner-Keeps now_ms w h = submit_read_bytes-Keeps k p _ (empties k p w h)

  pub send_command-Keeps :
      (command identity : Bytes) (now_ms : ℕ) (w : World Engine)
      → Keeps k p w
      → Holds (send_command p command identity now_ms w) (Keeps k p)
  unfolding send_command
  send_command-Keeps [] identity now_ms w h = fail_with-Keeps k p log_error _ w h
  send_command-Keeps (c ∷ cs) identity now_ms w h =
      after (Keeps k p) log_ehlo (text identity) w _ (submit_write_bytes-Keeps k p (c ∷ cs) _ h)

  pub send_ehlo-Keeps :
      (identity : Bytes) (now_ms : ℕ) (w : World Engine)
      → Keeps k p w
      → Holds (send_ehlo p identity now_ms w) (Keeps k p)
  unfolding send_ehlo
  send_ehlo-Keeps identity now_ms w h =
      send_command-Keeps (build_ehlo_command write_buf_size identity) identity now_ms _ h

  pub handle_connected-Keeps :
      (mode : TlsMode) (now_ms : ℕ) (w : World Engine)
      → Keeps k p w
      → Holds (handle_connected p mode now_ms w) (Keeps k p)
  unfolding handle_connected
  handle_connected-Keeps implicit now_ms w h = begin_tls_handshake-Keeps k p now_ms _ w h
  handle_connected-Keeps _ now_ms w h = await_banner-Keeps now_ms w h

  pub handle_banner-Keeps :
      (o : Outcome) (identity : Bytes) (now_ms : ℕ) (w : World Engine)
      → Keeps k p w
      → Holds (handle_banner p o identity now_ms w) (Keeps k p)
  unfolding handle_banner handle_greeting
  handle_banner-Keeps (Outcome.ok reply) identity now_ms w h =
      after (Keeps k p) log_reply (text _) _ _ (
        either (Keeps k p) (not (is_2xx reply.code)) _ _ (fail_with-Keeps k p log_error _ _ h)
          (send_ehlo-Keeps identity now_ms _ h))
  handle_banner-Keeps Outcome.incomplete identity now_ms w h = read_more-Keeps _ w h
  handle_banner-Keeps (Outcome.fail _) identity now_ms w h = fail_with-Keeps k p log_error _ w h

  pub send_starttls-Keeps :
      (now_ms : ℕ) (w : World Engine) → Keeps k p w → Holds (send_starttls p now_ms w) (Keeps k p)
  unfolding send_starttls
  send_starttls-Keeps now_ms w h =
      after (Keeps k p) log_starttls (literal "sending STARTTLS") w _
        (submit_write_bytes-Keeps k p _ _ h)

  pub upgrade_or_ready-Keeps :
      (mode : TlsMode) (now_ms : ℕ) (w : World Engine)
      → Keeps k p w
      → Holds (upgrade_or_ready p mode now_ms w) (Keeps k p)
  unfolding upgrade_or_ready
  upgrade_or_ready-Keeps mode_none now_ms w h = h
  upgrade_or_ready-Keeps opportunistic now_ms w h =
      either (Keeps k p) w.caps.has_starttls _ _ (send_starttls-Keeps now_ms w h) h
  upgrade_or_ready-Keeps explicit now_ms w h =
      either (Keeps k p) w.caps.has_starttls _ _ (send_starttls-Keeps now_ms w h)
        (fail_with-Keeps k p log_error _ w h)
  upgrade_or_ready-Keeps implicit now_ms w h = tt

  pub handle_summarised-Keeps :
      (tls : Option Engine) (now_ms : ℕ) (w : World Engine)
      → Keeps k p w
      → Holds (handle_summarised p tls now_ms w) (Keeps k p)
  unfolding handle_summarised
  handle_summarised-Keeps none now_ms w h = upgrade_or_ready-Keeps w.conn.tls_mode now_ms w h
  handle_summarised-Keeps (some engine) now_ms w h = h

  pub handle_ehlo-Keeps :
      (r : EhloResult) (now_ms : ℕ) (w : World Engine)
      → Keeps k p w
      → Holds (handle_ehlo p r now_ms w) (Keeps k p)
  unfolding handle_ehlo handle_capabilities
  handle_ehlo-Keeps (EhloResult.ok caps) now_ms w h =
      after (Keeps k p) log_capabilities (text _) _ _
        (handle_summarised-Keeps w.conn.tls now_ms _ h)
  handle_ehlo-Keeps (EhloResult.other Outcome.incomplete) now_ms w h = read_more-Keeps _ w h
  handle_ehlo-Keeps (EhloResult.other (Outcome.ok _)) now_ms w h =
      fail_with-Keeps k p log_error _ w h
  handle_ehlo-Keeps (EhloResult.other (Outcome.fail _)) now_ms w h =
      fail_with-Keeps k p log_error _ w h
  handle_ehlo-Keeps EhloResult.aborted now_ms w h = tt

  pub handle_starttls_answer-Keeps :
      (o : Outcome) (now_ms : ℕ) (w : World Engine)
      → Keeps k p w
      → Holds (handle_starttls_answer p o now_ms w) (Keeps k p)
  unfolding handle_starttls_answer
  handle_starttls_answer-Keeps (Outcome.ok reply) now_ms w h =
      either (Keeps k p) (not (is_2xx reply.code)) _ _ (fail_with-Keeps k p log_tls_fail _ w h)
        (begin_tls_handshake-Keeps k p now_ms _ w h)
  handle_starttls_answer-Keeps Outcome.incomplete now_ms w h = read_more-Keeps _ w h
  handle_starttls_answer-Keeps (Outcome.fail _) now_ms w h = fail_with-Keeps k p log_error _ w h
