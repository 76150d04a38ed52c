-- ===== src/Connection/Progress/Dialogue.antt =====
-- src/smtp_connection.c: the handlers of the greeting, of EHLO and of STARTTLS leave the connection
-- waiting or finished.
use smtpc_cli.Connection.Runs.{either, after}
use smtpc_cli.Connection.State.{
  TlsMode, literal, text, log_error, log_ehlo, log_reply, log_starttls, log_capabilities,
  log_tls_fail, Platform, World, Run, Holds, mode_none, implicit, opportunistic, explicit,
  read_buf_size, write_buf_size,
}
use smtpc_cli.Connection.Io.{build_ehlo_command}
use smtpc_cli.Connection.Handlers.{
  io_read, IoResult, append_received, on_chunk, read_more, await_banner, handle_connected,
  send_command, send_ehlo, handle_greeting, handle_banner, is_2xx,
}
use smtpc_cli.Connection.Handlers.Starttls.{
  send_starttls, upgrade_or_ready, handle_summarised, handle_capabilities, handle_ehlo,
  handle_starttls_answer,
}
use smtpc_cli.Connection.Machine.{is_terminal}
use smtpc_cli.ReplyReader.{Outcome}
use smtpc_cli.Capabilities.{EhloResult}
use smtpc_cli.Common.{
  arith, ℕ, true, ◌||◌, not, Bytes, [], ◌∷◌, ◌≡◌, refl, Option, some, none, leb, ◌==◌, length,
}
use Prim.Native.String.{String}
use smtpc_cli.Connection.Progress.{
  answers, IsWaiting, fail_with-IsWaiting, submit_read_bytes-IsWaiting,
  submit_write_bytes-IsWaiting, begin_tls_handshake-IsWaiting,
}

module _ {E : Type 0} where
  pub on_chunk-IsWaiting :
      (result : IoResult) (m c : String) (w : World E) (next : World E → Run E)
      → Holds (next (append_received result.chunk w)) IsWaiting
      → Holds (on_chunk result m c w next) IsWaiting
  unfolding on_chunk
  on_chunk-IsWaiting result m c w next n =
      either IsWaiting result.failed _ _ (fail_with-IsWaiting log_error m w)
        (either IsWaiting (length result.chunk == 0) _ _ (fail_with-IsWaiting log_error c w) n)

module _ (p : Platform) where
  open p use {Engine}

  -- The state reads on.
  abbrev pub IsReading : World Engine → Type 0
  IsReading w = answers w.conn.state io_read ≡ true

  reading :
      (w : World Engine)
      → IsReading w
      → is_terminal w.conn.state || answers w.conn.state io_read ≡ true
  reading w h = ground arith

  read_more-IsWaiting :
      (m : String) (w : World Engine) → IsReading w → Holds (read_more p m w) IsWaiting
  unfolding read_more
  read_more-IsWaiting m w h =
      either IsWaiting (leb read_buf_size (length w.conn.received)) _ _
        (fail_with-IsWaiting log_error m w) (submit_read_bytes-IsWaiting p w (reading w h))

  pub await_banner-IsWaiting :
      (now_ms : ℕ) (w : World Engine) → Holds (await_banner p now_ms w) IsWaiting
  unfolding await_banner
  await_banner-IsWaiting now_ms w = submit_read_bytes-IsWaiting p _ refl

  send_command-IsWaiting :
      (command identity : Bytes) (now_ms : ℕ) (w : World Engine)
      → Holds (send_command p command identity now_ms w) IsWaiting
  unfolding send_command
  send_command-IsWaiting [] identity now_ms w = fail_with-IsWaiting log_error _ w
  send_command-IsWaiting (c ∷ cs) identity now_ms w =
      after IsWaiting log_ehlo (text identity) w _ (submit_write_bytes-IsWaiting p (c ∷ cs) _ refl)

  pub send_ehlo-IsWaiting :
      (identity : Bytes) (now_ms : ℕ) (w : World Engine)
      → Holds (send_ehlo p identity now_ms w) IsWaiting
  unfolding send_ehlo
  send_ehlo-IsWaiting identity now_ms w =
      send_command-IsWaiting (build_ehlo_command write_buf_size identity) identity now_ms _

  pub handle_connected-IsWaiting :
      (mode : TlsMode) (now_ms : ℕ) (w : World Engine)
      → Holds (handle_connected p mode now_ms w) IsWaiting
  unfolding handle_connected
  handle_connected-IsWaiting implicit now_ms w = begin_tls_handshake-IsWaiting p now_ms _ w
  handle_connected-IsWaiting _ now_ms w = await_banner-IsWaiting now_ms w

  pub handle_banner-IsWaiting :
      (o : Outcome) (identity : Bytes) (now_ms : ℕ) (w : World Engine)
      → IsReading w
      → Holds (handle_banner p o identity now_ms w) IsWaiting
  unfolding handle_banner handle_greeting
  handle_banner-IsWaiting (Outcome.ok reply) identity now_ms w h =
      after IsWaiting log_reply (text _) _ _ (
        either IsWaiting (not (is_2xx reply.code)) _ _ (fail_with-IsWaiting log_error _ _)
          (send_ehlo-IsWaiting identity now_ms _))
  handle_banner-IsWaiting Outcome.incomplete identity now_ms w h = read_more-IsWaiting _ w h
  handle_banner-IsWaiting (Outcome.fail _) identity now_ms w h = fail_with-IsWaiting log_error _ w

  send_starttls-IsWaiting :
      (now_ms : ℕ) (w : World Engine) → Holds (send_starttls p now_ms w) IsWaiting
  unfolding send_starttls
  send_starttls-IsWaiting now_ms w =
      after IsWaiting log_starttls (literal "sending STARTTLS") w _
        (submit_write_bytes-IsWaiting p _ _ refl)

  upgrade_or_ready-IsWaiting :
      (mode : TlsMode) (now_ms : ℕ) (w : World Engine)
      → Holds (upgrade_or_ready p mode now_ms w) IsWaiting
  unfolding upgrade_or_ready
  upgrade_or_ready-IsWaiting mode_none now_ms w = refl
  upgrade_or_ready-IsWaiting opportunistic now_ms w =
      either IsWaiting w.caps.has_starttls _ _ (send_starttls-IsWaiting now_ms w) refl
  upgrade_or_ready-IsWaiting explicit now_ms w =
      either IsWaiting w.caps.has_starttls _ _ (send_starttls-IsWaiting now_ms w)
        (fail_with-IsWaiting log_error _ w)
  upgrade_or_ready-IsWaiting implicit now_ms w = tt

  handle_summarised-IsWaiting :
      (tls : Option Engine) (now_ms : ℕ) (w : World Engine)
      → Holds (handle_summarised p tls now_ms w) IsWaiting
  unfolding handle_summarised
  handle_summarised-IsWaiting none now_ms w = upgrade_or_ready-IsWaiting w.conn.tls_mode now_ms w
  handle_summarised-IsWaiting (some engine) now_ms w = refl

  pub handle_ehlo-IsWaiting :
      (r : EhloResult) (now_ms : ℕ) (w : World Engine)
      → IsReading w
      → Holds (handle_ehlo p r now_ms w) IsWaiting
  unfolding handle_ehlo handle_capabilities
  handle_ehlo-IsWaiting (EhloResult.ok caps) now_ms w h =
      after IsWaiting log_capabilities (text _) _ _
        (handle_summarised-IsWaiting w.conn.tls now_ms _)
  handle_ehlo-IsWaiting (EhloResult.other Outcome.incomplete) now_ms w h = read_more-IsWaiting _ w h
  handle_ehlo-IsWaiting (EhloResult.other (Outcome.ok _)) now_ms w h =
      fail_with-IsWaiting log_error _ w
  handle_ehlo-IsWaiting (EhloResult.other (Outcome.fail _)) now_ms w h =
      fail_with-IsWaiting log_error _ w
  handle_ehlo-IsWaiting EhloResult.aborted now_ms w h = tt

  pub handle_starttls_answer-IsWaiting :
      (o : Outcome) (now_ms : ℕ) (w : World Engine)
      → IsReading w
      → Holds (handle_starttls_answer p o now_ms w) IsWaiting
  unfolding handle_starttls_answer
  handle_starttls_answer-IsWaiting (Outcome.ok reply) now_ms w h =
      either IsWaiting (not (is_2xx reply.code)) _ _ (fail_with-IsWaiting log_tls_fail _ w)
        (begin_tls_handshake-IsWaiting p now_ms _ w)
  handle_starttls_answer-IsWaiting Outcome.incomplete now_ms w h = read_more-IsWaiting _ w h
  handle_starttls_answer-IsWaiting (Outcome.fail _) now_ms w h = fail_with-IsWaiting log_error _ w
