-- ===== src/Connection/Io.antt =====
-- src/smtp_connection.c and smtp_log_emit: log lines, commands, submissions, the start of TLS.
use smtpc_cli.Connection.State.{
  ConnState, tls_handshaking, error, want_read, want_write, LogEvent, log_tls_begin, log_tls_fail,
  Detail, literal, text, Event, logged, submitted_read, submitted_write, TlsStep, Platform, World,
  Run, done, aborted, ◌>>=◌, read_buf_size, step_timeout_ms, deadline, contains_cr_or_lf,
}
use smtpc_cli.Common.{
  ℕ, ◌-◌, Bool, true, false, ◌||◌, [], ◌∷◌, ◌++◌, Bytes, some, none, cr, lf, ltb, leb,
  if◌then◌else◌, length, take, codes,
}
use Prim.Native.String.{String}

-- `snprintf(dst, dst_size, "EHLO %s\r\n", identity)`; no bytes if they do not fit.
unfoldable pub build_ehlo_command : ℕ → Bytes → Bytes
build_ehlo_command dst_size identity =
    let command = codes "EHLO " ++ (identity ++ cr ∷ lf ∷ []) in
    if leb dst_size (length command) then [] else command

-- `smtp_conn_build_starttls_command`, whose assertion holds for this literal.
abbrev pub starttls_command : Bytes
starttls_command = codes "STARTTLS" ++ cr ∷ lf ∷ []

-- `smtp_conn_copy_reply_text`, from the start of the buffer.
unfoldable pub copy_reply_text : Bytes → ℕ → ℕ → Bytes
copy_reply_text buf len dst_size = take (if ltb len (dst_size - 1) then len else dst_size - 1) buf

abbrev pub detail_is_bad : Detail → Bool
detail_is_bad (literal s) = false
detail_is_bad (text t) = contains_cr_or_lf t

module _ {E : Type 0} where
  abbrev pub set_state : ConnState → World E → World E
  set_state s w = record w { conn = record (w.conn) { state = s } }

  abbrev pub add_event : Event → World E → World E
  add_event e w = record w { events = e ∷ w.events }

  -- `smtp_log_emit`, with its assertions on the actor and the detail.
  unfoldable pub emit : LogEvent → Detail → World E → Run E
  emit e d w =
      if contains_cr_or_lf w.conn.actor || detail_is_bad d
      then aborted
      else done (add_event (logged e d) w)

  -- A log line, and the error state.
  unfoldable pub fail_with : LogEvent → String → World E → Run E
  fail_with e message w = do w' ← emit e (literal message) w; done (set_state error w')

  -- `if (submit(...) != 0) conn->state = ERROR;`
  abbrev pub or_error : World E × Bool → World E
  or_error (w, true) = w
  or_error (w, false) = set_state error w

module _ (p : Platform) where
  open p use {Engine, create, handshake, encrypt, accepts}

  -- The three submissions, and the reactor's answer.
  abbrev pub submit : (Bool → Event) → World Engine → World Engine × Bool
  submit e w = (add_event (e (accepts w.events)) w, accepts w.events)

  -- `smtp_conn_submit_read_bytes`: into `cipher_buf` under TLS, else behind what was received.
  unfoldable pub submit_read_bytes : World Engine → World Engine × Bool
  submit_read_bytes w =
      submit
        (submitted_read (elim w.conn.tls [
          | some _ ↦ read_buf_size
          | none ↦ read_buf_size - length w.conn.received
        ]))
        w

  -- The write of `bytes`, which records how many go to the wire.
  abbrev pub write_raw : Bytes → World Engine → World Engine × Bool
  write_raw bytes w =
      submit (submitted_write bytes)
        (record w { conn = record (w.conn) { wire_write_len = length bytes } })

  -- Behind `smtp_tls_encrypt`.
  abbrev pub write_encrypted : TlsStep Engine → World Engine → World Engine × Bool
  write_encrypted step w =
      let w' = record w { conn = record (w.conn) { tls = some step.engine } } in
      elim step.status [ want_write ↦ write_raw step.out w' | _ ↦ (w', false) ]

  -- `smtp_conn_submit_write_bytes`
  unfoldable pub submit_write_bytes : Bytes → World Engine → World Engine × Bool
  submit_write_bytes plaintext w = elim w.conn.tls [
    | some engine ↦ write_encrypted (encrypt engine plaintext read_buf_size) w
    | none ↦ write_raw plaintext w
  ]

  -- The raw read into `cipher_buf` of the handshake.
  abbrev pub read_cipher : World Engine → World Engine × Bool
  read_cipher w = submit (submitted_read read_buf_size) w

  -- The engine's first step in `smtp_conn_begin_tls_handshake`.
  unfoldable pub first_step : TlsStep Engine → World Engine → Run Engine
  first_step step w =
      let w' = record w { conn = record (w.conn) { tls = some step.engine } } in
      elim step.status [
        | want_write ↦ done (or_error (write_raw step.out w'))
        | want_read ↦ done (or_error (read_cipher w'))
        | _ ↦ fail_with log_tls_fail "TLS handshake failed to start" w'
      ]

  -- With an engine: the log line, the state, the engine's first step on no input.
  unfoldable pub start_engine : Engine → ℕ → String → World Engine → Run Engine
  start_engine engine now_ms begin_log_detail w = do
    w' ← emit log_tls_begin (literal begin_log_detail) w
    first_step (handshake engine [] read_buf_size) (record w' {
      conn = record (w'.conn) {
        state = tls_handshaking;
        deadline_ms = deadline now_ms step_timeout_ms;
        received = [];
      };
    })

  -- `smtp_conn_begin_tls_handshake`; `create` stands for `smtp_tls_create` on the thread's context.
  unfoldable pub begin_tls_handshake : ℕ → String → World Engine → Run Engine
  begin_tls_handshake now_ms begin_log_detail w = elim (create w.conn.actor w.conn.trust) [
    | none ↦
        fail_with log_tls_fail "failed to create the TLS engine"
          (record w { conn = record (w.conn) { tls = none } })
    | some engine ↦
        start_engine engine now_ms begin_log_detail
          (record w { conn = record (w.conn) { tls = some engine } })
  ]
