-- ===== src/Connection/Security/Io.antt =====
-- The log lines, submissions and first steps of src/smtp_connection.c stay where they are allowed.
use smtpc_cli.Connection.State.{
  ConnState, connecting, wait_banner, sending_ehlo, wait_ehlo, sending_starttls,
  wait_starttls_reply, tls_handshaking, ready, error, timed_out, TlsMode, mode_none, opportunistic,
  explicit, implicit, LogEvent, log_tls_begin, log_tls_fail, Detail, literal, logged, TlsStep,
  Platform, World, Run, done, aborted, Holds, ◌>>=◌, contains_cr_or_lf,
}
use smtpc_cli.Connection.Io.{
  detail_is_bad, set_state, add_event, emit, fail_with, or_error, submit_read_bytes,
  write_encrypted, submit_write_bytes, first_step, start_engine, begin_tls_handshake,
}
use smtpc_cli.Connection.Security.{failed, allowed, has_engine, shaking, IsAllowed}
use smtpc_cli.Common.{
  arith, ℕ, Bool, true, false, ◌||◌, Bytes, ◌≡◌, refl, some, none, if◌then◌else◌,
}
use Prim.Native.String.{String}

-- Whatever may be where it is may fail.
pub allowed_may_fail :
    (mode : TlsMode) (s : ConnState) (engine finished : Bool)
    → allowed mode s engine finished ≡ true
    → failed mode engine ≡ true
allowed_may_fail mode_none connecting engine finished h = h
allowed_may_fail mode_none wait_banner engine finished h = h
allowed_may_fail mode_none sending_ehlo engine finished h = h
allowed_may_fail mode_none wait_ehlo engine finished h = h
allowed_may_fail mode_none sending_starttls engine finished h = ground arith
allowed_may_fail mode_none wait_starttls_reply engine finished h = ground arith
allowed_may_fail mode_none tls_handshaking engine finished h = ground arith
allowed_may_fail mode_none ready engine finished h = h
allowed_may_fail mode_none error engine finished h = h
allowed_may_fail mode_none timed_out engine finished h = h
allowed_may_fail opportunistic s engine finished h = refl
allowed_may_fail explicit s engine finished h = refl
allowed_may_fail implicit s engine finished h = refl

pub shaking_may_fail :
    (mode : TlsMode) → shaking mode true ≡ true → (engine : Bool) → failed mode engine ≡ true
shaking_may_fail mode_none h engine = ground arith
shaking_may_fail opportunistic h engine = refl
shaking_may_fail explicit h engine = refl
shaking_may_fail implicit h engine = refl

module _ {E : Type 0} where
  pub or_error-IsAllowed :
      (w : World E) (answer : Bool) → IsAllowed w → IsAllowed (or_error (w, answer))
  or_error-IsAllowed w true h = h
  or_error-IsAllowed w false h = allowed_may_fail w.conn.tls_mode w.conn.state _ _ h

  held :
      (bad : Bool) (r : Run E) (f : World E → Run E) (P : World E → Type 0)
      → Holds (r >>= f) P
      → Holds ((if bad then aborted else r) >>= f) P
  held true r f P h = tt
  held false r f P h = h

  -- A log line either ends the process or is the only change.
  pub after_emit :
      (e : LogEvent) (d : Detail) (w : World E) (f : World E → Run E) (P : World E → Type 0)
      → Holds (f (add_event (logged e d) w)) P
      → Holds (emit e d w >>= f) P
  unfolding emit
  after_emit e d w f P h =
      held (contains_cr_or_lf w.conn.actor || detail_is_bad d) (done (add_event (logged e d) w)) f P
        h

  abbrev pub MayFail : World E → Type 0
  MayFail w = failed w.conn.tls_mode (has_engine w.conn.tls) ≡ true

  pub fail_with-IsAllowed :
      (e : LogEvent) (message : String) (w : World E)
      → MayFail w
      → Holds (fail_with e message w) IsAllowed
  unfolding fail_with
  fail_with-IsAllowed e message w h =
      after_emit e (literal message) w (λ w'. done (set_state error w')) IsAllowed h

module _ (p : Platform) where
  open p use {Engine, create, handshake, encrypt, accepts}

  pub submit_read_bytes-IsAllowed :
      (w : World Engine) → IsAllowed w → IsAllowed (or_error (submit_read_bytes p w))
  unfolding submit_read_bytes
  submit_read_bytes-IsAllowed w h = ground arith

  write_encrypted-IsAllowed :
      (step : TlsStep Engine) (w : World Engine) (engine : Engine)
      → w.conn.tls ≡ some engine
      → IsAllowed w
      → IsAllowed (or_error (write_encrypted p step w))
  write_encrypted-IsAllowed step w engine e h = ground arith

  pub submit_write_bytes-IsAllowed :
      (bytes : Bytes) (w : World Engine)
      → IsAllowed w
      → IsAllowed (or_error (submit_write_bytes p bytes w))
  unfolding submit_write_bytes
  submit_write_bytes-IsAllowed bytes w h = ground arith

  -- What a handshake may start from.
  abbrev pub MayShake : World Engine → Type 0
  MayShake w = shaking w.conn.tls_mode true ≡ true

  first_step-IsAllowed :
      (step : TlsStep Engine) (w : World Engine)
      → MayShake w
      → w.conn.state ≡ tls_handshaking
      → Holds (first_step p step w) IsAllowed
  unfolding first_step
  first_step-IsAllowed step w h s =
      let f =
        fail_with-IsAllowed log_tls_fail "TLS handshake failed to start"
          (record w { conn = record (w.conn) { tls = some step.engine } })
          (shaking_may_fail w.conn.tls_mode h true) in
      ground arith

  start_engine-IsAllowed :
      (engine : Engine) (now_ms : ℕ) (detail : String) (w : World Engine)
      → MayShake w
      → Holds (start_engine p engine now_ms detail w) IsAllowed
  unfolding start_engine
  start_engine-IsAllowed engine now_ms detail w h =
      after_emit log_tls_begin (literal detail) w _ IsAllowed (first_step-IsAllowed _ _ h refl)

  pub begin_tls_handshake-IsAllowed :
      (now_ms : ℕ) (detail : String) (w : World Engine)
      → MayShake w
      → Holds (begin_tls_handshake p now_ms detail w) IsAllowed
  unfolding begin_tls_handshake
  begin_tls_handshake-IsAllowed now_ms detail w h =
      let f =
        fail_with-IsAllowed log_tls_fail "failed to create the TLS engine"
          (record w { conn = record (w.conn) { tls = none } })
          (shaking_may_fail w.conn.tls_mode h false) in
      elim (create w.conn.actor w.conn.trust)
        as (λ made.
          Holds
            (elim made [
              | none ↦
                  fail_with log_tls_fail "failed to create the TLS engine"
                    (record w { conn = record (w.conn) { tls = none } })
              | some engine ↦
                  start_engine p engine now_ms detail
                    (record w { conn = record (w.conn) { tls = some engine } })
            ])
            IsAllowed) [ none ↦ f | some engine ↦ start_engine-IsAllowed engine now_ms detail _ h ]
