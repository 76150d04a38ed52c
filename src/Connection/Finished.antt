-- ===== src/Connection/Finished.antt =====
-- src/smtp_connection.c: once a handshake is logged as finished, the engine of the connection is one that
-- has finished, whatever that means for the engine.

mod Dialogue
pub mod Machine
use smtpc_cli.Connection.State.{
  LogEvent, Detail, literal, logged, log_tls_begin, log_tls_fail, TlsStep, TlsStatus, tls_ok,
  want_read, want_write, tls_error, Platform, World, Run, done, aborted, Holds, ◌>>=◌,
  contains_cr_or_lf, error, read_buf_size,
}
use smtpc_cli.Connection.Io.{
  emit, fail_with, or_error, add_event, submit_read_bytes, submit_write_bytes, write_encrypted,
  write_raw, read_cipher, first_step, start_engine, begin_tls_handshake, set_state, detail_is_bad,
}
use smtpc_cli.Connection.Runs.{after}
use smtpc_cli.Connection.Security.{established}
use smtpc_cli.Common.{
  ℕ, Bool, true, false, ◌||◌, Bytes, ◌≡◌, refl, Option, some, none, if◌then◌else◌,
}
use Prim.Native.String.{String}

-- What the calls of an engine do to a property of engines: an accepted handshake brings it about, no call
-- takes it away.
pub record Finishes (p : Platform) (Q : p.Engine → Type 0) : Type 0 where
  pub established_by :
      (e : p.Engine) (input : Bytes) (n : ℕ)
      → (p.handshake e input n).status ≡ tls_ok
      → Q (p.handshake e input n).engine
  pub by_handshake : (e : p.Engine) (input : Bytes) (n : ℕ) → Q e → Q (p.handshake e input n).engine
  pub by_encrypt : (e : p.Engine) (input : Bytes) (n : ℕ) → Q e → Q (p.encrypt e input n).engine
  pub by_decrypt : (e : p.Engine) (input : Bytes) (n : ℕ) → Q e → Q (p.decrypt e input n).engine

module _ (p : Platform) (Q : p.Engine → Type 0) (finishes : Finishes p Q) where
  open p use {Engine, create, handshake, encrypt}

  abbrev pub Backed : (finished : Bool) → Option Engine → Type 0
  Backed false tls = Unit
  Backed true none = ⊥
  Backed true (some e) = Q e

  abbrev pub IsBacked : World Engine → Type 0
  IsBacked w = Backed (established w.events) w.conn.tls

  pub Backed-step :
      (b : Bool) (e e' : Engine) → (Q e → Q e') → Backed b (some e) → Backed b (some e')
  Backed-step true e e' f q = f q
  Backed-step false e e' f q = tt

  pub fail_with-IsBacked :
      (e : LogEvent) (m : String) (w : World Engine)
      → IsBacked (add_event (logged e (literal m)) w)
      → Holds (fail_with e m w) IsBacked
  unfolding fail_with
  fail_with-IsBacked e m w h = after IsBacked e (literal m) w (λ w'. done (set_state error w')) h

  pub or_error-IsBacked :
      (w : World Engine) (answer : Bool) → IsBacked w → IsBacked (or_error (w, answer))
  or_error-IsBacked w true h = h
  or_error-IsBacked w false h = h

  pub submit_read_bytes-IsBacked :
      (w : World Engine) → IsBacked w → IsBacked (or_error (submit_read_bytes p w))
  unfolding submit_read_bytes
  submit_read_bytes-IsBacked w h = or_error-IsBacked (submit_read_bytes p w).0 _ h

  pub write_encrypted-IsBacked :
      (step : TlsStep Engine) (w : World Engine)
      → Backed (established w.events) (some step.engine)
      → IsBacked (or_error (write_encrypted p step w))
  write_encrypted-IsBacked step w h = by_status step.status step.out
    where
      w' : World Engine
      w' = record w { conn = record (w.conn) { tls = some step.engine } }

      by_status :
          (s : TlsStatus) (out : Bytes)
          → IsBacked (or_error (elim s [ want_write ↦ write_raw p out w' | _ ↦ (w', false) ]))
      by_status want_write out = or_error-IsBacked (write_raw p out w').0 _ h
      by_status tls_ok out = h
      by_status want_read out = h
      by_status tls_error out = h

  pub submit_write_bytes-IsBacked :
      (bytes : Bytes) (w : World Engine)
      → IsBacked w
      → IsBacked (or_error (submit_write_bytes p bytes w))
  unfolding submit_write_bytes
  submit_write_bytes-IsBacked bytes w h = by_engine w.conn.tls h
    where
      by_engine :
          (tls : Option Engine)
          → Backed (established w.events) tls
          → IsBacked (
              or_error (elim tls [
                | some engine ↦ write_encrypted p (encrypt engine bytes read_buf_size) w
                | none ↦ write_raw p bytes w
              ]))
      by_engine none k = or_error-IsBacked (write_raw p bytes w).0 _ h
      by_engine (some e) k =
          write_encrypted-IsBacked _ w
            (Backed-step (established w.events) e _ (finishes.by_encrypt e bytes read_buf_size) k)

  -- Where no engine is held no handshake has finished, and any engine will do.
  pub unfinished : (b : Bool) (tls : Option Engine) → Backed b none → Backed b tls
  unfinished true tls h = elim h [ ]
  unfinished false tls h = tt

  first_step-IsBacked :
      (step : TlsStep Engine) (w : World Engine)
      → Backed (established w.events) none
      → Holds (first_step p step w) IsBacked
  unfolding first_step
  first_step-IsBacked step w h = by_status step.status step.out
    where
      w' : World Engine
      w' = record w { conn = record (w.conn) { tls = some step.engine } }

      k : IsBacked w'
      k = unfinished (established w.events) (some step.engine) h

      by_status :
          (s : TlsStatus) (out : Bytes)
          → Holds
              (elim s [
                | want_write ↦ done (or_error (write_raw p out w'))
                | want_read ↦ done (or_error (read_cipher p w'))
                | _ ↦ fail_with log_tls_fail "TLS handshake failed to start" w'
              ])
              IsBacked
      by_status want_write out = or_error-IsBacked (write_raw p out w').0 _ k
      by_status want_read out = or_error-IsBacked (read_cipher p w').0 _ k
      by_status tls_ok out = fail_with-IsBacked log_tls_fail _ w' k
      by_status tls_error out = fail_with-IsBacked log_tls_fail _ w' k

  pub begin_tls_handshake-IsBacked :
      (now_ms : ℕ) (detail : String) (w : World Engine)
      → Backed (established w.events) none
      → Holds (begin_tls_handshake p now_ms detail w) IsBacked
  unfolding begin_tls_handshake start_engine
  begin_tls_handshake-IsBacked now_ms detail w h = by_engine (create w.conn.actor w.conn.trust)
    where
      by_engine :
          (made : Option Engine)
          → Holds
              (elim made [
                | none ↦
                    fail_with log_tls_fail "failed to create the TLS engine"
                      (record w { conn = record (w.conn) { tls = none } })
                | some engine ↦
                    start_engine p engine now_ms detail
                      (record w { conn = record (w.conn) { tls = some engine } })
              ])
              IsBacked
      by_engine none = fail_with-IsBacked log_tls_fail _ _ h
      by_engine (some engine) =
          after IsBacked log_tls_begin (literal detail) _ _ (first_step-IsBacked _ _ h)
