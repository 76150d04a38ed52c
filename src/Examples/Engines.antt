-- ===== src/Examples/Engines.antt =====
-- Engines on an OpenSSL whose handshake takes one step: sessions are numbers, 9 is a session that has
-- rejected a certificate. And resolutions.
use smtpc_cli.Tls.Session.{engine_finished, deciphers}
use smtpc_cli.Connection.Reachable.{fresh}
use smtpc_cli.Connection.Io.{
  emit, fail_with, submit_read_bytes, begin_tls_handshake, start_engine, first_step,
}
use smtpc_cli.Connection.Handlers.Handshake.{
  handle_tls_handshake, handle_handshake_input, handle_handshake_step, handle_established,
}
use smtpc_cli.Tls.{
  Tls, Openssl, Presented, rc_of, rc_negative, ssl_want_read, verify_chain, verify_callback,
  copy_bounded,
}
use smtpc_cli.Tls.Engine.{handshake, encrypt, decrypt, feed_input, drain_output, advance, shaken}
use smtpc_cli.Tls.Lifecycle.{
  create, filled_in, with_session, paired, ctx_create, ctx_destroy, destroy, ssl_object,
}
use smtpc_cli.Tls.Verify.{IsVerified, verify_chain-IsVerified}
use smtpc_cli.Tls.Reached.{Reached, Rejects}
use smtpc_cli.Tls.Usable.{is_some, encrypt-is_some}
use smtpc_cli.Tls.Strict.{handshake-validated}
use smtpc_cli.Tls.Holdings.{same_resource, destroy-create_tls}
use smtpc_cli.Tls.Bridge.{platform, ReadsInto, platform-Fits}
use smtpc_cli.Resolve.{Resolved, refused, found, resolve_host}
use smtpc_cli.Resolve.Address.{IsClean, resolve_host-IsClean}
use smtpc_cli.Connection.Reachable
use smtpc_cli.Connection.State.{
  World, Holds, tls_ok, read_buf_size, implicit, wait_banner, Platform, Run, done, aborted,
  contains_cr_or_lf,
}
use smtpc_cli.Connection.Handlers.{
  IoResult, io_read, io_connect, handle_connect_completion, handle_connected, await_banner,
}
use smtpc_cli.Connection.Machine.{
  on_io, connection_init, connection_start, on_handshake_io, on_plain_io, dispatch,
}
use smtpc_cli.Capabilities.{cap_init}
use smtpc_cli.Common.Ledger.{times_acquired, times_released}
use smtpc_cli.Common.{
  arith, ℕ, ◌≤◌, ◌==◌, ◌≡◌, refl, Bool, true, false, ◌&&◌, not, some, none, [], ◌∷◌, ◌++◌, Bytes,
  codes, length, if◌then◌else◌,
}

abbrev leaf : (good : Bool) → Presented
leaf good = record {
  preverify_ok = good;
  depth = 0;
  cert = some (record { subject = codes "mx"; issuer = codes "ca"; not_after = some 5 });
  error_string = codes "expired";
}

-- The chain is a leaf that passes or fails.
abbrev toy : (good : Bool) → Openssl
toy good = record {
  Session = ℕ;
  supply = λ _ _. record { memory = true; ssl = some 0; pair = λ s. some s };
  configured = λ _ _ s. s;
  bio_write = λ b s. (rc_of (length b), s);
  bio_read = λ n s. ([], s);
  presented = λ s. leaf good ∷ [];
  do_handshake = λ v s. if v && not (s == 9) then (rc_of 1, s) else (rc_negative, 9);
  ssl_write = λ b s. (rc_of (length b), s);
  ssl_read = λ n s. ([], rc_negative, s);
  ssl_shutdown = λ s. s;
  get_error = λ rc s. ssl_want_read;
}

toy-Rejects : Rejects (toy true) (λ s. s == 9)
toy-Rejects = record {
  rejected = λ s. refl;
  no_success = λ v s h. ground arith;
  by_handshake = λ v s h. ground arith;
  by_bio_write = λ b s. refl;
  by_bio_read = λ n s. refl;
  by_ssl_write = λ b s. refl;
  by_ssl_read = λ n s. refl;
  by_shutdown = λ s. refl;
}

abbrev new_engine : (trust : Bool) → Tls ℕ
new_engine trust = filled_in 0 (codes "mx") trust

abbrev shaken_engine : Tls ℕ
shaken_engine = record (new_engine false) {
  handshake_done = true;
  cert_info = record {
    validated = true;
    failure_reason = [];
    subject = codes "mx";
    issuer = codes "ca";
    not_after = 5;
  };
}

finishes :
    handshake (toy true) (new_engine false) [] 100
    ≡ record { step = record { status = tls_ok; out = []; engine = shaken_engine }; err = none }
unfolding handshake feed_input drain_output advance shaken verify_chain verify_callback
finishes = refl

-- With the trust flag a certificate that fails is recorded, and the handshake ends well.
trusted : (handshake (toy false) (new_engine true) [] 100).step.status ≡ tls_ok
unfolding handshake feed_input drain_output advance shaken verify_chain verify_callback
trusted = refl

trusted_reason :
    (handshake (toy false) (new_engine true) [] 100).step.engine.cert_info.failure_reason
    ≡ codes "expired"
unfolding handshake feed_input drain_output advance shaken verify_chain verify_callback copy_bounded
trusted_reason = refl

new_engine-Reached : (trust : Bool) → Reached (toy true) trust (new_engine trust) false
unfolding create with_session paired
new_engine-Reached trust = Reached.created (codes "mx") (new_engine trust) refl

shaken_engine-Reached : Reached (toy true) false shaken_engine true
unfolding handshake feed_input drain_output advance shaken verify_chain verify_callback
shaken_engine-Reached = Reached.shook (new_engine false) false [] 100 (new_engine-Reached false)

verify_chain-IsVerified_example :
    IsVerified
      (new_engine true)
      (leaf true ∷ leaf false ∷ [])
      (verify_chain (leaf true ∷ leaf false ∷ []) (new_engine true)).0
      (verify_chain (leaf true ∷ leaf false ∷ []) (new_engine true)).1
verify_chain-IsVerified_example =
    verify_chain-IsVerified (leaf true ∷ leaf false ∷ []) (new_engine true)

encrypt-is_some_test :
    (is_some (encrypt (toy true) shaken_engine (codes "x") 100) ≡ true)
    × (is_some (decrypt (toy true) shaken_engine (codes "y") 100) ≡ true)
encrypt-is_some_test =
    encrypt-is_some (toy true) false shaken_engine true (codes "x") (codes "y") 100
      shaken_engine-Reached

handshake-validated_example :
    (handshake (toy true) (new_engine false) [] 100).step.engine.cert_info.validated ≡ true
unfolding handshake feed_input drain_output advance shaken verify_chain verify_callback
handshake-validated_example =
    handshake-validated (toy true) (λ s. s == 9) toy-Rejects (new_engine false) false [] 100
      (new_engine-Reached false) refl

destroy-create_tls_example :
    (times_acquired same_resource ssl_object (ctx_create true true false).2
      ≡ times_released same_resource ssl_object
          ((ctx_create true true false).2 ++ ctx_destroy (ctx_create true true false).1))
    × (times_acquired same_resource ssl_object (create (toy true) (codes "mx") true).2
        ≡ times_released same_resource ssl_object (
            (create (toy true) (codes "mx") true).2
            ++ destroy (toy true) (create (toy true) (codes "mx") true).1))
destroy-create_tls_example =
    destroy-create_tls (toy true) true true false (codes "mx") true ssl_object

toy-ReadsInto : ReadsInto (toy true)
toy-ReadsInto = record { by_bio_read = λ n s. omega arith; by_ssl_read = λ n s. omega arith }

abbrev greeted : World (Tls ℕ)
greeted = record {
  conn = record (connection_init (codes "mx") implicit false) {
    state = wait_banner;
    tls = some shaken_engine;
  };
  caps = cap_init;
  events = [];
}

abbrev record_read : IoResult
record_read = record { kind = io_read; failed = false; chunk = codes "xyz"; sent = 0 }

platform-Fits_example :
    Holds
      (on_io (platform (toy true) (λ _. true)) record_read (codes "me") 0 greeted)
      (λ v. length v.conn.received ≤ read_buf_size)
platform-Fits_example =
    platform-Fits (toy true) (λ _. true) record_read (codes "me") 0 greeted toy-ReadsInto
      (omega arith) (λ h _. cc)

abbrev finder : Bytes → Bytes → Resolved
finder host port =
    if length port == 2 then found (some (1 ∷ 2 ∷ 3 ∷ 4 ∷ [])) else refused (codes "no")

resolve_host-IsClean_example : IsClean 128 (resolve_host true true true finder 128 (codes "mx") 25)
resolve_host-IsClean_example = resolve_host-IsClean true true true finder 128 (codes "mx") 25

-- An OpenSSL whose handshake takes two steps, below a connection in implicit mode that has finished it.
abbrev slow : Openssl
slow = record (toy true) { do_handshake = λ v s. if s == 0 then (rc_negative, 1) else (rc_of 1, s) }

abbrev slow_platform : Platform
slow_platform = platform slow (λ _. true)

abbrev world_in : Run (Tls ℕ) → World (Tls ℕ)
world_in (done w) = w
world_in aborted = greeted

abbrev opening : World (Tls ℕ)
opening = world_in (
    connection_start slow_platform 0 1000
      (fresh slow_platform (codes "mx") implicit false cap_init))

abbrev connected : IoResult
connected = record { kind = io_connect; failed = false; chunk = []; sent = 0 }

abbrev shaking : World (Tls ℕ)
shaking = world_in (on_io slow_platform connected (codes "me") 0 opening)

abbrev secured : World (Tls ℕ)
secured = world_in (on_io slow_platform record_read (codes "me") 0 shaking)

abbrev secured_engine : Tls ℕ
secured_engine = record shaken_engine { ssl = 1 }

secured-Reached :
    Reachable.Reached slow_platform (codes "mx") implicit false secured
    × (secured.conn.tls ≡ some secured_engine)
    × (deciphers secured.conn.state ≡ true)
unfolding connection_start on_io on_handshake_io on_plain_io dispatch handle_connect_completion
    handle_connected await_banner handle_tls_handshake handle_handshake_input handle_handshake_step
    handle_established emit contains_cr_or_lf fail_with submit_read_bytes begin_tls_handshake
    start_engine first_step create with_session paired handshake feed_input drain_output advance
    shaken verify_chain verify_callback
secured-Reached = (
  Reachable.completed record_read (codes "me") 0
      (Reachable.completed connected (codes "me") 0 (Reachable.started 0 1000 cap_init refl) refl)
      refl,
  refl,
  refl,
)

engine_finished_example :
    (is_some (decrypt slow secured_engine (codes "y") 100) ≡ true)
    × (is_some (encrypt slow secured_engine (codes "x") 100) ≡ true)
engine_finished_example =
    engine_finished slow (λ _. true) (codes "mx") implicit false secured secured_engine (codes "y")
      (codes "x") 100 secured-Reached.0 secured-Reached.1 secured-Reached.2
