-- ===== src/Examples/Sessions.antt =====
-- Sessions of a connection on an engine of two handshake steps that leaves bytes as they are.
use smtpc_cli.Connection.State.{
  timed_out, connecting, TlsMode, explicit, implicit, mode_none, tls_ok, want_read, want_write,
  error, ready, tls_handshaking, TlsStep, Platform, World, Run, done, aborted, Holds, ◌>>=◌,
  read_buf_size, contains_cr_or_lf,
}
use smtpc_cli.Connection.Handlers.{
  io_connect, io_read, io_write, IoResult, handle_connect_completion, handle_connected,
  await_banner, handle_banner_read, handle_banner, handle_greeting, send_ehlo, send_command,
  on_chunk, read_more,
}
use smtpc_cli.Connection.Handlers.Starttls.{
  handle_ehlo_write_completion, handle_ehlo_read, handle_ehlo, handle_capabilities,
  handle_summarised, upgrade_or_ready, send_starttls, handle_starttls_write_completion,
  handle_starttls_reply, handle_starttls_answer,
}
use smtpc_cli.Connection.Handlers.Handshake.{
  handle_tls_handshake, handle_handshake_input, handle_handshake_step, handle_established,
}
use smtpc_cli.Connection.Machine.{on_io, connection_start}
use smtpc_cli.Connection.Reachable.{
  fresh, Reached, started, completed, ready_is_secure, implicit_shakes_first, none_has_no_engine,
}
use smtpc_cli.Connection.Progress.{answers, IsWaiting}
use smtpc_cli.Connection.Progress.Machine.{on_io-IsWaiting}
use smtpc_cli.Connection.Forgets.{Forgets}
use smtpc_cli.Connection.Bounds.{DecryptsInto, on_io-Fits}
use smtpc_cli.Connection.Security.{has_engine, established}
use smtpc_cli.Capabilities.{cap_init}
use smtpc_cli.Connection.Io.{emit}
use smtpc_cli.Connection.Machine.{on_handshake_io, on_plain_io, decrypted, dispatch}
use smtpc_cli.Connection.Io.{
  fail_with, submit_read_bytes, submit_write_bytes, begin_tls_handshake, start_engine, first_step,
  build_ehlo_command, copy_reply_text,
}
use smtpc_cli.Capabilities.Params.{parse_size_param, parse_digits}
use smtpc_cli.Capabilities.Summary.{format_summary, append_token, decimal}
use smtpc_cli.Capabilities.{parse_ehlo_response, parse_cap_line, apply, lines_loop}
use smtpc_cli.ReplyReader.{read, read_loop}
use smtpc_cli.Capabilities.Keys.{upper, recognise, extract_keyword_and_key, extract_loop}
use smtpc_cli.ReplyParser.{
  parse_line, parse_buffer, parse_code, determine_separator, finish_line, scan_text_and_crlf,
  is_text_char,
}
use smtpc_cli.Common.{
  ◌-◌, subst, ap, arith, ℕ, zero, suc, ◌≤◌, Bool, true, false, [], ◌∷◌, ◌++◌, List, Bytes, cr, lf,
  codes, ◌≡◌, refl, some, ◌⊎◌, length, take, length-take,
}

-- Two more reads finish the handshake.
abbrev shake : ℕ → TlsStep ℕ
shake zero = record { status = tls_ok; out = []; engine = zero }
shake (suc n) = record { status = want_read; out = []; engine = n }

abbrev pub pipe : Platform
pipe = record {
  Engine = ℕ;
  create = λ _ _. some 2;
  handshake = λ engine _ _. shake engine;
  encrypt =
      λ engine input room. record { status = want_write; out = take room input; engine = engine };
  decrypt = λ engine input room. record { status = tls_ok; out = take room input; engine = engine };
  cert_info = λ _. record { validated = true; failure_reason = []; subject = codes "mx" };
  accepts = λ _. true;
}

pipe-DecryptsInto : DecryptsInto pipe
pipe-DecryptsInto engine input room = omega (arith, length-take room input)

abbrev got : Bytes → IoResult
got bytes = record { kind = io_read; failed = false; chunk = bytes; sent = 0 }

abbrev wrote : ℕ → IoResult
wrote n = record { kind = io_write; failed = false; chunk = []; sent = n }

abbrev connected : IoResult
connected = record { kind = io_connect; failed = false; chunk = []; sent = 0 }

abbrev crlf : Bytes
crlf = cr ∷ lf ∷ []

-- The client is `me`.
abbrev me : Bytes
me = codes "me"

abbrev drive : List IoResult → World ℕ → Run ℕ
drive [] w = done w
drive (result ∷ results) w = on_io pipe result me 0 w >>= drive results

abbrev world_of : World ℕ → Run ℕ → World ℕ
world_of d (done w) = w
world_of d aborted = d

abbrev is_done : Run ℕ → Bool
is_done (done _) = true
is_done aborted = false

done_of : (d : World ℕ) (r : Run ℕ) → is_done r ≡ true → r ≡ done (world_of d r)
done_of d (done w) h = refl
done_of d aborted h = ground arith

abbrev start : TlsMode → Run ℕ
start mode = connection_start pipe 0 1000 (fresh pipe me mode true cap_init)

abbrev begin : TlsMode → World ℕ
begin mode = world_of (fresh pipe me mode true cap_init) (start mode)

begin-Reached : (mode : TlsMode) → Reached pipe me mode true (begin mode)
unfolding connection_start emit contains_cr_or_lf
begin-Reached mode =
    started 0 1000 cap_init (done_of (fresh pipe me mode true cap_init) (start mode) refl)

done_is_not_aborted : (v : World ℕ) → ¬ (aborted ≡ done v)
done_is_not_aborted v e = let f = ap is_done e in ground arith

drive-Reached :
    (mode : TlsMode) (results : List IoResult) (w v : World ℕ)
    → Reached pipe me mode true w
    → drive results w ≡ done v
    → Reached pipe me mode true v
drive-Reached mode [] w v r e = subst (Reached pipe me mode true) (ap (world_of w) e) r
drive-Reached mode (result ∷ results) w v r e =
    go (on_io pipe result me 0 w) refl e
      (λ u a. drive-Reached mode results u v (completed result me 0 r a))
  where
    go :
        (run : Run ℕ)
        → on_io pipe result me 0 w ≡ run
        → (run >>= drive results) ≡ done v
        → ((u : World ℕ)
            → on_io pipe result me 0 w ≡ done u
            → drive results u ≡ done v
            → Reached pipe me mode true v)
        → Reached pipe me mode true v
    go (done u) a b rest = rest u a b
    go aborted a b rest = absurd (done_is_not_aborted v b)

begin_is_empty : length (begin explicit).conn.received ≤ read_buf_size
unfolding connection_start emit contains_cr_or_lf
begin_is_empty = omega arith

begin_has_room : 1 ≤ read_buf_size - length (begin explicit).conn.received
unfolding connection_start emit contains_cr_or_lf
begin_has_room = omega arith

-- The greeting, EHLO, STARTTLS, the handshake and EHLO again.
abbrev upgrade : List IoResult
upgrade =
    connected
    ∷ got (codes "220 hi" ++ crlf)
    ∷ wrote 9
    ∷ got (codes "250-mx" ++ crlf)
    ∷ got (codes "250 STARTTLS" ++ crlf)
    ∷ wrote 10
    ∷ got (codes "220 go" ++ crlf ++ codes "250 SIZE" ++ crlf)
    ∷ []

abbrev greet_again : List IoResult
greet_again = got (codes "x") ∷ got (codes "x") ∷ wrote 9 ∷ got (codes "250 mx" ++ crlf) ∷ []

-- The world behind the completions of a list.
abbrev after_all : TlsMode → List IoResult → World ℕ
after_all mode results = world_of (begin mode) (drive results (begin mode))

after_all-Reached :
    (mode : TlsMode) (results : List IoResult)
    → is_done (drive results (begin mode)) ≡ true
    → Reached pipe me mode true (after_all mode results)
after_all-Reached mode results h =
    drive-Reached mode results (begin mode) (after_all mode results) (begin-Reached mode)
      (done_of (begin mode) (drive results (begin mode)) h)

-- What the sessions come to: up to the handshake, where the injected bytes behind "220 go" are gone;
-- to READY; to the handshake of implicit TLS; to READY without TLS.
abbrev secured : List IoResult
secured = upgrade ++ greet_again

abbrev plain : List IoResult
plain = connected ∷ got (codes "220 hi" ++ crlf) ∷ wrote 9 ∷ got (codes "250 mx" ++ crlf) ∷ []

runs :
    (is_done (drive upgrade (begin explicit)) ≡ true)
    × ((after_all explicit upgrade).conn.state ≡ tls_handshaking)
    × ((after_all explicit upgrade).conn.received ≡ [])
    × (is_done (drive secured (begin explicit)) ≡ true)
    × ((after_all explicit secured).conn.state ≡ ready)
    × (is_done (drive (connected ∷ []) (begin implicit)) ≡ true)
    × (established (after_all implicit (connected ∷ [])).events ≡ false)
    × (is_done (drive plain (begin mode_none)) ≡ true)
    × ((after_all mode_none plain).conn.state ≡ ready)
unfolding connection_start on_io on_handshake_io on_plain_io decrypted dispatch
    handle_connect_completion handle_connected await_banner handle_banner_read handle_banner
    handle_greeting send_ehlo send_command handle_ehlo_write_completion handle_ehlo_read handle_ehlo
    handle_capabilities handle_summarised upgrade_or_ready send_starttls
    handle_starttls_write_completion handle_starttls_reply handle_starttls_answer
    handle_tls_handshake handle_handshake_input handle_handshake_step handle_established on_chunk
    read_more emit contains_cr_or_lf fail_with submit_read_bytes submit_write_bytes
    begin_tls_handshake start_engine first_step build_ehlo_command copy_reply_text
    parse_ehlo_response read read_loop lines_loop parse_cap_line apply recognise
    extract_keyword_and_key extract_loop upper parse_size_param parse_digits parse_line parse_buffer
    parse_code determine_separator finish_line scan_text_and_crlf is_text_char format_summary
    append_token decimal
runs = (refl, refl, refl, refl, refl, refl, refl, refl, refl)

-- A greeting of two lines ends the process: its text, which is logged, holds a line end.
runs_into_assertion :
    is_done (
      drive
        (connected ∷ got (codes "220-a" ++ crlf ++ codes "220 b" ++ crlf) ∷ [])
        (begin mode_none))
    ≡ false
unfolding connection_start on_io on_handshake_io on_plain_io decrypted dispatch
    handle_connect_completion handle_connected await_banner handle_banner_read handle_banner
    handle_greeting send_ehlo send_command handle_ehlo_write_completion handle_ehlo_read handle_ehlo
    handle_capabilities handle_summarised upgrade_or_ready send_starttls
    handle_starttls_write_completion handle_starttls_reply handle_starttls_answer
    handle_tls_handshake handle_handshake_input handle_handshake_step handle_established on_chunk
    read_more emit contains_cr_or_lf fail_with submit_read_bytes submit_write_bytes
    begin_tls_handshake start_engine first_step build_ehlo_command copy_reply_text
    parse_ehlo_response read read_loop lines_loop parse_cap_line apply recognise
    extract_keyword_and_key extract_loop upper parse_size_param parse_digits parse_line parse_buffer
    parse_code determine_separator finish_line scan_text_and_crlf is_text_char format_summary
    append_token decimal
runs_into_assertion = refl

ready_is_secure_example :
    (has_engine (after_all explicit secured).conn.tls ≡ true)
    × (established (after_all explicit secured).events ≡ true)
ready_is_secure_example =
    ready_is_secure pipe me explicit true (after_all explicit secured)
      (after_all-Reached explicit secured runs.3) runs.4 (λ e. ground arith) (λ e. ground arith)

implicit_shakes_first_example :
    let s = (after_all implicit (connected ∷ [])).conn.state in
    (s ≡ connecting) ⊎ (s ≡ tls_handshaking) ⊎ (s ≡ error) ⊎ (s ≡ timed_out)
implicit_shakes_first_example =
    implicit_shakes_first pipe me true (after_all implicit (connected ∷ []))
      (after_all-Reached implicit (connected ∷ []) runs.5) runs.6

none_has_no_engine_test : has_engine (after_all mode_none plain).conn.tls ≡ false
none_has_no_engine_test =
    none_has_no_engine pipe me true (after_all mode_none plain)
      (after_all-Reached mode_none plain runs.7)

on_io-IsWaiting_example :
    Holds (on_io pipe (got (codes "x")) me 0 (after_all explicit upgrade)) IsWaiting
on_io-IsWaiting_example =
    on_io-IsWaiting pipe (got (codes "x")) me 0 (after_all explicit upgrade)
      (ap (λ s. answers s io_read) runs.1)

on_io-Fits_test :
    Holds
      (on_io pipe (got (codes "x")) me 0 (begin explicit))
      (λ v. length v.conn.received ≤ read_buf_size)
on_io-Fits_test =
    on_io-Fits pipe (got (codes "x")) me 0 (begin explicit) pipe-DecryptsInto begin_is_empty
      (λ _ _. begin_has_room)
