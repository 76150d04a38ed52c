-- ===== src/Connection/Greeting.antt =====
-- src/smtp_connection.c: the log line of the greeting, and its assertion.
use smtpc_cli.Connection.State.{
  wait_banner, text, log_reply, LogEvent, Platform, World, Run, aborted, contains_cr_or_lf,
  max_reply_lines, ◌>>=◌,
}
use smtpc_cli.Connection.Io.{copy_reply_text, emit}
use smtpc_cli.Connection.Handlers.{
  append_received, io_read, on_chunk, handle_banner, handle_banner_read, handle_greeting, no_error,
}
use smtpc_cli.Connection.Machine.{dispatch, on_plain_io, on_io}
use smtpc_cli.ReplyParser.Wire.{
  Line, Tail, more, last, bare, tail_bytes, report, report_tail, code_of,
}
use smtpc_cli.ReplyReader.{Outcome, Reply}
use smtpc_cli.ReplyReader.Lines.{wires, size, IsReply}
use smtpc_cli.ReplyReader.Exact.{read-wires}
use Prim.Native.String.{String}
use smtpc_cli.Common.{
  arith, ℕ, zero, suc, ◌+◌, ◌-◌, ◌<◌, ◌≤◌, Bool, true, false, ◌||◌, List, Bytes, [], ◌∷◌, ◌++◌, ◌≡◌,
  refl, ◌∙◌, none, ltb, if◌then◌else◌, length, take, cr, lf,
}

contains-take :
    (n : ℕ) (xs ys : Bytes) → length xs < n → contains_cr_or_lf (take n (xs ++ cr ∷ ys)) ≡ true
unfolding contains_cr_or_lf
contains-take zero xs ys h = ground arith
contains-take (suc n) [] ys h = refl
contains-take (suc n) (x ∷ xs) ys h = let e = contains-take n xs ys (omega arith) in ground arith

-- A line's bytes in front of its CRLF.
abbrev body : Line → Bytes
body l = l.d0 ∷ l.d1 ∷ l.d2 ∷ tail_bytes l.tail

consumed-body : (n : ℕ) (t : Tail) → (report_tail n t).consumed ≡ length (tail_bytes t) + 5
consumed-body n (more s) = omega arith
consumed-body n (last s) = omega arith
consumed-body n bare = refl

refused :
    {E : Type 0} (a b : Bool) (r : Run E) (f : World E → Run E)
    → b ≡ true
    → ((if a || b then aborted else r) >>= f) ≡ aborted
refused true b r f h = refl
refused false true r f h = refl
refused false false r f h = absurd (ground arith)

emit_aborts :
    {E : Type 0} (e : LogEvent) (t : Bytes) (w : World E) (f : World E → Run E)
    → contains_cr_or_lf t ≡ true
    → (emit e (text t) w >>= f) ≡ aborted
unfolding emit
emit_aborts e t w f h = refused (contains_cr_or_lf w.conn.actor) (contains_cr_or_lf t) _ f h

logged_text :
    (l m : Line) (ls : List Line)
    → (report l).consumed ≤ 256
    → contains_cr_or_lf (
        copy_reply_text
          (wires (l ∷ m ∷ ls) [])
          (if ltb 2 (size (l ∷ m ∷ ls)) then size (l ∷ m ∷ ls) - 2 else 0)
          256)
      ≡ true
unfolding copy_reply_text
logged_text l m ls h = contains-take _ (body l) (lf ∷ wires (m ∷ ls) []) (
    let e = consumed-body (code_of l) l.tail in
    let f = consumed-body (code_of m) m.tail in ground arith)

module _ (p : Platform) where
  open p use {Engine}

  handle_banner_aborts :
      (reply : Reply) (o : Outcome) (identity : Bytes) (now_ms : ℕ) (w : World Engine)
      → o ≡ Outcome.ok reply
      → contains_cr_or_lf (
          copy_reply_text w.conn.received
            (if ltb 2 reply.consumed then reply.consumed - 2 else 0)
            256)
        ≡ true
      → handle_banner p o identity now_ms w ≡ aborted
  unfolding handle_banner handle_greeting
  handle_banner_aborts reply o identity now_ms w e h = rw e (emit_aborts log_reply _ _ _ h)

  on_chunk_reads :
      (chunk : Bytes) (c : ℕ) (m n : String) (w : World Engine) (next : World Engine → Run Engine)
      → on_chunk (record { kind = io_read; failed = false; chunk = c ∷ chunk; sent = 0 }) m n w next
        ≡ next (append_received (c ∷ chunk) w)
  unfolding on_chunk
  on_chunk_reads chunk c m n w next = ground arith

-- A well-formed greeting of two lines or more, at most 64, whose first line takes at most 256
-- octets, read at once and in the clear, ends the process: the logged text holds the end of the
-- first line, and the log's assertion refuses it.
pub greeting_aborts :
    (p : Platform) (w : World p.Engine) (identity : Bytes) (now_ms code : ℕ) (l m : Line)
    (ls : List Line)
    → IsReply code (l ∷ m ∷ ls)
    → length (l ∷ m ∷ ls) ≤ max_reply_lines
    → (report l).consumed ≤ 256
    → on_io p
        (record { kind = io_read; failed = false; chunk = wires (l ∷ m ∷ ls) []; sent = 0 })
        identity
        now_ms
        (record w { conn = record (w.conn) { state = wait_banner; tls = none; received = [] } })
      ≡ aborted
unfolding on_io on_plain_io dispatch handle_banner_read
greeting_aborts p w identity now_ms code l m ls h k s =
    on_chunk_reads p _ l.d0 _ _ _ _
    ∙ handle_banner_aborts p _ _ identity now_ms _
        (read-wires code max_reply_lines (l ∷ m ∷ ls) [] no_error h k) (logged_text l m ls s)
