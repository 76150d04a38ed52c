-- ===== src/Log/Lines.antt =====
-- src/smtp_log.c: a log line is one line, whatever is logged.
use smtpc_cli.Log.{
  Logger, LogId, Timestamp, zeros, zero_padded, format_id, event_name, line_text, emit_line, joined,
  line_pieces,
}
use smtpc_cli.Log.Clean.{IsClean, contains-All}
use smtpc_cli.Capabilities.Summary.{decimal, digits}
use smtpc_cli.Connection.State.{
  LogEvent, log_connecting, log_connected, log_ehlo, log_reply, log_capabilities, log_starttls,
  log_tls_begin, log_tls_ok, log_tls_fail, log_tls_cert_warning, log_error, log_timeout,
  log_resolved, log_mail_from, log_rcpt_to, log_data_begin, log_data_end, log_rset, log_quit,
  log_disconnect,
}
use smtpc_cli.Common.{
  arith, ℕ, zero, suc, ◌+◌, ◌-◌, ◌/◌, ◌%◌, ◌≤◌, ◌≡◌, ◌⊎◌, refl, subst, Bool, true, false, some, [],
  List, ◌∷◌, ◌++◌, Bytes, ltb, if◌then◌else◌, codes, take, length, All, All-append, All-take,
  length-take, Bool-cases, inl, inr, lf,
}

-- Text without CR and LF, that an LF may end.
abbrev pub IsOneLine : Bytes → Type 0
IsOneLine [] = Unit
IsOneLine (c ∷ cs) = (IsClean c × IsOneLine cs) ⊎ ((c ≡ lf) × (cs ≡ []))

IsOneLine-append : (xs ys : Bytes) → All IsClean xs → IsOneLine ys → IsOneLine (xs ++ ys)
IsOneLine-append [] ys a h = h
IsOneLine-append (x ∷ xs) ys (c, a) h = inl (c, IsOneLine-append xs ys a h)

IsOneLine-take : (n : ℕ) (xs : Bytes) → IsOneLine xs → IsOneLine (take n xs)
IsOneLine-take zero xs h = tt
IsOneLine-take (suc n) [] h = tt
IsOneLine-take (suc n) (x ∷ xs) (inl (c, h)) = inl (c, IsOneLine-take n xs h)
IsOneLine-take (suc n) (x ∷ xs) (inr (e, f)) = inr (e, taken n xs f)
  where
    taken : (n : ℕ) (xs : Bytes) → xs ≡ [] → take n xs ≡ []
    taken zero xs f = refl
    taken (suc n) xs f = rw f refl

digits-IsClean : (fuel n : ℕ) (acc : Bytes) → All IsClean acc → All IsClean (digits fuel n acc)
digits-IsClean zero n acc a = a
digits-IsClean (suc fuel) n acc a = elim (Bool-cases (ltb n 10)) [
  | inl t ↦ rw t (ground arith, a)
  | inr f ↦ rw f (digits-IsClean fuel (n / 10) ((b'0' + n % 10) ∷ acc) (ground arith, a))
]

zeros-IsClean : (n : ℕ) → All IsClean (zeros n)
zeros-IsClean zero = tt
zeros-IsClean (suc n) = (ground arith, zeros-IsClean n)

padded-IsClean : (width n : ℕ) → All IsClean (zero_padded width n)
unfolding zero_padded decimal
padded-IsClean width n =
    All-append IsClean (zeros _) _ (zeros-IsClean _) (digits-IsClean 20 n [] tt)

id-IsClean : (size : ℕ) (id : LogId) → All IsClean (format_id size id)
unfolding format_id
id-IsClean size id = All-take IsClean (size - 1) _ (
  ground arith,
  All-append IsClean (zero_padded 4 id.thread_id) _ (padded-IsClean 4 id.thread_id) (
    ground arith,
    (
      ground arith,
      All-append IsClean (zero_padded 4 id.connection_id) _ (padded-IsClean 4 id.connection_id)
          (tail id.has_message_seq),
    ),
  ),
)
  where
    tail : (b : Bool) → All IsClean (if b then codes ".M" ++ zero_padded 4 id.message_seq else [])
    tail true = (ground arith, (ground arith, padded-IsClean 4 id.message_seq))
    tail false = tt

name-IsClean : (e : LogEvent) → All IsClean (event_name e)
name-IsClean log_connecting = ground arith
name-IsClean log_connected = ground arith
name-IsClean log_ehlo = ground arith
name-IsClean log_reply = ground arith
name-IsClean log_capabilities = ground arith
name-IsClean log_starttls = ground arith
name-IsClean log_tls_begin = ground arith
name-IsClean log_tls_ok = ground arith
name-IsClean log_tls_fail = ground arith
name-IsClean log_tls_cert_warning = ground arith
name-IsClean log_error = ground arith
name-IsClean log_timeout = ground arith
name-IsClean log_resolved = ground arith
name-IsClean log_mail_from = ground arith
name-IsClean log_rcpt_to = ground arith
name-IsClean log_data_begin = ground arith
name-IsClean log_data_end = ground arith
name-IsClean log_rset = ground arith
name-IsClean log_quit = ground arith
name-IsClean log_disconnect = ground arith

IsOneLine-joined :
    (pieces : List Bytes) (end : Bytes)
    → All (λ piece. All IsClean piece) pieces
    → IsOneLine end
    → IsOneLine (joined pieces end)
IsOneLine-joined [] end a h = h
IsOneLine-joined (piece ∷ pieces) end (c, a) h =
    IsOneLine-append piece (joined pieces end) c (IsOneLine-joined pieces end a h)

pieces-IsClean :
    (ts : Timestamp) (id : LogId) (actor : Bytes) (event : LogEvent) (detail : Bytes)
    → All IsClean actor
    → All IsClean detail
    → All (λ piece. All IsClean piece) (line_pieces ts id actor event detail)
pieces-IsClean ts id actor event detail a d = ground (
  arith,
  padded-IsClean 4 ts.year,
  padded-IsClean 2 ts.month,
  padded-IsClean 2 ts.day,
  padded-IsClean 2 ts.hour,
  padded-IsClean 2 ts.minute,
  padded-IsClean 2 ts.second,
  padded-IsClean 3 ts.ms,
  id-IsClean 64 id,
  name-IsClean event,
)

-- What an event is logged as, whatever the actor and the detail that pass the assertions, is 2047
-- bytes at most and holds no CR, and no LF but at its end.
pub emit_line-IsOneLine :
    (g : Logger) (ts : Timestamp) (id : LogId) (actor : Bytes) (event : LogEvent)
    (detail line : Bytes)
    → emit_line g ts id actor event detail ≡ some line
    → (length line ≤ 2047) × IsOneLine line
unfolding emit_line line_text
emit_line-IsOneLine g ts id actor event detail line h =
    let a = contains-All actor (ground arith) in
    let d = contains-All detail (ground arith) in
    let text = line_text ts id actor event detail in
    let o = IsOneLine-take 2047 text (
      IsOneLine-joined (line_pieces ts id actor event detail) (lf ∷ [])
        (pieces-IsClean ts id actor event detail a d) (inr (refl, refl))) in
    let e : take 2047 text ≡ line = ground arith in
    (
      subst (λ xs. length xs ≤ 2047) e (let k = length-take 2047 text in omega (arith, k)),
      subst IsOneLine e o,
    )
