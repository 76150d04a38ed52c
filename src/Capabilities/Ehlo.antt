-- ===== src/Capabilities/Ehlo.antt =====
-- A whole EHLO response: the greeting line is skipped, every other line is merged in order, and the
-- assertion inside the loop cannot fail.
use smtpc_cli.Capabilities.{
  ReplyLine, Capabilities, cap_init, parse_cap_line, lines_loop, parse_ehlo_response, EhloResult,
  ok, other, filled,
}
use smtpc_cli.ReplyParser.{Parsed, parse_line, LastError}
use smtpc_cli.ReplyParser.Wire.{
  Line, Tail, more, last, bare, wire, tail_bytes, crlf, report, report_tail, code_of, IsLine,
}
use smtpc_cli.ReplyReader.{Outcome, Reply, read}
use smtpc_cli.ReplyReader.Lines.{wires, IsReply, drop-wire, parse_line-wire}
use smtpc_cli.ReplyReader.Exact.{ReadReply, read-ReadReply}
use smtpc_cli.Common.{
  ℕ, suc, ◌+◌, ◌<◌, ◌≡◌, ◌≢◌, refl, ap, ◌∙◌, true, [], ◌∷◌, ◌++◌, List, Bytes, ltb, if◌then◌else◌,
  arith, length, All, take, drop, take-append, some,
}

abbrev pub text_of : Tail → Bytes
text_of (more text) = text
text_of (last text) = text
text_of bare = []

-- The capabilities of further lines, merged into `caps`.
abbrev pub merge : Capabilities → List Line → Capabilities
merge caps [] = caps
merge caps (l ∷ ls) = merge (parse_cap_line caps (text_of l.tail)) ls

-- What a response announces: every line but the first.
abbrev pub announced : List Line → Capabilities
announced [] = cap_init
announced (l ∷ ls) = merge cap_init ls

text-tail :
    (d0 d1 d2 n : ℕ) (t : Tail) (rest : Bytes)
    → take
        (report_tail n t).text_len
        (drop (report_tail n t).text_offset (d0 ∷ d1 ∷ d2 ∷ (tail_bytes t ++ crlf rest)))
      ≡ text_of t
text-tail d0 d1 d2 n (more text) rest = take-append text (crlf rest)
text-tail d0 d1 d2 n (last text) rest = take-append text (crlf rest)
text-tail d0 d1 d2 n bare rest = refl

-- The slice handed to `smtp_cap_parse_line` is the line's text.
text-wire :
    (l : Line) (rest : Bytes)
    → take (report l).text_len (drop (report l).text_offset (wire l rest)) ≡ text_of l.tail
text-wire l rest = text-tail l.d0 l.d1 l.d2 (code_of l) l.tail rest

IsReply-IsLine : (code : ℕ) (ls : List Line) → IsReply code ls → All IsLine ls
IsReply-IsLine code [] h = tt
IsReply-IsLine code (l ∷ []) h = (h.0, tt)
IsReply-IsLine code (l ∷ m ∷ ls) h = (h.0, IsReply-IsLine code (m ∷ ls) h.3)

abbrev merged : ℕ → Capabilities → Bytes → Capabilities
merged i caps text = if ltb 0 i then parse_cap_line caps text else caps

lines_loop-ok :
    (left i : ℕ) (buf : Bytes) (caps : Capabilities) (g : LastError) {line : ReplyLine}
    → (parse_line (some buf) g).0 ≡ Parsed.ok line
    → (lines_loop (suc left) i buf caps g).0
      ≡ (lines_loop left
          (i + 1)
          (drop line.consumed buf)
          (merged i caps (take line.text_len (drop line.text_offset buf)))
          (parse_line (some buf) g).1).0
unfolding lines_loop
lines_loop-ok left i buf caps g e = ground arith

lines_loop-wire :
    (left i : ℕ) (l : Line) (rest : Bytes) (caps : Capabilities) (g : LastError)
    → IsLine l
    → (lines_loop (suc left) i (wire l rest) caps g).0
      ≡ (lines_loop left
          (i + 1)
          rest
          (merged i caps (text_of l.tail))
          (parse_line (some (wire l rest)) g).1).0
lines_loop-wire left i l rest caps g h =
    lines_loop-ok left i (wire l rest) caps g (parse_line-wire l rest g h)
    ∙ rw (text-wire l rest, drop-wire l rest) refl

lines_loop-merge :
    (i : ℕ) (ls : List Line) (rest : Bytes) (caps : Capabilities) (g : LastError)
    → 0 < i
    → All IsLine ls
    → (lines_loop (length ls) i (wires ls rest) caps g).0 ≡ some (merge caps ls)
lines_loop-merge i [] rest caps g h a = unfold lines_loop in refl
lines_loop-merge i (l ∷ ls) rest caps g h a =
    let later : ltb 0 i ≡ true = ground arith in
    let g' = (parse_line (some (wire l (wires ls rest))) g).1 in
    lines_loop-wire (length ls) i l (wires ls rest) caps g a.0
    ∙ rw later (
        lines_loop-merge (i + 1) ls rest (parse_cap_line caps (text_of l.tail)) g' (omega arith)
          a.1)

lines_loop-announced :
    (ls : List Line) (rest : Bytes) (g : LastError)
    → All IsLine ls
    → (lines_loop (length ls) 0 (wires ls rest) cap_init g).0 ≡ some (announced ls)
lines_loop-announced [] rest g a = unfold lines_loop in refl
lines_loop-announced (l ∷ ls) rest g a =
    let g' = (parse_line (some (wire l (wires ls rest))) g).1 in
    lines_loop-wire (length ls) 0 l (wires ls rest) cap_init g a.0
    ∙ lines_loop-merge 1 ls rest cap_init g' (omega arith) a.1

lines_loop-splits :
    (n : ℕ) (buf : Bytes) (ls : List Line) (rest : Bytes) (g : LastError)
    → n ≡ length ls
    → buf ≡ wires ls rest
    → All IsLine ls
    → (lines_loop n 0 buf cap_init g).0 ≡ some (announced ls)
lines_loop-splits n buf ls rest g e f a = rw (e, f) (lines_loop-announced ls rest g a)

module _ (buf : Bytes) (max_lines : ℕ) (g : LastError) where
  ehlo-ok :
      (r : Reply)
      → (read (some buf) max_lines g).0 ≡ Outcome.ok r
      → (parse_ehlo_response buf max_lines g).0
        ≡ filled (lines_loop r.line_count 0 buf cap_init (read (some buf) max_lines g).1).0
  unfolding parse_ehlo_response
  ehlo-ok r e = ground arith

  ehlo-other :
      (o : Outcome)
      → (read (some buf) max_lines g).0 ≡ o
      → ((r : Reply) → o ≢ Outcome.ok r)
      → (parse_ehlo_response buf max_lines g).0 ≡ other o
  unfolding parse_ehlo_response
  ehlo-other (Outcome.ok r) e n = absurd (n r refl)
  ehlo-other Outcome.incomplete e n = ground arith
  ehlo-other (Outcome.fail x) e n = ground arith

-- What an outcome of the reader makes of the response.
abbrev pub Announces : Bytes → ℕ → Outcome → EhloResult → Type 0
Announces buf max_lines (Outcome.ok r) result =
    (reply : ReadReply buf max_lines r) × (result ≡ ok (announced reply.lines))
Announces buf max_lines o result = result ≡ other o

-- On a whole reply the capabilities are those of its lines behind the first, merged in order into
-- an empty set, on anything else the reader's outcome is passed on, and the assertion that the
-- second pass over the lines succeeds never fails.
pub parse_ehlo_response-Announces :
    (buf : Bytes) (max_lines : ℕ) (g : LastError)
    → Announces buf max_lines
        (read (some buf) max_lines g).0
        (parse_ehlo_response buf max_lines g).0
parse_ehlo_response-Announces buf max_lines g = go (read (some buf) max_lines g).0 refl
  where
    go :
        (o : Outcome)
        → (read (some buf) max_lines g).0 ≡ o
        → Announces buf max_lines o (parse_ehlo_response buf max_lines g).0
    go (Outcome.ok r) e =
        let t = read-ReadReply buf max_lines g e in
        let lines = IsReply-IsLine r.code t.lines t.is_reply in
        (
          t,
          ehlo-ok buf max_lines g r e
              ∙ ap filled (
                  lines_loop-splits r.line_count buf t.lines t.rest (read (some buf) max_lines g).1
                    t.count_is t.splits lines),
        )
    go Outcome.incomplete e = ehlo-other buf max_lines g Outcome.incomplete e (λ r x. cc)
    go (Outcome.fail x) e = ehlo-other buf max_lines g (Outcome.fail x) e (λ r y. cc)
