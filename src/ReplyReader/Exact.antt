-- ===== src/ReplyReader/Exact.antt =====
-- The reader accepts the replies of at most `max_lines` lines and nothing else.
use smtpc_cli.ReplyReader.{Reply, ok, read, read_loop, advance}
use smtpc_cli.ReplyReader.Lines.{wires, size, IsReply, report-code, drop-wire, parse_line-wire}
use smtpc_cli.ReplyParser.{Parsed, parse_line, ReplyLine, LastError}
use smtpc_cli.ReplyParser.Wire.{Line, wire, report, code_of, IsLine}
use smtpc_cli.ReplyParser.Exact.{Accepted, parse_buffer-Accepted}
use smtpc_cli.Common.{
  sym, ap, ◌⊎◌, inl, inr, ◌≢◌, ◌≤◌, inl, ◌≢◌, zero, inr, ◌≤◌, ◌⊎◌, ℕ, suc, ◌+◌, ◌≡◌, refl, ◌∙◌, [],
  ◌∷◌, List, true, false, arith, Bytes, length, drop, some, Option,
}

module _ (left n first off : ℕ) (buf : Option Bytes) (g : LastError) {line : ReplyLine}
    (parsed : (parse_line buf g).0 ≡ Parsed.ok line) (same : (n ≡ 0) ⊎ (line.code ≡ first)) where
  read_loop-final :
      line.is_final ≡ true
      → (read_loop (suc left) n first off buf g).0
        ≡ ok (record { code = line.code; consumed = off + line.consumed; line_count = n + 1 })
  unfolding read_loop
  read_loop-final f = ground arith

  read_loop-next :
      line.is_final ≡ false
      → (read_loop (suc left) n first off buf g).0
        ≡ (read_loop left
            (n + 1)
            line.code
            (off + line.consumed)
            (advance line.consumed buf)
            (parse_line buf g).1).0
  unfolding read_loop
  read_loop-next f = ground arith

read_loop-wires :
    (left n first off code : ℕ) (ls : List Line) (rest : Bytes) (g : LastError)
    → IsReply code ls
    → length ls ≤ left
    → (n ≡ 0) ⊎ (code ≡ first)
    → (read_loop left n first off (some (wires ls rest)) g).0
      ≡ ok (record { code = code; consumed = off + size ls; line_count = n + length ls })
read_loop-wires left n first off code [] rest g reply h s = elim reply [ ]
read_loop-wires zero n first off code (l ∷ ls) rest g reply h s = absurd (omega arith)
read_loop-wires (suc left) n first off code (l ∷ []) rest g (line, c, final) h s =
    let e = report-code (code_of l) l.tail in
    read_loop-final left n first off (some (wire l rest)) g (parse_line-wire l rest g line)
      (ground arith) final
    ∙ ground (arith, e)
read_loop-wires (suc left) n first off code (l ∷ m ∷ ls) rest g (line, c, more, reply) h s =
    let e = report-code (code_of l) l.tail in
    let tail = wires (m ∷ ls) rest in
    let g' = (parse_line (some (wire l tail)) g).1 in
    read_loop-next left n first off (some (wire l tail)) g (parse_line-wire l tail g line)
      (ground arith) more
    ∙ rw (drop-wire l tail) (
        read_loop-wires left (n + 1) (report l).code (off + (report l).consumed) code (m ∷ ls) rest
          g' reply (omega arith) (inr (ground (arith, e)))
        ∙ ground arith)

-- A well-formed reply of at most max_lines lines, with any bytes behind it, is read to its code,
-- its size on the wire and its number of lines.
pub read-wires :
    (code max_lines : ℕ) (ls : List Line) (rest : Bytes) (g : LastError)
    → IsReply code ls
    → length ls ≤ max_lines
    → (read (some (wires ls rest)) max_lines g).0
      ≡ ok (record { code = code; consumed = size ls; line_count = length ls })
unfolding read
read-wires code max_lines ls rest g h k =
    read_loop-wires max_lines 0 0 0 code ls rest g h k (inl refl) ∙ ground arith

-- What a successful loop has read of `buf`.
record Taken (left n first off : ℕ) (buf : Bytes) (r : Reply) : Type 0 where
  lines : List Line
  rest : Bytes
  is_reply : IsReply r.code lines
  splits : buf ≡ wires lines rest
  short : length lines ≤ left
  consumed_is : r.consumed ≡ off + size lines
  count_is : r.line_count ≡ n + length lines
  same_code : n ≢ 0 → r.code ≡ first

abbrev Last : ℕ → ℕ → ReplyLine → Reply → Type 0
Last n off line r =
    (line.is_final ≡ true)
    × (r ≡ record { code = line.code; consumed = off + line.consumed; line_count = n + 1 })

module _ (left n first off : ℕ) (buf : Bytes) (g : LastError) {r : Reply}
    (h : (read_loop (suc left) n first off (some buf) g).0 ≡ ok r) where
  read_loop-parsed :
      (p : Parsed ReplyLine)
      → (parse_line (some buf) g).0 ≡ p
      → (line : ReplyLine) × ((parse_line (some buf) g).0 ≡ Parsed.ok line)
  unfolding read_loop
  read_loop-parsed (Parsed.ok line) e = (line, e)
  read_loop-parsed Parsed.incomplete e = absurd (ground arith)
  read_loop-parsed (Parsed.fail _ _) e = absurd (ground arith)

  read_loop-cases :
      {line : ReplyLine}
      → (parse_line (some buf) g).0 ≡ Parsed.ok line
      → ((n ≡ 0) ⊎ (line.code ≡ first))
        × (Last n off line r
            ⊎ ((line.is_final ≡ false)
                × ((read_loop left
                      (n + 1)
                      line.code
                      (off + line.consumed)
                      (some (drop line.consumed buf))
                      (parse_line (some buf) g).1).0
                    ≡ ok r)))
  unfolding read_loop
  read_loop-cases e = ground arith

parse_line-Accepted :
    (buf : Bytes) (g : LastError) {line : ReplyLine}
    → (parse_line (some buf) g).0 ≡ Parsed.ok line
    → Accepted buf line
unfolding parse_line
parse_line-Accepted buf g h = parse_buffer-Accepted buf h

IsReply-cons :
    (code : ℕ) (l : Line) (ls : List Line)
    → IsLine l
    → code_of l ≡ code
    → (report l).is_final ≡ false
    → IsReply code ls
    → IsReply code (l ∷ ls)
IsReply-cons code l [] h c f reply = elim reply [ ]
IsReply-cons code l (m ∷ ls) h c f reply = (h, c, f, reply)

code-is : {buf : Bytes} {line : ReplyLine} (a : Accepted buf line) → line.code ≡ code_of a.line
code-is a = ap (λ (l : ReplyLine). l.code) a.reported ∙ report-code (code_of a.line) a.line.tail

drop-is : {buf : Bytes} {line : ReplyLine} (a : Accepted buf line) → drop line.consumed buf ≡ a.rest
drop-is a = rw (a.splits, ap (λ (l : ReplyLine). l.consumed) a.reported) (drop-wire a.line a.rest)

module _ (left n first off : ℕ) (buf : Bytes) {line : ReplyLine} (a : Accepted buf line)
    (same : (n ≡ 0) ⊎ (line.code ≡ first)) {r : Reply} where
  Last-Taken : Last n off line r → Taken (suc left) n first off buf r
  Last-Taken (f, e) = record {
    lines = a.line ∷ [];
    rest = a.rest;
    is_reply = (a.is_line, ground (arith, code-is a), ground (arith, a.reported));
    splits = a.splits;
    short = omega arith;
    consumed_is = ground (arith, a.reported);
    count_is = ground arith;
    same_code = λ k. ground (arith, same);
  }

  next-Taken :
      line.is_final ≡ false
      → Taken left (n + 1) line.code (off + line.consumed) (drop line.consumed buf) r
      → Taken (suc left) n first off buf r
  next-Taken f t =
      let same_next = t.same_code (omega arith) in
      record {
        lines = a.line ∷ t.lines;
        rest = t.rest;
        is_reply =
            IsReply-cons r.code a.line t.lines a.is_line (ground (arith, code-is a, same_next))
              (ground (arith, a.reported)) t.is_reply;
        splits = a.splits ∙ ap (wire a.line) (sym (drop-is a) ∙ t.splits);
        short = omega (arith, t.short);
        consumed_is = ground (arith, a.reported, t.consumed_is);
        count_is = omega (arith, t.count_is);
        same_code = λ k. ground (arith, same, same_next);
      }

read_loop-Taken :
    (left n first off : ℕ) (buf : Bytes) (g : LastError) {r : Reply}
    → (read_loop left n first off (some buf) g).0 ≡ ok r
    → Taken left n first off buf r
read_loop-Taken zero n first off buf g h = absurd (unfold read_loop in ground arith)
read_loop-Taken (suc left) n first off buf g h =
    let (line, e) = read_loop-parsed left n first off buf g h (parse_line (some buf) g).0 refl in
    let (same, next) = read_loop-cases left n first off buf g h e in
    let a = parse_line-Accepted buf g e in
    elim next [
      | inl k ↦ Last-Taken left n first off buf a same k
      | inr (f, k) ↦ next-Taken left n first off buf a same f (
          read_loop-Taken left (n + 1) line.code (off + line.consumed) (drop line.consumed buf)
            (parse_line (some buf) g).1 k)
    ]

-- The parts of a buffer from which a reply was read.
pub record ReadReply (buf : Bytes) (max_lines : ℕ) (r : Reply) : Type 0 where
  pub lines : List Line
  pub rest : Bytes
  pub is_reply : IsReply r.code lines
  pub splits : buf ≡ wires lines rest
  pub short : length lines ≤ max_lines
  pub consumed_is : r.consumed ≡ size lines
  pub count_is : r.line_count ≡ length lines

-- What the reply reader accepts begins with a reply of at most max_lines lines of the RFC 5321
-- grammar, all of one code, continuation lines up to one final line; code, size and number of
-- lines in the result are that reply's.
pub read-ReadReply :
    (buf : Bytes) (max_lines : ℕ) (g : LastError) {r : Reply}
    → (read (some buf) max_lines g).0 ≡ ok r
    → ReadReply buf max_lines r
unfolding read
read-ReadReply buf max_lines g h =
    let t = read_loop-Taken max_lines 0 0 0 buf g h in
    record {
      lines = t.lines;
      rest = t.rest;
      is_reply = t.is_reply;
      splits = t.splits;
      short = t.short;
      consumed_is = omega (arith, t.consumed_is);
      count_is = omega (arith, t.count_is);
    }
