-- ===== src/ReplyParser/Exact.antt =====
-- The parser accepts the lines of the grammar and nothing else.
use smtpc_cli.Common.{
  lf, ℕ, ◌+◌, ◌-◌, ◌≤◌, ◌≡◌, ap, ◌⊎◌, inl, inr, true, [], ◌∷◌, ◌++◌, arith, Bytes, cr, lf, length,
  All,
}
use smtpc_cli.ReplyParser.{
  ok, ReplyLine, is_text_char, finish_line, scan_text_and_crlf, parse_buffer,
}
use smtpc_cli.ReplyParser.Wire.{
  Tail, more, last, bare, Line, tail_bytes, crlf, wire, IsText, IsTail, IsLine, report, code_of,
  report_tail, report_tail,
}

IsText→is_text_char : (c : ℕ) → IsText c → is_text_char c ≡ true
unfolding is_text_char
IsText→is_text_char c h = ground arith

scan-text :
    (s i : ℕ) (text rest : Bytes)
    → s ≤ i
    → All IsText text
    → scan_text_and_crlf s i (text ++ crlf rest) ≡ ok (i + length text - s, i + length text + 2)
unfolding scan_text_and_crlf
scan-text s i [] rest h t = ground arith
scan-text s i (c ∷ cs) rest h t = ground (arith, scan-text s (i + 1) cs rest)

parse_buffer-tail :
    (l : Line) (t : Tail) (rest : Bytes)
    → IsLine l
    → IsTail t
    → parse_buffer (l.d0 ∷ l.d1 ∷ l.d2 ∷ (tail_bytes t ++ crlf rest))
      ≡ ok (report_tail (code_of l) t)
unfolding parse_buffer
parse_buffer-tail l (more text) rest h t = ground (arith, scan-text 4 4 text rest)
parse_buffer-tail l (last text) rest h t = ground (arith, scan-text 4 4 text rest)
parse_buffer-tail l bare rest h t = ground (arith, scan-text 3 3 [] rest)

-- Every reply line of the grammar, with any bytes behind it, is parsed to the report on that line.
pub parse_buffer-wire :
    (l : Line) (rest : Bytes) → IsLine l → parse_buffer (wire l rest) ≡ ok (report l)
parse_buffer-wire l rest h = parse_buffer-tail l l.tail rest h h.tail_ok

-- What a successful scan of `buf[i..len)` has read.
record Scanned (s i : ℕ) (buf : Bytes) (r : ℕ × ℕ) : Type 0 where
  text : Bytes
  rest : Bytes
  is_text : All IsText text
  splits : buf ≡ text ++ crlf rest
  len_is : r.0 ≡ i + length text - s
  consumed_is : r.1 ≡ i + length text + 2

finish_line-lf :
    (s i : ℕ) (buf : Bytes) {r : ℕ × ℕ}
    → finish_line s i buf ≡ ok r
    → (rest : Bytes) × (buf ≡ lf ∷ rest) × (r.0 ≡ i - s) × (r.1 ≡ i + 2)
unfolding finish_line
finish_line-lf s i [] h = ground arith
finish_line-lf s i (c ∷ cs) h = (cs, ground arith, ground arith, ground arith)

finish_line-Scanned :
    (s i : ℕ) (buf : Bytes) {r : ℕ × ℕ} → finish_line s i buf ≡ ok r → Scanned s i (cr ∷ buf) r
finish_line-Scanned s i buf h =
    let (rest, e, n, k) = finish_line-lf s i buf h in
    record {
      text = [];
      rest = rest;
      is_text = tt;
      splits = ap (◌∷◌ cr) e;
      len_is = omega (arith, n);
      consumed_is = omega (arith, k);
    }

scan-cases :
    (s i c : ℕ) (cs : Bytes) {r : ℕ × ℕ}
    → scan_text_and_crlf s i (c ∷ cs) ≡ ok r
    → ((c ≡ cr) × (finish_line s i cs ≡ ok r))
      ⊎ (IsText c × (scan_text_and_crlf s (i + 1) cs ≡ ok r))
unfolding scan_text_and_crlf is_text_char
scan-cases s i c cs h = ground arith

Scanned-cons :
    (s i c : ℕ) (cs : Bytes) {r : ℕ × ℕ}
    → IsText c
    → Scanned s (i + 1) cs r
    → Scanned s i (c ∷ cs) r
Scanned-cons s i c cs t k = record {
  text = c ∷ k.text;
  rest = k.rest;
  is_text = (t, k.is_text);
  splits = ap (◌∷◌ c) k.splits;
  len_is = omega (arith, k.len_is);
  consumed_is = omega (arith, k.consumed_is);
}

scan-Scanned :
    (s i : ℕ) (buf : Bytes) {r : ℕ × ℕ} → scan_text_and_crlf s i buf ≡ ok r → Scanned s i buf r
scan-Scanned s i [] h = unfold scan_text_and_crlf in ground arith
scan-Scanned s i (c ∷ cs) {r} h = elim (scan-cases s i c cs h) [
  | inl (e, f) ↦ rw e (finish_line-Scanned s i cs f)
  | inr (t, k) ↦ Scanned-cons s i c cs t (scan-Scanned s (i + 1) cs k)
]

-- The parts of a buffer that was parsed.
pub record Accepted (buf : Bytes) (r : ReplyLine) : Type 0 where
  pub line : Line
  pub rest : Bytes
  pub is_line : IsLine line
  pub splits : buf ≡ wire line rest
  pub reported : r ≡ report line

-- The bytes ahead of the scan decide the code and the kind of line.
abbrev Tails : ℕ → Bytes → ReplyLine → Type 0
Tails d cs r =
    ((d ≡ b'-') × (scan_text_and_crlf 4 4 cs ≡ ok (r.text_len, r.consumed)))
    ⊎ ((d ≡ b' ') × (scan_text_and_crlf 4 4 cs ≡ ok (r.text_len, r.consumed)))
    ⊎ ((d ≡ cr) × (finish_line 3 3 cs ≡ ok (r.text_len, r.consumed)))

module _ (a b c d : ℕ) (cs : Bytes) {r : ReplyLine}
    (h : parse_buffer (a ∷ b ∷ c ∷ d ∷ cs) ≡ ok r) where
  line_of : Tail → Line
  line_of t = record { d0 = a; d1 = b; d2 = c; tail = t }

  parse_buffer-Tails : Tails d cs r
  unfolding parse_buffer
  parse_buffer-Tails = ground arith

  line_of-IsLine : (t : Tail) → IsTail t → IsLine (line_of t)
  unfolding parse_buffer line_of
  line_of-IsLine t k = record {
    lo0 = ground arith;
    hi0 = ground arith;
    lo1 = ground arith;
    hi1 = ground arith;
    lo2 = ground arith;
    hi2 = ground arith;
    tail_ok = k;
  }

  Scanned-Accepted : Tails d cs r → Accepted (a ∷ b ∷ c ∷ d ∷ cs) r
  unfolding parse_buffer line_of
  Scanned-Accepted (inl (e, f)) =
      let k = scan-Scanned 4 4 cs f in
      record {
        line = line_of (more k.text);
        rest = k.rest;
        is_line = line_of-IsLine (more k.text) k.is_text;
        splits = ground arith;
        reported = ground arith;
      }
  Scanned-Accepted (inr (inl (e, f))) =
      let k = scan-Scanned 4 4 cs f in
      record {
        line = line_of (last k.text);
        rest = k.rest;
        is_line = line_of-IsLine (last k.text) k.is_text;
        splits = ground arith;
        reported = ground arith;
      }
  Scanned-Accepted (inr (inr (e, f))) =
      let (rest, g, n, k) = finish_line-lf 3 3 cs f in
      record {
        line = line_of bare;
        rest = rest;
        is_line = line_of-IsLine bare tt;
        splits = ground arith;
        reported = ground (arith, n, k);
      }

-- A buffer that the line parser accepts begins with a reply line of the grammar, and code,
-- finality, text offset, text length and consumed bytes are those of that line.
pub parse_buffer-Accepted : (buf : Bytes) {r : ReplyLine} → parse_buffer buf ≡ ok r → Accepted buf r
parse_buffer-Accepted (a ∷ b ∷ c ∷ d ∷ cs) h =
    Scanned-Accepted a b c d cs h (parse_buffer-Tails a b c d cs h)
parse_buffer-Accepted [] h = unfold parse_buffer in ground arith
parse_buffer-Accepted (a ∷ []) h = unfold parse_buffer in ground arith
parse_buffer-Accepted (a ∷ b ∷ []) h = unfold parse_buffer in ground arith
parse_buffer-Accepted (a ∷ b ∷ c ∷ []) h = unfold parse_buffer in ground arith
