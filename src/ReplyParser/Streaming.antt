-- ===== src/ReplyParser/Streaming.antt =====
-- The parser on a buffer that is still filling (include/smtp_reply_parser.h: "designed for
-- incremental use"): verdicts are stable, waits can end, errors point at the byte that is wrong.
use smtpc_cli.Common.{ℕ, ◌+◌, ◌≡◌, refl, ◌⊎◌, inl, [], ◌∷◌, ◌++◌, arith, Bytes, some}
use smtpc_cli.ReplyParser.{incomplete, scan_text_and_crlf, parse_buffer, parse_line, LastError}

scan-append :
    (s i : ℕ) (buf more : Bytes)
    → (scan_text_and_crlf s i buf ≡ incomplete)
      ⊎ (scan_text_and_crlf s i (buf ++ more) ≡ scan_text_and_crlf s i buf)
unfolding scan_text_and_crlf
scan-append s i [] more = inl refl
scan-append s i (c ∷ []) more = ground arith
scan-append s i (c ∷ d ∷ cs) more = ground (arith, scan-append s (i + 1) (d ∷ cs) more)

parse_buffer-append :
    (buf more : Bytes)
    → (parse_buffer buf ≡ incomplete) ⊎ (parse_buffer (buf ++ more) ≡ parse_buffer buf)
unfolding parse_buffer
parse_buffer-append (a ∷ b ∷ c ∷ d ∷ cs) more =
    ground (arith, scan-append 4 4 cs more, scan-append 3 3 (d ∷ cs) more)
parse_buffer-append [] more = ground arith
parse_buffer-append (a ∷ []) more = ground arith
parse_buffer-append (a ∷ b ∷ []) more = ground arith
parse_buffer-append (a ∷ b ∷ c ∷ []) more = ground arith

-- On a growing buffer the parser either reports incomplete and leaves the last error alone, or its
-- verdict and recorded error are the same whatever bytes arrive behind.
pub parse_line-append :
    (buf more : Bytes) (g : LastError)
    → (parse_line (some buf) g ≡ (incomplete, g))
      ⊎ (parse_line (some (buf ++ more)) g ≡ parse_line (some buf) g)
unfolding parse_line
parse_line-append buf more g = ground (arith, parse_buffer-append buf more)
