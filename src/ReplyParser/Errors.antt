-- ===== src/ReplyParser/Errors.antt =====
-- Where the parser fails, and when waiting for more bytes can still help.
use smtpc_cli.Common.{
  true, ◌==◌, ◌*◌, length, ◌-◌, ◌∙◌, ◌++◌, ℕ, zero, suc, ◌+◌, ◌≤◌, ◌<◌, ◌≡◌, ◌≢◌, refl, ◌⊎◌, inl,
  inr, [], ◌∷◌, arith, Bytes, cr, lf, some, get_elem?,
}
use smtpc_cli.ReplyParser.{
  ReplyLine, ok, incomplete, parse_buffer, fail, LineErr, err_empty, err_code_digit, err_separator,
  err_text_char, err_bare_cr, err_bare_lf, scan_text_and_crlf,
}
use smtpc_cli.ReplyParser.Wire.{IsText}

abbrev pub Outside : ℕ → ℕ → ℕ → Type 0
Outside lo hi c = (c < lo) ⊎ (hi < c)

-- The digit ranges of the code, by position.
abbrev pub BadDigit : ℕ → ℕ → Type 0
BadDigit zero c = Outside b'2' b'5' c
BadDigit (suc zero) c = Outside b'0' b'5' c
BadDigit (suc (suc zero)) c = Outside b'0' b'9' c
BadDigit (suc (suc (suc _))) c = ⊥

-- What is wrong with the byte `c` at index `o` under each error.
abbrev pub Offends : LineErr → ℕ → ℕ → Type 0
Offends err_code_digit o c = BadDigit o c
Offends err_separator o c = (o ≡ 3) × (c ≢ b'-') × (c ≢ b' ') × (c ≢ cr)
Offends err_text_char o c = (3 < o) × ¬ (IsText c) × (c ≢ cr) × (c ≢ lf)
Offends err_bare_cr o c = (2 < o) × (c ≡ cr)
Offends err_bare_lf o c = (3 < o) × (c ≡ lf)
Offends err_empty o c = ⊥

-- The failure of a scan from index `i`, `k` bytes into what it walks.
abbrev FailsAt : ℕ → Bytes → LineErr → ℕ → Type 0
FailsAt i buf e o = (k c : ℕ) × (o ≡ i + k) × (get_elem? buf k ≡ some c) × Offends e o c

scan-fail-cases :
    (s i c : ℕ) (cs : Bytes) {e : LineErr} {o : ℕ}
    → 3 ≤ i
    → (i ≡ 3 → c ≡ cr)
    → scan_text_and_crlf s i (c ∷ cs) ≡ fail e o
    → ((o ≡ i) × Offends e i c) ⊎ (scan_text_and_crlf s (i + 1) cs ≡ fail e o)
unfolding scan_text_and_crlf
scan-fail-cases s i c [] h k f = ground arith
scan-fail-cases s i c (d ∷ cs) h k f = ground arith

scan-FailsAt :
    (s i : ℕ) (buf : Bytes) {e : LineErr} {o : ℕ}
    → 4 ≤ i
    → scan_text_and_crlf s i buf ≡ fail e o
    → FailsAt i buf e o
scan-FailsAt s i [] h f = unfold scan_text_and_crlf in ground arith
scan-FailsAt s i (c ∷ cs) {e} {o} h f =
    elim (scan-fail-cases s i c cs (omega arith) (λ x. absurd (omega arith)) f) [
      | inl (p, q) ↦ (0, c, omega arith, refl, rw p q)
      | inr g ↦
          let (k, b, p, q, r) = scan-FailsAt s (i + 1) cs (omega arith) g in
          (suc k, b, omega arith, q, r)
    ]

get_elem?-head4 :
    (a b c d : ℕ) (cs : Bytes) (o k : ℕ)
    → o ≡ 4 + k
    → get_elem? (a ∷ b ∷ c ∷ d ∷ cs) o ≡ get_elem? cs k
get_elem?-head4 a b c d cs o k e = let p : o ≡ suc (suc (suc (suc k))) = omega (arith, e) in rw p

abbrev pub Blames : Bytes → LineErr → ℕ → Type 0
Blames buf e o = (c : ℕ) × (get_elem? buf o ≡ some c) × Offends e o c

-- The failures of the bytes ahead of the scan, and those of the scan.
parse_buffer-fail-cases :
    (a b c d : ℕ) (cs : Bytes) {e : LineErr} {o : ℕ}
    → parse_buffer (a ∷ b ∷ c ∷ d ∷ cs) ≡ fail e o
    → ((o ≡ 0) × Offends e 0 a)
      ⊎ ((o ≡ 1) × Offends e 1 b)
      ⊎ ((o ≡ 2) × Offends e 2 c)
      ⊎ ((o ≡ 3) × Offends e 3 d)
      ⊎ (scan_text_and_crlf 4 4 cs ≡ fail e o)
unfolding parse_buffer
parse_buffer-fail-cases a b c d [] f = ground arith
parse_buffer-fail-cases a b c d (x ∷ cs) f = ground arith

parse_buffer-fail3 :
    (a b c : ℕ) {e : LineErr} {o : ℕ}
    → parse_buffer (a ∷ b ∷ c ∷ []) ≡ fail e o
    → ((o ≡ 0) × Offends e 0 a) ⊎ ((o ≡ 1) × Offends e 1 b) ⊎ ((o ≡ 2) × Offends e 2 c)
unfolding parse_buffer
parse_buffer-fail3 a b c f = ground arith

-- The offset of a parse error is the index of a byte in the buffer, and that byte is what the
-- error code says: a digit out of its position's range, no separator, no text character, a CR or
-- an LF.
pub parse_buffer-Blames :
    (buf : Bytes) {e : LineErr} {o : ℕ} → parse_buffer buf ≡ fail e o → Blames buf e o
parse_buffer-Blames (a ∷ b ∷ c ∷ d ∷ cs) f = elim (parse_buffer-fail-cases a b c d cs f) [
  | inl (p, q) ↦ (a, rw p, rw p q)
  | inr (inl (p, q)) ↦ (b, rw p, rw p q)
  | inr (inr (inl (p, q))) ↦ (c, rw p, rw p q)
  | inr (inr (inr (inl (p, q)))) ↦ (d, rw p, rw p q)
  | inr (inr (inr (inr g))) ↦
      let (k, x, p, q, r) = scan-FailsAt 4 4 cs (omega arith) g in
      (x, get_elem?-head4 a b c d cs _ k p ∙ q, r)
]
parse_buffer-Blames (a ∷ b ∷ c ∷ []) f = elim (parse_buffer-fail3 a b c f) [
  | inl (p, q) ↦ (a, rw p, rw p q)
  | inr (inl (p, q)) ↦ (b, rw p, rw p q)
  | inr (inr (p, q)) ↦ (c, rw p, rw p q)
]
parse_buffer-Blames [] f = unfold parse_buffer in ground arith
parse_buffer-Blames (a ∷ []) f = unfold parse_buffer in ground arith
parse_buffer-Blames (a ∷ b ∷ []) f = unfold parse_buffer in ground arith

abbrev Completes : ℕ → ℕ → Bytes → Type 0
Completes s i buf = (more : Bytes) × (r : ℕ × ℕ) × (scan_text_and_crlf s i (buf ++ more) ≡ ok r)

scan-incomplete-cases :
    (s i c : ℕ) (cs : Bytes)
    → scan_text_and_crlf s i (c ∷ cs) ≡ incomplete
    → ((c ≡ cr) × (cs ≡ []))
      ⊎ ((scan_text_and_crlf s (i + 1) cs ≡ incomplete)
          × ((more : Bytes)
              → scan_text_and_crlf s i (c ∷ more) ≡ scan_text_and_crlf s (i + 1) more))
unfolding scan_text_and_crlf
scan-incomplete-cases s i c [] h = ground arith
scan-incomplete-cases s i c (d ∷ cs) h = ground arith

scan-Completes :
    (s i : ℕ) (buf : Bytes) → scan_text_and_crlf s i buf ≡ incomplete → Completes s i buf
scan-Completes s i [] h = (cr ∷ lf ∷ [], (i - s, i + 2), unfold scan_text_and_crlf in refl)
scan-Completes s i (c ∷ cs) h = elim (scan-incomplete-cases s i c cs h) [
  | inl (e, f) ↦ (lf ∷ [], (i - s, i + 2), rw (e, f) (unfold scan_text_and_crlf in refl))
  | inr (g, step) ↦
      let (more, r, k) = scan-Completes s (i + 1) cs g in (more, r, step (cs ++ more) ∙ k)
]

late_digit-rejected :
    (d : ℕ) (more : Bytes) (r : ReplyLine) → Outside b'2' b'5' d → parse_buffer (d ∷ more) ≢ ok r
unfolding parse_buffer
late_digit-rejected d (x ∷ y ∷ z ∷ more) r h k = ground arith
late_digit-rejected d (x ∷ y ∷ []) r h k = ground arith
late_digit-rejected d (x ∷ []) r h k = ground arith
late_digit-rejected d [] r h k = ground arith

-- A wait behind the separator is a wait of the scan.
parse_buffer-waits :
    (a b c d : ℕ) (cs : Bytes)
    → parse_buffer (a ∷ b ∷ c ∷ d ∷ cs) ≡ incomplete
    → ((d ≡ cr) × (cs ≡ [])) ⊎ ((d ≢ cr) × (scan_text_and_crlf 4 4 cs ≡ incomplete))
unfolding parse_buffer
parse_buffer-waits a b c d [] h = ground arith
parse_buffer-waits a b c d (x ∷ cs) h = ground arith

parse_buffer-resumes :
    (a b c d : ℕ) (cs more : Bytes) (r : ℕ × ℕ)
    → parse_buffer (a ∷ b ∷ c ∷ d ∷ cs) ≡ incomplete
    → d ≢ cr
    → scan_text_and_crlf 4 4 (cs ++ more) ≡ ok r
    → parse_buffer (a ∷ b ∷ c ∷ d ∷ (cs ++ more))
      ≡ ok (record {
        code = (a - b'0') * 100 + (b - b'0') * 10 + (c - b'0');
        is_final = d == b' ';
        text_offset = 4;
        text_len = r.0;
        consumed = r.1;
      })
unfolding parse_buffer
parse_buffer-resumes a b c d cs more r h n k = ground arith

abbrev bare_reply : ℕ → ℕ → ℕ → ReplyLine
bare_reply a b c = record {
  code = (a - b'0') * 100 + (b - b'0') * 10 + (c - b'0');
  is_final = true;
  text_offset = 3;
  text_len = 0;
  consumed = 5;
}

parse_buffer-short :
    (a b c : ℕ) (tail : Bytes)
    → parse_buffer (a ∷ b ∷ c ∷ tail) ≡ incomplete
    → parse_buffer (a ∷ b ∷ c ∷ cr ∷ lf ∷ []) ≡ ok (bare_reply a b c)
unfolding parse_buffer
parse_buffer-short a b c [] h = ground arith
parse_buffer-short a b c (x ∷ cs) h = ground arith

-- A buffer of three bytes or more that is reported incomplete can be completed: some further bytes
-- make the parser succeed.
pub parse_buffer_completes :
    (buf : Bytes)
    → parse_buffer buf ≡ incomplete
    → 3 ≤ length buf
    → (more : Bytes) × (r : ReplyLine) × (parse_buffer (buf ++ more) ≡ ok r)
parse_buffer_completes (a ∷ b ∷ c ∷ []) h n = (cr ∷ lf ∷ [], _, parse_buffer-short a b c [] h)
parse_buffer_completes (a ∷ b ∷ c ∷ d ∷ cs) h n = elim (parse_buffer-waits a b c d cs h) [
  | inl (e, f) ↦ (lf ∷ [], bare_reply a b c, rw (e, f) (parse_buffer-short a b c (d ∷ cs) h))
  | inr (ne, w) ↦
      let (more, r, k) = scan-Completes 4 4 cs w in
      (more, _, parse_buffer-resumes a b c d cs more r h ne k)
]
parse_buffer_completes [] h n = absurd (omega arith)
parse_buffer_completes (a ∷ []) h n = absurd (omega arith)
parse_buffer_completes (a ∷ b ∷ []) h n = absurd (omega arith)

-- A first byte outside 2..5 is reported incomplete, not as an error, while fewer than three bytes
-- are there, though no bytes behind it can be accepted.
pub late_digit :
    (d : ℕ) (more : Bytes)
    → Outside b'2' b'5' d
    → (parse_buffer (d ∷ []) ≡ incomplete)
      × ((x : ℕ) → parse_buffer (d ∷ x ∷ []) ≡ incomplete)
      × ((r : ReplyLine) → parse_buffer (d ∷ more) ≢ ok r)
unfolding parse_buffer
late_digit d more h = (refl, λ x. refl, λ r k. late_digit-rejected d more r h k)
