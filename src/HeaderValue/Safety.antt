-- ===== src/HeaderValue/Safety.antt =====
-- src/smtp_header_value.c: no line of its own in an accepted value, and no line that is too long.
use smtpc_cli.HeaderValue.Grammar.{IsValue, IsWsp, IsTextChar}
use smtpc_cli.HeaderValue.{validate}
use smtpc_cli.HeaderValue.Exact.{validate-IsValue}
use smtpc_cli.HeaderEncoding.Grammar.{
  close_delim, IsToken, IsText, IsQText, IsBase64, padding, IsEncodedWord,
}
use smtpc_cli.Common.Checked.{ok}
use smtpc_cli.Common.{
  arith, ℕ, zero, suc, ◌+◌, ◌≤◌, ◌≡◌, ◌≢◌, ◌⊎◌, refl, inl, inr, ap, [], ◌∷◌, ◌++◌, Bytes, All,
  length, some, cr, lf, All-append, subst, subst⁻¹,
}

-- Folded text behind `line_len` characters of a line, with no encoded-words in view.
pub data IsFolded : (line_len : ℕ) → Bytes → Type 0 where
  nil : (l : ℕ) → IsFolded l []
  terminator : (l : ℕ) → IsFolded l (cr ∷ lf ∷ [])
  fold : (l w : ℕ) (cs : Bytes) → IsWsp w → IsFolded 0 (w ∷ cs) → IsFolded l (cr ∷ lf ∷ w ∷ cs)
  char :
      (l c : ℕ) (cs : Bytes)
      → IsTextChar c
      → l + 1 ≤ 998
      → IsFolded (l + 1) cs
      → IsFolded l (c ∷ cs)

token_text : (cs : Bytes) → All IsToken cs → All IsTextChar cs
token_text [] a = tt
token_text (c ∷ cs) (t, a) = (ground arith, token_text cs a)

base64_text : (cs : Bytes) → All IsBase64 cs → All IsTextChar cs
base64_text [] a = tt
base64_text (c ∷ cs) (t, a) = (ground arith, base64_text cs a)

padding_text : (n : ℕ) → All IsTextChar (padding n)
padding_text zero = tt
padding_text (suc n) = (ground arith, padding_text n)

q_text : (cs : Bytes) → IsQText cs → All IsTextChar cs
q_text _ IsQText.nil = tt
q_text _ (IsQText.char c cs h n t) = (ground arith, q_text cs t)
q_text _ (IsQText.escape d e cs h k t) = (ground arith, (ground arith, (ground arith, q_text cs t)))

text_text : (e : ℕ) (text : Bytes) → IsText e text → IsTextChar e × All IsTextChar text
text_text e text (inl (q, t)) = (ground arith, q_text text t)
text_text e text (inr (q, t)) = (
  ground arith,
  subst⁻¹ (λ xs. All IsTextChar xs) t.split
      (All-append IsTextChar t.body (padding t.pads) (base64_text t.body t.alphabet)
        (padding_text t.pads)),
)

word_text : (w : Bytes) → IsEncodedWord w → All IsTextChar w
word_text w h =
    let x = h.parts in
    let (e, t) = text_text x.encoding x.text h.text_ok in
    subst⁻¹ (λ xs. All IsTextChar xs) h.written
      (
        ground arith,
        (
          ground arith,
          All-append IsTextChar x.charset (b'?' ∷ x.encoding ∷ b'?' ∷ (x.text ++ close_delim))
              (token_text x.charset h.charset_token)
              (
                ground arith,
                (
                  e,
                  (
                    ground arith,
                    All-append IsTextChar x.text close_delim t (ground arith, (ground arith, tt)),
                  ),
                ),
              ),
        ),
      )

text-IsFolded :
    (l m : ℕ) (w rest : Bytes)
    → All IsTextChar w
    → m ≡ l + length w
    → m ≤ 998
    → IsFolded m rest
    → IsFolded l (w ++ rest)
text-IsFolded l m [] rest a e h v = subst (λ n. IsFolded n rest) (omega (arith, e)) v
text-IsFolded l m (c ∷ w) rest (t, a) e h v =
    char l c (w ++ rest) t (omega (arith, e, h))
      (text-IsFolded (l + 1) m w rest a (omega (arith, e)) h v)

IsValue→IsFolded : (l : ℕ) (value : Bytes) → IsValue l value → IsFolded l value
IsValue→IsFolded l _ (IsValue.nil _) = nil l
IsValue→IsFolded l _ (IsValue.terminator _) = terminator l
IsValue→IsFolded l _ (IsValue.fold _ w cs p v) = fold l w cs p (IsValue→IsFolded 0 (w ∷ cs) v)
IsValue→IsFolded l _ (IsValue.char _ c cs t n b v) = char l c cs t b (IsValue→IsFolded (l + 1) cs v)
IsValue→IsFolded l _ (IsValue.word _ w rest e b v) =
    text-IsFolded l (l + length w) w rest (word_text w e) refl b
      (IsValue→IsFolded (l + length w) rest v)

-- A byte of folded text, with what stands before and behind it.
abbrev pub IsPlaced : Bytes → ℕ → Bytes → Type 0
IsPlaced pre c rest =
    IsTextChar c
    ⊎ ((c ≡ cr) × ((rest ≡ lf ∷ []) ⊎ ((w : ℕ) × (cs : Bytes) × IsWsp w × (rest ≡ lf ∷ w ∷ cs))))
    ⊎ ((c ≡ lf) × ((before : Bytes) × (pre ≡ before ++ cr ∷ [])))

IsPlaced-behind :
    (d : ℕ) (pre rest : Bytes) (c : ℕ) → IsPlaced pre c rest → IsPlaced (d ∷ pre) c rest
IsPlaced-behind d pre rest c (inl t) = inl t
IsPlaced-behind d pre rest c (inr (inl t)) = inr (inl t)
IsPlaced-behind d pre rest c (inr (inr (e, (before, p)))) =
    inr (inr (e, (d ∷ before, ap (λ xs. d ∷ xs) p)))

placed :
    (l : ℕ) (value pre : Bytes) (c : ℕ) (rest : Bytes)
    → IsFolded l value
    → value ≡ pre ++ c ∷ rest
    → IsPlaced pre c rest
placed l _ [] c rest (nil _) h = cc
placed l _ (d ∷ pre) c rest (nil _) h = cc
placed l _ [] c rest (terminator _) h = inr (inl (ground arith, inl (ground arith)))
placed l _ (d ∷ []) c rest (terminator _) h = inr (inr (ground arith, ([], ground arith)))
placed l _ (d ∷ e ∷ []) c rest (terminator _) h = cc
placed l _ (d ∷ e ∷ f ∷ pre) c rest (terminator _) h = cc
placed l _ [] c rest (fold _ w cs p v) h = inr (inl (ground arith, inr (w, cs, p, ground arith)))
placed l _ (d ∷ []) c rest (fold _ w cs p v) h = inr (inr (ground arith, ([], ground arith)))
placed l _ (d ∷ e ∷ pre) c rest (fold _ w cs p v) h =
    IsPlaced-behind d (e ∷ pre) rest c
      (IsPlaced-behind e pre rest c (placed 0 (w ∷ cs) pre c rest v (ground arith)))
placed l _ [] c rest (char _ d cs t b v) h =
    let e : d ≡ c = ground arith in inl (subst IsTextChar e t)
placed l _ (e ∷ pre) c rest (char _ d cs t b v) h =
    IsPlaced-behind e pre rest c (placed (l + 1) cs pre c rest v (ground arith))

-- In an accepted header value each byte is printable ASCII, SPACE or TAB, or a CR before an LF
-- that ends the value or has SPACE or TAB behind it, or an LF behind a CR: a value cannot start
-- another header.
pub validate-IsPlaced :
    (value pre : Bytes) (c : ℕ) (rest : Bytes)
    → validate (some value) ≡ some (ok tt)
    → value ≡ pre ++ c ∷ rest
    → IsPlaced pre c rest
validate-IsPlaced value pre c rest h =
    placed 0 value pre c rest (IsValue→IsFolded 0 value ((validate-IsValue value).0 h).1)

abbrev pub IsInLine : ℕ → Type 0
IsInLine c = (c ≢ cr) × (c ≢ lf)

line_head :
    (l : ℕ) (value line rest : Bytes)
    → l ≤ 998
    → IsFolded l value
    → value ≡ line ++ rest
    → All IsInLine line
    → l + length line ≤ 998
line_head l _ [] rest m v h a = omega (arith, m)
line_head l _ (c ∷ line) rest m (nil _) h a = cc
line_head l _ (c ∷ line) rest m (terminator _) h (n, a) = absurd (n.0 (ground arith))
line_head l _ (c ∷ line) rest m (fold _ w cs p v) h (n, a) = absurd (n.0 (ground arith))
line_head l _ (c ∷ line) rest m (char _ d cs t b v) h (n, a) =
    let k = line_head (l + 1) cs line rest b v (ground arith) a in omega (arith, k)

line_within :
    (l : ℕ) (value pre line rest : Bytes)
    → l ≤ 998
    → IsFolded l value
    → value ≡ pre ++ (line ++ rest)
    → All IsInLine line
    → length line ≤ 998
line_within l value [] line rest m v h a =
    let k = line_head l value line rest m v h a in omega (arith, k)
line_within l _ (c ∷ pre) line rest m (nil _) h a = cc
line_within l _ (c ∷ []) [] rest m (terminator _) h a = omega arith
line_within l _ (c ∷ []) (d ∷ line) rest m (terminator _) h (n, a) = absurd (n.1 (ground arith))
line_within l _ (c ∷ d ∷ pre) line rest m (terminator _) h a =
    line_within l [] pre line rest m (nil l) (ground arith) a
line_within l _ (c ∷ []) [] rest m (fold _ w cs p v) h a = omega arith
line_within l _ (c ∷ []) (d ∷ line) rest m (fold _ w cs p v) h (n, a) = absurd (n.1 (ground arith))
line_within l _ (c ∷ d ∷ pre) line rest m (fold _ w cs p v) h a =
    line_within 0 (w ∷ cs) pre line rest (omega arith) v (ground arith) a
line_within l _ (c ∷ pre) line rest m (char _ d cs t b v) h a =
    line_within (l + 1) cs pre line rest b v (ground arith) a

-- In an accepted header value no run of bytes without CR and LF is longer than 998.
pub validate-length_line :
    (value pre line rest : Bytes)
    → validate (some value) ≡ some (ok tt)
    → value ≡ pre ++ (line ++ rest)
    → All IsInLine line
    → length line ≤ 998
validate-length_line value pre line rest h =
    line_within 0 value pre line rest (omega arith)
      (IsValue→IsFolded 0 value ((validate-IsValue value).0 h).1)
