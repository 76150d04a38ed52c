-- ===== src/HeaderValue/Grammar.antt =====
-- The header values that include/smtp_header_value.h describes: folded text with encoded-words in it.
use smtpc_cli.HeaderEncoding.Grammar.{IsEncodedWord, EncodedWord, render}
use smtpc_cli.Common.{ℕ, ◌+◌, ◌≤◌, ◌≡◌, ◌≢◌, ◌⊎◌, [], ◌∷◌, ◌++◌, Bytes, All, length, cr, lf}

abbrev pub IsWsp : ℕ → Type 0
IsWsp c = (c ≡ 32) ⊎ (c ≡ 9)

-- A character of unstructured text: printable ASCII, SPACE or TAB.
abbrev pub IsTextChar : ℕ → Type 0
IsTextChar c = ((33 ≤ c) × (c ≤ 126)) ⊎ IsWsp c

-- Neither `?` nor CR.
abbrev pub IsPlain : ℕ → Type 0
IsPlain c = (c ≢ b'?') × (c ≢ cr)

-- The shape `=?...?x?...?=` at the head of `value`; what it holds need not be an encoded-word.
pub record HasShape (value : Bytes) : Type 0 where
  pub word : EncodedWord
  pub rest : Bytes
  pub written : value ≡ render word ++ rest
  pub charset_plain : All IsPlain word.charset
  pub text_plain : All IsPlain word.text

-- What may follow `line_len` characters of a physical line.
pub data IsValue : (line_len : ℕ) → Bytes → Type 0 where
  nil : (l : ℕ) → IsValue l []
  terminator : (l : ℕ) → IsValue l (cr ∷ lf ∷ [])
  fold : (l w : ℕ) (cs : Bytes) → IsWsp w → IsValue 0 (w ∷ cs) → IsValue l (cr ∷ lf ∷ w ∷ cs)
  char :
      (l c : ℕ) (cs : Bytes)
      → IsTextChar c
      → ¬ HasShape (c ∷ cs)
      → l + 1 ≤ 998
      → IsValue (l + 1) cs
      → IsValue l (c ∷ cs)
  word :
      (l : ℕ) (w rest : Bytes)
      → IsEncodedWord w
      → l + length w ≤ 998
      → IsValue (l + length w) rest
      → IsValue l (w ++ rest)
