-- ===== src/HeaderEncoding/Grammar.antt =====
-- The encoded-words of RFC 2047 Sec 2, as include/smtp_header_encoding.h has them.
use smtpc_cli.Common.{
  ℕ, zero, suc, ◌%◌, ◌≤◌, ◌≡◌, ◌≢◌, ◌⊎◌, [], ◌∷◌, ◌++◌, Bytes, codes, All, length,
}

-- A character of an RFC 2045 token: printable, and no tspecial.
abbrev pub IsToken : ℕ → Type 0
IsToken c = (33 ≤ c) × (c ≤ 126) × All (λ t. c ≢ t) (codes "()<>@,;:/[]?=") × (c ≢ 92) × (c ≢ 34)

-- 1*<printable US-ASCII, excluding "?" and SPACE>
abbrev pub IsEncText : ℕ → Type 0
IsEncText c = (33 ≤ c) × (c ≤ 126) × (c ≢ b'?')

abbrev pub IsHex : ℕ → Type 0
IsHex c = ((b'0' ≤ c) × (c ≤ b'9')) ⊎ ((b'A' ≤ c) × (c ≤ b'F')) ⊎ ((b'a' ≤ c) × (c ≤ b'f'))

abbrev pub IsBase64 : ℕ → Type 0
IsBase64 c =
    ((b'A' ≤ c) × (c ≤ b'Z'))
    ⊎ ((b'a' ≤ c) × (c ≤ b'z'))
    ⊎ ((b'0' ≤ c) × (c ≤ b'9'))
    ⊎ (c ≡ b'+')
    ⊎ (c ≡ b'/')

-- Q text: characters that stand for themselves, and "=" with two hex digits.
pub data IsQText : Bytes → Type 0 where
  nil : IsQText []
  char : (c : ℕ) (cs : Bytes) → IsEncText c → c ≢ b'=' → IsQText cs → IsQText (c ∷ cs)
  escape : (d e : ℕ) (cs : Bytes) → IsHex d → IsHex e → IsQText cs → IsQText (b'=' ∷ d ∷ e ∷ cs)

abbrev pub padding : ℕ → Bytes
padding zero = []
padding (suc n) = b'=' ∷ padding n

-- B text: the base64 alphabet, at most two "=", four characters at a time.
pub record IsBText (text : Bytes) : Type 0 where
  pub body : Bytes
  pub pads : ℕ
  pub split : text ≡ body ++ padding pads
  pub alphabet : All IsBase64 body
  pub few : pads ≤ 2
  pub quads : length text % 4 ≡ 0

pub record EncodedWord : Type 0 where
  pub charset : Bytes
  pub encoding : ℕ
  pub text : Bytes

abbrev pub close_delim : Bytes
close_delim = b'?' ∷ b'=' ∷ []

-- "=?" charset "?" encoding "?" encoded-text "?="
abbrev pub render : EncodedWord → Bytes
render x = b'=' ∷ b'?' ∷ (x.charset ++ b'?' ∷ x.encoding ∷ b'?' ∷ (x.text ++ close_delim))

abbrev pub IsText : ℕ → Bytes → Type 0
IsText e text =
    (((e ≡ b'Q') ⊎ (e ≡ b'q')) × IsQText text) ⊎ (((e ≡ b'B') ⊎ (e ≡ b'b')) × IsBText text)

pub record IsEncodedWord (word : Bytes) : Type 0 where
  pub parts : EncodedWord
  pub written : word ≡ render parts
  pub charset_some : parts.charset ≢ []
  pub charset_token : All IsToken parts.charset
  pub text_some : parts.text ≢ []
  pub text_ok : IsText parts.encoding parts.text
  pub short : length word ≤ 75
