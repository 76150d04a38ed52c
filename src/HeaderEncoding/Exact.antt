-- ===== src/HeaderEncoding/Exact.antt =====
-- src/smtp_header_encoding.c: the validator against the grammar of an encoded-word.
use smtpc_cli.HeaderEncoding.Grammar.{
  IsToken, IsText, IsEncodedWord, EncodedWord, render, close_delim,
}
use smtpc_cli.HeaderEncoding.{char_at, validate_encoded_word}
use smtpc_cli.HeaderEncoding.Parts.{char_at_behind, char_at-append, ends_sound}
use smtpc_cli.Common.Checked.{ok}
use smtpc_cli.HeaderEncoding.Inner.{joined_length, Inner-sound, inner_complete, not_nil}
use smtpc_cli.Common.{
  subst, ◌<◌, arith, ℕ, suc, ◌+◌, ◌-◌, ◌≤◌, ◌≡◌, ◌≢◌, ◌↔◌, refl, ap, ◌∙◌, true, [], ◌∷◌, ◌++◌,
  Bytes, All, length, take, length-append, some, subst, subst⁻¹, sym, length-take,
}

written_as :
    (c d encoding : ℕ) (rest charset text behind : Bytes)
    → c ≡ b'='
    → d ≡ b'?'
    → rest ≡ charset ++ b'?' ∷ encoding ∷ b'?' ∷ behind
    → behind ≡ text ++ close_delim
    → c ∷ d ∷ rest ≡ b'=' ∷ b'?' ∷ (charset ++ b'?' ∷ encoding ∷ b'?' ∷ (text ++ close_delim))
written_as c d encoding rest charset text behind e f s u =
    rw (e, f, s) (ap (λ xs. b'=' ∷ b'?' ∷ (charset ++ b'?' ∷ encoding ∷ b'?' ∷ xs)) u)

at_behind :
    (c d encoding j m ch : ℕ) (rest charset behind : Bytes)
    → rest ≡ charset ++ b'?' ∷ encoding ∷ b'?' ∷ behind
    → m ≡ length charset + 5 + j
    → char_at (c ∷ d ∷ rest) m ch ≡ char_at behind j ch
at_behind c d encoding j m ch rest charset behind s h =
    ap (λ r. char_at (c ∷ d ∷ r) m ch) s ∙ char_at_behind c d encoding j m ch charset behind h

-- An accepted word, from its pieces.
word_of :
    (c d encoding : ℕ) (rest charset behind : Bytes)
    → c ≡ b'='
    → d ≡ b'?'
    → rest ≡ charset ++ b'?' ∷ encoding ∷ b'?' ∷ behind
    → charset ≢ []
    → All IsToken charset
    → IsText encoding (take (length behind - 2) behind)
    → 2 < length behind
    → char_at (c ∷ d ∷ rest) (length (c ∷ d ∷ rest) - 2) b'?' ≡ true
    → char_at (c ∷ d ∷ rest) (length (c ∷ d ∷ rest) - 1) b'=' ≡ true
    → length (c ∷ d ∷ rest) ≤ 75
    → IsEncodedWord (c ∷ d ∷ rest)
word_of c d encoding rest charset behind e f s n a t o x y z =
    let k = length behind - 2 in
    let g = joined_length charset rest behind encoding s in
    let q =
      sym (
        at_behind c d encoding k (length (c ∷ d ∷ rest) - 2) b'?' rest charset behind s
          (omega (arith, g, o)))
      ∙ x in
    let r =
      sym (
        at_behind c d encoding (suc k) (length (c ∷ d ∷ rest) - 1) b'=' rest charset behind s
          (omega (arith, g, o)))
      ∙ y in
    let u = ends_sound k behind (omega (arith, o)) q r in
    record {
      parts = record { charset = charset; encoding = encoding; text = take k behind };
      written = written_as c d encoding rest charset (take k behind) behind e f s u;
      charset_some = n;
      charset_token = a;
      text_some = not_nil (take k behind) (omega (arith, o, length-take k behind));
      text_ok = t;
      short = z;
    }

sound : (word : Bytes) → validate_encoded_word (some word) ≡ ok tt → IsEncodedWord word
unfolding validate_encoded_word
sound [] h = cc
sound (c ∷ []) h = cc
sound (c ∷ d ∷ rest) h =
    let (charset, encoding, behind, s, n, a, t, o) =
      Inner-sound (length (c ∷ d ∷ rest)) rest (omega arith) (ground arith) in
    word_of c d encoding rest charset behind (ground arith) (ground arith) s n a t o (ground arith)
      (ground arith) (ground arith)

complete :
    (x : EncodedWord)
    → x.charset ≢ []
    → All IsToken x.charset
    → x.text ≢ []
    → IsText x.encoding x.text
    → length (render x) ≤ 75
    → validate_encoded_word (some (render x)) ≡ ok tt
unfolding validate_encoded_word
complete x n a m t z =
    let behind = x.text ++ close_delim in
    let e = length-append x.text close_delim in
    let g = joined_length x.charset _ behind x.encoding refl in
    let q =
      char_at_behind b'=' b'?' x.encoding (length x.text) (length (render x) - 2) b'?' x.charset
        behind (omega (arith, g, e))
      ∙ char_at-append x.text close_delim 0 (length x.text) b'?' (omega arith) in
    let r =
      char_at_behind b'=' b'?' x.encoding (length x.text + 1) (length (render x) - 1) b'=' x.charset
        behind (omega (arith, g, e))
      ∙ char_at-append x.text close_delim 1 (length x.text + 1) b'=' (omega arith) in
    let i =
      inner_complete (length (render x)) x.charset x.text x.encoding n a m t
        (omega (arith, g, e)) in
    ground arith

pub validate_encoded_word_iff :
    (word : Bytes) → (validate_encoded_word (some word) ≡ ok tt) ↔ IsEncodedWord word
validate_encoded_word_iff word = (
  sound word,
  λ h.
      subst⁻¹ (λ w. validate_encoded_word (some w) ≡ ok tt) h.written
        (complete h.parts h.charset_some h.charset_token h.text_some h.text_ok
          (subst (λ w. length w ≤ 75) h.written h.short)),
)
