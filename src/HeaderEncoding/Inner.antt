-- ===== src/HeaderEncoding/Inner.antt =====
-- src/smtp_header_encoding.c: what stands between the outer delimiters.
use smtpc_cli.HeaderEncoding.Grammar.{IsToken, IsText, close_delim}
use smtpc_cli.HeaderEncoding.{
  parse_charset, encoding_of, parse_encoding, validate_text, validate_inner,
}
use smtpc_cli.HeaderEncoding.Texts.{
  IsQText→validate, validate→IsQText, IsBText→validate, validate→IsBText,
}
use smtpc_cli.HeaderEncoding.Parts.{
  parse_charset_sound, parse_encoding_sound, parse_charset_complete, parse_encoding_complete,
}
use smtpc_cli.Common.Checked.{ok, fail, ◌>>=◌, Checked}
use smtpc_cli.Common.{
  ◌<◌, arith, ℕ, ◌+◌, ◌-◌, ◌≡◌, ◌≢◌, refl, inl, inr, ap, ◌∙◌, Bool, true, false, [], ◌∷◌, ◌++◌,
  Bytes, All, length, take, length-append, take-append, some, subst,
}

>>=-eq-ok {ℓ κ μ} :
    {E : Type ℓ} {A : Type κ} {B : Type μ} (r : Checked E A) (f : A → Checked E B) (b : B)
    → (r >>= f) ≡ ok b
    → (a : A) × (r ≡ ok a) × (f a ≡ ok b)
>>=-eq-ok (ok a) f b h = (a, refl, h)
>>=-eq-ok (fail e o) f b h = cc

IsText→validate :
    (e start end : ℕ) (rest text : Bytes)
    → IsText e text
    → start < end
    → take (end - start) rest ≡ text
    → (is_base64 : Bool) × (encoding_of e ≡ some is_base64)
      × (validate_text is_base64 start end rest ≡ ok tt)
unfolding validate_text
IsText→validate e start end rest text (inl (q, t)) k s =
    let r = IsQText→validate start text t in (false, ground arith, ground arith)
IsText→validate e start end rest text (inr (q, t)) k s =
    let r = IsBText→validate start text t in (true, ground arith, ground arith)

validate→IsText :
    (e start end : ℕ) (rest : Bytes) (b : Bool)
    → encoding_of e ≡ some b
    → validate_text b start end rest ≡ ok tt
    → IsText e (take (end - start) rest) × (start < end)
unfolding validate_text
validate→IsText e start end rest true h k =
    (inr (ground arith, validate→IsBText start _ (ground arith)), ground arith)
validate→IsText e start end rest false h k =
    (inl (ground arith, validate→IsQText start _ (ground arith)), ground arith)

joined :
    (charset rest rest₁ behind : Bytes) (encoding : ℕ)
    → rest ≡ charset ++ b'?' ∷ rest₁
    → rest₁ ≡ encoding ∷ b'?' ∷ behind
    → rest ≡ charset ++ b'?' ∷ encoding ∷ b'?' ∷ behind
joined charset rest rest₁ behind encoding p q = rw p (ap (λ xs. charset ++ b'?' ∷ xs) q)

pub joined_length :
    (charset rest behind : Bytes) (encoding : ℕ)
    → rest ≡ charset ++ b'?' ∷ encoding ∷ b'?' ∷ behind
    → length rest ≡ length charset + 3 + length behind
joined_length charset rest behind encoding p =
    ap length p ∙ omega (arith, length-append charset (b'?' ∷ encoding ∷ b'?' ∷ behind))

-- The three parts between the delimiters, behind an accepted word's first two bytes.
abbrev pub Inner : Bytes → Type 0
Inner rest =
    (charset : Bytes) × (encoding : ℕ) × (behind : Bytes) × (rest
      ≡ charset ++ b'?' ∷ encoding ∷ b'?' ∷ behind)
    × (charset ≢ [])
    × All IsToken charset
    × IsText encoding (take (length behind - 2) behind)
    × (2 < length behind)

Inner-of :
    (len e e' : ℕ) (rest rest₁ rest₂ : Bytes) (is_base64 : Bool)
    → len ≡ 2 + length rest
    → parse_charset 2 rest ≡ ok (e, rest₁)
    → parse_encoding (e + 1) rest₁ ≡ ok (is_base64, e', rest₂)
    → validate_text is_base64 (e' + 1) (len - 2) rest₂ ≡ ok tt
    → Inner rest
Inner-of len e e' rest rest₁ rest₂ is_base64 l p q h =
    let (charset, s, n, a, k) = parse_charset_sound 2 e rest rest₁ p in
    let (encoding, s', m, k') = parse_encoding_sound (e + 1) rest₁ is_base64 e' rest₂ q in
    let (t, o) = validate→IsText encoding (e' + 1) (len - 2) rest₂ is_base64 m h in
    let j = joined charset rest rest₁ rest₂ encoding s s' in
    let g = joined_length charset rest rest₂ encoding j in
    let d : len - 2 - (e' + 1) ≡ length rest₂ - 2 = omega (arith, g, k, k', l) in
    (
      charset,
      encoding,
      rest₂,
      j,
      n,
      a,
      subst (λ n. IsText encoding (take n rest₂)) d t,
      omega (arith, g, k, k', l, o),
    )

pub Inner-sound :
    (len : ℕ) (rest : Bytes) → len ≡ 2 + length rest → validate_inner len rest ≡ ok tt → Inner rest
unfolding validate_inner
Inner-sound len rest l h =
    let ((e, rest₁), p, h₁) = >>=-eq-ok (parse_charset 2 rest) _ tt h in
    let ((is_base64, e', rest₂), q, h₂) = >>=-eq-ok (parse_encoding (e + 1) rest₁) _ tt h₁ in
    Inner-of len e e' rest rest₁ rest₂ is_base64 l p q h₂

length_pos : (xs : Bytes) → xs ≢ [] → 0 < length xs
length_pos [] h = absurd (h refl)
length_pos (x ∷ xs) h = omega arith

pub not_nil : (xs : Bytes) → 0 < length xs → xs ≢ []
not_nil [] h e = absurd (omega (arith, h))
not_nil (x ∷ xs) h e = cc

pub inner_complete :
    (len : ℕ) (charset text : Bytes) (encoding : ℕ)
    → charset ≢ []
    → All IsToken charset
    → text ≢ []
    → IsText encoding text
    → len ≡ length charset + length text + 7
    → validate_inner len (charset ++ b'?' ∷ encoding ∷ b'?' ∷ (text ++ close_delim)) ≡ ok tt
unfolding validate_inner
inner_complete len charset text encoding n a m t l =
    let behind = text ++ close_delim in
    let e = length-append text close_delim in
    let p = parse_charset_complete 2 charset (encoding ∷ b'?' ∷ behind) n a in
    let (is_base64, b, v) =
      IsText→validate encoding (2 + length charset + 1 + 1 + 1) (len - 2) behind text t
        (omega (arith, l, length_pos text m))
        (ap (λ n. take n behind) (omega (arith, l)) ∙ take-append text close_delim) in
    rw (p, parse_encoding_complete (2 + length charset + 1) encoding behind is_base64 b) v
