-- ===== src/HeaderEncoding/Parts.antt =====
-- src/smtp_header_encoding.c: the charset, the encoding and the closing delimiter against the grammar.
use smtpc_cli.HeaderEncoding.Grammar.{IsToken, close_delim}
use smtpc_cli.HeaderEncoding.{parse_charset, charset_loop, encoding_of, parse_encoding, char_at}
use smtpc_cli.HeaderEncoding.Texts.{is_token_char_iff}
use smtpc_cli.Common.Checked.{ok}
use smtpc_cli.Common.{
  arith, ℕ, zero, suc, ◌+◌, ◌≡◌, ◌≢◌, refl, inl, inr, ap, take, some, length-append, Bool, true,
  Bool-cases, [], ◌∷◌, ◌++◌, Bytes, All, length, ◌==◌,
}

token_no_question : (c : ℕ) → IsToken c → c ≢ b'?'
token_no_question c h = ground arith

cons_eq : (c d : ℕ) (xs ys : Bytes) → c ≡ d → xs ≡ ys → c ∷ xs ≡ d ∷ ys
cons_eq c d xs ys e s = rw (e, s) refl

-- A charset up to its delimiter.
pub charset_loop_complete :
    (i : ℕ) (charset rest : Bytes)
    → All IsToken charset
    → charset_loop i (charset ++ b'?' ∷ rest) ≡ ok (i + length charset, rest)
unfolding charset_loop
charset_loop_complete i [] rest a = ground arith
charset_loop_complete i (c ∷ charset) rest (t, a) =
    let r = charset_loop_complete (i + 1) charset rest a in
    let k = (is_token_char_iff c).1 t in let n = token_no_question c t in ground arith

pub charset_loop_sound :
    (i e : ℕ) (cs rest : Bytes)
    → charset_loop i cs ≡ ok (e, rest)
    → (charset : Bytes) × (cs ≡ charset ++ b'?' ∷ rest)
      × All IsToken charset
      × (e ≡ i + length charset)
unfolding charset_loop
charset_loop_sound i e [] rest h = cc
charset_loop_sound i e (c ∷ cs) rest h = elim (Bool-cases (c == b'?')) [
  | inl t ↦ ([], cons_eq c b'?' cs rest (ground arith) (ground arith), tt, ground arith)
  | inr f ↦
      let (charset, s, a, k) = charset_loop_sound (i + 1) e cs rest (ground arith) in
      (
        c ∷ charset,
        cons_eq c c _ _ refl s,
        ((is_token_char_iff c).0 (ground arith), a),
        omega (arith, k),
      )
]

not_empty :
    (c : ℕ) (cs charset rest : Bytes) → c ≢ b'?' → c ∷ cs ≡ charset ++ b'?' ∷ rest → charset ≢ []
not_empty c cs [] rest q s e = q (ground arith)
not_empty c cs (d ∷ charset) rest q s e = cc

pub parse_charset_complete :
    (i : ℕ) (charset rest : Bytes)
    → charset ≢ []
    → All IsToken charset
    → parse_charset i (charset ++ b'?' ∷ rest) ≡ ok (i + length charset, rest)
unfolding parse_charset
parse_charset_complete i [] rest n a = absurd (n refl)
parse_charset_complete i (c ∷ charset) rest n (t, a) =
    let r = charset_loop_complete i (c ∷ charset) rest (t, a) in
    let q = token_no_question c t in ground arith

pub parse_charset_sound :
    (i e : ℕ) (cs rest : Bytes)
    → parse_charset i cs ≡ ok (e, rest)
    → (charset : Bytes) × (cs ≡ charset ++ b'?' ∷ rest)
      × (charset ≢ [])
      × All IsToken charset
      × (e ≡ i + length charset)
unfolding parse_charset
parse_charset_sound i e [] rest h = cc
parse_charset_sound i e (c ∷ cs) rest h =
    let q : c ≢ b'?' = ground arith in
    let (charset, s, a, k) = charset_loop_sound i e (c ∷ cs) rest (ground arith) in
    (charset, s, not_empty c cs charset rest q s, a, k)

pub parse_encoding_sound :
    (i : ℕ) (cs : Bytes) (is_base64 : Bool) (e : ℕ) (rest : Bytes)
    → parse_encoding i cs ≡ ok (is_base64, e, rest)
    → (encoding : ℕ) × (cs ≡ encoding ∷ b'?' ∷ rest)
      × (encoding_of encoding ≡ some is_base64)
      × (e ≡ i + 1)
unfolding parse_encoding
parse_encoding_sound i [] b e rest h = cc
parse_encoding_sound i (c ∷ []) b e rest h = (c, ground arith, ground arith, ground arith)
parse_encoding_sound i (c ∷ d ∷ cs) b e rest h = (c, ground arith, ground arith, ground arith)

pub parse_encoding_complete :
    (i encoding : ℕ) (rest : Bytes) (is_base64 : Bool)
    → encoding_of encoding ≡ some is_base64
    → parse_encoding i (encoding ∷ b'?' ∷ rest) ≡ ok (is_base64, i + 1, rest)
unfolding parse_encoding
parse_encoding_complete i encoding rest is_base64 h = rw h refl

pub char_at-append :
    (pre xs : Bytes) (k m c : ℕ) → m ≡ length pre + k → char_at (pre ++ xs) m c ≡ char_at xs k c
char_at-append [] xs k m c h = ap (λ n. char_at xs n c) h'
  where
    h' : m ≡ k
    h' = omega (arith, h)
char_at-append (d ∷ pre) xs k zero c h = absurd (omega (arith, h))
char_at-append (d ∷ pre) xs k (suc m) c h = char_at-append pre xs k m c (omega (arith, h))

-- What ends in the closing delimiter.
pub ends_sound :
    (n : ℕ) (xs : Bytes)
    → length xs ≡ n + 2
    → char_at xs n b'?' ≡ true
    → char_at xs (suc n) b'=' ≡ true
    → xs ≡ take n xs ++ close_delim
ends_sound n [] l p q = cc
ends_sound n (c ∷ []) l p q = absurd (omega (arith, l))
ends_sound zero (c ∷ d ∷ []) l p q = ground arith
ends_sound zero (c ∷ d ∷ e ∷ xs) l p q = absurd (omega (arith, l))
ends_sound (suc n) (c ∷ d ∷ xs) l p q =
    cons_eq c c _ _ refl (ends_sound n (d ∷ xs) (omega (arith, l)) p q)

triple_append : (xs ys : Bytes) (a b c : ℕ) → (xs ++ a ∷ b ∷ c ∷ []) ++ ys ≡ xs ++ a ∷ b ∷ c ∷ ys
triple_append [] ys a b c = refl
triple_append (x ∷ xs) ys a b c = ap (λ zs. x ∷ zs) (triple_append xs ys a b c)

-- A character behind the encoding's delimiter.
pub char_at_behind :
    (c d encoding k m ch : ℕ) (charset behind : Bytes)
    → m ≡ length charset + 5 + k
    → char_at (c ∷ d ∷ (charset ++ b'?' ∷ encoding ∷ b'?' ∷ behind)) m ch ≡ char_at behind k ch
char_at_behind c d encoding k m ch charset behind h =
    let pre : Bytes = c ∷ d ∷ (charset ++ b'?' ∷ encoding ∷ b'?' ∷ []) in
    let l = length-append charset (b'?' ∷ encoding ∷ b'?' ∷ []) in
    rw (← triple_append charset behind b'?' encoding b'?')
      (char_at-append pre behind k m ch (omega (arith, h, l)))
