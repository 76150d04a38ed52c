-- ===== src/HeaderEncoding/Texts.antt =====
-- src/smtp_header_encoding.c: the two texts, and the character classes, against the grammar.
use smtpc_cli.HeaderEncoding.Grammar.{
  IsToken, IsEncText, IsHex, IsBase64, IsQText, nil, char, escape, padding, IsBText,
}
use smtpc_cli.HeaderEncoding.{
  is_token_char, is_enctext_char, is_hex_digit, is_b64_char, q_char, validate_q_text, b_loop,
  validate_b_text, Verdict,
}
use smtpc_cli.Common.Checked.{ok}
use smtpc_cli.Common.{
  ◌<◌, ◌&&◌, arith, ℕ, zero, suc, ◌+◌, ◌%◌, ◌≤◌, ◌≡◌, ◌≢◌, ◌↔◌, refl, inl, inr, ap, ◌∙◌, true,
  Bool-cases, [], ◌∷◌, ◌++◌, Bytes, All, length, ◌==◌,
}

pub is_token_char_iff : (c : ℕ) → (is_token_char c ≡ true) ↔ IsToken c
unfolding is_token_char
is_token_char_iff c = ground arith

is_enctext_char_iff : (c : ℕ) → (is_enctext_char c ≡ true) ↔ IsEncText c
unfolding is_enctext_char
is_enctext_char_iff c = ground arith

is_hex_digit_iff : (c : ℕ) → (is_hex_digit c ≡ true) ↔ IsHex c
unfolding is_hex_digit
is_hex_digit_iff c = ground arith

is_b64_char_iff : (c : ℕ) → (is_b64_char c ≡ true) ↔ IsBase64 c
unfolding is_b64_char
is_b64_char_iff c = ground arith

-- A character that stands for itself is passed over.
q_next :
    (c i : ℕ) (cs : Bytes)
    → IsEncText c
    → c ≢ b'='
    → validate_q_text i (c ∷ cs) ≡ validate_q_text (i + 1) cs
unfolding validate_q_text
q_next c i [] h n = let e = (is_enctext_char_iff c).1 h in ground arith
q_next c i (d ∷ []) h n = let e = (is_enctext_char_iff c).1 h in ground arith
q_next c i (d ∷ e ∷ cs) h n = let f = (is_enctext_char_iff c).1 h in ground arith

q_escape :
    (d e i : ℕ) (cs : Bytes)
    → IsHex d
    → IsHex e
    → validate_q_text i (b'=' ∷ d ∷ e ∷ cs) ≡ validate_q_text (i + 3) cs
unfolding validate_q_text
q_escape d e i cs h k =
    let a = (is_hex_digit_iff d).1 h in let b = (is_hex_digit_iff e).1 k in ground arith

pub IsQText→validate : (i : ℕ) (text : Bytes) → IsQText text → validate_q_text i text ≡ ok tt
unfolding validate_q_text
IsQText→validate i _ nil = refl
IsQText→validate i _ (char c cs h n t) = q_next c i cs h n ∙ IsQText→validate (i + 1) cs t
IsQText→validate i _ (escape d e cs h k t) = q_escape d e i cs h k ∙ IsQText→validate (i + 3) cs t

-- What a passed test of a plain character says.
q_char_ok :
    (c i : ℕ) (next : Verdict) → q_char c i next ≡ ok tt → IsEncText c × (c ≢ b'=') × (next ≡ ok tt)
q_char_ok c i next h = let e = (is_enctext_char_iff c).0 in ground arith

escape_at :
    (c d e : ℕ) (cs : Bytes) → c ≡ b'=' → IsHex d → IsHex e → IsQText cs → IsQText (c ∷ d ∷ e ∷ cs)
escape_at c d e cs p h k t = rw p (escape d e cs h k t)

IsHex-of : (c : ℕ) → is_hex_digit c ≡ true → IsHex c
IsHex-of c = (is_hex_digit_iff c).0

b64_of : (c : ℕ) → is_b64_char c ≡ true → IsBase64 c
b64_of c = (is_b64_char_iff c).0

base64_no_pad : (c : ℕ) → IsBase64 c → c ≢ b'='
base64_no_pad c h e = ground arith

pub validate→IsQText : (i : ℕ) (text : Bytes) → validate_q_text i text ≡ ok tt → IsQText text
unfolding validate_q_text
validate→IsQText i [] h = nil
validate→IsQText i (c ∷ []) h = let (a, b, _) = q_char_ok c i _ h in char c [] a b nil
validate→IsQText i (c ∷ d ∷ []) h =
    let (a, b, r) = q_char_ok c i _ h in char c (d ∷ []) a b (validate→IsQText (i + 1) (d ∷ []) r)
validate→IsQText i (c ∷ d ∷ e ∷ cs) h =
    elim (Bool-cases (c == b'=' && is_hex_digit d && is_hex_digit e)) [
      | inl t ↦
          escape_at c d e cs (ground arith) (IsHex-of d (ground arith)) (IsHex-of e (ground arith))
            (validate→IsQText (i + 3) cs (ground arith))
      | inr f ↦
          let (a, b, r) = q_char_ok c i (validate_q_text (i + 1) (d ∷ e ∷ cs)) (ground arith) in
          char c (d ∷ e ∷ cs) a b (validate→IsQText (i + 1) (d ∷ e ∷ cs) r)
    ]

-- Padding.
b_loop-padding :
    (len n pads i : ℕ) → pads + n ≤ 2 → len % 4 ≡ 0 → b_loop len pads i (padding n) ≡ ok tt
unfolding b_loop
b_loop-padding len zero pads i h q = ground arith
b_loop-padding len (suc n) pads i h q =
    let r = b_loop-padding len n (pads + 1) (i + 1) (omega arith) q in ground arith

b_loop-body :
    (len n i : ℕ) (body : Bytes)
    → All IsBase64 body
    → n ≤ 2
    → len % 4 ≡ 0
    → b_loop len 0 i (body ++ padding n) ≡ ok tt
unfolding b_loop
b_loop-body len n i [] a h q = b_loop-padding len n 0 i (omega arith) q
b_loop-body len n i (c ∷ body) (b, a) h q =
    let r = b_loop-body len n (i + 1) body a h q in
    let t = (is_b64_char_iff c).1 b in let m = base64_no_pad c b in ground arith

pub IsBText→validate : (i : ℕ) (text : Bytes) → IsBText text → validate_b_text i text ≡ ok tt
unfolding validate_b_text
IsBText→validate i text t =
    ap (b_loop (length text) 0 i) t.split
    ∙ b_loop-body (length text) t.pads i t.body t.alphabet t.few t.quads

padding-suc : (c : ℕ) (cs : Bytes) (n : ℕ) → c ≡ b'=' → cs ≡ padding n → c ∷ cs ≡ padding (suc n)
padding-suc c cs n e s = rw (e, s) refl

-- Behind the first "=" there are only more of them.
pads_of :
    (len pads i : ℕ) (cs : Bytes)
    → 0 < pads
    → b_loop len pads i cs ≡ ok tt
    → (n : ℕ) × (cs ≡ padding n) × (pads + n ≤ 2) × (len % 4 ≡ 0)
unfolding b_loop
pads_of len pads i [] p h = (0, refl, ground arith, ground arith)
pads_of len pads i (c ∷ cs) p h =
    let e : c ≡ b'=' = ground arith in
    let (n, s, k, q) = pads_of len (pads + 1) (i + 1) cs (omega arith) (ground arith) in
    (suc n, padding-suc c cs n e s, omega (arith, k), q)

-- The body, then the padding.
parts_of :
    (len i : ℕ) (cs : Bytes)
    → b_loop len 0 i cs ≡ ok tt
    → (body : Bytes) × (n : ℕ) × (cs ≡ body ++ padding n)
      × All IsBase64 body
      × (n ≤ 2)
      × (len % 4 ≡ 0)
unfolding b_loop
parts_of len i [] h = ([], 0, refl, tt, omega arith, ground arith)
parts_of len i (c ∷ cs) h = elim (Bool-cases (c == b'=')) [
  | inl t ↦
      let e : c ≡ b'=' = ground arith in
      let (n, s, k, q) = pads_of len 1 (i + 1) cs (omega arith) (ground arith) in
      ([], suc n, padding-suc c cs n e s, tt, omega (arith, k), q)
  | inr f ↦
      let (body, n, s, a, k, q) = parts_of len (i + 1) cs (ground arith) in
      (c ∷ body, n, ap (λ xs. c ∷ xs) s, (b64_of c (ground arith), a), k, q)
]

pub validate→IsBText : (i : ℕ) (text : Bytes) → validate_b_text i text ≡ ok tt → IsBText text
unfolding validate_b_text
validate→IsBText i text h =
    let (body, n, s, a, k, q) = parts_of (length text) i text h in
    record { body = body; pads = n; split = s; alphabet = a; few = k; quads = q }
