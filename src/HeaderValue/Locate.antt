-- ===== src/HeaderValue/Locate.antt =====
-- src/smtp_header_value.c: the search for an encoded-word against the shape it looks for.
use smtpc_cli.HeaderValue.Grammar.{IsPlain}
use smtpc_cli.HeaderValue.{
  scan, locate_close, locate_text, locate_encoded_word_candidate, candidate,
}
use smtpc_cli.HeaderEncoding.Grammar.{EncodedWord, render, close_delim}
use smtpc_cli.Common.{
  sym, ◌||◌, arith, ℕ, ◌+◌, ◌≡◌, refl, inl, inr, ap, ◌∙◌, Bool-cases, [], ◌∷◌, ◌++◌, Bytes, All,
  length, ◌==◌, some, cr, length-append, sym,
}

cons_eq : (c d : ℕ) (xs ys : Bytes) → c ≡ d → xs ≡ ys → c ∷ xs ≡ d ∷ ys
cons_eq c d xs ys e s = rw (e, s) refl

scan_complete :
    (i : ℕ) (pre rest : Bytes)
    → All IsPlain pre
    → scan i (pre ++ b'?' ∷ rest) ≡ (i + length pre, b'?' ∷ rest)
unfolding scan
scan_complete i [] rest a = ground arith
scan_complete i (c ∷ pre) rest ((q, r), a) =
    let s = scan_complete (i + 1) pre rest a in ground arith

-- What is passed over holds no `?` and no CR.
scan_sound :
    (i e : ℕ) (cs rest : Bytes)
    → scan i cs ≡ (e, rest)
    → (pre : Bytes) × (cs ≡ pre ++ rest) × All IsPlain pre × (e ≡ i + length pre)
unfolding scan
scan_sound i e [] rest h = ([], ground arith, tt, ground arith)
scan_sound i e (c ∷ cs) rest h = elim (Bool-cases (c == b'?' || c == cr)) [
  | inl t ↦ ([], ground arith, tt, ground arith)
  | inr f ↦
      let (pre, s, a, l) = scan_sound (i + 1) e cs rest (ground arith) in
      (c ∷ pre, cons_eq c c _ _ refl s, (ground arith, a), omega (arith, l))
]

locate_close_sound :
    (text_end e : ℕ) (xs rest : Bytes)
    → locate_close (text_end, xs) ≡ some (e, rest)
    → (xs ≡ close_delim ++ rest) × (e ≡ text_end + 2)
unfolding locate_close
locate_close_sound t e [] rest h = cc
locate_close_sound t e (c ∷ []) rest h = cc
locate_close_sound t e (c ∷ d ∷ xs) rest h = (ground arith, ground arith)

locate_text_sound :
    (charset_end e : ℕ) (xs rest : Bytes)
    → locate_text (charset_end, xs) ≡ some (e, rest)
    → (encoding : ℕ) × (text : Bytes) × (xs ≡ b'?' ∷ encoding ∷ b'?' ∷ text)
      × (locate_close (scan (charset_end + 3) text) ≡ some (e, rest))
unfolding locate_text
locate_text_sound i e [] rest h = cc
locate_text_sound i e (c ∷ []) rest h = cc
locate_text_sound i e (c ∷ d ∷ []) rest h = cc
locate_text_sound i e (c ∷ d ∷ f ∷ xs) rest h = (d, xs, ground arith, ground arith)

-- Where the search ends, and what it has passed.
pub record Located (i : ℕ) (value : Bytes) (end : ℕ) (rest : Bytes) : Type 0 where
  pub word : EncodedWord
  pub written : value ≡ render word ++ rest
  pub charset_plain : All IsPlain word.charset
  pub text_plain : All IsPlain word.text
  pub ends : end ≡ i + length (render word)

append_assoc₃ :
    (xs ys zs : Bytes) (a b c : ℕ) → (xs ++ a ∷ b ∷ c ∷ ys) ++ zs ≡ xs ++ a ∷ b ∷ c ∷ (ys ++ zs)
append_assoc₃ [] ys zs a b c = refl
append_assoc₃ (x ∷ xs) ys zs a b c = ap (λ ws. x ∷ ws) (append_assoc₃ xs ys zs a b c)

append_assoc₂ : (xs ys zs : Bytes) → (xs ++ ys) ++ zs ≡ xs ++ (ys ++ zs)
append_assoc₂ [] ys zs = refl
append_assoc₂ (x ∷ xs) ys zs = ap (λ ws. x ∷ ws) (append_assoc₂ xs ys zs)

-- A word and what follows it, with the parts of the word in view.
pub render-append :
    (w : EncodedWord) (rest : Bytes)
    → render w ++ rest
      ≡ b'=' ∷ b'?' ∷ (w.charset ++ b'?' ∷ w.encoding ∷ b'?' ∷ (w.text ++ b'?' ∷ b'=' ∷ rest))
render-append w rest =
    ap (λ xs. b'=' ∷ b'?' ∷ xs)
      (append_assoc₃ w.charset (w.text ++ close_delim) rest b'?' w.encoding b'?'
        ∙ ap (λ xs. w.charset ++ b'?' ∷ w.encoding ∷ b'?' ∷ xs)
            (append_assoc₂ w.text close_delim rest))

pub length-render : (w : EncodedWord) → length (render w) ≡ length w.charset + length w.text + 7
length-render w = omega (
  arith,
  length-append w.charset (b'?' ∷ w.encoding ∷ b'?' ∷ (w.text ++ close_delim)),
  length-append w.text close_delim,
)

pub candidate_complete :
    (i : ℕ) (w : EncodedWord) (rest : Bytes)
    → All IsPlain w.charset
    → All IsPlain w.text
    → candidate i (render w ++ rest) ≡ some (i + length (render w), rest)
unfolding candidate locate_encoded_word_candidate locate_text locate_close
candidate_complete i w rest a b =
    let s =
      scan_complete (i + 2) w.charset (w.encoding ∷ b'?' ∷ (w.text ++ b'?' ∷ b'=' ∷ rest)) a in
    let t = scan_complete (i + 2 + length w.charset + 3) w.text (b'=' ∷ rest) b in
    let l = length-render w in
    ap (candidate i) (render-append w rest)
    ∙ rw (s, t) (ap (λ n. some (n, rest)) (omega (arith, l)))

Located-of :
    (i end e : ℕ) (c d encoding : ℕ) (charset text rest cs xs ys : Bytes)
    → c ≡ b'='
    → d ≡ b'?'
    → cs ≡ charset ++ xs
    → All IsPlain charset
    → e ≡ i + 2 + length charset
    → xs ≡ b'?' ∷ encoding ∷ b'?' ∷ (text ++ ys)
    → All IsPlain text
    → ys ≡ close_delim ++ rest
    → end ≡ e + 3 + length text + 2
    → Located i (c ∷ d ∷ cs) end rest
Located-of i end e c d encoding charset text rest cs xs ys p q s a l t b u m =
    let w : EncodedWord = record { charset = charset; encoding = encoding; text = text } in
    record {
      word = w;
      written =
          rw (p, q, s, t)
            (ap (λ zs. b'=' ∷ b'?' ∷ (charset ++ b'?' ∷ encoding ∷ b'?' ∷ (text ++ zs))) u)
          ∙ sym (render-append w rest);
      charset_plain = a;
      text_plain = b;
      ends = omega (arith, l, m, length-render w);
    }

pub candidate_sound :
    (i end : ℕ) (value rest : Bytes)
    → candidate i value ≡ some (end, rest)
    → Located i value end rest
unfolding candidate locate_encoded_word_candidate
candidate_sound i end [] rest h = cc
candidate_sound i end (c ∷ []) rest h = cc
candidate_sound i end (c ∷ d ∷ cs) rest h =
    let k : locate_text (scan (i + 2) cs) ≡ some (end, rest) = ground arith in
    let (charset, s, a, l) = scan_sound (i + 2) (scan (i + 2) cs).0 cs (scan (i + 2) cs).1 refl in
    let e = (scan (i + 2) cs).0 in
    let (encoding, text, t, m) = locate_text_sound e end (scan (i + 2) cs).1 rest k in
    let (inside, u, b, n) =
      scan_sound (e + 3) (scan (e + 3) text).0 text (scan (e + 3) text).1 refl in
    let (v, o) = locate_close_sound (scan (e + 3) text).0 end (scan (e + 3) text).1 rest m in
    Located-of i end e c d encoding charset inside rest cs _ _ (ground arith) (ground arith) s a l
      (t ∙ ap (λ xs. b'?' ∷ encoding ∷ b'?' ∷ xs) u) b v (omega (arith, o, n))
