-- ===== src/Capabilities/Recognise.antt =====
-- The packed keys are an optimisation: a line is recognised exactly by its first word, without
-- regard to case, against the keywords' names.
use mathlib.Core.List.{append-nil, append_assoc}
use mathlib.Core.Path.{ap, ap₂}
use native.Mathlib.Nat.{pow-suc}
use native.Mathlib.Numerals.{towards_suc}
use smtpc_cli.Capabilities.Keys.{
  extract_keyword_and_key, Extracted, recognise, Keyword, dsn, size, auth, starttls, mime8bit,
  chunking, smtputf8, pipelining, binarymime, enhancedstatuscodes, unknown, extract_loop, kw, upper,
  equal, push_tail, tail_buf_len,
}
use smtpc_cli.Common.{
  ◌⊎◌, ◌≢◌, inr, inl, ℕ, zero, suc, ◌+◌, ◌*◌, ◌^◌, ◌≤◌, ◌<◌, ◌≡◌, ◌↔◌, refl, ◌∙◌, sym, true, [],
  ◌∷◌, ◌++◌, Bytes, ltb, ◌==◌, if◌then◌else◌, arith, length, take, drop, All, codes, Bool-cases,
  take-append-drop, length-drop, length-take, length-append,
}

-- The line's first word, in upper case.
abbrev pub word : Bytes → Bytes
word [] = []
word (c ∷ cs) = if c == b' ' then [] else upper c ∷ word cs

-- The keywords' names (SMTP_CAP_NAME_*).
abbrev pub name : Keyword → Bytes
name dsn = codes "DSN"
name size = codes "SIZE"
name auth = codes "AUTH"
name starttls = codes "STARTTLS"
name mime8bit = codes "8BITMIME"
name chunking = codes "CHUNKING"
name smtputf8 = codes "SMTPUTF8"
name pipelining = codes "PIPELINING"
name binarymime = codes "BINARYMIME"
name enhancedstatuscodes = codes "ENHANCEDSTATUSCODES"
name unknown = []

abbrev pub IsByte : ℕ → Type 0
IsByte c = c < 256

kw-injective :
    (xs ys : Bytes)
    → All IsByte xs
    → All IsByte ys
    → length xs ≡ length ys
    → kw xs ≡ kw ys
    → xs ≡ ys
kw-injective [] [] a b h e = refl
kw-injective [] (y ∷ ys) a b h e = absurd (omega arith)
kw-injective (x ∷ xs) [] a b h e = absurd (omega arith)
kw-injective (x ∷ xs) (y ∷ ys) a b h e =
    let p : x ≡ y = omega arith in
    let q : kw xs ≡ kw ys = omega arith in
    let r = kw-injective xs ys a.1 b.1 (omega arith) q in ground (arith, p, r)

-- `tail` with the bytes that the loop adds to it.
abbrev fill : Bytes → Bytes → Bytes
fill tail [] = tail
fill tail (c ∷ cs) = fill (push_tail tail c) cs

-- Behind 8 bytes only the tail grows.
extract-late :
    (i k : ℕ) (tail text : Bytes)
    → 8 ≤ i
    → ((extract_loop i k tail text).key ≡ k)
      × ((extract_loop i k tail text).kw_len ≡ i + length (word text))
      × ((extract_loop i k tail text).tail ≡ fill tail (word text))
unfolding extract_loop
extract-late i k tail [] h = (refl, omega arith, refl)
extract-late i k tail (c ∷ cs) h =
    ground (arith, extract-late (i + 1) k (push_tail tail (upper c)) cs)

pow_next : (i : ℕ) → 256 ^ (i + 1) ≡ 256 * 256 ^ i
pow_next i = simp towards_suc (pow-suc 256 i ∙ omega arith)

-- One more lane.
lane : (i k u n : ℕ) → k + u * 256 ^ i + 256 ^ (i + 1) * n ≡ k + 256 ^ i * (u + 256 * n)
lane i k u n = rw (pow_next i) (omega arith)

-- What the loop leaves, from `j` lanes below the eighth.
abbrev Early : ℕ → ℕ → ℕ → Bytes → Type 0
Early j i k text =
    ((extract_loop i k [] text).key ≡ k + 256 ^ i * kw (take j (word text)))
    × ((extract_loop i k [] text).kw_len ≡ i + length (word text))
    × ((extract_loop i k [] text).tail ≡ fill [] (drop j (word text)))

extract-step :
    (j i k c : ℕ) (cs : Bytes)
    → i < 8
    → Early j (i + 1) (k + upper c * 256 ^ i) cs
    → Early (suc j) i k (c ∷ cs)
extract-step j i k c cs h ih = elim (Bool-cases (c == b' ')) [
  | inl e ↦ unfold extract_loop in rw e (omega arith, omega arith, refl)
  | inr e ↦
      let small : ltb i 8 ≡ true = ground arith in
      unfold extract_loop in
      rw (e, small) (ih.0 ∙ lane i k (upper c) (kw (take j (word cs))), omega (arith, ih.1), ih.2)
]

-- Before, the key grows lane by lane.
extract-Early : (j i k : ℕ) (text : Bytes) → i + j ≡ 8 → Early j i k text
extract-Early zero i k text h =
    let (a, b, c) = extract-late i k [] text (omega arith) in (omega (arith, a), b, c)
extract-Early (suc j) i k [] h = unfold extract_loop in (omega arith, omega arith, refl)
extract-Early (suc j) i k (c ∷ cs) h =
    let ih = extract-Early j (i + 1) (k + upper c * 256 ^ i) cs (omega arith) in
    extract-step j i k c cs (omega arith) ih

extract_lem : (text : Bytes) → Early 8 0 0 text
extract_lem text = extract-Early 8 0 0 text (omega arith)

equal_iff : (xs ys : Bytes) → (equal xs ys ≡ true) ↔ (xs ≡ ys)
equal_iff [] [] = ground arith
equal_iff [] (y ∷ ys) = ground arith
equal_iff (x ∷ xs) [] = ground arith
equal_iff (x ∷ xs) (y ∷ ys) = ground (arith, equal_iff xs ys)

fill_lem : (t w : Bytes) → length t + length w ≤ tail_buf_len → fill t w ≡ t ++ w
fill_lem t [] h = sym (append-nil t)
fill_lem t (c ∷ cs) h =
    let room : ltb (length t) tail_buf_len ≡ true = ground arith in
    rw room (
      fill_lem (t ++ c ∷ []) cs (omega (arith, length-append t (c ∷ [])))
      ∙ append_assoc t (c ∷ []) cs)

upper-IsByte : (c : ℕ) → IsByte c → IsByte (upper c)
unfolding upper
upper-IsByte c h = ground arith

word-IsByte : (text : Bytes) → All IsByte text → All IsByte (word text)
word-IsByte [] h = tt
word-IsByte (c ∷ cs) h = elim (Bool-cases (c == b' ')) [
  | inl e ↦ rw e tt
  | inr e ↦ rw e (upper-IsByte c h.0, word-IsByte cs h.1)
]

All-take : (n : ℕ) (xs : Bytes) → All IsByte xs → All IsByte (take n xs)
All-take zero xs h = tt
All-take (suc n) [] h = tt
All-take (suc n) (x ∷ xs) h = (h.0, All-take n xs h.1)

append-of_parts : (n : ℕ) (w v : Bytes) → take n w ≡ take n v → drop n w ≡ drop n v → w ≡ v
append-of_parts n w v p q = sym (take-append-drop n w) ∙ ap₂ ◌++◌ p q ∙ take-append-drop n v

-- Key, length and tail determine a word of at most 32 bytes.
word-of_parts :
    (w v : Bytes)
    → All IsByte w
    → All IsByte v
    → length v ≤ 32
    → length w ≡ length v
    → kw (take 8 w) ≡ kw (take 8 v)
    → fill [] (drop 8 w) ≡ fill [] (drop 8 v)
    → w ≡ v
word-of_parts w v a b s h k t =
    append-of_parts 8 w v
      (kw-injective (take 8 w) (take 8 v) (All-take 8 w a) (All-take 8 v b)
        (omega (arith, length-take 8 w, length-take 8 v)) k)
      (sym (fill_lem [] (drop 8 w) (omega (arith, length-drop 8 w)))
        ∙ t
        ∙ fill_lem [] (drop 8 v) (omega (arith, length-drop 8 v)))

-- What the switch has checked when it settles on `k`.
abbrev Confirmed : Keyword → Extracted → Type 0
Confirmed k e =
    (e.key ≡ kw (take 8 (name k)))
    × (e.kw_len ≡ length (name k))
    × ((length (name k) ≤ 8) ⊎ (e.tail ≡ drop 8 (name k)))

recognise-Confirmed : (e : Extracted) (k : Keyword) → k ≢ unknown → recognise e ≡ k → Confirmed k e
unfolding recognise
recognise-Confirmed e dsn n h = (ground arith, ground arith, inl (omega arith))
recognise-Confirmed e size n h = (ground arith, ground arith, inl (omega arith))
recognise-Confirmed e auth n h = (ground arith, ground arith, inl (omega arith))
recognise-Confirmed e starttls n h = (ground arith, ground arith, inl (omega arith))
recognise-Confirmed e mime8bit n h = (ground arith, ground arith, inl (omega arith))
recognise-Confirmed e chunking n h = (ground arith, ground arith, inl (omega arith))
recognise-Confirmed e smtputf8 n h = (ground arith, ground arith, inl (omega arith))
recognise-Confirmed e pipelining n h =
    (ground arith, ground arith, inr (ground (arith, equal_iff e.tail (codes "NG"))))
recognise-Confirmed e binarymime n h =
    (ground arith, ground arith, inr (ground (arith, equal_iff e.tail (codes "ME"))))
recognise-Confirmed e enhancedstatuscodes n h =
    (ground arith, ground arith, inr (ground (arith, equal_iff e.tail (codes "STATUSCODES"))))
recognise-Confirmed e unknown n h = absurd (n refl)

recognise-named :
    (e : Extracted) (k : Keyword)
    → k ≢ unknown
    → e.key ≡ kw (take 8 (name k))
    → e.kw_len ≡ length (name k)
    → e.tail ≡ drop 8 (name k)
    → recognise e ≡ k
unfolding recognise
recognise-named e dsn n a b c = rw (a, b)
recognise-named e size n a b c = rw (a, b)
recognise-named e auth n a b c = rw (a, b)
recognise-named e starttls n a b c = rw (a, b)
recognise-named e mime8bit n a b c = rw (a, b)
recognise-named e chunking n a b c = rw (a, b)
recognise-named e smtputf8 n a b c = rw (a, b)
recognise-named e pipelining n a b c = rw (a, b, c)
recognise-named e binarymime n a b c = rw (a, b, c)
recognise-named e enhancedstatuscodes n a b c = rw (a, b, c)
recognise-named e unknown n a b c = absurd (n refl)

name-IsByte : (k : Keyword) → All IsByte (name k) × (length (name k) ≤ 32)
name-IsByte dsn = omega arith
name-IsByte size = omega arith
name-IsByte auth = omega arith
name-IsByte starttls = omega arith
name-IsByte mime8bit = omega arith
name-IsByte chunking = omega arith
name-IsByte smtputf8 = omega arith
name-IsByte pipelining = omega arith
name-IsByte binarymime = omega arith
name-IsByte enhancedstatuscodes = omega arith
name-IsByte unknown = omega arith

drop_all : (n : ℕ) (w : Bytes) → length w ≤ n → drop n w ≡ []
drop_all zero [] h = refl
drop_all zero (x ∷ w) h = absurd (omega arith)
drop_all (suc n) [] h = refl
drop_all (suc n) (x ∷ w) h = drop_all n w (omega arith)

module _ (text : Bytes) (bytes : All IsByte text) (k : Keyword) (known : k ≢ unknown) where
  Confirmed→word : Confirmed k (extract_keyword_and_key text) → word text ≡ name k
  unfolding extract_keyword_and_key
  Confirmed→word (a, b, c) =
      let (key, len, tail) = extract_lem text in
      let same : length (word text) ≡ length (name k) = omega (arith, len, b) in
      word-of_parts (word text) (name k) (word-IsByte text bytes) (name-IsByte k).0
        (name-IsByte k).1 same (omega (arith, key, a))
        (elim c [
          | inl short ↦
              ap (fill []) (drop_all 8 (word text) (omega arith) ∙ sym (drop_all 8 (name k) short))
          | inr same_tail ↦
              sym tail
              ∙ same_tail
              ∙ sym (
                  fill_lem [] (drop 8 (name k))
                    (omega (arith, (name-IsByte k).1, length-drop 8 (name k))))
        ])

  word→recognise : word text ≡ name k → recognise (extract_keyword_and_key text) ≡ k
  unfolding extract_keyword_and_key
  word→recognise e =
      let (key, len, tail) = extract_lem text in
      recognise-named (extract_loop 0 0 [] text) k known (key ∙ rw e (omega arith))
        (len ∙ rw e (omega arith))
        (tail
          ∙ rw e (
              fill_lem [] (drop 8 (name k))
                (omega (arith, (name-IsByte k).1, length-drop 8 (name k)))))

  -- For a keyword of the program and a line of bytes: the line is recognised as that keyword
  -- exactly if its first word, up to the first space and in upper case, is the keyword's name.
  pub recognise_iff : (recognise (extract_keyword_and_key text) ≡ k) ↔ (word text ≡ name k)
  recognise_iff = ((λ h. Confirmed→word (recognise-Confirmed _ k known h)), word→recognise)
