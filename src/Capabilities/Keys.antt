-- ===== src/Capabilities/Keys.antt =====
-- src/smtp_capabilities.c: the one pass over a capability line, and the switch on its packed key.
use smtpc_cli.Common.{
  ℕ, ◌+◌, ◌-◌, ◌*◌, ◌^◌, Bool, true, false, ◌&&◌, [], ◌∷◌, ◌++◌, Bytes, ltb, ◌==◌, if◌then◌else◌,
  within, length, codes,
}

-- `if (c >= 'a' && c <= 'z') c -= 32;`
unfoldable pub upper : ℕ → ℕ
upper c = if within b'a' b'z' c then c - 32 else c

-- The key of a keyword of at most 8 bytes, byte i in the lane of 8 bits at 8 * i: SMTP_KW3 to
-- SMTP_KW8. Lanes are disjoint, so `|` is a sum.
abbrev pub kw : Bytes → ℕ
kw [] = 0
kw (c ∷ cs) = c + 256 * kw cs

abbrev pub tail_buf_len : ℕ
tail_buf_len = 24

-- The out parameters; `params` is `text[params_start..)`.
pub record Extracted : Type 0 where
  pub key : ℕ
  pub kw_len : ℕ
  pub tail : Bytes
  pub params : Bytes

-- `tail[tn++] = c` while there is room.
abbrev pub push_tail : Bytes → ℕ → Bytes
push_tail tail c = if ltb (length tail) tail_buf_len then tail ++ c ∷ [] else tail

-- The loop at index `i`, with `k` and `tail` so far.
unfoldable pub extract_loop : (i k : ℕ) → Bytes → Bytes → Extracted
unfolding upper
extract_loop i k tail [] = record { key = k; kw_len = i; tail = tail; params = [] }
extract_loop i k tail (c ∷ cs) =
    let next =
      extract_loop (i + 1) (if ltb i 8 then k + upper c * 256 ^ i else k)
        (if ltb i 8 then tail else push_tail tail (upper c)) cs in
    if c == b' ' then record { key = k; kw_len = i; tail = tail; params = cs } else next

-- `smtp_cap_extract_keyword_and_key`
unfoldable pub extract_keyword_and_key : Bytes → Extracted
unfolding extract_loop
extract_keyword_and_key text = extract_loop 0 0 [] text

pub data Keyword : Type 0 where
  dsn size auth starttls mime8bit chunking smtputf8 : Keyword
  pipelining binarymime enhancedstatuscodes unknown : Keyword

abbrev pub equal : Bytes → Bytes → Bool
equal [] [] = true
equal (x ∷ xs) (y ∷ ys) = x == y && equal xs ys
equal _ _ = false

abbrev pub confirm : Bool → Keyword → Keyword
confirm test k = if test then k else unknown

-- The cases of the switch in `smtp_cap_parse_line`, each with its check of the length and, behind
-- 8 bytes, of the tail; a `break` leads to `unknown`.
unfoldable pub recognise : Extracted → Keyword
recognise e =
    if e.key == kw (codes "DSN")
    then confirm (e.kw_len == 3) dsn
    else if e.key == kw (codes "SIZE")
    then confirm (e.kw_len == 4) size
    else if e.key == kw (codes "AUTH")
    then confirm (e.kw_len == 4) auth
    else if e.key == kw (codes "STARTTLS")
    then confirm (e.kw_len == 8) starttls
    else if e.key == kw (codes "8BITMIME")
    then confirm (e.kw_len == 8) mime8bit
    else if e.key == kw (codes "CHUNKING")
    then confirm (e.kw_len == 8) chunking
    else if e.key == kw (codes "SMTPUTF8")
    then confirm (e.kw_len == 8) smtputf8
    else if e.key == kw (codes "PIPELINI")
    then confirm (e.kw_len == 10 && equal e.tail (codes "NG")) pipelining
    else if e.key == kw (codes "BINARYMI")
    then confirm (e.kw_len == 10 && equal e.tail (codes "ME")) binarymime
    else if e.key == kw (codes "ENHANCED")
    then confirm (e.kw_len == 19 && equal e.tail (codes "STATUSCODES")) enhancedstatuscodes
    else unknown
