-- ===== src/Capabilities/Summary.antt =====
-- src/smtp_capabilities.c: the one-line summary for the log. A text in a buffer of `dst_size` bytes
-- is what stands in front of its NUL.
use smtpc_cli.Capabilities.{Capabilities, UnknownCapability}
use smtpc_cli.Common.{
  ℕ, zero, suc, ◌+◌, ◌-◌, ◌/◌, ◌%◌, Bool, true, false, [], ◌∷◌, ◌++◌, List, Bytes, ltb, ◌==◌,
  if◌then◌else◌, length, take, codes,
}

-- What `snprintf` leaves of a text.
abbrev pub printed : ℕ → Bytes → Bytes
printed dst_size text = take (dst_size - 1) text

-- `%s`: the bytes in front of a NUL.
abbrev pub c_string : Bytes → Bytes
c_string [] = []
c_string (c ∷ cs) = if c == 0 then [] else c ∷ c_string cs

-- `%zu`, in front of `acc`; 20 digits are enough for 64 bits.
abbrev pub digits : ℕ → ℕ → Bytes → Bytes
digits zero n acc = acc
digits (suc f) n acc =
    let next = digits f (n / 10) ((b'0' + n % 10) ∷ acc) in
    if ltb n 10 then (b'0' + n) ∷ acc else next

unfoldable pub decimal : ℕ → Bytes
decimal n = digits 20 n []

-- The summary so far: `pos` counts what would have been written, `any` is the flag of the callers.
pub record Written : Type 0 where
  pub pos : ℕ
  pub any : Bool
  pub text : Bytes

-- `smtp_cap_append_summary_token`, with the `any = 1` that follows each call.
unfoldable pub append_token : ℕ → Written → Bytes → Written
append_token dst_size w token =
    let piece = if w.any then b' ' ∷ token else token in
    record {
      pos = w.pos + length piece;
      any = true;
      text =
          if ltb w.pos dst_size
          then take w.pos w.text ++ printed (dst_size - w.pos) piece
          else w.text;
    }

abbrev token_if : ℕ → Bool → Bytes → Written → Written
token_if dst_size has token w = if has then append_token dst_size w token else w

abbrev unknown_tokens : ℕ → List UnknownCapability → Written → Written
unknown_tokens dst_size [] w = w
unknown_tokens dst_size (u ∷ us) w =
    unknown_tokens dst_size us (append_token dst_size w (c_string u.keyword))

abbrev size_token : Capabilities → Bytes
size_token caps =
    if caps.size_limit_valid
    then printed 160 (codes "SIZE=" ++ decimal caps.size_limit)
    else codes "SIZE"

-- `smtp_cap_format_summary`
unfoldable pub format_summary : Capabilities → (dst_size : ℕ) → Bytes
unfolding append_token decimal
format_summary caps dst_size =
    let w0 : Written = record { pos = 0; any = false; text = [] } in
    let w1 = token_if dst_size caps.has_pipelining (codes "PIPELINING") w0 in
    let w2 = token_if dst_size caps.has_starttls (codes "STARTTLS") w1 in
    let w3 = token_if dst_size caps.has_8bitmime (codes "8BITMIME") w2 in
    let w4 = token_if dst_size caps.has_enhancedstatuscodes (codes "ENHANCEDSTATUSCODES") w3 in
    let w5 = token_if dst_size caps.has_chunking (codes "CHUNKING") w4 in
    let w6 = token_if dst_size caps.has_dsn (codes "DSN") w5 in
    let w7 = token_if dst_size caps.has_binarymime (codes "BINARYMIME") w6 in
    let w8 = token_if dst_size caps.has_smtputf8 (codes "SMTPUTF8") w7 in
    let w9 = token_if dst_size caps.has_size (size_token caps) w8 in
    let auth = printed 160 (codes "AUTH=" ++ c_string caps.auth_raw) in
    let w10 = token_if dst_size caps.has_auth auth w9 in
    let w11 = unknown_tokens dst_size caps.unknown w10 in
    if w11.any then w11.text else printed dst_size (codes "(none)")
