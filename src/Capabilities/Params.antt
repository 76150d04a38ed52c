-- ===== src/Capabilities/Params.antt =====
-- src/smtp_capabilities.c: the parameters of SIZE and AUTH, and bounded copies.
use Prim.Native.Nat.{bit_or}
use smtpc_cli.Common.{
  ℕ, ◌+◌, ◌-◌, ◌*◌, ◌/◌, ◌^◌, Bool, true, false, ◌&&◌, not, List, Option, none, some, [], ◌∷◌, ◌++◌,
  Bytes, ltb, ◌==◌, if◌then◌else◌, within, length, take, codes,
}
use smtpc_cli.Capabilities.Keys.{upper}

-- `SIZE_MAX`, at 64 bits.
abbrev pub size_max : ℕ
size_max = 0xffff_ffff_ffff_ffff

-- The digits' loop; `none` stands for `*valid = 0`.
unfoldable pub parse_digits : ℕ → Bytes → Option ℕ
parse_digits result [] = some result
parse_digits result (c ∷ cs) =
    let next = parse_digits (result * 10 + (c - b'0')) cs in
    if not (within b'0' b'9' c)
    then some result
    else if ltb ((size_max - (c - b'0')) / 10) result
    then none
    else next

-- `smtp_cap_parse_size_param`: `some value` for `*valid = 1`.
unfoldable pub parse_size_param : Bytes → Option ℕ
parse_size_param [] = none
parse_size_param (c ∷ cs) =
    let skipped = parse_size_param cs in
    if c == b' '
    then skipped
    else if not (within b'0' b'9' c)
    then none
    else parse_digits 0 (c ∷ cs)

-- `smtp_cap_ci_equal`, on a literal that holds no NUL.
unfoldable pub ci_equal : Bytes → Bytes → Bool
unfolding upper
ci_equal [] [] = true
ci_equal [] (b ∷ literal) = false
ci_equal (a ∷ text) [] = false
ci_equal (a ∷ text) (b ∷ literal) = upper a == upper b && ci_equal text literal

-- `g_smtp_cap_known_auth`, names with their bits.
abbrev pub known_auth : List (Bytes × ℕ)
known_auth =
    (codes "PLAIN", 2 ^ 0)
    ∷ (codes "LOGIN", 2 ^ 1)
    ∷ (codes "CRAM-MD5", 2 ^ 2)
    ∷ (codes "DIGEST-MD5", 2 ^ 3)
    ∷ (codes "XOAUTH2", 2 ^ 4)
    ∷ (codes "SCRAM-SHA-1", 2 ^ 5)
    ∷ (codes "SCRAM-SHA-256", 2 ^ 6)
    ∷ (codes "NTLM", 2 ^ 7)
    ∷ (codes "GSSAPI", 2 ^ 8)
    ∷ []

abbrev pub mech_unknown : ℕ
mech_unknown = 2 ^ 9

-- The bit of a token.
unfoldable pub mechanism_bit : Bytes → List (Bytes × ℕ) → ℕ
unfolding ci_equal
mechanism_bit token [] = mech_unknown
mechanism_bit token ((name, bit) ∷ known) =
    if ci_equal token name then bit else mechanism_bit token known

-- `smtp_cap_match_auth_mechanism`
unfoldable pub match_auth_mechanism : Bytes → ℕ → ℕ
unfolding mechanism_bit
match_auth_mechanism token mask = bit_or mask (mechanism_bit token known_auth)

-- The end of a token: empty tokens, between two spaces, are passed over.
abbrev pub close_token : Bytes → ℕ → ℕ
close_token [] mask = mask
close_token (c ∷ cs) mask = match_auth_mechanism (c ∷ cs) mask

-- The loop of `smtp_cap_parse_auth_mechanisms`, with the bytes of the current token so far.
unfoldable pub auth_loop : Bytes → Bytes → ℕ → ℕ
unfolding match_auth_mechanism
auth_loop token [] mask = close_token token mask
auth_loop token (c ∷ cs) mask =
    auth_loop (if c == b' ' then [] else token ++ c ∷ []) cs
      (if c == b' ' then close_token token mask else mask)

unfoldable pub parse_auth_mechanisms : Bytes → ℕ → ℕ
unfolding auth_loop
parse_auth_mechanisms text mask = auth_loop [] text mask

-- `smtp_cap_bounded_copy`: the bytes in front of the NUL that it writes, and whether it cut.
unfoldable pub bounded_copy : ℕ → Bytes → Bytes × Bool
bounded_copy dst_size src =
    let truncated = ltb (dst_size - 1) (length src) in
    (take (if truncated then dst_size - 1 else length src) src, truncated)
