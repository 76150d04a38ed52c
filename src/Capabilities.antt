-- ===== src/Capabilities.antt =====
-- src/smtp_capabilities.c: the capabilities of an EHLO response. Flags are Booleans, character
-- arrays are the bytes in front of their NUL, and `unknown[0..unknown_count)` is a list.
pub mod Keys
pub mod Params
pub mod Recognise
pub mod Summary
pub mod Bounds
pub mod Size
pub mod Ehlo
use smtpc_cli.Capabilities.Keys.{
  Extracted, Keyword, dsn, size, auth, starttls, mime8bit, chunking, smtputf8, pipelining,
  binarymime, enhancedstatuscodes, unknown, extract_keyword_and_key, recognise,
}
use smtpc_cli.Capabilities.Params.{parse_size_param, parse_auth_mechanisms, bounded_copy}
use smtpc_cli.ReplyParser.{LastError, ReplyLine, Parsed, parse_line}
use smtpc_cli.ReplyReader.{Outcome, Reply, read, advance}
use smtpc_cli.Common.{
  ℕ, zero, suc, ◌+◌, ◌-◌, Bool, true, false, ◌&&◌, ◌||◌, not, List, Option, none, some, [], ◌∷◌,
  ◌++◌, Bytes, ltb, leb, ◌==◌, if◌then◌else◌, length, take, drop,
}

pub record UnknownCapability : Type 0 where
  pub keyword : Bytes
  pub params : Bytes
  pub truncated : Bool

pub record Capabilities : Type 0 where
  pub has_pipelining : Bool
  pub has_starttls : Bool
  pub has_8bitmime : Bool
  pub has_enhancedstatuscodes : Bool
  pub has_chunking : Bool
  pub has_dsn : Bool
  pub has_binarymime : Bool
  pub has_smtputf8 : Bool
  pub has_size : Bool
  pub size_limit_valid : Bool
  pub size_limit : ℕ
  pub has_auth : Bool
  pub auth_mechs : ℕ
  pub auth_raw : Bytes
  pub unknown : List UnknownCapability
  pub unknown_overflow_count : ℕ

abbrev pub max_unknown : ℕ
max_unknown = 32

abbrev pub max_keyword_len : ℕ
max_keyword_len = 32

abbrev pub max_param_len : ℕ
max_param_len = 128

-- `smtp_cap_init`
abbrev pub cap_init : Capabilities
cap_init = record {
  has_pipelining = false;
  has_starttls = false;
  has_8bitmime = false;
  has_enhancedstatuscodes = false;
  has_chunking = false;
  has_dsn = false;
  has_binarymime = false;
  has_smtputf8 = false;
  has_size = false;
  size_limit_valid = false;
  size_limit = 0;
  has_auth = false;
  auth_mechs = 0;
  auth_raw = [];
  unknown = [];
  unknown_overflow_count = 0;
}

-- `smtp_cap_store_unknown`
unfoldable pub store_unknown : Capabilities → Bytes → Bytes → Capabilities
store_unknown caps keyword params =
    if leb max_unknown (length caps.unknown)
    then record caps { unknown_overflow_count = caps.unknown_overflow_count + 1 }
    else (let (kw, trunc_kw) = bounded_copy max_keyword_len keyword in
        let (ps, trunc_params) = bounded_copy max_param_len params in
        record caps {
          unknown =
              caps.unknown
              ++ record { keyword = kw; params = ps; truncated = trunc_kw || trunc_params } ∷ [];
        })

-- `*value` keeps its old content where `*valid` becomes 0.
abbrev pub set_size : Capabilities → Option ℕ → Capabilities
set_size caps none = record caps { has_size = true; size_limit_valid = false }
set_size caps (some n) = record caps { has_size = true; size_limit_valid = true; size_limit = n }

-- The bodies of the switch.
unfoldable pub apply : Keyword → Capabilities → Bytes → Extracted → Capabilities
apply dsn caps text e = record caps { has_dsn = true }
apply size caps text e = set_size caps (parse_size_param e.params)
apply auth caps text e = record caps {
  has_auth = true;
  auth_mechs = parse_auth_mechanisms e.params caps.auth_mechs;
  auth_raw = (bounded_copy max_param_len e.params).0;
}
apply starttls caps text e = record caps { has_starttls = true }
apply mime8bit caps text e = record caps { has_8bitmime = true }
apply chunking caps text e = record caps { has_chunking = true }
apply smtputf8 caps text e = record caps { has_smtputf8 = true }
apply pipelining caps text e = record caps { has_pipelining = true }
apply binarymime caps text e = record caps { has_binarymime = true }
apply enhancedstatuscodes caps text e = record caps { has_enhancedstatuscodes = true }
apply unknown caps text e = store_unknown caps (take e.kw_len text) e.params

-- `smtp_cap_parse_line`
unfoldable pub parse_cap_line : Capabilities → Bytes → Capabilities
parse_cap_line caps [] = caps
parse_cap_line caps (c ∷ cs) =
    let text = c ∷ cs in let e = extract_keyword_and_key text in apply (recognise e) caps text e

-- The loop over the lines, `left` of them to go, `i` behind them; `none` is the failed assertion
-- that `smtp_reply_read` has validated the line.
unfoldable pub lines_loop :
    (left i : ℕ) → Bytes → Capabilities → LastError → Option Capabilities × LastError
lines_loop zero i buf caps g = (some caps, g)
lines_loop (suc left) i buf caps g = elim (parse_line (some buf) g).0 [
  | Parsed.incomplete ↦ (none, (parse_line (some buf) g).1)
  | Parsed.fail _ _ ↦ (none, (parse_line (some buf) g).1)
  | Parsed.ok line ↦
      lines_loop left (i + 1) (drop line.consumed buf)
        (if ltb 0 i
          then parse_cap_line caps (take line.text_len (drop line.text_offset buf))
          else caps)
        (parse_line (some buf) g).1
]

pub data EhloResult : Type 0 where
  -- the capabilities were filled in
  ok : Capabilities → EhloResult
  -- not a whole reply, or none: `caps` is untouched
  other : Outcome → EhloResult
  -- the assertion in the loop failed
  aborted : EhloResult

abbrev pub filled : Option Capabilities → EhloResult
filled none = aborted
filled (some caps) = ok caps

-- `smtp_cap_parse_ehlo_response`
unfoldable pub parse_ehlo_response : Bytes → (max_lines : ℕ) → LastError → EhloResult × LastError
parse_ehlo_response buf max_lines g = elim (read (some buf) max_lines g).0 [
  | Outcome.ok reply ↦
      let run = lines_loop reply.line_count 0 buf cap_init (read (some buf) max_lines g).1 in
      (filled run.0, run.1)
  | Outcome.incomplete ↦ (other Outcome.incomplete, (read (some buf) max_lines g).1)
  | Outcome.fail e ↦ (other (Outcome.fail e), (read (some buf) max_lines g).1)
]
