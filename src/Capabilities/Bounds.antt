-- ===== src/Capabilities/Bounds.antt =====
-- Nothing is written past the end of the fixed arrays, and the size limit is a size_t.
use smtpc_cli.Capabilities.{
  Capabilities, UnknownCapability, max_unknown, max_keyword_len, max_param_len, store_unknown,
  set_size, apply, parse_cap_line,
}
use smtpc_cli.Capabilities.Keys.{
  Extracted, Keyword, size, auth, unknown, extract_keyword_and_key, recognise,
}
use smtpc_cli.Capabilities.Params.{bounded_copy, parse_size_param, parse_digits, size_max}
use smtpc_cli.Common.{
  ℕ, ◌+◌, ◌-◌, ◌*◌, ◌≤◌, ◌<◌, ◌≡◌, refl, inl, inr, Bool, [], ◌∷◌, Bytes, leb, ltb, arith, length,
  All, All-append, Bool-cases, Option, none, some, take, length-take, length-append,
}

-- The arrays hold a NUL behind the text.
pub record IsStored (u : UnknownCapability) : Type 0 where
  pub keyword_fits : length u.keyword < max_keyword_len
  pub params_fit : length u.params < max_param_len

pub record IsBounded (caps : Capabilities) : Type 0 where
  pub slots : length caps.unknown ≤ max_unknown
  pub stored : All IsStored caps.unknown
  pub auth_raw_fits : length caps.auth_raw < max_param_len
  pub size_fits : caps.size_limit ≤ size_max

bounded_copy-lt : (n : ℕ) (src : Bytes) → 0 < n → length (bounded_copy n src).0 < n
unfolding bounded_copy
bounded_copy-lt n src h = elim (Bool-cases (ltb (n - 1) (length src))) [
  | inl cut ↦ rw cut (omega (arith, length-take (n - 1) src))
  | inr whole ↦
      rw whole (
        let small : length src ≤ n - 1 = ground arith in
        omega (arith, length-take (length src) src))
]

parse_digits-le :
    (n : ℕ) (text : Bytes) (r : ℕ) → n ≤ size_max → parse_digits n text ≡ some r → r ≤ size_max
unfolding parse_digits
parse_digits-le n [] r h e = ground arith
parse_digits-le n (c ∷ cs) r h e = ground (arith, parse_digits-le (n * 10 + (c - b'0')) cs r)

parse_size_param-le : (text : Bytes) (r : ℕ) → parse_size_param text ≡ some r → r ≤ size_max
unfolding parse_size_param
parse_size_param-le [] r e = ground arith
parse_size_param-le (c ∷ cs) r e =
    ground (arith, parse_size_param-le cs r, parse_digits-le 0 (c ∷ cs) r)

set_size-IsBounded :
    (caps : Capabilities) (o : Option ℕ)
    → ((r : ℕ) → o ≡ some r → r ≤ size_max)
    → IsBounded caps
    → IsBounded (set_size caps o)
set_size-IsBounded caps none f b = record {
  slots = b.slots;
  stored = b.stored;
  auth_raw_fits = b.auth_raw_fits;
  size_fits = b.size_fits;
}
set_size-IsBounded caps (some n) f b = record {
  slots = b.slots;
  stored = b.stored;
  auth_raw_fits = b.auth_raw_fits;
  size_fits = f n refl;
}

IsStored-entry :
    (keyword params : Bytes) (t : Bool)
    → IsStored (record {
      keyword = (bounded_copy max_keyword_len keyword).0;
      params = (bounded_copy max_param_len params).0;
      truncated = t;
    })
IsStored-entry keyword params t = record {
  keyword_fits = bounded_copy-lt max_keyword_len keyword (omega arith);
  params_fit = bounded_copy-lt max_param_len params (omega arith);
}

store_unknown-IsBounded :
    (caps : Capabilities) (keyword params : Bytes)
    → IsBounded caps
    → IsBounded (store_unknown caps keyword params)
unfolding store_unknown
store_unknown-IsBounded caps keyword params b =
    elim (Bool-cases (leb max_unknown (length caps.unknown))) [
      | inl full ↦ rw full (record {
        slots = b.slots;
        stored = b.stored;
        auth_raw_fits = b.auth_raw_fits;
        size_fits = b.size_fits;
      })
      | inr free ↦ rw free (
          let room : length caps.unknown < max_unknown = ground arith in
          record {
            slots = omega (arith, length-append {0} caps.unknown (_ ∷ []), room);
            stored =
                All-append IsStored caps.unknown _ b.stored (IsStored-entry keyword params _, tt);
            auth_raw_fits = b.auth_raw_fits;
            size_fits = b.size_fits;
          })
    ]

apply-IsBounded :
    (k : Keyword) (caps : Capabilities) (text : Bytes) (e : Extracted)
    → IsBounded caps
    → IsBounded (apply k caps text e)
unfolding apply
apply-IsBounded size caps text e b =
    set_size-IsBounded caps (parse_size_param e.params) (parse_size_param-le e.params) b
apply-IsBounded auth caps text e b = record {
  slots = b.slots;
  stored = b.stored;
  auth_raw_fits = bounded_copy-lt max_param_len e.params (omega arith);
  size_fits = b.size_fits;
}
apply-IsBounded unknown caps text e b = store_unknown-IsBounded caps (take e.kw_len text) e.params b
apply-IsBounded _ caps text e b = record {
  slots = b.slots;
  stored = b.stored;
  auth_raw_fits = b.auth_raw_fits;
  size_fits = b.size_fits;
}

-- Parsing a line keeps every array within its bounds, whatever the line holds: at most 32 unknown
-- capabilities, keywords below 32, parameters and the AUTH text below 128 bytes, and a size limit
-- of at most SIZE_MAX.
pub parse_cap_line-IsBounded :
    (caps : Capabilities) (text : Bytes) → IsBounded caps → IsBounded (parse_cap_line caps text)
unfolding parse_cap_line
parse_cap_line-IsBounded caps [] b = b
parse_cap_line-IsBounded caps (c ∷ cs) b =
    let e = extract_keyword_and_key (c ∷ cs) in apply-IsBounded (recognise e) caps (c ∷ cs) e b
