-- ===== src/Resolve.antt =====
-- src/smtp_resolve.c: host resolution. getaddrinfo and WSAStartup are arguments; that the pointers are not
-- null is an argument, too.
pub mod Address
use smtpc_cli.Common.Ledger.{Holding, acquired, released}
use smtpc_cli.Capabilities.Summary.{decimal}
use smtpc_cli.Common.{
  ℕ, ◌-◌, ◌==◌, ◌||◌, Bool, true, false, not, Option, some, none, List, [], ◌∷◌, ◌++◌, Bytes,
  if◌then◌else◌, ltb, leb, length, take,
}

-- The members of `smtp_resolve_err` but OK.
pub data ResolveErr : Type 0 where
  err_invalid_arg err_wsastartup_failed err_getaddrinfo_failed err_no_usable_address : ResolveErr

-- The last error of the thread: its code, `none` for OK, and its detail.
pub record LastError : Type 0 where
  pub err : Option ResolveErr
  pub detail : Bytes

abbrev pub err_detail_len : ℕ
err_detail_len = 160

-- `smtp_resolve_fail`; a null detail is empty.
unfoldable pub fail : Option ResolveErr → Bytes → LastError
fail err detail = record {
  err = err;
  detail =
      take (if leb err_detail_len (length detail) then err_detail_len - 1 else length detail)
        detail;
}

-- What getaddrinfo gives: a code with its text, or a list whose first address is the bytes. An empty
-- list is `none`.
pub data Resolved : Type 0 where
  refused : (text : Bytes) → Resolved
  found : Option Bytes → Resolved

pub data Resource : Type 0 where
  winsock address_list : Resource

abbrev pub port_size : ℕ
port_size = 8

-- What the call does: the address written to `out_addr`, whose length is `*out_addr_len`, the last
-- error, what was taken and given back.
pub record Result : Type 0 where
  pub address : Option Bytes
  pub last : LastError
  pub held : List (Holding Resource)

-- WSACleanup, on Windows.
abbrev pub cleaned : (windows : Bool) → List (Holding Resource)
cleaned windows = if windows then released winsock ∷ [] else []

unfoldable pub first_address : (windows : Bool) (storage_size : ℕ) → Bytes → Result
first_address windows storage_size address =
    if length address == 0 || ltb storage_size (length address)
    then record {
      address = none;
      last = fail (some err_no_usable_address) [];
      held = acquired address_list ∷ released address_list ∷ cleaned windows;
    }
    else record {
      address = some address;
      last = fail none [];
      held = acquired address_list ∷ released address_list ∷ cleaned windows;
    }

-- Behind getaddrinfo; freeing an empty list does nothing.
unfoldable pub resolved : (windows : Bool) (storage_size : ℕ) → Resolved → Result
resolved windows storage_size (refused text) = record {
  address = none;
  last = fail (some err_getaddrinfo_failed) text;
  held = cleaned windows;
}
resolved windows storage_size (found none) = record {
  address = none;
  last = fail (some err_no_usable_address) [];
  held = cleaned windows;
}
resolved windows storage_size (found (some address)) = first_address windows storage_size address

-- The text of the port that getaddrinfo is given.
abbrev pub port_str : (port : ℕ) → Bytes
port_str port = take (port_size - 1) (decimal port)

-- `smtp_resolve_host`
unfoldable pub resolve_host :
    (windows pointers startup : Bool) (getaddrinfo : Bytes → Bytes → Resolved) (storage_size : ℕ)
    → (host : Bytes) (port : ℕ) → Result
resolve_host windows pointers startup getaddrinfo storage_size host port =
    let r = resolved windows storage_size (getaddrinfo host (port_str port)) in
    if not pointers
    then record { address = none; last = fail (some err_invalid_arg) []; held = [] }
    else if not windows
    then r
    else if not startup
    then record { address = none; last = fail (some err_wsastartup_failed) []; held = [] }
    else record r { held = acquired winsock ∷ r.held }
