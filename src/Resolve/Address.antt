-- ===== src/Resolve/Address.antt =====
-- src/smtp_resolve.c: what a resolution returns fits, and what it takes it gives back.
use smtpc_cli.Resolve.{
  found, port_str, refused, Resolved, resolved, first_address, resolve_host, ResolveErr, fail,
  Resource, winsock, address_list, Result, err_getaddrinfo_failed, err_no_usable_address,
}
use smtpc_cli.Common.Ledger.{times_acquired, times_released}
use smtpc_cli.Common.{
  [], arith, ℕ, ◌<◌, ◌≤◌, ◌≡◌, Bool, true, false, not, Option, some, none, Bytes, length,
  length-take, leb, if◌then◌else◌, refl, ◌+◌,
}

abbrev pub same_resource : Resource → Resource → Bool
same_resource winsock winsock = true
same_resource address_list address_list = true
same_resource _ _ = false

-- Room for an address that was written.
abbrev pub FitsStorage : (storage_size : ℕ) → Option Bytes → Type 0
FitsStorage storage_size none = Unit
FitsStorage storage_size (some address) = (0 < length address) × (length address ≤ storage_size)

abbrev pub is_none {ℓ} : {A : Type ℓ} → Option A → Bool
is_none none = true
is_none (some _) = false

-- A result: an address exactly if there is no error, in its room, with a detail of 159 bytes at most, and
-- everything taken given back.
pub record IsClean (storage_size : ℕ) (r : Result) : Type 0 where
  pub answered : is_none r.last.err ≡ not (is_none r.address)
  pub fits : FitsStorage storage_size r.address
  pub detailed : length r.last.detail ≤ 159
  pub given_back :
      (s : Resource) → times_acquired same_resource s r.held ≡ times_released same_resource s r.held

fail-length : (e : Option ResolveErr) (detail : Bytes) → length (fail e detail).detail ≤ 159
unfolding fail
fail-length e detail =
    let l = length-take (if leb 160 (length detail) then 159 else length detail) detail in
    ground arith

-- What was taken without WSAStartup, which comes before.
record IsCleaned (windows : Bool) (storage_size : ℕ) (r : Result) : Type 0 where
  pub answered : is_none r.last.err ≡ not (is_none r.address)
  pub fits : FitsStorage storage_size r.address
  pub detailed : length r.last.detail ≤ 159
  pub lists :
      times_acquired same_resource address_list r.held
      ≡ times_released same_resource address_list r.held
  pub sockets :
      times_acquired same_resource winsock r.held + (if windows then 1 else 0)
      ≡ times_released same_resource winsock r.held

fail-err : (e : Option ResolveErr) (detail : Bytes) → (fail e detail).err ≡ e
unfolding fail
fail-err e detail = refl

first_address-IsCleaned :
    (windows : Bool) (storage_size : ℕ) (address : Bytes)
    → IsCleaned windows storage_size (first_address windows storage_size address)
unfolding first_address fail
first_address-IsCleaned windows storage_size address = ground arith

resolved-IsCleaned :
    (windows : Bool) (storage_size : ℕ) (answer : Resolved)
    → IsCleaned windows storage_size (resolved windows storage_size answer)
unfolding resolved
resolved-IsCleaned windows storage_size (refused text) =
    let l = fail-length (some err_getaddrinfo_failed) text in
    let e = fail-err (some err_getaddrinfo_failed) text in ground arith
resolved-IsCleaned windows storage_size (found none) =
    let l = fail-length (some err_no_usable_address) [] in
    let e = fail-err (some err_no_usable_address) [] in ground arith
resolved-IsCleaned windows storage_size (found (some address)) =
    first_address-IsCleaned windows storage_size address

-- A resolution leaves an address exactly if it leaves no error; the address is not empty and fits
-- the storage, the error's detail has 159 bytes at most, and what the call has taken it has given
-- back, on either platform.
pub resolve_host-IsClean :
    (windows pointers startup : Bool) (getaddrinfo : Bytes → Bytes → Resolved) (storage_size : ℕ)
    (host : Bytes) (port : ℕ)
    → IsClean storage_size
        (resolve_host windows pointers startup getaddrinfo storage_size host port)
unfolding resolve_host fail
resolve_host-IsClean windows pointers startup getaddrinfo storage_size host port =
    let c = resolved-IsCleaned windows storage_size (getaddrinfo host (port_str port)) in
    let a = c.answered in
    let f = c.fits in
    let d = c.detailed in
    let l = c.lists in
    let s = c.sockets in
    record {
      answered = ground arith;
      fits = ground arith;
      detailed = ground arith;
      given_back = λ r. elim r [ winsock ↦ ground arith | address_list ↦ ground arith ];
    }
