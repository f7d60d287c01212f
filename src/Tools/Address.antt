-- ===== src/Tools/Address.antt =====
-- Which endpoints a tenant's tool may have: `is_restricted` and `url_parse_and_validate` of
-- backend/crates/modules/tools/src/executor.rs. The URL parser and the name resolver are arguments.
pub mod Endpoints
use customer_service_chat_sy.Base.{
  ℕ, zero, suc, Bool, true, false, ◌&&◌, ◌||◌, List, [], ◌∷◌, Option, none, some, Text, codes,
  text_eq, ◌==◌, eqb, leb, if◌then◌else◌, Result, ok, err, any, not,
}
use Prim.Native.Nat.{bit_and}

-- The octets of an address.
pub data IpAddr : Type 0 where
  v4 : (a b c d : ℕ) → IpAddr
  v6 : (octets : List ℕ) → IpAddr

-- `Ipv4Addr::is_loopback`, `is_private` and `is_link_local` of the standard library.
abbrev pub is_loopback : (a b c d : ℕ) → Bool
is_loopback a b c d = eqb a 127

abbrev pub is_private : (a b c d : ℕ) → Bool
is_private a b c d = eqb a 10 || (eqb a 172 && (leb 16 b && leb b 31) || eqb a 192 && eqb b 168)

abbrev pub is_link_local : (a b c d : ℕ) → Bool
is_link_local a b c d = eqb a 169 && eqb b 254

-- `Ipv6Addr::LOCALHOST`.
abbrev pub localhost : List ℕ
localhost = 0 ∷ 0 ∷ 0 ∷ 0 ∷ 0 ∷ 0 ∷ 0 ∷ 0 ∷ 0 ∷ 0 ∷ 0 ∷ 0 ∷ 0 ∷ 0 ∷ 0 ∷ 1 ∷ []

-- The octet at a place of the sixteen.
abbrev pub octet : List ℕ → ℕ → ℕ
octet [] i = 0
octet (x ∷ xs) zero = x
octet (x ∷ xs) (suc i) = octet xs i

unfoldable pub is_restricted : IpAddr → Bool
is_restricted (v4 a b c d) = is_loopback a b c d || is_private a b c d || is_link_local a b c d
is_restricted (v6 octets) =
    if octets == localhost
    then true
    else if eqb (bit_and (octet octets 0) 0xfe) 0xfc
    then true
    else eqb (octet octets 0) 0xfe && eqb (bit_and (octet octets 1) 0xc0) 0x80

pub data Host : Type 0 where
  ipv4 : (a b c d : ℕ) → Host
  ipv6 : (octets : List ℕ) → Host
  domain : Text → Host

-- What `url::Url::parse` yields.
pub record Url : Type 0 where
  pub scheme : Text
  pub host : Option Host

pub data UrlError : Type 0 where
  invalid_url not_https private_address no_host not_resolved : UrlError

abbrev pub reject_if : Bool → Text → Result Text UrlError
reject_if true url_str = err private_address
reject_if false url_str = ok url_str

-- The rest of the check, for the addresses that a host name resolves to.
abbrev pub check_resolved : Option (List IpAddr) → Text → Result Text UrlError
check_resolved none url_str = err not_resolved
check_resolved (some addrs) url_str = reject_if (any is_restricted addrs) url_str

module _ (parse : Text → Option Url) (lookup_host : Text → Option (List IpAddr)) where
  check_host : Option Host → Text → Result Text UrlError
  check_host (some (ipv4 a b c d)) url_str = reject_if (is_restricted (v4 a b c d)) url_str
  check_host (some (ipv6 octets)) url_str = reject_if (is_restricted (v6 octets)) url_str
  check_host (some (domain host)) url_str = check_resolved (lookup_host host) url_str
  check_host none url_str = err no_host

  check_url : Option Url → Text → Result Text UrlError
  unfolding check_host
  check_url none url_str = err invalid_url
  check_url (some url) url_str =
      if not (url.scheme == codes "https") then err not_https else check_host url.host url_str

  pub url_parse_and_validate : Text → Result Text UrlError
  unfolding check_url
  url_parse_and_validate url_str = check_url (parse url_str) url_str
