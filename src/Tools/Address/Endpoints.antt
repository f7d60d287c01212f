-- ===== src/Tools/Address/Endpoints.antt =====
-- The endpoints that are accepted.
use customer_service_chat_sy.Base.{
  ℕ, true, false, ◌≡◌, refl, ◌↔◌, inl, inr, List, [], ◌∷◌, Option, none, some, arith, Text, codes,
  text_eq, ◌==◌, any, All, ok, err, Bool-cases, ==→≡, ap, sym, ◌∙◌,
}
use customer_service_chat_sy.Tools.Address.{
  IpAddr, v4, v6, is_restricted, Host, ipv4, ipv6, domain, Url, check_host, check_url,
  url_parse_and_validate, check_resolved, private_address,
}

-- No address that the host stands for is restricted; a name must resolve.
abbrev pub ReachesOnlyPublic : (Text → Option (List IpAddr)) → Option Host → Type 0
ReachesOnlyPublic lookup_host none = ⊥
ReachesOnlyPublic lookup_host (some (ipv4 a b c d)) = is_restricted (v4 a b c d) ≡ false
ReachesOnlyPublic lookup_host (some (ipv6 octets)) = is_restricted (v6 octets) ≡ false
ReachesOnlyPublic lookup_host (some (domain host)) =
    (addrs : List IpAddr) × (lookup_host host ≡ some addrs)
    × All (λ ip. is_restricted ip ≡ false) addrs

any_restricted :
    (addrs : List IpAddr)
    → any is_restricted addrs ≡ false
    → All (λ ip. is_restricted ip ≡ false) addrs
any_restricted [] h = tt
any_restricted (ip ∷ addrs) h = ground (arith, any_restricted addrs)

none_restricted :
    (addrs : List IpAddr)
    → All (λ ip. is_restricted ip ≡ false) addrs
    → any is_restricted addrs ≡ false
none_restricted [] h = refl
none_restricted (ip ∷ addrs) (first, rest) = rw first (none_restricted addrs rest)

resolved_sound :
    (found : Option (List IpAddr)) (url_str : Text) {u : Text}
    → check_resolved found url_str ≡ ok u
    → (u ≡ url_str)
      × ((addrs : List IpAddr) × (found ≡ some addrs) × All (λ ip. is_restricted ip ≡ false) addrs)
resolved_sound none url_str h = absurd (ground arith)
resolved_sound (some addrs) url_str h =
    (ground arith, (addrs, refl, any_restricted addrs (ground arith)))

module _ (parse : Text → Option Url) (lookup_host : Text → Option (List IpAddr)) where
  host_sound :
      (host : Option Host) (url_str : Text) {u : Text}
      → check_host parse lookup_host host url_str ≡ ok u
      → (u ≡ url_str) × ReachesOnlyPublic lookup_host host
  unfolding check_host
  host_sound none url_str h = absurd (ground arith)
  host_sound (some (ipv4 a b c d)) url_str h = ground arith
  host_sound (some (ipv6 octets)) url_str h = ground arith
  host_sound (some (domain host)) url_str h = resolved_sound (lookup_host host) url_str h

  host_complete :
      (host : Option Host) (url_str : Text)
      → ReachesOnlyPublic lookup_host host
      → check_host parse lookup_host host url_str ≡ ok url_str
  unfolding check_host
  host_complete none url_str h = absurd h
  host_complete (some (ipv4 a b c d)) url_str h = ground arith
  host_complete (some (ipv6 octets)) url_str h = ground arith
  host_complete (some (domain host)) url_str (addrs, found, public) =
      rw found (rw (none_restricted addrs public))

  url_sound :
      (found : Option Url) (url_str : Text) {u : Text}
      → check_url parse lookup_host found url_str ≡ ok u
      → (u ≡ url_str)
        × ((url : Url) × (found ≡ some url)
            × (url.scheme ≡ codes "https")
            × ReachesOnlyPublic lookup_host url.host)
  unfolding check_url
  url_sound none url_str h = absurd (ground arith)
  url_sound (some url) url_str h = elim (Bool-cases (url.scheme == codes "https")) [
    | inl https ↦
        let (same, public) = host_sound url.host url_str (rw https at h) in
        (same, (url, refl, ==→≡ url.scheme (codes "https") https, public))
    | inr other ↦ absurd (ground arith)
  ]

  -- An endpoint is accepted, and then as it was written, exactly when it parses to an https URL
  -- whose host is no restricted address, or is a name that resolves to none.
  pub url_parse_and_validate_iff :
      (url_str u : Text)
      → (url_parse_and_validate parse lookup_host url_str ≡ ok u) ↔ (
          (u ≡ url_str)
          × ((url : Url) × (parse url_str ≡ some url)
              × (url.scheme ≡ codes "https")
              × ReachesOnlyPublic lookup_host url.host))
  unfolding url_parse_and_validate check_url
  url_parse_and_validate_iff url_str u = (
    url_sound (parse url_str) url_str,
    λ (same, (url, parsed, https, public)).
        rw parsed (rw https (host_complete url.host url_str public ∙ ap ok (sym same))),
  )

-- ::ffff:a.b.c.d
abbrev pub mapped : (a b c d : ℕ) → List ℕ
mapped a b c d = 0 ∷ 0 ∷ 0 ∷ 0 ∷ 0 ∷ 0 ∷ 0 ∷ 0 ∷ 0 ∷ 0 ∷ 255 ∷ 255 ∷ a ∷ b ∷ c ∷ d ∷ []

mapped_not_restricted : (a b c d : ℕ) → is_restricted (v6 (mapped a b c d)) ≡ false
unfolding is_restricted
mapped_not_restricted a b c d = refl

-- A restricted IPv4 address, as the host of an https URL, is rejected; the same address mapped
-- into IPv6 is accepted.
pub mapped_accepted :
    (parse : Text → Option Url) (lookup_host : Text → Option (List IpAddr)) (a b c d : ℕ)
    (plain_url mapped_url : Text)
    → is_restricted (v4 a b c d) ≡ true
    → parse plain_url ≡ some (record { scheme = codes "https"; host = some (ipv4 a b c d) })
    → parse mapped_url
      ≡ some (record { scheme = codes "https"; host = some (ipv6 (mapped a b c d)) })
    → (url_parse_and_validate parse lookup_host plain_url ≡ err private_address)
      × (url_parse_and_validate parse lookup_host mapped_url ≡ ok mapped_url)
unfolding url_parse_and_validate check_url check_host
mapped_accepted parse lookup_host a b c d plain_url mapped_url restricted plain mapped' =
    (rw plain (rw restricted refl), rw mapped' (rw (mapped_not_restricted a b c d) refl))
