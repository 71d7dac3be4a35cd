-- ===== src/Fetch/Guard.antt =====
-- What the guard of `fetch_to_file` lets through, and that nothing is sent before it.
use scriptorium.FilePath.{FilePath}
use scriptorium.World.{lift_err, ◌>>=◌, of_result}
use scriptorium.Error.{
  Result, Error, ok, err, other, disallowed_resolved, dns_empty, url_has_no_host,
  disallowed_literal, dns_failed, Result-cases, bad_url, unsupported_scheme,
}
use scriptorium.Fetch.{
  check_addrs, assert_public_host, port_or_80, some_addrs, check_host, lookup_host, fetch_to_file,
  FetchConfig,
}
use scriptorium.Base.{
  ◌≡◌, false, some, ◌⊎◌, List, Option-cases, none, ℕ, ◌∷◌, All, ◌≢◌, [], inr, inl, arith, refl,
  Bool-cases, subst, sym, ◌||◌, true,
}
use scriptorium.Text.{Text, codes, text_eq, text_eq_iff}
use scriptorium.Fetch.Address.{is_disallowed}
use scriptorium.World.Calls.{Env, History, IpAddr, Url, looked_up}

abbrev pub IsAllowed : IpAddr → Type 0
IsAllowed ip = is_disallowed ip ≡ false

-- The host is an allowed address, or a name whose addresses, at least one, are all allowed.
abbrev pub IsPublic : Env → History → Url → Type 0
IsPublic env h url =
    (host : Text) × (url.host ≡ some host)
    × (((ip : IpAddr) × (env.parse_ip host ≡ some ip) × IsAllowed ip)
        ⊎ ((addrs : List IpAddr) × (env.parse_ip host ≡ none)
            × (env.lookup_host h host (port_or_80 url.port) ≡ ok addrs)
            × (addrs ≢ [])
            × All IsAllowed addrs))

-- Nothing was asked but a DNS lookup at most.
abbrev pub OnlyLookup : History → History → Type 0
OnlyLookup h h' = (h' ≡ h) ⊎ ((host : Text) × (port : ℕ) × (h' ≡ looked_up host port ∷ h))

check_addrs_cases :
    (host : Text) (ips : List IpAddr)
    → ((check_addrs host ips ≡ ok tt) × All IsAllowed ips)
      ⊎ (check_addrs host ips ≡ err (other (disallowed_resolved host)))
unfolding check_addrs
check_addrs_cases host [] = inl (refl, tt)
check_addrs_cases host (ip ∷ ips) = ground (arith, check_addrs_cases host ips)

abbrev Verdict : (env : Env) (h : History) (url : Url) → History × Result Error (Unit {0}) → Type 0
Verdict env h url s =
    OnlyLookup h s.0 × (((s.1 ≡ ok tt) × IsPublic env h url) ⊎ ((e : Error) × (s.1 ≡ err e)))

resolved_Verdict :
    (env : Env) (h : History) (url : Url) (host : Text) (addrs : List IpAddr)
    → url.host ≡ some host
    → env.parse_ip host ≡ none
    → env.lookup_host h host (port_or_80 url.port) ≡ ok addrs
    → ((some_addrs host addrs ≡ ok tt) × IsPublic env h url)
      ⊎ ((e : Error) × (some_addrs host addrs ≡ err e))
resolved_Verdict env h url host [] hh p l = inr (other (dns_empty host), refl)
resolved_Verdict env h url host (ip ∷ ips) hh p l = elim (check_addrs_cases host (ip ∷ ips)) [
  | inl (e, good) ↦ inl (e, (host, hh, inr (ip ∷ ips, p, l, (λ q. cc), good)))
  | inr e ↦ inr (other (disallowed_resolved host), e)
]

check_host-Verdict :
    (env : Env) (h : History) (url : Url) (host : Text)
    → url.host ≡ some host
    → Verdict env h url (check_host env host (port_or_80 url.port) h)
unfolding check_host lookup_host
check_host-Verdict env h url host e = elim (Option-cases (env.parse_ip host)) [
  | inr (ip, p) ↦ elim (Bool-cases (is_disallowed ip)) [
    | inl bad ↦ rw (p, check_host) (rw bad (inl refl, inr (other (disallowed_literal host), refl)))
    | inr good ↦ rw (p, check_host) (rw good (inl refl, inl (refl, (host, e, inl (ip, p, good)))))
  ]
  | inl name ↦
      rw (name, check_host)
        (resolved name (Result-cases (env.lookup_host h host (port_or_80 url.port))))
]
  where
    asked : OnlyLookup h (looked_up host (port_or_80 url.port) ∷ h)
    asked = inr (host, port_or_80 url.port, refl)

    resolved :
        env.parse_ip host ≡ none
        → ((addrs : List IpAddr) × (env.lookup_host h host (port_or_80 url.port) ≡ ok addrs))
          ⊎ ((t : Text) × (env.lookup_host h host (port_or_80 url.port) ≡ err t))
        → Verdict env h url (
            (lift_err (λ t. other (dns_failed t)) (lookup_host env host (port_or_80 url.port))
                >>= λ addrs. of_result (some_addrs host addrs))
              h)
    resolved name (inl (addrs, l)) =
        rw (l, lookup_host) (asked, resolved_Verdict env h url host addrs e name l)
    resolved name (inr (t, l)) = rw (l, lookup_host) (asked, inr (other (dns_failed t), refl))

assert_public_host-some :
    (env : Env) (h : History) (url : Url) (host : Text)
    → url.host ≡ some host
    → assert_public_host env url h ≡ check_host env host (port_or_80 url.port) h
unfolding assert_public_host
assert_public_host-some env h url host e = rw (e, assert_public_host)

assert_public_host-none :
    (env : Env) (h : History) (url : Url)
    → url.host ≡ none
    → assert_public_host env url h ≡ (h, err (other url_has_no_host))
unfolding assert_public_host
assert_public_host-none env h url e = rw (e, assert_public_host)

assert_public_host-Verdict :
    (env : Env) (h : History) (url : Url) → Verdict env h url (assert_public_host env url h)
assert_public_host-Verdict env h url = elim (Option-cases url.host) [
  | inl missing ↦
      rw (assert_public_host-none env h url missing) (inl refl, inr (other url_has_no_host, refl))
  | inr (host, e) ↦
      subst (Verdict env h url) (sym (assert_public_host-some env h url host e))
        (check_host-Verdict env h url host e)
]

abbrev pub IsHttp : Text → Type 0
IsHttp scheme = (scheme ≡ codes "http") ⊎ (scheme ≡ codes "https")

-- Where private networks are not allowed, a fetch either has an http or https URL with a public host, or fails with an
-- error, having sent no request and asked for nothing but one DNS lookup at most.
pub fetch_to_file_guarded :
    (env : Env) (cfg : FetchConfig) (url : Text) (target : FilePath) (headers : List (Text × Text))
    (timeout : ℕ) (h : History)
    → cfg.allow_private_network ≡ false
    → let s = fetch_to_file env cfg url target headers timeout h in
      ((u : Url) × (env.parse_url url ≡ ok u) × IsHttp u.scheme × IsPublic env h u)
      ⊎ (((e : Error) × (s.1 ≡ err e)) × OnlyLookup h s.0)
unfolding fetch_to_file
fetch_to_file_guarded env cfg url target headers timeout h on =
    elim (Result-cases (env.parse_url url)) [
      | inr (t, p) ↦ inr ((other (bad_url t), ground (arith, p)), ground (arith, p))
      | inl (u, p) ↦
          elim (Bool-cases (text_eq u.scheme (codes "http") || text_eq u.scheme (codes "https"))) [
            | inr bad ↦ inr (
              (other (unsupported_scheme u.scheme), ground (arith, p, bad)),
              ground (arith, p, bad),
            )
            | inl good ↦ verdict u p good (assert_public_host-Verdict env h u)
          ]
    ]
  where
    http :
        (u : Url)
        → (text_eq u.scheme (codes "http") || text_eq u.scheme (codes "https")) ≡ true
        → IsHttp u.scheme
    http u good =
        ground (arith, text_eq_iff u.scheme (codes "http"), text_eq_iff u.scheme (codes "https"))

    verdict :
        (u : Url)
        → env.parse_url url ≡ ok u
        → (text_eq u.scheme (codes "http") || text_eq u.scheme (codes "https")) ≡ true
        → Verdict env h u (assert_public_host env u h)
        → ((u : Url) × (env.parse_url url ≡ ok u) × IsHttp u.scheme × IsPublic env h u)
          ⊎ (((e : Error) × ((fetch_to_file env cfg url target headers timeout h).1 ≡ err e))
              × OnlyLookup h (fetch_to_file env cfg url target headers timeout h).0)
    verdict u p good (only, inl (_, public)) = inl (u, p, http u good, public)
    verdict u p good (only, inr (e, failed)) = inr (
      (e, ground (arith, p, good, failed)),
      subst (OnlyLookup h) (ground (arith, p, good, failed)) only,
    )
