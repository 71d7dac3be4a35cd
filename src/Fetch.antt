-- ===== src/Fetch.antt =====
-- src/fetch.rs: downloading a URL into a workspace file, with the guard against private addresses.
pub mod Address
pub mod Ranges
pub mod Guard
pub mod Body
use scriptorium.Base.{
  ℕ, ◌+◌, ◌%◌, ◌^◌, Bool, true, false, not, ◌||◌, ◌&&◌, List, [], ◌∷◌, Option, none, some, ltb, leb,
  if◌then◌else◌, length,
}
use scriptorium.Text.{Text, codes, text_eq}
use scriptorium.FilePath.{FilePath, parent}
use scriptorium.Error.{
  Message, bad_url, unsupported_scheme, client_build, fetch_failed, non_success_status, fetch_body,
  body_exceeded, url_has_no_host, disallowed_literal, disallowed_resolved, dns_failed, dns_empty,
  Error, other, Result, ok, err,
}
use scriptorium.World.Calls.{Bytes, IpAddr, Url, HttpResponse, looked_up, sent_request, Env}
use scriptorium.World.{Io, pure, fail, of_result, map_err, ◌>>=◌, ◌>>◌, lift_io, lift_err, ignore}
use scriptorium.World.Fs.{create_dir_all, remove_file, create_file, write_all, flush, sync_all}
use Address.{is_disallowed}

pub record FetchConfig : Type 0 where
  pub timeout_seconds : ℕ
  pub max_body_bytes : ℕ
  pub allow_private_network : Bool

pub record FetchOutcome : Type 0 where
  pub bytes_written : ℕ
  pub content_type : Text
  pub http_status : ℕ

abbrev pub u64_mod : ℕ
u64_mod = 2 ^ 64

-- The loop over the resolved addresses.
unfoldable pub check_addrs : Text → List IpAddr → Result Error (Unit {0})
check_addrs host [] = ok tt
check_addrs host (ip ∷ ips) =
    if is_disallowed ip then err (other (disallowed_resolved host)) else check_addrs host ips

abbrev pub some_addrs : Text → List IpAddr → Result Error (Unit {0})
some_addrs host [] = err (other (dns_empty host))
some_addrs host (ip ∷ ips) = check_addrs host (ip ∷ ips)

abbrev pub port_or_80 : Option ℕ → ℕ
port_or_80 none = 80
port_or_80 (some p) = p

abbrev pub or_octet_stream : Option Text → Text
or_octet_stream none = codes "application/octet-stream"
or_octet_stream (some t) = t

-- `StatusCode::is_success`
abbrev pub is_success : ℕ → Bool
is_success s = leb 200 s && leb s 299

module _ (env : Env) where
  unfoldable pub lookup_host : Text → ℕ → Io Text (List IpAddr)
  lookup_host host port h = (looked_up host port ∷ h, env.lookup_host h host port)

  unfoldable pub check_host : Text → ℕ → Io Error (Unit {0})
  unfolding lookup_host
  check_host host port = elim (env.parse_ip host) [
    | some ip ↦ if is_disallowed ip then fail (other (disallowed_literal host)) else pure tt
    | none ↦ do
      addrs ← lift_err (λ e. other (dns_failed e)) (lookup_host host port)
      of_result (some_addrs host addrs)
  ]

  unfoldable pub assert_public_host : Url → Io Error (Unit {0})
  unfolding check_host
  assert_public_host url = elim url.host [
    | none ↦ fail (other url_has_no_host)
    | some host ↦ check_host host (port_or_80 url.port)
  ]

  unfoldable pub send : Url → List (Text × Text) → ℕ → Io Text HttpResponse
  send url headers timeout h =
      (sent_request url headers timeout ∷ h, env.send h url headers timeout)

  -- The loop over the chunks of the body, from the bytes counted so far.
  unfoldable pub write_body : FetchConfig → FilePath → List (Result Text Bytes) → ℕ → Io Error ℕ
  write_body cfg target [] written = pure written
  write_body cfg target (err e ∷ rest) written = fail (other (fetch_body e))
  write_body cfg target (ok chunk ∷ rest) written =
      let written' = (written + length chunk) % u64_mod in
      let more = lift_io (write_all env target chunk) >> write_body cfg target rest written' in
      if ltb cfg.max_body_bytes written'
      then fail (other (body_exceeded written' cfg.max_body_bytes))
      else more

  abbrev pub create_parent : Option FilePath → Io Error (Unit {0})
  create_parent none = pure tt
  create_parent (some p) = lift_io (create_dir_all env p)

  -- From the response on.
  unfoldable pub save_response : FetchConfig → FilePath → HttpResponse → Io Error FetchOutcome
  save_response cfg target resp =
      if not (is_success resp.status) then fail (other (non_success_status resp.status)) else (do
        create_parent (parent target)
        ignore (remove_file env target)
        lift_io (create_file env target)
        bytes_written ← write_body cfg target resp.body 0
        lift_io (flush env target)
        lift_io (sync_all env target)
        pure (record {
          bytes_written = bytes_written;
          content_type = or_octet_stream resp.content_type;
          http_status = resp.status;
        }))

  abbrev pub check_scheme : Text → Io Error (Unit {0})
  check_scheme scheme =
      if text_eq scheme (codes "http") || text_eq scheme (codes "https")
      then pure tt
      else fail (other (unsupported_scheme scheme))

  abbrev pub check_network : FetchConfig → Url → Io Error (Unit {0})
  check_network cfg url = if not cfg.allow_private_network then assert_public_host url else pure tt

  unfoldable pub fetch_to_file :
      FetchConfig → Text → FilePath → List (Text × Text) → ℕ → Io Error FetchOutcome
  unfolding send
  fetch_to_file cfg url target headers timeout = do
    parsed ← of_result (map_err (λ e. other (bad_url e)) (env.parse_url url))
    check_scheme parsed.scheme
    check_network cfg parsed
    of_result (map_err (λ e. other (client_build e)) (env.build_client timeout))
    resp ← lift_err (λ e. other (fetch_failed e)) (send parsed headers timeout)
    save_response cfg target resp
