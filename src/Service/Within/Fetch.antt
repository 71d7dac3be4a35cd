-- ===== src/Service/Within/Fetch.antt =====
-- What a download may touch.
use scriptorium.Fetch.Address.{is_disallowed}
use scriptorium.World.Fs.{write_all, create_dir_all, remove_file, create_file, flush, sync_all}
use scriptorium.World.{of_result, map_err, lift_err, ◌>>=◌, fail, lift_io, ◌>>◌, Io, pure, ignore}
use scriptorium.Error.{
  Result, ok, other, bad_url, err, fetch_body, client_build, dns_failed, fetch_failed,
  body_exceeded, io, Error, url_has_no_host, non_success_status, disallowed_literal,
  unsupported_scheme,
}
use scriptorium.World.Trace.{
  Makes, Makes-bind, Makes-result, Makes-then, Makes-if, Makes-lift, Makes-one, Makes-same,
  Adds-one,
}
use scriptorium.Base.{
  List, ℕ, Option-cases, inr, ◌∷◌, arith, ◌+◌, length, inl, ◌%◌, ltb, [], not, if◌then◌else◌, ◌||◌,
}
use scriptorium.Text.{Text, text_eq, codes}
use scriptorium.Service.Within.{IsInside, IsBelow, IsInside-IsBelow, IsWithin, parent-IsBelow}
use scriptorium.Fetch.{
  FetchConfig, check_host, assert_public_host, write_body, save_response, fetch_to_file, send,
  lookup_host, check_network, check_scheme, u64_mod, some_addrs, is_success, port_or_80,
  create_parent,
}
use scriptorium.World.Calls.{
  Env, Call, looked_up, sent_request, Url, HttpResponse, synced, Bytes, wrote, created_dir_all,
  removed_file, created_file, flushed,
}
use scriptorium.FilePath.{FilePath, parent}

-- Requests below the directory, and those of the network.
abbrev pub IsFetching : FilePath → Call → Type 0
IsFetching dir (looked_up host port) = Unit
IsFetching dir (sent_request url headers seconds) = Unit
IsFetching dir (synced p) = IsBelow dir p
IsFetching dir call = IsWithin dir call

module _ (env : Env) (cfg : FetchConfig) (dir target : FilePath)
    (inside : IsInside dir target) where
  below : IsBelow dir target
  below = IsInside-IsBelow dir target inside

  abbrev P : Call → Type 0
  P = IsFetching dir

  lookup_host-Makes : (host : Text) (port : ℕ) → Makes P (lookup_host env host port)
  unfolding lookup_host
  lookup_host-Makes host port = Makes-one (looked_up host port) _ tt

  resolved : Text → ℕ → Io Error (Unit {0})
  resolved host port = lift_err (λ e. other (dns_failed e)) (lookup_host env host port) >>= λ addrs.
      of_result (some_addrs host addrs)

  resolved-Makes : (host : Text) (port : ℕ) → Makes P (resolved host port)
  unfolding resolved
  resolved-Makes host port =
      Makes-bind (lift_err (λ e. other (dns_failed e)) (lookup_host env host port)) _
        (Makes-lift (λ e. other (dns_failed e)) (lookup_host env host port)
          (lookup_host-Makes host port))
        (λ addrs. Makes-result (some_addrs host addrs))

  check_host-Makes : (host : Text) (port : ℕ) → Makes P (check_host env host port)
  unfolding check_host resolved
  check_host-Makes host port = elim (Option-cases (env.parse_ip host)) [
    | inr (ip, p) ↦
        Makes-same (check_host env host port)
          (if is_disallowed ip then fail (other (disallowed_literal host)) else pure tt)
          (λ h. ground (arith, p))
          (Makes-if (is_disallowed ip) (fail (other (disallowed_literal host))) (pure tt)
            (Makes-result (err (other (disallowed_literal host)))) (Makes-result (ok tt)))
    | inl p ↦
        Makes-same (check_host env host port) (resolved host port) (λ h. ground (arith, p))
          (resolved-Makes host port)
  ]

  assert_public_host-Makes : (url : Url) → Makes P (assert_public_host env url)
  unfolding assert_public_host
  assert_public_host-Makes url = elim (Option-cases url.host) [
    | inl p ↦
        Makes-same (assert_public_host env url) (fail (other url_has_no_host))
          (λ h. ground (arith, p)) (Makes-result (err (other url_has_no_host)))
    | inr (host, p) ↦
        Makes-same (assert_public_host env url) (check_host env host (port_or_80 url.port))
          (λ h. ground (arith, p)) (check_host-Makes host (port_or_80 url.port))
  ]

  check_network-Makes : (url : Url) → Makes P (check_network env cfg url)
  check_network-Makes url =
      Makes-if (not cfg.allow_private_network) (assert_public_host env url) (pure tt)
        (assert_public_host-Makes url) (Makes-result (ok tt))

  write_body-Makes :
      (body : List (Result Text Bytes)) (n : ℕ) → Makes P (write_body env cfg target body n)
  unfolding write_body
  write_body-Makes [] n = Makes-result (ok n)
  write_body-Makes (err e ∷ rest) n = Makes-result (err (other (fetch_body e)))
  write_body-Makes (ok chunk ∷ rest) n =
      let n' = (n + length chunk) % u64_mod in
      Makes-if (ltb cfg.max_body_bytes n') (fail (other (body_exceeded n' cfg.max_body_bytes)))
        (lift_io (write_all env target chunk) >> write_body env cfg target rest n')
        (Makes-result (err (other (body_exceeded n' cfg.max_body_bytes))))
        (Makes-then (lift_io (write_all env target chunk)) (write_body env cfg target rest n')
          (Makes-lift io (write_all env target chunk) (Makes-one (wrote target chunk) _ below))
          (write_body-Makes rest n'))

  save_response-Makes : (resp : HttpResponse) → Makes P (save_response env cfg target resp)
  unfolding save_response
  save_response-Makes resp =
      let (up, e, above) = parent-IsBelow dir target inside in
      Makes-if (not (is_success resp.status)) (fail (other (non_success_status resp.status))) _
        (Makes-result (err (other (non_success_status resp.status))))
        (Makes-then (create_parent env (parent target)) _
          (Makes-same (create_parent env (parent target)) (lift_io (create_dir_all env up))
            (λ h. ground (arith, e))
            (Makes-lift io (create_dir_all env up) (Makes-one (created_dir_all up) _ above)))
          (Makes-then (ignore (remove_file env target)) _
            (record { makes = λ h. Adds-one (removed_file target) h below })
            (Makes-then (lift_io (create_file env target)) _
              (Makes-lift io (create_file env target) (Makes-one (created_file target) _ below))
              (Makes-bind (write_body env cfg target resp.body 0) _ (write_body-Makes resp.body 0)
                (λ written.
                  Makes-then (lift_io (flush env target)) _
                    (Makes-lift io (flush env target) (Makes-one (flushed target) _ below))
                    (Makes-then (lift_io (sync_all env target)) _
                      (Makes-lift io (sync_all env target) (Makes-one (synced target) _ below))
                      (Makes-result _)))))))

  check_scheme-Makes : (scheme : Text) → Makes P (check_scheme env scheme)
  check_scheme-Makes scheme =
      Makes-if (text_eq scheme (codes "http") || text_eq scheme (codes "https")) (pure tt)
        (fail (other (unsupported_scheme scheme))) (Makes-result (ok tt))
        (Makes-result (err (other (unsupported_scheme scheme))))

  pub fetch_to_file-Makes :
      (url : Text) (headers : List (Text × Text)) (seconds : ℕ)
      → Makes P (fetch_to_file env cfg url target headers seconds)
  unfolding fetch_to_file send
  fetch_to_file-Makes url headers seconds =
      Makes-bind (of_result (map_err (λ e. other (bad_url e)) (env.parse_url url))) _
        (Makes-result (map_err (λ e. other (bad_url e)) (env.parse_url url)))
        (λ parsed.
          Makes-then (check_scheme env parsed.scheme) _ (check_scheme-Makes parsed.scheme) (
            Makes-then (check_network env cfg parsed) _ (check_network-Makes parsed) (
              Makes-then
                (of_result (map_err (λ e. other (client_build e)) (env.build_client seconds))) _
                (Makes-result (map_err (λ e. other (client_build e)) (env.build_client seconds)))
                (Makes-bind
                  (lift_err (λ e. other (fetch_failed e)) (send env parsed headers seconds)) _
                  (Makes-lift (λ e. other (fetch_failed e)) (send env parsed headers seconds)
                    (Makes-one (sent_request parsed headers seconds) _ tt))
                  (λ resp. save_response-Makes resp)))))
