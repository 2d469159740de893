-- ===== src/CertCache/Serve/Timely.antt =====
-- What the handlers of packager/certcache/certcache.go and packager/healthz/healthz.go answer.
use amppackager.Prelude.{
  ℕ, ◌+◌, ◌*◌, ◌≤◌, ◌≡◌, ◌≢◌, ◌⊎◌, refl, false, List, [], Option, none, some, Result, ok, err,
  arith, leb, Bool-cases, inl, inr,
}
use amppackager.Prelude.Text.{Bytes, bytes_eq}
use amppackager.CertCache.{OcspResponse, OcspError, ocsp_midpoint, is_healthy, read_ocsp}
use amppackager.CertCache.Fresh.{Served, WasHealthy, read_ocsp-Served}
use amppackager.CertCache.Serve.{
  ChainServer, ServeError, ChainReply, not_found, internal_error, content, seconds_until,
  chain_headers, with_chain, with_parsed, with_ocsp, serve_chain, W,
}

module _ (s : ChainServer) where
  -- A chain that is served has an OCSP response that is there and healthy now, and is kept by
  -- caches until the midpoint of that response at most.
  pub data IsTimely (now : ℕ) : ChainReply → Type 0 where
    other_name : IsTimely now not_found
    failed : {e : ServeError} {h : List (Bytes × Bytes)} → IsTimely now (internal_error e h)
    timely :
        (response : Bytes) (r : OcspResponse) (age : ℕ) {cbor : Bytes}
        → response ≢ []
        → is_healthy s.ocsp response now ≡ ok tt
        → s.ocsp.parse_response response ≡ some r
        → s.write_chain response ≡ some cbor
        → (now + age * 1000000000 ≤ ocsp_midpoint r) ⊎ (age ≡ 0)
        → IsTimely now (content (chain_headers s age) cbor)

  seconds_until_bound :
      (midpoint now : ℕ)
      → (now + seconds_until midpoint now * 1000000000 ≤ midpoint)
        ⊎ (seconds_until midpoint now ≡ 0)
  unfolding seconds_until
  seconds_until_bound midpoint now = elim (Bool-cases (leb now midpoint)) [
    | inl e ↦ inl (ground (arith, e))
    | inr e ↦ inr (ground (arith, e))
  ]

  module _ (w : W s) where
    abbrev Now : ChainReply → Type 0
    Now = IsTimely (s.ocsp.now w)

    with_chain-IsTimely :
        (response : Bytes) (r : OcspResponse) (m : Option Bytes)
        → WasHealthy s.ocsp w response
        → s.ocsp.parse_response response ≡ some r
        → s.write_chain response ≡ m
        → Now (with_chain s (seconds_until (ocsp_midpoint r) (s.ocsp.now w)) m)
    with_chain-IsTimely response r none h p e = failed
    with_chain-IsTimely response r (some cbor) h p e =
        timely response r _ h.0 h.1 p e (seconds_until_bound (ocsp_midpoint r) (s.ocsp.now w))

    with_parsed-IsTimely :
        (response : Bytes) (m : Option OcspResponse)
        → WasHealthy s.ocsp w response
        → s.ocsp.parse_response response ≡ m
        → Now (with_parsed s response (s.ocsp.now w) m)
    with_parsed-IsTimely response none h p = failed
    with_parsed-IsTimely response (some r) h p = with_chain-IsTimely response r _ h p refl

    with_ocsp-IsTimely :
        (got : Result OcspError (Bytes × Option ℕ))
        → Served s.ocsp w got
        → Now (with_ocsp s (s.ocsp.now w) got)
    with_ocsp-IsTimely (err e) h = failed
    with_ocsp-IsTimely (ok (response, after)) h = with_parsed-IsTimely response _ h refl

  -- Whatever the file and the OCSP server do: a chain that is served goes with an OCSP
  -- response that is healthy by the clock as the handler leaves it, and the answer may be cached
  -- until the midpoint of that response's validity, or not at all.
  pub serve_chain-IsTimely :
      (name : Bytes) (update_after : ℕ) (w : W s)
      → IsTimely
          (s.ocsp.now (serve_chain s name update_after w).1)
          (serve_chain s name update_after w).0.0
  unfolding serve_chain
  serve_chain-IsTimely name update_after w = elim (Bool-cases (bytes_eq name s.cert_name)) [
    | inl e ↦ rw e (
        with_ocsp-IsTimely (read_ocsp s.ocsp false update_after w).1
          (read_ocsp s.ocsp false update_after w).0.0
          (read_ocsp-Served s.ocsp false update_after w))
    | inr e ↦ rw e other_name
  ]
