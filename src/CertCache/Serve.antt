-- ===== src/CertCache/Serve.antt =====
-- packager/certcache/certcache.go: the handler that serves the certificate chain, and `IsHealthy`;
-- packager/healthz/healthz.go: the handler that reports it. The serialized chain, `strconv.Itoa`
-- and the texts of errors are parameters; `http.ServeContent` is left at the content.
pub mod Timely
use amppackager.Prelude.{
  ℕ, ◌-◌, ◌*◌, ◌/◌, Bool, true, false, List, [], ◌∷◌, ◌++◌, Option, none, some, Result, ok, err,
  ◌>>=◌, leb, if◌then◌else◌,
}
use amppackager.Prelude.Text.{Bytes, codes, bytes_eq}
use amppackager.CertCache.{
  Ocsp, OcspResponse, OcspError, HealthError, unhealthy, ocsp_midpoint, is_healthy, read_ocsp,
}

pub record ChainServer : Type 1 where
  pub ocsp : Ocsp
  pub cert_name : Bytes
  pub itoa : ℕ → Bytes
  -- `certChain.Write` on the certificates and an OCSP response.
  pub write_chain : Bytes → Option Bytes
  pub error_text : OcspError → Bytes

pub data ServeError : Type 0 where
  reading_ocsp : OcspError → ServeError
  invalid_ocsp building_chain : ServeError

-- The answer with what `Cache-Control` says; an error has the headers set before it.
pub data ChainReply : Type 0 where
  not_found : ChainReply
  internal_error : ServeError → List (Bytes × Bytes) → ChainReply
  content : List (Bytes × Bytes) → Bytes → ChainReply

abbrev second : ℕ
second = 1000000000

-- The seconds from one time to another, none if that is over.
unfoldable pub seconds_until : ℕ → ℕ → ℕ
seconds_until midpoint now = (midpoint - now) / second

abbrev pub type_header : List (Bytes × Bytes)
type_header = (codes "Content-Type", codes "application/cert-chain+cbor") ∷ []

module _ (s : ChainServer) where
  abbrev pub W : Type 0
  W = s.ocsp.World

  abbrev pub chain_headers : ℕ → List (Bytes × Bytes)
  chain_headers age =
      (codes "Content-Type", codes "application/cert-chain+cbor")
      ∷ (codes "Cache-Control", codes "public, max-age=" ++ s.itoa age)
      ∷ (codes "X-Content-Type-Options", codes "nosniff")
      ∷ []

  -- `createCertChainCBOR`
  abbrev pub with_chain : ℕ → Option Bytes → ChainReply
  with_chain age none = internal_error building_chain (chain_headers age)
  with_chain age (some cbor) = content (chain_headers age) cbor

  abbrev pub with_parsed : Bytes → ℕ → Option OcspResponse → ChainReply
  with_parsed response now none = internal_error invalid_ocsp type_header
  with_parsed response now (some r) =
      with_chain (seconds_until (ocsp_midpoint r) now) (s.write_chain response)

  abbrev pub with_ocsp : ℕ → Result OcspError (Bytes × Option ℕ) → ChainReply
  with_ocsp now (err e) = internal_error (reading_ocsp e) type_header
  with_ocsp now (ok (response, after)) = with_parsed response now (s.ocsp.parse_response response)

  -- `ServeHTTP` for the name in the URL, with `ocspUpdateAfter` and how it is left.
  unfoldable pub serve_chain : Bytes → ℕ → W → (ChainReply × ℕ) × W
  unfolding read_ocsp seconds_until ocsp_midpoint
  serve_chain name update_after w =
      let ((got, update_after'), w') = read_ocsp s.ocsp false update_after w in
      if bytes_eq name s.cert_name
      then ((with_ocsp (s.ocsp.now w') got, update_after'), w')
      else ((not_found, update_after), w)

  abbrev pub health_of : ℕ → Result OcspError (Bytes × Option ℕ) → Result OcspError (Unit {0})
  health_of now (err e) = err e
  health_of now (ok (response, after)) = elim (is_healthy s.ocsp response now) [
    | ok unit ↦ ok unit
    | err e ↦ err (unhealthy e)
  ]

  -- `IsHealthy`
  unfoldable pub check_health : ℕ → W → Result OcspError (Unit {0})
  unfolding read_ocsp is_healthy
  check_health update_after w =
      let ((got, update_after'), w') = read_ocsp s.ocsp false update_after w in
      health_of (s.ocsp.now w') got

  abbrev pub health_reply : Result OcspError (Unit {0}) → ℕ × Bytes
  health_reply (ok unit) = (200, codes "ok")
  health_reply (err e) = (500, codes "not healthy: " ++ s.error_text e)

  -- `Healthz.ServeHTTP`
  unfoldable pub serve_healthz : ℕ → W → ℕ × Bytes
  unfolding check_health
  serve_healthz update_after w = health_reply (check_health update_after w)
