-- ===== src/CertCache.antt =====
-- packager/certcache/certcache.go: when an OCSP response is fresh, when it is fetched again, and
-- the retries of `readOCSP`. The world of the cache (its file and the OCSP server) with the clock,
-- and the OCSP parser for the certificate and its issuer, are parameters (`Ocsp`). Times are
-- nanoseconds.
pub mod Fresh
pub mod Fetch
pub mod Storage
pub mod Renewal
pub mod Serve
use amppackager.Prelude.{
  ℕ, zero, suc, ◌+◌, ◌-◌, ◌*◌, ◌/◌, Bool, true, false, not, ◌||◌, List, [], ◌∷◌, Option, none, some,
  Result, ok, err, ltb, leb, ◌==◌, if◌then◌else◌,
}
use amppackager.Prelude.Text.{Bytes}

pub record OcspResponse : Type 0 where
  pub this_update : ℕ
  pub next_update : ℕ

pub data HealthError : Type 0 where
  not_fetched no_issuer bad_response stale : HealthError

pub data OcspError : Type 0 where
  not_updated missing : OcspError
  unhealthy : HealthError → OcspError

-- `ocspMidpoint`: Go's division of a duration goes towards zero.
unfoldable pub ocsp_midpoint : OcspResponse → ℕ
ocsp_midpoint r =
    if leb r.this_update r.next_update
    then r.this_update + (r.next_update - r.this_update) / 2
    else r.this_update - (r.this_update - r.next_update) / 2

-- `waitForSpecifiedTime`: the next time to wait, in minutes.
unfoldable pub wait_for_specified_time : ℕ → ℕ
wait_for_specified_time wait = if ltb 10 (2 * wait) then 10 else 2 * wait

abbrev pub max_ocsp_tries : ℕ
max_ocsp_tries = 10

pub record Ocsp : Type 1 where
  pub World : Type 0
  pub now : World → ℕ
  pub has_issuer : Bool
  -- `ocsp.ParseResponseForCert` for the certificate and its issuer.
  pub parse_response : Bytes → Option OcspResponse
  -- `ocspFile.Read` with `fetchOCSP` (whose flag tells a retry): `none` for its error, and the
  -- expiry that a fetch has set.
  pub read : Bool → World → (Option Bytes × Option ℕ) × World
  -- `time.Sleep`, in minutes.
  pub sleep : ℕ → World → World

-- A fetch sets the time of the next one.
abbrev pub kept_until : ℕ → Result OcspError (Bytes × Option ℕ) → ℕ
kept_until old (ok (response, some t)) = t
kept_until old (ok (response, none)) = old
kept_until old (err e) = old

module _ (o : Ocsp) where
  open o use {World}

  abbrev parsed_health : Option OcspResponse → ℕ → Result HealthError (Unit {0})
  parsed_health none t = err bad_response
  parsed_health (some r) t = if ltb r.next_update t then err stale else ok tt

  -- `isHealthy` on a response that is there, at a time.
  unfoldable pub is_healthy : Bytes → ℕ → Result HealthError (Unit {0})
  is_healthy response t =
      if not o.has_issuer then err no_issuer else parsed_health (o.parse_response response) t

  abbrev parsed_expired : ℕ → Option OcspResponse → ℕ → Bool
  parsed_expired update_after none t = true
  parsed_expired update_after (some r) t = ltb (ocsp_midpoint r) t || ltb update_after t

  -- `shouldUpdateOCSP`, with the time `ocspUpdateAfter`.
  unfoldable pub should_update_ocsp : ℕ → Bytes → ℕ → Bool
  unfolding ocsp_midpoint
  should_update_ocsp update_after [] t = true
  should_update_ocsp update_after (c ∷ cs) t =
      if not o.has_issuer then false else parsed_expired update_after (o.parse_response (c ∷ cs)) t

  -- An early error, or no response where tries are left.
  abbrev unless_left : Bool → OcspError → Result OcspError (Bytes × Option ℕ)
  unless_left exhausted e = if exhausted then err e else ok ([], none)

  abbrev checked :
      Bool → Bytes → Option ℕ → Result HealthError (Unit {0}) → Result OcspError (Bytes × Option ℕ)
  checked exhausted response after (err e) = unless_left exhausted (unhealthy e)
  checked exhausted response after (ok unit) = ok (response, after)

  abbrev read_result : Bool → Option Bytes → Option ℕ → ℕ → Result OcspError (Bytes × Option ℕ)
  read_result exhausted none after t = unless_left exhausted not_updated
  read_result exhausted (some []) after t = unless_left exhausted missing
  read_result exhausted (some (c ∷ cs)) after t =
      checked exhausted (c ∷ cs) after (is_healthy (c ∷ cs) t)

  -- `readOCSPHelper`
  unfoldable pub read_ocsp_helper : ℕ → Bool → World → Result OcspError (Bytes × Option ℕ) × World
  unfolding is_healthy
  read_ocsp_helper num_tries exhausted w =
      let ((response, after), w') = o.read (ltb 0 num_tries) w in
      (read_result exhausted response after (o.now w'), w')

  -- The loop of `readOCSP`, with the tries that are left.
  unfoldable pub try_read :
      ℕ → ℕ → ℕ → ℕ → Bytes × Option ℕ → World → Result OcspError (Bytes × Option ℕ) × World
  unfolding read_ocsp_helper should_update_ocsp wait_for_specified_time
  try_read update_after zero num_tries wait last w = (ok last, w)
  try_read update_after (suc left) num_tries wait last w =
      let (got, w') = read_ocsp_helper num_tries (left == 0) w in
      elim got [
        | err e ↦ (err e, w')
        | ok (response, after) ↦ elim (should_update_ocsp update_after response (o.now w')) [
          | Bool.false ↦ (ok (response, after), w')
          | Bool.true ↦
              try_read update_after left (suc num_tries)
                (if left == 0 then wait else wait_for_specified_time wait) (response, after)
                (if left == 0 then w' else o.sleep wait w')
        ]
      ]

  -- `readOCSP`: the response with its expiry, and `ocspUpdateAfter` as it is left.
  unfoldable pub read_ocsp : Bool → ℕ → World → (Result OcspError (Bytes × Option ℕ) × ℕ) × World
  unfolding try_read
  read_ocsp retries update_after w =
      let (got, w') =
        try_read update_after (if retries then max_ocsp_tries else 1) 0 1 ([], none) w in
      ((got, kept_until update_after got), w')
