-- ===== src/CertCache/Renewal.antt =====
-- packager/certcache/certcache.go: the renewal of certificates. A slice of certificates is nil or
-- has a first one (`Chain`). The clock, the CA, the files with certificates, and the OCSP response
-- with its health are parameters. `renewed_held` tells that `renewedCertsMu` is held, and a second
-- `Lock` on it never returns (`stuck`).
pub mod Locks
use amppackager.Prelude.{
  ℕ, ◌-◌, ◌*◌, Bool, true, false, not, ◌&&◌, ◌||◌, List, [], ◌∷◌, Option, none, some, Result, ok,
  err, ltb, leb, if◌then◌else◌,
}
use amppackager.Prelude.Text.{Bytes, bytes_eq}
use amppackager.CertCache.Fetch.{Certificate}

abbrev pub Chain : Type 0
Chain = Certificate × List Certificate

abbrev pub cert_renewal_interval : ℕ
cert_renewal_interval = 8 * 24 * 3600 * 1000000000

-- `util.GetDurationToExpiry`; `none` is an error.
unfoldable pub get_duration_to_expiry : Certificate → ℕ → Option ℕ
get_duration_to_expiry c deadline =
    if ltb deadline c.not_before
    then none
    else if ltb c.not_after deadline
    then none
    else some (c.not_after - deadline)

pub record Renewal : Type 1 where
  pub World : Type 0
  pub now : World → ℕ
  -- `util.CertName`
  pub cert_name : Certificate → Bytes
  pub has_fetcher : Bool
  -- `certFetcher.FetchNewCert`
  pub fetch_new_cert : World → Option Chain × World
  -- `certloader.WriteCertsToFile` and `certloader.LoadAndValidateCertsFromFile`, for the file of
  -- the certificates (`false`) and of the new ones; an error of the first is logged.
  pub write_certs : Bool → Chain → World → World
  pub load_certs : Bool → World → Option Chain × World
  -- `certloader.RemoveFile`
  pub remove_new_cert_file : World → World
  pub remove_ocsp_file : World → World
  -- `readOCSP`, which answers `none` for its error.
  pub read_ocsp : Option Chain → World → Option Bytes × World
  -- `fetchOCSP` for a chain, and `isHealthy` of what it answers, which is about the present one.
  pub fetch_ocsp : Bytes → Chain → World → Bytes × World
  pub is_healthy : Option Chain → Bytes → World → Bool

module _ (r : Renewal) where
  open r use {World}

  pub record Certs : Type 0 where
    pub certs : Option Chain
    pub cert_name : Bytes
    pub renewed_certs : Option Chain
    pub renewed_cert_name : Bytes
    pub renewed_held : Bool
    pub world : World

  pub data Outcome : Type 0 where
    returned : Certs → Outcome
    stuck : Outcome

  abbrev pub with_world : World → Certs → Certs
  with_world w c = record c { world = w }

  -- `setCerts`
  unfoldable pub set_certs : Chain → Certs → Certs
  set_certs chain c = record c {
    certs = some chain;
    cert_name = r.cert_name chain.0;
    world = r.remove_ocsp_file (r.write_certs false chain c.world);
  }

  abbrev pub renewed_as : Option Chain → Certs → Certs
  renewed_as none c = record c {
    renewed_certs = none;
    renewed_cert_name = [];
    world = r.remove_new_cert_file c.world;
  }
  renewed_as (some chain) c = record c {
    renewed_certs = some chain;
    renewed_cert_name = r.cert_name chain.0;
    world = r.write_certs true chain c.world;
  }

  -- `setNewCerts`
  unfoldable pub set_new_certs : Option Chain → Certs → Outcome
  set_new_certs new c = if c.renewed_held then stuck else returned (renewed_as new c)

  -- `renewedCertsMu.Lock()` with the deferred `Unlock`, around what follows.
  abbrev pub unlock : Outcome → Outcome
  unlock (returned c) = returned (record c { renewed_held = false })
  unlock stuck = stuck

  abbrev pub holding : (Certs → Outcome) → Certs → Outcome
  holding body c =
      if c.renewed_held then stuck else unlock (body (record c { renewed_held = true }))

  abbrev pub expiry_of : Option Chain → ℕ → Option ℕ
  expiry_of none now = none
  expiry_of (some chain) now = get_duration_to_expiry chain.0 now

  -- The certificate has expired, and none is waiting.
  abbrev pub take_fetched : Certs → Option Chain × World → Outcome
  take_fetched c (none, w) = returned (with_world w c)
  take_fetched c (some chain, w) = returned (set_certs chain (with_world w c))

  abbrev pub expired : Option Chain → Certs → Outcome
  expired (some chain) c = set_new_certs none (set_certs chain c)
  expired none c = take_fetched c (r.fetch_new_cert c.world)

  -- The certificate is close to its expiry, and none is waiting.
  abbrev pub keep_fetched : Certs → Option Chain × World → Outcome
  keep_fetched c (none, w) = returned (with_world w c)
  keep_fetched c (some chain, w) = set_new_certs (some chain) (with_world w c)

  -- One is waiting: it is taken when it has an OCSP response and the present one has none.
  abbrev pub switch : Chain → Certs → Bytes × World → Outcome
  switch chain c (response, w) =
      if not (bytes_eq response []) && r.is_healthy c.certs response w
      then set_new_certs none (set_certs chain (with_world w c))
      else returned (with_world w c)

  abbrev pub try_switch : Chain → Certs → Option Bytes × World → Outcome
  try_switch chain c (some response, w) = returned (with_world w c)
  try_switch chain c (none, w) = switch chain (with_world w c) (r.fetch_ocsp [] chain w)

  abbrev pub renew : Option Chain → Certs → Outcome
  renew none c = keep_fetched c (r.fetch_new_cert c.world)
  renew (some chain) c = try_switch chain c (r.read_ocsp c.certs c.world)

  -- `doesCertNeedReloading`
  unfoldable pub does_cert_need_reloading : Certs → Bool
  unfolding get_duration_to_expiry
  does_cert_need_reloading c = elim (expiry_of c.certs (r.now c.world)) [
    | none ↦ true
    | some d ↦ ltb d cert_renewal_interval
  ]

  abbrev pub load_new : Certs → Option Chain × World → Outcome
  load_new c (none, w) = returned (with_world w c)
  load_new c (some chain, w) = set_new_certs (some chain) (with_world w c)

  abbrev pub load_both : Certs → Option Chain × World → Outcome
  load_both c (none, w) = load_new c (r.load_certs true w)
  load_both c (some chain, w) =
      let c' = set_certs chain (with_world w c) in load_new c' (r.load_certs true c'.world)

  -- `reloadCertIfExpired`
  unfoldable pub reload_cert_if_expired : Certs → Outcome
  unfolding does_cert_need_reloading set_certs set_new_certs
  reload_cert_if_expired c =
      if not (does_cert_need_reloading c)
      then returned c
      else load_both c (r.load_certs false c.world)

  abbrev pub by_expiry : Certs → Option ℕ → Outcome
  by_expiry c none = holding (λ d. expired d.renewed_certs d) c
  by_expiry c (some d) =
      if leb cert_renewal_interval d then returned c else holding (λ d. renew d.renewed_certs d) c

  -- `updateCertIfNecessary`
  unfoldable pub update_cert_if_necessary : Certs → Outcome
  unfolding reload_cert_if_expired set_certs set_new_certs get_duration_to_expiry
  update_cert_if_necessary c =
      if not r.has_fetcher
      then reload_cert_if_expired c
      else by_expiry c (expiry_of c.certs (r.now c.world))
