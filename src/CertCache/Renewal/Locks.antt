-- ===== src/CertCache/Renewal/Locks.antt =====
-- Where `updateCertIfNecessary` of packager/certcache/certcache.go returns.
use amppackager.Prelude.{
  ℕ, ◌≡◌, ◌↔◌, refl, Bool, true, false, not, ◌&&◌, [], Option, none, some, if◌then◌else◌, leb,
  Option-cases, inl, inr,
}
use amppackager.Prelude.Text.{bytes_eq}
use amppackager.CertCache.Renewal.{
  Chain, cert_renewal_interval, Renewal, Certs, Outcome, returned, stuck, with_world, set_certs,
  set_new_certs, unlock, holding, expiry_of, take_fetched, expired, keep_fetched, renew, by_expiry,
  update_cert_if_necessary, load_new, load_both, reload_cert_if_expired, does_cert_need_reloading,
}

module _ (r : Renewal) where
  open r use {World}

  -- The runs in which new certificates would be set under the lock: an expired certificate gives
  -- way to a waiting one; the CA has answered a new one; a waiting one has an OCSP response, which
  -- is healthy for the present certificate, and the present one has none.
  pub data Sticks (c : Certs r) : Option ℕ → Type 0 where
    pending : (chain : Chain) → c.renewed_certs ≡ some chain → Sticks c none
    fetched :
        (chain : Chain) (d : ℕ)
        → leb cert_renewal_interval d ≡ false
        → c.renewed_certs ≡ none
        → (r.fetch_new_cert c.world).0 ≡ some chain
        → Sticks c (some d)
    switched :
        (chain : Chain) (d : ℕ)
        → leb cert_renewal_interval d ≡ false
        → c.renewed_certs ≡ some chain
        → (r.read_ocsp c.certs c.world).0 ≡ none
        → not (bytes_eq (r.fetch_ocsp [] chain (r.read_ocsp c.certs c.world).1).0 [])
            && r.is_healthy c.certs
                (r.fetch_ocsp [] chain (r.read_ocsp c.certs c.world).1).0
                (r.fetch_ocsp [] chain (r.read_ocsp c.certs c.world).1).1
          ≡ true
        → Sticks c (some d)

  data Decides (P : Type 0) : Outcome r → Type 0 where
    gets_stuck : P → Decides P stuck
    does_return : {c : Certs r} → ¬ P → Decides P (returned c)

  Decides-iff : {P : Type 0} {o : Outcome r} → Decides P o → (o ≡ stuck) ↔ P
  Decides-iff (gets_stuck p) = (λ e. p, λ q. refl)
  Decides-iff (does_return n) = (λ e. cc, λ p. elim (n p) [ ])

  unlock-Decides : {P : Type 0} (o : Outcome r) → Decides P o → Decides P (unlock r o)
  unlock-Decides stuck d = d
  unlock-Decides (returned c) (does_return n) = does_return n

  if-Decides :
      {P : Type 0} (b : Bool) (p q : Outcome r)
      → (b ≡ true → Decides P p)
      → (b ≡ false → Decides P q)
      → Decides P (if b then p else q)
  if-Decides true p q s t = s refl
  if-Decides false p q s t = t refl

  abbrev held : Certs r → Certs r
  held c = record c { renewed_held = true }

  take_fetched-Decides :
      {P : Type 0} (c : Certs r) (got : Option Chain × World)
      → ¬ P
      → Decides P (take_fetched r c got)
  unfolding set_certs
  take_fetched-Decides c (none, w) n = does_return n
  take_fetched-Decides c (some chain, w) n = does_return n

  expired-Decides :
      (c : Certs r) (m : Option Chain)
      → c.renewed_certs ≡ m
      → Decides (Sticks c none) (expired r m (held c))
  unfolding set_new_certs set_certs
  expired-Decides c (some chain) h = gets_stuck (pending chain h)
  expired-Decides c none h =
      take_fetched-Decides (held c) (r.fetch_new_cert c.world)
        (λ s. elim s [ pending chain e ↦ cc ])

  keep_fetched-Decides :
      (c : Certs r) (d : ℕ) (got : Option Chain × World)
      → leb cert_renewal_interval d ≡ false
      → c.renewed_certs ≡ none
      → (r.fetch_new_cert c.world).0 ≡ got.0
      → Decides (Sticks c (some d)) (keep_fetched r (held c) got)
  unfolding set_new_certs
  keep_fetched-Decides c d (none, w) l h e =
      does_return (λ s. elim s [ fetched chain d' q i j ↦ cc | switched chain d' q i j k ↦ cc ])
  keep_fetched-Decides c d (some chain, w) l h e = gets_stuck (fetched chain d l h e)

  renew-Decides :
      (c : Certs r) (d : ℕ) (m : Option Chain)
      → leb cert_renewal_interval d ≡ false
      → c.renewed_certs ≡ m
      → Decides (Sticks c (some d)) (renew r m (held c))
  unfolding set_new_certs set_certs
  renew-Decides c d none l h = keep_fetched-Decides c d (r.fetch_new_cert c.world) l h refl
  renew-Decides c d (some chain) l h = elim (Option-cases (r.read_ocsp c.certs c.world).0) [
    | inl e ↦ rw e (
        if-Decides
          (not (bytes_eq (r.fetch_ocsp [] chain (r.read_ocsp c.certs c.world).1).0 [])
            && r.is_healthy c.certs (r.fetch_ocsp [] chain (r.read_ocsp c.certs c.world).1).0
                (r.fetch_ocsp [] chain (r.read_ocsp c.certs c.world).1).1)
          _ _ (λ q. gets_stuck (switched chain d l h e q))
          (λ q.
            does_return
              (λ s. elim s [ fetched other d' _ i j ↦ cc | switched other d' _ i j k ↦ cc ])))
    | inr (response, e) ↦
        rw e (
          does_return
            (λ s. elim s [ fetched other d' _ i j ↦ cc | switched other d' _ i j k ↦ cc ]))
  ]

  holding-Decides :
      {P : Type 0} (body : Certs r → Outcome r) (c : Certs r)
      → c.renewed_held ≡ false
      → Decides P (body (held c))
      → Decides P (holding r body c)
  holding-Decides body c h s = rw h (unlock-Decides _ s)

  by_expiry-Decides :
      (c : Certs r) (m : Option ℕ) → c.renewed_held ≡ false → Decides (Sticks c m) (by_expiry r c m)
  by_expiry-Decides c none h =
      holding-Decides (λ d. expired r d.renewed_certs d) c h
        (expired-Decides c c.renewed_certs refl)
  by_expiry-Decides c (some d) h =
      if-Decides (leb cert_renewal_interval d) _ _
        (λ q.
          does_return
            (λ s. elim s [ fetched other d' l i j ↦ cc | switched other d' l i j k ↦ cc ]))
        (λ q.
          holding-Decides (λ e. renew r e.renewed_certs e) c h
            (renew-Decides c d c.renewed_certs q refl))

  load_new-Decides :
      {P : Type 0} (c : Certs r) (got : Option Chain × World)
      → c.renewed_held ≡ false
      → ¬ P
      → Decides P (load_new r c got)
  unfolding set_new_certs
  load_new-Decides c (none, w) h n = does_return n
  load_new-Decides c (some chain, w) h n = rw h (does_return n)

  load_both-Decides :
      {P : Type 0} (c : Certs r) (got : Option Chain × World)
      → c.renewed_held ≡ false
      → ¬ P
      → Decides P (load_both r c got)
  unfolding set_certs
  load_both-Decides c (none, w) h n = load_new-Decides c _ h n
  load_both-Decides c (some chain, w) h n =
      load_new-Decides (set_certs r chain (with_world r w c)) _ h n

  reload_cert_if_expired-Decides :
      {P : Type 0} (c : Certs r)
      → c.renewed_held ≡ false
      → ¬ P
      → Decides P (reload_cert_if_expired r c)
  unfolding reload_cert_if_expired
  reload_cert_if_expired-Decides c h n =
      if-Decides (not (does_cert_need_reloading r c)) _ _ (λ q. does_return n)
        (λ q. load_both-Decides c _ h n)

  abbrev pub SticksFetching : Certs r → Type 0
  SticksFetching c = (r.has_fetcher ≡ true) × Sticks c (expiry_of r c.certs (r.now c.world))

  absurd_fetcher : r.has_fetcher ≡ false → ¬ (r.has_fetcher ≡ true)
  absurd_fetcher e f = cc

  Decides-map : {P Q : Type 0} {o : Outcome r} → (P → Q) → (Q → P) → Decides P o → Decides Q o
  Decides-map f g (gets_stuck p) = gets_stuck (f p)
  Decides-map f g (does_return n) = does_return (λ q. n (g q))

  unless-Decides :
      {P : Type 0} (b : Bool) (p q : Outcome r)
      → (b ≡ false → Decides P p)
      → (b ≡ true → Decides P q)
      → Decides P (if not b then p else q)
  unless-Decides true p q s t = t refl
  unless-Decides false p q s t = s refl

  update_cert-Decides :
      (c : Certs r)
      → c.renewed_held ≡ false
      → Decides (SticksFetching c) (update_cert_if_necessary r c)
  unfolding update_cert_if_necessary
  update_cert-Decides c h =
      unless-Decides r.has_fetcher _ _
        (λ e. reload_cert_if_expired-Decides c h (λ s. absurd_fetcher e s.0))
        (λ e. Decides-map (λ s. (e, s)) (λ s. s.1) (by_expiry-Decides c _ h))

  -- From a state in which nobody holds the lock of the new certificates, `updateCertIfNecessary`
  -- never returns exactly if it fetches certificates itself and one of three things happens: an
  -- expired certificate has a waiting one to give way to; the CA answers a new certificate; or a
  -- waiting one is to be taken for its OCSP response.
  pub update_cert_if_necessary-stuck :
      (c : Certs r)
      → c.renewed_held ≡ false
      → (update_cert_if_necessary r c ≡ stuck) ↔ SticksFetching c
  update_cert_if_necessary-stuck c h = Decides-iff (update_cert-Decides c h)
