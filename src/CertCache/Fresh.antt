-- ===== src/CertCache/Fresh.antt =====
-- What `readOCSP` of packager/certcache/certcache.go answers.
use amppackager.Prelude.{
  ℕ, zero, suc, ◌≡◌, ◌≢◌, refl, Bool, true, false, [], ◌∷◌, Option, none, some, Result, ok, err,
  arith, ◌==◌, if◌then◌else◌, Bool-cases, Result-cases, inl, inr,
}
use amppackager.Prelude.Text.{Bytes}
use amppackager.CertCache.{
  Ocsp, OcspError, HealthError, is_healthy, should_update_ocsp, unless_left, checked, read_result,
  read_ocsp_helper, try_read, read_ocsp,
}

module _ (o : Ocsp) where
  open o use {World}

  -- A response that is there and healthy in a state of the world.
  abbrev pub WasHealthy : World → Bytes → Type 0
  WasHealthy w response = (response ≢ []) × (is_healthy o response (o.now w) ≡ ok tt)

  -- Nothing, where tries are left, or a healthy response.
  data IsRead (exhausted : Bool) (w : World) : Result OcspError (Bytes × Option ℕ) → Type 0 where
    failed : {e : OcspError} → IsRead exhausted w (err e)
    nothing : exhausted ≡ false → IsRead exhausted w (ok ([], none))
    something : {b : Bytes} {after : Option ℕ} → WasHealthy w b → IsRead exhausted w (ok (b, after))

  unless_left-IsRead :
      (exhausted : Bool) (e : OcspError) (w : World)
      → IsRead exhausted w (unless_left o exhausted e)
  unless_left-IsRead true e w = failed
  unless_left-IsRead false e w = nothing refl

  checked-IsRead :
      (exhausted : Bool) (b : Bytes) (after : Option ℕ) (h : Result HealthError (Unit {0}))
      (w : World)
      → b ≢ []
      → is_healthy o b (o.now w) ≡ h
      → IsRead exhausted w (checked o exhausted b after h)
  checked-IsRead exhausted b after (err e) w ne h = unless_left-IsRead exhausted _ w
  checked-IsRead exhausted b after (ok unit) w ne h = something (ne, h)

  read_result-IsRead :
      (exhausted : Bool) (response : Option Bytes) (after : Option ℕ) (w : World)
      → IsRead exhausted w (read_result o exhausted response after (o.now w))
  read_result-IsRead exhausted none after w = unless_left-IsRead exhausted _ w
  read_result-IsRead exhausted (some []) after w = unless_left-IsRead exhausted _ w
  read_result-IsRead exhausted (some (c ∷ cs)) after w =
      checked-IsRead exhausted (c ∷ cs) after _ w (λ e. cc) refl

  read_ocsp_helper-IsRead :
      (num_tries : ℕ) (exhausted : Bool) (w : World)
      → IsRead exhausted
          (read_ocsp_helper o num_tries exhausted w).1
          (read_ocsp_helper o num_tries exhausted w).0
  unfolding read_ocsp_helper
  read_ocsp_helper-IsRead num_tries exhausted w = read_result-IsRead exhausted _ _ _

  -- The answer of the loop, in the state that it leaves.
  abbrev pub Served : World → Result OcspError (Bytes × Option ℕ) → Type 0
  Served w (ok (response, after)) = WasHealthy w response
  Served w (err e) = Unit

  IsRead-last :
      (exhausted : Bool) (got : Bytes × Option ℕ) (w : World)
      → IsRead exhausted w (ok got)
      → exhausted ≡ true
      → WasHealthy w got.0
  IsRead-last true got w (nothing e) h = absurd (cc)
  IsRead-last false got w (nothing e) h = absurd (cc)
  IsRead-last exhausted got w (something k) h = k

  IsRead-fresh :
      (exhausted : Bool) (update_after : ℕ) (got : Bytes × Option ℕ) (w : World)
      → IsRead exhausted w (ok got)
      → should_update_ocsp o update_after got.0 (o.now w) ≡ false
      → WasHealthy w got.0
  unfolding should_update_ocsp
  IsRead-fresh exhausted update_after got w (nothing e) h = absurd (cc)
  IsRead-fresh exhausted update_after got w (something k) h = k

  -- Behind the last try the loop does not sleep.
  not_slept :
      (left wait : ℕ) (w : World) (b : Bytes)
      → left ≡ 0
      → WasHealthy w b
      → WasHealthy (if left == 0 then w else o.sleep wait w) b
  not_slept zero wait w b e h = h
  not_slept (suc left) wait w b e h = absurd (ground (arith, e))

  try_read-Served :
      (update_after left num_tries wait : ℕ) (last : Bytes × Option ℕ) (w : World)
      → (left ≡ 0 → WasHealthy w last.0)
      → Served
          (try_read o update_after left num_tries wait last w).1
          (try_read o update_after left num_tries wait last w).0
  unfolding try_read
  try_read-Served update_after zero num_tries wait last w h = h refl
  try_read-Served update_after (suc left) num_tries wait last w h =
      let helper = read_ocsp_helper o num_tries (left == 0) w in
      let known = read_ocsp_helper-IsRead num_tries (left == 0) w in
      elim (Result-cases helper.0) [
        | inr (why, e) ↦ rw (e, try_read) tt
        | inl (got, e) ↦
            elim (Bool-cases (should_update_ocsp o update_after got.0 (o.now helper.1))) [
              | inl again ↦
                  rw (e, try_read)
                    (rw again (
                      try_read-Served update_after left (suc num_tries) _ got _ (λ none_left.
                        not_slept left wait helper.1 got.0 none_left (
                          IsRead-last (left == 0) got helper.1 (rw e at known)
                            (ground (arith, none_left))))))
              | inr enough ↦
                  rw (e, try_read)
                    (rw enough
                      (IsRead-fresh (left == 0) update_after got helper.1 (rw e at known) enough))
            ]
      ]

  -- A response that `readOCSP` returns is there and healthy by the clock as the last read leaves it,
  -- whatever the file and the server do: the loop never runs out of its tries with nothing in hand.
  pub read_ocsp-Served :
      (retries : Bool) (update_after : ℕ) (w : World)
      → Served (read_ocsp o retries update_after w).1 (read_ocsp o retries update_after w).0.0
  unfolding read_ocsp
  read_ocsp-Served true update_after w =
      try_read-Served update_after 10 0 1 ([], none) w (λ e. absurd (cc))
  read_ocsp-Served false update_after w =
      try_read-Served update_after 1 0 1 ([], none) w (λ e. absurd (cc))
