-- ===== src/Signer/Fallback.antt =====
-- What `ServeHTTP` of packager/signer/signer.go proxies where it does not sign.
use mathlib.Core.Path.{subst}
use mathlib.Core.List.{append-nil}
use amppackager.Prelude.{
  ℕ, ◌-◌, ◌≤◌, ◌≡◌, ◌⊎◌, refl, sym, ◌∙◌, Bool, true, false, not, ◌&&◌, [], ◌∷◌, ◌++◌, Result, ok,
  err, ◌>>=◌, arith, length, ltb, leb, ◌==◌, Bool-cases, inl, inr,
}
use amppackager.Prelude.Int.{ℤ}
use amppackager.Prelude.Text.{Bytes, codes}
use amppackager.Accept.{can_satisfy}
use amppackager.Header.{Header}
use amppackager.Header.Access.{get_joined}
use amppackager.Mux.{validity_map_path}
use amppackager.Versions.{select_version}
use amppackager.Validation.Url.{UrlLib}
use amppackager.Validation.Fetch.{validate_fetch}
use amppackager.Signer.Link.{format_link_header}
use amppackager.Signer.Forward.{Outgoing}
use amppackager.Signer.{
  Reply, http_error, not_modified, proxied, signed, Response, Backend, Signer, SxgParams,
  SignRequest, or_else, drop_error, check, stepped, take, drop, error_body, copied,
  proxy_unconsumed, proxy_partially_consumed, proxy_consumed, stateful_response_headers,
  max_signable_body_length, mi_record_size, any_header, has_variants, signed_header, gen_cert_url,
  date, expires, serve_signed_exchange, consume_and_sign, answered, choose_version, sign_fetched,
  answer_fetched,
}
use amppackager.Signer.Chains.{
  Early, goes_on, ends, chain, ok-not-err, if-split, if-split-on, err-injective, next,
  or_else-Early, drop_error-Early, check-Early,
}

-- What is written of a body: all of it; or, where the backend fails just when the copying begins,
-- all that has come with the text of an error behind it. The copying begins with the body, or
-- behind the bytes that are read to sign it.
pub data Copied (r : Response) : Bytes → Type 0 where
  whole : Copied r r.body.content
  broken :
      r.body.fails ≡ true
      → (r.body.content ≡ []) ⊎ (length r.body.content ≡ max_signable_body_length)
      → Copied r (r.body.content ++ error_body)

-- What a reply has of the backend's response: a proxied one its status and its body, and one
-- that nothing has changed stands for the status 304.
abbrev pub Whole : Response → Reply → Type 0
Whole r (proxied status h body fails) = (status ≡ r.status) × Copied r body
Whole r (signed h bytes) = Unit
Whole r (not_modified h) = r.status ≡ 304
Whole r (http_error status) = Unit

module _ (u : UrlLib) (b : Backend u) (s : Signer u) where
  open u use {Url}

  proxy_consumed-Whole : (h : Header) (r : Response) → Whole r (proxy_consumed h r)
  proxy_consumed-Whole h r = (refl, subst (Copied r) (sym (append-nil r.body.content)) whole)

  empty-Copied :
      (r : Response) (front : Bytes) (b : Bool)
      → r.body.fails ≡ b
      → front ≡ r.body.content
      → (r.body.content ≡ []) ⊎ (length r.body.content ≡ max_signable_body_length)
      → Copied r (front ++ copied [] b)
  empty-Copied r front true f e h = subst (λ x. Copied r (x ++ error_body)) (sym e) (broken f h)
  empty-Copied r front false f e h = subst (Copied r) (sym (append-nil front ∙ e)) whole

  copied-Copied :
      (r : Response) (front back : Bytes)
      → front ++ back ≡ r.body.content
      → (back ≡ [] → (r.body.content ≡ []) ⊎ (length r.body.content ≡ max_signable_body_length))
      → Copied r (front ++ copied back r.body.fails)
  copied-Copied r front [] e h =
      empty-Copied r front r.body.fails refl (sym (append-nil front) ∙ e) (h refl)
  copied-Copied r front (c ∷ cs) e h = subst (Copied r) (sym e) whole

  unconsumed-Whole : (r : Response) → Whole r (proxy_unconsumed r)
  unconsumed-Whole r = (refl, copied-Copied r [] r.body.content refl (λ e. inl e))

  stepped-Early :
      {E : Type 0} (header : E → Header) (r : Response) (x : Bool × E)
      → Early (Whole r) (stepped header r x)
  stepped-Early header r (true, e) = goes_on
  stepped-Early header r (false, e) = ends (proxy_consumed-Whole (header e) r)

  serve_signed_exchange-Whole :
      (r : Response) (p : SxgParams u) (x : Reply)
      → serve_signed_exchange u b s r p ≡ err x
      → Whole r x
  unfolding serve_signed_exchange
  serve_signed_exchange-Whole r p x h =
      let early = λ (k : Header). proxy_consumed-Whole k r in
      let began =
        chain
          (or_else (proxy_consumed r.header r)
            (b.process r.body.content (u.text p.sign_url) p.transform_version))
          _ h in
      next began (or_else-Early (Whole r) (proxy_consumed r.header r) _ (early r.header)) λ tm h1.
        next
          (chain (drop_error (proxy_consumed r.header r) (format_link_header u tm.1.preloads)) _ h1)
          (drop_error-Early (Whole r) (proxy_consumed r.header r) _ (early r.header))
          λ link h2.
            let encode = stepped b.header_of r (
              b.mi_encode_payload mi_record_size (
                b.new_exchange (u.text p.sign_url) r.status (signed_header tm.0 link r.header)
                  tm.0)) in
            next (chain encode _ h2) (stepped-Early b.header_of r _) λ encoded h3.
              let after_encoding = proxy_consumed (b.header_of encoded) r in
              let whole = early (b.header_of encoded) in
              next (chain (or_else after_encoding (gen_cert_url u b s p.sign_url)) _ h3)
                (or_else-Early (Whole r) after_encoding _ whole)
                λ cert_url h4.
                  next (chain (or_else after_encoding (u.parse validity_map_path)) _ h4)
                    (or_else-Early (Whole r) after_encoding _ whole)
                    λ validity h5.
                      let end = expires u b s tm.1.max_age_secs in
                      next (chain (check (not (ltb b.now end)) after_encoding) _ h5)
                        (check-Early (Whole r) _ after_encoding whole)
                        λ fresh h6.
                          let sign = stepped b.header_of r (
                            b.add_signature_header (date u b s) end cert_url
                              (u.resolve_reference p.sign_url validity) encoded) in
                          next (chain sign _ h6) (stepped-Early b.header_of r _) λ exchange h7.
                            let after_signing = proxy_consumed (b.header_of exchange) r in
                            next (chain (or_else after_signing (b.write exchange)) _ h7)
                              (or_else-Early (Whole r) after_signing _
                                (early (b.header_of exchange)))
                              λ bytes h8. ok-not-err h8

  le_both : (m n : ℕ) → m ≤ n → leb n m ≡ true → m ≡ n
  le_both m n l h = ground (arith, l, h)

  take-drop : (n : ℕ) (c : Bytes) → take n c ++ drop n c ≡ c
  take-drop n [] = refl
  take-drop n (c ∷ cs) = ground (arith, take-drop (n - 1) cs)

  drop-nil : (n : ℕ) (c : Bytes) → drop n c ≡ [] → length c ≤ n
  drop-nil n [] h = omega arith
  drop-nil n (c ∷ cs) h = ground (arith, h, drop-nil (n - 1) cs)

  partially-Whole :
      (r : Response)
      → leb max_signable_body_length (length r.body.content) ≡ true
      → Whole r (proxy_partially_consumed r)
  partially-Whole r h = (
    refl,
    copied-Copied r (take max_signable_body_length r.body.content)
        (drop max_signable_body_length r.body.content)
        (take-drop max_signable_body_length r.body.content)
        (λ e. inr (le_both _ _ (drop-nil max_signable_body_length r.body.content e) h)),
  )

  consume_and_sign-Whole :
      (r : Response) (p : SxgParams u) (x : Reply) → consume_and_sign u b s r p ≡ err x → Whole r x
  unfolding consume_and_sign
  consume_and_sign-Whole r p x h =
      if-split-on (leb max_signable_body_length (length r.body.content)) _ _ _ h
        (λ q e. subst (Whole r) (err-injective e) (partially-Whole r q))
        (λ q e.
          if-split r.body.fails _ _ _ e (λ f. subst (Whole r) (err-injective f) tt)
            (λ f. serve_signed_exchange-Whole r p x f))

  sign_fetched-Whole :
      (flag : Bool) (h : Header) (r : Response) (p : SxgParams u) (x : Reply)
      → sign_fetched u b s flag h r p ≡ err x
      → Whole r x
  unfolding sign_fetched
  sign_fetched-Whole flag request r p x h =
      let unsigned = proxy_unconsumed r in
      let validated =
        validate_fetch b.cachable_response b.parse_media_type request r.status r.header in
      next (chain (drop_error unsigned validated) _ h)
        (drop_error-Early (Whole r) unsigned validated (unconsumed-Whole r))
        λ fit h1.
          let stateful = flag && any_header r.header stateful_response_headers in
          next (chain (check stateful unsigned) _ h1)
            (check-Early (Whole r) stateful unsigned (unconsumed-Whole r))
            λ stateless h2.
              next (chain (check (has_variants r.header) unsigned) _ h2)
                (check-Early (Whole r) _ unsigned (unconsumed-Whole r))
                λ plain h3. consume_and_sign-Whole r p x h3

  answered-Early :
      (r : Response) (a : Bytes × ℤ) → Early (Whole r) (answered u b s (proxy_unconsumed r) a)
  answered-Early r ([], v) = ends (unconsumed-Whole r)
  answered-Early r (c ∷ cs, v) = goes_on

  version-Early :
      {E : Type 0} (r : Response) (m : Result E ℤ)
      → Early {A = Bytes × ℤ}
          (Whole r)
          (drop_error (proxy_unconsumed r) m >>= λ version. ok ([], version))
  version-Early r (ok v) = goes_on
  version-Early r (err e) = ends (unconsumed-Whole r)

  choose_version-Early :
      (h : Header) (r : Response) → Early (Whole r) (choose_version u b s h (proxy_unconsumed r))
  unfolding choose_version
  choose_version-Early h r = elim (Bool-cases s.require_headers) [
    | inl e ↦ rw e (answered-Early r _)
    | inr e ↦ rw e (version-Early r (select_version []))
  ]

  -- Where `ServeHTTP` neither signs a fetched response nor answers 304, the reply that it proxies
  -- has the response's status and the whole of its body, however far the signing has gone. Only
  -- where the backend breaks off just when the copying begins, the text of an error follows.
  pub answer_fetched-Whole :
      (req : SignRequest) (sign_url : Url) (flag : Bool) (out : Outgoing) (r : Response) (x : Reply)
      → answer_fetched u b s req sign_url flag out r ≡ err x
      → Whole r x
  unfolding answer_fetched
  answer_fetched-Whole req sign_url flag out r x h =
      let unsigned = proxy_unconsumed r in
      next (chain (check (not b.healthy) unsigned) _ h)
        (check-Early (Whole r) _ unsigned (unconsumed-Whole r))
        λ healthy h1.
          next (chain (choose_version u b s req.incoming.header unsigned) _ h1)
            (choose_version-Early req.incoming.header r)
            λ av h2.
              let refused =
                s.require_headers
                && not (
                    can_satisfy b.parse_media_type
                      (get_joined req.incoming.header (codes "Accept"))) in
              next (chain (check refused unsigned) _ h2)
                (check-Early (Whole r) refused unsigned (unconsumed-Whole r))
                λ accepted h3.
                  if-split (r.status == 200) _ _ _ h3
                    (λ e. sign_fetched-Whole flag out.header r _ x e)
                    (λ e.
                      if-split (r.status == 304) _ _ _ e ok-not-err
                        (λ f. subst (Whole r) (err-injective f) (unconsumed-Whole r)))
