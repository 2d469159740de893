-- ===== src/Signer/Signed.antt =====
-- How `serveSignedExchange` of packager/signer/signer.go makes a signed reply, and how it falls back
-- where the signature would be stale.
use amppackager.Prelude.{
  ◌+◌, ◌*◌, ◌≤◌, ◌<◌, ◌≡◌, refl, sym, ◌∙◌, true, false, [], ◌∷◌, ◌++◌, some, ok, err, >>=-eq-ok,
  ok-injective, length, ltb→lt,
}
use amppackager.Prelude.Int.{pos, ◌≤ℤ◌}
use amppackager.Prelude.Text.{Bytes, codes, lookup}
use amppackager.Mux.{validity_map_path}
use amppackager.CacheTransform.Answer.{format_digits}
use amppackager.Validation.Url.{UrlLib}
use amppackager.Signer.Link.{format_link_header}
use amppackager.Signer.Laws.{date_le, expires_bound, expires_stale, signed_header_lem}
use amppackager.Signer.{
  Reply, proxied, signed, Response, Metadata, Backend, Signer, SxgParams, copy_into, proxy_consumed,
  vary_header, mi_record_size, signed_header, day, gen_cert_url, date, expires, sxg_header,
  serve_signed_exchange,
}
use amppackager.Signer.Chains.{
  after, or_else-eq-ok, drop_error-eq-ok, check-eq-ok, stepped-eq-ok, not-false,
}

module _ (u : UrlLib) (b : Backend u) (s : Signer u) where
  open u use {Url}

  -- How a signed reply is made from a response.
  pub record IsSigned (r : Response) (p : SxgParams u) (reply : Reply) : Type 0 where
    pub transformed : Bytes
    pub metadata : Metadata
    pub link : Bytes
    pub encoded : b.Exchange
    pub cert_url : Url
    pub validity : Url
    pub exchange : b.Exchange
    pub bytes : Bytes
    pub processed :
        b.process r.body.content (u.text p.sign_url) p.transform_version
        ≡ some (transformed, metadata)
    pub linked : format_link_header u metadata.preloads ≡ ok link
    pub mi_encoded :
        b.mi_encode_payload mi_record_size (
          b.new_exchange
            (u.text p.sign_url)
            r.status
            (signed_header transformed link r.header)
            transformed)
        ≡ (true, encoded)
    pub cert : gen_cert_url u b s p.sign_url ≡ some cert_url
    pub valid : u.parse validity_map_path ≡ some validity
    pub signature :
        b.add_signature_header
          (date u b s)
          (expires u b s metadata.max_age_secs)
          cert_url
          (u.resolve_reference p.sign_url validity)
          encoded
        ≡ (true, exchange)
    pub written : b.write exchange ≡ some bytes
    pub has_begun : date u b s ≤ b.now
    pub is_fresh : b.now < expires u b s metadata.max_age_secs
    pub is_short : expires u b s metadata.max_age_secs ≤ date u b s + 7 * day
    pub answer : reply ≡ signed (sxg_header u b s p.amp_cache_transform) bytes

  -- Where `serveSignedExchange` does not fall back, it answers the bytes of an exchange whose
  -- header is the signed one, whose payload is the transformed document, and whose signature is
  -- valid now, from its date to its expiry, at most seven days later.
  pub serve_signed_exchange-IsSigned :
      (r : Response) (p : SxgParams u) (reply : Reply)
      → serve_signed_exchange u b s r p ≡ ok reply
      → IsSigned r p reply
  unfolding serve_signed_exchange
  serve_signed_exchange-IsSigned r p reply h = after (>>=-eq-ok _ _ h) λ tm a h1.
      after (>>=-eq-ok _ _ h1) λ link c h2. after (>>=-eq-ok _ _ h2) λ encoded d h3.
        after (>>=-eq-ok _ _ h3) λ cert_url e h4. after (>>=-eq-ok _ _ h4) λ validity f h5.
          after (>>=-eq-ok _ _ h5) λ fresh g h6. after (>>=-eq-ok _ _ h6) λ exchange i h7.
            after (>>=-eq-ok _ _ h7) λ bytes j h8. record {
              transformed = tm.0;
              metadata = tm.1;
              link = link;
              encoded = encoded;
              cert_url = cert_url;
              validity = validity;
              exchange = exchange;
              bytes = bytes;
              processed = or_else-eq-ok (proxy_consumed r.header r) _ a;
              linked = drop_error-eq-ok (proxy_consumed r.header r) _ c;
              mi_encoded = stepped-eq-ok b.header_of r _ d;
              cert = or_else-eq-ok (proxy_consumed (b.header_of encoded) r) _ e;
              valid = or_else-eq-ok (proxy_consumed (b.header_of encoded) r) _ f;
              signature = stepped-eq-ok b.header_of r _ i;
              written = or_else-eq-ok (proxy_consumed (b.header_of exchange) r) _ j;
              has_begun = date_le u b s;
              is_fresh =
                  ltb→lt b.now _
                    (not-false _ (check-eq-ok _ (proxy_consumed (b.header_of encoded) r) g));
              is_short = expires_bound u b s tm.1.max_age_secs;
              answer = sym (ok-injective h8);
            }

  -- A document whose age is a day or less is not signed, and by then the header is no longer the
  -- fetched one: the reply that is proxied has the fetched body under the header of the exchange,
  -- with the length of the transformed document as its Content-Length, as long as the encoding of
  -- the exchange leaves that header as it is.
  pub serve_signed_exchange-stale :
      (r : Response) (p : SxgParams u) (transformed : Bytes) (m : Metadata) (link : Bytes)
      (encoded : b.Exchange) (cert_url validity : Url)
      → b.process r.body.content (u.text p.sign_url) p.transform_version ≡ some (transformed, m)
      → format_link_header u m.preloads ≡ ok link
      → b.mi_encode_payload mi_record_size (
          b.new_exchange
            (u.text p.sign_url)
            r.status
            (signed_header transformed link r.header)
            transformed)
        ≡ (true, encoded)
      → lookup (codes "Content-Length") (b.header_of encoded)
        ≡ lookup (codes "Content-Length") (signed_header transformed link r.header)
      → gen_cert_url u b s p.sign_url ≡ some cert_url
      → u.parse validity_map_path ≡ some validity
      → day ≤ b.now
      → m.max_age_secs ≤ℤ pos 86400
      → (serve_signed_exchange u b s r p
          ≡ err (
              proxied r.status
                (copy_into (b.header_of encoded) vary_header)
                (r.body.content ++ [])
                false))
        × (lookup (codes "Content-Length") (b.header_of encoded)
            ≡ some (format_digits 20 (length transformed) ∷ []))
  unfolding serve_signed_exchange
  serve_signed_exchange-stale r p t m link e cu v hp hl he hc hcu hv hd ha =
      let stale = expires_stale u b s m.max_age_secs hd ha in
      (
        rw hp (rw hl (rw he (rw hcu (rw hv (rw stale refl))))),
        hc ∙ signed_header_lem t link (codes "Content-Length") r.header,
      )
