-- ===== src/CertCache/Fetch/Valid.antt =====
-- What `fetchOCSP` of packager/certcache/certcache.go answers.
use amppackager.Prelude.{
  ℕ, ◌+◌, ◌*◌, ◌≤◌, ◌≡◌, refl, Bool, true, false, List, [], ◌∷◌, Option, none, some, arith,
  Bool-cases, Option-cases, if◌then◌else◌, inl, inr,
}
use amppackager.Prelude.Text.{Bytes}
use amppackager.CertCache.Fetch.{
  Certificate, OcspReply, OcspNetwork, OcspRequest, check_reply, find_issuer_using_certs,
  extract_ocsp_server, parsed_or, read_or, answered, generated, ask_server, ask, with_issuer,
  fetch_ocsp, ocsp_request,
}

-- A time that a certificate is valid at.
abbrev pub IsDuring : Certificate → ℕ → Type 0
IsDuring c t = (c.not_before ≤ t) × (t ≤ c.not_after)

-- A response is good, current, made for at most seven days, and all of its times are within the
-- validity of the certificate.
pub record IsAcceptable (c : Certificate) (now : ℕ) (r : OcspReply) : Type 0 where
  pub is_good : r.status ≡ 0
  pub begun : r.times.this_update ≤ now
  pub not_over : now ≤ r.times.next_update
  pub first : IsDuring c r.times.this_update
  pub last : IsDuring c r.times.next_update
  pub made : IsDuring c r.produced_at
  pub is_short : r.times.next_update ≤ r.times.this_update + 7 * (24 * (3600 * 1000000000))

check_reply-IsAcceptable :
    (c : Certificate) (now : ℕ) (r : OcspReply) → check_reply c now r ≡ true → IsAcceptable c now r
unfolding check_reply
check_reply-IsAcceptable c now r h = record {
  is_good = ground (arith, h);
  begun = ground (arith, h);
  not_over = ground (arith, h);
  first = ground (arith, h);
  last = ground (arith, h);
  made = ground (arith, h);
  is_short = ground (arith, h);
}

module _ (n : OcspNetwork) where
  open n use {World, Reply}

  -- The response that there was, or one made in development mode, or one of the server that is
  -- acceptable at a time.
  pub data Fetched (orig : Bytes) (certs : List Certificate) (now : ℕ) : Bytes → Type 0 where
    kept : Fetched orig certs now orig
    made_here :
        {c : Certificate} {cs : List Certificate} {f : Certificate → Option Bytes} {b : Bytes}
        → certs ≡ c ∷ cs
        → extract_ocsp_server c ≡ none
        → n.generate ≡ some f
        → f c ≡ some b
        → Fetched orig certs now b
    fetched :
        {c issuer : Certificate} {cs : List Certificate} {b : Bytes} {r : OcspReply}
        → certs ≡ c ∷ cs
        → find_issuer_using_certs certs ≡ some issuer
        → n.parse_response b c issuer ≡ some r
        → IsAcceptable c now r
        → Fetched orig certs now b

  module _ (orig : Bytes) (c : Certificate) (cs : List Certificate) where
    abbrev Own : World → Bytes → Type 0
    Own w = Fetched orig (c ∷ cs) (n.now w)

    if-Fetched :
        (b : Bool) (x y : (Bytes × Option ℕ) × World)
        → Own x.1 x.0.0
        → Own y.1 y.0.0
        → Own
            (if◌then◌else◌ {A = (Bytes × Option ℕ) × World} b x y).1
            (if◌then◌else◌ {A = (Bytes × Option ℕ) × World} b x y).0.0
    if-Fetched true x y s t = s
    if-Fetched false x y s t = t

    module _ (issuer : Certificate) (found : find_issuer_using_certs (c ∷ cs) ≡ some issuer) where
      parsed_or-Fetched :
          (w : World) (bytes : Bytes) (m : Option OcspReply)
          → n.parse_response bytes c issuer ≡ m
          → Own w (parsed_or n orig c (n.now w) bytes m)
      parsed_or-Fetched w bytes none h = kept
      parsed_or-Fetched w bytes (some r) h = elim (Bool-cases (check_reply c (n.now w) r)) [
        | inl e ↦ rw e (fetched refl found h (check_reply-IsAcceptable c (n.now w) r e))
        | inr e ↦ rw e kept
      ]

      read_or-Fetched : (w : World) (m : Option Bytes) → Own w (read_or n orig c issuer (n.now w) m)
      read_or-Fetched w none = kept
      read_or-Fetched w (some bytes) = parsed_or-Fetched w bytes _ refl

      answered-Fetched :
          (req : OcspRequest) (got : Option Reply × World)
          → Own (answered n orig c issuer req got).1 (answered n orig c issuer req got).0.0
      answered-Fetched req (none, w) = kept
      answered-Fetched req (some reply, w) = read_or-Fetched w _

      generated-Fetched :
          (w : World) (g : Option (Certificate → Option Bytes))
          → n.generate ≡ g
          → extract_ocsp_server c ≡ none
          → Own w (generated n orig c g)
      generated-Fetched w none h e = kept
      generated-Fetched w (some f) h e = elim (Option-cases (f c)) [
        | inl q ↦ rw q kept
        | inr (b, q) ↦ rw q (made_here refl e h q)
      ]

      ask_server-Fetched :
          (is_retry : Bool) (req : Bytes) (m : Option Bytes) (w : World)
          → extract_ocsp_server c ≡ m
          → Own
              (ask_server n orig is_retry c issuer req m w).1
              (ask_server n orig is_retry c issuer req m w).0.0
      ask_server-Fetched is_retry req none w h = generated-Fetched w n.generate refl h
      ask_server-Fetched is_retry req (some server) w h =
          let request = ocsp_request n server req is_retry in
          if-Fetched (n.is_request request.method request.url)
            (answered n orig c issuer request (n.send request w)) ((orig, none), w)
            (answered-Fetched request (n.send request w)) kept

      ask-Fetched :
          (is_retry : Bool) (m : Option Bytes) (w : World)
          → Own (ask n orig is_retry c issuer m w).1 (ask n orig is_retry c issuer m w).0.0
      ask-Fetched is_retry none w = kept
      ask-Fetched is_retry (some req) w = ask_server-Fetched is_retry req _ w refl

  with_issuer-Fetched :
      (orig : Bytes) (is_retry : Bool) (certs : List Certificate) (m : Option Certificate)
      (w : World)
      → find_issuer_using_certs certs ≡ m
      → Fetched orig certs
          (n.now (with_issuer n orig is_retry certs m w).1)
          (with_issuer n orig is_retry certs m w).0.0
  with_issuer-Fetched orig is_retry [] m w h = kept
  with_issuer-Fetched orig is_retry (c ∷ cs) none w h = kept
  with_issuer-Fetched orig is_retry (c ∷ cs) (some issuer) w h =
      ask-Fetched orig c cs issuer h is_retry _ w

  -- Whatever the server sends: `fetchOCSP` answers the response that there was, one made in
  -- development mode for a certificate without a server, or one that the OCSP library takes for the
  -- certificate and its issuer and that is good, short, within the certificate's validity, and
  -- current by the clock as `fetchOCSP` leaves it.
  pub fetch_ocsp-Fetched :
      (orig : Bytes) (certs : List Certificate) (is_retry : Bool) (w : World)
      → Fetched orig certs
          (n.now (fetch_ocsp n orig certs is_retry w).1)
          (fetch_ocsp n orig certs is_retry w).0.0
  unfolding fetch_ocsp
  fetch_ocsp-Fetched orig certs is_retry w = with_issuer-Fetched orig is_retry certs _ w refl
