-- ===== src/Signer/Laws.antt =====
-- The header that the signer of packager/signer/signer.go signs, and the times of a signature.
use amppackager.Prelude.{
  ◌+◌, ◌*◌, ◌≤◌, ◌≡◌, refl, ◌↔◌, true, false, List, [], ◌∷◌, Option, none, some, arith,
  if◌then◌else◌, length, ltb,
}
use amppackager.Prelude.Int.{ℤ, pos, negsuc, ◌<ℤ◌, ◌≤ℤ◌}
use amppackager.Prelude.Text.{Bytes, codes, bytes_eq, lookup, lookup-insert}
use amppackager.Config.{is_empty}
use amppackager.CacheTransform.Answer.{format_digits}
use amppackager.Header.{Header, canonical_header_key, del, del_all}
use amppackager.Header.Access.{get, set}
use amppackager.Header.Remove.{names, lookup-del_all, lookup-remove_key}
use amppackager.Signer.Csp.{mutate_fetched_content_security_policy}
use amppackager.Validation.Url.{UrlLib}
use amppackager.Signer.{
  stateful_response_headers, day, set_or_del, signed_header, Backend, Signer, date, expires,
}

-- A read of a header after a write of one value.
lookup-set :
    (name v j : Bytes) (h : Header)
    → lookup j (set name v h)
      ≡ (if bytes_eq (canonical_header_key name) j then some (v ∷ []) else lookup j h)
unfolding set
lookup-set name v j h = lookup-insert (canonical_header_key name) j (v ∷ []) h

lookup-set_or_del :
    (name v j : Bytes) (h : Header)
    → lookup j (set_or_del name v h) ≡ (
        if bytes_eq (canonical_header_key name) j
        then (if is_empty v then none else some (v ∷ []))
        else lookup j h)
unfolding del
lookup-set_or_del name [] j h = lookup-remove_key (canonical_header_key name) j h
lookup-set_or_del name (c ∷ cs) j h = lookup-set name (c ∷ cs) j h

abbrev csp : Bytes
csp = codes "Content-Security-Policy"

-- What a signed header holds under a canonical key.
abbrev pub signed_value : Bytes → Bytes → Bytes → Header → Option (List Bytes)
signed_value transformed link j h =
    if bytes_eq csp j
    then some (mutate_fetched_content_security_policy (get h csp) ∷ [])
    else if bytes_eq (codes "X-Content-Type-Options") j
    then some (codes "nosniff" ∷ [])
    else if bytes_eq (codes "Content-Length") j
    then some (format_digits 20 (length transformed) ∷ [])
    else if bytes_eq (codes "Link") j
    then (if is_empty link then none else some (link ∷ []))
    else if names j stateful_response_headers
    then none
    else lookup j h

get-lookup :
    (h g : Header) (name : Bytes)
    → lookup (canonical_header_key name) h ≡ lookup (canonical_header_key name) g
    → get h name ≡ get g name
unfolding get
get-lookup h g name e = rw e refl

abbrev clean : Bytes → Header → Header
clean link h = set_or_del (codes "Link") link (del_all stateful_response_headers h)

abbrev sized : Bytes → Bytes → Header → Header
sized transformed link h =
    set (codes "X-Content-Type-Options") (codes "nosniff")
      (set (codes "Content-Length") (format_digits 20 (length transformed)) (clean link h))

lookup-sized :
    (transformed link j : Bytes) (h : Header)
    → lookup j (sized transformed link h) ≡ (
        if bytes_eq (codes "X-Content-Type-Options") j
        then some (codes "nosniff" ∷ [])
        else if bytes_eq (codes "Content-Length") j
        then some (format_digits 20 (length transformed) ∷ [])
        else if bytes_eq (codes "Link") j
        then (if is_empty link then none else some (link ∷ []))
        else if names j stateful_response_headers
        then none
        else lookup j h)
unfolding canonical_header_key
lookup-sized transformed link j h =
    rw lookup-set (rw lookup-set (rw lookup-set_or_del (rw lookup-del_all refl)))

get-sized : (transformed link : Bytes) (h : Header) → get (sized transformed link h) csp ≡ get h csp
unfolding canonical_header_key
get-sized transformed link h =
    get-lookup (sized transformed link h) h csp (lookup-sized transformed link csp h)

-- What the header of a signed exchange holds under each canonical key: the four values that the
-- signer writes (no Link where there is no preload), nothing under the names of stateful headers,
-- and the fetched value under every other key.
pub signed_header_lem :
    (transformed link j : Bytes) (h : Header)
    → lookup j (signed_header transformed link h) ≡ signed_value transformed link j h
unfolding signed_header canonical_header_key
signed_header_lem transformed link j h =
    rw (lookup-set (codes "Content-Security-Policy"), get-sized, lookup-sized) refl

-- The date of a signature is never to come.
pub date_le : (u : UrlLib) (b : Backend u) (s : Signer u) → date u b s ≤ b.now
date_le u b s = omega arith

-- A response can be signed exactly if its age is more than a day: the date lies a day back.
expires-fresh_iff :
    (u : UrlLib) (b : Backend u) (s : Signer u) (age : ℤ)
    → day ≤ b.now
    → (ltb b.now (expires u b s age) ≡ true) ↔ (pos 86400 <ℤ age)
expires-fresh_iff u b s (pos n) h = ground arith
expires-fresh_iff u b s (negsuc n) h = ground arith

-- The lifetime of a signature is at most seven days.
pub expires_bound :
    (u : UrlLib) (b : Backend u) (s : Signer u) (age : ℤ) → expires u b s age ≤ date u b s + 7 * day
expires_bound u b s (pos n) = ground arith
expires_bound u b s (negsuc n) = ground arith

pub expires_stale :
    (u : UrlLib) (b : Backend u) (s : Signer u) (age : ℤ)
    → day ≤ b.now
    → age ≤ℤ pos 86400
    → ltb b.now (expires u b s age) ≡ false
expires_stale u b s (pos n) h a = ground arith
expires_stale u b s (negsuc n) h a = ground arith
