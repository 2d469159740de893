-- ===== src/Header/Remove.antt =====
-- What `RemoveHopByHopHeaders` of packager/util/http.go deletes and what it keeps.
use amppackager.Prelude.{
  Bool, true, false, ◌||◌, ◌≡◌, refl, ◌∙◌, List, [], ◌∷◌, none, arith, if◌then◌else◌,
}
use amppackager.Prelude.Text.{Bytes, codes, bytes_eq, bytes_eq_iff, lookup}
use amppackager.Header.{
  Header, comma_split, member, legacy_headers, canonical_header_key, remove_key, del, del_all,
  del_connections, values_of, remove_hop_by_hop_headers,
}

pub lookup-remove_key :
    (k j : Bytes) (h : Header)
    → lookup j (remove_key k h) ≡ (if bytes_eq k j then none else lookup j h)
unfolding remove_key
lookup-remove_key k j [] = ground arith
lookup-remove_key k j ((i, v) ∷ h) =
    ground (arith, bytes_eq_iff k j, bytes_eq_iff i k, bytes_eq_iff i j, lookup-remove_key k j h)

-- One of the names stands for the canonical key.
abbrev pub names : Bytes → List Bytes → Bool
names k [] = false
names k (n ∷ ns) = bytes_eq (canonical_header_key n) k || names k ns

pub lookup-del_all :
    (ns : List Bytes) (j : Bytes) (h : Header)
    → lookup j (del_all ns h) ≡ (if names j ns then none else lookup j h)
unfolding del_all del
lookup-del_all [] j h = refl
lookup-del_all (n ∷ ns) j h = ground (
  arith,
  lookup-del_all ns j (remove_key (canonical_header_key n) h),
  lookup-remove_key (canonical_header_key n) j h,
)

-- One of the Connection values lists the key.
abbrev pub lists : Bytes → List Bytes → Bool
lists k [] = false
lists k (c ∷ cs) = names k (comma_split c) || lists k cs

lookup-del_connections :
    (cs : List Bytes) (j : Bytes) (h : Header)
    → lookup j (del_connections cs h) ≡ (if lists j cs then none else lookup j h)
unfolding del_connections
lookup-del_connections [] j h = refl
lookup-del_connections (c ∷ cs) j h = ground (
  arith,
  lookup-del_connections cs j (del_all (comma_split c) h),
  lookup-del_all (comma_split c) j h,
)

if_or :
    {A : Type 0} (a b : Bool) (x y : A)
    → (if a then x else if b then x else y) ≡ (if a || b then x else y)
if_or true b x y = refl
if_or false b x y = refl

names-legacy_headers : (j : Bytes) → names j legacy_headers ≡ member j legacy_headers
unfolding member canonical_header_key
names-legacy_headers j = refl

-- After `RemoveHopByHopHeaders` a key is gone if it is a legacy hop-by-hop header or stands for a
-- name that a value of the Connection header lists; every other key keeps its values.
pub lookup-remove_hop_by_hop_headers :
    (h : Header) (j : Bytes)
    → lookup j (remove_hop_by_hop_headers h) ≡ (
        if member j legacy_headers || lists j (values_of (lookup (codes "Connection") h))
        then none
        else lookup j h)
unfolding remove_hop_by_hop_headers
lookup-remove_hop_by_hop_headers h j =
    let cs = values_of (lookup (codes "Connection") h) in
    lookup-del_all legacy_headers j (del_connections cs h)
    ∙ rw (names-legacy_headers j, lookup-del_connections cs j h)
        (if_or (member j legacy_headers) (lists j cs) none (lookup j h))
