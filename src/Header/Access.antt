-- ===== src/Header/Access.antt =====
-- Reads and writes of a header: net/http's `Get` and `Set`, and `GetJoined` of
-- packager/signer/signer.go.
use amppackager.Prelude.{List, [], ◌∷◌, Option, none, some, if◌then◌else◌}
use amppackager.Prelude.Split.{join}
use amppackager.Prelude.Text.{Bytes, codes, bytes_eq, lookup, insert}
use amppackager.Header.{Header, canonical_header_key}

-- The values of a key in one text.
abbrev joined_values : Bytes → Option (List Bytes) → Bytes
joined_values key none = []
joined_values key (some []) = []
joined_values key (some (v ∷ vs)) =
    if bytes_eq key (codes "Set-Cookie") then v else join (codes ", ") (v ∷ vs)

-- `GetJoined`
unfoldable pub get_joined : Header → Bytes → Bytes
unfolding canonical_header_key
get_joined h name = let key = canonical_header_key name in joined_values key (lookup key h)

abbrev first_value : Option (List Bytes) → Bytes
first_value none = []
first_value (some []) = []
first_value (some (v ∷ vs)) = v

-- `h.Get(name)`
unfoldable pub get : Header → Bytes → Bytes
unfolding canonical_header_key
get h name = first_value (lookup (canonical_header_key name) h)

-- `h.Set(name, value)`
unfoldable pub set : Bytes → Bytes → Header → Header
unfolding canonical_header_key
set name value h = insert (canonical_header_key name) (value ∷ []) h
