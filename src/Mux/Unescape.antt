-- ===== src/Mux/Unescape.antt =====
-- `url.PathUnescape` of the Go library, as packager/mux/mux.go calls it: `%XX` stands for a byte,
-- and any other use of `%` is an error.
use amppackager.Prelude.{
  ℕ, ◌+◌, ◌-◌, ◌*◌, ◌&&◌, [], ◌∷◌, Option, none, some, leb, ◌==◌, if◌then◌else◌,
}
use amppackager.Prelude.Text.{Bytes}

unfoldable pub from_hex : ℕ → Option ℕ
from_hex c =
    if leb b'0' c && leb c b'9'
    then some (c - b'0')
    else if leb b'a' c && leb c b'f'
    then some (c - b'a' + 10)
    else if leb b'A' c && leb c b'F'
    then some (c - b'A' + 10)
    else none

abbrev cons_byte : Option ℕ → Option ℕ → Option Bytes → Option Bytes
cons_byte (some hi) (some lo) (some s) = some ((hi * 16 + lo) ∷ s)
cons_byte _ _ _ = none

abbrev cons_plain : ℕ → Option Bytes → Option Bytes
cons_plain c none = none
cons_plain c (some s) = some (c ∷ s)

abbrev bad_or_plain : ℕ → Option Bytes → Option Bytes
bad_or_plain c rest = if c == b'%' then none else cons_plain c rest

unfoldable pub path_unescape : Bytes → Option Bytes
unfolding from_hex
path_unescape [] = some []
path_unescape (c ∷ []) = bad_or_plain c (some [])
path_unescape (c ∷ d ∷ []) = bad_or_plain c (path_unescape (d ∷ []))
path_unescape (c ∷ d ∷ e ∷ cs) =
    let byte = cons_byte (from_hex d) (from_hex e) (path_unescape cs) in
    let plain = cons_plain c (path_unescape (d ∷ e ∷ cs)) in if c == b'%' then byte else plain
