-- ===== src/Mux/Prefix.antt =====
-- `tryTrimPrefix` of packager/mux/mux.go.
use amppackager.Prelude.{
  ◌+◌, ◌≡◌, ◌≢◌, refl, ap, Bool, true, false, [], ◌∷◌, ◌++◌, Option, none, some, arith, ◌==◌,
  if◌then◌else◌, length, length-append,
}
use amppackager.Prelude.Text.{Bytes}

-- What follows the prefix, if the text has it.
unfoldable pub strip_prefix : Bytes → Bytes → Option Bytes
strip_prefix [] s = some s
strip_prefix (p ∷ ps) [] = none
strip_prefix (p ∷ ps) (c ∷ cs) = if p == c then strip_prefix ps cs else none

-- `strings.TrimPrefix`
abbrev pub trim_prefix : Bytes → Bytes → Bytes
trim_prefix s prefix = elim (strip_prefix prefix s) [ none ↦ s | some r ↦ r ]

unfoldable pub try_trim_prefix : Bytes → Bytes → Bytes × Bool
try_trim_prefix s prefix =
    let trimmed = trim_prefix s prefix in (trimmed, length prefix + length trimmed == length s)

pub strip_prefix-append : (p s : Bytes) → strip_prefix p (p ++ s) ≡ some s
unfolding strip_prefix
strip_prefix-append [] s = refl
strip_prefix-append (c ∷ p) s = ground (arith, strip_prefix-append p s)

pub strip_prefix-eq-some : (p s : Bytes) {r : Bytes} → strip_prefix p s ≡ some r → s ≡ p ++ r
unfolding strip_prefix
strip_prefix-eq-some [] s h = cc
strip_prefix-eq-some (p ∷ ps) [] h = cc
strip_prefix-eq-some (p ∷ ps) (c ∷ cs) {r} h =
    ground (arith, λ (k : strip_prefix ps cs ≡ some r). strip_prefix-eq-some ps cs k)

pub try_trim_prefix-eq-true :
    (s prefix : Bytes) {r : Bytes}
    → strip_prefix prefix s ≡ some r
    → try_trim_prefix s prefix ≡ (r, true)
unfolding try_trim_prefix
try_trim_prefix-eq-true s prefix {r} h =
    ground (arith, h, length-append prefix r, ap length (strip_prefix-eq-some prefix s h))

pub try_trim_prefix-eq-false :
    (s prefix : Bytes)
    → prefix ≢ []
    → strip_prefix prefix s ≡ none
    → try_trim_prefix s prefix ≡ (s, false)
unfolding try_trim_prefix
try_trim_prefix-eq-false s [] ne h = absurd (ne refl)
try_trim_prefix-eq-false s (p ∷ ps) ne h = ground (arith, h)
