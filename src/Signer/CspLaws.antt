-- ===== src/Signer/CspLaws.antt =====
-- What `MutateFetchedContentSecurityPolicy` of packager/signer/signer.go does to a policy.
use amppackager.Prelude.{
  ℕ, ◌≡◌, refl, ap, ◌∙◌, Bool, true, false, List, [], ◌∷◌, ◌++◌, map, arith, ◌==◌, if◌then◌else◌,
  Bool-cases, inl, inr,
}
use mathlib.Core.List.{append_assoc}
use amppackager.Prelude.Split.{
  is_space, trim, trim_left, trim_right, keep_unless, split, cons_first,
}
use amppackager.Prelude.Text.{Bytes}
use amppackager.Signer.Csp.{
  is_preserved, write_preserved, default_src, report_uri, script_src, style_src, object_src,
  fixed_directives, mutate_fetched_content_security_policy,
}

-- The byte does not occur.
abbrev pub absent : ℕ → Bytes → Bool
absent sep [] = true
absent sep (c ∷ cs) = if c == sep then false else absent sep cs

-- The directives that are kept.
abbrev pub kept : List Bytes → List Bytes
kept [] = []
kept (d ∷ ds) = if is_preserved d then d ∷ kept ds else kept ds

split-append :
    (sep : ℕ) (x rest : Bytes)
    → absent sep x ≡ true
    → split sep (x ++ (sep ∷ rest)) ≡ x ∷ split sep rest
unfolding split
split-append sep [] rest h = ground arith
split-append sep (c ∷ cs) rest h = ground (arith, split-append sep cs rest)

absent-trim_left :
    (p : ℕ → Bool) (sep : ℕ) (s : Bytes) → absent sep s ≡ true → absent sep (trim_left p s) ≡ true
unfolding trim_left
absent-trim_left p sep [] h = refl
absent-trim_left p sep (c ∷ cs) h = ground (arith, absent-trim_left p sep cs)

absent-keep_unless :
    (p : ℕ → Bool) (sep c : ℕ) (s : Bytes)
    → absent sep (c ∷ s) ≡ true
    → absent sep (keep_unless p c s) ≡ true
absent-keep_unless p sep c [] h = ground arith
absent-keep_unless p sep c (d ∷ ds) h = h

absent-trim_right :
    (p : ℕ → Bool) (sep : ℕ) (s : Bytes) → absent sep s ≡ true → absent sep (trim_right p s) ≡ true
unfolding trim_right
absent-trim_right p sep [] h = refl
absent-trim_right p sep (c ∷ cs) h =
    absent-keep_unless p sep c (trim_right p cs) (ground (arith, absent-trim_right p sep cs))

absent-trim : (sep : ℕ) (s : Bytes) → absent sep s ≡ true → absent sep (trim is_space s) ≡ true
unfolding trim
absent-trim sep s h =
    absent-trim_right is_space sep (trim_left is_space s) (absent-trim_left is_space sep s h)

-- Every piece is free of the separator.
abbrev all_absent : ℕ → List Bytes → Bool
all_absent sep [] = true
all_absent sep (p ∷ ps) = if absent sep p then all_absent sep ps else false

all_absent-cons_first :
    (sep c : ℕ) (ps : List Bytes)
    → (c == sep) ≡ false
    → all_absent sep ps ≡ true
    → all_absent sep (cons_first c ps) ≡ true
all_absent-cons_first sep c [] e h = ground arith
all_absent-cons_first sep c (p ∷ ps) e h = ground arith

all_absent-split : (sep : ℕ) (s : Bytes) → all_absent sep (split sep s) ≡ true
unfolding split
all_absent-split sep [] = refl
all_absent-split sep (c ∷ cs) =
    ground (arith, all_absent-cons_first sep c (split sep cs), all_absent-split sep cs)

abbrev trimmed : List Bytes → List Bytes
trimmed = map (trim is_space)

split-write_preserved :
    (ds : List Bytes) (rest : Bytes)
    → all_absent b';' ds ≡ true
    → split b';' (write_preserved ds ++ rest) ≡ kept (trimmed ds) ++ split b';' rest
unfolding write_preserved
split-write_preserved [] rest h = refl
split-write_preserved (d ∷ ds) rest h = elim (Bool-cases (is_preserved (trim is_space d))) [
  | inl e ↦ rw e (
      rw (append_assoc (trim is_space d) (b';' ∷ write_preserved ds) rest) (
        split-append b';' (trim is_space d) (write_preserved ds ++ rest)
          (absent-trim b';' d (ground (arith, h)))
        ∙ ap (trim is_space d ∷◌) (split-write_preserved ds rest (ground (arith, h)))))
  | inr e ↦ rw e (split-write_preserved ds rest (ground (arith, h)))
]

split-fixed_directives :
    split b';' fixed_directives
    ≡ default_src ∷ report_uri ∷ script_src ∷ style_src ∷ object_src ∷ []
unfolding split
split-fixed_directives = refl

-- The directives of the new policy: those of the fetched one whose names are kept, white space
-- trimmed, in their order, and then the five that the signer writes.
pub split-mutate_fetched_content_security_policy :
    (fetched : Bytes)
    → split b';' (mutate_fetched_content_security_policy fetched)
      ≡ kept (map (trim is_space) (split b';' fetched))
        ++ (default_src ∷ report_uri ∷ script_src ∷ style_src ∷ object_src ∷ [])
unfolding mutate_fetched_content_security_policy
split-mutate_fetched_content_security_policy fetched =
    split-write_preserved (split b';' fetched) fixed_directives (all_absent-split b';' fetched)
    ∙ rw split-fixed_directives refl
