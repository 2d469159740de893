-- ===== src/CacheTransform/Answer/Order.antt =====
-- The order in which Go ranges over the map of parameters in `ShouldSendSXG` of
-- packager/amp_cache_transform/amp_cache_transform.go.
use mathlib.Core.List.{Perm, Permᴰ}
use mathlib.Core.Path.{subst, fun_ext}
use mathlib.Core.Logic.{∥∥₁_elim}
use amppackager.Prelude.{
  ◌≡◌, ◌≢◌, refl, sym, ap, ◌∙◌, List, [], ◌∷◌, Option, none, arith, All, if◌then◌else◌,
}
use amppackager.Prelude.Text.{Bytes, codes, bytes_eq, bytes_eq_iff}
use amppackager.Versions.{VersionRange}
use amppackager.CacheTransform.Answer.{◌>>=◌, parse_versions, requested_from}

-- The names of a map are distinct.
abbrev pub Apart : Bytes × Bytes → List (Bytes × Bytes) → Type 0
Apart p ps = All (λ q. p.0 ≢ q.0) ps

abbrev pub Distinct : List (Bytes × Bytes) → Type 0
Distinct [] = Unit
Distinct (p ∷ ps) = Apart p ps × Distinct ps

All-perm :
    (P : Bytes × Bytes → Type 0) {ps qs : List (Bytes × Bytes)} → Permᴰ ps qs → All P ps → All P qs
All-perm P Permᴰ.nil a = a
All-perm P (Permᴰ.cons e p) a = (subst P e a.0, All-perm P p a.1)
All-perm P (Permᴰ.swap e f) a = (subst P f a.1.0, (subst P e a.0, a.1.1))
All-perm P (Permᴰ.trans p q) a = All-perm P q (All-perm P p a)

Distinct-perm : {ps qs : List (Bytes × Bytes)} → Permᴰ ps qs → Distinct ps → Distinct qs
Distinct-perm Permᴰ.nil d = d
Distinct-perm (Permᴰ.cons {l₂ = l} e p) d =
    (subst (λ x. Apart x l) e (All-perm _ p d.0), Distinct-perm p d.1)
Distinct-perm (Permᴰ.swap {l} e f) d = (
  (
    λ same. d.0.0 (ap (λ q. q.0) e ∙ sym same ∙ sym (ap (λ q. q.0) f)),
    subst (λ x. Apart x l) f d.1.0,
  ),
  (subst (λ x. Apart x l) e d.0.1, d.1.1),
)
Distinct-perm (Permᴰ.trans p q) d = Distinct-perm q (Distinct-perm p d)

-- Two names are not both "v", so neither order has an answer.
requested_from-swap :
    (acc : List VersionRange) (x y : Bytes × Bytes) (l : List (Bytes × Bytes))
    → x.0 ≢ y.0
    → requested_from acc (x ∷ y ∷ l) ≡ none
unfolding requested_from
requested_from-swap acc (n, v) (m, w) l ne =
    ground (arith, bytes_eq_iff n (codes "v"), bytes_eq_iff m (codes "v"))

requested_from-cons :
    (acc : List VersionRange) (x : Bytes × Bytes) (l l' : List (Bytes × Bytes))
    → ((rs : List VersionRange) → requested_from rs l ≡ requested_from rs l')
    → requested_from acc (x ∷ l) ≡ requested_from acc (x ∷ l')
unfolding requested_from
requested_from-cons acc (n, v) l l' h =
    ap (λ k. if bytes_eq n (codes "v") then parse_versions v >>= k else none) (fun_ext h)

answer-set : IsSet (Option (List VersionRange))
answer-set = hlevel

requested_from-permᴰ :
    {ps qs : List (Bytes × Bytes)} (acc : List VersionRange)
    → Permᴰ ps qs
    → Distinct ps
    → requested_from acc ps ≡ requested_from acc qs
requested_from-permᴰ acc Permᴰ.nil d = refl
requested_from-permᴰ acc (Permᴰ.cons {a} {b} {l₁} {l₂} e p) d =
    requested_from-cons acc a l₁ l₂ (λ rs. requested_from-permᴰ rs p d.1)
    ∙ ap (λ x. requested_from acc (x ∷ l₂)) e
requested_from-permᴰ acc (Permᴰ.swap {a} {b} {a'} {b'} {l} e f) d =
    rw (← e, ← f)
      (requested_from-swap acc a b l d.0.0
        ∙ sym (requested_from-swap acc b a l (λ same. d.0.0 (sym same))))
requested_from-permᴰ acc (Permᴰ.trans p q) d =
    requested_from-permᴰ acc p d ∙ requested_from-permᴰ acc q (Distinct-perm p d)

-- The versions that an identifier asks for do not depend on the order in which Go ranges over the
-- map of its parameters, whose names are distinct.
requested_from-perm :
    (acc : List VersionRange) (ps qs : List (Bytes × Bytes))
    → Perm ps qs
    → Distinct ps
    → requested_from acc ps ≡ requested_from acc qs
requested_from-perm acc ps qs p d =
    ∥∥₁_elim p (answer-set _ _) (λ p'. requested_from-permᴰ acc p' d)
