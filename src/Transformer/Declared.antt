-- ===== src/Transformer/Declared.antt =====
-- When transformer/transformer.go takes a document for AMP.
use amppackager.Prelude.{
  ℕ, Bool, true, false, not, List, [], ◌∷◌, ◌++◌, Option, none, some, ◌==◌, if◌then◌else◌, ◌≡◌,
  refl, sym, ap, ◌∙◌, inl, inr, ◌↔◌, arith, Any, Bool-cases, Option-cases, ==_iff,
}
use mathlib.Core.Path.{subst}
use amppackager.Prelude.Text.{Bytes, codes, bytes_eq_iff}
use amppackager.Transformer.{Attribute}
use amppackager.Transformer.Formats.{
  HtmlFormat, unknown_code, amp, amp4ads, amp4email, experimental, amp_format_suffix, is_suffix,
  is_one_of, or_all, is_allowed, has_newline, format_behind, lightning, behind_prefix, first_of,
  amp_attr_match, declares_allowed, require_amp_attribute,
}
use amppackager.Reorder.Scripts.{cut_prefix}

-- The attributes that declare a format, as AMP documents them.
abbrev pub keys_of : HtmlFormat → List Bytes
keys_of amp = lightning ∷ codes "amp" ∷ []
keys_of amp4ads = (lightning ++ codes "4ads") ∷ codes "amp4ads" ∷ []
keys_of amp4email = (lightning ++ codes "4email") ∷ codes "amp4email" ∷ []
keys_of _ = []

abbrev pub Declares : Bytes → HtmlFormat → Type 0
Declares key f = Any (λ k. key ≡ k) (keys_of f)

cut_prefix-append : (p text rest : Bytes) → cut_prefix text p ≡ some rest → text ≡ p ++ rest
cut_prefix-append [] text rest h = ground arith
cut_prefix-append (c ∷ p) [] rest h = absurd cc
cut_prefix-append (c ∷ p) (d ∷ text) rest h = ground (arith, cut_prefix-append p text rest)

-- What stands behind a prefix that matches.
data Behind (rest : Bytes) : Bytes → Type 0 where
  nothing : rest ≡ [] → Behind rest []
  four : (c : ℕ) (cs : Bytes) → rest ≡ b'4' ∷ c ∷ cs → Behind rest (c ∷ cs)

data Maybe (rest : Bytes) : Option Bytes → Type 0 where
  no : Maybe rest none
  yes : {s : Bytes} → Behind rest s → Maybe rest (some s)

format_behind-Maybe : (rest : Bytes) → Maybe rest (format_behind rest)
unfolding format_behind
format_behind-Maybe [] = yes (nothing refl)
format_behind-Maybe (f ∷ []) = no
format_behind-Maybe (f ∷ c ∷ cs) = elim (Bool-cases (f == b'4')) [
  | inl e ↦ rw e (
      Maybe-if (not (has_newline (c ∷ cs)))
        (four c cs (ap (λ k. k ∷ c ∷ cs) ((==_iff f b'4').0 e))))
  | inr e ↦ rw e no
]
  where
    Maybe-if : {rest s : Bytes} (b : Bool) → Behind rest s → Maybe rest (if b then some s else none)
    Maybe-if true h = yes h
    Maybe-if false h = no

Maybe-yes : {rest s : Bytes} → Maybe rest (some s) → Behind rest s
Maybe-yes (yes h) = h

-- A text that declares what the match finds, with one of the two prefixes.
data Matches (key : Bytes) : Bytes → Type 0 where
  by_lightning :
      (rest : Bytes) {s : Bytes} → key ≡ lightning ++ rest → Behind rest s → Matches key s
  by_amp : (rest : Bytes) {s : Bytes} → key ≡ codes "amp" ++ rest → Behind rest s → Matches key s

behind_prefix-eq :
    (p key s : Bytes)
    → behind_prefix (cut_prefix key p) ≡ some s
    → (rest : Bytes) × (key ≡ p ++ rest) × Behind rest s
behind_prefix-eq p key s h = elim (Option-cases (cut_prefix key p)) [
  | inl e ↦ absurd (ground arith)
  | inr (rest, e) ↦ (
    rest,
    cut_prefix-append p key rest e,
    Maybe-yes (
        subst (λ o. Maybe rest o) (sym (ap (λ o. behind_prefix o) e) ∙ h)
          (format_behind-Maybe rest)),
  )
]

amp_attr_match-Matches : (key s : Bytes) → amp_attr_match key ≡ some s → Matches key s
unfolding amp_attr_match
amp_attr_match-Matches key s h =
    let second : Option Bytes = behind_prefix (cut_prefix key (codes "amp")) in
    elim (Option-cases (behind_prefix (cut_prefix key lightning))) [
      | inl e ↦
          let found =
            behind_prefix-eq (codes "amp") key s (sym (ap (λ o. first_of o second) e) ∙ h) in
          by_amp found.0 found.1 found.2
      | inr (t, e) ↦
          let found =
            behind_prefix-eq lightning key s (e ∙ (sym (ap (λ o. first_of o second) e) ∙ h)) in
          by_lightning found.0 found.1 found.2
    ]

is_one_of-Any :
    (s : Bytes) (fs : List HtmlFormat)
    → (is_one_of s fs ≡ true) ↔ Any (λ f. amp_format_suffix f ≡ some s) fs
unfolding is_one_of
is_one_of-Any s [] = ground arith
is_one_of-Any s (f ∷ fs) = ground (arith, is_suffix-iff f s, is_one_of-Any s fs)
  where
    is_suffix-iff :
        (f : HtmlFormat) (s : Bytes)
        → (is_suffix (amp_format_suffix f) s ≡ true) ↔ (amp_format_suffix f ≡ some s)
    is_suffix-iff amp s = ground (arith, bytes_eq_iff s [])
    is_suffix-iff amp4ads s = ground (arith, bytes_eq_iff s (codes "ads"))
    is_suffix-iff amp4email s = ground (arith, bytes_eq_iff s (codes "email"))
    is_suffix-iff unknown_code s = ground arith
    is_suffix-iff experimental s = ground arith

-- The rest behind a prefix, by the suffix of a format.
abbrev Rest : HtmlFormat → Bytes → Type 0
Rest amp rest = rest ≡ []
Rest amp4ads rest = rest ≡ codes "4ads"
Rest amp4email rest = rest ≡ codes "4email"
Rest _ rest = ⊥

Behind-Rest :
    (f : HtmlFormat) {rest s : Bytes} → amp_format_suffix f ≡ some s → Behind rest s → Rest f rest
Behind-Rest amp h (nothing r) = r
Behind-Rest amp h (four c cs r) = absurd (ground arith)
Behind-Rest amp4ads h (nothing r) = absurd (ground arith)
Behind-Rest amp4ads h (four c cs r) = ground arith
Behind-Rest amp4email h (nothing r) = absurd (ground arith)
Behind-Rest amp4email h (four c cs r) = ground arith
Behind-Rest unknown_code h b = absurd (ground arith)
Behind-Rest experimental h b = absurd (ground arith)

Matches-Declares :
    (f : HtmlFormat) {key s : Bytes} → amp_format_suffix f ≡ some s → Matches key s → Declares key f
Matches-Declares amp h (by_lightning rest e b) =
    inl (e ∙ ap (λ r. lightning ++ r) (Behind-Rest amp h b))
Matches-Declares amp h (by_amp rest e b) =
    inr (inl (e ∙ ap (λ r. codes "amp" ++ r) (Behind-Rest amp h b)))
Matches-Declares amp4ads h (by_lightning rest e b) =
    inl (e ∙ ap (λ r. lightning ++ r) (Behind-Rest amp4ads h b))
Matches-Declares amp4ads h (by_amp rest e b) =
    inr (inl (e ∙ ap (λ r. codes "amp" ++ r) (Behind-Rest amp4ads h b)))
Matches-Declares amp4email h (by_lightning rest e b) =
    inl (e ∙ ap (λ r. lightning ++ r) (Behind-Rest amp4email h b))
Matches-Declares amp4email h (by_amp rest e b) =
    inr (inl (e ∙ ap (λ r. codes "amp" ++ r) (Behind-Rest amp4email h b)))
Matches-Declares unknown_code h m = absurd (ground arith)
Matches-Declares experimental h m = absurd (ground arith)

-- The match of a text that declares a format is its suffix.
Declares-match :
    (f : HtmlFormat) (key : Bytes)
    → Declares key f
    → (s : Bytes) × (amp_format_suffix f ≡ some s) × (amp_attr_match key ≡ some s)
unfolding amp_attr_match format_behind has_newline
Declares-match amp key (inl e) = ([], refl, rw e refl)
Declares-match amp key (inr (inl e)) = ([], refl, rw e refl)
Declares-match amp4ads key (inl e) = (codes "ads", refl, rw e refl)
Declares-match amp4ads key (inr (inl e)) = (codes "ads", refl, rw e refl)
Declares-match amp4email key (inl e) = (codes "email", refl, rw e refl)
Declares-match amp4email key (inr (inl e)) = (codes "email", refl, rw e refl)
Declares-match amp key (inr (inr x)) = elim x [ ]
Declares-match amp4ads key (inr (inr x)) = elim x [ ]
Declares-match amp4email key (inr (inr x)) = elim x [ ]
Declares-match unknown_code key x = elim x [ ]
Declares-match experimental key x = elim x [ ]

Any-map :
    {P Q : HtmlFormat → Type 0} (fs : List HtmlFormat)
    → ((f : HtmlFormat) → P f → Q f)
    → Any P fs
    → Any Q fs
Any-map [] h a = a
Any-map (f ∷ fs) h (inl p) = inl (h f p)
Any-map (f ∷ fs) h (inr a) = inr (Any-map fs h a)

-- The attribute declares one of some formats.
abbrev pub DeclaresOne : List HtmlFormat → Bytes → Type 0
DeclaresOne formats key = Any (λ f. Declares key f) formats

declares_allowed_sound :
    (key : Bytes) (allowed : List HtmlFormat)
    → declares_allowed (amp_attr_match key) allowed ≡ true
    → DeclaresOne (or_all allowed) key
unfolding is_allowed
declares_allowed_sound key allowed h = elim (Option-cases (amp_attr_match key)) [
  | inl e ↦ let no : false ≡ true = sym (ap (λ o. declares_allowed o allowed) e) ∙ h in absurd cc
  | inr (s, e) ↦
      Any-map (or_all allowed) (λ f p. Matches-Declares f p (amp_attr_match-Matches key s e))
        ((is_one_of-Any s (or_all allowed)).0 (sym (ap (λ o. declares_allowed o allowed) e) ∙ h))
]

declares_allowed_complete :
    (key : Bytes) (allowed : List HtmlFormat)
    → DeclaresOne (or_all allowed) key
    → declares_allowed (amp_attr_match key) allowed ≡ true
unfolding is_allowed
declares_allowed_complete key allowed h = elim (Option-cases (amp_attr_match key)) [
  | inl e ↦ absurd (none_declared (or_all allowed) e h)
  | inr (s, e) ↦
      ap (λ o. declares_allowed o allowed) e
      ∙ (is_one_of-Any s (or_all allowed)).1 (Any-map (or_all allowed) (λ f p. suffix_of f s e p) h)
]
  where
    suffix_of :
        (f : HtmlFormat) (s : Bytes)
        → amp_attr_match key ≡ some s
        → Declares key f
        → amp_format_suffix f ≡ some s
    suffix_of f s e p = let d = Declares-match f key p in d.1 ∙ (sym d.2 ∙ e)

    none_declared :
        (fs : List HtmlFormat) → amp_attr_match key ≡ none → Any (λ f. Declares key f) fs → ⊥
    none_declared [] e a = a
    none_declared (f ∷ fs) e (inl p) =
        let d = Declares-match f key p in let no : none ≡ some d.0 = sym e ∙ d.2 in cc
    none_declared (f ∷ fs) e (inr a) = none_declared fs e a

-- A document is taken for AMP exactly when its `<html>` tag has an attribute without a namespace that
-- declares one of the allowed formats, or any format where none is named.
pub require_amp_attribute_iff :
    (attributes : List Attribute) (allowed : List HtmlFormat)
    → (require_amp_attribute attributes allowed ≡ true)
      ↔ Any (λ a. (a.namespace ≡ []) × DeclaresOne (or_all allowed) a.key) attributes
unfolding require_amp_attribute
require_amp_attribute_iff [] allowed = ground arith
require_amp_attribute_iff (a ∷ rest) allowed = ground (
  arith,
  bytes_eq_iff a.namespace [],
  declares_allowed_sound a.key allowed,
  declares_allowed_complete a.key allowed,
  require_amp_attribute_iff rest allowed,
)
