-- ===== src/CacheTransform/Answer/Select.antt =====
-- What the answer to an AMP-Cache-Transform header is.
use amppackager.Prelude.{
  ℕ, zero, suc, ◌≡◌, refl, sym, ◌≢◌, ◌↔◌, ◌⊎◌, inl, inr, ◌∙◌, ap, true, List, [], ◌∷◌, none, some,
  ok, arith, ◌≤◌, Option-cases, Result-cases, Bool-cases,
}
use amppackager.Prelude.Int.{ℤ, pos, negsuc}
use amppackager.Prelude.Text.{Bytes, codes, bytes_eq, bytes_eq_iff}
use amppackager.Versions.{VersionRange, select_version}
use amppackager.Versions.Select.{select_version_sound}
use amppackager.CacheTransform.{ParameterisedIdentifier, parse_parameterised_list}
use amppackager.CacheTransform.Answer.{
  is_valid_identifier, requested_from, header_answer, answer_with, answer_to, no_answer,
  first_answer, should_send_sxg,
}

-- An answer to one identifier: the identifier with the version selected from its parameters.
pub record AnswersTo (i : ParameterisedIdentifier) (act : Bytes) (version : ℤ) : Type 0 where
  pub requested : List VersionRange
  pub asked : requested_from [] i.params ≡ some requested
  pub selected : select_version requested ≡ ok version
  pub valid : is_valid_identifier i.id ≡ true
  pub text : act ≡ header_answer i.id version

answer_with-eq-some :
    (id : Bytes) (requested : List VersionRange) (act : Bytes) (version : ℤ)
    → answer_with id requested ≡ some (act, version)
    → (select_version requested ≡ ok version) × (act ≡ header_answer id version)
unfolding answer_with
answer_with-eq-some id requested act version h = ground arith

answer_to-AnswersTo :
    (i : ParameterisedIdentifier) (act : Bytes) (version : ℤ)
    → answer_to i ≡ some (act, version)
    → AnswersTo i act version
unfolding answer_to
answer_to-AnswersTo i act version h = elim (Option-cases (requested_from [] i.params)) [
  | inl e ↦ absurd (ground arith)
  | inr (rs, e) ↦
      let valid : is_valid_identifier i.id ≡ true = ground arith in
      let selected : answer_with i.id rs ≡ some (act, version) = ground arith in
      let (s, t) = answer_with-eq-some i.id rs act version selected in
      record { requested = rs; asked = e; selected = s; valid = valid; text = t }
]

-- The first identifier that has an answer gives it; those before it have none.
abbrev pub IsFirstAnswer : List ParameterisedIdentifier → Bytes → ℤ → Type 0
IsFirstAnswer [] act version = ⊥
IsFirstAnswer (i ∷ is) act version =
    AnswersTo i act version ⊎ (answer_to i ≡ none) × IsFirstAnswer is act version

first_answer-IsFirstAnswer :
    (is : List ParameterisedIdentifier) (act : Bytes) (version : ℤ)
    → first_answer is ≡ (act, version)
    → act ≢ []
    → IsFirstAnswer is act version
unfolding first_answer
first_answer-IsFirstAnswer [] act version h ne = ground arith
first_answer-IsFirstAnswer (i ∷ is) act version h ne = elim (Option-cases (answer_to i)) [
  | inl e ↦ inr (e, first_answer-IsFirstAnswer is act version (rw (e, first_answer) at h) ne)
  | inr (a, e) ↦ inl (answer_to-AnswersTo i act version (ground arith))
]

-- A non-empty answer is that of the first identifier in the header that can be answered: it is
-- "any" or "google", its parameters ask for versions, and the answer is the identifier with the
-- version that is selected from them.
pub should_send_sxg_sound :
    (header act : Bytes) (version : ℤ)
    → should_send_sxg header ≡ (act, version)
    → act ≢ []
    → (is : List ParameterisedIdentifier) × (parse_parameterised_list header ≡ ok is)
      × IsFirstAnswer is act version
unfolding should_send_sxg
should_send_sxg_sound header act version h ne =
    elim (Result-cases (parse_parameterised_list header)) [
      | inl (is, e) ↦
          (is, e, first_answer-IsFirstAnswer is act version (rw (e, should_send_sxg) at h) ne)
      | inr (why, e) ↦ absurd (ne (sym (ap (λ p. p.0) (rw (e, should_send_sxg) at h))))
    ]

valid_cases :
    (id : Bytes) → is_valid_identifier id ≡ true → (id ≡ codes "any") ⊎ (id ≡ codes "google")
valid_cases id h = elim (Bool-cases (bytes_eq id (codes "any"))) [
  | inl e ↦ inl ((bytes_eq_iff id (codes "any")).0 e)
  | inr e ↦ inr ((bytes_eq_iff id (codes "google")).0 (rw e at h))
]

version_bounds :
    (rs : List VersionRange) {v : ℤ}
    → select_version rs ≡ ok v
    → (n : ℕ) × (v ≡ pos n) × (1 ≤ n) × (n ≤ 8)
version_bounds rs {v = pos n} h =
    let (_, lo, hi, _) = select_version_sound rs h in (n, refl, omega arith, omega arith)
version_bounds rs {v = negsuc n} h =
    let (_, lo, hi, _) = select_version_sound rs h in absurd (omega arith)

abbrev Echoes : Bytes → ℕ → Type 0
Echoes id n = should_send_sxg (header_answer id (pos n)) ≡ (header_answer id (pos n), pos n)

echo_any : (n : ℕ) → 1 ≤ n → n ≤ 8 → Echoes (codes "any") n
unfolding should_send_sxg
echo_any (suc zero) lo hi = refl
echo_any (suc (suc zero)) lo hi = refl
echo_any (suc (suc (suc zero))) lo hi = refl
echo_any (suc (suc (suc (suc zero)))) lo hi = refl
echo_any (suc (suc (suc (suc (suc zero))))) lo hi = refl
echo_any (suc (suc (suc (suc (suc (suc zero)))))) lo hi = refl
echo_any (suc (suc (suc (suc (suc (suc (suc zero))))))) lo hi = refl
echo_any (suc (suc (suc (suc (suc (suc (suc (suc zero)))))))) lo hi = refl
echo_any _ lo hi = absurd (omega arith)

echo_google : (n : ℕ) → 1 ≤ n → n ≤ 8 → Echoes (codes "google") n
unfolding should_send_sxg
echo_google (suc zero) lo hi = refl
echo_google (suc (suc zero)) lo hi = refl
echo_google (suc (suc (suc zero))) lo hi = refl
echo_google (suc (suc (suc (suc zero)))) lo hi = refl
echo_google (suc (suc (suc (suc (suc zero))))) lo hi = refl
echo_google (suc (suc (suc (suc (suc (suc zero)))))) lo hi = refl
echo_google (suc (suc (suc (suc (suc (suc (suc zero))))))) lo hi = refl
echo_google (suc (suc (suc (suc (suc (suc (suc (suc zero)))))))) lo hi = refl
echo_google _ lo hi = absurd (omega arith)

echo :
    (id : Bytes) (n : ℕ) → (id ≡ codes "any") ⊎ (id ≡ codes "google") → 1 ≤ n → n ≤ 8 → Echoes id n
echo id n (inl e) lo hi = rw e (echo_any n lo hi)
echo id n (inr e) lo hi = rw e (echo_google n lo hi)

answer-echo :
    (i : ParameterisedIdentifier) (act : Bytes) (version : ℤ)
    → AnswersTo i act version
    → should_send_sxg act ≡ (act, version)
answer-echo i act version a =
    let (n, e, lo, hi) = version_bounds a.requested a.selected in
    rw (a.text, e) (echo i.id n (valid_cases i.id a.valid) lo hi)

first-echo :
    (is : List ParameterisedIdentifier) (act : Bytes) (version : ℤ)
    → IsFirstAnswer is act version
    → should_send_sxg act ≡ (act, version)
first-echo [] act version f = elim f [ ]
first-echo (i ∷ is) act version (inl a) = answer-echo i act version a
first-echo (i ∷ is) act version (inr (skipped, f)) = first-echo is act version f

-- The answer, sent as a request header, is answered by itself: a cache that echoes the header it
-- was given gets the same version again.
should_send_sxg_idem :
    (header act : Bytes) (version : ℤ)
    → should_send_sxg header ≡ (act, version)
    → act ≢ []
    → should_send_sxg act ≡ (act, version)
should_send_sxg_idem header act version h ne =
    let (is, _, f) = should_send_sxg_sound header act version h ne in first-echo is act version f

abbrev pub AllUnanswered : List ParameterisedIdentifier → Type 0
AllUnanswered [] = Unit
AllUnanswered (i ∷ is) = (answer_to i ≡ none) × AllUnanswered is

header_answer-ne-nil :
    (id : Bytes) (v : ℤ) → is_valid_identifier id ≡ true → header_answer id v ≢ []
unfolding header_answer
header_answer-ne-nil [] v h e = cc
header_answer-ne-nil (c ∷ cs) v h e = cc

answer_to-ne-nil :
    (i : ParameterisedIdentifier) (act : Bytes) (version : ℤ)
    → answer_to i ≡ some (act, version)
    → act ≢ []
answer_to-ne-nil i act version h e =
    let a = answer_to-AnswersTo i act version h in
    header_answer-ne-nil i.id version a.valid (sym a.text ∙ e)

first_answer-none_iff :
    (is : List ParameterisedIdentifier) → (first_answer is ≡ no_answer) ↔ AllUnanswered is
unfolding first_answer
first_answer-none_iff [] = (λ _. tt, λ _. refl)
first_answer-none_iff (i ∷ is) = elim (Option-cases (answer_to i)) [
  | inl e ↦
      rw (e, first_answer)
        (λ h. (refl, (first_answer-none_iff is).0 h), λ a. (first_answer-none_iff is).1 a.1)
  | inr ((act, version), e) ↦
      rw (e, first_answer)
        (λ h. absurd (answer_to-ne-nil i act version e (ap (λ p. p.0) h)), λ a. cc)
]

-- A header that parses gets no answer exactly when none of its identifiers has one.
should_send_sxg-none_iff :
    (header : Bytes) (is : List ParameterisedIdentifier)
    → parse_parameterised_list header ≡ ok is
    → (should_send_sxg header ≡ no_answer) ↔ AllUnanswered is
unfolding should_send_sxg
should_send_sxg-none_iff header is e = rw (e, should_send_sxg) (first_answer-none_iff is)
