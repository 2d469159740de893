-- ===== src/Unused/Uses.antt =====
-- What `insertMatchingExtensions` of transformer/transformers/unusedextensions.go takes for a use of
-- an extension.
use amppackager.Prelude.{
  Bool, true, false, not, List, [], ◌∷◌, ◌++◌, Option, none, some, if◌then◌else◌, ◌≡◌, ◌↔◌, ◌⊎◌,
  inl, inr, refl, sym, ap, Bool-cases, Any, arith,
}
use mathlib.Core.Path.{subst}
use amppackager.Prelude.Text.{Bytes, codes, bytes_eq, bytes_eq_iff}
use amppackager.Transformer.{equal_fold}
use amppackager.Dom.{Info, node, Forest, end, child}
use amppackager.Dom.Attributes.{attribute_val}
use amppackager.Printer.{mem_text}
use amppackager.Unused.{
  element_exempted_extensions, named, is_element, matching_extensions, extensions_used,
}

-- An element that uses an extension.
pub data Activates (i : Info) : Bytes → Type 0 where
  access :
      {v : Bytes}
      → is_element i.kind ≡ true
      → i.data_text ≡ codes "script"
      → attribute_val [] (codes "id") i.attributes ≡ some v
      → equal_fold v (codes "amp-access") ≡ true
      → Activates i (codes "amp-access")
  mustache_script :
      {v : Bytes}
      → is_element i.kind ≡ true
      → i.data_text ≡ codes "script"
      → attribute_val [] (codes "template") i.attributes ≡ some v
      → equal_fold v (codes "amp-mustache") ≡ true
      → Activates i (codes "amp-mustache")
  embed : is_element i.kind ≡ true → i.data_text ≡ codes "amp-embed" → Activates i (codes "amp-ad")
  form : is_element i.kind ≡ true → i.data_text ≡ codes "form" → Activates i (codes "amp-form")
  template :
      is_element i.kind ≡ true → i.data_text ≡ codes "template" → Activates i (codes "amp-mustache")
  same_name :
      is_element i.kind ≡ true
      → Any (λ e. i.data_text ≡ e) element_exempted_extensions
      → Activates i i.data_text

-- Some node of a forest.
abbrev pub AnyNode : (Info → Type 0) → Forest → Type 0
AnyNode P end = ⊥
AnyNode P (child (node i cs) rest) = P i ⊎ (AnyNode P cs ⊎ AnyNode P rest)

pub mem_text_iff : (t : Bytes) (us : List Bytes) → (mem_text t us ≡ true) ↔ Any (λ u. t ≡ u) us
unfolding mem_text
mem_text_iff t [] = ((λ h. absurd (cc)), (λ h. absurd h))
mem_text_iff t (u ∷ us) = ground (arith, bytes_eq_iff t u, mem_text_iff t us)

module _ (ext : Bytes) where
  abbrev Listed : List Bytes → Type 0
  Listed = Any (λ u. ext ≡ u)

  Any-append_iff : (xs ys : List Bytes) → Listed (xs ++ ys) ↔ (Listed xs ⊎ Listed ys)
  Any-append_iff [] ys = ((λ h. inr h), (λ h. elim h [ inl e ↦ absurd e | inr e ↦ e ]))
  Any-append_iff (x ∷ xs) ys =
      let ih = Any-append_iff xs ys in
      (
        λ h. elim h [
          | inl e ↦ inl (inl e)
          | inr e ↦ elim (ih.0 e) [ inl f ↦ inl (inr f) | inr f ↦ inr f ]
        ],
        λ h. elim h [
          | inl e ↦ elim e [ inl f ↦ inl f | inr f ↦ inr (ih.1 (inl f)) ]
          | inr e ↦ inr (ih.1 (inr e))
        ],
      )

  listed-if :
      {T : Type 0} (xs ys : List Bytes) (b : Bool)
      → (b ≡ true → Listed xs → T)
      → (b ≡ false → Listed ys → T)
      → Listed (if b then xs else ys)
      → T
  listed-if xs ys true f g h = f refl h
  listed-if xs ys false f g h = g refl h

  Listed-one : (u : Bytes) → Listed (u ∷ []) → ext ≡ u
  Listed-one u h = elim h [ inl e ↦ e | inr e ↦ absurd e ]

  named-Listed :
      (name : Bytes) (o : Option Bytes)
      → Listed (named name o)
      → (v : Bytes) × (o ≡ some v) × (equal_fold v name ≡ true) × (ext ≡ name)
  unfolding named
  named-Listed name none h = absurd h
  named-Listed name (some v) h =
      listed-if _ _ (equal_fold v name) (λ e l. (v, refl, e, Listed-one name l)) (λ e l. absurd l) h

  module _ (i : Info) where
    at_name : {name : Bytes} → ext ≡ name → Activates i name → Activates i ext
    at_name e a = subst (Activates i) (sym e) a

    matching_extensions-Activates : Listed (matching_extensions i) → Activates i ext
    unfolding matching_extensions
    matching_extensions-Activates =
        let id_of = attribute_val [] (codes "id") i.attributes in
        let template_of = attribute_val [] (codes "template") i.attributes in
        let is_named : (name : Bytes) → bytes_eq i.data_text name ≡ true → i.data_text ≡ name =
          λ name e. (bytes_eq_iff i.data_text name).0 e in
        listed-if _ _ (not (is_element i.kind)) (λ e h. absurd h)
          λ e.
            let here : is_element i.kind ≡ true = ground (arith, e) in
            listed-if _ _ (bytes_eq i.data_text (codes "script"))
              (λ d h.
                elim ((Any-append_iff (named (codes "amp-access") id_of)
                    (named (codes "amp-mustache") template_of)).0
                  h) [
                    | inl l ↦
                        let (v, a, q, n) = named-Listed (codes "amp-access") id_of l in
                        at_name n (access here (is_named (codes "script") d) a q)
                    | inr l ↦
                        let (v, a, q, n) = named-Listed (codes "amp-mustache") template_of l in
                        at_name n (mustache_script here (is_named (codes "script") d) a q)
                  ])
              λ e1.
                listed-if _ _ (bytes_eq i.data_text (codes "amp-embed"))
                  (λ d h. at_name (Listed-one _ h) (embed here (is_named (codes "amp-embed") d)))
                  λ e2.
                    listed-if _ _ (bytes_eq i.data_text (codes "form"))
                      (λ d h. at_name (Listed-one _ h) (form here (is_named (codes "form") d)))
                      λ e3.
                        listed-if _ _ (bytes_eq i.data_text (codes "template"))
                          (λ d h.
                            at_name (Listed-one _ h)
                              (template here (is_named (codes "template") d)))
                          λ e4.
                            listed-if _ _ (mem_text i.data_text element_exempted_extensions)
                              (λ d h. at_name (Listed-one _ h) (
                                same_name here
                                  ((mem_text_iff i.data_text element_exempted_extensions).0 d)))
                              (λ d h. absurd h)

-- A name that is no key of a table differs from each key.
differs :
    (a name : Bytes) (table : List Bytes)
    → mem_text a table ≡ true
    → mem_text name table ≡ false
    → bytes_eq a name ≡ false
differs a name table h k = elim (Bool-cases (bytes_eq a name)) [
  | inl e ↦
      let same = ap (λ x. mem_text x table) ((bytes_eq_iff a name).0 e) in
      absurd (ground (arith, h, k, same))
  | inr e ↦ e
]

not_exempted :
    (a : Bytes)
    → mem_text a element_exempted_extensions ≡ true
    → (bytes_eq a (codes "script") ≡ false)
      × (bytes_eq a (codes "amp-embed") ≡ false)
      × (bytes_eq a (codes "form") ≡ false)
      × (bytes_eq a (codes "template") ≡ false)
unfolding mem_text
not_exempted a h = (
  differs a (codes "script") element_exempted_extensions h refl,
  differs a (codes "amp-embed") element_exempted_extensions h refl,
  differs a (codes "form") element_exempted_extensions h refl,
  differs a (codes "template") element_exempted_extensions h refl,
)

Activates-Listed :
    (i : Info) (ext : Bytes) → Activates i ext → Any (λ u. ext ≡ u) (matching_extensions i)
unfolding matching_extensions named
Activates-Listed i ext (access e d a q) = rw (e, d, a, q) (inl refl)
Activates-Listed i ext (mustache_script e d a q) =
    rw (e, d)
      ((Any-append_iff (codes "amp-mustache")
          (named (codes "amp-access") (attribute_val [] (codes "id") i.attributes))
          (named (codes "amp-mustache") (attribute_val [] (codes "template") i.attributes))).1
        (inr (rw (a, q) (inl refl))))
Activates-Listed i ext (embed e d) = rw (e, d) (inl refl)
Activates-Listed i ext (form e d) = rw (e, d) (inl refl)
Activates-Listed i ext (template e d) = rw (e, d) (inl refl)
Activates-Listed i ext (same_name e m) =
    let table = element_exempted_extensions in
    let is_in = (mem_text_iff i.data_text table).1 m in
    let (q1, q2, q3, q4) = not_exempted i.data_text is_in in
    rw (e, q1, q2, q3, q4, is_in) (inl refl)

-- The extensions that are collected are those that a node uses.
pub extensions_used_iff :
    (f : Forest) (ext : Bytes)
    → Any (λ u. ext ≡ u) (extensions_used f) ↔ AnyNode (λ i. Activates i ext) f
unfolding extensions_used
extensions_used_iff end ext = ((λ h. h), (λ h. h))
extensions_used_iff (child (node i cs) rest) ext =
    let below = extensions_used_iff cs ext in
    let later = extensions_used_iff rest ext in
    let front =
      Any-append_iff ext (matching_extensions i ++ extensions_used cs) (extensions_used rest) in
    let back = Any-append_iff ext (matching_extensions i) (extensions_used cs) in
    (
      λ h. elim (front.0 h) [
        | inl e ↦ elim (back.0 e) [
          | inl g ↦ inl (matching_extensions-Activates ext i g)
          | inr g ↦ inr (inl (below.0 g))
        ]
        | inr e ↦ inr (inr (later.0 e))
      ],
      λ h. elim h [
        | inl e ↦ front.1 (inl (back.1 (inl (Activates-Listed i ext e))))
        | inr e ↦ elim e [
          | inl g ↦ front.1 (inl (back.1 (inr (below.1 g))))
          | inr g ↦ front.1 (inr (later.1 g))
        ]
      ],
    )
