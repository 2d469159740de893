-- ===== src/Unused/Kept.antt =====
-- What `UnusedExtensions` of transformer/transformers/unusedextensions.go leaves of a head.
use amppackager.Prelude.{
  Bool, true, false, List, [], ◌∷◌, Option, none, some, if◌then◌else◌, ◌≡◌, refl, ap, ◌∙◌,
  Bool-cases, inl, inr, All, Any, arith,
}
use amppackager.Prelude.Text.{Bytes, bytes_eq, bytes_eq_iff}
use amppackager.Dom.{Tree, node, Forest}
use amppackager.Printer.{mem_text}
use amppackager.Reorder.{info}
use amppackager.Reorder.Scripts.{amp_extension_name}
use amppackager.Transformer.Head.{goes_on}
use amppackager.Unused.{
  element_exempted_extensions, different_element_exempted_extensions, is_unused_name, is_unused,
  parent, remove_unused, extensions_used, unused_extensions,
}
use amppackager.Unused.Uses.{Activates, AnyNode, mem_text_iff, extensions_used_iff}

-- A child of the head that is to stay: it loads no extension, or one of no name, or one that is
-- loaded on demand only, or one that a node of the document uses.
pub data Wanted (nodes : Forest) (t : Tree) : Type 0 where
  no_extension : amp_extension_name (info t) ≡ none → Wanted nodes t
  no_name : amp_extension_name (info t) ≡ some [] → Wanted nodes t
  not_exempted :
      {ext : Bytes}
      → amp_extension_name (info t) ≡ some ext
      → ¬ Any (λ e. ext ≡ e) element_exempted_extensions
      → ¬ Any (λ e. ext ≡ e) different_element_exempted_extensions
      → Wanted nodes t
  is_used :
      {ext : Bytes}
      → amp_extension_name (info t) ≡ some ext
      → AnyNode (λ i. Activates i ext) nodes
      → Wanted nodes t

not_listed : (e : Bytes) (table : List Bytes) → mem_text e table ≡ false → ¬ Any (λ u. e ≡ u) table
not_listed e table h a = let k = (mem_text_iff e table).1 a in absurd (cc)

listed : (e : Bytes) (table : List Bytes) → ¬ Any (λ u. e ≡ u) table → mem_text e table ≡ false
listed e table h = elim (Bool-cases (mem_text e table)) [
  | inl k ↦ absurd (h ((mem_text_iff e table).0 k))
  | inr k ↦ k
]

module _ (nodes : Forest) where
  abbrev used : List Bytes
  used = extensions_used nodes

  unused_name-Wanted :
      (t : Tree) (o : Option Bytes)
      → amp_extension_name (info t) ≡ o
      → is_unused_name used o ≡ false
      → Wanted nodes t
  unfolding is_unused_name
  unused_name-Wanted t none e h = no_extension e
  unused_name-Wanted t (some ext) e h = elim (Bool-cases (bytes_eq ext [])) [
    | inl a ↦ no_name (e ∙ ap (λ x. some x) ((bytes_eq_iff ext []).0 a))
    | inr a ↦ elim (Bool-cases (mem_text ext used)) [
      | inl b ↦ is_used e ((extensions_used_iff nodes ext).0 ((mem_text_iff ext used).0 b))
      | inr b ↦
          not_exempted e (not_listed ext element_exempted_extensions (ground (arith, h, a, b)))
            (not_listed ext different_element_exempted_extensions (ground (arith, h, a, b)))
    ]
  ]

  is_unused-Wanted : (t : Tree) → is_unused used t ≡ false → Wanted nodes t
  unfolding is_unused
  is_unused-Wanted (node i cs) h = unused_name-Wanted (node i cs) (amp_extension_name i) refl h

  Wanted-is_unused : (t : Tree) → Wanted nodes t → is_unused used t ≡ false
  unfolding is_unused
  Wanted-is_unused (node i cs) (no_extension e) = rw e refl
  Wanted-is_unused (node i cs) (no_name e) = rw e refl
  Wanted-is_unused (node i cs) (not_exempted {ext = ext} e a b) =
      let p = listed ext element_exempted_extensions a in
      let q = listed ext different_element_exempted_extensions b in
      ap (λ o. is_unused_name used o) e ∙ ground (arith, p, q)
  Wanted-is_unused (node i cs) (is_used {ext = ext} e a) =
      let p = (mem_text_iff ext used).1 ((extensions_used_iff nodes ext).1 a) in
      ap (λ o. is_unused_name used o) e ∙ ground (arith, p)

module _ (chosen : Tree → Bool) where
  -- The chosen ones of the children.
  abbrev pub chosen_of : List Tree → List Tree
  chosen_of [] = []
  chosen_of (t ∷ ts) = let rest = chosen_of ts in if chosen t then t ∷ rest else rest

  remove_unused-chosen :
      (used : List Bytes) (previous : Option Bool) (ts : List Tree)
      → ((t : Tree) → chosen t ≡ true → is_unused used t ≡ false)
      → chosen_of (remove_unused used previous ts) ≡ chosen_of ts
  unfolding remove_unused
  remove_unused-chosen used previous [] h = refl
  remove_unused-chosen used previous (t ∷ ts) h = elim (Bool-cases (is_unused used t)) [
    | inl e ↦
        let left_out : chosen t ≡ false = elim (Bool-cases (chosen t)) [
          | inl c ↦ let k = h t c in absurd (cc)
          | inr c ↦ c
        ] in
        elim (Bool-cases (goes_on previous)) [
          | inl g ↦ rw (e, g, left_out) (remove_unused-chosen used previous ts h)
          | inr g ↦ rw (e, g, left_out) refl
        ]
    | inr e ↦ rw e (
        ap (λ us. if chosen t then t ∷ us else us)
          (remove_unused-chosen used (some (parent t)) ts h))
  ]

-- Of the children of the head, those that are to stay do so, in order and as often as they stand
-- there, wherever the loop ends: whichever of them one chooses are the same before and after.
pub unused_extensions-chosen :
    (chosen : Tree → Bool) (nodes : Forest) (children : List Tree)
    → ((t : Tree) → chosen t ≡ true → Wanted nodes t)
    → chosen_of chosen (unused_extensions nodes children) ≡ chosen_of chosen children
unfolding unused_extensions
unused_extensions-chosen chosen nodes children h =
    remove_unused-chosen chosen (extensions_used nodes) none children
      (λ t c. Wanted-is_unused nodes t (h t c))

-- Behind a child without children the loop goes on.
remove_unused-Wanted :
    (nodes : Forest) (ts : List Tree)
    → All (λ t. parent t ≡ false) ts
    → All (Wanted nodes) (remove_unused (extensions_used nodes) (some false) ts)
unfolding remove_unused
remove_unused-Wanted nodes [] h = tt
remove_unused-Wanted nodes (t ∷ ts) h = elim (Bool-cases (is_unused (extensions_used nodes) t)) [
  | inl e ↦ rw e (remove_unused-Wanted nodes ts h.1)
  | inr e ↦ rw (e, h.0) (is_unused-Wanted nodes t e, remove_unused-Wanted nodes ts h.1)
]

-- Where the first child of the head is to stay and no child has children, only children that are
-- to stay are left.
pub unused_extensions-Wanted :
    (nodes : Forest) (t : Tree) (ts : List Tree)
    → All (λ u. parent u ≡ false) (t ∷ ts)
    → Wanted nodes t
    → All (Wanted nodes) (unused_extensions nodes (t ∷ ts))
unfolding unused_extensions remove_unused
unused_extensions-Wanted nodes t ts h w =
    rw (Wanted-is_unused nodes t w, h.0) (w, remove_unused-Wanted nodes ts h.1)
