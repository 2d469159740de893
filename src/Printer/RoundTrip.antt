-- ===== src/Printer/RoundTrip.antt =====
-- The attributes that transformer/printer/printer.go writes in an opening tag, read back.
use amppackager.Prelude.{
  List, [], ◌∷◌, ◌++◌, some, ◌≡◌, refl, sym, ap, ◌∙◌, All, Bool-cases, inl, inr, map,
}
use mathlib.Core.List.{append_assoc, append-nil}
use amppackager.Prelude.Text.{Bytes}
use amppackager.Transformer.{Attribute}
use amppackager.Printer.Attributes.{
  attribute_name, value_text, render_attrs, write_quoted, sort_attributes, insert_sorted, bytes_lt,
  sort_key,
}
use amppackager.Printer.Reader.{
  State, before_name, in_name, before_value, Pairs, turn, behind, read,
}
use amppackager.Printer.Reading.{
  IsName, IsUnquoted, TagEnd, Ready, at_start, at_name, read-goes, read-name, read-write_quoted,
  read-end, behind-nothing,
}

module _ (to_lower escape : Bytes → Bytes) where
  abbrev pub escaped : Bytes → Bytes
  escaped [] = []
  escaped (c ∷ cs) = escape (c ∷ cs)

  -- What is read for an attribute.
  abbrev pub written : Attribute → Bytes × Bytes
  written a = (attribute_name to_lower escape a, escaped a.val)

  read-value :
      (n v cs : Bytes)
      → All IsUnquoted (escape v)
      → (t : State) × (before left : Pairs) × Ready t left
        × (before ++ left ≡ (n, escaped v) ∷ [])
        × (read (in_name n) (value_text to_lower escape v ++ cs) ≡ behind before (read t cs))
  unfolding value_text turn
  read-value n [] cs h = (in_name n, [], (n, []) ∷ [], at_name n, refl, sym (behind-nothing _))
  read-value n (c ∷ v) cs h =
      let quoted = read-write_quoted n (escape (c ∷ v)) cs h in
      (
        quoted.0,
        quoted.1,
        quoted.2,
        quoted.3,
        quoted.4,
        read-goes (in_name n) (before_value n) b'=' (write_quoted (escape (c ∷ v)) ++ cs) refl
            ∙ quoted.5,
      )

  read-render_attrs :
      (attributes : List Attribute) {s : State} {done : Pairs} {tag_end : Bytes} (rest : Bytes)
      → ((v : Bytes) → All IsUnquoted (escape v))
      → All (λ a. IsName (attribute_name to_lower escape a)) attributes
      → Ready s done
      → TagEnd tag_end
      → read s (render_attrs to_lower escape attributes ++ (tag_end ++ rest))
        ≡ some (done ++ map written attributes, rest)
  unfolding render_attrs
  read-render_attrs [] rest safe names r e =
      read-end rest r e ∙ ap (λ d. some (d, rest)) (sym (append-nil _))
  read-render_attrs (a ∷ others) {s} {done} {tag_end} rest safe names r e =
      let n : Bytes = attribute_name to_lower escape a in
      let v : Bytes = value_text to_lower escape a.val in
      let more : Bytes = render_attrs to_lower escape others in
      let value = read-value n a.val (more ++ (tag_end ++ rest)) (safe a.val) in
      let later = read-render_attrs others rest safe names.1 value.3 e in
      let pairs : value.1 ++ (value.2 ++ map written others) ≡ written a ∷ map written others =
        sym (append_assoc value.1 value.2 (map written others))
        ∙ ap (λ ps. ps ++ map written others) value.4 in
      ap (λ text. read s (b' ' ∷ text))
        (append_assoc (n ++ v) more (tag_end ++ rest)
          ∙ append_assoc n v (more ++ (tag_end ++ rest)))
      ∙ read-name n (v ++ (more ++ (tag_end ++ rest))) names.0 r
      ∙ ap (behind done) (value.5 ∙ ap (behind value.1) later)
      ∙ ap (λ ps. some (done ++ ps, rest)) pairs

  insert_sorted-All :
      (P : Attribute → Type 0) (a : Attribute) (bs : List Attribute)
      → P a
      → All P bs
      → All P (insert_sorted a bs)
  unfolding insert_sorted
  insert_sorted-All P a [] h hs = (h, tt)
  insert_sorted-All P a (b ∷ bs) h hs = elim (Bool-cases (bytes_lt (sort_key b) (sort_key a))) [
    | inl e ↦ rw e (hs.0, insert_sorted-All P a bs h hs.1)
    | inr e ↦ rw e (h, hs)
  ]

  sort_attributes-All :
      (P : Attribute → Type 0) (bs : List Attribute) → All P bs → All P (sort_attributes bs)
  unfolding sort_attributes
  sort_attributes-All P [] hs = tt
  sort_attributes-All P (b ∷ bs) hs =
      insert_sorted-All P b (sort_attributes bs) hs.0 (sort_attributes-All P bs hs.1)

  module _ (unescape : Bytes → Bytes) where
    abbrev pub decoded : Bytes × Bytes → Bytes × Bytes
    decoded p = (p.0, unescape p.1)

    abbrev pub meant : Attribute → Bytes × Bytes
    meant a = (attribute_name to_lower escape a, a.val)

    unescape-escaped :
        (v : Bytes)
        → ((w : Bytes) → unescape (escape w) ≡ w)
        → unescape [] ≡ []
        → unescape (escaped v) ≡ v
    unescape-escaped [] back nothing = nothing
    unescape-escaped (c ∷ cs) back nothing = back (c ∷ cs)

    decoded-written :
        (attributes : List Attribute)
        → ((v : Bytes) → unescape (escape v) ≡ v)
        → unescape [] ≡ []
        → map decoded (map written attributes) ≡ map meant attributes
    decoded-written [] back nothing = refl
    decoded-written (a ∷ others) back nothing =
        let one : decoded (written a) ≡ meant a =
          ap (λ v. (attribute_name to_lower escape a, v)) (unescape-escaped a.val back nothing) in
        ap (λ p. p ∷ map decoded (map written others)) one
        ∙ ap (λ ps. meant a ∷ ps) (decoded-written others back nothing)

    -- The attributes in an opening tag are read back, in the order of the sort: the name of each and
    -- its value, up to the end of the tag, whichever end the printer writes and whatever follows.
    -- The names hold no byte that ends a name; an escaped text holds no double quote, and unescaping
    -- gives the text back.
    pub read-render_attrs-sort_attributes :
        {tag_end : Bytes} (attributes : List Attribute) (rest : Bytes)
        → ((v : Bytes) → All IsUnquoted (escape v))
        → ((v : Bytes) → unescape (escape v) ≡ v)
        → unescape [] ≡ []
        → All (λ a. IsName (attribute_name to_lower escape a)) attributes
        → TagEnd tag_end
        → (pairs : Pairs) × (read before_name
              (render_attrs to_lower escape (sort_attributes attributes) ++ (tag_end ++ rest))
            ≡ some (pairs, rest))
          × (map decoded pairs ≡ map meant (sort_attributes attributes))
    read-render_attrs-sort_attributes attributes rest safe back nothing names e =
        let sorted : List Attribute = sort_attributes attributes in
        let hs =
          sort_attributes-All (λ a. IsName (attribute_name to_lower escape a)) attributes names in
        (
          map written sorted,
          read-render_attrs sorted rest safe hs at_start e,
          decoded-written sorted back nothing,
        )
