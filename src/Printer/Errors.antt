-- ===== src/Printer/Errors.antt =====
-- When transformer/printer/printer.go prints a document and when it gives an error.
use amppackager.Prelude.{
  Bool, true, false, not, ◌&&◌, List, [], ◌∷◌, ◌≡◌, refl, ap, ◌∙◌, arith, if◌then◌else◌, Bool-cases,
  inl, inr, ok, err,
}
use amppackager.Prelude.Text.{Bytes}
use amppackager.Dom.{
  Kind, error_node, text_node, document_node, element_node, comment_node, doctype_node,
  unknown_node, Info, node, Forest, end, child,
}
use amppackager.Printer.{
  Rendered, is_void, has_children, render_text, render_element_node, render_node, render_children,
  is_raw, print, is_comment, ◌then◌,
}

abbrev pub is_ok : Rendered → Bool
is_ok (ok text) = true
is_ok (err why) = false

is_ok-then : (a b : Rendered) → is_ok (a then b) ≡ (is_ok a && is_ok b)
is_ok-then (ok a) (ok b) = refl
is_ok-then (ok a) (err e) = refl
is_ok-then (err e) b = refl

-- Whether a node of a kind can be printed, if its children can.
unfoldable pub node_printable : Kind → Info → Forest → Bool → Bool
node_printable error_node i cs inside = false
node_printable unknown_node i cs inside = false
node_printable document_node i cs inside = inside
node_printable element_node i cs inside = if is_void i then not (has_children cs) else inside
node_printable _ i cs inside = true

-- No node that is printed is an error or unknown, and no void element has children.
unfoldable pub printable : Forest → Bool
unfolding node_printable
printable end = true
printable (child (node i cs) rest) =
    let inside = printable cs in
    let behind = printable rest in node_printable i.kind i cs inside && behind

is_ok-render_text :
    (to_lower escape : Bytes → Bytes) (p : Info) (above : List Info) (first : Bool) (t : Bytes)
    → is_ok (render_text to_lower escape (p ∷ above) first t) ≡ true
unfolding render_text
is_ok-render_text to_lower escape p above first [] = refl
is_ok-render_text to_lower escape p above first (c ∷ cs) = ground arith

module _ (to_lower escape : Bytes → Bytes) where
  is_ok-render_element_node :
      (above : List Info) (i : Info) (cs : Forest) (inside : Rendered)
      → is_ok (render_element_node to_lower escape above i cs inside)
        ≡ (if is_void i then not (has_children cs) else is_ok inside)
  unfolding render_element_node
  is_ok-render_element_node above i end (ok text) = elim (Bool-cases (is_void i)) [
    | inl e ↦ rw e refl
    | inr e ↦ rw e refl
  ]
  is_ok-render_element_node above i end (err why) = elim (Bool-cases (is_void i)) [
    | inl e ↦ rw e refl
    | inr e ↦ rw e refl
  ]
  is_ok-render_element_node above i (child t ts) (ok text) = elim (Bool-cases (is_void i)) [
    | inl e ↦ rw e refl
    | inr e ↦ rw e refl
  ]
  is_ok-render_element_node above i (child t ts) (err why) = elim (Bool-cases (is_void i)) [
    | inl e ↦ rw e refl
    | inr e ↦ rw e refl
  ]

  is_ok-render_node :
      (k : Kind) (p : Info) (above : List Info) (raw first : Bool) (i : Info) (cs : Forest)
      (inside : Rendered)
      → is_ok (render_node to_lower escape k (p ∷ above) raw first i cs inside)
        ≡ node_printable k i cs (is_ok inside)
  unfolding render_node node_printable
  is_ok-render_node error_node p above raw first i cs inside = refl
  is_ok-render_node text_node p above true first i cs inside = refl
  is_ok-render_node text_node p above false first i cs inside =
      is_ok-render_text to_lower escape p above first i.data_text
  is_ok-render_node document_node p above raw first i cs inside = refl
  is_ok-render_node element_node p above raw first i cs inside =
      is_ok-render_element_node (p ∷ above) i cs inside
  is_ok-render_node comment_node p above raw first i cs inside = refl
  is_ok-render_node doctype_node p above raw first i cs inside = refl
  is_ok-render_node unknown_node p above raw first i cs inside = refl

  is_ok-render_children :
      (p : Info) (above : List Info) (raw first : Bool) (f : Forest)
      → is_ok (render_children to_lower escape (p ∷ above) raw first f) ≡ printable f
  unfolding render_children printable
  is_ok-render_children p above raw first end = refl
  is_ok-render_children p above raw first (child (node i cs) rest) =
      let inside : Rendered = render_children to_lower escape (i ∷ p ∷ above) (is_raw i) true cs in
      is_ok-then (render_node to_lower escape i.kind (p ∷ above) raw first i cs inside)
        (render_children to_lower escape (p ∷ above) raw (first && is_comment i.kind) rest)
      ∙ ap
          (λ b.
            b
            && is_ok
                (render_children to_lower escape (p ∷ above) raw (first && is_comment i.kind) rest))
          (is_ok-render_node i.kind p above raw first i cs inside
            ∙ ap (node_printable i.kind i cs)
                (is_ok-render_children i (p ∷ above) (is_raw i) true cs))
      ∙ ap (λ b. node_printable i.kind i cs (printable cs) && b)
          (is_ok-render_children p above raw (first && is_comment i.kind) rest)

  is_ok-print_document :
      (root : Info) (children : Forest)
      → root.kind ≡ document_node
      → is_ok (print to_lower escape (node root children))
        ≡ is_ok (render_children to_lower escape (root ∷ []) (is_raw root) true children)
  unfolding print render_node
  is_ok-print_document root children h = rw (print, h) refl

  -- A document is printed exactly when none of the nodes that are printed is an error or unknown,
  -- and no void element has children.
  pub print-printable :
      (root : Info) (children : Forest)
      → root.kind ≡ document_node
      → is_ok (print to_lower escape (node root children)) ≡ printable children
  unfolding print
  print-printable root children h =
      is_ok-print_document root children h
      ∙ is_ok-render_children root [] (is_raw root) true children
