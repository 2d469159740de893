-- ===== src/Printer/Comments.antt =====
-- The comments of a document and transformer/printer/printer.go.
use amppackager.Prelude.{
  Bool, true, false, ◌&&◌, List, [], ◌∷◌, ◌++◌, Option, none, some, ◌≡◌, refl, if◌then◌else◌,
  Bool-cases, inl, inr, ok, err,
}
use mathlib.Core.Path.{subst}
use amppackager.Prelude.Text.{Bytes, codes}
use amppackager.Dom.{
  Kind, error_node, text_node, document_node, element_node, comment_node, doctype_node,
  unknown_node, Info, node, Forest, end, child, prune,
}
use amppackager.Printer.{
  RenderError, Rendered, is_void, render_element_node, render_node, render_children, is_raw, print,
  is_comment, open_tag, close_tag, ◌then◌,
}

-- Two outputs of which the second is the first one, if that is no error.
data Agrees : Rendered → Rendered → Type 0 where
  agrees : {r : Rendered} → Agrees r r
  fails : {why : RenderError} {r : Rendered} → Agrees (err why) r

Agrees-then : {a b c d : Rendered} → Agrees a b → Agrees c d → Agrees (a then c) (b then d)
Agrees-then agrees agrees = agrees
Agrees-then {a = ok t} agrees fails = fails
Agrees-then {a = err e} agrees fails = agrees
Agrees-then fails h = fails

Agrees-around :
    (before after : Bytes) {a b : Rendered}
    → Agrees a b
    → Agrees (ok before then a then ok after) (ok before then b then ok after)
Agrees-around before after h =
    Agrees-then {a = ok before} agrees (Agrees-then {c = ok after} h agrees)

nothing-then : (r : Rendered) → ok [] then r ≡ r
nothing-then (ok text) = refl
nothing-then (err why) = refl

Agrees-if :
    (b : Bool) {w x y z : Rendered}
    → Agrees w x
    → Agrees y z
    → Agrees (if b then w else y) (if b then x else z)
Agrees-if true h k = h
Agrees-if false h k = k

Agrees-ok : {r : Rendered} {text : Bytes} → Agrees (ok text) r → r ≡ ok text
Agrees-ok agrees = refl

abbrev pub not_comment : Info → Option Info
not_comment i = if is_comment i.kind then none else some i

-- The document without its comments.
unfoldable pub without_comments : Forest → Forest
unfolding prune
without_comments f = prune not_comment f

and_true : (b : Bool) → (b && true) ≡ b
and_true true = refl
and_true false = refl

module _ (to_lower escape : Bytes → Bytes) where
  element-Agrees :
      (above : List Info) (i : Info) (cs : Forest) {a b : Rendered}
      → Agrees a b
      → Agrees
          (render_element_node to_lower escape above i cs a)
          (render_element_node to_lower escape above i (without_comments cs) b)
  unfolding render_element_node without_comments
  element-Agrees above i end h =
      Agrees-if (is_void i) agrees
        (Agrees-around (open_tag to_lower escape i ++ codes ">") (close_tag to_lower escape i) h)
  element-Agrees above i (child t ts) h =
      Agrees-if (is_void i) fails
        (Agrees-around (open_tag to_lower escape i ++ codes ">") (close_tag to_lower escape i) h)

  node-Agrees :
      (k : Kind) (above : List Info) (raw first : Bool) (i : Info) (cs : Forest) {a b : Rendered}
      → Agrees a b
      → Agrees
          (render_node to_lower escape k above raw first i cs a)
          (render_node to_lower escape k above raw first i (without_comments cs) b)
  unfolding render_node
  node-Agrees error_node above raw first i cs h = agrees
  node-Agrees text_node above raw first i cs h = agrees
  node-Agrees document_node above raw first i cs h = h
  node-Agrees element_node above raw first i cs h = element-Agrees above i cs h
  node-Agrees comment_node above raw first i cs h = agrees
  node-Agrees doctype_node above raw first i cs h = agrees
  node-Agrees unknown_node above raw first i cs h = agrees

  comment_first :
      (k : Kind) (above : List Info) (raw first : Bool) (i : Info) (cs : Forest) (a r : Rendered)
      → is_comment k ≡ true
      → render_node to_lower escape k above raw first i cs a then r ≡ r
  unfolding render_node
  comment_first comment_node above raw first i cs a r e = nothing-then r
  comment_first error_node above raw first i cs a r e = absurd cc
  comment_first text_node above raw first i cs a r e = absurd cc
  comment_first document_node above raw first i cs a r e = absurd cc
  comment_first element_node above raw first i cs a r e = absurd cc
  comment_first doctype_node above raw first i cs a r e = absurd cc
  comment_first unknown_node above raw first i cs a r e = absurd cc

  children-Agrees :
      (above : List Info) (raw first : Bool) (f : Forest)
      → Agrees
          (render_children to_lower escape above raw first f)
          (render_children to_lower escape above raw first (without_comments f))
  unfolding render_children without_comments prune
  children-Agrees above raw first end = agrees
  children-Agrees above raw first (child (node i cs) rest) =
      let inside = children-Agrees (i ∷ above) (is_raw i) true cs in
      elim (Bool-cases (is_comment i.kind)) [
        | inl e ↦
            rw
              (comment_first i.kind above raw first i cs _
                (render_children to_lower escape above raw (first && is_comment i.kind) rest) e)
              (rw e (rw (and_true first) (children-Agrees above raw first rest)))
        | inr e ↦ rw e (
            Agrees-then (node-Agrees i.kind above raw first i cs inside)
              (rw e (children-Agrees above raw (first && false) rest)))
      ]

  -- A document that is printed without an error gives the same text without its comments.
  pub print-without_comments :
      (root : Info) (children : Forest) (text : Bytes)
      → print to_lower escape (node root children) ≡ ok text
      → print to_lower escape (node root (without_comments children)) ≡ ok text
  unfolding print
  print-without_comments root children text h = Agrees-ok (
      subst (λ r. Agrees r (print to_lower escape (node root (without_comments children)))) h
        (node-Agrees root.kind [] false true root children
          (children-Agrees (root ∷ []) (is_raw root) true children)))
