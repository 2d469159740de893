-- ===== src/Dom/Walk.antt =====
-- transformer/internal/htmlnode/htmlnode.go: `Next`, `Prev` and `RemoveNode`, and the loop that the
-- transformers write with them, `for n := root; n != nil; n = htmlnode.Next(n)`.
use amppackager.Prelude.{ℕ, zero, suc, List, [], ◌∷◌, Option, none, some}
use amppackager.Dom.{Info, Tree, node, Forest, end, child, onto}

-- The parent of a node and its siblings on both sides, the ones before it from near to far.
pub record Frame : Type 0 where
  pub before : Forest
  pub parent : Info
  pub after : Forest

-- A pointer to a node of a document, nil with the document that is left, or the panic of a nil
-- parent.
pub data Pointer : Type 0 where
  at : Tree → List Frame → Pointer
  past : Tree → Pointer
  panic : Pointer

abbrev frame : Forest → Info → Forest → Frame
frame b i a = record { before = b; parent = i; after = a }

-- `NextSkippingChildren`
unfoldable pub next_skipping_children : Tree → List Frame → Pointer
next_skipping_children t [] = past t
next_skipping_children t (f ∷ fs) = elim f.after [
  | end ↦ next_skipping_children (node f.parent (onto f.before (child t end))) fs
  | child u us ↦ at u (frame (child t f.before) f.parent us ∷ fs)
]

-- `Next`
unfoldable pub next : Tree → List Frame → Pointer
unfolding next_skipping_children
next (node i end) fs = next_skipping_children (node i end) fs
next (node i (child t ts)) fs = at t (frame end i ts ∷ fs)

unfoldable mutual
  -- The loop of `Prev` to the last node below.
  pub last_below : Tree → List Frame → Tree × List Frame
  last_below (node i cs) fs = last_child (node i cs, fs) end i cs fs

  -- The last of some children is the one that no other overwrites.
  pub last_child : Tree × List Frame → Forest → Info → Forest → List Frame → Tree × List Frame
  last_child last b i end fs = last
  last_child last b i (child t ts) fs =
      last_child (last_below t (frame b i ts ∷ fs)) (child t b) i ts fs

-- `Prev`, of a node with a parent.
unfoldable pub prev : Frame → List Frame → Tree × List Frame
unfolding last_below
prev f fs = elim f.before [
  | end ↦ (node f.parent f.after, fs)
  | child t ts ↦ last_below t (frame ts f.parent f.after ∷ fs)
]

unfoldable pub next_of : Tree × List Frame → Pointer
unfolding next
next_of p = next p.0 p.1

-- One turn of the loop: a node that is dropped goes by `RemoveNode`, which dereferences the parent.
module _ (visit : Info → Option Info) where
  abbrev pub turn : Option Info → Forest → List Frame → Pointer
  turn (some i) cs fs = next (node i cs) fs
  turn none cs [] = panic
  turn none cs (f ∷ fs) = next_of (prev f fs)

  unfoldable pub walk : ℕ → Pointer → Option Tree
  unfolding next prev next_of
  walk n (past t) = some t
  walk n panic = none
  walk zero (at t fs) = none
  walk (suc n) (at (node i cs) fs) = walk n (turn (visit i) cs fs)
