-- ===== src/Dom.antt =====
-- transformer/internal/htmlnode/htmlnode.go: the parsed document. A node is its fields and its
-- children; an atom is its name, empty for a tag that has none.
pub mod Attributes
pub mod Slice
pub mod Values
pub mod Walk
pub mod WalkLaws
use amppackager.Prelude.{ℕ, suc, ◌+◌, Option, none, some, ◌≡◌, Option-cases, inl, inr}
use amppackager.Prelude.Text.{Bytes}
use amppackager.Prelude.{List}
use amppackager.Transformer.{Attribute}

pub data Kind : Type 0 where
  error_node text_node document_node element_node comment_node doctype_node unknown_node : Kind

pub record Info : Type 0 where
  pub kind : Kind
  pub atom : Bytes
  pub data_text : Bytes
  pub namespace : Bytes
  pub attributes : List Attribute

mutual
  pub data Tree : Type 0 where
    node : Info → Forest → Tree

  -- The children of a node.
  pub data Forest : Type 0 where
    end : Forest
    child : Tree → Forest → Forest

-- The last child first.
abbrev pub onto : Forest → Forest → Forest
onto end us = us
onto (child t ts) us = onto ts (child t us)

-- The number of nodes.
unfoldable pub count : Forest → ℕ
count end = 0
count (child (node i cs) rest) =
    let below = count cs in let behind = count rest in suc (below + behind)

-- Every node has the property.
abbrev pub AllNodes : (Info → Type 0) → Forest → Type 0
AllNodes P end = Unit
AllNodes P (child (node i cs) rest) = P i × AllNodes P cs × AllNodes P rest

module _ (visit : Info → Option Info) where
  abbrev pub keep : Option Info → Forest → Forest → Forest
  keep none children rest = rest
  keep (some i) children rest = child (node i children) rest

  -- A pass over a document that drops some nodes and changes the fields of others.
  unfoldable pub prune : Forest → Forest
  prune end = end
  prune (child (node i cs) rest) =
      let children = prune cs in let behind = prune rest in keep (visit i) children behind

  -- What holds of every node that a pass keeps holds of the document that it leaves.
  pub prune-AllNodes :
      (P : Info → Type 0)
      → ((i j : Info) → visit i ≡ some j → P j)
      → (f : Forest) → AllNodes P (prune f)
  unfolding prune
  prune-AllNodes P h end = tt
  prune-AllNodes P h (child (node i cs) rest) =
      let below = prune-AllNodes P h cs in
      let behind = prune-AllNodes P h rest in
      elim (Option-cases (visit i)) [
        | inl e ↦ rw e behind
        | inr (j, e) ↦ rw e (h i j e, below, behind)
      ]
