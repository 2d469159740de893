-- ===== src/Reorder/Bound.antt =====
-- `ReorderHead` of transformer/transformers/reorderhead.go adds nothing to `<head>`.
use amppackager.Prelude.{
  ℕ, ◌+◌, ◌≤◌, List, [], ◌∷◌, Option, none, some, ◌≡◌, refl, ap, arith, if◌then◌else◌, Bool-cases,
  inl, inr,
}
use amppackager.Prelude.Text.{Bytes}
use amppackager.Dom.{Tree}
use amppackager.Reorder.{HeadNodes, no_nodes, register, register_all, single, reorder_head}
use amppackager.Reorder.Slots.{
  Slot, charset, runtime_css, runtime_style, viewer, custom_style, boilerplate, fallback, same_slot,
  slot_node, slot_of, later_of,
}
use amppackager.Reorder.Unique.{sum}
use amppackager.Reorder.Weights.{
  slotted, extensions, others, Slots, Registered, registered, register-Registered,
}
use amppackager.Reorder.Kept.{in_order-weight}

module _ (w : Tree → ℕ) where
  -- The weight that a node brings to a slot.
  abbrev brought : Tree → Option Slot → Slot → ℕ
  brought n none k = 0
  brought n (some j) k = if same_slot j k then w n else 0

  later_of-le :
      (n : Tree) (k : Slot) (s : Option Slot) (o : Option Tree)
      → sum w (single (later_of k s n o)) ≤ sum w (single o) + brought n s k
  later_of-le n k none o = omega arith
  later_of-le n k (some j) o = elim (Bool-cases (same_slot j k)) [
    | inl e ↦ rw e (omega arith)
    | inr e ↦ rw e (omega arith)
  ]

  abbrev all_brought : Tree → Option Slot → ℕ
  all_brought n s =
      brought n s charset
      + brought n s runtime_css
      + brought n s runtime_style
      + brought n s viewer
      + brought n s custom_style
      + brought n s boilerplate
      + brought n s fallback

  brought_once : (n : Tree) (k : Slot) → all_brought n (some k) ≡ w n
  brought_once n charset = omega arith
  brought_once n runtime_css = omega arith
  brought_once n runtime_style = omega arith
  brought_once n viewer = omega arith
  brought_once n custom_style = omega arith
  brought_once n boilerplate = omega arith
  brought_once n fallback = omega arith

  slotted-le :
      (n : Tree) (s : Option Slot) (hn next : HeadNodes)
      → Slots w n s hn next
      → slotted w next ≤ slotted w hn + all_brought n s
  slotted-le n s hn next h =
      let at : (k : Slot)
          → sum w (single (slot_node k next)) ≤ sum w (single (slot_node k hn)) + brought n s k =
        λ k. omega (arith, ap (λ o. sum w (single o)) (h k), later_of-le n k s (slot_node k hn)) in
      omega (
        arith,
        at charset,
        at runtime_css,
        at runtime_style,
        at viewer,
        at custom_style,
        at boilerplate,
        at fallback,
      )

  -- What the fields of a head weigh together.
  abbrev weight_of : HeadNodes → ℕ
  weight_of hn = slotted w hn + extensions w hn + others w hn

  Registered-le :
      (n : Tree) (hn next : HeadNodes) (s : Option Slot)
      → Registered w n hn s next
      → weight_of next ≤ weight_of hn + w n
  Registered-le n hn next none (registered a b h e o p q x) =
      omega (arith, slotted-le n none hn next h, e, o, p refl)
  Registered-le n hn next (some k) (registered a b h e o p q x) =
      omega (arith, slotted-le n (some k) hn next h, brought_once n k, e, o, q (λ y. cc))

  module _ (to_lower : Bytes → Bytes) where
    register_all-le :
        (ns : List Tree) (hn : HeadNodes)
        → weight_of (register_all to_lower ns hn) ≤ weight_of hn + sum w ns
    unfolding register_all
    register_all-le [] hn = omega arith
    register_all-le (n ∷ ns) hn =
        let next = register to_lower n hn in
        omega (
          arith,
          register_all-le ns next,
          Registered-le n hn next (slot_of to_lower n) (register-Registered w to_lower n hn),
        )

    -- `ReorderHead` adds nothing to `<head>`: whatever the nodes weigh, the children weigh at most
    -- what they did, so no node stands there more often than before.
    reorder_head-le :
        (children : List Tree) → sum w (reorder_head to_lower children) ≤ sum w children
    unfolding reorder_head
    reorder_head-le children =
        let hn = register_all to_lower children no_nodes in
        omega (arith, (in_order-weight w to_lower hn).1, register_all-le children no_nodes)
