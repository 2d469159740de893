-- ===== src/Reorder/Kept.antt =====
-- What `ReorderHead` of transformer/transformers/reorderhead.go keeps of the children of `<head>`.
use amppackager.Prelude.{
  ℕ, ◌+◌, ◌≤◌, List, [], ◌∷◌, Option, none, some, ◌≡◌, refl, ap, ◌∙◌, true, arith, ◌==◌, Bool-cases,
  inl, inr,
}
use amppackager.Prelude.Text.{Bytes}
use amppackager.Dom.{Tree}
use amppackager.Reorder.{
  HeadNodes, no_nodes, info, register, register_all, single, in_order, reorder_head,
}
use amppackager.Reorder.Scripts.{is_script_amp_extension}
use amppackager.Reorder.Slots.{
  Slot, charset, runtime_css, runtime_style, viewer, custom_style, boilerplate, fallback, slot_node,
  slot_of, later_of, unless_slot, last_of, plain, staying,
}
use amppackager.Reorder.Unique.{sum, sum-append, uniquify-le}
use amppackager.Reorder.Weights.{
  slotted, extensions, others, Registered, registered, register-Registered,
}

module _ (w : Tree → ℕ) (to_lower : Bytes → Bytes) where
  register-Slots :
      (n : Tree) (hn : HeadNodes) (k : Slot)
      → slot_node k (register to_lower n hn) ≡ later_of k (slot_of to_lower n) n (slot_node k hn)
  register-Slots n hn k = elim (register-Registered w to_lower n hn) [
    | registered a b h e o p q x ↦ h k
  ]

  register_all-last_of :
      (ns : List Tree) (hn : HeadNodes) (k : Slot)
      → slot_node k (register_all to_lower ns hn) ≡ last_of to_lower k ns (slot_node k hn)
  unfolding register_all
  register_all-last_of [] hn k = refl
  register_all-last_of (n ∷ ns) hn k =
      register_all-last_of ns (register to_lower n hn) k
      ∙ ap (λ o. last_of to_lower k ns o) (register-Slots n hn k)

  unless_slot-weight :
      (n : Tree) (hn next : HeadNodes) (s : Option Slot)
      → (is_script_amp_extension (info n) ≡ true → w n ≡ 0)
      → Registered w n hn s next
      → (extensions w next ≡ extensions w hn)
        × (others w next ≡ others w hn + sum w (unless_slot s n))
  unless_slot-weight n hn next none h (registered a b k e o p q x) =
      let total = p refl in
      let none_new : a ≡ 0 = elim (Bool-cases (a == 0)) [
        | inl z ↦ ground (arith, z)
        | inr z ↦ let light = h (x (λ y. ground (arith, y, z))) in omega (arith, total, light)
      ] in
      (omega (arith, e, none_new), omega (arith, o, total, none_new))
  unless_slot-weight n hn next (some k') h (registered a b k e o p q x) =
      let total = q (λ y. cc) in (omega (arith, e, total), omega (arith, o, total))

  register_all-weight :
      (ns : List Tree) (hn : HeadNodes)
      → ((n : Tree) → is_script_amp_extension (info n) ≡ true → w n ≡ 0)
      → (extensions w (register_all to_lower ns hn) ≡ extensions w hn)
        × (others w (register_all to_lower ns hn) ≡ others w hn + sum w (plain to_lower ns))
  unfolding register_all
  register_all-weight [] hn h = (refl, omega arith)
  register_all-weight (n ∷ ns) hn h =
      let next = register to_lower n hn in
      let (e, o) =
        unless_slot-weight n hn next (slot_of to_lower n) (h n)
          (register-Registered w to_lower n hn) in
      let (e', o') = register_all-weight ns next h in
      let split = sum-append w (unless_slot (slot_of to_lower n) n) (plain to_lower ns) in
      (omega (arith, e, e'), omega (arith, o, o', split))

  -- The children in their order weigh what the nodes do, but for extensions.
  pub in_order-weight :
      (hn : HeadNodes)
      → (slotted w hn + others w hn ≤ sum w (in_order hn))
        × (sum w (in_order hn) ≤ slotted w hn + others w hn + extensions w hn)
  unfolding in_order
  in_order-weight hn = (
    simp (sum-append w) (omega arith),
    simp (sum-append w) (
        omega (
          arith,
          uniquify-le w hn.script_render_delaying,
          uniquify-le w hn.script_non_render_delaying,
        )),
  )

  slotted-staying :
      (ns : List Tree)
      → slotted w (register_all to_lower ns no_nodes) + sum w (plain to_lower ns)
        ≡ sum w (staying to_lower ns)
  slotted-staying ns =
      let last : (k : Slot)
          → sum w (single (slot_node k (register_all to_lower ns no_nodes)))
            ≡ sum w (single (last_of to_lower k ns (slot_node k no_nodes))) =
        λ k. ap (λ o. sum w (single o)) (register_all-last_of ns no_nodes k) in
      simp (sum-append w) (
        omega (
          arith,
          last charset,
          last runtime_css,
          last runtime_style,
          last viewer,
          last custom_style,
          last boilerplate,
          last fallback,
        ))

  -- Of the children of `<head>` that are no scripts of extensions, `ReorderHead` keeps exactly the
  -- last of each kind that has one field (a charset, the stylesheet and the style of the runtime, the
  -- viewer script, the custom style, the boilerplate and a noscript) and all of the others, as often
  -- as they stand there.
  pub reorder_head-staying :
      (children : List Tree)
      → ((n : Tree) → is_script_amp_extension (info n) ≡ true → w n ≡ 0)
      → sum w (reorder_head to_lower children) ≡ sum w (staying to_lower children)
  unfolding reorder_head
  reorder_head-staying children h =
      let hn = register_all to_lower children no_nodes in
      let (low, high) = in_order-weight hn in
      let (no_ext, plain_ones) = register_all-weight children no_nodes h in
      omega (arith, low, high, no_ext, plain_ones, slotted-staying children)
