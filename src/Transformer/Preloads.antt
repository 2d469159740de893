-- ===== src/Transformer/Preloads.antt =====
-- What `extractPreloads` of transformer/transformer.go answers.
use amppackager.Prelude.{
  ◌≤◌, ◌<◌, ◌≡◌, refl, sym, ap, ◌∙◌, Bool, true, false, List, [], ◌∷◌, ◌++◌, Option, none, some,
  ◌==◌, arith, Any, if◌then◌else◌, Bool-cases, inl, inr, length, length-append,
}
use mathlib.Core.List.{append_assoc, append-nil}
use amppackager.Transformer.{Node}
use amppackager.Transformer.Head.{
  Preload, Step, skip, crash, add, add_removed, step_of, Extracted, extracted, crashed,
  ends_at_limit, max_preloads, extract_from, extract_preloads, has_module, goes_on, after_step,
}

abbrev pub preload_of : Step → List Preload
preload_of skip = []
preload_of crash = []
preload_of (add p) = p ∷ []
preload_of (add_removed p) = p ∷ []

abbrev pub node_left : Step → Node → List Node
node_left (add_removed p) n = []
node_left _ n = n ∷ []

module _ (modules : Bool) where
  -- The preloads of the nodes, and the nodes that stay, in order.
  abbrev pub preloads_of : List Node → List Preload
  preloads_of [] = []
  preloads_of (n ∷ ns) = preload_of (step_of modules n) ++ preloads_of ns

  abbrev pub nodes_left : List Node → List Node
  nodes_left [] = []
  nodes_left (n ∷ ns) = node_left (step_of modules n) n ++ nodes_left ns

  preloads_of-snoc :
      (ns : List Node) (n : Node)
      → preloads_of (ns ++ n ∷ []) ≡ preloads_of ns ++ preload_of (step_of modules n)
  preloads_of-snoc [] n = append-nil (preload_of (step_of modules n))
  preloads_of-snoc (m ∷ ns) n = rw (preloads_of-snoc ns n) (
      sym (
        append_assoc (preload_of (step_of modules m)) (preloads_of ns)
          (preload_of (step_of modules n))))

  nodes_left-snoc :
      (ns : List Node) (n : Node)
      → nodes_left (ns ++ n ∷ []) ≡ nodes_left ns ++ node_left (step_of modules n) n
  nodes_left-snoc [] n = append-nil (node_left (step_of modules n) n)
  nodes_left-snoc (m ∷ ns) n = rw (nodes_left-snoc ns n) (
      sym (
        append_assoc (node_left (step_of modules m) m) (nodes_left ns)
          (node_left (step_of modules n) n)))

  -- Whether the last of the nodes has children.
  abbrev pub last_has_children : List Node → Option Bool
  last_has_children [] = none
  last_has_children (n ∷ []) = some n.has_children
  last_has_children (n ∷ m ∷ ns) = last_has_children (m ∷ ns)

  last_has_children-snoc :
      (ns : List Node) (n : Node) → last_has_children (ns ++ n ∷ []) ≡ some n.has_children
  last_has_children-snoc [] n = refl
  last_has_children-snoc (m ∷ []) n = refl
  last_has_children-snoc (m ∷ k ∷ ns) n = last_has_children-snoc (k ∷ ns) n

  -- Why the loop ends between `front` and `back`: nothing is left, or there are 20 preloads, or the
  -- last node of the front part has been removed, and of the nodes kept before it there is none, or
  -- the last one has children.
  pub data Ends (front back : List Node) : Type 0 where
    at_end : back ≡ [] → Ends front back
    at_limit : length (preloads_of front) ≡ max_preloads → Ends front back
    lost :
        (before : List Node) (n : Node) {p : Preload}
        → front ≡ before ++ n ∷ []
        → step_of modules n ≡ add_removed p
        → goes_on (last_has_children (nodes_left before)) ≡ false
        → Ends front back

  -- The preloads of a front part of the nodes, at most 20 of them, with the nodes that stay; or a
  -- node that crashes.
  pub data Extracts (nodes : List Node) : Extracted → Type 0 where
    extracts :
        {preloads : List Preload} {left : List Node} (front back : List Node)
        → nodes ≡ front ++ back
        → preloads ≡ preloads_of front
        → left ≡ nodes_left front ++ back
        → length preloads ≤ max_preloads
        → Ends front back
        → Extracts nodes (extracted preloads left)
    crashes : Any (λ n. step_of modules n ≡ crash) nodes → Extracts nodes crashed

  ends_at_limit-Extracts :
      (nodes : List Node) (preloads : List Preload) (left : List Node) (later : Extracted)
      → (length preloads ≡ max_preloads → Extracts nodes (extracted preloads left))
      → length preloads ≤ max_preloads
      → (length preloads < max_preloads → Extracts nodes later)
      → Extracts nodes (ends_at_limit preloads left later)
  ends_at_limit-Extracts nodes preloads left later e l h =
      elim (Bool-cases (length preloads == max_preloads)) [
        | inl q ↦ rw q (e (ground (arith, q)))
        | inr q ↦ rw q (h (ground (arith, q)))
      ]

  if-Extracts :
      (nodes : List Node) (b : Bool) (p q : Extracted)
      → Extracts nodes p
      → (b ≡ false → Extracts nodes q)
      → Extracts nodes (if b then p else q)
  if-Extracts nodes true p q s t = s
  if-Extracts nodes false p q s t = t refl

  one_more :
      (ps : List Preload) (r : Preload)
      → length ps < max_preloads
      → length (ps ++ r ∷ []) ≤ max_preloads
  one_more ps r l = omega (arith, l, length-append {0} ps (r ∷ []))

  Any-append : (P : Node → Type 0) (xs ys : List Node) → Any P ys → Any P (xs ++ ys)
  Any-append P [] ys h = h
  Any-append P (x ∷ xs) ys h = inr (Any-append P xs ys h)

  -- A loop over the nodes that are left, behind those of `front`.
  abbrev Loop :
      List Node → List Node → Option Bool → (List Preload → List Node → Extracted) → Type 0
  Loop nodes ns previous loop =
      (front : List Node) (preloads : List Preload) (kept : List Node)
      → nodes ≡ front ++ ns
      → preloads ≡ preloads_of front
      → kept ≡ nodes_left front
      → previous ≡ last_has_children kept
      → length preloads < max_preloads
      → Extracts nodes (loop preloads kept)

  module _ (nodes front : List Node) (n : Node) (ns : List Node) (e : nodes ≡ front ++ n ∷ ns) where
    moved : nodes ≡ (front ++ n ∷ []) ++ ns
    moved = e ∙ sym (append_assoc front (n ∷ []) ns)

    module _ (preloads : List Preload) (kept : List Node) (s : Step) (q : step_of modules n ≡ s)
        (p : preloads ≡ preloads_of front) (k : kept ≡ nodes_left front) where
      grown_preloads : preloads ++ preload_of s ≡ preloads_of (front ++ n ∷ [])
      grown_preloads = rw (p, preloads_of-snoc front n, q) refl

      grown_left : kept ++ node_left s n ≡ nodes_left (front ++ n ∷ [])
      grown_left = rw (k, nodes_left-snoc front n, q) refl

    after_step-Extracts :
        (behind behind_previous : List Preload → List Node → Extracted) (previous : Option Bool)
        (preloads : List Preload) (kept : List Node) (s : Step)
        → step_of modules n ≡ s
        → Loop nodes ns (some n.has_children) behind
        → Loop nodes ns previous behind_previous
        → preloads ≡ preloads_of front
        → kept ≡ nodes_left front
        → previous ≡ last_has_children kept
        → length preloads < max_preloads
        → Extracts nodes (after_step behind behind_previous previous preloads kept n ns s)
    after_step-Extracts behind behind_previous previous preloads kept skip q loop loop' p k c l =
        let same = sym (append-nil preloads) ∙ grown_preloads preloads kept skip q p k in
        ends_at_limit-Extracts nodes preloads _ _
          (λ full.
            extracts front (n ∷ ns) e p (ap (λ x. x ++ n ∷ ns) k) (omega (arith, l))
              (at_limit (rw (sym p) full)))
          (omega (arith, l))
          (loop (front ++ n ∷ []) preloads (kept ++ n ∷ []) moved same
            (grown_left preloads kept skip q p k) (sym (last_has_children-snoc kept n)))
    after_step-Extracts behind behind_previous previous preloads kept crash q loop loop' p k c l =
        crashes (rw e (Any-append (λ m. step_of modules m ≡ crash) front (n ∷ ns) (inl q)))
    after_step-Extracts behind behind_previous previous preloads kept (add r) q loop loop' p k c l =
        let more = grown_preloads preloads kept (add r) q p k in
        let left = grown_left preloads kept (add r) q p k in
        ends_at_limit-Extracts nodes (preloads ++ r ∷ []) _ _
          (λ full.
            extracts (front ++ n ∷ []) ns moved more
              (sym (append_assoc kept (n ∷ []) ns) ∙ ap (λ x. x ++ ns) left) (one_more preloads r l)
              (at_limit (rw (sym more) full)))
          (one_more preloads r l)
          (loop (front ++ n ∷ []) (preloads ++ r ∷ []) (kept ++ n ∷ []) moved more left
            (sym (last_has_children-snoc kept n)))
    after_step-Extracts behind behind_previous previous preloads kept (add_removed r) q loop loop' p
          k c l =
        let more = grown_preloads preloads kept (add_removed r) q p k in
        let left = sym (append-nil kept) ∙ grown_left preloads kept (add_removed r) q p k in
        let stop = λ (why : Ends (front ++ n ∷ []) ns).
          extracts (front ++ n ∷ []) ns moved more (ap (λ x. x ++ ns) left) (one_more preloads r l)
            why in
        ends_at_limit-Extracts nodes (preloads ++ r ∷ []) (kept ++ ns) _
          (λ full. stop (at_limit (rw (sym more) full))) (one_more preloads r l)
          (λ l'.
            if-Extracts nodes (goes_on previous) _ _
              (loop' (front ++ n ∷ []) (preloads ++ r ∷ []) kept moved more left c l')
              (λ stuck. stop (
                lost front n refl q (
                  ap (λ x. goes_on (last_has_children x)) (sym k)
                  ∙ ap (λ x. goes_on x) (sym c)
                  ∙ stuck))))

  extract_from-Extracts :
      (nodes front : List Node) (previous : Option Bool) (preloads : List Preload)
      (kept ns : List Node)
      → nodes ≡ front ++ ns
      → preloads ≡ preloads_of front
      → kept ≡ nodes_left front
      → previous ≡ last_has_children kept
      → length preloads < max_preloads
      → Extracts nodes (extract_from modules previous preloads kept ns)
  unfolding extract_from
  extract_from-Extracts nodes front previous preloads kept [] e p k c l =
      extracts front [] e p (k ∙ sym (append-nil (nodes_left front))) (omega (arith, l))
        (at_end refl)
  extract_from-Extracts nodes front previous preloads kept (n ∷ ns) e p k c l =
      after_step-Extracts nodes front n ns e _ _ previous preloads kept (step_of modules n) refl
        (λ f ps ks e' p' k' c' l'.
          extract_from-Extracts nodes f (some n.has_children) ps ks ns e' p' k' c' l')
        (λ f ps ks e' p' k' c' l'. extract_from-Extracts nodes f previous ps ks ns e' p' k' c' l') p
        k c l

-- The preloads are those of a front part of the children of `<head>`, in order, at most 20 of them;
-- of the children, only those of the front part go for which there is a preload of an image. The
-- front part is all of the children, or it has 20 preloads, or it ends with a child that is removed
-- where, of those kept before it, there is none or the last one has children. The code crashes only
-- at a child whose step does.
pub extract_preloads-Extracts :
    (head : List Node) → Extracts (has_module head) head (extract_preloads head)
unfolding extract_preloads
extract_preloads-Extracts head =
    extract_from-Extracts (has_module head) head [] none [] [] head refl refl refl refl
      (omega arith)
