-- ===== src/Dom/WalkLaws.antt =====
-- The loop over a document with `Next` and `RemoveNode` of
-- transformer/internal/htmlnode/htmlnode.go, against the recursion over its nodes.
use amppackager.Prelude.{
  ℕ, suc, ◌+◌, ◌-◌, ◌≤◌, List, [], ◌∷◌, Option, none, some, ◌≡◌, refl, ap, ◌∙◌, arith, Option-cases,
  inl, inr,
}
use amppackager.Dom.{Info, Tree, node, Forest, end, child, onto, count, prune}
use amppackager.Dom.Walk.{
  Frame, Pointer, at, next_skipping_children, next, last_below, last_child, prev, next_of, turn,
  walk,
}

abbrev frame : Forest → Info → Forest → Frame
frame b i a = record { before = b; parent = i; after = a }

-- Where the loop goes on behind the nodes `b`, when the nodes `a` follow.
abbrev onward : Forest → Info → Forest → List Frame → Pointer
unfolding next_skipping_children
onward b i end fs = next_skipping_children (node i (onto b end)) fs
onward b i (child u us) fs = at u (frame b i us ∷ fs)

skipping-onward :
    (t : Tree) (b : Forest) (i : Info) (a : Forest) (fs : List Frame)
    → next_skipping_children t (frame b i a ∷ fs) ≡ onward (child t b) i a fs
unfolding next_skipping_children
skipping-onward t b i end fs = refl
skipping-onward t b i (child u us) fs = refl

next-onward : (i : Info) (cs : Forest) (fs : List Frame) → next (node i cs) fs ≡ onward end i cs fs
unfolding next
next-onward i end fs = refl
next-onward i (child u us) fs = refl

-- A node with no child behind the ones before it is the last one itself.
abbrev Last : (Tree × List Frame) → Forest → Info → Forest → List Frame → Type 0
unfolding next_of
Last last b i end fs = next_of last ≡ next_skipping_children (node i (onto b end)) fs
Last last b i (child t ts) fs = Unit

mutual
  unfolding next_skipping_children next next_of last_below last_child

  next-last_below :
      (t : Tree) (fs : List Frame) → next_of (last_below t fs) ≡ next_skipping_children t fs
  next-last_below (node i end) fs = refl
  next-last_below (node i (child t ts)) fs =
      next-last_child (node i (child t ts), fs) end i (child t ts) fs tt

  next-last_child :
      (last : Tree × List Frame) (b : Forest) (i : Info) (cs : Forest) (fs : List Frame)
      → Last last b i cs fs
      → next_of (last_child last b i cs fs) ≡ next_skipping_children (node i (onto b cs)) fs
  next-last_child last b i end fs h = h
  next-last_child last b i (child t ts) fs h =
      next-last_child (last_below t (frame b i ts ∷ fs)) (child t b) i ts fs
        (elim ts as (λ us. Last (last_below t (frame b i us ∷ fs)) (child t b) i us fs) [
          | end ↦ next-last_below t (frame b i end ∷ fs)
          | child u us ↦ tt
        ])

next-prev :
    (b : Forest) (i : Info) (a : Forest) (fs : List Frame)
    → next_of (prev (frame b i a) fs) ≡ onward b i a fs
unfolding next_of prev
next-prev end i a fs = next-onward i a fs
next-prev (child t ts) i a fs = next-last_below t (frame ts i a ∷ fs) ∙ skipping-onward t ts i a fs

module _ (visit : Info → Option Info) where
  -- The turns of the loop over some nodes, with the fuel that is wanted behind them.
  abbrev turns : Option Info → (ℕ → ℕ) → ℕ → ℕ
  turns none below behind = suc behind
  turns (some i) below behind = suc (below behind)

  unfoldable fuel_for : Forest → ℕ → ℕ
  fuel_for end n = n
  fuel_for (child (node i cs) rest) n =
      let behind = fuel_for rest n in turns (visit i) (λ k. fuel_for cs k) behind

  walk_kept :
      (i j : Info) (cs : Forest) (fs : List Frame) (n : ℕ)
      → visit i ≡ some j
      → walk visit (suc n) (at (node i cs) fs) ≡ walk visit n (onward end j cs fs)
  unfolding walk
  walk_kept i j cs fs n e =
      ap (λ v. walk visit n (turn visit v cs fs)) e ∙ ap (walk visit n) (next-onward j cs fs)

  walk_dropped :
      (i : Info) (cs : Forest) (b : Forest) (p : Info) (a : Forest) (fs : List Frame) (n : ℕ)
      → visit i ≡ none
      → walk visit (suc n) (at (node i cs) (frame b p a ∷ fs)) ≡ walk visit n (onward b p a fs)
  unfolding walk
  walk_dropped i cs b p a fs n e =
      ap (λ v. walk visit n (turn visit v cs (frame b p a ∷ fs))) e
      ∙ ap (walk visit n) (next-prev b p a fs)

  walk-forest :
      (b : Forest) (i : Info) (cs : Forest) (fs : List Frame) (n : ℕ)
      → walk visit (fuel_for cs n) (onward b i cs fs)
        ≡ walk visit n (next_skipping_children (node i (onto b (prune visit cs))) fs)
  unfolding prune fuel_for onward
  walk-forest b i end fs n = refl
  walk-forest b i (child (node j ds) rest) fs n = elim (Option-cases (visit j)) [
    | inl e ↦ rw e (walk_dropped j ds b i rest fs (fuel_for rest n) e ∙ walk-forest b i rest fs n)
    | inr (k, e) ↦ rw e (
        walk_kept j k ds (frame b i rest ∷ fs) (fuel_for ds (fuel_for rest n)) e
        ∙ walk-forest end k ds (frame b i rest ∷ fs) (fuel_for rest n)
        ∙ ap (walk visit (fuel_for rest n)) (skipping-onward (node k (prune visit ds)) b i rest fs)
        ∙ walk-forest (child (node k (prune visit ds)) b) i rest fs n)
  ]

  fuel_for-le : (cs : Forest) (n : ℕ) → fuel_for cs n ≤ count cs + n
  unfolding fuel_for count
  fuel_for-le end n = omega arith
  fuel_for-le (child (node i cs) rest) n =
      let behind = fuel_for-le rest n in
      let below = fuel_for-le cs (fuel_for rest n) in
      elim (Option-cases (visit i)) [
        | inl e ↦ rw e (omega (arith, behind))
        | inr (j, e) ↦ rw e (omega (arith, behind, below))
      ]

  fuel_for-add : (cs : Forest) (n : ℕ) → fuel_for cs n ≡ fuel_for cs 0 + n
  unfolding fuel_for
  fuel_for-add end n = omega arith
  fuel_for-add (child (node i cs) rest) n =
      let behind = fuel_for-add rest n in
      let below = fuel_for-add cs (fuel_for rest n) in
      let first = fuel_for-add cs (fuel_for rest 0) in
      elim (Option-cases (visit i)) [
        | inl e ↦ rw e (omega (arith, behind))
        | inr (j, e) ↦ rw e (omega (arith, behind, below, first))
      ]

  -- The loop over a document whose root stays, with fuel for the root and every other node, ends
  -- with the document that the pass over all its nodes gives: every node that stays is visited,
  -- whatever is removed before it.
  pub walk-prune :
      (i j : Info) (cs : Forest) (n : ℕ)
      → visit i ≡ some j
      → count cs ≤ n
      → walk visit (suc n) (at (node i cs) []) ≡ some (node j (prune visit cs))
  unfolding walk next_skipping_children
  walk-prune i j cs n e enough =
      let left = n - fuel_for cs 0 in
      let all : n ≡ fuel_for cs left = omega (arith, fuel_for-le cs 0, fuel_for-add cs left) in
      walk_kept i j cs [] n e
      ∙ ap (λ m. walk visit m (onward end j cs [])) all
      ∙ walk-forest end j cs [] left
