-- ===== src/Reorder/Unique.antt =====
-- The weight of the scripts that `uniquifyAndSortByExtensionScript` of
-- transformer/transformers/reorderhead.go keeps.
use amppackager.Prelude.{
  ℕ, ◌+◌, ◌≤◌, true, false, List, [], ◌∷◌, ◌++◌, Option, none, some, ◌≡◌, refl, sym, ap, ◌∙◌, arith,
  if◌then◌else◌, Bool-cases, inl, inr, All,
}
use amppackager.Prelude.Text.{Bytes, bytes_eq, bytes_eq_iff, lookup, insert, lookup-insert}
use amppackager.Dom.{Tree}
use amppackager.Printer.Attributes.{bytes_lt}
use amppackager.Reorder.{
  Scripts, add_script, collect_scripts, insert_string, sort_strings, single, scripts_of,
  uniquify_and_sort_by_extension_script, is_new, info,
}
use amppackager.Reorder.Scripts.{amp_extension_script_definition}

module _ (w : Tree → ℕ) where
  -- What some nodes weigh.
  abbrev pub sum : List Tree → ℕ
  sum [] = 0
  sum (n ∷ ns) = w n + sum ns

  pub sum-append : (ms ns : List Tree) → sum (ms ++ ns) ≡ sum ms + sum ns
  sum-append [] ns = omega arith
  sum-append (m ∷ ms) ns = omega (arith, sum-append ms ns)

  insert_string-weight :
      (m : List (Bytes × Tree)) (k : Bytes) (ks : List Bytes)
      → sum (scripts_of m (insert_string k ks)) ≡ sum (scripts_of m (k ∷ ks))
  unfolding insert_string scripts_of
  insert_string-weight m k [] = refl
  insert_string-weight m k (j ∷ js) = elim (Bool-cases (bytes_lt j k)) [
    | inl e ↦ rw e (
        omega (
          arith,
          insert_string-weight m k js,
          sum-append (single (lookup j m)) (scripts_of m (insert_string k js)),
          sum-append (single (lookup k m)) (scripts_of m js),
          sum-append (single (lookup k m)) (single (lookup j m) ++ scripts_of m js),
          sum-append (single (lookup j m)) (scripts_of m js),
        ))
    | inr e ↦ rw e refl
  ]

  sort_strings-weight :
      (m : List (Bytes × Tree)) (ks : List Bytes)
      → sum (scripts_of m (sort_strings ks)) ≡ sum (scripts_of m ks)
  unfolding sort_strings scripts_of
  sort_strings-weight m [] = refl
  sort_strings-weight m (k ∷ ks) = omega (
    arith,
    insert_string-weight m k (sort_strings ks),
    sort_strings-weight m ks,
    sum-append (single (lookup k m)) (scripts_of m (sort_strings ks)),
    sum-append (single (lookup k m)) (scripts_of m ks),
  )

  -- The map has a script for every key.
  abbrev Covered : List (Bytes × Tree) → List Bytes → Type 0
  Covered m ks = All (λ k. is_new (lookup k m) ≡ false) ks

  -- A new key changes no other.
  scripts_of-insert :
      (m : List (Bytes × Tree)) (e : Bytes) (s : Tree) (ks : List Bytes)
      → is_new (lookup e m) ≡ true
      → Covered m ks
      → (scripts_of (insert e s m) ks ≡ scripts_of m ks) × Covered (insert e s m) ks
  unfolding scripts_of
  scripts_of-insert m e s [] new h = (refl, tt)
  scripts_of-insert m e s (k ∷ ks) new h =
      let rest = scripts_of-insert m e s ks new h.1 in
      let same : lookup k (insert e s m) ≡ lookup k m = lookup-insert e k s m ∙ apart k h.0 in
      (
        ap (λ o. single o ++ scripts_of (insert e s m) ks) same
            ∙ ap (λ ts. single (lookup k m) ++ ts) rest.0,
        (ap (λ o. is_new o) same ∙ h.0, rest.1),
      )
    where
      apart :
          (j : Bytes)
          → is_new (lookup j m) ≡ false
          → (if bytes_eq e j then some s else lookup j m) ≡ lookup j m
      apart j old = elim (Bool-cases (bytes_eq e j)) [
        | inl same ↦
            let both : true ≡ false =
              sym new ∙ ap (λ k. is_new (lookup k m)) ((bytes_eq_iff e j).0 same) ∙ old in
            cc
        | inr other ↦ rw other refl
      ]

  scripts_of-snoc :
      (m : List (Bytes × Tree)) (ks : List Bytes) (e : Bytes)
      → sum (scripts_of m (ks ++ e ∷ [])) ≡ sum (scripts_of m ks) + sum (single (lookup e m))
  unfolding scripts_of
  scripts_of-snoc m [] e = omega (arith, sum-append (single (lookup e m)) [])
  scripts_of-snoc m (k ∷ ks) e = omega (
    arith,
    scripts_of-snoc m ks e,
    sum-append (single (lookup k m)) (scripts_of m ks),
    sum-append (single (lookup k m)) (scripts_of m (ks ++ e ∷ [])),
  )

  Covered-snoc :
      (m : List (Bytes × Tree)) (ks : List Bytes) (e : Bytes)
      → Covered m ks
      → is_new (lookup e m) ≡ false
      → Covered m (ks ++ e ∷ [])
  Covered-snoc m [] e h k = (k, tt)
  Covered-snoc m (j ∷ ks) e h k = (h.0, Covered-snoc m ks e h.1 k)

  abbrev Collected : Scripts → Tree → Scripts → Type 0
  Collected found s more =
      (sum (scripts_of more.0 more.1) ≤ sum (scripts_of found.0 found.1) + w s)
      × Covered more.0 more.1

  lookup-insert_same :
      (e : Bytes) (s : Tree) (m : List (Bytes × Tree)) → lookup e (insert e s m) ≡ some s
  lookup-insert_same e s m = lookup-insert e e s m ∙ rw ((bytes_eq_iff e e).1 refl) refl

  add_script-Collected :
      (ext : Option Bytes) (s : Tree) (found : Scripts)
      → Covered found.0 found.1
      → Collected found s (add_script ext s found)
  unfolding scripts_of
  add_script-Collected none s found h = (omega arith, h)
  add_script-Collected (some e) s found h = elim (Bool-cases (is_new (lookup e found.0))) [
    | inl new ↦
        let kept = scripts_of-insert found.0 e s found.1 new h in
        let there = lookup-insert_same e s found.0 in
        let more : List (Bytes × Tree) = insert e s found.0 in
        let one : sum (single (lookup e more)) ≡ w s + 0 = ap (λ o. sum (single o)) there in
        let same : sum (scripts_of more found.1) ≡ sum (scripts_of found.0 found.1) =
          ap sum kept.0 in
        rw new (
          omega (arith, scripts_of-snoc more found.1 e, one, same),
          Covered-snoc more found.1 e kept.1 (ap (λ o. is_new o) there),
        )
    | inr old ↦ rw old (omega arith, h)
  ]

  collect_scripts-le :
      (ss : List Tree) (found : Scripts)
      → Covered found.0 found.1
      → sum (scripts_of (collect_scripts ss found).0 (collect_scripts ss found).1)
        ≤ sum (scripts_of found.0 found.1) + sum ss
  unfolding collect_scripts
  collect_scripts-le [] found h = omega arith
  collect_scripts-le (s ∷ ss) found h =
      let one = add_script-Collected (amp_extension_script_definition (info s)) s found h in
      let later =
        collect_scripts-le ss (add_script (amp_extension_script_definition (info s)) s found)
          one.1 in
      omega (arith, one.0, later)

  -- Of some scripts, each is kept at most once.
  pub uniquify-le : (ns : List Tree) → sum (uniquify_and_sort_by_extension_script ns) ≤ sum ns
  unfolding uniquify_and_sort_by_extension_script scripts_of
  uniquify-le ns =
      let found : Scripts = collect_scripts ns ([], []) in
      omega (arith, collect_scripts-le ns ([], []) tt, sort_strings-weight found.0 found.1)
