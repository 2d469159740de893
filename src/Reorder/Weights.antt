-- ===== src/Reorder/Weights.antt =====
-- What registering a node does in transformer/transformers/reorderhead.go, weighed: the weight of
-- one node, and of no other, counts how often it stands there.
use amppackager.Prelude.{
  ℕ, ◌+◌, Bool, true, false, ◌||◌, [], ◌∷◌, Option, none, some, ◌≡◌, ◌≢◌, refl, ap, arith,
  Bool-cases, inl, inr, if◌then◌else◌,
}
use amppackager.Prelude.Text.{Bytes, codes, bytes_eq, bytes_eq_iff}
use amppackager.Dom.{Tree}
use amppackager.Dom.Attributes.{attribute_val, has_attribute}
use amppackager.Reorder.{
  HeadNodes, info, is_nil, is_runtime_css, add_other, register_rel, register_link, register_meta,
  register_script, register_style, register, single,
}
use amppackager.Reorder.Scripts.{
  is_script_amp_extension, is_script_amp_runtime, is_script_amp_viewer, is_script_render_delaying,
}
use amppackager.Reorder.Slots.{
  Slot, charset, runtime_css, runtime_style, viewer, custom_style, boilerplate, fallback, slot_node,
  rel_slot, link_slot, meta_slot, script_slot, style_slot, slot_of, later_of,
}
use amppackager.Reorder.Unique.{sum, sum-append}

module _ (w : Tree → ℕ) where
  -- The weights of the nodes with a slot, of the scripts of extensions, and of the others.
  abbrev pub slotted : HeadNodes → ℕ
  slotted hn =
      sum w (single (slot_node charset hn))
      + sum w (single (slot_node runtime_css hn))
      + sum w (single (slot_node runtime_style hn))
      + sum w (single (slot_node viewer hn))
      + sum w (single (slot_node custom_style hn))
      + sum w (single (slot_node boilerplate hn))
      + sum w (single (slot_node fallback hn))

  abbrev pub extensions : HeadNodes → ℕ
  extensions hn = sum w hn.script_render_delaying + sum w hn.script_non_render_delaying

  abbrev pub others : HeadNodes → ℕ
  others hn =
      sum w hn.meta_other
      + sum w hn.script_amp_runtime
      + sum w hn.link_favicon
      + sum w hn.link_resource_hint
      + sum w hn.link_stylesheet_before_amp_custom
      + sum w hn.other

  abbrev pub Slots : Tree → Option Slot → HeadNodes → HeadNodes → Type 0
  Slots n s hn next = (k : Slot) → slot_node k next ≡ later_of k s n (slot_node k hn)

  -- What registering a node does: it takes its slot, or its weight counts among the extensions or
  -- among the others.
  pub data Registered (n : Tree) (hn : HeadNodes) (s : Option Slot) : HeadNodes → Type 0 where
    registered :
        {next : HeadNodes} (a b : ℕ)
        → Slots n s hn next
        → extensions next ≡ extensions hn + a
        → others next ≡ others hn + b
        → (s ≡ none → a + b ≡ w n)
        → (s ≢ none → a + b ≡ 0)
        → (a ≢ 0 → is_script_amp_extension (info n) ≡ true)
        → Registered n hn s next

  Slots-seven :
      (n : Tree) (s : Option Slot) (hn next : HeadNodes)
      → next.meta_charset ≡ later_of charset s n hn.meta_charset
      → next.link_stylesheet_runtime_css ≡ later_of runtime_css s n hn.link_stylesheet_runtime_css
      → next.style_amp_runtime ≡ later_of runtime_style s n hn.style_amp_runtime
      → next.script_amp_viewer ≡ later_of viewer s n hn.script_amp_viewer
      → next.style_amp_custom ≡ later_of custom_style s n hn.style_amp_custom
      → next.style_amp_boilerplate ≡ later_of boilerplate s n hn.style_amp_boilerplate
      → next.noscript ≡ later_of fallback s n hn.noscript
      → Slots n s hn next
  Slots-seven n s hn next a b c d e f g charset = a
  Slots-seven n s hn next a b c d e f g runtime_css = b
  Slots-seven n s hn next a b c d e f g runtime_style = c
  Slots-seven n s hn next a b c d e f g viewer = d
  Slots-seven n s hn next a b c d e f g custom_style = e
  Slots-seven n s hn next a b c d e f g boilerplate = f
  Slots-seven n s hn next a b c d e f g fallback = g

  as_other :
      {n : Tree} {hn next : HeadNodes}
      → Slots n none hn next
      → extensions next ≡ extensions hn
      → others next ≡ others hn + w n
      → Registered n hn none next
  as_other {n = n} h e o =
      registered 0 (w n) h (omega (arith, e)) o (λ z. omega arith) (λ z. absurd (z refl))
        (λ z. absurd (z refl))

  as_slot :
      {n : Tree} {hn next : HeadNodes} (k : Slot)
      → Slots n (some k) hn next
      → extensions next ≡ extensions hn
      → others next ≡ others hn
      → Registered n hn (some k) next
  as_slot k h e o =
      registered 0 0 h (omega (arith, e)) (omega (arith, o)) (λ z. absurd (cc)) (λ z. refl)
        (λ z. absurd (z refl))

  as_extension :
      {n : Tree} {hn next : HeadNodes}
      → is_script_amp_extension (info n) ≡ true
      → Slots n none hn next
      → extensions next ≡ extensions hn + w n
      → others next ≡ others hn
      → Registered n hn none next
  as_extension {n = n} x h e o =
      registered (w n) 0 h e (omega (arith, o)) (λ z. omega arith) (λ z. absurd (z refl)) (λ z. x)

  Registered-if :
      {n : Tree} {hn x y : HeadNodes} {s t : Option Slot} (b : Bool)
      → (b ≡ true → Registered n hn s x)
      → (b ≡ false → Registered n hn t y)
      → Registered n hn (if b then s else t) (if b then x else y)
  Registered-if true f g = f refl
  Registered-if false f g = g refl

  Registered-either :
      {n : Tree} {hn x y : HeadNodes} {s : Option Slot} (b : Bool)
      → (b ≡ true → Registered n hn s x)
      → (b ≡ false → Registered n hn s y)
      → Registered n hn s (if b then x else y)
  Registered-either true f g = f refl
  Registered-either false f g = g refl

  add_other-Registered : (n : Tree) (hn : HeadNodes) → Registered n hn none (add_other n hn)
  add_other-Registered n hn =
      as_other (Slots-seven n none hn _ refl refl refl refl refl refl refl) refl
        (omega (arith, sum-append w hn.other (n ∷ [])))

  register_meta-Registered :
      (n : Tree) (hn : HeadNodes) → Registered n hn (meta_slot n) (register_meta n hn)
  unfolding register_meta
  register_meta-Registered n hn =
      Registered-if (has_attribute [] (codes "charset") (info n).attributes)
        (λ e.
          as_slot charset (Slots-seven n (some charset) hn _ refl refl refl refl refl refl refl)
            refl refl)
        (λ e.
          as_other (Slots-seven n none hn _ refl refl refl refl refl refl refl) refl
            (omega (arith, sum-append w hn.meta_other (n ∷ []))))

  register_style-Registered :
      (n : Tree) (hn : HeadNodes) → Registered n hn (style_slot n) (register_style n hn)
  unfolding register_style
  register_style-Registered n hn =
      Registered-if
        (has_attribute [] (codes "amp-boilerplate") (info n).attributes
          || has_attribute [] (codes "amp4ads-boilerplate") (info n).attributes)
        (λ a.
          as_slot boilerplate
            (Slots-seven n (some boilerplate) hn _ refl refl refl refl refl refl refl) refl refl)
        (λ a.
          Registered-if (has_attribute [] (codes "amp-custom") (info n).attributes)
            (λ b.
              as_slot custom_style
                (Slots-seven n (some custom_style) hn _ refl refl refl refl refl refl refl) refl
                refl)
            (λ b.
              Registered-if (has_attribute [] (codes "amp-runtime") (info n).attributes)
                (λ c.
                  as_slot runtime_style
                    (Slots-seven n (some runtime_style) hn _ refl refl refl refl refl refl refl)
                    refl refl)
                (λ c. add_other-Registered n hn)))

  register_script-Registered :
      (n : Tree) (hn : HeadNodes) → Registered n hn (script_slot n) (register_script n hn)
  unfolding register_script
  register_script-Registered n hn =
      Registered-if (is_script_amp_runtime (info n))
        (λ a.
          as_other (Slots-seven n none hn _ refl refl refl refl refl refl refl) refl
            (omega (arith, sum-append w hn.script_amp_runtime (n ∷ []))))
        (λ a.
          Registered-if (is_script_amp_viewer (info n))
            (λ b.
              as_slot viewer (Slots-seven n (some viewer) hn _ refl refl refl refl refl refl refl)
                refl refl)
            (λ b.
              Registered-either (is_script_amp_extension (info n))
                (λ c.
                  Registered-either (is_script_render_delaying (info n))
                    (λ d.
                      as_extension c (Slots-seven n none hn _ refl refl refl refl refl refl refl)
                        (omega (arith, sum-append w hn.script_render_delaying (n ∷ []))) refl)
                    (λ d.
                      as_extension c (Slots-seven n none hn _ refl refl refl refl refl refl refl)
                        (omega (arith, sum-append w hn.script_non_render_delaying (n ∷ []))) refl))
                (λ c. add_other-Registered n hn)))

  no_stylesheet :
      (test : Bytes → Bool) (rel : Bytes)
      → test rel ≡ true
      → test (codes "stylesheet") ≡ false
      → bytes_eq rel (codes "stylesheet") ≡ false
  no_stylesheet test rel h k = elim (Bool-cases (bytes_eq rel (codes "stylesheet"))) [
    | inl e ↦ let same = ap test ((bytes_eq_iff rel (codes "stylesheet")).0 e) in absurd (cc)
    | inr e ↦ e
  ]

  abbrev is_icon : Bytes → Bool
  is_icon rel =
      bytes_eq rel (codes "icon")
      || bytes_eq rel (codes "icon shortcut")
      || bytes_eq rel (codes "shortcut icon")

  register_rel-Registered :
      (rel : Bytes) (n : Tree) (hn : HeadNodes)
      → Registered n hn (rel_slot rel n) (register_rel rel n hn)
  unfolding register_rel
  register_rel-Registered rel n hn =
      Registered-either (bytes_eq rel (codes "dns-prefetch preconnect"))
        (λ a. rw (no_stylesheet (λ x. bytes_eq x (codes "dns-prefetch preconnect")) rel a refl) (
          as_other (Slots-seven n none hn _ refl refl refl refl refl refl refl) refl
            (omega (arith, sum-append w hn.link_resource_hint (n ∷ [])))))
        (λ a.
          Registered-either
            (bytes_eq rel (codes "icon")
              || bytes_eq rel (codes "icon shortcut")
              || bytes_eq rel (codes "shortcut icon"))
            (λ b. rw (no_stylesheet is_icon rel b refl) (
              as_other (Slots-seven n none hn _ refl refl refl refl refl refl refl) refl
                (omega (arith, sum-append w hn.link_favicon (n ∷ [])))))
            (λ b.
              Registered-either (bytes_eq rel (codes "stylesheet"))
                (λ c. rw c (
                  Registered-if
                    (is_runtime_css (attribute_val [] (codes "href") (info n).attributes))
                    (λ d.
                      as_slot runtime_css
                        (Slots-seven n (some runtime_css) hn _ refl refl refl refl refl refl refl)
                        refl refl)
                    (λ d.
                      Registered-either (is_nil hn.style_amp_custom)
                        (λ x.
                          as_other (Slots-seven n none hn _ refl refl refl refl refl refl refl) refl
                            (omega
                              (arith, sum-append w hn.link_stylesheet_before_amp_custom (n ∷ []))))
                        (λ x. add_other-Registered n hn))))
                (λ c. rw c (add_other-Registered n hn))))

  module _ (to_lower : Bytes → Bytes) where
    register_link-Registered :
        (n : Tree) (hn : HeadNodes)
        → Registered n hn
            (link_slot to_lower (attribute_val [] (codes "rel") (info n).attributes) n)
            (register_link to_lower n hn)
    unfolding register_link
    register_link-Registered n hn =
        elim (attribute_val [] (codes "rel") (info n).attributes)
          as (λ o.
            Registered n hn (link_slot to_lower o n)
              (elim o [ none ↦ add_other n hn | some rel ↦ register_rel (to_lower rel) n hn ])) [
                | none ↦ add_other-Registered n hn
                | some rel ↦ register_rel-Registered (to_lower rel) n hn
              ]

    pub register-Registered :
        (n : Tree) (hn : HeadNodes) → Registered n hn (slot_of to_lower n) (register to_lower n hn)
    unfolding register
    register-Registered n hn =
        Registered-if (bytes_eq (info n).atom (codes "link")) (λ a. register_link-Registered n hn)
          (λ a.
            Registered-if (bytes_eq (info n).atom (codes "meta"))
              (λ b. register_meta-Registered n hn)
              (λ b.
                Registered-if (bytes_eq (info n).atom (codes "noscript"))
                  (λ c.
                    as_slot fallback
                      (Slots-seven n (some fallback) hn _ refl refl refl refl refl refl refl) refl
                      refl)
                  (λ c.
                    Registered-if (bytes_eq (info n).atom (codes "script"))
                      (λ d. register_script-Registered n hn)
                      (λ d.
                        Registered-if (bytes_eq (info n).atom (codes "style"))
                          (λ e. register_style-Registered n hn) (λ e. add_other-Registered n hn)))))
