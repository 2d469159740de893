-- ===== src/StripJs/Spaced.antt =====
-- Where the loop of `StripJS` in transformer/transformers/stripjs.go finds every event attribute.
use amppackager.Prelude.{
  ℕ, zero, suc, ◌≤◌, true, false, ◌&&◌, List, [], ◌∷◌, ◌++◌, Option, none, some, ◌≡◌, refl, sym, ap,
  ◌∙◌, arith, if◌then◌else◌, length, Bool-cases, inl, inr, All,
}
use amppackager.Transformer.{Attribute}
use amppackager.Dom.Slice.{attribute_eq, get_elem?, shown, remove_attribute}
use amppackager.StripJs.Events.{is_event, strip_from, strip_events, event_turn}
use amppackager.StripJs.EventLaws.{
  onto, get_elem?-slice_of, attribute_eq_refl, take-append, slice_of, without, without-onto,
  remove_attribute-lem, no_events, attribute_eq→eq, no_events-without,
}
use mathlib.Core.List.{append-nil}

-- No attribute is an event.
abbrev Quiet : List Attribute → Type 0
Quiet v = All (λ a. is_event a ≡ false) v

-- What a turn of the loop makes of the attributes that the slice shows: it may take one event out.
data Turned (v : List Attribute) : List Attribute → Type 0 where
  same : Turned v v
  took : (a : Attribute) → is_event a ≡ true → Turned v (without a v)

event_turn-lem :
    (o : Option Attribute) (v junk : List Attribute)
    → (w : List Attribute) × (j : List Attribute) × (event_turn o (slice_of v junk) ≡ slice_of w j)
      × Turned v w
event_turn-lem none v junk = (v, junk, refl, same)
event_turn-lem (some a) v junk = elim (Bool-cases (is_event a)) [
  | inl e ↦
      let removed = remove_attribute-lem a v junk in
      (without a v, removed.0, rw e removed.1, took a e)
  | inr e ↦ (v, junk, rw e refl, same)
]

no_events-Turned : {v w : List Attribute} → Turned v w → no_events w ≡ no_events v
no_events-Turned same = refl
no_events-Turned {v} (took a e) = no_events-without a v e

-- The loop keeps every attribute that is no event, in order.
strip_from-kept :
    (i n : ℕ) (v junk : List Attribute)
    → (w : List Attribute) × (j : List Attribute) × (strip_from i n (slice_of v junk)
        ≡ slice_of w j)
      × (no_events w ≡ no_events v)
unfolding strip_from
strip_from-kept i zero v junk = (v, junk, refl, refl)
strip_from-kept i (suc n) v junk =
    let one = event_turn-lem (get_elem? (v ++ junk) i) v junk in
    let later = strip_from-kept (suc i) n one.0 one.1 in
    (later.0, later.1, ap (strip_from (suc i) n) one.2 ∙ later.2, later.3 ∙ no_events-Turned one.3)

shown-slice_of : (v junk : List Attribute) → shown (slice_of v junk) ≡ v
shown-slice_of v junk = take-append v junk

strip_events-slice_of :
    (attributes : List Attribute)
    → strip_events attributes ≡ shown (strip_from 0 (length attributes) (slice_of attributes []))
unfolding strip_events
strip_events-slice_of attributes =
    ap
      (λ v.
        shown (strip_from 0 (length attributes) (record { array = v; len = length attributes })))
      (sym (append-nil attributes))

-- `StripJS` keeps the attributes of an element that are no events, in order.
pub strip_events-no_events :
    (attributes : List Attribute) → no_events (strip_events attributes) ≡ no_events attributes
strip_events-no_events attributes =
    let done = strip_from-kept 0 (length attributes) attributes [] in
    ap no_events (strip_events-slice_of attributes ∙ ap shown done.2 ∙ shown-slice_of done.0 done.1)
    ∙ done.3

without-Quiet : (a : Attribute) (v : List Attribute) → is_event a ≡ true → Quiet v → without a v ≡ v
without-Quiet a [] h q = refl
without-Quiet a (b ∷ v) h q = elim (Bool-cases (attribute_eq b a)) [
  | inl e ↦
      let both : true ≡ false = sym h ∙ ap (λ c. is_event c) (sym (attribute_eq→eq b a e)) ∙ q.0 in
      cc
  | inr e ↦ rw e (ap (λ w. b ∷ w) (without-Quiet a v h q.1))
]

without-apart :
    (a : Attribute) (v : List Attribute) → All (λ b. attribute_eq b a ≡ false) v → without a v ≡ v
without-apart a [] h = refl
without-apart a (b ∷ v) h = rw h.0 (ap (λ w. b ∷ w) (without-apart a v h.1))

Turned-Quiet : {v w : List Attribute} → Turned v w → Quiet v → w ≡ v
Turned-Quiet same q = refl
Turned-Quiet {v} (took a e) q = without-Quiet a v e q

-- Without events the loop changes nothing.
strip_from-Quiet :
    (i n : ℕ) (v junk : List Attribute)
    → Quiet v
    → (j : List Attribute) × (strip_from i n (slice_of v junk) ≡ slice_of v j)
unfolding strip_from
strip_from-Quiet i zero v junk q = (junk, refl)
strip_from-Quiet i (suc n) v junk q =
    let one = event_turn-lem (get_elem? (v ++ junk) i) v junk in
    let later = strip_from-Quiet (suc i) n v one.1 q in
    (
      later.0,
      ap (strip_from (suc i) n) (one.2 ∙ ap (λ w. slice_of w one.1) (Turned-Quiet one.3 q))
          ∙ later.1,
    )

-- No two events stand next to each other.
abbrev pub Spaced : List Attribute → Type 0
Spaced [] = Unit
Spaced (a ∷ rest) =
    elim rest [ [] ↦ Unit | b ∷ bs ↦ (is_event a && is_event b) ≡ false ] × Spaced rest

-- No attribute stands twice.
abbrev pub Distinct : List Attribute → Type 0
Distinct [] = Unit
Distinct (a ∷ rest) = All (λ b. attribute_eq b a ≡ false) rest × Distinct rest

Quiet-onto : (r q : List Attribute) → Quiet r → Quiet q → Quiet (onto r q)
Quiet-onto [] q h k = k
Quiet-onto (a ∷ r) q h k = Quiet-onto r (a ∷ q) h.1 (h.0, k)

-- An event that stands once goes.
taken :
    (r : List Attribute) (b : Attribute) (q junk : List Attribute)
    → is_event b ≡ true
    → Quiet r
    → All (λ c. attribute_eq c b ≡ false) q
    → (j : List Attribute) × (event_turn (some b) (slice_of (onto r (b ∷ q)) junk)
        ≡ slice_of (onto r q) j)
taken r b q junk e h apart =
    let removed = remove_attribute-lem b (onto r (b ∷ q)) junk in
    let left : without b (onto r (b ∷ q)) ≡ onto r q =
      without-onto b r (b ∷ q)
      ∙ ap (λ w. onto w (without b (b ∷ q))) (without-Quiet b r e h)
      ∙ ap (λ w. onto r w) (rw (attribute_eq_refl b) (without-apart b q apart)) in
    (removed.0, rw e (removed.1 ∙ ap (λ w. slice_of w removed.0) left))

-- A turn of the loop at the place behind `r`.
strip_from-turn :
    (r : List Attribute) (b : Attribute) (q junk : List Attribute) (n : ℕ)
    → strip_from (length r) (suc n) (slice_of (onto r (b ∷ q)) junk)
      ≡ strip_from (suc (length r)) n (event_turn (some b) (slice_of (onto r (b ∷ q)) junk))
unfolding strip_from
strip_from-turn r b q junk n =
    ap (λ o. strip_from (suc (length r)) n (event_turn o (slice_of (onto r (b ∷ q)) junk)))
      (get_elem?-slice_of r b q junk)

-- The loop at the place behind `r`, which holds no event.
strip_from-Spaced :
    (r q junk : List Attribute) (n : ℕ)
    → Quiet r
    → Spaced q
    → Distinct q
    → length q ≤ n
    → (j : List Attribute) × (strip_from (length r) n (slice_of (onto r q) junk)
        ≡ slice_of (onto r (no_events q)) j)
strip_from-Spaced r [] junk n h sp di le =
    strip_from-Quiet (length r) n (onto r []) junk (Quiet-onto r [] h tt)
strip_from-Spaced r (b ∷ q) junk zero h sp di le = absurd (omega arith)
strip_from-Spaced r (b ∷ []) junk (suc n) h sp di le = elim (Bool-cases (is_event b)) [
  | inl e ↦
      let gone = taken r b [] junk e h tt in
      let rest = strip_from-Quiet (suc (length r)) n (onto r []) gone.0 (Quiet-onto r [] h tt) in
      (
        rest.0,
        strip_from-turn r b [] junk n
            ∙ ap (strip_from (suc (length r)) n) gone.1
            ∙ rest.1
            ∙ rw e refl,
      )
  | inr e ↦
      let rest =
        strip_from-Quiet (length r) (suc n) (onto r (b ∷ [])) junk
          (Quiet-onto r (b ∷ []) h (e, tt)) in
      (rest.0, rest.1 ∙ rw e refl)
]
strip_from-Spaced r (b ∷ c ∷ q) junk (suc n) h sp di le = elim (Bool-cases (is_event b)) [
  | inl e ↦
      let gone = taken r b (c ∷ q) junk e h di.0 in
      let calm : is_event c ≡ false = rw (sym sp.0) (rw e refl) in
      let rest = strip_from-Spaced (c ∷ r) q gone.0 n (calm, h) sp.1.1 di.1.1 (omega arith) in
      (
        rest.0,
        strip_from-turn r b (c ∷ q) junk n
            ∙ ap (strip_from (suc (length r)) n) gone.1
            ∙ rest.1
            ∙ ap (λ v. slice_of (onto r v) rest.0) (rw (e, calm) refl),
      )
  | inr e ↦
      let rest = strip_from-Spaced (b ∷ r) (c ∷ q) junk n (e, h) sp.1 di.1 (omega arith) in
      (
        rest.0,
        strip_from-turn r b (c ∷ q) junk n
            ∙ ap
                (λ t. strip_from (suc (length r)) n (
                  if t
                  then remove_attribute b (slice_of (onto r (b ∷ c ∷ q)) junk)
                  else slice_of (onto r (b ∷ c ∷ q)) junk))
                e
            ∙ rest.1
            ∙ rw e refl,
      )
]

-- Of attributes of which none stands twice and no two events stand next to each other, `StripJS`
-- keeps the ones that are no events, in order, and no other.
pub strip_events-Spaced :
    (attributes : List Attribute)
    → Spaced attributes
    → Distinct attributes
    → strip_events attributes ≡ no_events attributes
unfolding strip_events
strip_events-Spaced attributes sp di =
    let done = strip_from-Spaced [] attributes [] (length attributes) tt sp di (omega arith) in
    strip_events-slice_of attributes
    ∙ ap shown done.1
    ∙ shown-slice_of (no_events attributes) done.0
