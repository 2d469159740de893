-- ===== src/Utf8/Valid.antt =====
-- Which documents `validateUTF8ForHTML` of transformer/utf8.go takes.
use mathlib.Core.Path.{subst}
use amppackager.Prelude.{
  ℕ, zero, suc, ◌≤◌, ◌≡◌, ◌↔◌, refl, sym, ap, Bool, true, [], ◌∷◌, ◌++◌, Result, ok, arith, length,
  length-append,
}
use amppackager.Prelude.Text.{Bytes}
use amppackager.Utf8.{
  is_html_valid, decode_rune, step, Utf8Error, validate_from, validate_utf8_for_html,
}
use amppackager.Utf8.Encoding.{
  Encodes, IsCharacter, is_html_valid_iff, Reads, reads, fails, decode_rune-Reads,
  decode_rune-Encodes,
}

-- The bytes encode code points in UTF-8, each a character that a document may have.
pub data IsHtml : Bytes → Type 0 where
  empty : IsHtml []
  rune :
      {r c : ℕ} {bs cs : Bytes}
      → Encodes r (c ∷ bs)
      → IsCharacter r
      → IsHtml cs
      → IsHtml (c ∷ (bs ++ cs))

step-eq-ok :
    (rest : Result Utf8Error (Unit {0})) (r : ℕ) (good : Bool) (bs : Bytes)
    → (step rest (r, good, bs) ≡ ok tt)
      ↔ ((good ≡ true) × (is_html_valid r ≡ true) × (rest ≡ ok tt))
step-eq-ok rest r good bs = ground arith

Reads-IsHtml :
    (c : ℕ) (cs : Bytes) (x : ℕ × Bool × Bytes)
    → Reads c cs x
    → x.1 ≡ true
    → is_html_valid x.0 ≡ true
    → IsHtml x.2
    → IsHtml (c ∷ cs)
Reads-IsHtml c cs x (reads {r = r} bs e s) g v ih =
    subst (λ y. IsHtml (c ∷ y)) (sym s) (rune e ((is_html_valid_iff r).0 v) ih)
Reads-IsHtml c cs x fails g v ih = absurd (cc)

Reads-length :
    (c : ℕ) (cs : Bytes) (x : ℕ × Bool × Bytes) → Reads c cs x → x.1 ≡ true → length x.2 ≤ length cs
Reads-length c cs x (reads {rest = rest} bs e s) g =
    omega (arith, length-append {0} bs rest, ap (λ y. length y) s)
Reads-length c cs x fails g = absurd (cc)

validate_from-IsHtml :
    (fuel : ℕ) (bs : Bytes) → length bs ≤ fuel → validate_from fuel bs ≡ ok tt → IsHtml bs
unfolding validate_from
validate_from-IsHtml fuel [] h e = empty
validate_from-IsHtml zero (c ∷ cs) h e = absurd (omega arith)
validate_from-IsHtml (suc fuel) (c ∷ cs) h e =
    let d = decode_rune c cs in
    let (good, valid, rest) = (step-eq-ok (validate_from fuel d.2) d.0 d.1 d.2).0 e in
    let known = decode_rune-Reads c cs in
    Reads-IsHtml c cs d known good valid
      (validate_from-IsHtml fuel d.2 (omega (arith, h, Reads-length c cs d known good)) rest)

IsHtml-validate_from :
    (fuel : ℕ) (html : Bytes) → IsHtml html → length html ≤ fuel → validate_from fuel html ≡ ok tt
unfolding validate_from
IsHtml-validate_from fuel html empty h = refl
IsHtml-validate_from zero (c ∷ cs) (rune e ch v) h = absurd (omega arith)
IsHtml-validate_from (suc fuel) html (rune {r = r} {c = c} {bs = bs} {cs = cs} e ch v) h =
    let ih = IsHtml-validate_from fuel cs v (omega (arith, h, length-append {0} bs cs)) in
    rw (decode_rune-Encodes r c bs cs e)
      ((step-eq-ok (validate_from fuel cs) r true cs).1 (refl, (is_html_valid_iff r).1 ch, ih))

-- The check takes a document exactly if its bytes are the UTF-8 of characters that HTML allows: no
-- control but white space, no surrogate and no noncharacter. The length of the document is enough
-- fuel.
pub validate_utf8_for_html-IsHtml :
    (html : Bytes) → (validate_utf8_for_html html ≡ ok tt) ↔ IsHtml html
unfolding validate_utf8_for_html
validate_utf8_for_html-IsHtml html = (
  validate_from-IsHtml (length html) html (omega arith),
  λ v. IsHtml-validate_from (length html) html v (omega arith),
)
