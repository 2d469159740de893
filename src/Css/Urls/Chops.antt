-- ===== src/Css/Urls/Chops.antt =====
-- transformer/internal/css/cssurl.go: what the segments are of the style sheet.
use amppackager.Prelude.{
  ℕ, suc, ◌+◌, ◌≡◌, ◌≢◌, refl, ap, ◌∙◌, Bool, true, false, ◌&&◌, List, [], ◌∷◌, ◌++◌, Option, none,
  some, ltb, if◌then◌else◌, Result, ok, err, arith,
}
use mathlib.Core.List.{append_assoc}
use amppackager.Prelude.Text.{Bytes}
use amppackager.Css.Runes.{preprocess}
use amppackager.Css.Reads.{TokenType, Token, ◌>>=◌}
use amppackager.Css.Tokenizer.{is_eof, is_error, tokenize_css}
use amppackager.Css.Tiles.{
  Tiles, at_eof, at_error, tile, Tiled, tiled, texts, or_false, or_false_left, tokenize_css-Tiled,
}
use amppackager.Css.Urls.{
  SegmentType, byte_type, image_url_type, font_url_type, Segment, bytes_before, url_segment,
  add_segments, segments_from, parse_urls, is_at_keyword, is_url,
}
use amppackager.Css.Urls.Rules.{Gives, consume_an_at_rule-Gives}

-- The texts and the values of the tokens that are URLs.
abbrev pub url_texts : List Token → List Bytes
url_texts [] = []
url_texts (t ∷ ts) = let rest = url_texts ts in if is_url t.kind then t.text ∷ rest else rest

abbrev pub url_values : List Token → List Bytes
url_values [] = []
url_values (t ∷ ts) = let rest = url_values ts in if is_url t.kind then t.value ∷ rest else rest

abbrev pub is_byte_type : SegmentType → Bool
is_byte_type byte_type = true
is_byte_type _ = false

abbrev pub segment_values : List Segment → List Bytes
segment_values [] = []
segment_values (s ∷ ss) =
    let rest = segment_values ss in if is_byte_type s.kind then rest else s.data_of ∷ rest

-- The style sheet with the given texts in place of its URLs.
abbrev pub restore : List Bytes → List Segment → Bytes
restore us [] = []
restore [] (s ∷ ss) =
    let rest = restore [] ss in if is_byte_type s.kind then s.data_of ++ rest else rest
restore (u ∷ us) (s ∷ ss) =
    let plain = restore (u ∷ us) ss in
    let rest = restore us ss in if is_byte_type s.kind then s.data_of ++ plain else u ++ rest

-- The segments of the tokens `ts` of a text `bs`, where the bytes `sb` come before them. The text of
-- the last token is in no segment.
pub data Segments (sb : Bytes)
    : Bytes → List Token → Option (Result Bytes (List Segment)) → Type 0 where
  chopped :
      {ss : List Segment} {bs : Bytes} (ts : List Token) (t : Token)
      → is_eof t.kind ≡ true
      → restore (url_texts ts) ss ≡ sb ++ texts ts
      → segment_values ss ≡ url_values ts
      → texts ts ++ t.text ≡ bs
      → Segments sb bs (ts ++ t ∷ []) (some (ok ss))
  refused :
      {bs : Bytes} (ts : List Token) (t : Token)
      → is_error t.kind ≡ true
      → Segments sb bs (ts ++ t ∷ []) (some (err t.value))

is_byte_type-url : (b : Bool) → is_byte_type (if b then font_url_type else image_url_type) ≡ false
is_byte_type-url true = refl
is_byte_type-url false = refl

abbrev linked : Bytes → ℕ → ℕ → Bytes → List Segment
linked sb i end value = bytes_before sb ++ url_segment i end value ∷ []

restore-link :
    (sb u : Bytes) (us : List Bytes) (ss : List Segment) (i end : ℕ) (value : Bytes)
    → restore (u ∷ us) (linked sb i end value ++ ss) ≡ sb ++ (u ++ restore us ss)
restore-link [] u us ss i end value = rw (is_byte_type-url (ltb i end)) refl
restore-link (c ∷ cs) u us ss i end value = rw (is_byte_type-url (ltb i end)) refl

segment_values-link :
    (sb : Bytes) (i end : ℕ) (value : Bytes) (ss : List Segment)
    → segment_values (linked sb i end value ++ ss) ≡ value ∷ segment_values ss
segment_values-link [] i end value ss = rw (is_byte_type-url (ltb i end)) refl
segment_values-link (c ∷ cs) i end value ss = rw (is_byte_type-url (ltb i end)) refl

link-Segments :
    (sb bs rest : Bytes) (t : Token) (ts : List Token) (i end : ℕ)
    (m : Option (Result Bytes (List Segment)))
    → is_url t.kind ≡ true
    → t.text ++ rest ≡ bs
    → Segments [] rest ts m
    → Segments sb bs
        (t ∷ ts)
        (m >>= λ rest. some (add_segments (bytes_before sb ++ url_segment i end t.value ∷ []) rest))
link-Segments sb bs rest t ts i end m h q (chopped us u e r v x) =
    chopped (t ∷ us) u e
      (rw h
        (restore-link sb t.text (url_texts us) _ i end t.value ∙ ap (λ x. sb ++ (t.text ++ x)) r))
      (rw h (segment_values-link sb i end t.value _ ∙ ap (λ x. t.value ∷ x) v))
      (append_assoc t.text (texts us) u.text ∙ ap (λ y. t.text ++ y) x ∙ q)
link-Segments sb bs rest t ts i end m h q (refused us u e) = refused (t ∷ us) u e

plain-Segments :
    (sb bs rest : Bytes) (t : Token) (ts : List Token) (m : Option (Result Bytes (List Segment)))
    → is_url t.kind ≡ false
    → t.text ++ rest ≡ bs
    → Segments (sb ++ t.text) rest ts m
    → Segments sb bs (t ∷ ts) m
plain-Segments sb bs rest t ts m h q (chopped us u e r v x) =
    chopped (t ∷ us) u e (rw h (r ∙ append_assoc sb t.text (texts us))) (rw h v)
      (append_assoc t.text (texts us) u.text ∙ ap (λ y. t.text ++ y) x ∙ q)
plain-Segments sb bs rest t ts m h q (refused us u e) = refused (t ∷ us) u e

if-Segments :
    {sb bs : Bytes} {ts : List Token} (b : Bool) (p q : Option (Result Bytes (List Segment)))
    → (b ≡ true → Segments sb bs ts p)
    → (b ≡ false → Segments sb bs ts q)
    → Segments sb bs ts (if b then p else q)
if-Segments true p q s t = s refl
if-Segments false p q s t = t refl

bind-Segments :
    {sb bs : Bytes} {ts : List Token} (m : Option ℕ) (f : ℕ → Option (Result Bytes (List Segment)))
    → Gives m
    → ((n : ℕ) → Segments sb bs ts (f n))
    → Segments sb bs ts (m >>= f)
bind-Segments none f g k = elim g [ ]
bind-Segments (some n) f g k = k n

and_true : (b c : Bool) → b && c ≡ true → b ≡ true
and_true true c h = refl
and_true false c h = h

at_not_url : (kind : TokenType) → is_at_keyword kind ≡ true → is_url kind ≡ false
at_not_url kind h = ground (arith, h)

eof_not_error : (kind : TokenType) → is_eof kind ≡ true → is_error kind ≢ true
eof_not_error kind h e = ground (arith, h, e)

segments_from-Segments :
    (i end : ℕ) (sb bs : Bytes) (ts : List Token)
    → Tiles bs ts
    → Segments sb bs ts (segments_from i end sb ts)
unfolding segments_from
segments_from-Segments i end sb bs ts (at_eof {t = t} h e) = rw h (chopped [] t h refl refl e)
segments_from-Segments i end sb bs ts (at_error {t = t} rest h e) =
    if-Segments _ _ _ (λ q. absurd (eof_not_error t.kind q h)) (λ q. rw h (refused [] t h))
segments_from-Segments i end sb bs (t ∷ ts) (tile rest h n e tiles) =
    let no_eof = or_false_left (is_eof t.kind) (is_error t.kind) h in
    let no_error = or_false (is_eof t.kind) h in
    let plain = λ (sb' : Bytes) (end' : ℕ). segments_from-Segments (suc i) end' sb' rest ts tiles in
    let link = λ (q : is_url t.kind ≡ true).
      link-Segments sb bs rest t ts i end (segments_from (suc i) end [] ts) q e (plain [] end) in
    let skip = λ (end' : ℕ) (q : is_url t.kind ≡ false).
      plain-Segments sb bs rest t ts (segments_from (suc i) end' (sb ++ t.text) ts) q e
        (plain (sb ++ t.text) end') in
    rw (no_eof, no_error)
      (if-Segments _ _ _
        (λ q.
          bind-Segments _ _ (consume_an_at_rule-Gives ts)
            (λ m. skip (i + m) (at_not_url t.kind (and_true (is_at_keyword t.kind) _ q))))
        (λ q. if-Segments _ _ _ link (skip end)))

Tiled-Segments :
    {bs : Bytes} (m : Option (List Token))
    → Tiled bs m
    → (ts : List Token) × (m ≡ some ts) × Segments [] bs ts (m >>= segments_from 0 0 [])
Tiled-Segments none tiles = elim tiles [ ]
Tiled-Segments {bs = bs} (some ts) (tiled tiles) =
    (ts, refl, segments_from-Segments 0 0 [] bs ts tiles)

-- `ParseURLs` answers for every style sheet. An error is the value of the error token that the
-- tokens end in. Otherwise they end in `EOFToken`, the segments that are URLs have the values of
-- the URL tokens, in order, and the texts of the tokens before the last are there again when the
-- texts of the URL tokens are put in place of the URLs; with the text of `EOFToken`, which no
-- segment has (a comment at the end is all in it), they make up the preprocessed style sheet.
pub parse_urls-Segments :
    (css : Bytes)
    → (ts : List Token) × (tokenize_css css ≡ some ts)
      × Segments [] (preprocess css) ts (parse_urls css)
unfolding parse_urls
parse_urls-Segments css = Tiled-Segments (tokenize_css css) (tokenize_css-Tiled css)
