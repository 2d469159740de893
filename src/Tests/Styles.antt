-- ===== src/Tests/Styles.antt =====
-- Tests of the tokenizer of style sheets and of the URLs in them.
use amppackager.Prelude.{◌≡◌, refl, List, [], ◌∷◌, ◌++◌, Option, some, ok, map}
use amppackager.Prelude.Text.{Bytes, codes}
use amppackager.Css.Runes.{preprocess}
use amppackager.Css.Reads.{
  TokenType, Token, ◌>>=◌, include_match, delim, eof, ident, string, error, colon, url,
}
use amppackager.Css.Tokenizer.{tokenize_css}
use amppackager.Css.Tiles.{Tiled, tokenize_css-Tiled}
use amppackager.Css.Urls.{parse_urls, byte_type, image_url_type, font_url_type}
use amppackager.Css.Urls.Chops.{Segments, parse_urls-Segments}

abbrev sheet : Bytes
sheet = codes "a{b:url( x.png )}"

abbrev fonts : Bytes
fonts = codes "@font-face{src:url('f')}b{c:url(d)}"

abbrev kinds : Option (List Token) → Option (List TokenType)
kinds m = m >>= λ ts. some (map (λ t. t.kind) ts)

-- The equals sign of `~=` is read once more, as a delimiter.
include_twice :
    kinds (tokenize_css (codes "a~=b")) ≡ some (ident ∷ include_match ∷ delim ∷ ident ∷ eof ∷ [])
unfolding tokenize_css
include_twice = refl

-- A NUL, replaced by U+FFFD, is taken for an encoding error.
nul_is_error : kinds (tokenize_css (0 ∷ 97 ∷ [])) ≡ some (error ∷ [])
unfolding tokenize_css
nul_is_error = refl

-- A string ends at a U+FFFD in it.
cut_string :
    kinds (tokenize_css (codes "'a" ++ 239 ∷ 191 ∷ 189 ∷ codes "b'"))
    ≡ some (string ∷ ident ∷ string ∷ eof ∷ [])
unfolding tokenize_css
cut_string = refl

fonts_segments :
    parse_urls fonts
    ≡ some (
        ok (
          record { kind = byte_type; data_of = codes "@font-face{src:" }
          ∷ record { kind = font_url_type; data_of = codes "f" }
          ∷ record { kind = byte_type; data_of = codes "}b{c:" }
          ∷ record { kind = image_url_type; data_of = codes "d" }
          ∷ record { kind = byte_type; data_of = codes "}" }
          ∷ []))
unfolding parse_urls
fonts_segments = refl

tokenize_css-Tiled_example : Tiled (preprocess sheet) (tokenize_css sheet)
tokenize_css-Tiled_example = tokenize_css-Tiled sheet

abbrev word_token : TokenType → Bytes → Bytes → Token
word_token kind value text = record { kind = kind; value = value; extra = []; text = text }

abbrev word_tokens : List Token
word_tokens =
    word_token ident (codes "ab") (codes "ab")
    ∷ word_token colon (codes ":") (codes ":")
    ∷ word_token url (codes "x") (codes "url( x )")
    ∷ word_token eof [] []
    ∷ []

word_tokens_read : tokenize_css (codes "ab:url( x )") ≡ some word_tokens
unfolding tokenize_css
word_tokens_read = refl

parse_urls-Segments_example :
    (ts : List Token) × (tokenize_css fonts ≡ some ts)
    × Segments [] (preprocess fonts) ts (parse_urls fonts)
parse_urls-Segments_example = parse_urls-Segments fonts
