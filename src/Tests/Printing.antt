-- ===== src/Tests/Printing.antt =====
-- Tests of the printer, of layouts and of the processing of a request.
use amppackager.Prelude.{
  ℕ, ◌≡◌, refl, sym, ap, ◌∙◌, true, false, List, [], ◌∷◌, ◌++◌, none, some, All, if◌then◌else◌,
  ◌==◌, inl, inr, ok, map, Bool-cases, ==_iff,
}
use amppackager.Prelude.Int.{pos}
use amppackager.Prelude.Text.{Bytes, codes}
use amppackager.Transformer.{Attribute}
use amppackager.Dom.{
  Kind, document_node, element_node, comment_node, Info, node, Forest, end, child,
}
use amppackager.Printer.{print}
use amppackager.Printer.Attributes.{render_attrs, sort_attributes}
use amppackager.Printer.Reader.{read, before_name, Pairs}
use amppackager.Printer.Reading.{IsUnquoted, solidus}
use amppackager.Printer.RoundTrip.{decoded, meant, read-render_attrs-sort_attributes}
use amppackager.Printer.Errors.{is_ok, printable, print-printable}
use amppackager.Printer.Comments.{without_comments, print-without_comments}
use amppackager.Layout.{CssDimensions, get_normalized_layout}
use amppackager.Layout.CssLength.{Length, unknown, fixed_height}
use amppackager.Layout.Normal.{Normalizes, get_normalized_layout-Normalizes}
use amppackager.Transformer.Request.{Request, Metadata, custom_config}
use amppackager.Transformer.Process.{Outside, process}
use amppackager.Transformer.Processed.{Processed, process-Processed}

-- Two entities, for the double quote and the ampersand.
abbrev escape : Bytes → Bytes
escape [] = []
escape (c ∷ cs) =
    let rest = escape cs in
    if c == b'"' then b'&' ∷ b'q' ∷ rest else if c == b'&' then b'&' ∷ b'a' ∷ rest else c ∷ rest

abbrev unescape : Bytes → Bytes
unescape [] = []
unescape (c ∷ []) = c ∷ []
unescape (c ∷ d ∷ ds) =
    let rest = unescape (d ∷ ds) in
    let behind = unescape ds in
    if c == b'&' then (if d == b'q' then b'"' else b'&') ∷ behind else c ∷ rest

unescape-cons : (c : ℕ) (cs : Bytes) → (c == b'&') ≡ false → unescape (c ∷ cs) ≡ c ∷ unescape cs
unescape-cons c [] h = refl
unescape-cons c (d ∷ ds) h = rw h refl

unescape-escape : (v : Bytes) → unescape (escape v) ≡ v
unescape-escape [] = refl
unescape-escape (c ∷ cs) = elim (Bool-cases (c == b'"')) [
  | inl e ↦
      rw e (ap (λ t. b'"' ∷ t) (unescape-escape cs) ∙ ap (λ d. d ∷ cs) (sym ((==_iff c b'"').0 e)))
  | inr e ↦ elim (Bool-cases (c == b'&')) [
    | inl d ↦
        rw (e, d)
          (ap (λ t. b'&' ∷ t) (unescape-escape cs) ∙ ap (λ x. x ∷ cs) (sym ((==_iff c b'&').0 d)))
    | inr d ↦ rw (e, d) (unescape-cons c (escape cs) d ∙ ap (λ t. c ∷ t) (unescape-escape cs))
  ]
]

escape-IsUnquoted : (v : Bytes) → All IsUnquoted (escape v)
escape-IsUnquoted [] = tt
escape-IsUnquoted (c ∷ cs) = elim (Bool-cases (c == b'"')) [
  | inl e ↦ rw e (refl, (refl, escape-IsUnquoted cs))
  | inr e ↦ elim (Bool-cases (c == b'&')) [
    | inl d ↦ rw (e, d) (refl, (refl, escape-IsUnquoted cs))
    | inr d ↦ rw (e, d) (e, escape-IsUnquoted cs)
  ]
]

abbrev identity : Bytes → Bytes
identity text = text

abbrev attr : Bytes → Bytes → Attribute
attr key val = record { namespace = []; key = key; val = val }

abbrev attributes : List Attribute
attributes = attr (codes "src") (codes "a\"b") ∷ attr (codes "alt") [] ∷ []

read-render_attrs-sort_attributes_example :
    (pairs : Pairs) × (read before_name
        (render_attrs identity escape (sort_attributes attributes) ++ (codes " />" ++ codes "x"))
      ≡ some (pairs, codes "x"))
    × (map (decoded identity escape unescape) pairs
        ≡ map (meant identity escape unescape) (sort_attributes attributes))
read-render_attrs-sort_attributes_example =
    read-render_attrs-sort_attributes identity escape unescape attributes (codes "x")
      escape-IsUnquoted unescape-escape refl
      ((refl, (refl, (refl, tt))), ((refl, (refl, (refl, tt))), tt)) solidus

abbrev info : Kind → Bytes → List Attribute → Info
info kind tag attributes = record {
  kind = kind;
  atom = tag;
  data_text = tag;
  namespace = [];
  attributes = attributes;
}

abbrev document : Info
document = info document_node [] []

abbrev page : Forest
page =
    child
      (node (info element_node (codes "html") (attr (codes "amp") [] ∷ [])) (
        child (node (info comment_node (codes "no") []) end) (
          child (node (info element_node (codes "head") []) end)
            (child (node (info element_node (codes "body") []) end) end))))
      end

abbrev page_text : Bytes
page_text = codes "<html amp><head></head><body></body></html>"

printed_page : print identity escape (node document page) ≡ ok page_text
unfolding print
printed_page = refl

print-without_comments_example :
    print identity escape (node document (without_comments page)) ≡ ok page_text
print-without_comments_example =
    print-without_comments identity escape document page page_text printed_page

print-printable_example : is_ok (print identity escape (node document page)) ≡ printable page
print-printable_example = print-printable identity escape document page refl

abbrev no_length : Length ℕ
no_length = record {
  is_set = false;
  is_auto = false;
  is_fluid = false;
  value = 0;
  unit = codes "px";
}

abbrev high : CssDimensions ℕ
high = record { width = no_length; height = record no_length { is_set = true; value = 9 } }

get_normalized_layout-Normalizes_example :
    Normalizes unknown high false false (get_normalized_layout unknown high false false)
get_normalized_layout-Normalizes_example = get_normalized_layout-Normalizes high false false unknown

high_layout : get_normalized_layout unknown high false false ≡ ok fixed_height
unfolding get_normalized_layout
high_layout = refl

abbrev outside : Outside Bytes Bytes
outside = record {
  parse_html = λ html. some (node document page);
  parse_url = λ url. some url;
  resolve_url = λ base url. some url;
  run_one = λ f c. ok c;
  extract_preloads = λ t. some ([], t);
  to_lower = identity;
  escape = escape;
  parse_int32 = λ text. none;
}

abbrev request : Request
request = record {
  html = codes "<html amp>";
  allowed_formats = [];
  config = custom_config;
  transformers = codes "stripjs" ∷ [];
  document_url = codes "https://example.com/";
  version = pos 1;
}

abbrev reply : Bytes × Metadata
reply = (page_text, record { preloads = []; max_age_secs = 604800 })

process_page : process outside request ≡ ok reply
unfolding process
process_page = refl

process-Processed_example : Processed outside request reply
process-Processed_example = process-Processed outside request reply process_page
