-- ===== src/Transformer/Process.antt =====
-- transformer/transformer.go: `Process`, from the checks of a request to the text and the metadata.
-- Parameters are the parsers of HTML and of URLs, what each transformer does with a context, and
-- what `extractPreloads` (Transformer/Head.antt) makes of the tree.
use amppackager.Prelude.{
  ℕ, Bool, true, false, ◌&&◌, List, [], ◌∷◌, ◌++◌, Option, none, some, if◌then◌else◌, Result, ok,
  err, ◌>>=◌,
}
use amppackager.Prelude.Int.{ℤ, pos, leb_ℤ}
use amppackager.Prelude.Text.{Bytes, codes, lookup}
use amppackager.Utf8.{Utf8Error, validate_utf8_for_html}
use amppackager.Versions.{VersionError, select_version}
use amppackager.Dom.{Tree, node}
use amppackager.Dom.Attributes.{attribute_val}
use amppackager.Printer.{RenderError, print}
use amppackager.Transformer.Head.{Preload}
use amppackager.Transformer.MaxAge.{compute_max_age_seconds}
use amppackager.Transformer.Formats.{require_amp_attribute}
use amppackager.Transformer.Request.{
  Transformer, transformer_function_map, is_custom, config_map, Request, Metadata, Context,
  ProcessError, find_node, attributes_of, node_of, nodes_of, invalid_html, parsing_html,
  missing_html, missing_head, missing_body, missing_amp_attribute, no_transformer, bad_document_url,
  extract_crash, no_version, failed, not_rendered,
}

module _ {U E : Type 0} (run_one : Transformer → Context U → Result E (Context U)) where
  -- `runTransformers`
  unfoldable pub run_transformers : List Transformer → Context U → Result E (Context U)
  run_transformers [] c = ok c
  run_transformers (f ∷ fs) c = run_one f c >>= λ d. run_transformers fs d

module _ {E : Type 0} where
  abbrev found_or : ProcessError E → Option Tree → Result (ProcessError E) Tree
  found_or why none = err why
  found_or why (some t) = ok t

  -- `amphtml.NewDOM` behind the parser: the `<html>` and the `<head>`.
  unfoldable pub new_dom : Tree → Result (ProcessError E) (Tree × Tree)
  unfolding find_node
  new_dom root = found_or missing_html (find_node (codes "html") root) >>= λ html.
      found_or missing_head (find_node (codes "head") html) >>= λ head.
      found_or missing_body (find_node (codes "body") html) >>= λ body. ok (html, head)

  abbrev named_transformer : Bytes → Option Transformer → Result (ProcessError E) Transformer
  named_transformer val none = err (no_transformer val)
  named_transformer val (some f) = ok f

  -- The transformers that a request names, for the lower case of a text.
  unfoldable pub custom_transformers :
      (Bytes → Bytes) → List Bytes → Result (ProcessError E) (List Transformer)
  custom_transformers to_lower [] = ok []
  custom_transformers to_lower (val ∷ vals) =
      named_transformer val (lookup (to_lower val) transformer_function_map) >>= λ f.
      custom_transformers to_lower vals >>= λ fs. ok (f ∷ fs)

  unfoldable pub transformers_of :
      (Bytes → Bytes) → Request → Result (ProcessError E) (List Transformer)
  unfolding custom_transformers
  transformers_of to_lower r =
      if is_custom r.config
      then (custom_transformers to_lower r.transformers >>= λ fs. ok (config_map r.config ++ fs))
      else ok (config_map r.config)

  abbrev version_or : Result VersionError ℤ → Result (ProcessError E) ℤ
  version_or (ok v) = ok v
  version_or (err why) = err (no_version why)

  -- The version of the request, or the one that is selected where it names none.
  unfoldable pub version_of : Request → Result (ProcessError E) ℤ
  unfolding select_version
  version_of r =
      if leb_ℤ r.version (pos 0) && leb_ℤ (pos 0) r.version
      then version_or (select_version [])
      else ok r.version

-- What `Process` takes from elsewhere: `html.Parse`, `url.Parse` and the `Parse` of a URL, the
-- transformers and the preloads, and the texts and numbers of the libraries.
pub record Outside (U E : Type 0) : Type 0 where
  pub parse_html : Bytes → Option Tree
  pub parse_url : Bytes → Option U
  pub resolve_url : U → Bytes → Option U
  pub run_one : Transformer → Context U → Result E (Context U)
  pub extract_preloads : Tree → Option (List Preload × Tree)
  pub to_lower : Bytes → Bytes
  pub escape : Bytes → Bytes
  pub parse_int32 : Bytes → Option ℤ

module _ {U E : Type 0} (outside : Outside U E) where
  abbrev pub parsed : Option Tree → Result (ProcessError E) Tree
  parsed none = err parsing_html
  parsed (some root) = ok root

  abbrev pub url_of : Option U → Result (ProcessError E) U
  url_of none = err bad_document_url
  url_of (some u) = ok u

  abbrev pub extracted_of :
      Option (List Preload × Tree) → Result (ProcessError E) (List Preload × Tree)
  extracted_of none = err extract_crash
  extracted_of (some p) = ok p

  abbrev pub checked : Result Utf8Error (Unit {0}) → Result (ProcessError E) (Unit {0})
  checked (ok u) = ok tt
  checked (err why) = err (invalid_html why)

  abbrev pub required : Bool → Result (ProcessError E) (Unit {0})
  required true = ok tt
  required false = err missing_amp_attribute

  abbrev pub transformed : Result E (Context U) → Result (ProcessError E) (Context U)
  transformed (ok c) = ok c
  transformed (err why) = err (failed why)

  abbrev pub printed : Result RenderError Bytes → Result (ProcessError E) Bytes
  printed (ok text) = ok text
  printed (err why) = err (not_rendered why)

  abbrev or_document : U → Option U → U
  or_document document none = document
  or_document document (some u) = u

  abbrev resolved : U → Option Bytes → U
  resolved document none = document
  resolved document (some href) = or_document document (outside.resolve_url document href)

  abbrev href_of : Option Tree → Option Bytes
  unfolding attribute_val
  href_of none = none
  href_of (some base) = attribute_val [] (codes "href") (attributes_of base)

  -- `setBaseURL`: the URL that is set.
  unfoldable pub base_url_of : U → Tree → U
  unfolding href_of find_node
  base_url_of document head = resolved document (href_of (find_node (codes "base") head))

  unfoldable pub age_of : Tree → ℕ
  unfolding compute_max_age_seconds nodes_of
  age_of (node i cs) = compute_max_age_seconds outside.parse_int32 (node_of i cs ∷ nodes_of cs)

  -- The end of `Process`, behind the transformers.
  unfoldable pub finish : Context U → Result (ProcessError E) (Bytes × Metadata)
  unfolding print age_of
  finish c = extracted_of (outside.extract_preloads c.dom) >>= λ p.
      printed (print outside.to_lower outside.escape p.1) >>= λ text.
      ok (text, record { preloads = p.0; max_age_secs = age_of p.1 })

  abbrev pub start_of : Tree → Tree → U → ℤ → Context U
  start_of root head document version = record {
    dom = root;
    document_url = document;
    base_url = base_url_of document head;
    version = version;
  }

  -- The checks of `Process` on a document with its `<html>` and its `<head>`: the transformers to
  -- run, and the context that they start from.
  unfoldable pub prepare :
      Request → Tree → Tree × Tree → Result (ProcessError E) (List Transformer × Context U)
  unfolding require_amp_attribute transformers_of version_of base_url_of
  prepare r root d =
      required (require_amp_attribute (attributes_of d.0) r.allowed_formats) >>= λ declared.
      transformers_of outside.to_lower r >>= λ fns.
      url_of (outside.parse_url r.document_url) >>= λ document.
      version_of r >>= λ version. ok (fns, start_of root d.1 document version)

  -- The end of `Process`, from the transformers on.
  unfoldable pub transform :
      List Transformer × Context U → Result (ProcessError E) (Bytes × Metadata)
  unfolding run_transformers finish
  transform p = transformed (run_transformers outside.run_one p.0 p.1) >>= λ c. finish c

  -- `Process`
  unfoldable pub process : Request → Result (ProcessError E) (Bytes × Metadata)
  unfolding validate_utf8_for_html new_dom prepare transform
  process r = checked (validate_utf8_for_html r.html) >>= λ valid.
      parsed (outside.parse_html r.html) >>= λ root.
      new_dom root >>= λ d. prepare r root d >>= λ p. transform p
