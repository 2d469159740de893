-- ===== src/Transformer/Processed.antt =====
-- What transformer/transformer.go gives when `Process` succeeds.
use amppackager.Prelude.{
  ◌≤◌, Bool, true, false, List, [], ◌∷◌, Option, none, some, ◌≡◌, refl, sym, ap, ◌∙◌, Any, Result,
  ok, err, ◌>>=◌, >>=-eq-ok, ok-injective,
}
use mathlib.Core.Path.{subst}
use amppackager.Prelude.Text.{Bytes}
use amppackager.Utf8.{validate_utf8_for_html, Utf8Error}
use amppackager.Dom.{Tree, node}
use amppackager.Printer.{print, RenderError}
use amppackager.Transformer.Age.{compute_max_age_seconds-least}
use amppackager.Transformer.Head.{Preload}
use amppackager.Transformer.MaxAge.{max_max_age_seconds}
use amppackager.Transformer.Formats.{require_amp_attribute, or_all}
use amppackager.Transformer.Declared.{DeclaresOne, require_amp_attribute_iff}
use amppackager.Transformer.Request.{
  Transformer, Request, Metadata, Context, ProcessError, attributes_of, nodes_of, node_of,
}
use amppackager.Transformer.Process.{
  Outside, new_dom, transformers_of, version_of, base_url_of, run_transformers, finish, process,
  checked, prepare, transform, start_of, parsed, required, url_of, transformed, printed,
  extracted_of, age_of,
}

-- Transformers that run one after the other, none of them failing.
pub data Runs {U E : Type 0} (run_one : Transformer → Context U → Result E (Context U))
    : List Transformer → Context U → Context U → Type 0 where
  done : {c : Context U} → Runs run_one [] c c
  runs :
      {f : Transformer} {fs : List Transformer} {c d e : Context U}
      → run_one f c ≡ ok d
      → Runs run_one fs d e
      → Runs run_one (f ∷ fs) c e

module _ {U E : Type 0} (outside : Outside U E) where
  run_transformers-Runs :
      (fs : List Transformer) (c e : Context U)
      → run_transformers outside.run_one fs c ≡ ok e
      → Runs outside.run_one fs c e
  unfolding run_transformers
  run_transformers-Runs [] c e h = subst (λ d. Runs outside.run_one [] c d) (ok-injective h) done
  run_transformers-Runs (f ∷ fs) c e h =
      let step = >>=-eq-ok (outside.run_one f c) (λ d. run_transformers outside.run_one fs d) h in
      runs step.1 (run_transformers-Runs fs step.0 e step.2)

  checked-eq-ok :
      (x : Result Utf8Error (Unit {0})) {u : Unit {0}} → checked outside x ≡ ok u → x ≡ ok tt
  checked-eq-ok (ok u) h = refl
  checked-eq-ok (err why) h = cc

  required-eq-ok : (b : Bool) {u : Unit {0}} → required outside b ≡ ok u → b ≡ true
  required-eq-ok true h = refl
  required-eq-ok false h = cc

  transformed-eq-ok :
      (x : Result E (Context U)) {c : Context U} → transformed outside x ≡ ok c → x ≡ ok c
  transformed-eq-ok (ok c) h = ap (λ d. ok d) (ok-injective h)
  transformed-eq-ok (err why) h = cc

  printed-eq-ok : (x : Result RenderError Bytes) {t : Bytes} → printed outside x ≡ ok t → x ≡ ok t
  printed-eq-ok (ok t) h = ap (λ d. ok d) (ok-injective h)
  printed-eq-ok (err why) h = cc

  age_of-le : (t : Tree) → age_of outside t ≤ max_max_age_seconds
  unfolding age_of
  age_of-le (node i cs) =
      (compute_max_age_seconds-least outside.parse_int32 (node_of i cs ∷ nodes_of cs)).0

  -- The text and the age come from one tree, what the extraction of the preloads leaves of the
  -- document in the context.
  pub data Finished (c : Context U) (out : Bytes × Metadata) : Type 0 where
    finished :
        (last : Tree)
        → outside.extract_preloads c.dom ≡ some (out.1.preloads, last)
        → print outside.to_lower outside.escape last ≡ ok out.0
        → out.1.max_age_secs ≡ age_of outside last
        → Finished c out

  extracted_of-eq-ok :
      (o : Option (List Preload × Tree)) {p : List Preload × Tree}
      → extracted_of outside o ≡ ok p
      → o ≡ some p
  extracted_of-eq-ok none h = cc
  extracted_of-eq-ok (some p) h = ap (λ q. some q) (ok-injective h)

  finish-Finished :
      (c : Context U) (out : Bytes × Metadata) → finish outside c ≡ ok out → Finished c out
  unfolding finish
  finish-Finished c out h =
      let metadata : List Preload × Tree → Metadata =
        λ p. record { preloads = p.0; max_age_secs = age_of outside p.1 } in
      let text_of : List Preload × Tree → Result (ProcessError E) Bytes =
        λ p. printed outside (print outside.to_lower outside.escape p.1) in
      let a =
        >>=-eq-ok (extracted_of outside (outside.extract_preloads c.dom))
          (λ p. text_of p >>= λ text. ok (text, metadata p)) h in
      let b = >>=-eq-ok (text_of a.0) (λ text. ok (text, metadata a.0)) a.2 in
      let same : (b.0, metadata a.0) ≡ out = ok-injective b.2 in
      finished a.0.1
        (extracted_of-eq-ok (outside.extract_preloads c.dom) a.1
          ∙ ap (λ o. some (o.1.preloads, a.0.1)) same)
        (printed-eq-ok (print outside.to_lower outside.escape a.0.1) b.1 ∙ ap (λ o. ok o.0) same)
        (ap (λ o. o.1.max_age_secs) (sym same))

  parsed-eq-ok : (o : Option Tree) {t : Tree} → parsed outside o ≡ ok t → o ≡ some t
  parsed-eq-ok none h = cc
  parsed-eq-ok (some t) h = ap (λ d. some d) (ok-injective h)

  -- What the checks on a document prepare.
  pub data Prepared (r : Request) (root html head : Tree) (fns : List Transformer)
      (start : Context U) : Type 0 where
    prepared :
        Any
          (λ a. (a.namespace ≡ []) × DeclaresOne (or_all r.allowed_formats) a.key)
          (attributes_of html)
        → transformers_of {E = E} outside.to_lower r ≡ ok fns
        → outside.parse_url r.document_url ≡ some start.document_url
        → version_of {E = E} r ≡ ok start.version
        → start.dom ≡ root
        → start.base_url ≡ base_url_of outside start.document_url head
        → Prepared r root html head fns start

  url_of-eq-ok : (o : Option U) {u : U} → url_of outside o ≡ ok u → o ≡ some u
  url_of-eq-ok none h = cc
  url_of-eq-ok (some u) h = ap (λ d. some d) (ok-injective h)

  prepare-Prepared :
      (r : Request) (root : Tree) (d : Tree × Tree) (p : List Transformer × Context U)
      → prepare outside r root d ≡ ok p
      → Prepared r root d.0 d.1 p.0 p.1
  unfolding prepare
  prepare-Prepared r root d p h =
      let versioned : List Transformer
          → U
          → Result (ProcessError E) (List Transformer × Context U) =
        λ fns document.
          version_of r >>= λ version. ok (fns, start_of outside root d.1 document version) in
      let located : List Transformer → Result (ProcessError E) (List Transformer × Context U) =
        λ fns. url_of outside (outside.parse_url r.document_url) >>= λ u. versioned fns u in
      let declared : Bool = require_amp_attribute (attributes_of d.0) r.allowed_formats in
      let a =
        >>=-eq-ok (required outside declared)
          (λ u. transformers_of outside.to_lower r >>= λ fns. located fns) h in
      let b = >>=-eq-ok (transformers_of outside.to_lower r) located a.2 in
      let c = >>=-eq-ok (url_of outside (outside.parse_url r.document_url)) (versioned b.0) b.2 in
      let e = >>=-eq-ok (version_of r) (λ v. ok (b.0, start_of outside root d.1 c.0 v)) c.2 in
      let start : Context U = start_of outside root d.1 c.0 e.0 in
      subst (λ q. Prepared r root d.0 d.1 q.0 q.1) (ok-injective e.2)
        (prepared
          ((require_amp_attribute_iff (attributes_of d.0) r.allowed_formats).0
            (required-eq-ok declared a.1))
          b.1 (url_of-eq-ok (outside.parse_url r.document_url) c.1) e.1 refl refl)

  Finished-le :
      {c : Context U} {out : Bytes × Metadata}
      → Finished c out
      → out.1.max_age_secs ≤ max_max_age_seconds
  Finished-le (finished last left text age) = rw age (age_of-le last)

  -- What holds of a request and of what `Process` gives for it.
  pub data Processed (r : Request) (out : Bytes × Metadata) : Type 0 where
    processed :
        (root html head : Tree) (fns : List Transformer) (start last : Context U)
        → validate_utf8_for_html r.html ≡ ok tt
        → outside.parse_html r.html ≡ some root
        → new_dom {E = E} root ≡ ok (html, head)
        → Prepared r root html head fns start
        → Runs outside.run_one fns start last
        → Finished last out
        → out.1.max_age_secs ≤ max_max_age_seconds
        → Processed r out

  -- When `Process` succeeds, the HTML is valid UTF-8 of the allowed code points and its tag declares
  -- one of the allowed formats; the transformers of the request ran one after the other from the
  -- parsed document with the base URL of its head, none of them failing; and the text is printed
  -- from what the extraction of the preloads leaves of the last one's document, which the suggested
  -- age, at most seven days, is computed of, too.
  pub process-Processed :
      (r : Request) (out : Bytes × Metadata) → process outside r ≡ ok out → Processed r out
  unfolding process transform
  process-Processed r out h =
      let behind : Tree → Tree × Tree → Result (ProcessError E) (Bytes × Metadata) =
        λ root d. prepare outside r root d >>= λ p. transform outside p in
      let dom : Tree → Result (ProcessError E) (Bytes × Metadata) =
        λ root. new_dom root >>= λ d. behind root d in
      let a =
        >>=-eq-ok (checked outside (validate_utf8_for_html r.html))
          (λ u. parsed outside (outside.parse_html r.html) >>= λ root. dom root) h in
      let b = >>=-eq-ok (parsed outside (outside.parse_html r.html)) dom a.2 in
      let c = >>=-eq-ok (new_dom b.0) (behind b.0) b.2 in
      let d = >>=-eq-ok (prepare outside r b.0 c.0) (λ p. transform outside p) c.2 in
      let run : Result E (Context U) = run_transformers outside.run_one d.0.0 d.0.1 in
      let e = >>=-eq-ok (transformed outside run) (λ last. finish outside last) d.2 in
      let end : Finished e.0 out = finish-Finished e.0 out e.2 in
      processed b.0 c.0.0 c.0.1 d.0.0 d.0.1 e.0 (checked-eq-ok (validate_utf8_for_html r.html) a.1)
        (parsed-eq-ok (outside.parse_html r.html) b.1) c.1 (prepare-Prepared r b.0 c.0 d.0 d.1)
        (run_transformers-Runs d.0.0 d.0.1 e.0 (transformed-eq-ok run e.1)) end (Finished-le end)
