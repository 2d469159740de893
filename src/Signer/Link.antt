-- ===== src/Signer/Link.antt =====
-- `formatLinkHeader` of packager/signer/signer.go.
use amppackager.Prelude.{
  Bool, true, false, List, [], ◌∷◌, ◌++◌, Option, none, some, Result, ok, err, ◌>>=◌, if◌then◌else◌,
}
use amppackager.Prelude.Split.{join}
use amppackager.Prelude.Text.{Bytes, codes}
use amppackager.Config.{is_empty}
use amppackager.Header.{quoted_string}
use amppackager.Validation.Url.{UrlLib}

-- `rpb.Metadata_Preload`, with `as` as `kind` and the attributes' keys and values.
pub record Preload : Type 0 where
  pub url : Bytes
  pub kind : Bytes
  pub is_module : Bool
  pub attributes : List (Bytes × Bytes)

pub data LinkError : Type 0 where
  invalid_url missing_as : LinkError

abbrev with_attribute : Option Bytes → Bytes → Option Bytes → Option Bytes
with_attribute none key rest = none
with_attribute (some quoted) key none = none
with_attribute (some quoted) key (some rest) = some (b';' ∷ key ++ (b'=' ∷ quoted ++ rest))

-- The loop over the attributes: `none` where a value cannot be quoted (`valid = false`).
unfoldable pub format_attributes : List (Bytes × Bytes) → Option Bytes
unfolding quoted_string
format_attributes [] = some []
format_attributes ((key, val) ∷ attrs) =
    with_attribute (quoted_string val) key (format_attributes attrs)

abbrev append_value : Option Bytes → List Bytes → List Bytes
append_value none values = values
append_value (some value) values = value ∷ values

module _ (u : UrlLib) where
  open u use {Url}

  abbrev pub escaped : Url → Bytes
  escaped url = u.text (u.set_raw_query url (u.path_escape (u.raw_query url)))

  abbrev pub rel : Bool → Bytes
  rel true = codes "modulepreload"
  rel false = codes "preload"

  abbrev with_link : Bytes → Option Bytes → Option Bytes
  with_link link none = none
  with_link link (some attrs) = some (link ++ attrs)

  -- The value of one preload, `none` where an attribute cannot be quoted.
  unfoldable pub format_preload : Url → Preload → Option Bytes
  unfolding format_attributes
  format_preload url p =
      with_link
        (codes "<"
          ++ (escaped url ++ (codes ">;rel=" ++ (rel p.is_module ++ (codes ";as=" ++ p.kind)))))
        (format_attributes p.attributes)

  abbrev preload_value : Option Url → Preload → Result LinkError (Option Bytes)
  preload_value none p = err invalid_url
  preload_value (some url) p = if is_empty p.kind then err missing_as else ok (format_preload url p)

  -- The loop over the preloads: the values.
  unfoldable pub link_values : List Preload → Result LinkError (List Bytes)
  unfolding format_preload
  link_values [] = ok []
  link_values (p ∷ ps) = do
    value ← preload_value (u.parse p.url) p
    values ← link_values ps
    ok (append_value value values)

  unfoldable pub format_link_header : List Preload → Result LinkError Bytes
  unfolding link_values
  format_link_header preloads = do values ← link_values preloads; ok (join (codes ",") values)
