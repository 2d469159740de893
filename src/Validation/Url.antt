-- ===== src/Validation/Url.antt =====
-- What packager/signer uses of net/url: `*url.URL` with its fields and methods.
use amppackager.Prelude.{Bool, Option}
use amppackager.Prelude.Text.{Bytes}

pub record UrlLib : Type 1 where
  pub Url : Type 0
  -- `url.Parse`, `none` for its error.
  pub parse : Bytes → Option Url
  pub is_abs : Url → Bool
  pub resolve_reference : Url → Url → Url
  pub path_escape : Bytes → Bytes
  -- The fields that the code reads and the one that it sets.
  pub scheme : Url → Bytes
  pub opaque : Url → Bytes
  pub has_user : Url → Bool
  pub host : Url → Bytes
  pub raw_query : Url → Bytes
  pub set_raw_query : Url → Bytes → Url
  -- The methods EscapedPath, String and RequestURI.
  pub escaped_path : Url → Bytes
  pub text : Url → Bytes
  pub request_uri : Url → Bytes
