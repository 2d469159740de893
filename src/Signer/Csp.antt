-- ===== src/Signer/Csp.antt =====
-- `MutateFetchedContentSecurityPolicy` of packager/signer/signer.go, on ASCII text.
use amppackager.Prelude.{Bool, false, List, [], ◌∷◌, ◌++◌, if◌then◌else◌}
use amppackager.Prelude.Split.{is_space, trim, split, fields, to_lower}
use amppackager.Prelude.Text.{Bytes, codes}
use amppackager.Header.{member}

abbrev pub preserved_directives : List Bytes
preserved_directives =
    codes "base-uri"
    ∷ codes "block-all-mixed-content"
    ∷ codes "font-src"
    ∷ codes "form-action"
    ∷ codes "manifest-src"
    ∷ codes "referrer"
    ∷ codes "upgrade-insecure-requests"
    ∷ []

abbrev pub default_src : Bytes
default_src = codes "default-src * blob: data:"

abbrev pub report_uri : Bytes
report_uri = codes "report-uri https://csp.withgoogle.com/csp/amp"

abbrev pub script_src : Bytes
script_src =
    codes
      "script-src blob: https://cdn.ampproject.org/rtv/ https://cdn.ampproject.org/v0.js https://cdn.ampproject.org/v0.mjs https://cdn.ampproject.org/v0/ https://cdn.ampproject.org/lts/ https://cdn.ampproject.org/viewer/"

abbrev pub style_src : Bytes
style_src =
    codes
      "style-src 'unsafe-inline' https://cdn.materialdesignicons.com https://cloud.typography.com https://fast.fonts.net https://fonts.googleapis.com https://maxcdn.bootstrapcdn.com https://p.typekit.net https://pro.fontawesome.com https://use.fontawesome.com https://use.typekit.net"

abbrev pub object_src : Bytes
object_src = codes "object-src 'none'"

-- The text that follows the directives that are kept.
abbrev pub fixed_directives : Bytes
fixed_directives =
    default_src
    ++ (b';' ∷ report_uri ++ (b';' ∷ script_src ++ (b';' ∷ style_src ++ (b';' ∷ object_src))))

abbrev pub is_preserved_name : List Bytes → Bool
is_preserved_name [] = false
is_preserved_name (name ∷ parts) = member (to_lower name) preserved_directives

-- The test on one directive, trimmed.
unfoldable pub is_preserved : Bytes → Bool
unfolding fields member
is_preserved trimmed = is_preserved_name (fields trimmed)

-- The loop over the directives: what it writes.
unfoldable pub write_preserved : List Bytes → Bytes
unfolding trim is_preserved
write_preserved [] = []
write_preserved (token ∷ tokens) =
    let trimmed = trim is_space token in
    if is_preserved trimmed
    then trimmed ++ (b';' ∷ write_preserved tokens)
    else write_preserved tokens

unfoldable pub mutate_fetched_content_security_policy : Bytes → Bytes
unfolding split write_preserved
mutate_fetched_content_security_policy fetched =
    write_preserved (split b';' fetched) ++ fixed_directives
