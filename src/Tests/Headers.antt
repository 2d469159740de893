-- ===== src/Tests/Headers.antt =====
-- Tests of the version ranges, the header values, AMP-Cache-Transform and Accept.
use amppackager.Prelude.{
  ◌≡◌, ◌≢◌, ◌↔◌, refl, ◌||◌, List, [], ◌∷◌, map, none, some, ok, err, All, arith, if◌then◌else◌,
}
use amppackager.Prelude.Int.{pos}
use amppackager.Prelude.Text.{Bytes, codes, lookup}
use amppackager.Header.{
  Header, member, legacy_headers, values_of, remove_hop_by_hop_headers, trim_header_value,
  quoted_string,
}
use amppackager.Header.Remove.{lists, lookup-remove_hop_by_hop_headers}
use amppackager.Versions.{VersionRange, select_version_from, select_version, supported_versions}
use amppackager.Versions.Select.{IsBest, select_version_from-IsBest}
use amppackager.CacheTransform.{
  out_of_fuel, ParameterisedIdentifier, parse_parameterised_list, is_second_identifier_char,
}
use amppackager.CacheTransform.Total.{parse_parameterised_list_total}
use amppackager.CacheTransform.RoundTrip.{
  format_list, AllPrintable, parse_parameterised_list-format_list,
}
use amppackager.CacheTransform.Answer.{should_send_sxg}
use amppackager.CacheTransform.Answer.Select.{IsFirstAnswer, should_send_sxg_sound}
use amppackager.Utf8.{validate_utf8_for_html}
use amppackager.Utf8.Valid.{IsHtml, validate_utf8_for_html-IsHtml}
use amppackager.Accept.{tokenize}
use amppackager.Accept.Tokens.{IsElement, IsQuotedBody, tokenize-join_commas}

abbrev low_and_high : List VersionRange
low_and_high = record { min = pos 5; max = pos 9 } ∷ record { min = pos 1; max = pos 3 } ∷ []

select_version_from-IsBest_example :
    IsBest low_and_high supported_versions (select_version_from low_and_high supported_versions)
select_version_from-IsBest_example =
    select_version_from-IsBest (pos 9) (record { min = pos 5; max = pos 9 })
      (record { min = pos 1; max = pos 8 }) (record { min = pos 1; max = pos 3 } ∷ []) []
      (omega arith) (omega arith)

select_low_and_high : select_version low_and_high ≡ ok (pos 8)
unfolding select_version
select_low_and_high = refl

abbrev connected : Header
connected =
    (codes "Connection", codes "close, x-foo" ∷ [])
    ∷ (codes "X-Foo", codes "1" ∷ [])
    ∷ (codes "Content-Type", codes "text/html" ∷ [])
    ∷ []

lookup-remove_hop_by_hop_headers_example :
    lookup (codes "X-Foo") (remove_hop_by_hop_headers connected) ≡ (
      if member (codes "X-Foo") legacy_headers
        || lists (codes "X-Foo") (values_of (lookup (codes "Connection") connected))
      then none
      else lookup (codes "X-Foo") connected)
lookup-remove_hop_by_hop_headers_example =
    lookup-remove_hop_by_hop_headers connected (codes "X-Foo")

abbrev asked : Bytes
asked = codes "google;v=\"1..3, 5\", any;v=\"7\""

parse_parameterised_list_total_example : parse_parameterised_list asked ≢ err out_of_fuel
parse_parameterised_list_total_example = parse_parameterised_list_total asked

abbrev google_5 : ParameterisedIdentifier
google_5 = record { id = codes "google"; params = (codes "v", codes "5") ∷ [] }

abbrev any_plain : ParameterisedIdentifier
any_plain = record { id = codes "any"; params = [] }

printable : AllPrintable (google_5 ∷ any_plain ∷ [])
unfolding is_second_identifier_char
printable = ground arith

parse_parameterised_list-format_list_example :
    parse_parameterised_list (format_list (google_5 ∷ any_plain ∷ []))
    ≡ ok (google_5 ∷ any_plain ∷ [])
parse_parameterised_list-format_list_example =
    parse_parameterised_list-format_list google_5 (any_plain ∷ []) printable

quoted : quoted_string (codes "a\"b") ≡ some (codes "\"a\\\"b\"")
unfolding quoted_string
quoted = refl

asked_answer : should_send_sxg asked ≡ (codes "google;v=\"5\"", pos 5)
unfolding should_send_sxg
asked_answer = refl

some_answer : codes "google;v=\"5\"" ≢ []
some_answer = λ e. cc

should_send_sxg_sound_example :
    (is : List ParameterisedIdentifier) × (parse_parameterised_list asked ≡ ok is)
    × IsFirstAnswer is (codes "google;v=\"5\"") (pos 5)
should_send_sxg_sound_example =
    should_send_sxg_sound asked (codes "google;v=\"5\"") (pos 5) asked_answer some_answer

abbrev google_9 : ParameterisedIdentifier
google_9 = record { id = codes "google"; params = (codes "v", codes "9") ∷ [] }

parse_google_9 : parse_parameterised_list (codes "google;v=\"9\"") ≡ ok (google_9 ∷ [])
unfolding parse_parameterised_list
parse_google_9 = refl

elements : All IsElement (codes "a;q=\"x,y\"" ∷ codes " b" ∷ [])
elements = (
  IsElement.plain refl (
      IsElement.plain refl (
        IsElement.plain refl (
          IsElement.plain refl (
            IsElement.quoted {body = codes "x,y"}
              (IsQuotedBody.plain refl
                (IsQuotedBody.plain refl (IsQuotedBody.plain refl IsQuotedBody.done)))
              IsElement.done)))),
  (IsElement.plain refl (IsElement.plain refl IsElement.done), tt),
)

tokenize-join_commas_example :
    tokenize (codes "a;q=\"x,y\", b")
    ≡ map trim_header_value (codes "a;q=\"x,y\"" ∷ codes " b" ∷ [])
tokenize-join_commas_example =
    tokenize-join_commas (codes "a;q=\"x,y\"") (codes " b" ∷ []) elements (λ e. cc)

element : IsElement (codes "a")
element = IsElement.plain refl IsElement.done

abbrev snowman : Bytes
snowman = b'a' ∷ 226 ∷ 152 ∷ 131 ∷ []

validate_utf8_for_html-IsHtml_example : (validate_utf8_for_html snowman ≡ ok tt) ↔ IsHtml snowman
validate_utf8_for_html-IsHtml_example = validate_utf8_for_html-IsHtml snowman

snowman-valid : validate_utf8_for_html snowman ≡ ok tt
unfolding validate_utf8_for_html
snowman-valid = refl
