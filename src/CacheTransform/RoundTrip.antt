-- ===== src/CacheTransform/RoundTrip.antt =====
-- The parser in packager/amp_cache_transform/amp_cache_transform.go beside a printer of
-- parameterised lists. The printer is the grammar of draft-ietf-httpbis-header-structure that the parser cites.
use mathlib.Core.List.{append-nil, append_assoc}
use amppackager.Prelude.{
  ℕ, zero, suc, ◌≤◌, ◌<◌, ◌≡◌, refl, ap, ◌∙◌, Bool, true, false, not, ◌||◌, List, [], ◌∷◌, ◌++◌,
  none, some, ok, ◌>>=◌, arith, length, ◌==◌, if◌then◌else◌, length-append,
}
use amppackager.Prelude.Text.{Bytes, lookup, insert}
use amppackager.CacheTransform.{
  ParameterisedIdentifier, discard_ows, is_lc_alpha, is_second_identifier_char,
  parse_identifier_from, parse_identifier, invalid_string_char, parse_string_from, parse_string,
  param, parse_param, parse_params, parse_parameterised_identifier, parse_separator,
  parse_list_from, parse_parameterised_list, next_member,
}

abbrev pub AllBytes : (ℕ → Bool) → Bytes → Type 0
AllBytes p [] = Unit
AllBytes p (c ∷ cs) = (p c ≡ true) × AllBytes p cs

-- A lower-case letter with identifier characters behind it.
abbrev pub IsIdentifier : Bytes → Type 0
IsIdentifier [] = ⊥
IsIdentifier (c ∷ cs) = (is_lc_alpha c ≡ true) × AllBytes is_second_identifier_char cs

-- No control character.
abbrev pub IsText : Bytes → Type 0
IsText = AllBytes (λ c. not (invalid_string_char c))

abbrev pub escape : Bytes → Bytes → Bytes
escape [] rest = rest
escape (c ∷ cs) rest =
    if c == b'"' || c == b'\\' then b'\\' ∷ c ∷ escape cs rest else c ∷ escape cs rest

-- What follows an identifier without being part of it.
abbrev pub EndsIdentifier : Bytes → Type 0
EndsIdentifier [] = Unit
EndsIdentifier (c ∷ cs) = is_second_identifier_char c ≡ false

parse_identifier_from-append :
    (out cs rest : Bytes)
    → AllBytes is_second_identifier_char cs
    → EndsIdentifier rest
    → parse_identifier_from out (cs ++ rest) ≡ (out ++ cs, rest)
unfolding parse_identifier_from
parse_identifier_from-append out [] [] h e = rw append-nil
parse_identifier_from-append out [] (d ∷ rest) h e = rw (e, append-nil)
parse_identifier_from-append out (c ∷ cs) rest h e =
    rw h.0 (parse_identifier_from-append (out ++ c ∷ []) cs rest h.1 e ∙ rw append_assoc)

parse_identifier-append :
    (s rest : Bytes)
    → IsIdentifier s
    → EndsIdentifier rest
    → parse_identifier (s ++ rest) ≡ ok (s, rest)
unfolding parse_identifier
parse_identifier-append [] rest h e = elim h [ ]
parse_identifier-append (c ∷ cs) rest h e =
    rw h.0 (ap ok (parse_identifier_from-append (c ∷ []) cs rest h.1 e))

parse_string_from-escape :
    (value s rest : Bytes)
    → IsText s
    → parse_string_from false value (escape s (b'"' ∷ rest)) ≡ ok (value ++ s, rest)
unfolding parse_string_from
parse_string_from-escape value [] rest h = rw append-nil
parse_string_from-escape value (c ∷ cs) rest h =
    let ih =
      parse_string_from-escape (value ++ c ∷ []) cs rest h.1
      ∙ ap (λ v. ok (v, rest)) (append_assoc value (c ∷ []) cs) in
    ground (arith, ih, h.0)

pub parse_string-escape :
    (s rest : Bytes) → IsText s → parse_string (b'"' ∷ escape s (b'"' ∷ rest)) ≡ ok (s, rest)
unfolding parse_string
parse_string-escape s rest h = parse_string_from-escape [] s rest h

abbrev pub format_params : List (Bytes × Bytes) → Bytes → Bytes
format_params [] rest = rest
format_params ((name, value) ∷ ps) rest =
    b';' ∷ (name ++ (b'=' ∷ b'"' ∷ escape value (b'"' ∷ format_params ps rest)))

-- The parameters can stand behind those in `acc`: names and values are well formed, and no name
-- stands twice.
abbrev pub ParamsFit : List (Bytes × Bytes) → List (Bytes × Bytes) → Type 0
ParamsFit acc [] = Unit
ParamsFit acc ((name, value) ∷ ps) =
    IsIdentifier name
    × IsText value
    × (lookup name acc ≡ none)
    × ParamsFit (acc ++ (name, value) ∷ []) ps

insert-of_absent :
    (k v : Bytes) (m : List (Bytes × Bytes)) → lookup k m ≡ none → insert k v m ≡ m ++ (k, v) ∷ []
insert-of_absent k v [] h = refl
insert-of_absent k v ((j, w) ∷ m) h = ground (arith, insert-of_absent k v m)

-- The end of the text, or the comma before the next member.
abbrev EndsParams : Bytes → Type 0
EndsParams [] = Unit
EndsParams (c ∷ cs) = c ≡ b','

discard_ows-identifier : (s rest : Bytes) → IsIdentifier s → discard_ows (s ++ rest) ≡ s ++ rest
unfolding discard_ows
discard_ows-identifier [] rest h = elim h [ ]
discard_ows-identifier (c ∷ cs) rest h = ground arith

parse_param-format :
    (acc : List (Bytes × Bytes)) (name value rest : Bytes)
    → IsIdentifier name
    → IsText value
    → lookup name acc ≡ none
    → parse_param acc (name ++ (b'=' ∷ b'"' ∷ escape value (b'"' ∷ rest)))
      ≡ ok (param name value rest)
unfolding parse_param
parse_param-format acc name value rest hn hv absent =
    let after : Bytes = b'=' ∷ b'"' ∷ escape value (b'"' ∷ rest) in
    rw (discard_ows-identifier name after hn) (
      rw (parse_identifier-append name after hn refl)
        (rw absent (rw (parse_string-escape value rest hv))))

parse_params-format :
    (fuel : ℕ) (acc ps : List (Bytes × Bytes)) (rest : Bytes)
    → length ps < fuel
    → ParamsFit acc ps
    → EndsParams rest
    → parse_params fuel acc (format_params ps rest) ≡ ok (acc ++ ps, rest)
unfolding parse_params discard_ows
parse_params-format zero acc ps rest h fit e = elim h [ ]
parse_params-format (suc fuel) acc [] [] h fit e = rw append-nil
parse_params-format (suc fuel) acc [] (c ∷ rest) h fit e = rw (e, append-nil)
parse_params-format (suc fuel) acc ((name, value) ∷ ps) rest h (hn, hv, absent, fit) e =
    rw (parse_param-format acc name value (format_params ps rest) hn hv absent) (
      rw (insert-of_absent name value acc absent) (
        parse_params-format fuel (acc ++ (name, value) ∷ []) ps rest (omega arith) fit e
        ∙ rw append_assoc))

abbrev pub format_item : ParameterisedIdentifier → Bytes → Bytes
format_item i rest = i.id ++ format_params i.params rest

abbrev pub format_list : List ParameterisedIdentifier → Bytes
format_list [] = []
format_list (i ∷ []) = format_item i []
format_list (i ∷ j ∷ is) = format_item i (b',' ∷ format_list (j ∷ is))

-- An identifier, and distinct well-formed parameters.
abbrev pub IsPrintable : ParameterisedIdentifier → Type 0
IsPrintable i = IsIdentifier i.id × ParamsFit [] i.params

abbrev pub AllPrintable : List ParameterisedIdentifier → Type 0
AllPrintable [] = Unit
AllPrintable (i ∷ is) = IsPrintable i × AllPrintable is

length-escape : (s rest : Bytes) → length rest ≤ length (escape s rest)
length-escape [] rest = omega arith
length-escape (c ∷ cs) rest = ground (arith, length-escape cs rest)

length-rest :
    (ps : List (Bytes × Bytes)) (rest : Bytes) → length rest ≤ length (format_params ps rest)
length-rest [] rest = omega arith
length-rest ((name, value) ∷ ps) rest =
    let tail : Bytes = format_params ps rest in
    omega (
      arith,
      length-append name (b'=' ∷ b'"' ∷ escape value (b'"' ∷ tail)),
      length-escape value (b'"' ∷ tail),
      length-rest ps rest,
    )

length-format_params :
    (ps : List (Bytes × Bytes)) (rest : Bytes) → length ps ≤ length (format_params ps rest)
length-format_params [] rest = omega arith
length-format_params ((name, value) ∷ ps) rest =
    let tail : Bytes = format_params ps rest in
    omega (
      arith,
      length-append name (b'=' ∷ b'"' ∷ escape value (b'"' ∷ tail)),
      length-escape value (b'"' ∷ tail),
      length-format_params ps rest,
    )

format_params-ends :
    (ps : List (Bytes × Bytes)) (rest : Bytes)
    → EndsParams rest
    → EndsIdentifier (format_params ps rest)
unfolding is_second_identifier_char
format_params-ends [] [] e = tt
format_params-ends [] (c ∷ cs) e = rw e refl
format_params-ends ((name, value) ∷ ps) rest e = refl

parse_parameterised_identifier-format :
    (i : ParameterisedIdentifier) (rest : Bytes)
    → IsPrintable i
    → EndsParams rest
    → parse_parameterised_identifier (format_item i rest) ≡ ok (i, rest)
unfolding parse_parameterised_identifier
parse_parameterised_identifier-format i rest (hi, hp) e =
    let r : Bytes = format_params i.params rest in
    rw (parse_identifier-append i.id r hi (format_params-ends i.params rest e)) (
      rw (
        parse_params-format (suc (length r)) [] i.params rest
          (omega (arith, length-format_params i.params rest)) hp e))

parse_separator-comma :
    (i : ParameterisedIdentifier) (rest : Bytes)
    → IsPrintable i
    → parse_separator (b',' ∷ format_item i rest) ≡ ok (some (format_item i rest))
unfolding parse_separator discard_ows
parse_separator-comma i rest h =
    rw (discard_ows-identifier i.id (format_params i.params rest) h.0)
      (next_member-identifier i.id _ h.0)
  where
    next_member-identifier :
        (s rest : Bytes)
        → IsIdentifier s
        → (next_member (s ++ rest) >>= λ r'. ok (some r')) ≡ ok (some (s ++ rest))
    next_member-identifier [] rest h = elim h [ ]
    next_member-identifier (c ∷ cs) rest h = refl

parse_separator-list :
    (i : ParameterisedIdentifier) (is : List ParameterisedIdentifier)
    → IsPrintable i
    → parse_separator (b',' ∷ format_list (i ∷ is)) ≡ ok (some (format_list (i ∷ is)))
parse_separator-list i [] h = parse_separator-comma i [] h
parse_separator-list i (j ∷ is) h = parse_separator-comma i (b',' ∷ format_list (j ∷ is)) h

parse_list_from-format :
    (fuel : ℕ) (items : List ParameterisedIdentifier) (i : ParameterisedIdentifier)
    (is : List ParameterisedIdentifier)
    → length is < fuel
    → AllPrintable (i ∷ is)
    → parse_list_from fuel items (format_list (i ∷ is)) ≡ ok (items ++ i ∷ is)
unfolding parse_list_from parse_separator
parse_list_from-format zero items i is h p = elim h [ ]
parse_list_from-format (suc fuel) items i [] h p =
    rw (parse_parameterised_identifier-format i [] p.0 tt)
parse_list_from-format (suc fuel) items i (j ∷ is) h p =
    rw (parse_parameterised_identifier-format i (b',' ∷ format_list (j ∷ is)) p.0 refl) (
      rw (parse_separator-list j is p.1.0)
        (parse_list_from-format fuel (items ++ i ∷ []) j is (omega arith) p.1 ∙ rw append_assoc))

length-format_item :
    (i : ParameterisedIdentifier) (rest : Bytes)
    → IsPrintable i
    → length rest < length (format_item i rest)
length-format_item i rest h = omega (
  arith,
  length-append i.id (format_params i.params rest),
  length-rest i.params rest,
  length-identifier i.id h.0,
)
  where
    length-identifier : (s : Bytes) → IsIdentifier s → 0 < length s
    length-identifier [] h = elim h [ ]
    length-identifier (c ∷ cs) h = omega arith

length-format_list :
    (i : ParameterisedIdentifier) (is : List ParameterisedIdentifier)
    → AllPrintable (i ∷ is)
    → length is < length (format_list (i ∷ is))
length-format_list i [] p = length-format_item i [] p.0
length-format_list i (j ∷ is) p =
    omega
      (arith, length-format_list j is p.1, length-format_item i (b',' ∷ format_list (j ∷ is)) p.0)

parse_parameterised_list-non_empty :
    (s : Bytes) → 0 < length s → parse_parameterised_list s ≡ parse_list_from (suc (length s)) [] s
unfolding parse_parameterised_list
parse_parameterised_list-non_empty [] h = elim h [ ]
parse_parameterised_list-non_empty (c ∷ cs) h = refl

-- Every non-empty list of printable identifiers is read back from its text, with its parameters in
-- order, whatever text the values hold.
pub parse_parameterised_list-format_list :
    (i : ParameterisedIdentifier) (is : List ParameterisedIdentifier)
    → AllPrintable (i ∷ is)
    → parse_parameterised_list (format_list (i ∷ is)) ≡ ok (i ∷ is)
parse_parameterised_list-format_list i is p =
    parse_parameterised_list-non_empty (format_list (i ∷ is))
      (omega (arith, length-format_list i is p))
    ∙ parse_list_from-format (suc (length (format_list (i ∷ is)))) [] i is
        (omega (arith, length-format_list i is p)) p
