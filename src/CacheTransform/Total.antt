-- ===== src/CacheTransform/Total.antt =====
-- The loops of the parser in packager/amp_cache_transform/amp_cache_transform.go and the fuel that
-- the model gives them.
use amppackager.Prelude.{
  ℕ, zero, suc, ◌≤◌, ◌<◌, ◌≢◌, Bool, true, false, List, [], ◌∷◌, ◌++◌, Option, none, some, Result,
  ok, err, ◌>>=◌, arith, length, ◌==◌, inl, inr, Bool-cases,
}
use amppackager.Prelude.Text.{Bytes, lookup, insert}
use amppackager.CacheTransform.{
  ParseError, out_of_fuel, ParameterisedIdentifier, Parsed, discard_ows, expect,
  parse_identifier_from, parse_identifier, parse_string_from, parse_string, Round, stop, param,
  check_absent, parse_param, round_at, parse_params, parse_parameterised_identifier, next_member,
  parse_separator, continue_with, finish_or, parse_list_from, parse_parameterised_list,
}

-- An answer leaves fewer than `n` bytes, or is an error other than `out_of_fuel`.
abbrev Shrinks : {A : Type 0} → ℕ → Parsed A → Type 0
Shrinks n (ok (a, r)) = length r < n
Shrinks n (err e) = e ≢ out_of_fuel

length-discard_ows : (s : Bytes) → length (discard_ows s) ≤ length s
unfolding discard_ows
length-discard_ows [] = omega arith
length-discard_ows (c ∷ cs) = ground (arith, length-discard_ows cs)

length-parse_identifier_from : (out s : Bytes) → length (parse_identifier_from out s).1 ≤ length s
unfolding parse_identifier_from
length-parse_identifier_from out [] = omega arith
length-parse_identifier_from out (c ∷ cs) =
    ground (arith, length-parse_identifier_from (out ++ c ∷ []) cs)

parse_identifier-Shrinks : (s : Bytes) → Shrinks (length s) (parse_identifier s)
unfolding parse_identifier
parse_identifier-Shrinks [] = ground arith
parse_identifier-Shrinks (c ∷ cs) = ground (arith, length-parse_identifier_from (c ∷ []) cs)

Shrinks-mono : {A : Type 0} (n m : ℕ) (res : Parsed A) → n ≤ m → Shrinks n res → Shrinks m res
Shrinks-mono n m (ok (a, r)) h s = omega arith
Shrinks-mono n m (err e) h s = s

parse_string_from-Shrinks :
    (escaped : Bool) (value s : Bytes) → Shrinks (length s) (parse_string_from escaped value s)
unfolding parse_string_from
parse_string_from-Shrinks escaped value [] = ground arith
parse_string_from-Shrinks true value (c ∷ cs) =
    let longer =
      Shrinks-mono (length cs) (suc (length cs)) _ (omega arith)
        (parse_string_from-Shrinks false (value ++ c ∷ []) cs) in
    ground (arith, longer)
parse_string_from-Shrinks false value (c ∷ cs) =
    let escape =
      Shrinks-mono (length cs) (suc (length cs)) _ (omega arith)
        (parse_string_from-Shrinks true value cs) in
    let longer =
      Shrinks-mono (length cs) (suc (length cs)) _ (omega arith)
        (parse_string_from-Shrinks false (value ++ c ∷ []) cs) in
    ground (arith, escape, longer)

parse_string-Shrinks : (s : Bytes) → Shrinks (length s) (parse_string s)
unfolding parse_string
parse_string-Shrinks [] = ground arith
parse_string-Shrinks (c ∷ cs) = elim (Bool-cases (c == b'"')) [
  | inl q ↦
      rw q (Shrinks-mono (length cs) _ _ (omega arith) (parse_string_from-Shrinks false [] cs))
  | inr q ↦ rw q (ground arith)
]

-- A bind of two such parsers; the second works on what the first has left.
Shrinks-bind :
    {A B : Type 0} (n : ℕ) (m : Parsed A) (f : A × Bytes → Parsed B)
    → Shrinks n m
    → ((a : A) (r : Bytes) → length r < n → Shrinks n (f (a, r)))
    → Shrinks n (m >>= f)
Shrinks-bind n (ok (a, r)) f h k = k a r h
Shrinks-bind n (err e) f h k = h

-- The same of a round and of a separator.
abbrev Progress : ℕ → Result ParseError Round → Type 0
Progress n (ok (stop r)) = length r ≤ n
Progress n (ok (param name value r)) = length r < n
Progress n (err e) = e ≢ out_of_fuel

Progress-bind :
    {A : Type 0} (n : ℕ) (m : Parsed A) (f : A × Bytes → Result ParseError Round)
    → Shrinks n m
    → ((a : A) (r : Bytes) → length r < n → Progress n (f (a, r)))
    → Progress n (m >>= f)
Progress-bind n (ok (a, r)) f h k = k a r h
Progress-bind n (err e) f h k = h

value-Progress :
    (name s : Bytes) (n : ℕ)
    → length s < n
    → Progress n
        (expect b'=' s >>= λ r. parse_string r >>= λ (value, rest). ok (param name value rest))
value-Progress name [] n h = ground arith
value-Progress name (c ∷ cs) n h = elim (Bool-cases (c == b'=')) [
  | inl q ↦ rw q (
      Progress-bind n (parse_string cs) _
        (Shrinks-mono (length cs) n _ (omega arith) (parse_string-Shrinks cs)) (λ a r k. k))
  | inr q ↦ rw q (ground arith)
]

absent-Progress :
    (o : Option Bytes) (n : ℕ) (k : Result ParseError Round)
    → Progress n k
    → Progress n (check_absent o >>= λ _. k)
absent-Progress none n k h = h
absent-Progress (some v) n k h = ground arith

parse_param-Progress :
    (params : List (Bytes × Bytes)) (s : Bytes) (n : ℕ)
    → length s ≤ n
    → Progress n (parse_param params s)
unfolding parse_param
parse_param-Progress params s n h =
    Progress-bind n (parse_identifier (discard_ows s)) _
      (Shrinks-mono (length (discard_ows s)) n _ (omega (arith, length-discard_ows s))
        (parse_identifier-Shrinks (discard_ows s)))
      (λ name r k. absent-Progress (lookup name params) n _ (value-Progress name r n k))

round_at-Progress :
    (params : List (Bytes × Bytes)) (s : Bytes) → Progress (length s) (round_at params s)
round_at-Progress params [] = omega arith
round_at-Progress params (c ∷ cs) = elim (Bool-cases (c == b';')) [
  | inl q ↦ rw q (parse_param-Progress params cs (suc (length cs)) (omega arith))
  | inr q ↦ rw q (omega arith)
]

continue_with-Shrinks :
    (params : List (Bytes × Bytes))
    (loop : List (Bytes × Bytes) → Bytes → Parsed (List (Bytes × Bytes))) (n : ℕ)
    (m : Result ParseError Round)
    → ((ps : List (Bytes × Bytes)) (r : Bytes)
        → length r < n
        → Shrinks (suc (length r)) (loop ps r))
    → Progress n m
    → Shrinks (suc n) (m >>= continue_with params loop)
continue_with-Shrinks params loop n (err e) ih p = p
continue_with-Shrinks params loop n (ok (stop rest)) ih p = omega arith
continue_with-Shrinks params loop n (ok (param name value rest)) ih p =
    Shrinks-mono (suc (length rest)) (suc n) _ (omega arith) (ih (insert name value params) rest p)

parse_params-Shrinks :
    (fuel : ℕ) (params : List (Bytes × Bytes)) (s : Bytes)
    → length s < fuel
    → Shrinks (suc (length s)) (parse_params fuel params s)
unfolding parse_params
parse_params-Shrinks zero params s h = elim h [ ]
parse_params-Shrinks (suc fuel) params s h =
    Shrinks-mono (suc (length (discard_ows s))) _ _ (omega (arith, length-discard_ows s)) (
      continue_with-Shrinks params (parse_params fuel) (length (discard_ows s)) _
        (λ ps r k. parse_params-Shrinks fuel ps r (omega (arith, length-discard_ows s)))
        (round_at-Progress params (discard_ows s)))

parse_parameterised_identifier-Shrinks :
    (s : Bytes) → Shrinks (length s) (parse_parameterised_identifier s)
unfolding parse_parameterised_identifier
parse_parameterised_identifier-Shrinks s =
    Shrinks-bind (length s) (parse_identifier s) _ (parse_identifier-Shrinks s) (λ id r k.
      Shrinks-bind (length s) (parse_params (suc (length r)) [] r) _
        (Shrinks-mono (suc (length r)) _ _ k
          (parse_params-Shrinks (suc (length r)) [] r (omega arith)))
        (λ ps rest k'. k'))

-- A separator leaves fewer bytes, and fails with a proper error.
abbrev Separates : ℕ → Result ParseError (Option Bytes) → Type 0
Separates n (ok none) = Unit
Separates n (ok (some r)) = length r < n
Separates n (err e) = e ≢ out_of_fuel

next_member-Separates :
    (n : ℕ) (s : Bytes) → length s < n → Separates n (next_member s >>= λ r. ok (some r))
next_member-Separates n [] h = ground arith
next_member-Separates n (c ∷ cs) h = h

comma-Separates :
    (n : ℕ) (s : Bytes)
    → length s ≤ n
    → Separates n (expect b',' s >>= λ r. next_member (discard_ows r) >>= λ r'. ok (some r'))
comma-Separates n [] h = ground arith
comma-Separates n (c ∷ cs) h = elim (Bool-cases (c == b',')) [
  | inl q ↦ rw q (next_member-Separates n (discard_ows cs) (omega (arith, length-discard_ows cs)))
  | inr q ↦ rw q (ground arith)
]

parse_separator-Separates : (s : Bytes) → Separates (length s) (parse_separator s)
unfolding parse_separator
parse_separator-Separates [] = tt
parse_separator-Separates (c ∷ cs) =
    comma-Separates (length (c ∷ cs)) (discard_ows (c ∷ cs)) (length-discard_ows (c ∷ cs))

finish_or_total :
    (done : List ParameterisedIdentifier) (n : ℕ)
    (loop : Bytes → Result ParseError (List ParameterisedIdentifier))
    (next : Result ParseError (Option Bytes))
    → ((r : Bytes) → length r < n → loop r ≢ err out_of_fuel)
    → Separates n next
    → (next >>= finish_or done loop) ≢ err out_of_fuel
finish_or_total done n loop (ok none) ih p = λ q. cc
finish_or_total done n loop (ok (some r)) ih p = ih r p
finish_or_total done n loop (err e) ih p = λ q. p (cc)

member_total :
    {A B : Type 0} (n : ℕ) (m : Parsed A) (f : A × Bytes → Result ParseError B)
    → Shrinks n m
    → ((a : A) (r : Bytes) → length r < n → f (a, r) ≢ err out_of_fuel)
    → (m >>= f) ≢ err out_of_fuel
member_total n (ok (a, r)) f h k = k a r h
member_total n (err e) f h k = λ q. h (cc)

parse_list_from_total :
    (fuel : ℕ) (items : List ParameterisedIdentifier) (s : Bytes)
    → length s < fuel
    → parse_list_from fuel items s ≢ err out_of_fuel
unfolding parse_list_from
parse_list_from_total zero items s h = elim h [ ]
parse_list_from_total (suc fuel) items s h =
    member_total (length s) (parse_parameterised_identifier s) _
      (parse_parameterised_identifier-Shrinks s)
      (λ item r k.
        finish_or_total (items ++ item ∷ []) (length r) (parse_list_from fuel (items ++ item ∷ []))
          (parse_separator r)
          (λ r' k'. parse_list_from_total fuel (items ++ item ∷ []) r' (omega arith))
          (parse_separator-Separates r))

-- The parser of the header ends on every input with a list or with one of the source's errors:
-- the fuel of its two loops, the length of the input, never runs out.
pub parse_parameterised_list_total : (s : Bytes) → parse_parameterised_list s ≢ err out_of_fuel
unfolding parse_parameterised_list
parse_parameterised_list_total [] = λ q. cc
parse_parameterised_list_total (c ∷ cs) =
    parse_list_from_total (suc (suc (length cs))) [] (c ∷ cs) (omega arith)
