-- ===== src/Printer/Reader.antt =====
-- A reader of the attributes in an opening tag, after the tokenizer of the HTML standard, to compare
-- with what transformer/printer/printer.go writes. Entities in a value are left to the caller.
use amppackager.Prelude.{
  ℕ, Bool, ◌||◌, List, [], ◌∷◌, ◌++◌, Option, none, some, ◌==◌, if◌then◌else◌,
}
use amppackager.Prelude.Text.{Bytes}

-- The states of the tokenizer, with the name and the value that are being read.
pub data State : Type 0 where
  before_name after_quoted self_closing : State
  in_name after_name before_value : Bytes → State
  double_quoted single_quoted unquoted : Bytes → Bytes → State

abbrev pub Pairs : Type 0
Pairs = List (Bytes × Bytes)

-- What a byte does: attributes that are complete, and the next state or the end of the tag.
pub data Turn : Type 0 where
  goes : Pairs → State → Turn
  ends : Pairs → Turn

abbrev pub is_white : ℕ → Bool
is_white c = c == 9 || c == 10 || c == 12 || c == 13 || c == b' '

abbrev pub name_start : Pairs → ℕ → Turn
name_start done c =
    if is_white c
    then goes done before_name
    else if c == b'/'
    then goes done self_closing
    else if c == b'>'
    then ends done
    else goes done (in_name (c ∷ []))

unfoldable pub turn : State → ℕ → Turn
turn before_name c = name_start [] c
turn after_quoted c = name_start [] c
turn self_closing c = name_start [] c
turn (in_name n) c =
    if is_white c
    then goes [] (after_name n)
    else if c == b'/'
    then goes ((n, []) ∷ []) self_closing
    else if c == b'>'
    then ends ((n, []) ∷ [])
    else if c == b'='
    then goes [] (before_value n)
    else goes [] (in_name (n ++ c ∷ []))
turn (after_name n) c =
    if is_white c
    then goes [] (after_name n)
    else if c == b'='
    then goes [] (before_value n)
    else name_start ((n, []) ∷ []) c
turn (before_value n) c =
    if is_white c
    then goes [] (before_value n)
    else if c == b'"'
    then goes [] (double_quoted n [])
    else if c == 39
    then goes [] (single_quoted n [])
    else if c == b'>'
    then ends ((n, []) ∷ [])
    else goes [] (unquoted n (c ∷ []))
turn (double_quoted n v) c =
    if c == b'"' then goes ((n, v) ∷ []) after_quoted else goes [] (double_quoted n (v ++ c ∷ []))
turn (single_quoted n v) c =
    if c == 39 then goes ((n, v) ∷ []) after_quoted else goes [] (single_quoted n (v ++ c ∷ []))
turn (unquoted n v) c =
    if is_white c
    then goes ((n, v) ∷ []) before_name
    else if c == b'>'
    then ends ((n, v) ∷ [])
    else goes [] (unquoted n (v ++ c ∷ []))

abbrev pub Reading : Type 0
Reading = Option (Pairs × Bytes)

abbrev pub behind : Pairs → Reading → Reading
behind done none = none
behind done (some r) = some (done ++ r.0, r.1)

abbrev pub after_turn : Turn → (State → Reading) → Bytes → Reading
after_turn (goes done s) next cs = behind done (next s)
after_turn (ends done) next cs = some (done, cs)

-- The attributes up to the end of the tag, and what stands behind it.
unfoldable pub read : State → Bytes → Reading
unfolding turn
read s [] = none
read s (c ∷ cs) = after_turn (turn s c) (λ t. read t cs) cs
