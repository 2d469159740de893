-- ===== src/Utf8/Encoding.antt =====
-- What `utf8.DecodeRuneInString` reads, which transformer/utf8.go calls, and the table `isHTMLValid`.
use amppackager.Prelude.{
  ℕ, ◌+◌, ◌-◌, ◌*◌, ◌%◌, ◌≤◌, ◌<◌, ◌≡◌, ◌↔◌, ◌⊎◌, refl, Bool, true, false, ◌&&◌, [], ◌∷◌, ◌++◌,
  arith, ltb, leb, ltb→lt, if◌then◌else◌,
}
use amppackager.Prelude.Text.{Bytes}
use amppackager.Utf8.{
  is_html_valid, is_continuation, second_of_three, second_of_four, decode_rune, decode_two,
  decode_three, decode_four,
}

-- The bytes that encode a code point in UTF-8: in one to four of them, with the least number, and
-- none for a surrogate.
pub data Encodes (r : ℕ) : Bytes → Type 0 where
  one : r < 128 → Encodes r (r ∷ [])
  two :
      {b c : ℕ} (h l : ℕ)
      → b ≡ 192 + h
      → c ≡ 128 + l
      → h < 32
      → l < 64
      → r ≡ h * 64 + l
      → 128 ≤ r
      → Encodes r (b ∷ c ∷ [])
  three :
      {b c d : ℕ} (h m l : ℕ)
      → b ≡ 224 + h
      → c ≡ 128 + m
      → d ≡ 128 + l
      → h < 16
      → m < 64
      → l < 64
      → r ≡ h * 4096 + m * 64 + l
      → 2048 ≤ r
      → (r < 55296) ⊎ (57344 ≤ r)
      → Encodes r (b ∷ c ∷ d ∷ [])
  four :
      {b c d e : ℕ} (h m k l : ℕ)
      → b ≡ 240 + h
      → c ≡ 128 + m
      → d ≡ 128 + k
      → e ≡ 128 + l
      → m < 64
      → k < 64
      → l < 64
      → r ≡ h * 262144 + m * 4096 + k * 64 + l
      → 65536 ≤ r
      → r ≤ 1114111
      → Encodes r (b ∷ c ∷ d ∷ e ∷ [])

-- White space of HTML.
abbrev pub IsWhite : ℕ → Type 0
IsWhite r = (r ≡ 9) ⊎ ((r ≡ 10) ⊎ ((r ≡ 12) ⊎ (r ≡ 13)))

-- A character that a document may have: no control but white space, no surrogate, and no
-- noncharacter, which are U+FDD0 to U+FDEF and the last two of every plane.
pub record IsCharacter (r : ℕ) : Type 0 where
  pub code_point : r ≤ 1114111
  pub no_control : IsWhite r ⊎ (((32 ≤ r) × (r < 127)) ⊎ (160 ≤ r))
  pub no_surrogate : (r < 55296) ⊎ (57344 ≤ r)
  pub no_reserved : (r < 64976) ⊎ (65008 ≤ r)
  pub no_plane_end : r % 65536 < 65534

pub is_html_valid_iff : (r : ℕ) → (is_html_valid r ≡ true) ↔ IsCharacter r
unfolding is_html_valid
is_html_valid_iff r = (
  λ h. record {
    code_point = ground (arith, h);
    no_control = ground (arith, h);
    no_surrogate = ground (arith, h);
    no_reserved = ground (arith, h);
    no_plane_end = ground (arith, h);
  },
  λ c. ground (arith, c.code_point, c.no_control, c.no_surrogate, c.no_reserved, c.no_plane_end),
)

-- What `DecodeRuneInString` reads where its flag is set: the bytes that encode its rune.
pub data Reads (c : ℕ) (cs : Bytes) : ℕ × Bool × Bytes → Type 0 where
  reads :
      {r : ℕ} {rest : Bytes} (bs : Bytes)
      → Encodes r (c ∷ bs)
      → cs ≡ bs ++ rest
      → Reads c cs (r, true, rest)
  fails : {r : ℕ} {rest : Bytes} → Reads c cs (r, false, rest)

Reads-if :
    {c : ℕ} {cs : Bytes} (b : Bool) (x y : ℕ × Bool × Bytes)
    → (b ≡ true → Reads c cs x)
    → (b ≡ false → Reads c cs y)
    → Reads c cs (if b then x else y)
Reads-if true x y f g = f refl
Reads-if false x y f g = g refl

decode_two-Reads : (c : ℕ) (cs : Bytes) → 194 ≤ c → c ≤ 223 → Reads c cs (decode_two c cs)
decode_two-Reads c [] h1 h2 = fails
decode_two-Reads c (d ∷ ds) h1 h2 =
    Reads-if (is_continuation d) _ _
      (λ e.
        reads (d ∷ [])
          (two (c - 192) (d - 128) (omega (arith, h1)) (ground (arith, e)) (omega (arith, h2))
            (ground (arith, e)) refl (omega (arith, h1)))
          refl)
      (λ e. fails)

decode_three-Reads : (c : ℕ) (cs : Bytes) → 224 ≤ c → c ≤ 239 → Reads c cs (decode_three c cs)
decode_three-Reads c [] h1 h2 = fails
decode_three-Reads c (d ∷ []) h1 h2 = fails
decode_three-Reads c (d ∷ e ∷ es) h1 h2 =
    Reads-if (second_of_three c d && is_continuation e) _ _
      (λ q.
        reads (d ∷ e ∷ [])
          (three (c - 224) (d - 128) (e - 128) (omega (arith, h1)) (ground (arith, q))
            (ground (arith, q)) (omega (arith, h2)) (ground (arith, q)) (ground (arith, q)) refl
            (ground (arith, q, h1)) (ground (arith, q, h1, h2)))
          refl)
      (λ q. fails)

decode_four-Reads : (c : ℕ) (cs : Bytes) → 240 ≤ c → c ≤ 244 → Reads c cs (decode_four c cs)
decode_four-Reads c [] h1 h2 = fails
decode_four-Reads c (d ∷ []) h1 h2 = fails
decode_four-Reads c (d ∷ e ∷ []) h1 h2 = fails
decode_four-Reads c (d ∷ e ∷ f ∷ fs) h1 h2 =
    Reads-if (second_of_four c d && is_continuation e && is_continuation f) _ _
      (λ q.
        reads (d ∷ e ∷ f ∷ [])
          (four (c - 240) (d - 128) (e - 128) (f - 128) (omega (arith, h1)) (ground (arith, q))
            (ground (arith, q)) (ground (arith, q)) (ground (arith, q)) (ground (arith, q))
            (ground (arith, q)) refl (ground (arith, q, h1)) (ground (arith, q, h1, h2)))
          refl)
      (λ q. fails)

pub decode_rune-Reads : (c : ℕ) (cs : Bytes) → Reads c cs (decode_rune c cs)
unfolding decode_rune
decode_rune-Reads c cs =
    Reads-if (ltb c 128) _ _ (λ e. reads [] (one (ltb→lt c 128 e)) refl)
      λ e1.
        Reads-if (leb 194 c && leb c 223) _ _
          (λ e. decode_two-Reads c cs (ground (arith, e)) (ground (arith, e)))
          λ e2.
            Reads-if (leb 224 c && leb c 239) _ _
              (λ e. decode_three-Reads c cs (ground (arith, e)) (ground (arith, e)))
              λ e3.
                Reads-if (leb 240 c && leb c 244) _ _
                  (λ e. decode_four-Reads c cs (ground (arith, e)) (ground (arith, e))) λ e4. fails

-- The bytes of a rune are read as that rune.
pub decode_rune-Encodes :
    (r c : ℕ) (bs cs : Bytes) → Encodes r (c ∷ bs) → decode_rune c (bs ++ cs) ≡ (r, true, cs)
unfolding decode_rune
decode_rune-Encodes r c bs cs (one h) = ground (arith, h)
decode_rune-Encodes r c bs cs (two h l e f x y q z) = ground (arith, e, f, x, y, q, z)
decode_rune-Encodes r c bs cs (three h m l e f g x y z q u v) =
    ground (arith, e, f, g, x, y, z, q, u, v)
decode_rune-Encodes r c bs cs (four h m k l e f g j x y z q u v) =
    ground (arith, e, f, g, j, x, y, z, q, u, v)
