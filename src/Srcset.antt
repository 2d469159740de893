-- ===== src/Srcset.antt =====
-- transformer/internal/amphtml/srcset.go: `ParseSrcset`. The matches of `imageCandidateRE` are a
-- parameter. The keys of the map are sorted together with their URLs.
pub mod Offsets
use amppackager.Prelude.{
  ℕ, ◌+◌, Bool, true, false, not, ◌&&◌, ◌||◌, List, [], ◌∷◌, ◌++◌, Option, none, some, ltb, ◌==◌,
  if◌then◌else◌, length,
}
use amppackager.Prelude.Text.{Bytes, codes, bytes_eq}
use amppackager.Config.{is_empty}

-- The submatches of an image candidate.
pub record Candidate : Type 0 where
  pub url : Bytes
  pub descriptor : Bytes
  pub comma : Bytes

abbrev default_density : Bytes
default_density = codes "1x"

abbrev density_of : Candidate → Bytes
density_of m = if is_empty m.descriptor then default_density else m.descriptor

-- A width or density with its URL.
abbrev pub Source : Type 0
Source = Bytes × Bytes

abbrev is_seen : Bytes → List Source → Bool
is_seen d [] = false
is_seen d ((key, url) ∷ rest) = bytes_eq key d || is_seen d rest

abbrev is_last : List Candidate → Bool
is_last [] = true
is_last (m ∷ ms) = false

-- The loop over the matches: the sources, in order, unless one is there twice or a comma is missing.
unfoldable pub collect : List Source → List Candidate → Option (List Source)
collect seen [] = some seen
collect seen (m ∷ ms) =
    let rest = collect (seen ++ (density_of m, m.url) ∷ []) ms in
    if is_seen (density_of m) seen
    then none
    else if not (is_last ms) && is_empty m.comma
    then none
    else rest

-- The order of `sort.Strings`.
abbrev text_less : Bytes → Bytes → Bool
text_less [] [] = false
text_less [] (d ∷ ds) = true
text_less (c ∷ cs) [] = false
text_less (c ∷ cs) (d ∷ ds) = ltb c d || c == d && text_less cs ds

abbrev insert_source : Source → List Source → List Source
insert_source s [] = s ∷ []
insert_source s (t ∷ ts) =
    let later = t ∷ insert_source s ts in if text_less t.0 s.0 then later else s ∷ t ∷ ts

unfoldable pub sort_sources : List Source → List Source
sort_sources [] = []
sort_sources (s ∷ ss) = insert_source s (sort_sources ss)

-- `SubresourceOffset`: where a URL starts, and where it ends.
abbrev pub Offset : Type 0
Offset = ℕ × ℕ

abbrev pub separator : List Source → Bytes
separator [] = []
separator (s ∷ ss) = codes ", "

-- The loop that writes the sources, from a position on.
unfoldable pub write_sources : ℕ → List Source → Bytes × List Offset
write_sources pos [] = ([], [])
write_sources pos ((key, url) ∷ rest) =
    let text = (url ++ (b' ' ∷ key)) ++ separator rest in
    let (out, offsets) = write_sources (pos + length text) rest in
    (text ++ out, (pos, pos + length url) ∷ offsets)

abbrev pub written : Bytes → Option (List Source) → Bytes × List Offset
written input none = (input, [])
written input (some sources) = write_sources 0 (sort_sources sources)

abbrev pub with_matches : Bytes → List Candidate → Bytes × List Offset
with_matches input [] = (input, [])
with_matches input (m ∷ ms) = written input (collect [] (m ∷ ms))

-- `ParseSrcset`
unfoldable pub parse_srcset : (Bytes → List Candidate) → Bytes → Bytes × List Offset
unfolding collect sort_sources write_sources
parse_srcset find_all input = with_matches input (find_all input)
