-- ===== src/Base/Text.antt =====
-- Python's `str`, as far as the program looks into one: `not s.strip()`.
use Prim.Native.Nat.{ℕ, ◌+◌, ◌-◌}
use Prim.Native.Char.{code}
use Prim.Native.String.{String, ◌++◌ as ◌<>◌}
use mathlib.Core.List.{List, [], ◌∷◌, ◌++◌}
use mathlib.Core.Path.{◌≡◌, refl}
use mathlib.Core.Bool.{Bool, true, false, ◌&&◌, ◌||◌}
use text.Mathlib.Text.{◌==◌ as str_eq}
use openmodelops.Base.Tests.{if◌then◌else◌, ltb, leb, nat_eq}
use openmodelops.Base.Lists.{length}

-- `str.isspace` of one character, which is what `str.strip` removes.
unfoldable pub is_space : ℕ → Bool
is_space c =
    (leb 9 c && leb c 13)
    || (leb 28 c && leb c 32)
    || nat_eq c 133
    || nat_eq c 160
    || nat_eq c 5760
    || (leb 8192 c && leb c 8202)
    || nat_eq c 8232
    || nat_eq c 8233
    || nat_eq c 8239
    || nat_eq c 8287
    || nat_eq c 12288

-- `not s.strip()`
unfoldable pub is_blank : String → Bool
unfolding is_space
is_blank String.[] = true
is_blank (String.◌∷◌ c s) = is_space (code c) && is_blank s

-- `not s`
unfoldable pub is_empty : String → Bool
is_empty String.[] = true
is_empty (String.◌∷◌ c s) = false

-- The characters of a text, as code points.
unfoldable pub codes : String → List ℕ
codes String.[] = []
codes (String.◌∷◌ c s) = code c ∷ codes s

-- `[a-z]` and `[0-9]`
abbrev pub is_lower : ℕ → Bool
is_lower c = leb b'a' c && leb c b'z'

abbrev pub is_digit : ℕ → Bool
is_digit c = leb b'0' c && leb c b'9'

-- `re.fullmatch(r"[a-z][a-z0-9-]{2,62}", s)`
abbrev pub name_tail : List ℕ → Bool
name_tail [] = true
name_tail (c ∷ cs) = (is_lower c || is_digit c || nat_eq c b'-') && name_tail cs

abbrev pub is_name : List ℕ → Bool
is_name [] = false
is_name (c ∷ cs) = is_lower c && leb 2 (length cs) && leb (length cs) 62 && name_tail cs

-- `text.endswith(suffix)`
unfoldable pub ends_with : String → String → Bool
unfolding is_empty
ends_with suffix String.[] = is_empty suffix
ends_with suffix (String.◌∷◌ c s) = str_eq suffix (String.◌∷◌ c s) || ends_with suffix s

-- The order of texts by their code points, which is Python's and SQLite's.
unfoldable pub text_leb : List ℕ → List ℕ → Bool
text_leb [] ds = true
text_leb (c ∷ cs) [] = false
text_leb (c ∷ cs) (d ∷ ds) =
    let rest = text_leb cs ds in if ltb c d then true else nat_eq c d && rest

-- `repr` of a list of texts that hold no quote and no backslash.
unfoldable pub repr_items : List String → String
repr_items [] = ""
repr_items (s ∷ []) = "'" <> s <> "'"
repr_items (s ∷ t ∷ rest) = "'" <> s <> "', " <> repr_items (t ∷ rest)

unfoldable pub repr_list : List String → String
unfolding repr_items
repr_list xs = "[" <> repr_items xs <> "]"

blank_texts : is_blank " \t " ≡ true
unfolding is_blank
blank_texts = refl

spoken_text : is_blank " ok " ≡ false
unfolding is_blank
spoken_text = refl

-- `str.lower` of one character, as far as the result holds ASCII characters alone.
abbrev pub lower_char : ℕ → ℕ
lower_char c = if leb b'A' c && leb c b'Z' then c + 32 else if nat_eq c 8490 then b'k' else c

-- `str.upper` of one character: of the characters beyond ASCII those whose upper form is ASCII.
abbrev pub upper_char : ℕ → List ℕ
upper_char c =
    if is_lower c
    then (c - 32) ∷ []
    else if nat_eq c 305
    then b'I' ∷ []
    else if nat_eq c 383
    then b'S' ∷ []
    else if nat_eq c 223
    then b'S' ∷ b'S' ∷ []
    else if nat_eq c 64261 || nat_eq c 64262
    then b'S' ∷ b'T' ∷ []
    else if nat_eq c 64256
    then b'F' ∷ b'F' ∷ []
    else if nat_eq c 64257
    then b'F' ∷ b'I' ∷ []
    else if nat_eq c 64258
    then b'F' ∷ b'L' ∷ []
    else if nat_eq c 64259
    then b'F' ∷ b'F' ∷ b'I' ∷ []
    else if nat_eq c 64260
    then b'F' ∷ b'F' ∷ b'L' ∷ []
    else c ∷ []

unfoldable pub upper : List ℕ → List ℕ
upper [] = []
upper (c ∷ cs) = upper_char c ++ upper cs

unfoldable pub same_codes : List ℕ → List ℕ → Bool
same_codes [] [] = true
same_codes [] (d ∷ ds) = false
same_codes (c ∷ cs) [] = false
same_codes (c ∷ cs) (d ∷ ds) = nat_eq c d && same_codes cs ds

unfoldable pub is_prefix : List ℕ → List ℕ → Bool
is_prefix [] ds = true
is_prefix (c ∷ cs) [] = false
is_prefix (c ∷ cs) (d ∷ ds) = nat_eq c d && is_prefix cs ds

-- `part in text`
unfoldable pub is_part : List ℕ → List ℕ → Bool
unfolding is_prefix
is_part part [] = is_prefix part []
is_part part (c ∷ cs) = is_prefix part (c ∷ cs) || is_part part cs

-- `sorted(set(texts))`
unfoldable pub place_text : String → List String → List String
place_text s [] = s ∷ []
place_text s (t ∷ ts) =
    let rest = place_text s ts in
    if str_eq s t then t ∷ ts else if text_leb (codes s) (codes t) then s ∷ t ∷ ts else t ∷ rest

unfoldable pub sorted_set : List String → List String
unfolding place_text
sorted_set [] = []
sorted_set (s ∷ ss) = place_text s (sorted_set ss)
