-- ===== src/Canary/Words.antt =====
-- The words of a text: `re.findall(r"[a-z0-9]+", text)`, the longest runs of letters and digits.
use Prim.Native.Char.{Char, code}
use public_intelligence.Prelude.{
  String, Bool, false, ◌&&◌, ◌||◌, List, [], ◌∷◌, leb, str_eq, if◌then◌else◌,
}

is_word_char : Char → Bool
is_word_char c = leb b'a' (code c) && leb (code c) b'z' || leb b'0' (code c) && leb (code c) b'9'

-- Whether a word begins here.
abbrev starts_word : String → Bool
starts_word String.[] = false
starts_word (String.◌∷◌ c s) = is_word_char c

-- One more character in front of the first word.
abbrev pub extend : Char → List String → List String
extend c [] = String.◌∷◌ c String.[] ∷ []
extend c (w ∷ ws) = String.◌∷◌ c w ∷ ws

unfoldable pub words : String → List String
unfolding is_word_char
words String.[] = []
words (String.◌∷◌ c s) =
    let rest = words s in
    if is_word_char c
    then (if starts_word s then extend c rest else String.◌∷◌ c String.[] ∷ rest)
    else rest

-- `word in words`
abbrev pub is_member : String → List String → Bool
is_member word [] = false
is_member word (w ∷ ws) = str_eq w word || is_member word ws
