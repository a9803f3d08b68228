-- ===== src/Text.antt =====
-- Go strings as lists of code points, and the functions of Go's `strings` package that the program
-- calls. `to_lower` folds the ASCII letters, the only cased letters of the program's own key words.
pub mod Laws
pub mod Split
pub mod Compact
pub mod Number
use Prim.Native.Char.{code}
use auto_gardener.Base.{
  Bool, List, String, [], drop, false, if◌then◌else◌, is_nil, leb, length, ltb, map, not, take,
  true, ℕ, ◌&&◌, ◌++◌, ◌+◌, ◌==◌, ◌||◌, ◌∷◌,
}

abbrev pub Text : Type 0
Text = List ℕ

-- The code points of a literal.
unfoldable pub text_of : String → Text
text_of String.[] = []
text_of (String.◌∷◌ c s) = code c ∷ text_of s

unfoldable pub text_eq : Text → Text → Bool
text_eq [] [] = true
text_eq (a ∷ s) (b ∷ t) = a == b && text_eq s t
text_eq _ _ = false

-- unicode.IsSpace
unfoldable pub is_space : ℕ → Bool
is_space c =
    (leb 9 c && leb c 13)
    || c == 32
    || c == 0x85
    || c == 0xa0
    || c == 0x1680
    || (leb 0x2000 c && leb c 0x200a)
    || c == 0x2028
    || c == 0x2029
    || c == 0x202f
    || c == 0x205f
    || c == 0x3000

unfoldable pub trim_left : Text → Text
trim_left [] = []
trim_left (c ∷ s) = let rest = trim_left s in if is_space c then rest else c ∷ s

unfoldable pub trim_right : Text → Text
trim_right [] = []
trim_right (c ∷ s) = let rest = trim_right s in if is_nil rest && is_space c then [] else c ∷ rest

-- strings.TrimSpace
unfoldable pub trim_space : Text → Text
unfolding trim_left trim_right is_space
trim_space s = trim_right (trim_left s)

-- strings.TrimSpace(s) == ""
unfoldable pub is_blank : Text → Bool
unfolding trim_space
is_blank s = is_nil (trim_space s)

abbrev starts_word : Text → Bool
starts_word [] = false
starts_word (c ∷ s) = not (is_space c)

abbrev pub push_rune : ℕ → List Text → List Text
push_rune c [] = (c ∷ []) ∷ []
push_rune c (w ∷ ws) = (c ∷ w) ∷ ws

-- strings.Fields
unfoldable pub fields : Text → List Text
unfolding is_space
fields [] = []
fields (c ∷ s) =
    let rest = fields s in
    if is_space c then rest else if starts_word s then push_rune c rest else (c ∷ []) ∷ rest

-- strings.Join
unfoldable pub join : Text → List Text → Text
join sep [] = []
join sep (w ∷ []) = w
join sep (w ∷ v ∷ ws) = w ++ (sep ++ join sep (v ∷ ws))

abbrev pub lower_rune : ℕ → ℕ
lower_rune c = if leb b'A' c && leb c b'Z' then c + 32 else c

-- strings.ToLower
unfoldable pub to_lower : Text → Text
to_lower s = map lower_rune s

-- strings.EqualFold
unfoldable pub equal_fold : Text → Text → Bool
unfolding text_eq to_lower
equal_fold s t = text_eq (to_lower s) (to_lower t)

-- strings.HasPrefix(s, prefix)
unfoldable pub has_prefix : Text → Text → Bool
has_prefix s [] = true
has_prefix [] (p ∷ ps) = false
has_prefix (c ∷ s) (p ∷ ps) = c == p && has_prefix s ps

-- strings.Contains(s, part)
unfoldable pub contains : Text → Text → Bool
unfolding has_prefix
contains [] part = has_prefix [] part
contains (c ∷ s) part = has_prefix (c ∷ s) part || contains s part

-- strings.ReplaceAll(s, " ", "")
unfoldable pub without_spaces : Text → Text
without_spaces [] = []
without_spaces (c ∷ s) = let rest = without_spaces s in if c == 32 then rest else c ∷ rest

-- strings.TrimPrefix
unfoldable pub trim_prefix : Text → Text → Text
unfolding has_prefix
trim_prefix s p = if has_prefix s p then drop (length p) s else s

abbrev pub rune_bytes : ℕ → ℕ
rune_bytes c = if ltb c 0x80 then 1 else if ltb c 0x800 then 2 else if ltb c 0x10000 then 3 else 4

-- len(s): the bytes of the UTF-8 form
unfoldable pub byte_length : Text → ℕ
byte_length [] = 0
byte_length (c ∷ s) = rune_bytes c + byte_length s

-- The shape that the program writes by hand in many places: the first `n` runes and a suffix.
unfoldable pub clip : ℕ → Text → Text → Text
clip n suffix s = if ltb n (length s) then take n s ++ suffix else s

-- firstNonEmpty: the first item that is not blank
unfoldable pub first_non_empty : List Text → Text
unfolding is_blank
first_non_empty [] = []
first_non_empty (s ∷ rest) = if is_blank s then first_non_empty rest else s
