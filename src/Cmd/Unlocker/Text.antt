-- ===== src/Cmd/Unlocker/Text.antt =====
-- What cmd/unlocker uses of Go's texts: `strings.Split` at a comma, `strings.TrimSpace` and
-- `sort.Strings`.
use Prim.Native.Char.{Char, code}
use Prim.Native.String.{compare}
use text.Mathlib.Text.{is_le}
use eth_custodial.Prelude.{
  ℕ, String, Bool, ◌&&◌, ◌||◌, List, [], ◌∷◌, leb, ◌==◌, if◌then◌else◌, str_eq,
}

abbrev put_first : Char → List String → List String
put_first c [] = (String.◌∷◌ c "") ∷ []
put_first c (s ∷ ss) = (String.◌∷◌ c s) ∷ ss

-- `strings.Split(s, ",")`
unfoldable pub split_commas : String → List String
split_commas String.[] = "" ∷ []
split_commas (String.◌∷◌ c s) =
    let rest = split_commas s in if code c == b',' then "" ∷ rest else put_first c rest

-- `unicode.IsSpace`
abbrev is_space : ℕ → Bool
is_space c =
    (leb 9 c && leb c 13)
    || c == 32
    || c == 0x85
    || c == 0xA0
    || c == 0x1680
    || (leb 0x2000 c && leb c 0x200A)
    || c == 0x2028
    || c == 0x2029
    || c == 0x202F
    || c == 0x205F
    || c == 0x3000

trim_left : String → String
trim_left String.[] = ""
trim_left (String.◌∷◌ c s) =
    let rest = trim_left s in if is_space (code c) then rest else String.◌∷◌ c s

trim_right : String → String
trim_right String.[] = ""
trim_right (String.◌∷◌ c s) =
    let rest = trim_right s in if str_eq rest "" && is_space (code c) then "" else String.◌∷◌ c rest

-- `strings.TrimSpace`
unfoldable pub trim_space : String → String
unfolding trim_left trim_right
trim_space s = trim_right (trim_left s)

-- The order of the bytes, which is the order of the characters' numbers.
abbrev pub is_before : String → String → Bool
is_before a b = is_le (compare a b)

unfoldable pub insert_text : String → List String → List String
insert_text a [] = a ∷ []
insert_text a (b ∷ bs) =
    let rest = insert_text a bs in if is_before a b then a ∷ b ∷ bs else b ∷ rest

-- `sort.Strings`
unfoldable pub sort_texts : List String → List String
unfolding insert_text
sort_texts [] = []
sort_texts (a ∷ as_) = insert_text a (sort_texts as_)
