-- ===== src/Base/Text.antt =====
-- The operations on `str` that the program calls, over the native texts.
pub mod Order
pub mod Sorted
use Prim.Native.Char.{Char, code}
use Prim.Native.Nat.{ℕ, zero, suc, ◌/◌, ◌%◌}
use Prim.Native.String as Str
use Prim.Native.String.{String, compare, ◌++◌}
use mathlib.Core.Path.{◌≡◌, refl}
use mathlib.Core.Bool.{Bool, true, false, ◌&&◌, ◌||◌}
use mathlib.Core.List.{List, [], ◌∷◌}
use text.Mathlib.Text.{is_lt, starts_with}
use vdev_lab.Base.Tests.{ltb, leb, eqb, if◌then◌else◌}

infixr 66 ◌<>◌
abbrev pub ◌<>◌ : String → String → String
s <> t = s ++ t

-- `s < t`: by code points, from the left.
abbrev pub ltb_str : String → String → Bool
ltb_str s t = is_lt (compare s t)

-- The digit of a number below ten.
unfoldable pub digit : ℕ → Char
digit zero = "0"
digit (suc zero) = "1"
digit (suc (suc zero)) = "2"
digit (suc (suc (suc zero))) = "3"
digit (suc (suc (suc (suc zero)))) = "4"
digit (suc (suc (suc (suc (suc zero))))) = "5"
digit (suc (suc (suc (suc (suc (suc zero)))))) = "6"
digit (suc (suc (suc (suc (suc (suc (suc zero))))))) = "7"
digit (suc (suc (suc (suc (suc (suc (suc (suc zero)))))))) = "8"
digit _ = "9"

unfoldable pub decimal_onto : ℕ → ℕ → String → String
decimal_onto zero n rest = rest
decimal_onto (suc fuel) n rest =
    let more = decimal_onto fuel (n / 10) (Str.◌∷◌ (digit (n % 10)) rest) in
    if ltb n 10 then Str.◌∷◌ (digit n) rest else more

-- `str(n)` of a number that is not negative; `n` has at most `suc n` digits.
unfoldable pub decimal : ℕ → String
decimal n = decimal_onto (suc n) n ""

-- `sep.join(parts)`
unfoldable pub join : String → List String → String
join sep [] = ""
join sep (part ∷ []) = part
join sep (part ∷ rest) = part <> sep <> join sep rest

insert_sorted : String → List String → List String
insert_sorted s [] = s ∷ []
insert_sorted s (t ∷ ts) =
    let rest = insert_sorted s ts in if ltb_str t s then t ∷ rest else s ∷ t ∷ ts

-- `sorted(strings)`
unfoldable pub sort_strings : List String → List String
unfolding insert_sorted
sort_strings [] = []
sort_strings (s ∷ ss) = insert_sorted s (sort_strings ss)

insert_sorted-ne : (s : String) (ts : List String) → insert_sorted s ts ≡ [] → ⊥
unfolding insert_sorted
insert_sorted-ne s [] h = cc h
insert_sorted-ne s (t ∷ ts) h = by_order (ltb_str t s) h
  where
    by_order : (b : Bool) → (if b then t ∷ insert_sorted s ts else s ∷ t ∷ ts) ≡ [] → ⊥
    by_order true k = cc k
    by_order false k = cc k

pub sort_strings-nil : (ss : List String) → sort_strings ss ≡ [] → ss ≡ []
unfolding sort_strings
sort_strings-nil [] h = refl
sort_strings-nil (s ∷ ss) h = absurd (insert_sorted-ne s (sort_strings ss) h)

abbrev in_range : ℕ → ℕ → ℕ → Bool
in_range lo hi c = leb lo c && leb c hi

-- The characters at which `str.splitlines` ends a line.
abbrev pub is_line_break : ℕ → Bool
is_line_break c = in_range 10 13 c || in_range 28 30 c || eqb c 133 || in_range 8232 8233 c

-- `str.isspace` of one character.
abbrev pub is_space : ℕ → Bool
is_space c =
    in_range 9 13 c
    || in_range 28 32 c
    || eqb c 133
    || eqb c 160
    || eqb c 5760
    || in_range 8192 8202 c
    || in_range 8232 8233 c
    || eqb c 8239
    || eqb c 8287
    || eqb c 12288

-- `not s.strip()`
unfoldable pub is_blank : String → Bool
is_blank Str.[] = true
is_blank (Str.◌∷◌ c s) = is_space (code c) && is_blank s

abbrev starts_line_feed : String → Bool
starts_line_feed Str.[] = false
starts_line_feed (Str.◌∷◌ c s) = eqb (code c) 10

abbrev put_first : Char → List String → List String
put_first c [] = Str.◌∷◌ c "" ∷ []
put_first c (line ∷ lines) = Str.◌∷◌ c line ∷ lines

-- `s.splitlines()`; a carriage return before a line feed ends no line of its own.
unfoldable pub splitlines : String → List String
splitlines Str.[] = []
splitlines (Str.◌∷◌ c s) =
    let lines = splitlines s in
    if is_line_break (code c)
    then (if eqb (code c) 13 && starts_line_feed s then lines else "" ∷ lines)
    else put_first c lines

-- `text in s`
unfoldable pub is_in : String → String → Bool
is_in text Str.[] = starts_with "" text
is_in text (Str.◌∷◌ c s) = starts_with (Str.◌∷◌ c s) text || is_in text s

-- `str.upper` of the ASCII letters; the scheduler records no action with another letter.
upper_char : Char → Char
upper_char c =
    if eqb (code c) 97
    then "A"
    else if eqb (code c) 98
    then "B"
    else if eqb (code c) 99
    then "C"
    else if eqb (code c) 100
    then "D"
    else if eqb (code c) 101
    then "E"
    else if eqb (code c) 102
    then "F"
    else if eqb (code c) 103
    then "G"
    else if eqb (code c) 104
    then "H"
    else if eqb (code c) 105
    then "I"
    else if eqb (code c) 106
    then "J"
    else if eqb (code c) 107
    then "K"
    else if eqb (code c) 108
    then "L"
    else if eqb (code c) 109
    then "M"
    else if eqb (code c) 110
    then "N"
    else if eqb (code c) 111
    then "O"
    else if eqb (code c) 112
    then "P"
    else if eqb (code c) 113
    then "Q"
    else if eqb (code c) 114
    then "R"
    else if eqb (code c) 115
    then "S"
    else if eqb (code c) 116
    then "T"
    else if eqb (code c) 117
    then "U"
    else if eqb (code c) 118
    then "V"
    else if eqb (code c) 119
    then "W"
    else if eqb (code c) 120
    then "X"
    else if eqb (code c) 121
    then "Y"
    else if eqb (code c) 122
    then "Z"
    else c

unfoldable pub upper : String → String
unfolding upper_char
upper Str.[] = ""
upper (Str.◌∷◌ c s) = Str.◌∷◌ (upper_char c) (upper s)
