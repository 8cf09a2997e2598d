-- ===== src/Common/Texts.antt =====
-- The functions of Go's packages strings, unicode and strconv that the program calls. A text is
-- walked by its characters; the program's names and versions are ASCII, where these are its bytes.
use Prim.Native.Nat.{ℕ, zero, suc, ◌+◌, ◌-◌, ◌*◌, ◌/◌, ◌%◌}
use Prim.Native.Char.{Char, code}
use Prim.Native.String
use Prim.Native.String.{String, [], ◌∷◌}
use mathlib.Core.Path.{◌≡◌, refl}
use mathlib.Core.Bool.{Bool, true, false, ◌&&◌, ◌||◌}
use mathlib.Core.List.{List, [], ◌∷◌}
use provider_cloudnative_pg.Common.Tests.{leb, ltb, eqb, if◌then◌else◌, is_empty}
use provider_cloudnative_pg.Common.Int.{ℤ, pos, negsuc}

-- `unicode.IsSpace`
unfoldable pub is_space : Char → Bool
is_space c =
    let n = code c in
    (leb 9 n && leb n 13)
    || eqb n 32
    || eqb n 0x85
    || eqb n 0xa0
    || eqb n 0x1680
    || (leb 0x2000 n && leb n 0x200a)
    || eqb n 0x2028
    || eqb n 0x2029
    || eqb n 0x202f
    || eqb n 0x205f
    || eqb n 0x3000

unfoldable pub is_digit : Char → Bool
is_digit c = leb b'0' (code c) && leb (code c) b'9'

-- The first piece and the pieces after it.
pub split_parts : ℕ → String → String × List String
split_parts sep [] = ("", [])
split_parts sep (c ∷ s) =
    let (word, words) = split_parts sep s in
    if eqb (code c) sep then ("", word ∷ words) else (c ∷ word, words)

-- `strings.Split` by one ASCII character.
unfoldable pub split : ℕ → String → List String
unfolding split_parts
split sep s = let (word, words) = split_parts sep s in word ∷ words

-- The text before the first separator, as `strings.Cut` gives it.
unfoldable pub before : ℕ → String → String
before sep [] = []
before sep (c ∷ s) = if eqb (code c) sep then [] else c ∷ before sep s

-- `strings.TrimLeft` and `strings.TrimRight` by a test on characters.
unfoldable pub trim_left : (Char → Bool) → String → String
trim_left cut [] = []
trim_left cut (c ∷ s) = if cut c then trim_left cut s else c ∷ s

unfoldable pub trim_right : (Char → Bool) → String → String
trim_right cut [] = []
trim_right cut (c ∷ s) =
    let rest = trim_right cut s in if is_empty rest && cut c then [] else c ∷ rest

unfoldable pub trim_space : String → String
unfolding trim_left trim_right is_space
trim_space s = trim_right is_space (trim_left is_space s)

abbrev flush : String → List String → List String
flush word words = if is_empty word then words else word ∷ words

-- The word that reaches up to the start of the text, and the words after it.
pub field_parts : String → String × List String
field_parts [] = ("", [])
field_parts (c ∷ s) =
    let (word, words) = field_parts s in
    if is_space c then ("", flush word words) else (c ∷ word, words)

-- `strings.Fields`
unfoldable pub fields : String → List String
unfolding field_parts is_space
fields s = let (word, words) = field_parts s in flush word words

-- `strings.Join`
unfoldable pub join : String → List String → String
join sep [] = ""
join sep (x ∷ []) = x
join sep (x ∷ y ∷ xs) = String.◌++◌ x (String.◌++◌ sep (join sep (y ∷ xs)))

-- `strings.ReplaceAll(s, old, new)` for one ASCII character `old`.
unfoldable pub replace_all : ℕ → String → String → String
replace_all old new [] = []
replace_all old new (c ∷ s) =
    if eqb (code c) old then String.◌++◌ new (replace_all old new s) else c ∷ replace_all old new s

-- What `strconv.ParseUint(s, 10, 64)` finds: a syntax error, or a value, which is the largest
-- uint64 where the digits read so far exceed it.
pub data Parsed : Type 0 where
  bad_syntax : Parsed
  number : ℕ → Parsed

abbrev max_uint64 : ℕ
max_uint64 = 18446744073709551615

abbrev max_int64 : ℕ
max_int64 = 9223372036854775807

parse_digits : ℕ → String → Parsed
parse_digits acc [] = number acc
parse_digits acc (c ∷ s) =
    let next = acc * 10 + (code c - b'0') in
    let rest = parse_digits next s in
    if is_digit c then (if ltb max_uint64 next then number max_uint64 else rest) else bad_syntax

parse_uint : String → Parsed
parse_uint [] = bad_syntax
parse_uint (c ∷ s) = parse_digits 0 (c ∷ s)

abbrev positive : Parsed → ℤ × Bool
positive bad_syntax = (pos 0, false)
positive (number n) = if leb n max_int64 then (pos n, true) else (pos max_int64, false)

abbrev negative : Parsed → ℤ × Bool
negative bad_syntax = (pos 0, false)
negative (number zero) = (pos 0, true)
negative (number (suc n)) = if leb n max_int64 then (negsuc n, true) else (negsuc max_int64, false)

-- `strconv.Atoi`: the value, and whether the error is nil. A number out of range comes back as the
-- nearest int64, with an error.
unfoldable pub atoi : String → ℤ × Bool
unfolding parse_digits parse_uint is_digit
atoi [] = (pos 0, false)
atoi (c ∷ s) =
    if eqb (code c) b'+'
    then positive (parse_uint s)
    else if eqb (code c) b'-'
    then negative (parse_uint s)
    else positive (parse_uint (c ∷ s))

digit : ℕ → String
digit d =
    if eqb d 0
    then "0"
    else if eqb d 1
    then "1"
    else if eqb d 2
    then "2"
    else if eqb d 3
    then "3"
    else if eqb d 4
    then "4"
    else if eqb d 5
    then "5"
    else if eqb d 6
    then "6"
    else if eqb d 7
    then "7"
    else if eqb d 8
    then "8"
    else "9"

decimal : ℕ → ℕ → String
decimal zero n = ""
decimal (suc fuel) n =
    let front = decimal fuel (n / 10) in
    if ltb n 10 then digit n else String.◌++◌ front (digit (n % 10))

-- `strconv.Itoa`, and the verb %d. A number has no more digits than its value plus one.
unfoldable pub itoa : ℤ → String
unfolding digit decimal
itoa (pos n) = decimal (suc n) n
itoa (negsuc n) = String.◌++◌ "-" (decimal (suc (suc n)) (suc n))

unfoldable pub hex_digit : ℕ → String
unfolding digit
hex_digit d =
    if ltb d 10
    then digit d
    else if eqb d 10
    then "a"
    else if eqb d 11
    then "b"
    else if eqb d 12
    then "c"
    else if eqb d 13
    then "d"
    else if eqb d 14
    then "e"
    else "f"

-- One character as `strconv.Quote` writes it; what is not ASCII counts as printable.
quote_char : Char → String
unfolding hex_digit
quote_char c =
    let n = code c in
    if eqb n b'"'
    then "\\\""
    else if eqb n 92
    then "\\\\"
    else if eqb n 7
    then "\\a"
    else if eqb n 8
    then "\\b"
    else if eqb n 12
    then "\\f"
    else if eqb n 10
    then "\\n"
    else if eqb n 13
    then "\\r"
    else if eqb n 9
    then "\\t"
    else if eqb n 11
    then "\\v"
    else if ltb n 32 || eqb n 127
    then String.◌++◌ "\\x" (String.◌++◌ (hex_digit (n / 16)) (hex_digit (n % 16)))
    else c ∷ []

quote_body : String → String
quote_body [] = []
quote_body (c ∷ s) = String.◌++◌ (quote_char c) (quote_body s)

-- The verb %q.
unfoldable pub quote : String → String
unfolding quote_char quote_body
quote s = String.◌++◌ "\"" (String.◌++◌ (quote_body s) "\"")

quote_test : quote "a\"\n" ≡ "\"a\\\"\\n\""
unfolding quote
quote_test = refl

version_parts : split b'.' "18.10" ≡ "18" ∷ "10" ∷ []
unfolding split
version_parts = refl

cron_fields : fields " 0 2  * * 1 " ≡ "0" ∷ "2" ∷ "*" ∷ "*" ∷ "1" ∷ []
unfolding fields
cron_fields = refl

atoi_tests :
    (atoi "-40" ≡ (negsuc 39, true))
    × (atoi "4x" ≡ (pos 0, false))
    × (atoi "99999999999999999999" ≡ (pos 9223372036854775807, false))
unfolding atoi
atoi_tests = (refl, refl, refl)

itoa_tests : (itoa (pos 5432) ≡ "5432") × (itoa (negsuc 0) ≡ "-1")
unfolding itoa
itoa_tests = (refl, refl)
