-- ===== src/Common/Text.antt =====
-- What the program uses of Go's packages strings, strconv and path, on texts.
use Prim.Native.Nat.{ℕ, zero, suc, ◌+◌, ◌-◌, ◌/◌, ◌%◌}
use Prim.Native.Char.{code}
use Prim.Native.String
use Prim.Native.String.{String, len, find, compare, [], ◌∷◌}
use mathlib.Core.Bool.{Bool, true, false, ◌&&◌, ◌||◌}
use mathlib.Core.List.{List, [], ◌∷◌, reverse}
use mathlib.Core.Path.{◌≡◌, refl}
use native.Mathlib.Omega.{arith}
use text.Mathlib.Text.{is_le}
use m_waf.Common.Tests.{if◌then◌else◌, leb, ltb, nat_eq, ◌==◌}

infixr 65 ◌⧺◌
abbrev pub ◌⧺◌ : String → String → String
s ⧺ t = String.◌++◌ s t

-- strings.EqualFold where one side is ASCII: beside the letters, U+017F folds to s and U+212A to k.
fold_code : ℕ → ℕ
fold_code c =
    if leb 65 c && leb c 90
    then c + 32
    else if nat_eq c 0x17f
    then 115
    else if nat_eq c 0x212a
    then 107
    else c

unfoldable pub equal_fold : String → String → Bool
unfolding fold_code
equal_fold [] [] = true
equal_fold [] (_ ∷ _) = false
equal_fold (_ ∷ _) [] = false
equal_fold (c ∷ s) (d ∷ t) = nat_eq (fold_code (code c)) (fold_code (code d)) && equal_fold s t

pub equal_fold_refl : (s : String) → equal_fold s s ≡ true
unfolding equal_fold
equal_fold_refl [] = refl
equal_fold_refl (c ∷ s) = ground (arith, equal_fold_refl s)

-- unicode.IsSpace
is_space : ℕ → Bool
is_space c =
    leb 9 c && leb c 13
    || nat_eq c 32
    || nat_eq c 0x85
    || nat_eq c 0xa0
    || nat_eq c 0x1680
    || leb 0x2000 c && leb c 0x200a
    || nat_eq c 0x2028
    || nat_eq c 0x2029
    || nat_eq c 0x202f
    || nat_eq c 0x205f
    || nat_eq c 0x3000

trim_left : String → String
trim_left [] = ""
trim_left (c ∷ s) = elim (is_space (code c)) [ true ↦ trim_left s | false ↦ c ∷ s ]

trim_right : String → String
trim_right [] = ""
trim_right (c ∷ s) =
    let rest = trim_right s in if rest == "" && is_space (code c) then "" else c ∷ rest

unfoldable pub trim_space : String → String
unfolding is_space trim_left trim_right
trim_space s = trim_right (trim_left s)

-- strings.ReplaceAll(s, from, to) for a `from` of one character
unfoldable pub replace_char : ℕ → String → String → String
replace_char from to [] = ""
replace_char from to (c ∷ s) =
    let rest = replace_char from to s in if nat_eq (code c) from then to ⧺ rest else c ∷ rest

-- strings.Contains
abbrev pub contains : String → String → Bool
contains s t = is_le (Prim.Native.Nat.compare (find s t) (len s))

-- strings.Split on one character
split_from : ℕ → String → String → List String
split_from sep cur [] = cur ∷ []
split_from sep cur (c ∷ s) =
    let closed = split_from sep "" s in
    let longer = split_from sep (cur ⧺ (c ∷ "")) s in
    if nat_eq (code c) sep then cur ∷ closed else longer

unfoldable pub split : ℕ → String → List String
unfolding split_from
split sep s = split_from sep "" s

unfoldable pub join : String → List String → String
join sep [] = ""
join sep (x ∷ []) = x
join sep (x ∷ y ∷ xs) = x ⧺ sep ⧺ join sep (y ∷ xs)

-- path.Clean, by the rules of its documentation; the stack has the last element first
clean_step : Bool → List String → String → List String
clean_step rooted [] part =
    if part == "" || part == "."
    then []
    else if part == ".."
    then (if rooted then [] else ".." ∷ [])
    else part ∷ []
clean_step rooted (top ∷ stack) part =
    if part == "" || part == "."
    then top ∷ stack
    else if part == ".."
    then (if top == ".." then ".." ∷ top ∷ stack else stack)
    else part ∷ top ∷ stack

clean_parts : Bool → List String → List String → List String
clean_parts rooted stack [] = reverse stack
clean_parts rooted stack (part ∷ parts) = clean_parts rooted (clean_step rooted stack part) parts

unfoldable pub clean : String → String
unfolding split join clean_step clean_parts
clean p =
    let rooted = text.Mathlib.Text.starts_with p "/" in
    let body = join "/" (clean_parts rooted [] (split b'/' p)) in
    if rooted then "/" ⧺ body else if body == "" then "." else body

-- the elements before the last slash, and the last one
init_of : List String → List String
init_of [] = []
init_of (x ∷ []) = []
init_of (x ∷ y ∷ xs) = x ∷ init_of (y ∷ xs)

last_of : String → List String → String
last_of d [] = d
last_of d (x ∷ xs) = last_of x xs

-- filepath.Dir
unfoldable pub dir : String → String
unfolding clean init_of
dir p = elim (init_of (split b'/' p)) [ [] ↦ "." | x ∷ xs ↦ clean (join "/" (x ∷ xs) ⧺ "/") ]

-- filepath.Base of a path with no slash at its end
unfoldable pub base : String → String
unfolding split last_of
base p = if p == "" then "." else last_of "" (split b'/' p)

-- filepath.Ext of a path with no slash: the text from its last dot
extension : List String → String
extension [] = ""
extension (x ∷ []) = ""
extension (x ∷ y ∷ xs) = "." ⧺ last_of y xs

unfoldable pub ext : String → String
unfolding split extension last_of
ext name = extension (split b'.' name)

-- filepath.Join of two elements that are not empty
unfoldable pub join_path : String → String → String
unfolding clean
join_path a b = clean (a ⧺ "/" ⧺ b)

-- strconv.Itoa of a number that is not negative
digit : ℕ → String
digit n =
    if nat_eq n 0
    then "0"
    else if nat_eq n 1
    then "1"
    else if nat_eq n 2
    then "2"
    else if nat_eq n 3
    then "3"
    else if nat_eq n 4
    then "4"
    else if nat_eq n 5
    then "5"
    else if nat_eq n 6
    then "6"
    else if nat_eq n 7
    then "7"
    else if nat_eq n 8
    then "8"
    else "9"

itoa_fuel : ℕ → ℕ → String
itoa_fuel zero n = ""
itoa_fuel (suc f) n =
    let front = itoa_fuel f (n / 10) in if ltb n 10 then digit n else front ⧺ digit (n % 10)

unfoldable pub itoa : ℕ → String
unfolding itoa_fuel digit
itoa n = itoa_fuel (suc n) n

-- sort.Strings, by insertion: Go's order on strings is that of their bytes, as `compare` is here
insert_sorted : String → List String → List String
insert_sorted x [] = x ∷ []
insert_sorted x (y ∷ ys) = if is_le (compare x y) then x ∷ y ∷ ys else y ∷ insert_sorted x ys

unfoldable pub sort : List String → List String
unfolding insert_sorted
sort [] = []
sort (x ∷ xs) = insert_sorted x (sort xs)

trim_space_test : trim_space " \t a b\n" ≡ "a b"
unfolding trim_space
trim_space_test = refl

clean_tests :
    (clean "a//b/./../c/" ≡ "a/c")
    × (clean "../a/../.." ≡ "../..")
    × (clean "/.." ≡ "/")
    × (clean "" ≡ ".")
unfolding clean
clean_tests = (refl, refl, refl, refl)

itoa_tests : (itoa 0 ≡ "0") × (itoa 10 ≡ "10") × (itoa 98765 ≡ "98765")
unfolding itoa
itoa_tests = (refl, refl, refl)

sort_test : sort ("b" ∷ "a" ∷ "ab" ∷ []) ≡ "a" ∷ "ab" ∷ "b" ∷ []
unfolding sort
sort_test = refl

dir_tests :
    (dir "/etc/mwaf/active/main.conf" ≡ "/etc/mwaf/active")
    × (dir "a" ≡ ".")
    × (dir "/a" ≡ "/")
    × (base "/x/y.json" ≡ "y.json")
    × (ext "y.z.json" ≡ ".json")
unfolding dir base ext
dir_tests = (refl, refl, refl, refl, refl)
