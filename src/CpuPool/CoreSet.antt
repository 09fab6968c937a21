-- ===== src/CpuPool/CoreSet.antt =====
-- internal/cpupool/cpupool.go: ParseCoreSet, over the code points of the text. `strings.Split` at
-- one byte, `strings.TrimSpace`, `strconv.Atoi` and `Sscanf("%d")` are written out for what the
-- function uses of them: no part that reaches the last two holds a '-'.
pub mod Print
pub mod Sprint
use mc_kube.Prelude.{
  ℕ, zero, suc, ◌+◌, ◌-◌, ◌*◌, Bool, true, false, ◌&&◌, ◌||◌, List, [], ◌∷◌, ◌++◌, Option, none,
  some, ℤ, pos, ltb, leb, nat_eq, ◌==◌, any, if◌then◌else◌, map,
}
use Prim.Native.Char.{code}
use Prim.Native.String.{String}
use mathlib.Core.List.{reverse}

abbrev pub code_points : String → List ℕ
code_points String.[] = []
code_points (String.◌∷◌ first more) = code first ∷ code_points more

abbrev pub int_limit : ℕ
int_limit = 9223372036854775808

-- `strings.Split` at one separator: always at least one part.
abbrev pub join_first : ℕ → List (List ℕ) → List (List ℕ)
join_first c [] = (c ∷ []) ∷ []
join_first c (part ∷ parts) = (c ∷ part) ∷ parts

unfoldable pub split : ℕ → List ℕ → List (List ℕ)
split sep [] = [] ∷ []
split sep (c ∷ cs) = let parts = split sep cs in if c == sep then [] ∷ parts else join_first c parts

-- `unicode.IsSpace`
unfoldable pub is_space : ℕ → Bool
is_space c =
    (leb 9 c && leb c 13)
    || (c == 32
        || (c == 0x85
            || (c == 0xa0
                || (c == 0x1680
                    || ((leb 0x2000 c && leb c 0x200a)
                        || (c == 0x2028
                            || (c == 0x2029 || (c == 0x202f || (c == 0x205f || c == 0x3000)))))))))

unfoldable pub trim_left : List ℕ → List ℕ
unfolding is_space
trim_left [] = []
trim_left (c ∷ cs) = let rest = trim_left cs in if is_space c then rest else c ∷ cs

unfoldable pub trim_space : List ℕ → List ℕ
unfolding trim_left
trim_space cs = reverse (trim_left (reverse (trim_left cs)))

abbrev pub contains : ℕ → List ℕ → Bool
contains b = any (λ c. c == b)

unfoldable pub is_digit : ℕ → Bool
is_digit c = leb b'0' c && leb c b'9'

-- The digits at the front, as a number, with the digits read before them in `acc`.
unfoldable pub read_digits : ℕ → List ℕ → ℕ × List ℕ
unfolding is_digit
read_digits acc [] = (acc, [])
read_digits acc (c ∷ cs) =
    let rest = read_digits (acc * 10 + (c - b'0')) cs in if is_digit c then rest else (acc, c ∷ cs)

-- An optional plus sign.
unfoldable pub drop_plus : List ℕ → List ℕ
drop_plus [] = []
drop_plus (c ∷ cs) = if c == b'+' then cs else c ∷ cs

abbrev pub starts_digit : List ℕ → Bool
starts_digit [] = false
starts_digit (c ∷ cs) = is_digit c

abbrev pub is_empty : List ℕ → Bool
is_empty [] = true
is_empty (c ∷ cs) = false

abbrev pub in_range : ℕ → Option ℕ
in_range n = if ltb n int_limit then some n else none

-- `strconv.Atoi` of a text with no '-': digits to the end, within the range of `int`.
unfoldable pub atoi : List ℕ → Option ℕ
unfolding drop_plus read_digits
atoi cs =
    let digits = drop_plus cs in
    let (n, rest) = read_digits 0 digits in
    if starts_digit digits && is_empty rest then in_range n else none

-- `fmt.Sscanf(part, "%d", &coreID)` of a trimmed text with no '-': what follows the digits is left.
unfoldable pub scan_int : List ℕ → Option ℕ
unfolding drop_plus read_digits
scan_int cs =
    let digits = drop_plus cs in
    let (n, rest) = read_digits 0 digits in if starts_digit digits then in_range n else none

-- `for i := start; i <= end; i++`, by the number of rounds.
unfoldable pub count_up : ℕ → ℕ → List ℤ
count_up zero i = []
count_up (suc n) i = pos i ∷ count_up n (i + 1)

unfoldable pub core_range : Option ℕ → Option ℕ → List ℤ
unfolding count_up
core_range (some start) (some end) = count_up (end + 1 - start) start
core_range _ _ = []

-- The two ends of a range; any other number of '-' gives nothing.
unfoldable pub parse_range : List (List ℕ) → List ℤ
unfolding core_range trim_space atoi
parse_range (lo ∷ hi ∷ []) = core_range (atoi (trim_space lo)) (atoi (trim_space hi))
parse_range _ = []

abbrev pub one_core : Option ℕ → List ℤ
one_core none = []
one_core (some n) = pos n ∷ []

unfoldable pub parse_part : List ℕ → List ℤ
unfolding parse_range trim_space scan_int split
parse_part raw =
    let part = trim_space raw in
    if contains b'-' part then parse_range (split b'-' part) else one_core (scan_int part)

unfoldable pub parse_parts : List (List ℕ) → List ℤ
unfolding parse_part
parse_parts [] = []
parse_parts (part ∷ parts) = parse_part part ++ parse_parts parts

unfoldable pub parse_core_set : List ℕ → List ℤ
unfolding parse_parts split
parse_core_set core_str = if is_empty core_str then [] else parse_parts (split b',' core_str)
