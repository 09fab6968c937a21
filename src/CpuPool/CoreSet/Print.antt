-- ===== src/CpuPool/CoreSet/Print.antt =====
-- internal/cpupool/cpupool.go: ParseCoreSet reads back the decimal numbers that the program writes
-- with `Sprintf("%d", …)`, alone or joined by commas.
use mathlib.Core.List.{reverse, append_assoc, append-nil, reverse-cons, reverse-reverse}
use mc_kube.Prelude.{
  ℕ, zero, suc, ◌+◌, ◌-◌, ◌*◌, ◌/◌, ◌%◌, ◌≤◌, ◌<◌, ◌≡◌, refl, sym, ap, ap₂, subst, ◌∙◌, inl, inr,
  true, false, List, [], ◌∷◌, ◌++◌, some, pos, ltb, nat_eq, arith, if◌then◌else◌, map, Bool-cases,
  All, All-append,
}
use mc_kube.CpuPool.CoreSet.{
  code_points, int_limit, split, is_space, trim_left, trim_space, contains, is_digit, read_digits,
  is_empty, scan_int, one_core, parse_part, parse_parts, parse_core_set,
}

-- `fmt.Sprintf("%d", n)` of a number that is not negative, with fuel above the number.
unfoldable pub print_from : ℕ → ℕ → List ℕ
print_from zero n = []
print_from (suc fuel) n =
    let front = print_from fuel (n / 10) in
    if ltb n 10 then (b'0' + n) ∷ [] else front ++ ((b'0' + n % 10) ∷ [])

unfoldable pub print : ℕ → List ℕ
unfolding print_from
print n = print_from (suc n) n

-- A byte that no separator, sign or space is.
abbrev pub IsDigit : ℕ → Type 0
IsDigit c = (b'0' ≤ c) × (c ≤ b'9')

print_from-IsDigit : (fuel n : ℕ) → All IsDigit (print_from fuel n)
unfolding print_from
print_from-IsDigit zero n = tt
print_from-IsDigit (suc fuel) n = elim (Bool-cases (ltb n 10)) [
  | inl e ↦ rw e (ground (arith, e), tt)
  | inr e ↦ rw e (All-append IsDigit _ _ (print_from-IsDigit fuel (n / 10)) ((omega arith), tt))
]

is_digit-digit : (d : ℕ) → d < 10 → is_digit (b'0' + d) ≡ true
unfolding is_digit
is_digit-digit d h = ground arith

read_digits-digit :
    (acc d : ℕ) (rest : List ℕ)
    → d < 10
    → read_digits acc ((b'0' + d) ∷ rest) ≡ read_digits (acc * 10 + d) rest
unfolding read_digits
read_digits-digit acc d rest h =
    let back : b'0' + d - b'0' ≡ d = omega arith in rw (is_digit-digit d h, back)

-- The digits read back the number, and what follows is read on from there.
read_digits-print_from :
    (fuel n : ℕ) (rest : List ℕ)
    → n < fuel
    → read_digits 0 (print_from fuel n ++ rest) ≡ read_digits n rest
unfolding print_from
read_digits-print_from zero n rest h = absurd (omega arith)
read_digits-print_from (suc fuel) n rest h = elim (Bool-cases (ltb n 10)) [
  | inl e ↦
      let plain : 0 * 10 + n ≡ n = omega arith in
      rw e (read_digits-digit 0 n rest (ground (arith, e)) ∙ ap (λ k. read_digits k rest) plain)
  | inr e ↦
      let joined : n / 10 * 10 + n % 10 ≡ n = omega arith in
      rw e (
        ap (read_digits 0) (append_assoc (print_from fuel (n / 10)) ((b'0' + n % 10) ∷ []) rest)
        ∙ read_digits-print_from fuel (n / 10) ((b'0' + n % 10) ∷ rest) (ground (arith, e))
        ∙ read_digits-digit (n / 10) (n % 10) rest (omega arith)
        ∙ ap (λ k. read_digits k rest) joined)
]

pub read_digits-print : (n : ℕ) → read_digits 0 (print n) ≡ (n, [])
unfolding print read_digits
read_digits-print n =
    ap (read_digits 0) (sym (append-nil (print n)))
    ∙ read_digits-print_from (suc n) n [] (omega arith)

-- What starts a number is a digit.
abbrev StartsDigit : List ℕ → Type 0
StartsDigit [] = ⊥
StartsDigit (c ∷ cs) = IsDigit c

StartsDigit-append : (cs ds : List ℕ) → StartsDigit cs → StartsDigit (cs ++ ds)
StartsDigit-append [] ds h = absurd h
StartsDigit-append (c ∷ cs) ds h = h

print_from-StartsDigit : (fuel n : ℕ) → n < fuel → StartsDigit (print_from fuel n)
unfolding print_from
print_from-StartsDigit zero n h = absurd (omega arith)
print_from-StartsDigit (suc fuel) n h = elim (Bool-cases (ltb n 10)) [
  | inl e ↦ rw e (ground (arith, e))
  | inr e ↦ rw e (
      StartsDigit-append (print_from fuel (n / 10)) _
        (print_from-StartsDigit fuel (n / 10) (ground (arith, e))))
]

trim_left_plain : (cs : List ℕ) → All IsDigit cs → trim_left cs ≡ cs
unfolding trim_left is_space
trim_left_plain [] h = refl
trim_left_plain (c ∷ cs) h = ground arith

All-reverse : (cs : List ℕ) → All IsDigit cs → All IsDigit (reverse cs)
All-reverse [] h = tt
All-reverse (c ∷ cs) h =
    subst (All IsDigit) (sym (reverse-cons c cs))
      (All-append IsDigit (reverse cs) (c ∷ []) (All-reverse cs h.1) (h.0, tt))

trim_space_plain : (cs : List ℕ) → All IsDigit cs → trim_space cs ≡ cs
unfolding trim_space
trim_space_plain cs h =
    ap (λ ds. reverse (trim_left (reverse ds))) (trim_left_plain cs h)
    ∙ ap reverse (trim_left_plain (reverse cs) (All-reverse cs h))
    ∙ reverse-reverse cs

no_minus : (cs : List ℕ) → All IsDigit cs → contains b'-' cs ≡ false
no_minus [] h = refl
no_minus (c ∷ cs) h = ground (arith, no_minus cs h.1)

split_plain : (cs : List ℕ) → All IsDigit cs → split b',' cs ≡ cs ∷ []
unfolding split
split_plain [] h = refl
split_plain (c ∷ cs) h = ground (arith, split_plain cs h.1)

split_at_comma :
    (cs rest : List ℕ) → All IsDigit cs → split b',' (cs ++ (b',' ∷ rest)) ≡ cs ∷ split b',' rest
unfolding split
split_at_comma [] rest h = refl
split_at_comma (c ∷ cs) rest h = ground (arith, split_at_comma cs rest h.1)

scan_plain :
    (cs : List ℕ) (n : ℕ)
    → StartsDigit cs
    → read_digits 0 cs ≡ (n, [])
    → n < int_limit
    → scan_int cs ≡ some n
unfolding scan_int
scan_plain [] n h r lt = absurd h
scan_plain (c ∷ cs) n h r lt = ground (arith, h, r, lt)

pub print-IsDigit : (n : ℕ) → All IsDigit (print n)
unfolding print
print-IsDigit n = print_from-IsDigit (suc n) n

nonempty : (cs : List ℕ) → StartsDigit cs → is_empty cs ≡ false
nonempty [] h = absurd h
nonempty (c ∷ cs) h = refl

parse_part-print : (n : ℕ) → n < int_limit → parse_part (print n) ≡ pos n ∷ []
unfolding parse_part print
parse_part-print n h =
    let digits = print_from-IsDigit (suc n) n in
    rw (trim_space_plain (print_from (suc n) n) digits, parse_part)
      (rw (no_minus (print_from (suc n) n) digits) (
        ap one_core (
          scan_plain (print_from (suc n) n) n (print_from-StartsDigit (suc n) n (omega arith))
            (read_digits-print n) h)))

-- A list of cores the way a user writes it.
unfoldable pub join : List ℕ → List ℕ
join [] = []
join (n ∷ []) = print n
join (n ∷ m ∷ ns) = print n ++ (b',' ∷ join (m ∷ ns))

pub parse_parts-join :
    (n : ℕ) (ns : List ℕ)
    → All (λ k. k < int_limit) (n ∷ ns)
    → parse_parts (split b',' (join (n ∷ ns))) ≡ map pos (n ∷ ns)
unfolding join parse_parts
parse_parts-join n [] h =
    ap parse_parts (split_plain (print n) (print-IsDigit n))
    ∙ ap (λ cs. cs ++ []) (parse_part-print n h.0)
parse_parts-join n (m ∷ ns) h =
    ap parse_parts (split_at_comma (print n) (join (m ∷ ns)) (print-IsDigit n))
    ∙ ap₂ ◌++◌ (parse_part-print n h.0) (parse_parts-join m ns h.1)

join-ne-nil : (n : ℕ) (ns : List ℕ) → is_empty (join (n ∷ ns)) ≡ false
unfolding join print
join-ne-nil n [] = nonempty (print_from (suc n) n) (print_from-StartsDigit (suc n) n (omega arith))
join-ne-nil n (m ∷ ns) =
    nonempty (print_from (suc n) n ++ _)
      (StartsDigit-append (print_from (suc n) n) _ (print_from-StartsDigit (suc n) n (omega arith)))

-- Reading back a comma-separated list of core numbers, a single number included, gives these
-- numbers in order, if each is in the range of `int`; the empty text gives the empty list.
pub parse_core_set-join :
    (ns : List ℕ) → All (λ n. n < int_limit) ns → parse_core_set (join ns) ≡ map pos ns
unfolding parse_core_set
parse_core_set-join [] h = unfold join in refl
parse_core_set-join (n ∷ ns) h = rw (join-ne-nil n ns) (parse_parts-join n ns h)

range_and_list :
    parse_core_set (code_points " 2-4, 7,+9 ,x, 1-2-3,5-4,12abc")
    ≡ pos 2 ∷ pos 3 ∷ pos 4 ∷ pos 7 ∷ pos 9 ∷ pos 12 ∷ []
unfolding parse_core_set
range_and_list = refl
