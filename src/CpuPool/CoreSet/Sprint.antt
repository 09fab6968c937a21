-- ===== src/CpuPool/CoreSet/Sprint.antt =====
-- `fmt.Sprintf("%d", n)` as a text, which internal/webhook/pod_mutator.go writes the selected core
-- with, and which ParseCoreSet reads.
use Prim.Native.Char.{Char, code}
use Prim.Native.String.{String}
use mc_kube.Prelude.{
  ℕ, Bool, true, false, ◌+◌, ◌<◌, ◌≡◌, refl, ap, ap₂, ◌∙◌, List, [], ◌∷◌, ℤ, pos, negsuc, nat_eq,
  ◌==◌, All, arith, if◌then◌else◌,
}
use mc_kube.CpuPool.CoreSet.{code_points, int_limit, parse_core_set}
use mc_kube.CpuPool.CoreSet.Print.{IsDigit, print, print-IsDigit, join, parse_core_set-join}

-- The digit with this code.
unfoldable pub digit_char : ℕ → Char
digit_char c =
    if c == b'0'
    then "0"
    else if c == b'1'
    then "1"
    else if c == b'2'
    then "2"
    else if c == b'3'
    then "3"
    else if c == b'4'
    then "4"
    else if c == b'5'
    then "5"
    else if c == b'6'
    then "6"
    else if c == b'7'
    then "7"
    else if c == b'8'
    then "8"
    else "9"

unfoldable pub text_of : List ℕ → String
unfolding digit_char
text_of [] = String.[]
text_of (c ∷ cs) = String.◌∷◌ (digit_char c) (text_of cs)

unfoldable pub sprint : ℤ → String
unfolding print text_of
sprint (pos n) = text_of (print n)
sprint (negsuc n) = String.◌∷◌ "-" (text_of (print (n + 1)))

code-if : (b : Bool) (x y : Char) → code (if b then x else y) ≡ (if b then code x else code y)
code-if true x y = refl
code-if false x y = refl

digit_code : ℕ → ℕ
digit_code c =
    if c == 48
    then 48
    else if c == 49
    then 49
    else if c == 50
    then 50
    else if c == 51
    then 51
    else if c == 52
    then 52
    else if c == 53
    then 53
    else if c == 54
    then 54
    else if c == 55
    then 55
    else if c == 56
    then 56
    else 57

digit_char-digit_code : (c : ℕ) → code (digit_char c) ≡ digit_code c
unfolding digit_char digit_code
digit_char-digit_code c = simp code-if

digit_code_lem : (c : ℕ) → IsDigit c → digit_code c ≡ c
unfolding digit_code
digit_code_lem c h = ground (arith, h)

code-digit_char : (c : ℕ) → IsDigit c → code (digit_char c) ≡ c
code-digit_char c h = digit_char-digit_code c ∙ digit_code_lem c h

code_points-text_of : (cs : List ℕ) → All IsDigit cs → code_points (text_of cs) ≡ cs
unfolding text_of
code_points-text_of [] h = refl
code_points-text_of (c ∷ cs) h = ap₂ ◌∷◌ (code-digit_char c h.0) (code_points-text_of cs h.1)

-- What is written for a number in the range of `int` that is not negative is read back as this one
-- core.
pub parse_core_set-sprint :
    (n : ℕ) → n < int_limit → parse_core_set (code_points (sprint (pos n))) ≡ pos n ∷ []
unfolding sprint join
parse_core_set-sprint n h =
    ap parse_core_set (code_points-text_of (print n) (print-IsDigit n))
    ∙ parse_core_set-join (n ∷ []) (h, tt)
