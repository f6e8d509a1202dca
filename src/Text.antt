-- ===== src/Text.antt =====
-- `strings.TrimSpace`, `strings.ToLower` and `strings.ToUpper` of Go's standard library, as far as the
-- program's comparisons with ASCII words can see: outside ASCII only the letters whose other case
-- is an ASCII letter are mapped (U+0130 and U+212A to lower case, U+0131 and U+017F to upper case).
pub mod Number
pub mod Base64
use Prim.Native.Char.{code}
use ai_token_mall.Prelude.{
  ℕ, ◌+◌, ◌-◌, Bool, true, false, ◌&&◌, ◌||◌, List, [], ◌∷◌, ◌==◌, leb, ltb, String, if◌then◌else◌,
  ◌≡◌, refl, arith, zero, suc, ◌/◌, ◌%◌,
}

-- The code points of a text.
abbrev pub codes : String → List ℕ
codes String.[] = []
codes (String.◌∷◌ c s) = code c ∷ codes s

-- `unicode.IsSpace`
unfoldable pub is_space : ℕ → Bool
is_space c =
    (leb 9 c && leb c 13)
    || c == 32
    || c == 0x85
    || c == 0xa0
    || c == 0x1680
    || (leb 0x2000 c && leb c 0x200a)
    || c == 0x2028
    || c == 0x2029
    || c == 0x202f
    || c == 0x205f
    || c == 0x3000

unfoldable pub trim_left : List ℕ → List ℕ
trim_left [] = []
trim_left (c ∷ s) = if is_space c then trim_left s else c ∷ s

unfoldable pub trim_right : List ℕ → List ℕ
trim_right [] = []
trim_right (c ∷ s) = elim (trim_right s) [
  | [] ↦ if is_space c then [] else c ∷ []
  | d ∷ r ↦ c ∷ d ∷ r
]

unfoldable pub trim_space : List ℕ → List ℕ
unfolding trim_left trim_right is_space
trim_space s = trim_right (trim_left s)

unfoldable pub lower_code : ℕ → ℕ
lower_code c =
    if leb b'A' c && leb c b'Z'
    then c + 32
    else if c == 0x130
    then b'i'
    else if c == 0x212a
    then b'k'
    else c

unfoldable pub upper_code : ℕ → ℕ
upper_code c =
    if leb b'a' c && leb c b'z'
    then c - 32
    else if c == 0x131
    then b'I'
    else if c == 0x17f
    then b'S'
    else c

unfoldable pub to_lower : List ℕ → List ℕ
unfolding lower_code
to_lower [] = []
to_lower (c ∷ s) = lower_code c ∷ to_lower s

unfoldable pub to_upper : List ℕ → List ℕ
unfolding upper_code
to_upper [] = []
to_upper (c ∷ s) = upper_code c ∷ to_upper s

unfoldable pub codes_eq : List ℕ → List ℕ → Bool
codes_eq [] [] = true
codes_eq (c ∷ s) (d ∷ r) = c == d && codes_eq s r
codes_eq _ _ = false

pub codes_eq_refl : (s : List ℕ) → codes_eq s s ≡ true
unfolding codes_eq
codes_eq_refl [] = refl
codes_eq_refl (c ∷ s) = ground (arith, codes_eq_refl s)

pub eq_of_codes_eq : (s r : List ℕ) → codes_eq s r ≡ true → s ≡ r
unfolding codes_eq
eq_of_codes_eq [] [] h = refl
eq_of_codes_eq [] (d ∷ r) h = ground arith
eq_of_codes_eq (c ∷ s) [] h = ground arith
eq_of_codes_eq (c ∷ s) (d ∷ r) h = ground (arith, eq_of_codes_eq s r)

-- `%d` of a number of at most 20 digits, which a 64-bit integer has.
unfoldable pub decimal_from : ℕ → ℕ → List ℕ → List ℕ
decimal_from zero n tail = tail
decimal_from (suc fuel) n tail =
    let more = decimal_from fuel (n / 10) ((b'0' + n % 10) ∷ tail) in
    if ltb n 10 then (b'0' + n) ∷ tail else more

unfoldable pub decimal : ℕ → List ℕ
unfolding decimal_from
decimal n = decimal_from 20 n []
