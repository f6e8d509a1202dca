-- ===== src/Text/Number.antt =====
-- `strconv.ParseUint` and `strconv.ParseInt` at base 10 and 64 bits, `strings.Split` by one byte, and
-- `%d`, which they read back.
use mathlib.Core.Option
use ai_token_mall.Prelude.{
  ℕ, ◌+◌, ◌-◌, ◌*◌, ◌/◌, ◌%◌, ◌^◌, ◌<◌, true, false, ◌&&◌, List, [], ◌∷◌, ◌++◌, ◌==◌, leb, ltb,
  if◌then◌else◌, ◌≡◌, refl, arith, zero, suc, Option, none, some, All, Bool-cases, ltb→lt, ◌≤◌, inl,
  inr, ◌∙◌, ap,
}
use ai_token_mall.Prelude.Int.{ℤ, pos, neg_ℤ}
use ai_token_mall.Text.{decimal, decimal_from}

-- The digits are read from the left; a value that does not fit is an error at its last digit.
unfoldable pub digits_from : ℕ → List ℕ → Option ℕ
digits_from n [] = some n
digits_from n (c ∷ s) =
    let rest = digits_from (n * 10 + (c - b'0')) s in
    if leb b'0' c && leb c b'9' && ltb (n * 10 + (c - b'0')) (2 ^ 64) then rest else none

unfoldable pub parse_uint : List ℕ → Option ℕ
unfolding digits_from
parse_uint [] = none
parse_uint (c ∷ s) = digits_from 0 (c ∷ s)

-- The magnitude that a sign allows.
abbrev pub positive : ℕ → Option ℤ
positive n = if ltb n (2 ^ 63) then some (pos n) else none

abbrev pub negative : ℕ → Option ℤ
negative n = if leb n (2 ^ 63) then some (neg_ℤ (pos n)) else none

unfoldable pub parse_int : List ℕ → Option ℤ
unfolding parse_uint
parse_int [] = none
parse_int (c ∷ s) =
    if c == b'+'
    then Option.bind (parse_uint s) positive
    else if c == b'-'
    then Option.bind (parse_uint s) negative
    else Option.bind (parse_uint (c ∷ s)) positive

abbrev pub push_first : ℕ → List (List ℕ) → List (List ℕ)
push_first c [] = (c ∷ []) ∷ []
push_first c (part ∷ parts) = (c ∷ part) ∷ parts

unfoldable pub split : ℕ → List ℕ → List (List ℕ)
split sep [] = [] ∷ []
split sep (c ∷ s) = let rest = split sep s in if c == sep then [] ∷ rest else push_first c rest

-- `strings.Join`
unfoldable pub join : ℕ → List (List ℕ) → List ℕ
join sep [] = []
join sep (part ∷ []) = part
join sep (part ∷ next ∷ parts) = part ++ sep ∷ join sep (next ∷ parts)

join-push_first :
    (sep c : ℕ) (parts : List (List ℕ)) → join sep (push_first c parts) ≡ c ∷ join sep parts
unfolding join
join-push_first sep c [] = refl
join-push_first sep c (part ∷ []) = refl
join-push_first sep c (part ∷ next ∷ parts) = refl

split_cons : (sep : ℕ) (s : List ℕ) → (p : List ℕ) × (ps : List (List ℕ)) × (split sep s ≡ p ∷ ps)
unfolding split
split_cons sep [] = ([], [], refl)
split_cons sep (c ∷ s) = elim (Bool-cases (c == sep)) [
  | inl same ↦ ([], split sep s, rw same refl)
  | inr other ↦ let (p, ps, e) = split_cons sep s in (c ∷ p, ps, rw (other, e) refl)
]

join_empty_first :
    (sep : ℕ) (s : List ℕ) → join sep ([] ∷ split sep s) ≡ sep ∷ join sep (split sep s)
join_empty_first sep s = let (p, ps, e) = split_cons sep s in rw e (unfold join in refl)

pub join-split : (sep : ℕ) (s : List ℕ) → join sep (split sep s) ≡ s
unfolding split
join-split sep [] = unfold join in refl
join-split sep (c ∷ s) = elim (Bool-cases (c == sep)) [
  | inl same ↦
      let e : sep ≡ c = ground arith in
      rw same (join_empty_first sep s ∙ ap (λ r. sep ∷ r) (join-split sep s) ∙ ap (λ d. d ∷ s) e)
  | inr other ↦ rw other (join-push_first sep c (split sep s) ∙ ap (λ r. c ∷ r) (join-split sep s))
]

-- A byte that is not the separator.
abbrev pub Apart : ℕ → ℕ → Type 0
Apart sep c = ((c == sep) ≡ false) × (c < 256)

pub split-append :
    (sep : ℕ) (xs rest : List ℕ)
    → All (Apart sep) xs
    → split sep (xs ++ (sep ∷ rest)) ≡ xs ∷ split sep rest
unfolding split
split-append sep [] rest h = ground arith
split-append sep (x ∷ xs) rest h = ground (arith, h.0.0, split-append sep xs rest h.1)

pub split-Apart : (sep : ℕ) (xs : List ℕ) → All (Apart sep) xs → split sep xs ≡ xs ∷ []
unfolding split
split-Apart sep [] h = refl
split-Apart sep (x ∷ xs) h = ground (arith, h.0.0, split-Apart sep xs h.1)

-- The last digit of a number.
digit :
    (n : ℕ) (tail : List ℕ)
    → n < 2 ^ 64
    → digits_from (n / 10) ((b'0' + n % 10) ∷ tail) ≡ digits_from n tail
unfolding digits_from
digit n tail w =
    let value : n / 10 * 10 + (b'0' + n % 10 - b'0') ≡ n = omega arith in
    let fits : (leb b'0' (b'0' + n % 10) && leb (b'0' + n % 10) b'9' && ltb n (2 ^ 64)) ≡ true =
      ground arith in
    rw (value, fits) refl

-- What is printed in front of `tail` is read before it.
digits_from-decimal_from :
    (fuel n : ℕ) (tail : List ℕ)
    → n < 10 ^ fuel
    → n < 2 ^ 64
    → digits_from 0 (decimal_from fuel n tail) ≡ digits_from n tail
unfolding decimal_from
digits_from-decimal_from zero n tail h w = unfold digits_from in ground arith
digits_from-decimal_from (suc fuel) n tail h w = elim (Bool-cases (ltb n 10)) [
  | inl small ↦ unfold digits_from in ground arith
  | inr large ↦
      rw large
        (digits_from-decimal_from fuel (n / 10) _ (omega arith) (omega arith) ∙ digit n tail w)
]

abbrev IsDigit : ℕ → Type 0
IsDigit c = (b'0' ≤ c) × (c ≤ b'9')

-- A text that begins with a digit.
abbrev Starts : List ℕ → Type 0
Starts s = (c : ℕ) × (r : List ℕ) × IsDigit c × (s ≡ c ∷ r)

decimal_from-All :
    (P : ℕ → Type 0) (fuel n : ℕ) (tail : List ℕ)
    → ((c : ℕ) → IsDigit c → P c)
    → All P tail
    → All P (decimal_from fuel n tail)
unfolding decimal_from
decimal_from-All P zero n tail d h = h
decimal_from-All P (suc fuel) n tail d h = elim (Bool-cases (ltb n 10)) [
  | inl small ↦ rw small (d (b'0' + n) (omega arith, ground (arith, ltb→lt n 10 small)), h)
  | inr large ↦
      rw large
        (decimal_from-All P fuel (n / 10) _ d (d (b'0' + n % 10) (omega arith, omega arith), h))
]

decimal_from-Starts :
    (fuel n d : ℕ) (tail : List ℕ) → IsDigit d → Starts (decimal_from fuel n (d ∷ tail))
unfolding decimal_from
decimal_from-Starts zero n d tail h = (d, tail, h, refl)
decimal_from-Starts (suc fuel) n d tail h = elim (Bool-cases (ltb n 10)) [
  | inl small ↦
      rw small (b'0' + n, d ∷ tail, (omega arith, ground (arith, ltb→lt n 10 small)), refl)
  | inr large ↦ rw large (decimal_from-Starts fuel (n / 10) _ (d ∷ tail) (omega arith, omega arith))
]

decimal-Starts : (n : ℕ) → Starts (decimal n)
unfolding decimal decimal_from
decimal-Starts n = elim (Bool-cases (ltb n 10)) [
  | inl small ↦ rw small (b'0' + n, [], (omega arith, ground (arith, ltb→lt n 10 small)), refl)
  | inr large ↦ rw large (decimal_from-Starts 19 (n / 10) _ [] (omega arith, omega arith))
]

pub decimal-Apart : (n : ℕ) → All (Apart b':') (decimal n)
unfolding decimal
decimal-Apart n =
    decimal_from-All (Apart b':') 20 n [] (λ c d. (ground (arith, d.0, d.1), omega (arith, d.1))) tt

-- Numbers of 64 bits are read back from their decimal digits.
parse_uint-Starts : (s : List ℕ) → Starts s → parse_uint s ≡ digits_from 0 s
parse_uint-Starts s (c, r, d, e) = rw e (unfold parse_uint in refl)

parse_int-Starts : (s : List ℕ) → Starts s → parse_int s ≡ Option.bind (parse_uint s) positive
parse_int-Starts s (c, r, d, e) =
    let plus : (c == b'+') ≡ false = ground (arith, d.0) in
    let minus : (c == b'-') ≡ false = ground (arith, d.0) in
    rw e (unfold parse_int in rw (plus, minus) refl)

pub parse_uint-decimal : (n : ℕ) → n < 2 ^ 64 → parse_uint (decimal n) ≡ some n
parse_uint-decimal n w =
    parse_uint-Starts (decimal n) (decimal-Starts n)
    ∙ (unfold decimal digits_from in digits_from-decimal_from 20 n [] (omega arith) w)

pub parse_int-decimal : (n : ℕ) → n < 2 ^ 63 → parse_int (decimal n) ≡ some (pos n)
parse_int-decimal n w =
    let fits : positive n ≡ some (pos n) = ground arith in
    parse_int-Starts (decimal n) (decimal-Starts n)
    ∙ rw (parse_uint-decimal n (omega arith)) (unfold Option.bind in fits)

pub decimal-Apart_dash : (n : ℕ) → All (Apart b'-') (decimal n)
unfolding decimal
decimal-Apart_dash n =
    decimal_from-All (Apart b'-') 20 n [] (λ c d. (ground (arith, d.0, d.1), omega (arith, d.1))) tt
