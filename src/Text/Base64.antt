-- ===== src/Text/Base64.antt =====
-- `base64.RawURLEncoding` and `hex.EncodeToString` of Go's standard library, on lists of bytes, and
-- that decoding gives the encoded bytes back.
use ai_token_mall.Prelude.{
  ℕ, ◌+◌, ◌-◌, ◌*◌, ◌/◌, ◌%◌, ◌<◌, false, ◌&&◌, ◌||◌, List, [], ◌∷◌, ◌==◌, leb, ltb, if◌then◌else◌,
  ◌≡◌, refl, arith, Option, none, some, All,
}
use mathlib.Core.Option

-- The alphabet: A-Z, a-z, 0-9, `-` and `_`.
unfoldable pub sextet_char : ℕ → ℕ
sextet_char s =
    if ltb s 26
    then s + b'A'
    else if ltb s 52
    then s + 71
    else if ltb s 62
    then s - 4
    else if s == 62
    then b'-'
    else b'_'

unfoldable pub char_sextet : ℕ → Option ℕ
char_sextet c =
    if leb b'A' c && leb c b'Z'
    then some (c - b'A')
    else if leb b'a' c && leb c b'z'
    then some (c - 71)
    else if leb b'0' c && leb c b'9'
    then some (c + 4)
    else if c == b'-'
    then some 62
    else if c == b'_'
    then some 63
    else none

unfoldable pub encode : List ℕ → List ℕ
unfolding sextet_char
encode [] = []
encode (a ∷ []) = sextet_char (a / 4) ∷ sextet_char (a % 4 * 16) ∷ []
encode (a ∷ b ∷ []) =
    sextet_char (a / 4) ∷ sextet_char (a % 4 * 16 + b / 16) ∷ sextet_char (b % 16 * 4) ∷ []
encode (a ∷ b ∷ c ∷ rest) =
    sextet_char (a / 4)
    ∷ sextet_char (a % 4 * 16 + b / 16)
    ∷ sextet_char (b % 16 * 4 + c / 64)
    ∷ sextet_char (c % 64)
    ∷ encode rest

-- The values of the characters; `DecodeString` skips carriage returns and newlines.
unfoldable pub sextets : List ℕ → Option (List ℕ)
unfolding char_sextet
sextets [] = some []
sextets (c ∷ s) =
    let rest = sextets s in
    if c == b'\n' || c == b'\r'
    then rest
    else Option.bind (char_sextet c) (λ v. Option.map (λ vs. v ∷ vs) rest)

-- One sextet cannot stand alone; the low bits of a last, short group are dropped.
unfoldable pub join_sextets : List ℕ → Option (List ℕ)
join_sextets [] = some []
join_sextets (a ∷ []) = none
join_sextets (a ∷ b ∷ []) = some ((a * 4 + b / 16) ∷ [])
join_sextets (a ∷ b ∷ c ∷ []) = some ((a * 4 + b / 16) ∷ (b % 16 * 16 + c / 4) ∷ [])
join_sextets (a ∷ b ∷ c ∷ d ∷ rest) =
    Option.map (λ bytes. (a * 4 + b / 16) ∷ (b % 16 * 16 + c / 4) ∷ (c % 4 * 64 + d) ∷ bytes)
      (join_sextets rest)

unfoldable pub decode : List ℕ → Option (List ℕ)
unfolding sextets join_sextets
decode s = Option.bind (sextets s) join_sextets

unfoldable pub hex_digit : ℕ → ℕ
hex_digit d = if ltb d 10 then d + b'0' else d - 10 + b'a'

-- An element is taken as the byte that it is modulo 256.
unfoldable pub hex : List ℕ → List ℕ
unfolding hex_digit
hex [] = []
hex (b ∷ s) = hex_digit (b / 16 % 16) ∷ hex_digit (b % 16) ∷ hex s

char_sextet-sextet_char : (s : ℕ) → s < 64 → char_sextet (sextet_char s) ≡ some s
unfolding char_sextet sextet_char
char_sextet-sextet_char s h = ground arith

not_newline : (s : ℕ) → s < 64 → (sextet_char s == b'\n' || sextet_char s == b'\r') ≡ false
unfolding sextet_char
not_newline s h = ground arith

sextets_cons :
    (s : ℕ) (cs vs : List ℕ)
    → s < 64
    → sextets cs ≡ some vs
    → sextets (sextet_char s ∷ cs) ≡ some (s ∷ vs)
unfolding sextets Option.bind
sextets_cons s cs vs h e = rw (not_newline s h, char_sextet-sextet_char s h, e) refl

-- The sextets that a list of bytes is cut into.
cut : List ℕ → List ℕ
cut [] = []
cut (a ∷ []) = (a / 4) ∷ (a % 4 * 16) ∷ []
cut (a ∷ b ∷ []) = (a / 4) ∷ (a % 4 * 16 + b / 16) ∷ (b % 16 * 4) ∷ []
cut (a ∷ b ∷ c ∷ rest) =
    (a / 4) ∷ (a % 4 * 16 + b / 16) ∷ (b % 16 * 4 + c / 64) ∷ (c % 64) ∷ cut rest

sextets-encode : (bs : List ℕ) → All (λ b. b < 256) bs → sextets (encode bs) ≡ some (cut bs)
unfolding encode cut
sextets-encode [] h = unfold sextets in refl
sextets-encode (a ∷ []) h =
    sextets_cons _ _ _ (omega (arith, h.0))
      (sextets_cons _ _ _ (omega arith) (unfold sextets in refl))
sextets-encode (a ∷ b ∷ []) h = sextets_cons _ _ _ (omega (arith, h.0)) (
    sextets_cons _ _ _ (omega (arith, h.1.0))
      (sextets_cons _ _ _ (omega arith) (unfold sextets in refl)))
sextets-encode (a ∷ b ∷ c ∷ rest) h = sextets_cons _ _ _ (omega (arith, h.0)) (
    sextets_cons _ _ _ (omega (arith, h.1.0)) (
      sextets_cons _ _ _ (omega (arith, h.1.1.0))
        (sextets_cons _ _ _ (omega arith) (sextets-encode rest h.1.1.1))))

first_byte : (a b : ℕ) → b < 256 → a / 4 * 4 + (a % 4 * 16 + b / 16) / 16 ≡ a
first_byte a b h = omega arith

second_byte :
    (a b c : ℕ)
    → b < 256
    → c < 256
    → (a % 4 * 16 + b / 16) % 16 * 16 + (b % 16 * 4 + c / 64) / 4 ≡ b
second_byte a b c h k = omega arith

last_byte : (a b : ℕ) → b < 256 → (a % 4 * 16 + b / 16) % 16 * 16 + b % 16 * 4 / 4 ≡ b
last_byte a b h = omega arith

third_byte : (b c : ℕ) → c < 256 → (b % 16 * 4 + c / 64) % 4 * 64 + c % 64 ≡ c
third_byte b c h = omega arith

join_sextets-cut : (bs : List ℕ) → All (λ b. b < 256) bs → join_sextets (cut bs) ≡ some bs
unfolding join_sextets cut
join_sextets-cut [] h = refl
join_sextets-cut (a ∷ []) h = ground (arith, h.0)
join_sextets-cut (a ∷ b ∷ []) h = rw (first_byte a b h.1.0, last_byte a b h.1.0) refl
join_sextets-cut (a ∷ b ∷ c ∷ rest) h =
    rw
      (
        first_byte a b h.1.0,
        second_byte a b c h.1.0 h.1.1.0,
        third_byte b c h.1.1.0,
        join_sextets-cut rest h.1.1.1,
      )
      refl

-- Every list of bytes is read back from its text.
pub decode-encode : (bs : List ℕ) → All (λ b. b < 256) bs → decode (encode bs) ≡ some bs
unfolding decode Option.bind
decode-encode bs h = rw (sextets-encode bs h) (join_sextets-cut bs h)
