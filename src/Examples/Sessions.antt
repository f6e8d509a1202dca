-- ===== src/Examples/Sessions.antt =====
-- Session tokens, with a checksum in the place of the HMAC.
use mathlib.Core.Option
use ai_token_mall.Prelude.{ℕ, ◌%◌, ◌*◌, ◌≡◌, ◌+◌, refl, arith, none, some, List, [], ◌∷◌, ◌++◌}
use ai_token_mall.Prelude.Int.{ℤ, pos, ◌≤ℤ◌}
use ai_token_mall.Text.{codes}
use ai_token_mall.Text.Number.{parse_uint, parse_int}
use ai_token_mall.Text.Base64.{decode}
use ai_token_mall.Auth.{
  signature, payload_of, issue_user_token, parse_user_token, try_user_id_from_request, Access,
  require_auth, Request, unauthorized,
}
use ai_token_mall.Auth.RoundTrip.{parse-issue, accepted_is_signed}

sum : List ℕ → ℕ
sum [] = 0
sum (c ∷ s) = c + sum s

checksum : List ℕ → List ℕ → List ℕ
unfolding sum
checksum key payload = (sum (key ++ payload) % 256) ∷ []

abbrev secret : List ℕ
secret = codes "k"

abbrev issued : ℕ
issued = 1_000_000_000_000

-- An hour is 3600 seconds: the token lives until second 4600.
abbrev session : List ℕ
session = codes "NDI6NDYwMDpkNQ"

issues_session : issue_user_token checksum issued 42 secret 3_600_000_000_000 ≡ some session
unfolding issue_user_token checksum sum ai_token_mall.Text.decimal ai_token_mall.Text.decimal_from
    ai_token_mall.Text.Base64.encode ai_token_mall.Text.Base64.sextet_char
    ai_token_mall.Text.Base64.hex ai_token_mall.Text.Base64.hex_digit
issues_session = refl

accepts_session : parse_user_token checksum (4600 * 1_000_000_000) session secret ≡ some 42
unfolding parse_user_token checksum sum ai_token_mall.Auth.check_parts ai_token_mall.Text.codes_eq
    ai_token_mall.Text.Base64.decode ai_token_mall.Text.Base64.sextets
    ai_token_mall.Text.Base64.char_sextet ai_token_mall.Text.Base64.join_sextets
    ai_token_mall.Text.Base64.hex ai_token_mall.Text.Base64.hex_digit
    ai_token_mall.Text.Number.split ai_token_mall.Text.Number.parse_uint
    ai_token_mall.Text.Number.parse_int ai_token_mall.Text.Number.digits_from Option.bind
accepts_session = refl

expires_session : parse_user_token checksum (4601 * 1_000_000_000) session secret ≡ none
unfolding parse_user_token checksum sum ai_token_mall.Auth.check_parts ai_token_mall.Text.codes_eq
    ai_token_mall.Text.Base64.decode ai_token_mall.Text.Base64.sextets
    ai_token_mall.Text.Base64.char_sextet ai_token_mall.Text.Base64.join_sextets
    ai_token_mall.Text.Base64.hex ai_token_mall.Text.Base64.hex_digit
    ai_token_mall.Text.Number.split ai_token_mall.Text.Number.parse_uint
    ai_token_mall.Text.Number.parse_int ai_token_mall.Text.Number.digits_from Option.bind
expires_session = refl

abbrev visitor : Request
visitor = record { authorization = codes "Bearer abc!"; cookie = some session }

turns_away : require_auth checksum issued visitor ≡ unauthorized
unfolding require_auth parse_user_token ai_token_mall.Auth.auth_token_from_request
    ai_token_mall.Auth.trim_prefix ai_token_mall.Auth.strip ai_token_mall.Text.trim_space
    ai_token_mall.Text.trim_left ai_token_mall.Text.trim_right ai_token_mall.Text.is_space
    ai_token_mall.Auth.check_parts ai_token_mall.Text.codes_eq ai_token_mall.Text.Base64.decode
    ai_token_mall.Text.Base64.sextets ai_token_mall.Text.Base64.char_sextet
    ai_token_mall.Text.Base64.join_sextets ai_token_mall.Text.Base64.hex
    ai_token_mall.Text.Base64.hex_digit ai_token_mall.Text.Number.split
    ai_token_mall.Text.Number.parse_uint ai_token_mall.Text.Number.parse_int
    ai_token_mall.Text.Number.digits_from Option.bind
turns_away = refl

parse-issue_example :
    (token : List ℕ) × (issue_user_token checksum issued 42 secret 3_600_000_000_000 ≡ some token)
    × (parse_user_token checksum (4600 * 1_000_000_000) token secret ≡ some 42)
parse-issue_example =
    parse-issue checksum issued (4600 * 1_000_000_000) 3_600_000_000_000 42 secret
      (λ e. ground arith) (omega arith) (omega arith)

accepted_is_signed_example :
    (uid exp : List ℕ) × (until : ℤ) × (decode session
      ≡ some (payload_of uid exp ++ b':' ∷ signature checksum secret (payload_of uid exp)))
    × (parse_uint uid ≡ some 42)
    × (parse_int exp ≡ some until)
    × (pos 4600 ≤ℤ until)
accepted_is_signed_example =
    accepted_is_signed checksum (4600 * 1_000_000_000) 42 session secret accepts_session
