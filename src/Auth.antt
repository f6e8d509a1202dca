-- ===== src/Auth.antt =====
-- common/auth/token.go and common/dederi/gin/middleware/auth.go: the session token of a login.
-- A text is the list of its bytes.
pub mod RoundTrip
use mathlib.Core.Option
use ai_token_mall.Prelude.{
  ℕ, ◌+◌, ◌*◌, ◌/◌, Bool, true, false, not, ◌&&◌, Option, none, some, List, [], ◌∷◌, ◌++◌,
  if◌then◌else◌, ◌==◌,
}
use ai_token_mall.Prelude.Int.{ℤ, pos, ltb_ℤ}
use ai_token_mall.Text.{decimal, codes, codes_eq, trim_space}
use ai_token_mall.Text.Number.{split, parse_uint, parse_int}
use ai_token_mall.Text.Base64.{encode, decode, hex}

abbrev pub nanoseconds_per_second : ℕ
nanoseconds_per_second = 1_000_000_000

abbrev pub session_token_secret : List ℕ
session_token_secret = codes "ai-token-mall-session-signing-key"

-- 720 hours
abbrev pub session_token_ttl : ℕ
session_token_ttl = 720 * 3600 * nanoseconds_per_second

abbrev pub payload_of : List ℕ → List ℕ → List ℕ
payload_of uid exp = uid ++ b':' ∷ exp

-- `hmac secret message` is the HMAC-SHA256 of crypto/hmac.
module _ (hmac : List ℕ → List ℕ → List ℕ) where
  abbrev pub signature : List ℕ → List ℕ → List ℕ
  signature secret payload = hex (hmac secret payload)

  -- The clock reads `now`; `ttl` is not negative. None stands for the error on an empty secret.
  unfoldable pub issue_user_token : ℕ → ℕ → List ℕ → ℕ → Option (List ℕ)
  issue_user_token now user_id [] ttl = none
  issue_user_token now user_id (c ∷ secret) ttl =
      let payload = payload_of (decimal user_id) (decimal ((now + ttl) / nanoseconds_per_second)) in
      some (encode (payload ++ b':' ∷ signature (c ∷ secret) payload))

  -- The checks of the three parts, in the order of the code. None stands for ErrInvalidToken.
  unfoldable pub check_parts : ℕ → List ℕ → List (List ℕ) → Option ℕ
  check_parts now secret (uid ∷ exp ∷ sig ∷ []) = Option.bind (parse_uint uid) λ uid64.
      Option.bind (parse_int exp) λ until.
        if ltb_ℤ until (pos (now / nanoseconds_per_second))
        then none
        else if not (codes_eq (signature secret (payload_of uid exp)) sig)
        then none
        else some uid64
  check_parts now secret _ = none

  unfoldable pub parse_user_token : ℕ → List ℕ → List ℕ → Option ℕ
  unfolding check_parts
  parse_user_token now token secret =
      Option.bind (decode token) (λ dec. check_parts now secret (split b':' dec))

-- What follows a prefix.
unfoldable pub strip : List ℕ → List ℕ → Option (List ℕ)
strip [] s = some s
strip (c ∷ prefix) [] = none
strip (c ∷ prefix) (d ∷ s) = let rest = strip prefix s in if c == d then rest else none

-- `strings.TrimPrefix`
unfoldable pub trim_prefix : List ℕ → List ℕ → List ℕ
unfolding strip
trim_prefix prefix s = elim (strip prefix s) [ some rest ↦ rest | none ↦ s ]

-- The headers of a request: `Authorization`, empty where it is missing, and the cookie atm_token.
pub record Request : Type 0 where
  pub authorization : List ℕ
  pub cookie : Option (List ℕ)

-- What RequireAuth does: it stops with 401, or it goes on for a user.
pub data Access : Type 0 where
  unauthorized : Access
  user : ℕ → Access

unfoldable pub auth_token_from_request : Request → List ℕ
unfolding trim_prefix
auth_token_from_request c = elim (trim_space c.authorization) [
  | [] ↦ elim c.cookie [ some cookie ↦ trim_space cookie | none ↦ [] ]
  | d ∷ raw ↦ trim_space (trim_prefix (codes "Bearer ") (d ∷ raw))
]

module _ (hmac : List ℕ → List ℕ → List ℕ) (now : ℕ) where
  unfoldable pub try_user_id_from_request : Request → Option ℕ
  unfolding auth_token_from_request
  try_user_id_from_request c = elim (auth_token_from_request c) [
    | [] ↦ none
    | d ∷ token ↦ parse_user_token hmac now (d ∷ token) session_token_secret
  ]

  unfoldable pub require_auth : Request → Access
  unfolding auth_token_from_request
  require_auth c = elim (auth_token_from_request c) [
    | [] ↦ unauthorized
    | d ∷ token ↦ elim (parse_user_token hmac now (d ∷ token) session_token_secret) [
      | none ↦ unauthorized
      | some uid ↦ user uid
    ]
  ]
