-- ===== src/Account/Host.antt =====
-- application/core-service/user/registration_invite.go: the host of a registration.
use ai_token_mall.Prelude.{ℕ, List, [], ◌∷◌, ◌++◌, ◌==◌, if◌then◌else◌}
use ai_token_mall.Text.{codes, to_lower, trim_space}
use ai_token_mall.Text.Number.{split}
use ai_token_mall.Auth.{trim_prefix}

-- What stands before the first `c`, as `strings.Index` and the slice give it.
unfoldable pub before : ℕ → List ℕ → List ℕ
before c [] = []
before c (d ∷ s) = let rest = before c s in if d == c then [] else d ∷ rest

unfoldable pub normalize_registration_host : List ℕ → List ℕ
unfolding before
normalize_registration_host host = before b':' (trim_space (to_lower host))

-- The last two of three parts or more, or `host`.
unfoldable pub last_two : List ℕ → List (List ℕ) → List ℕ
last_two host [] = host
last_two host (a ∷ []) = host
last_two host (a ∷ b ∷ []) = host
last_two host (a ∷ b ∷ c ∷ []) = b ++ b'.' ∷ c
last_two host (a ∷ b ∷ c ∷ d ∷ parts) = last_two host (b ∷ c ∷ d ∷ parts)

unfoldable pub root_domain_from_host : List ℕ → List ℕ
unfolding last_two normalize_registration_host
root_domain_from_host host =
    let normalized = normalize_registration_host host in
    elim normalized [ [] ↦ [] | c ∷ s ↦ last_two (c ∷ s) (split b'.' (c ∷ s)) ]

unfoldable pub build_vip_subdomain : List ℕ → List ℕ → List ℕ
build_vip_subdomain prefix base_domain =
    to_lower (trim_space prefix)
    ++ b'.' ∷ trim_prefix (codes ".") (to_lower (trim_space base_domain))
