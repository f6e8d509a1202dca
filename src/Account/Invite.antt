-- ===== src/Account/Invite.antt =====
-- application/core-service/user/registration_invite.go and registration_vip_domain_prefix.go: who
-- invited the new user, by the host of the registration, and the domain that the user gets. The
-- database has every table and column, so the branches for a missing schema are not taken.
-- `draw i` is the i-th random number of a registration, or none where the system has no randomness.
use mathlib.Core.Option
use ai_token_mall.Prelude.{
  ℕ, zero, suc, ◌+◌, ◌%◌, Bool, true, false, Option, none, some, List, [], ◌∷◌, ◌==◌, ◌||◌, length,
  map, if◌then◌else◌,
}
use ai_token_mall.Entity.{Users, VipConfig, VipDomainConfig}
use ai_token_mall.Text.{codes}
use ai_token_mall.Store.Action.{Error, Action, pure, raise, ◌>>=◌, require}
use ai_token_mall.Store.Accounts.{find_by_vip_domain, find_by_domain, list_non_official}
use ai_token_mall.Store.Ledger.{find_default_vip_config}
use ai_token_mall.Account.Host.{
  normalize_registration_host, root_domain_from_host, build_vip_subdomain,
}

pub record RegistrationInviteProfile : Type 0 where
  pub parent_user_id : ℕ
  pub vip_config_id : ℕ
  pub vip_domain : List ℕ
  pub apply : Bool

abbrev pub no_profile : RegistrationInviteProfile
no_profile = record { parent_user_id = 0; vip_config_id = 0; vip_domain = []; apply = false }

abbrev pub registration_pinyin_words : List (List ℕ)
registration_pinyin_words = map codes (
    "fu" ∷ "lu" ∷ "shou" ∷ "xi" ∷ "cai" ∷ "he" ∷ "ping" ∷ "an" ∷ "le" ∷ "meng" ∷ "xing" ∷ "yun"
    ∷ "ji" ∷ "xiang" ∷ "mei" ∷ "hao" ∷ "long" ∷ "feng" ∷ "shui" ∷ "shan" ∷ "hai" ∷ "tian" ∷ "ri"
    ∷ "yue" ∷ "jin" ∷ "yin" ∷ "yu" ∷ "long" ∷ "hu" ∷ "ma" ∷ "yang" ∷ "tu" ∷ "nian" ∷ "sui" ∷ "chun"
    ∷ "xia" ∷ "qiu" ∷ "dong" ∷ "hong" ∷ "zi" ∷ "lan" ∷ "qing" ∷ "ming" ∷ "liang" ∷ "wen" ∷ "ru"
    ∷ "jia" ∷ "ren" ∷ "yi" ∷ "xin" ∷ "de" ∷ "shan" ∷ "en" ∷ "hui" ∷ "cheng" ∷ "xin" ∷ "yong"
    ∷ "meng" ∷ "xiang" ∷ "wang" ∷ "da" ∷ "xiao" ∷ "gao" ∷ "yuan" ∷ "shen" ∷ "guang" ∷ "ming" ∷ "li"
    ∷ "hua" ∷ "kai" ∷ [])

unfoldable pub nth : {A : Type 0} → List A → ℕ → Option A
nth [] i = none
nth (x ∷ xs) zero = some x
nth (x ∷ xs) (suc i) = nth xs i

-- `rand.Int(rand.Reader, n)` as an index of a list of length n.
unfoldable pub pick : {A : Type 0} → Option ℕ → List A → Option A
unfolding nth
pick none xs = none
pick (some n) [] = none
pick (some n) (x ∷ xs) = nth (x ∷ xs) (n % length (x ∷ xs))

module _ (draw : ℕ → Option ℕ) where
  unfoldable pub random_alpha_lower : ℕ → ℕ → Option (List ℕ)
  random_alpha_lower zero i = some []
  random_alpha_lower (suc n) i =
      let rest = random_alpha_lower n (i + 1) in
      Option.bind (draw i) λ d. Option.map (λ s. (b'a' + d % 26) ∷ s) rest

  unfoldable pub random_pinyin_prefix : ℕ → Option (List ℕ)
  unfolding pick
  random_pinyin_prefix i = pick (draw i) registration_pinyin_words

  unfoldable pub pick_random_vip_domain_base : ℕ → List VipDomainConfig → Option VipDomainConfig
  unfolding pick
  pick_random_vip_domain_base i pool = pick (draw i) pool

module _ (column_eq : List ℕ → List ℕ → Bool) (draw : ℕ → Option ℕ) where
  unfoldable pub is_vip_domain_taken : List ℕ → Action Bool
  is_vip_domain_taken vip_domain = do
    existing ← find_by_vip_domain column_eq vip_domain
    pure (elim existing [ some u ↦ true | none ↦ false ])

  -- The candidate, if it is free.
  unfoldable pub try_with_prefix : List VipDomainConfig → ℕ → List ℕ → Action (Option (List ℕ))
  unfolding is_vip_domain_taken
  try_with_prefix pool i prefix = do
    base ← require (pick_random_vip_domain_base draw i pool) Error.random
    let candidate = build_vip_subdomain prefix base.domain
    taken ← is_vip_domain_taken candidate
    pure (if taken then none else some candidate)

  -- The first loop of tries, from the random number `i` on.
  unfoldable pub pinyin_tries : List VipDomainConfig → ℕ → ℕ → Action (Option (List ℕ))
  unfolding try_with_prefix
  pinyin_tries pool zero i = pure none
  pinyin_tries pool (suc tries) i =
      let next = pinyin_tries pool tries (i + 2) in
      do
        prefix ← require (random_pinyin_prefix draw i) Error.random
        found ← try_with_prefix pool (i + 1) prefix
        elim found [ some candidate ↦ pure (some candidate) | none ↦ next ]

  unfoldable pub letter_tries : List VipDomainConfig → ℕ → ℕ → Action (Option (List ℕ))
  unfolding try_with_prefix
  letter_tries pool zero i = pure none
  letter_tries pool (suc tries) i =
      let next = letter_tries pool tries (i + 7) in
      do
        prefix ← require (random_alpha_lower draw 6 i) Error.random
        found ← try_with_prefix pool (i + 6) prefix
        elim found [ some candidate ↦ pure (some candidate) | none ↦ next ]

  abbrev pub or_letters : List VipDomainConfig → Option (List ℕ) → Action (List ℕ)
  or_letters pool (some candidate) = pure candidate
  or_letters pool none = do found ← letter_tries pool 10 20; require found Error.vip_domain_busy

  unfoldable pub generate_assigned_vip_domain : Action (List ℕ)
  unfolding pinyin_tries letter_tries
  generate_assigned_vip_domain = do
    pool ← list_non_official
    if length pool == 0
        then raise Error.no_vip_domain_pool
        else do found ← pinyin_tries pool 10 0; or_letters pool found

  abbrev pub vip_id_or_one : Option VipConfig → ℕ
  vip_id_or_one (some row) = row.id
  vip_id_or_one none = 1

  unfoldable pub default_vip_config_id : Action ℕ
  default_vip_config_id = do row ← find_default_vip_config; pure (vip_id_or_one row)

  unfoldable pub build_default_registration_invite_profile : ℕ → Action RegistrationInviteProfile
  unfolding default_vip_config_id generate_assigned_vip_domain
  build_default_registration_invite_profile parent_user_id = do
    vip_id ← default_vip_config_id
    assigned ← generate_assigned_vip_domain
    pure record {
      parent_user_id = parent_user_id;
      vip_config_id = vip_id;
      vip_domain = assigned;
      apply = true;
    }

  abbrev pub id_or_zero : Option Users → ℕ
  id_or_zero (some parent) = parent.id
  id_or_zero none = 0

  -- An official domain has no inviter; a host under any other names the inviter that it was given to.
  abbrev pub profile_of_domain : List ℕ → Option VipDomainConfig → Action RegistrationInviteProfile
  profile_of_domain host none = pure no_profile
  profile_of_domain host (some cfg) =
      if cfg.is_official then build_default_registration_invite_profile 0 else do
        parent ← find_by_vip_domain column_eq host
        build_default_registration_invite_profile (id_or_zero parent)

  unfoldable pub resolve_registration_invite_profile : List ℕ → Action RegistrationInviteProfile
  unfolding build_default_registration_invite_profile
  resolve_registration_invite_profile registration_host =
      let host = normalize_registration_host registration_host in
      let root = root_domain_from_host host in
      if length host == 0 || length root == 0
      then pure no_profile
      else do cfg ← find_by_domain column_eq root; profile_of_domain host cfg
