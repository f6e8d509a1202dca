-- ===== src/Account/Reads.antt =====
-- registration_invite.go and coupon/service.go: the tables that a registration does not touch.
use ai_token_mall.Prelude.{
  ℕ, zero, suc, ◌+◌, ◌||◌, ◌==◌, Bool, Option, none, some, List, [], ◌∷◌, length,
}
use ai_token_mall.Entity.{VipDomainConfig, CouponCampaigns, UserCoupons}
use ai_token_mall.Store.Action.{Tables, Error, Action, pure}
use ai_token_mall.Store.Leaves.{
  Leaves, Leaves-pure, Leaves-raise, Leaves-query, Leaves-require, Leaves-if, Leaves-bind,
  Leaves-catch, Leaves-insert,
}
use ai_token_mall.Store.Ledger.{find_default_vip_config, find_vip_config_by_id}
use ai_token_mall.Store.Accounts.{find_by_vip_domain, find_by_domain, list_non_official}
use ai_token_mall.Store.Campaigns.{
  list_auto_grant_on_register, exists_by_user_and_campaign, add_coupon, create_coupon,
}
use ai_token_mall.Coupon.Grant.{
  is_duplicate, skip_duplicate, create_counted, grant_each, grant_register_coupons,
}
use ai_token_mall.Account.Host.{normalize_registration_host, root_domain_from_host}
use ai_token_mall.Account.Invite.{
  is_vip_domain_taken, try_with_prefix, pinyin_tries, letter_tries, or_letters,
  generate_assigned_vip_domain, default_vip_config_id, build_default_registration_invite_profile,
  profile_of_domain, resolve_registration_invite_profile,
}

module _ (I : Tables → Type 0) where
  abbrev pub Steady : {A : Type 0} → Action A → Type 0
  Steady m = (t : Tables) → I t → Leaves m I t

  module _ (column_eq : List ℕ → List ℕ → Bool) (draw : ℕ → Option ℕ) where
    try-Steady :
        (pool : List VipDomainConfig) (i : ℕ) (prefix : List ℕ)
        → Steady (try_with_prefix column_eq draw pool i prefix)
    unfolding try_with_prefix is_vip_domain_taken find_by_vip_domain
    try-Steady pool i prefix t h = Leaves-bind (Leaves-require _ _ h) λ base s1 h1.
        Leaves-bind (Leaves-bind (Leaves-query _ h1) (λ _ s2 h2. Leaves-pure _ h2))
          λ taken s2 h2. Leaves-pure _ h2

    tried-Steady :
        (o : Option (List ℕ)) (m : Action (Option (List ℕ)))
        → Steady m
        → Steady (elim o [ some c ↦ pure (some c) | none ↦ m ])
    tried-Steady (some c) m r t h = Leaves-pure _ h
    tried-Steady none m r t h = r t h

    pinyin_tries-Steady :
        (pool : List VipDomainConfig) (n i : ℕ) → Steady (pinyin_tries column_eq draw pool n i)
    unfolding pinyin_tries
    pinyin_tries-Steady pool zero i t h = Leaves-pure _ h
    pinyin_tries-Steady pool (suc n) i t h = Leaves-bind (Leaves-require _ _ h) λ prefix s1 h1.
        Leaves-bind (try-Steady pool (i + 1) prefix s1 h1)
          λ o s2 h2. tried-Steady o _ (λ s r. pinyin_tries-Steady pool n (i + 2) s r) s2 h2

    letter_tries-Steady :
        (pool : List VipDomainConfig) (n i : ℕ) → Steady (letter_tries column_eq draw pool n i)
    unfolding letter_tries
    letter_tries-Steady pool zero i t h = Leaves-pure _ h
    letter_tries-Steady pool (suc n) i t h = Leaves-bind (Leaves-require _ _ h) λ prefix s1 h1.
        Leaves-bind (try-Steady pool (i + 6) prefix s1 h1)
          λ o s2 h2. tried-Steady o _ (λ s r. letter_tries-Steady pool n (i + 7) s r) s2 h2

    or_letters-Steady :
        (pool : List VipDomainConfig) (o : Option (List ℕ))
        → Steady (or_letters column_eq draw pool o)
    or_letters-Steady pool (some c) t h = Leaves-pure _ h
    or_letters-Steady pool none t h =
        Leaves-bind (letter_tries-Steady pool 10 20 t h) λ o s1 h1. Leaves-require _ _ h1

    generate-Steady : Steady (generate_assigned_vip_domain column_eq draw)
    unfolding generate_assigned_vip_domain list_non_official
    generate-Steady t h = Leaves-bind (Leaves-query _ h) λ pool s1 h1.
        Leaves-if (length pool == 0) (λ _. Leaves-raise _ h1)
          (λ _.
            Leaves-bind (pinyin_tries-Steady pool 10 0 s1 h1)
              λ o s2 h2. or_letters-Steady pool o s2 h2)

    build-Steady :
        (parent : ℕ) → Steady (build_default_registration_invite_profile column_eq draw parent)
    unfolding build_default_registration_invite_profile default_vip_config_id
        find_default_vip_config find_vip_config_by_id
    build-Steady parent t h =
        Leaves-bind
          (Leaves-bind (Leaves-bind (Leaves-query _ h) (λ _ s1 h1. Leaves-query _ h1))
            (λ _ s2 h2. Leaves-pure _ h2))
          λ _ s3 h3. Leaves-bind (generate-Steady s3 h3) λ _ s4 h4. Leaves-pure _ h4

    profile-Steady :
        (host : List ℕ) (o : Option VipDomainConfig)
        → Steady (profile_of_domain column_eq draw host o)
    unfolding find_by_vip_domain
    profile-Steady host none t h = Leaves-pure _ h
    profile-Steady host (some cfg) t h =
        Leaves-if cfg.is_official (λ _. build-Steady 0 t h)
          (λ _. Leaves-bind (Leaves-query _ h) λ parent s1 h1. build-Steady _ s1 h1)

    -- The search for an inviter and a domain only reads.
    pub resolve-Steady :
        (host : List ℕ) → Steady (resolve_registration_invite_profile column_eq draw host)
    unfolding resolve_registration_invite_profile find_by_domain
    resolve-Steady host t h =
        Leaves-if
          (length (normalize_registration_host host) == 0
            || length (root_domain_from_host (normalize_registration_host host)) == 0)
          (λ _. Leaves-pure _ h)
          (λ _. Leaves-bind (Leaves-query _ h) λ cfg s1 h1. profile-Steady _ cfg s1 h1)

  -- A new coupon that keeps `I`.
  module _ (keeps : (row : UserCoupons) (t : Tables) → I t → I (add_coupon row t)) where
    skip-Steady : (e : Error) → Steady (skip_duplicate e)
    unfolding skip_duplicate
    skip-Steady e t h = Leaves-if (is_duplicate e) (λ _. Leaves-pure 0 h) (λ _. Leaves-raise e h)

    pub grant_each-Steady :
        (user_id now : ℕ) (campaigns : List CouponCampaigns) (granted : ℕ)
        → Steady (grant_each user_id now campaigns granted)
    unfolding grant_each exists_by_user_and_campaign create_counted create_coupon
    grant_each-Steady user_id now [] granted t h = Leaves-pure _ h
    grant_each-Steady user_id now (camp ∷ campaigns) granted t h =
        Leaves-bind (Leaves-query _ h) λ dup s1 h1.
          Leaves-bind
            (Leaves-if dup (λ _. Leaves-pure _ h1)
              (λ _.
                Leaves-catch
                  (Leaves-bind (Leaves-insert _ _ h1 (λ n. keeps _ s1 h1))
                    (λ _ s2 h2. Leaves-pure _ h2))
                  (λ e s2 h2. skip-Steady e s2 h2)))
            λ one s3 h3. grant_each-Steady user_id now campaigns _ s3 h3

    pub grant-Steady : (user_id now : ℕ) → Steady (grant_register_coupons user_id now)
    unfolding grant_register_coupons list_auto_grant_on_register
    grant-Steady user_id now t h =
        Leaves-if (user_id == 0) (λ _. Leaves-pure _ h)
          (λ _.
            Leaves-bind (Leaves-query _ h)
              λ campaigns s1 h1. grant_each-Steady user_id now campaigns 0 s1 h1)
