-- ===== src/Examples/Accounts.antt =====
-- A registration in the shop, with a password that is hashed by a mark in front of it.
use mathlib.Core.Option
use ai_token_mall.Prelude.{
  select, exists_where, arith, ℕ, suc, ◌≡◌, refl, subst, Bool, true, Option, none, some, List, [],
  ◌∷◌,
}
use ai_token_mall.Text.{codes, codes_eq, codes_eq_refl}
use ai_token_mall.Store.Action.{Tables, Db, ok, err, ◌>>=◌}
use ai_token_mall.Store.Ensures.{Ensures}
use ai_token_mall.Store.Yields.{Yields}
use ai_token_mall.Prelude.Int.{pos}
use ai_token_mall.Entity.{CouponCampaigns, DiscountType}
use ai_token_mall.Coupon.Grant.{grant_register_coupons}
use ai_token_mall.Coupon.Once.{HasAll, Grown, grant_once}
use ai_token_mall.Account.{Outside, RegisterUserReq, register, login}
use ai_token_mall.Account.Laws.{Added, register-Added}
use ai_token_mall.Account.Access.{LoggedIn, registered_can_log_in}
use ai_token_mall.Account.Lists.{members_of, descending, list_page}
use ai_token_mall.Account.Cover.{page_items, pages, pages_show_all}
use ai_token_mall.Examples.{shop, buyer}

abbrev mark : List ℕ → Option (List ℕ)
mark password = some (b'#' ∷ password)

abbrev unmark : List ℕ → List ℕ → Bool
unmark hash password = codes_eq hash (b'#' ∷ password)

mark_law : (p h : List ℕ) → mark p ≡ some h → unmark h p ≡ true
mark_law p h e =
    subst (λ x. unmark x p ≡ true) (Option.some-injective (b'#' ∷ p) h e) (codes_eq_refl (b'#' ∷ p))

abbrev outside : Outside
outside = record {
  column_eq = codes_eq;
  generate_from_password = mark;
  compare_hash_and_password = unmark;
  is_address = λ s. true;
  hmac = λ key message. b'0' ∷ [];
  draw = λ i. some i;
}

abbrev newcomer : RegisterUserReq
newcomer = record {
  email = codes " n@x.cn";
  phone = [];
  password = codes "secret";
  confirm_password = codes "secret";
  registration_host = [];
}

register-Added_example : Ensures (register outside newcomer 0) (Added outside newcomer 0 shop) shop
register-Added_example = register-Added outside newcomer 0 shop

registered_can_log_in_example :
    Ensures
      (register outside newcomer 0)
      (λ resp s.
        (later : ℕ)
        → Yields
            (login outside
              (record { email = codes " n@x.cn"; phone = []; password = codes "secret" })
              later)
            (LoggedIn outside newcomer 0 later resp.user.id)
            s)
      shop
registered_can_log_in_example = registered_can_log_in outside newcomer 0 codes_eq_refl mark_law shop

abbrev welcome : CouponCampaigns
welcome = record {
  id = 3;
  discount_type = DiscountType.percent;
  discount_value = pos 1000;
  min_order_amount = pos 0;
  valid_days = 30;
  auto_grant_on_register = true;
  enabled = true;
}

-- The shop without coupons, with one campaign for new users.
abbrev welcoming_shop : Tables
welcoming_shop = record shop { campaigns = welcome ∷ []; coupons = [] }

grant_once_example :
    Ensures
      (grant_register_coupons 2 1000)
      (λ _ s.
        HasAll 2 1000 (welcome ∷ []) s
        × Grown 2 1000 welcoming_shop s
        × Ensures (grant_register_coupons 2 5000) (λ m s'. (m ≡ 0) × (s' ≡ s)) s)
      welcoming_shop
unfolding select exists_where
grant_once_example =
    grant_once 2 1000 5000 welcoming_shop (omega arith) ((omega arith), tt) (λ id h. refl)

pages_show_all_example :
    Ensures
      (list_page (members_of 1) 20 (record { page = pos 1; page_size = pos 9 }))
      (λ p s. (p.items ≡ page_items 9 (buyer ∷ []) 0) × (p.total ≡ 1) × (s ≡ shop))
      shop
    × (pages 9 (buyer ∷ []) 0 1 ≡ buyer ∷ [])
unfolding select descending
pages_show_all_example =
    pages_show_all (members_of 1) 20 9 0 1 shop (omega arith) (omega arith) (omega arith)
      (omega arith)

abbrev shop_db : Db
shop_db = record { tables = shop; seq = 100; faults = [] }

-- The registration returns, with the id of the new row.
registers :
    elim (register outside newcomer 0 shop_db) [ ok resp db ↦ some resp.user.id | err e db ↦ none ]
    ≡ some 100
unfolding ai_token_mall.Account.all_digits ai_token_mall.Account.matches_cn_phone
    ai_token_mall.Account.user_error ai_token_mall.Account.invite_error
    ai_token_mall.Account.register_error ai_token_mall.Account.apply_registration_invite_profile
    ai_token_mall.Account.validate_login_identity ai_token_mall.Account.login_user_resp
    ai_token_mall.Account.finish_registration ai_token_mall.Account.create_account
    ai_token_mall.Account.register ai_token_mall.Account.log_in ai_token_mall.Account.login
    ai_token_mall.Account.get_profile ai_token_mall.Account.change_password
    ai_token_mall.Account.Invite.nth ai_token_mall.Account.Invite.pick
    ai_token_mall.Account.Invite.random_alpha_lower
    ai_token_mall.Account.Invite.random_pinyin_prefix
    ai_token_mall.Account.Invite.pick_random_vip_domain_base
    ai_token_mall.Account.Invite.is_vip_domain_taken ai_token_mall.Account.Invite.try_with_prefix
    ai_token_mall.Account.Invite.pinyin_tries ai_token_mall.Account.Invite.letter_tries
    ai_token_mall.Account.Invite.generate_assigned_vip_domain
    ai_token_mall.Account.Invite.default_vip_config_id
    ai_token_mall.Account.Invite.build_default_registration_invite_profile
    ai_token_mall.Account.Invite.resolve_registration_invite_profile
    ai_token_mall.Account.Host.before ai_token_mall.Account.Host.normalize_registration_host
    ai_token_mall.Account.Host.last_two ai_token_mall.Account.Host.root_domain_from_host
    ai_token_mall.Account.Host.build_vip_subdomain ai_token_mall.Store.Accounts.find_by_id
    ai_token_mall.Store.Accounts.update_last_login ai_token_mall.Store.Accounts.update_password
    ai_token_mall.Store.Accounts.list_non_official ai_token_mall.Store.Accounts.find_by_email
    ai_token_mall.Store.Accounts.find_by_phone ai_token_mall.Store.Accounts.find_by_vip_domain
    ai_token_mall.Store.Accounts.create_register ai_token_mall.Store.Accounts.find_by_domain
    ai_token_mall.Store.Action.pure ai_token_mall.Store.Action.raise ◌>>=◌
    ai_token_mall.Store.Action.consume ai_token_mall.Store.Action.statement
    ai_token_mall.Store.Action.query ai_token_mall.Store.Action.exec
    ai_token_mall.Store.Action.insert ai_token_mall.Store.Action.catch
    ai_token_mall.Store.Action.map_error ai_token_mall.Store.Action.transaction
    ai_token_mall.Text.is_space ai_token_mall.Text.trim_left ai_token_mall.Text.trim_right
    ai_token_mall.Text.trim_space ai_token_mall.Text.lower_code ai_token_mall.Text.upper_code
    ai_token_mall.Text.to_lower ai_token_mall.Text.to_upper ai_token_mall.Text.codes_eq
    ai_token_mall.Text.decimal_from ai_token_mall.Text.decimal ai_token_mall.Text.Number.digits_from
    ai_token_mall.Text.Number.parse_uint ai_token_mall.Text.Number.parse_int
    ai_token_mall.Text.Number.split ai_token_mall.Text.Number.join
    ai_token_mall.Text.Base64.sextet_char ai_token_mall.Text.Base64.char_sextet
    ai_token_mall.Text.Base64.encode ai_token_mall.Text.Base64.sextets
    ai_token_mall.Text.Base64.join_sextets ai_token_mall.Text.Base64.decode
    ai_token_mall.Text.Base64.hex_digit ai_token_mall.Text.Base64.hex
    ai_token_mall.Coupon.Grant.is_duplicate ai_token_mall.Coupon.Grant.skip_duplicate
    ai_token_mall.Coupon.Grant.create_counted ai_token_mall.Coupon.Grant.grant_each
    ai_token_mall.Coupon.Grant.grant_register_coupons
    ai_token_mall.Store.Campaigns.list_auto_grant_on_register
    ai_token_mall.Store.Campaigns.exists_by_user_and_campaign
    ai_token_mall.Store.Campaigns.create_coupon ai_token_mall.Auth.issue_user_token
    ai_token_mall.Auth.check_parts ai_token_mall.Auth.parse_user_token ai_token_mall.Auth.strip
    ai_token_mall.Auth.trim_prefix ai_token_mall.Auth.auth_token_from_request
    ai_token_mall.Auth.try_user_id_from_request ai_token_mall.Auth.require_auth
    ai_token_mall.Prelude.find_first ai_token_mall.Prelude.find_last ai_token_mall.Prelude.select
    ai_token_mall.Prelude.update_where ai_token_mall.Prelude.count_where
    ai_token_mall.Prelude.exists_where ai_token_mall.Prelude.take ai_token_mall.Prelude.drop
    ai_token_mall.Store.Ledger.create_flow ai_token_mall.Store.Ledger.record_of_order
    ai_token_mall.Store.Ledger.find_record_by_order_id ai_token_mall.Store.Ledger.create_record
    ai_token_mall.Store.Ledger.create_withdrawal ai_token_mall.Store.Ledger.create_notification
    ai_token_mall.Store.Ledger.create_invoice ai_token_mall.Store.Ledger.vip_config_of
    ai_token_mall.Store.Ledger.find_vip_config_by_id
    ai_token_mall.Store.Ledger.find_default_vip_config ai_token_mall.Store.Ledger.find_payout
registers = refl
