-- ===== src/Account.antt =====
-- application/core-service/user/user_service.go: registration, login and passwords. A time is in
-- nanoseconds; texts are lists of code points.
pub mod Host
pub mod Invite
pub mod Reads
pub mod Laws
pub mod Access
pub mod Lists
pub mod Cover
use ai_token_mall.Prelude.{
  ℕ, ◌+◌, Bool, true, false, not, ◌&&◌, ◌||◌, Option, none, some, List, [], ◌∷◌, ◌==◌, leb, length,
  if◌then◌else◌,
}
use ai_token_mall.Prelude.Int.{ℤ, pos}
use ai_token_mall.Entity.{Users, UserStatus, is_active_user}
use ai_token_mall.Text.{codes, codes_eq, trim_space}
use ai_token_mall.Auth.{issue_user_token, session_token_secret, session_token_ttl}
use ai_token_mall.Store.Action.{
  Error, Action, pure, raise, ◌>>=◌, ◌>>◌, raise_if, require, map_error, catch,
}
use ai_token_mall.Store.Accounts.{
  find_by_id, find_by_email, find_by_phone, create_register, update_last_login, update_password,
}
use ai_token_mall.Coupon.Grant.{grant_register_coupons}
use ai_token_mall.Account.Invite.{RegistrationInviteProfile, resolve_registration_invite_profile}

-- What the service calls outside of the repository: the collation of MySQL, bcrypt, whose hashing can
-- fail, `mail.ParseAddress` as a test, HMAC-SHA256, and the random numbers of one registration.
pub record Outside : Type 0 where
  pub column_eq : List ℕ → List ℕ → Bool
  pub generate_from_password : List ℕ → Option (List ℕ)
  pub compare_hash_and_password : List ℕ → List ℕ → Bool
  pub is_address : List ℕ → Bool
  pub hmac : List ℕ → List ℕ → List ℕ
  pub draw : ℕ → Option ℕ

pub record RegisterUserReq : Type 0 where
  pub email : List ℕ
  pub phone : List ℕ
  pub password : List ℕ
  pub confirm_password : List ℕ
  pub registration_host : List ℕ

pub record LoginUserReq : Type 0 where
  pub email : List ℕ
  pub phone : List ℕ
  pub password : List ℕ

pub record ChangePasswordReq : Type 0 where
  pub old_password : List ℕ
  pub new_password : List ℕ
  pub confirm_password : List ℕ

-- Both times are left out.
pub record UserProfileResp : Type 0 where
  pub id : ℕ
  pub email : List ℕ
  pub phone : List ℕ
  pub nickname : List ℕ
  pub status : UserStatus
  pub wallet_balance : ℤ
  pub commission_balance : ℤ

pub record LoginUserResp : Type 0 where
  pub token : List ℕ
  pub user : UserProfileResp
  pub register_coupons_granted : ℕ

abbrev pub text_or_empty : Option (List ℕ) → List ℕ
text_or_empty (some s) = s
text_or_empty none = []

abbrev pub text_if_any : List ℕ → Option (List ℕ)
text_if_any [] = none
text_if_any (c ∷ s) = some (c ∷ s)

abbrev pub to_user_profile : Users → UserProfileResp
to_user_profile u = record {
  id = u.id;
  email = text_or_empty u.email;
  phone = text_or_empty u.phone;
  nickname = text_or_empty u.nickname;
  status = u.status;
  wallet_balance = u.wallet_balance;
  commission_balance = u.commission_balance;
}

abbrev pub is_empty : List ℕ → Bool
is_empty s = length s == 0

unfoldable pub all_digits : List ℕ → Bool
all_digits [] = true
all_digits (c ∷ s) = leb b'0' c && leb c b'9' && all_digits s

-- The pattern `^1\d{10}$`.
unfoldable pub matches_cn_phone : List ℕ → Bool
unfolding all_digits
matches_cn_phone [] = false
matches_cn_phone (c ∷ s) = c == b'1' && length s == 10 && all_digits s

-- The errors of gorm, as the service rewords them.
unfoldable pub user_error : Error → Error
user_error Error.record_not_found = Error.user_not_found
user_error e = Error.db_error

abbrev pub to_db_error : Error → Error
to_db_error e = Error.db_error

-- `isRegistrationInviteConfigErr`
unfoldable pub invite_error : Error → Error
invite_error Error.no_vip_domain_pool = Error.params_error
invite_error Error.vip_domain_busy = Error.params_error
invite_error e = Error.db_error

unfoldable pub register_error : Error → Error
register_error Error.duplicate_entry = Error.user_exists
register_error e = Error.db_error

-- `if err != nil { return nil, err }`
abbrev pub raise_any : Option Error → Action (Unit {0})
raise_any none = pure tt
raise_any (some e) = raise e

abbrev pub is_found : Option Users → Bool
is_found (some u) = true
is_found none = false

unfoldable pub apply_registration_invite_profile : Users → RegistrationInviteProfile → Users
apply_registration_invite_profile u p =
    if p.apply
    then record u {
      parent_user_id = p.parent_user_id;
      vip_config_id = p.vip_config_id;
      vip_domain = text_if_any p.vip_domain;
    }
    else u

-- The row before its id is known.
abbrev pub new_user : List ℕ → List ℕ → List ℕ → List ℕ → RegistrationInviteProfile → Users
new_user email phone password hash profile =
    apply_registration_invite_profile
      (record {
        id = 0;
        email = text_if_any email;
        phone = text_if_any phone;
        password_hash = hash;
        password_plain = password;
        nickname = none;
        vip_domain = none;
        status = UserStatus.active;
        last_login_at = none;
        parent_user_id = 0;
        vip_config_id = 1;
        wallet_balance = pos 0;
        commission_balance = pos 0;
      })
      profile

abbrev pub refuse_taken : List ℕ → Action (Option Users) → Action (Unit {0})
refuse_taken key find =
    if is_empty key
    then pure tt
    else do ex ← map_error to_db_error find; raise_if (is_found ex) Error.user_exists

module _ (out : Outside) where
  -- The error that it returns, if any.
  unfoldable pub validate_login_identity : List ℕ → List ℕ → Option Error
  validate_login_identity email phone =
      if is_empty email && is_empty phone
      then some Error.params_error
      else if not (is_empty email) && not (is_empty phone)
      then some Error.params_error
      else if not (is_empty email)
      then (if out.is_address email then none else some Error.invalid_credential)
      else if matches_cn_phone phone
      then none
      else some Error.invalid_credential

  unfoldable pub login_user_resp : Users → ℕ → Action LoginUserResp
  login_user_resp u now = do
    token ←
        require (issue_user_token out.hmac now u.id session_token_secret session_token_ttl)
          Error.unknown
    pure record { token = token; user = to_user_profile u; register_coupons_granted = 0 }

  -- An error of the grant is only logged.
  unfoldable pub finish_registration : Users → ℕ → Action LoginUserResp
  unfolding login_user_resp
  finish_registration u now = do
    resp ← login_user_resp u now
    n ← catch (grant_register_coupons u.id now) (λ e. pure 0)
    pure (record resp { register_coupons_granted = n })

  -- The rest of `Register`, once the password is hashed.
  unfoldable pub create_account :
      RegisterUserReq → List ℕ → List ℕ → List ℕ → ℕ → Action LoginUserResp
  unfolding finish_registration
  create_account req email phone hash now = do
    profile ←
        map_error invite_error
          (resolve_registration_invite_profile out.column_eq out.draw req.registration_host)
    let u = new_user email phone req.password hash profile
    id ← map_error register_error (create_register out.column_eq u profile.apply)
    finish_registration (record u { id = id }) now

  unfoldable pub register : RegisterUserReq → ℕ → Action LoginUserResp
  unfolding validate_login_identity create_account
  register req now = do
    raise_if (not (codes_eq req.password req.confirm_password)) Error.password_mismatch
    let email = trim_space req.email
    let phone = trim_space req.phone
    raise_any (validate_login_identity email phone)
    refuse_taken email (find_by_email out.column_eq email)
    refuse_taken phone (find_by_phone out.column_eq phone)
    hash ← require (out.generate_from_password req.password) Error.unknown
    create_account req email phone hash now

  -- The error of the last statement is dropped.
  unfoldable pub log_in : Option Users → List ℕ → ℕ → Action LoginUserResp
  unfolding login_user_resp
  log_in found password now = do
    u ← require found Error.user_not_found
    raise_if (not (is_active_user u.status)) Error.user_disabled
    raise_if (not (out.compare_hash_and_password u.password_hash password)) Error.wrong_password
    catch (update_last_login u.id now) (λ e. pure tt)
    login_user_resp u now

  unfoldable pub login : LoginUserReq → ℕ → Action LoginUserResp
  unfolding validate_login_identity log_in
  login req now = do
    let email = trim_space req.email
    let phone = trim_space req.phone
    raise_any (validate_login_identity email phone)
    found ← map_error to_db_error (
        if not (is_empty email)
        then find_by_email out.column_eq email
        else find_by_phone out.column_eq phone)
    log_in found req.password now

  unfoldable pub get_profile : ℕ → Action UserProfileResp
  get_profile user_id = do u ← map_error user_error (find_by_id user_id); pure (to_user_profile u)

  unfoldable pub change_password : ℕ → ChangePasswordReq → Action (Unit {0})
  change_password user_id req = do
    raise_if (not (codes_eq req.new_password req.confirm_password)) Error.password_mismatch
    u ← map_error user_error (find_by_id user_id)
    raise_if (not (out.compare_hash_and_password u.password_hash req.old_password))
        Error.wrong_password
    raise_if (codes_eq req.old_password req.new_password) Error.params_error
    hash ← require (out.generate_from_password req.new_password) Error.unknown
    map_error to_db_error (update_password user_id hash req.new_password)
