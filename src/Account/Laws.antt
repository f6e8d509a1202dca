-- ===== src/Account/Laws.antt =====
-- user_service.go: the account that a registration makes, and that it can be logged into.
use ai_token_mall.Prelude.{
  ℕ, ◌≡◌, refl, ap, subst, ◌∙◌, false, not, Bool-cases, inl, inr, Option, none, some, List, [], ◌∷◌,
  ◌++◌, exists_where, exists_where_none, arith,
}
use ai_token_mall.Entity.{Users, UserStatus}
use ai_token_mall.Text.{trim_space, codes_eq}
use ai_token_mall.Store.Action.{Tables, Error, query}
use ai_token_mall.Store.Ensures.{
  Ensures, Ensures-pure, Ensures-raise, Ensures-query, Ensures-bind, Ensures-if, Ensures-require,
  Ensures-raise_if, Ensures-map_error, Ensures-insert, Ensures-weaken, Ensures-then,
}
use ai_token_mall.Store.Leaves.{Leaves-pure, Leaves-catch, Ensures-Leaves}
use ai_token_mall.Store.Accounts.{
  user_by_email, user_by_phone, same_identity, same_user_key, registered_row, find_by_email,
  find_by_phone, create_register,
}
use ai_token_mall.Account.Invite.{RegistrationInviteProfile}
use ai_token_mall.Account.Reads.{resolve-Steady, grant-Steady}
use ai_token_mall.Account.{
  Outside, RegisterUserReq, LoginUserResp, text_if_any, is_empty, is_found, raise_any,
  validate_login_identity, login_user_resp, finish_registration, new_user, refuse_taken,
  create_account, register, apply_registration_invite_profile,
}

module _ (out : Outside) (req : RegisterUserReq) (now : ℕ) where
  -- An active account for the identity and the password of the request.
  pub record IsAccountFor (u : Users) : Type 0 where
    pub valid : validate_login_identity out (trim_space req.email) (trim_space req.phone) ≡ none
    pub email : u.email ≡ text_if_any (trim_space req.email)
    pub phone : u.phone ≡ text_if_any (trim_space req.phone)
    pub hashed : out.generate_from_password req.password ≡ some u.password_hash
    pub status : u.status ≡ UserStatus.active

  -- The one account that was added, and that the answer is for.
  pub record Added (t : Tables) (resp : LoginUserResp) (s : Tables) : Type 0 where
    pub account : Users
    pub made : IsAccountFor account
    pub unshared : exists_where (same_identity out.column_eq account) t.users ≡ false
    pub users : s.users ≡ t.users ++ account ∷ []
    pub answer : resp.user.id ≡ account.id

  Ensures-raise_any :
      {Q : Unit {0} → Tables → Type 0} {t : Tables} (o : Option Error)
      → (o ≡ none → Q tt t)
      → Ensures (raise_any o) Q t
  Ensures-raise_any none k = Ensures-pure tt (k refl)
  Ensures-raise_any (some e) k = Ensures-raise e

  refuse-same :
      (key : List ℕ) (find : Tables → Option Users) (t : Tables)
      → Ensures (refuse_taken key (query find)) (λ _ s. s ≡ t) t
  refuse-same key find t =
      Ensures-if (is_empty key) (λ _. Ensures-pure tt refl)
        (λ _. Ensures-bind (
          Ensures-map_error _
            (Ensures-query _ (Ensures-raise_if (is_found (find t)) _ (λ _. refl)))))

  registered-IsAccountFor :
      (hash : List ℕ) (profile : RegistrationInviteProfile) (n : ℕ)
      → validate_login_identity out (trim_space req.email) (trim_space req.phone) ≡ none
      → out.generate_from_password req.password ≡ some hash
      → IsAccountFor
          (record (registered_row profile.apply
            (new_user (trim_space req.email) (trim_space req.phone) req.password hash profile)) {
              id = n;
            })
  unfolding apply_registration_invite_profile
  registered-IsAccountFor hash profile n valid hashed = elim (Bool-cases profile.apply) [
    | inl with_invite ↦
        rw with_invite
          record { valid = valid; email = refl; phone = refl; hashed = hashed; status = refl }
    | inr without ↦
        rw without
          record { valid = valid; email = refl; phone = refl; hashed = hashed; status = refl }
  ]

  -- The answer, and the coupons of the new user, leave the users alone.
  finish-users :
      (u : Users) (t : Tables)
      → Ensures
          (finish_registration out u now)
          (λ resp s. (s.users ≡ t.users) × (resp.user.id ≡ u.id))
          t
  unfolding finish_registration login_user_resp
  finish-users u t = Ensures-bind (
      Ensures-bind (
        Ensures-require _ _ λ token issued. Ensures-pure _ (
          Ensures-bind (
            Ensures-weaken
              (Ensures-Leaves (
                Leaves-catch (grant-Steady (λ s. s.users ≡ t.users) (λ row s h. h) u.id now t refl)
                  (λ e s h. Leaves-pure 0 h)))
              λ n s same. Ensures-pure _ (same, refl)))))

  row-unshared :
      (row : Users) (us : List Users)
      → exists_where (same_user_key out.column_eq row) us ≡ false
      → exists_where (same_identity out.column_eq row) us ≡ false
  row-unshared row us h =
      exists_where_none (same_user_key out.column_eq row) (same_identity out.column_eq row) us
        (λ v shared. ground arith) h

  create-Added :
      (t : Tables) (hash : List ℕ)
      → validate_login_identity out (trim_space req.email) (trim_space req.phone) ≡ none
      → out.generate_from_password req.password ≡ some hash
      → Ensures
          (create_account out req (trim_space req.email) (trim_space req.phone) hash now)
          (Added t)
          t
  unfolding create_account create_register
  create-Added t hash valid hashed = Ensures-bind (
      Ensures-map_error _ (
        Ensures-weaken
          (Ensures-Leaves (resolve-Steady (λ s. s ≡ t) out.column_eq out.draw _ t refl))
          λ profile s e. Ensures-bind (
            Ensures-map_error _ (
              Ensures-insert _ _ λ n fresh.
                let u =
                  new_user (trim_space req.email) (trim_space req.phone) req.password hash
                    profile in
                let account = record (registered_row profile.apply u) { id = n } in
                Ensures-weaken (finish-users (record u { id = n }) _) λ resp s' k. record {
                  account = account;
                  made = registered-IsAccountFor hash profile n valid hashed;
                  unshared =
                      subst
                        (λ r. exists_where (same_identity out.column_eq account) r.users ≡ false) e
                        (row-unshared account s.users fresh);
                  users = k.0 ∙ ap (λ r. r.users ++ account ∷ []) e;
                  answer = k.1;
                }))))

  -- A registration that returns has added one account, for the identity and the password of the
  -- request, which no other account shares, and has answered for it.
  pub register-Added : (t : Tables) → Ensures (register out req now) (Added t) t
  unfolding register find_by_email find_by_phone
  register-Added t =
      let email = trim_space req.email in
      let phone = trim_space req.phone in
      Ensures-bind (
        Ensures-raise_if (not (codes_eq req.password req.confirm_password)) _ λ same_password.
          Ensures-bind (
            Ensures-raise_any _ λ valid.
              Ensures-then (refuse-same email (user_by_email out.column_eq email) t) λ _.
                Ensures-then (refuse-same phone (user_by_phone out.column_eq phone) t) λ _.
                  Ensures-bind (
                    Ensures-require _ Error.unknown
                      λ hash hashed. create-Added t hash valid hashed)))
