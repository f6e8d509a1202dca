-- ===== src/Account/Access.antt =====
-- user_service.go: a registered user can log in.
use ai_token_mall.Prelude.{
  ℕ, ◌≡◌, refl, sym, ap, subst, ◌∙◌, arith, Bool, true, false, not, ◌||◌, Bool-cases, inl, inr,
  Option, none, some, List, [], ◌∷◌, ◌++◌, if◌then◌else◌, find_first, exists_where,
  exists_where_none,
}
use ai_token_mall.Entity.{Users}
use ai_token_mall.Text.{trim_space}
use ai_token_mall.Auth.{issue_user_token, session_token_secret, session_token_ttl}
use ai_token_mall.Store.Action.{Tables, Error}
use ai_token_mall.Store.Ensures.{Ensures, Ensures-weaken}
use ai_token_mall.Store.Accounts.{
  holds, same_identity, find_by_email, find_by_phone, update_last_login,
}
use ai_token_mall.Store.Yields.{
  Yields, Yields-pure, Yields-query, Yields-require, Yields-raise_if, Yields-exec, Yields-bind,
  Yields-map_error, Yields-catch, Yields-weaken,
}
use ai_token_mall.Account.Laws.{IsAccountFor, register-Added}
use ai_token_mall.Account.{
  Outside, RegisterUserReq, LoginUserResp, text_if_any, is_empty, validate_login_identity,
  login_user_resp, register, log_in, login,
}

module _ (out : Outside) (req : RegisterUserReq) (now : ℕ) where
  -- The answer of a login is for the user, with a session token that was issued at that time.
  abbrev pub LoggedIn : ℕ → ℕ → LoginUserResp → Tables → Type 0
  LoggedIn later user_id r t =
      (r.user.id ≡ user_id)
      × (issue_user_token out.hmac later user_id session_token_secret session_token_ttl
          ≡ some r.token)

  -- A user whose key no row shares is found behind the rows.
  found_last :
      (key : Users → Option (List ℕ)) (a : Users) (us : List Users) (k : List ℕ)
      → (exists_where (λ v. holds out.column_eq (key v) k) us ≡ false)
      → holds out.column_eq (key a) k ≡ true
      → find_first (λ v. holds out.column_eq (key v) k) (us ++ a ∷ []) ≡ some a
  unfolding find_first exists_where
  found_last key a [] k h e = rw e refl
  found_last key a (v ∷ us) k h e = ground (arith, found_last key a us k)

  text_if_any-some : (k : List ℕ) → is_empty k ≡ false → text_if_any k ≡ some k
  text_if_any-some [] h = ground arith
  text_if_any-some (c ∷ k) h = refl

  either : (a b : Bool) → b ≡ true → (a || b) ≡ true
  either a b h = ground arith

  -- The identity has a phone where it has no email.
  has_phone :
      (email phone : List ℕ)
      → validate_login_identity out email phone ≡ none
      → is_empty email ≡ true
      → is_empty phone ≡ false
  unfolding validate_login_identity
  has_phone email phone valid h = ground arith

  module _ (refl_column : (s : List ℕ) → out.column_eq s s ≡ true)
      (bcrypt : (p h : List ℕ)
        → out.generate_from_password p ≡ some h
        → out.compare_hash_and_password h p ≡ true) where
    log_in-account :
        (u : Users) (s : Tables) (later : ℕ)
        → IsAccountFor out req now u
        → Yields (log_in out (some u) req.password later) (LoggedIn later u.id) s
    unfolding log_in update_last_login login_user_resp issue_user_token
    log_in-account u s later a =
        let matches = bcrypt req.password u.password_hash a.hashed in
        Yields-bind (
          Yields-pure u (
            Yields-bind (
              Yields-raise_if _ _ (rw a.status refl) (
                Yields-bind (
                  Yields-raise_if _ _ (rw matches refl) (
                    Yields-bind (
                      Yields-catch _ (
                        Yields-exec _ (
                          Yields-bind (
                            Yields-require _ Error.unknown _ refl
                              (Yields-pure _ (refl, refl))))))))))))

    -- The query by the identity of the request finds the account.
    found-account :
        (t s : Tables) (u : Users)
        → IsAccountFor out req now u
        → exists_where (same_identity out.column_eq u) t.users ≡ false
        → s.users ≡ t.users ++ u ∷ []
        → Yields
            (if not (is_empty (trim_space req.email))
              then find_by_email out.column_eq (trim_space req.email)
              else find_by_phone out.column_eq (trim_space req.phone))
            (λ found s'. (found ≡ some u) × (s' ≡ s))
            s
    unfolding find_by_email find_by_phone
    found-account t s u a free e =
        let email = trim_space req.email in
        let phone = trim_space req.phone in
        elim (Bool-cases (is_empty email)) [
          | inr by_email ↦ rw by_email (
              Yields-query _ (
                ap (λ us. find_first (λ v. holds out.column_eq v.email email) us) e
                    ∙ found_last (λ v. v.email) u t.users email
                        (exists_where_none (same_identity out.column_eq u) _ t.users
                          (λ v shared.
                            rw (a.email ∙ text_if_any-some email by_email) (rw shared refl))
                          free)
                        (rw (a.email ∙ text_if_any-some email by_email) (refl_column email)),
                refl,
              ))
          | inl by_phone ↦ rw by_phone (
              Yields-query _ (
                let some_phone =
                      a.phone ∙ text_if_any-some phone (has_phone email phone a.valid by_phone) in
                    ap (λ us. find_first (λ v. holds out.column_eq v.phone phone) us) e
                    ∙ found_last (λ v. v.phone) u t.users phone
                        (exists_where_none (same_identity out.column_eq u) _ t.users
                          (λ v shared. rw some_phone (either _ _ shared)) free)
                        (rw some_phone (refl_column phone)),
                refl,
              ))
        ]

    -- Where the collation finds a text equal to itself and bcrypt accepts the password that it
    -- hashed: once a registration has returned, a login with its identity and its password, at any
    -- time at which no statement fails, returns, and gives a session token of the new user.
    pub registered_can_log_in :
        (t : Tables)
        → Ensures
            (register out req now)
            (λ resp s.
              (later : ℕ)
              → Yields
                  (login out
                    (record { email = req.email; phone = req.phone; password = req.password })
                    later)
                  (LoggedIn later resp.user.id)
                  s)
            t
    unfolding login
    registered_can_log_in t = Ensures-weaken (register-Added out req now t) λ resp s added later.
        let u = added.account in
        let email = trim_space req.email in
        let phone = trim_space req.phone in
        Yields-bind (
          rw added.made.valid (
            Yields-pure tt (
              Yields-bind (
                Yields-map_error _ (
                  Yields-weaken (found-account t s u added.made added.unshared added.users)
                    λ found s' k.
                      subst
                        (λ o.
                          Yields (log_in out o req.password later) (LoggedIn later resp.user.id) s')
                        (sym k.0)
                        (Yields-weaken (log_in-account u s' later added.made)
                          λ r _ a. (a.0 ∙ sym added.answer, rw added.answer a.1)))))))
