-- ===== src/Coupon/Once.antt =====
-- coupon/service.go: a new user gets each coupon once.
use mathlib.Core.Option
use ai_token_mall.Prelude.{
  ℕ, ◌+◌, ◌^◌, ◌<◌, ◌≡◌, refl, sym, ap, subst, ◌∙◌, arith, Bool, true, false, not, ◌&&◌, ◌||◌,
  Bool-cases, inl, inr, List, [], ◌∷◌, ◌++◌, ◌==◌, ==_refl, exists_where, All, if◌then◌else◌,
}
use ai_token_mall.Entity.{UserCoupons, CouponCampaigns}
use ai_token_mall.Text.{codes, codes_eq, eq_of_codes_eq, decimal}
use ai_token_mall.Text.Number.{
  split, split-append, split-Apart, parse_uint, parse_uint-decimal, decimal-Apart_dash,
}
use ai_token_mall.Store.Action.{
  Tables, Db, Error, ok, err, pure, raise, ◌>>=◌, catch, consume, insert,
}
use ai_token_mall.Store.Ensures.{
  Ensures, Returns, Ensures-pure, Ensures-query, Ensures-bind, Ensures-if, Ensures-weaken,
}
use ai_token_mall.Store.Campaigns.{
  auto_grants_of, list_auto_grant_on_register, is_grant, exists_by_user_and_campaign, same_coupon,
  add_coupon, create_coupon,
}
use ai_token_mall.Coupon.Grant.{
  coupon_code_of, granted_coupon, is_duplicate, skip_duplicate, create_counted, grant_each,
  grant_register_coupons,
}

third : List (List ℕ) → List ℕ
third (a ∷ b ∷ c ∷ parts) = c
third parts = []

head : (s : List ℕ) → split b'-' (codes "UC-" ++ s) ≡ codes "UC" ∷ split b'-' s
unfolding split
head s = refl

split-coupon_code_of :
    (user_id id now : ℕ)
    → split b'-' (coupon_code_of user_id id now)
      ≡ codes "UC" ∷ decimal user_id ∷ decimal id ∷ decimal now ∷ []
split-coupon_code_of user_id id now =
    let last = split-Apart b'-' (decimal now) (decimal-Apart_dash now) in
    let after_id = split-append b'-' (decimal id) (decimal now) (decimal-Apart_dash id) in
    let after_user =
      split-append b'-' (decimal user_id) (decimal id ++ b'-' ∷ decimal now)
        (decimal-Apart_dash user_id) in
    head (decimal user_id ++ b'-' ∷ (decimal id ++ b'-' ∷ decimal now))
    ∙ ap (λ r. codes "UC" ∷ r)
        (after_user ∙ ap (λ r. decimal user_id ∷ r) (after_id ∙ ap (λ r. decimal id ∷ r) last))

-- Codes of one user at one time name the campaign.
coupon_code_of-injective :
    (user_id c d now : ℕ)
    → c < 2 ^ 64
    → d < 2 ^ 64
    → codes_eq (coupon_code_of user_id c now) (coupon_code_of user_id d now) ≡ true
    → c ≡ d
coupon_code_of-injective user_id c d now hc hd e =
    let parts =
      sym (split-coupon_code_of user_id c now)
      ∙ ap (split b'-') (eq_of_codes_eq _ _ e)
      ∙ split-coupon_code_of user_id d now in
    let same : decimal c ≡ decimal d = unfold third in ap third parts in
    Option.some-injective c d
      (sym (parse_uint-decimal c hc) ∙ ap parse_uint same ∙ parse_uint-decimal d hd)

-- A coupon that no unique key refuses is created and counted, or the statement fails.
module _ (Q : ℕ → Tables → Type 0) (t : Tables) (clash : Tables → ℕ → Bool)
    (f : ℕ → Tables → Tables) where
  created_row :
      (db : Db) (b : Bool)
      → b ≡ false
      → Q 1 (f db.seq db.tables)
      → Returns Q (
          catch
            ((λ db'.
                if b
                then err Error.duplicate_entry db'
                else ok db'.seq (record db' { tables = f db'.seq db'.tables; seq = db'.seq + 1 }))
              >>= λ _. pure 1)
            skip_duplicate
            db)
  unfolding catch ◌>>=◌ pure
  created_row db true e h = ground arith
  created_row db false e h = h

  created-Returns :
      (faults : List Bool) (db : Db)
      → db.tables ≡ t
      → ((n : ℕ) → clash t n ≡ false)
      → ((n : ℕ) → Q 1 (f n t))
      → Returns Q (
          catch
            (consume faults (λ db'.
                if clash db'.tables db'.seq
                then err Error.duplicate_entry db'
                else ok db'.seq (record db' { tables = f db'.seq db'.tables; seq = db'.seq + 1 }))
              >>= λ _. pure 1)
            skip_duplicate
            db)
  unfolding consume catch ◌>>=◌ pure skip_duplicate is_duplicate raise
  created-Returns [] db e free h =
      created_row db _ (subst (λ s. clash s db.seq ≡ false) (sym e) (free db.seq))
        (subst (λ s. Q 1 (f db.seq s)) (sym e) (h db.seq))
  created-Returns (true ∷ rest) db e free h = tt
  created-Returns (false ∷ rest) db e free h =
      created_row (record db { faults = rest }) _
        (subst (λ s. clash s db.seq ≡ false) (sym e) (free db.seq))
        (subst (λ s. Q 1 (f db.seq s)) (sym e) (h db.seq))

  Ensures-created :
      ((n : ℕ) → clash t n ≡ false)
      → ((n : ℕ) → Q 1 (f n t))
      → Ensures (catch (insert clash f >>= λ _. pure 1) skip_duplicate) Q t
  unfolding insert catch ◌>>=◌ pure
  Ensures-created free h = record { at = λ db e. created-Returns db.faults db e free h }

module _ (user_id now : ℕ) where
  -- A coupon with the code of a campaign, for this user at this time, is the user's coupon of that
  -- campaign.
  abbrev misnamed : ℕ → UserCoupons → Bool
  misnamed id c =
      codes_eq c.coupon_code (coupon_code_of user_id id now) && not (is_grant user_id id c)

  abbrev pub WellNamed : Tables → Type 0
  WellNamed t = (id : ℕ) → id < 2 ^ 64 → exists_where (misnamed id) t.coupons ≡ false

  exists_where-append :
      (p : UserCoupons → Bool) (cs : List UserCoupons) (c : UserCoupons)
      → exists_where p (cs ++ c ∷ []) ≡ exists_where p cs || p c
  unfolding exists_where
  exists_where-append p [] c = ground arith
  exists_where-append p (d ∷ cs) c = ground (arith, exists_where-append p cs c)

  -- No unique key refuses the coupon of a campaign that the user does not have.
  no_clash :
      (camp : CouponCampaigns) (cs : List UserCoupons)
      → exists_where (misnamed camp.id) cs ≡ false
      → exists_where (is_grant user_id camp.id) cs ≡ false
      → exists_where (same_coupon (granted_coupon user_id camp now)) cs ≡ false
  unfolding exists_where
  no_clash camp [] h k = refl
  no_clash camp (c ∷ cs) h k = ground (arith, no_clash camp cs)

  -- The new coupon is named after its campaign.
  granted-named :
      (camp : CouponCampaigns) (id : ℕ)
      → camp.id < 2 ^ 64
      → id < 2 ^ 64
      → misnamed id (granted_coupon user_id camp now) ≡ false
  granted-named camp id hc h =
      elim (Bool-cases
        (codes_eq (coupon_code_of user_id camp.id now) (coupon_code_of user_id id now))) [
          | inr other ↦ rw other refl
          | inl same ↦
              let e = coupon_code_of-injective user_id camp.id id now hc h same in
              let u = ==_refl user_id in
              let c : (camp.id == id) ≡ true = ground arith in rw (u, c) (not_both _)
        ]
    where
      not_both : (b : Bool) → (b && false) ≡ false
      not_both b = ground arith

  WellNamed-add :
      (camp : CouponCampaigns) (t : Tables) (n : ℕ)
      → camp.id < 2 ^ 64
      → WellNamed t
      → WellNamed (add_coupon (record (granted_coupon user_id camp now) { id = n }) t)
  WellNamed-add camp t n bound w id h =
      exists_where-append (misnamed id) t.coupons _ ∙ rw (w id h) (granted-named camp id bound h)

  -- The user has a coupon of each campaign.
  abbrev pub HasAll : List CouponCampaigns → Tables → Type 0
  HasAll camps s = All (λ c. exists_where (is_grant user_id c.id) s.coupons ≡ true) camps

  -- Only coupons were added.
  pub record Grown (t s : Tables) : Type 0 where
    pub rest : s ≡ record t { coupons = s.coupons }
    pub kept :
        (p : UserCoupons → Bool) → exists_where p t.coupons ≡ true → exists_where p s.coupons ≡ true

  Grown-same : (t : Tables) → Grown t t
  Grown-same t = record { rest = refl; kept = λ p h. h }

  Grown-add : (row : UserCoupons) (t s : Tables) → Grown (add_coupon row t) s → Grown t s
  Grown-add row t s g = record {
    rest = g.rest;
    kept = λ p h. g.kept p (exists_where-append p t.coupons row ∙ rw h refl);
  }

  added :
      (camp : CouponCampaigns) (row : UserCoupons) (cs : List UserCoupons)
      → is_grant user_id camp.id row ≡ true
      → exists_where (is_grant user_id camp.id) (cs ++ row ∷ []) ≡ true
  added camp row cs h = exists_where-append (is_grant user_id camp.id) cs row ∙ ground arith

  own :
      (camp : CouponCampaigns) (n : ℕ)
      → is_grant user_id camp.id (record (granted_coupon user_id camp now) { id = n }) ≡ true
  own camp n = rw (==_refl user_id, ==_refl camp.id) refl

  grant_each-HasAll :
      (camps : List CouponCampaigns) (granted : ℕ) (t : Tables)
      → All (λ c. c.id < 2 ^ 64) camps
      → WellNamed t
      → Ensures (grant_each user_id now camps granted) (λ _ s. HasAll camps s × Grown t s) t
  unfolding grant_each exists_by_user_and_campaign create_counted create_coupon
  grant_each-HasAll [] granted t b w = Ensures-pure granted (tt, Grown-same t)
  grant_each-HasAll (camp ∷ camps) granted t b w = Ensures-bind (
      Ensures-query _ (
        Ensures-bind (
          Ensures-if (exists_where (is_grant user_id camp.id) t.coupons)
            (λ dup. Ensures-pure 0 (
              Ensures-weaken (grant_each-HasAll camps _ t b.1 w)
                λ _ s k. ((k.1.kept _ dup, k.0), k.1)))
            (λ new.
              Ensures-created _ t _ _ (λ n. no_clash camp t.coupons (w camp.id b.0) new)
                λ n.
                  let row = record (granted_coupon user_id camp now) { id = n } in
                  Ensures-weaken
                    (grant_each-HasAll camps _ (add_coupon row t) b.1
                      (WellNamed-add camp t n b.0 w))
                    λ _ s k. (
                      (k.1.kept _ (added camp row t.coupons (own camp n)), k.0),
                      Grown-add row t s k.1,
                    )))))

-- A user who has a coupon of each campaign gets none.
grant_each-none :
    (user_id now : ℕ) (camps : List CouponCampaigns) (granted : ℕ) (t : Tables)
    → HasAll user_id now camps t
    → Ensures (grant_each user_id now camps granted) (λ n s. (n ≡ granted) × (s ≡ t)) t
unfolding grant_each exists_by_user_and_campaign
grant_each-none user_id now [] granted t h = Ensures-pure granted (refl, refl)
grant_each-none user_id now (camp ∷ camps) granted t h = Ensures-bind (
    Ensures-query _ (
      rw h.0 (
        Ensures-bind (
          Ensures-pure 0 (
            Ensures-weaken (grant_each-none user_id now camps (granted + 0) t h.1)
              λ n s k. (k.0 ∙ omega arith, k.1))))))

-- For a user other than 0, with campaigns whose ids fit 64 bits and no coupon of another user or
-- campaign under a code that this grant makes: a grant that returns has added nothing but coupons
-- and has left the user a coupon of each campaign for new users, and a second grant at any time
-- that returns gives none and changes nothing.
pub grant_once :
    (user_id now later : ℕ) (t : Tables)
    → 0 < user_id
    → All (λ c. c.id < 2 ^ 64) (auto_grants_of t)
    → WellNamed user_id now t
    → Ensures
        (grant_register_coupons user_id now)
        (λ _ s.
          HasAll user_id now (auto_grants_of t) s
          × Grown user_id now t s
          × Ensures (grant_register_coupons user_id later) (λ m s'. (m ≡ 0) × (s' ≡ s)) s)
        t
unfolding grant_register_coupons list_auto_grant_on_register
grant_once user_id now later t u b w =
    Ensures-if (user_id == 0) (λ nobody. absurd (ground arith))
      (λ _. Ensures-bind (
        Ensures-query _ (
          Ensures-weaken (grant_each-HasAll user_id now (auto_grants_of t) 0 t b w) λ n s k.
            let same = sym (ap auto_grants_of k.1.rest) in
            let has_all = subst (λ camps. HasAll user_id now camps s) same k.0 in
            (
              k.0,
              k.1,
              Ensures-if (user_id == 0) (λ nobody. absurd (ground arith))
                  (λ _. Ensures-bind (
                    Ensures-query _
                      (grant_each-none user_id later (auto_grants_of s) 0 s has_all))),
            ))))
