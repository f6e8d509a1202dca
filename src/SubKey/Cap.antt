-- ===== src/SubKey/Cap.antt =====
-- The limits of the sub keys stay within the limit of their subscription.
use ai_token_mall.Prelude.{
  ℕ, ◌≡◌, refl, arith, true, false, not, ◌&&◌, ◌==◌, Option, some, List, [], ◌∷◌, ◌++◌,
  find_first_sound, String, if◌then◌else◌,
}
use ai_token_mall.Prelude.Int.{ℤ, pos, ◌+ℤ◌, ◌≤ℤ◌, ltb_ℤ, wrap_64, int_laws}
use ai_token_mall.Entity.{UserApiKeys, UserSubscriptions, EnterpriseUsers, is_active}
use ai_token_mall.Store.Action.{Tables}
use ai_token_mall.Store.Ensures.{
  Ensures, Ensures-pure, Ensures-query, Ensures-insert, Ensures-bind, Ensures-require,
  Ensures-raise_if, Ensures-map_error, Ensures-transaction, Ensures-weaken,
}
use ai_token_mall.Store.Orders.{subscription_for_user}
use ai_token_mall.Store.Subscriptions.{find_one}
use ai_token_mall.Store.ApiKeys.{
  create_api_key, fields_of_member, main_api_key_enterprise_fields,
  find_active_enterprise_user_by_linked_user_id, latest_enterprise_inquiry_id_by_owner,
}
use ai_token_mall.SubKey.{
  CreateSubApiKeyReq, is_summed, limit_sum, sum_active_sub_key_limit_tokens, exists_active_sub_key,
  subscription_error, sub_key, create_sub_key,
}

limit_sum-append :
    (id exclude : ℕ) (ks : List UserApiKeys) (k : UserApiKeys)
    → limit_sum id exclude (ks ++ k ∷ [])
      ≡ limit_sum id exclude ks +ℤ (if is_summed id exclude k then k.limit_tokens else pos 0)
unfolding limit_sum
limit_sum-append id exclude [] k = omega int_laws
limit_sum-append id exclude (x ∷ ks) k = rw (limit_sum-append id exclude ks k) (omega int_laws)

below : (a b : ℤ) → ltb_ℤ b a ≡ false → a ≤ℤ b
below a b h = ground arith

member_reads :
    (id : ℕ) (m : Option EnterpriseUsers) (t : Tables)
    → Ensures (fields_of_member id m) (λ _ t'. t' ≡ t) t
unfolding fields_of_member latest_enterprise_inquiry_id_by_owner
member_reads id (some m) t = Ensures-pure _ refl
member_reads id Option.none t = Ensures-bind (Ensures-query _ (Ensures-pure _ refl))

fields_read : (id : ℕ) (t : Tables) → Ensures (main_api_key_enterprise_fields id) (λ _ t'. t' ≡ t) t
unfolding main_api_key_enterprise_fields find_active_enterprise_user_by_linked_user_id
fields_read id t = Ensures-bind (Ensures-query _ (member_reads id _ t))

module _ (owner_user_id : ℕ) (req : CreateSubApiKeyReq) (generated : Option String) (t : Tables)
    (s : UserSubscriptions) where
  -- If the sum of the limits fits 64 bits, a sub key that is created leaves the limits of the live
  -- sub keys of its active subscription with a sum of at most the limit of the subscription.
  pub create_sub_key_capped :
      subscription_for_user owner_user_id req.user_subscription_id t.subscriptions ≡ some s
      → wrap_64 (limit_sum req.user_subscription_id 0 t.api_keys +ℤ req.limit_tokens)
        ≡ limit_sum req.user_subscription_id 0 t.api_keys +ℤ req.limit_tokens
      → Ensures
          (create_sub_key owner_user_id req generated)
          (λ _ t'.
            (is_active s.status ≡ true)
            × (limit_sum req.user_subscription_id 0 t'.api_keys ≤ℤ s.limit_tokens))
          t
  unfolding create_sub_key find_one find_active_enterprise_user_by_linked_user_id
      exists_active_sub_key sum_active_sub_key_limit_tokens create_api_key subscription_for_user
  create_sub_key_capped found fits =
      let own =
        find_first_sound (λ r. r.id == req.user_subscription_id && r.user_id == owner_user_id)
          t.subscriptions s found in
      Ensures-transaction (
        Ensures-bind (
          Ensures-map_error subscription_error (
            Ensures-bind (
              Ensures-query _ (
                rw found (
                  Ensures-pure s (
                    Ensures-bind (
                      Ensures-raise_if (not (is_active s.status)) _ λ active. Ensures-bind (
                        Ensures-map_error _ (
                          Ensures-query _ (
                            Ensures-bind (
                              Ensures-raise_if _ _ λ own_member. Ensures-bind (
                                Ensures-map_error _ (
                                  Ensures-query _ (
                                    Ensures-bind (
                                      Ensures-raise_if _ _ λ first. Ensures-bind (
                                        Ensures-map_error _ (
                                          Ensures-query _ (
                                            Ensures-bind (
                                              Ensures-raise_if
                                                (ltb_ℤ s.limit_tokens (
                                                  wrap_64 (
                                                    limit_sum req.user_subscription_id 0 t.api_keys
                                                    +ℤ req.limit_tokens)))
                                                _
                                                λ within. Ensures-bind (
                                                  Ensures-weaken (fields_read owner_user_id t)
                                                    λ fields t1 same. Ensures-bind (
                                                      Ensures-require generated _ λ hash made.
                                                        Ensures-map_error _ (
                                                          Ensures-insert _ _ λ n _. (
                                                            ground arith,
                                                            capped n fields hash t1 same own within,
                                                          ))))))))))))))))))))))))
    where
      capped :
          (n : ℕ) (fields : ℕ × ℕ) (hash : String) (t1 : Tables)
          → t1 ≡ t
          → (s.id == req.user_subscription_id && s.user_id == owner_user_id) ≡ true
          → ltb_ℤ s.limit_tokens
              (wrap_64 (limit_sum req.user_subscription_id 0 t.api_keys +ℤ req.limit_tokens))
            ≡ false
          → limit_sum req.user_subscription_id 0
              (t1.api_keys ++ record (sub_key req s hash fields) { id = n } ∷ [])
            ≤ℤ s.limit_tokens
      capped n fields hash t1 same own within =
          let k = record (sub_key req s hash fields) { id = n } in
          let counted : is_summed req.user_subscription_id 0 k ≡ true = ground arith in
          rw (same, limit_sum-append req.user_subscription_id 0 t.api_keys k, counted)
            (below (limit_sum req.user_subscription_id 0 t.api_keys +ℤ req.limit_tokens)
              s.limit_tokens (rw fits at within))
