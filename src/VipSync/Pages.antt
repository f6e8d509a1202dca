-- ===== src/VipSync/Pages.antt =====
-- entry.go: the pages of `listAllUsersForSync` are the whole table.
use mathlib.Core.List.{append-nil, append_assoc}
use ai_token_mall.Prelude.{
  ℕ, zero, suc, ◌+◌, ◌<◌, ◌≡◌, refl, sym, ap, ◌∙◌, arith, true, List, [], ◌∷◌, ◌++◌, ◌==◌, ltb,
  length, take, drop, map, ltb→lt,
}
use ai_token_mall.Prelude.Paging.{take_short, take-drop, length-take, drop-drop, drop_all}
use ai_token_mall.Store.Action.{Tables}
use ai_token_mall.Store.Ensures.{
  Ensures, Ensures-pure, Ensures-query, Ensures-bind, Ensures-if, Ensures-weaken,
}
use ai_token_mall.Store.Levels.{UserVipConfigRow, vip_config_row, list_id_and_vip_config_id}
use ai_token_mall.VipSync.{list_page_size, list_users_from, list_all_users_for_sync}

empty_of_length : {A : Type 0} (xs : List A) → (length xs == 0) ≡ true → xs ≡ []
empty_of_length [] h = refl
empty_of_length (x ∷ xs) h = ground arith

length-map : {A B : Type 0} (f : A → B) (xs : List A) → length (map f xs) ≡ length xs
length-map f [] = refl
length-map f (x ∷ xs) = ap suc (length-map f xs)

module _ (t : Tables) where
  abbrev rows_of : List UserVipConfigRow
  rows_of = map vip_config_row t.users

  -- A full page with what follows it.
  next_page :
      (offset : ℕ) (all : List UserVipConfigRow)
      → length (take list_page_size (drop offset rows_of)) ≡ list_page_size
      → (all ++ take list_page_size (drop offset rows_of))
          ++ drop (offset + length (take list_page_size (drop offset rows_of))) rows_of
        ≡ all ++ drop offset rows_of
  next_page offset all whole =
      rw (whole, drop-drop offset list_page_size rows_of)
        (append_assoc all _ _ ∙ ap (λ r. all ++ r) (take-drop list_page_size (drop offset rows_of)))

  list_users_from-rest :
      (fuel offset : ℕ) (all : List UserVipConfigRow)
      → length rows_of < offset + fuel
      → Ensures
          (list_users_from fuel offset all)
          (λ rows s. (s ≡ t) × (rows ≡ all ++ drop offset rows_of))
          t
  unfolding list_users_from list_id_and_vip_config_id
  list_users_from-rest zero offset all h =
      Ensures-pure all (refl, rw (drop_all offset rows_of (omega arith)) (sym (append-nil all)))
  list_users_from-rest (suc fuel) offset all h =
      let rows = take list_page_size (drop offset rows_of) in
      let short = take_short list_page_size (drop offset rows_of) in
      Ensures-bind (
        Ensures-query _ (
          Ensures-if (length rows == 0)
            (λ none_left.
              let no_rows : length rows ≡ 0 = ground arith in
              let gone = sym (short (omega arith)) ∙ empty_of_length rows none_left in
              Ensures-pure all (refl, rw gone (sym (append-nil all))))
            (λ some_left.
              Ensures-if (ltb (length rows) list_page_size)
                (λ last. Ensures-pure _ (refl, ap (λ r. all ++ r) (short (ltb→lt _ _ last))))
                (λ full.
                  let more : 0 < length rows = ground arith in
                  let whole : length rows ≡ list_page_size =
                    let bound = length-take list_page_size (drop offset rows_of) in ground arith in
                  Ensures-weaken
                    (list_users_from-rest fuel (offset + length rows) (all ++ rows) (omega arith))
                    λ rs s r. (r.0, r.1 ∙ next_page offset all whole)))))

-- The paging loop returns every user once, in order.
pub list_all_users-rows :
    (t : Tables)
    → Ensures list_all_users_for_sync (λ rows s. (s ≡ t) × (rows ≡ map vip_config_row t.users)) t
unfolding list_all_users_for_sync drop
list_all_users-rows t = record {
  at = λ db e.
      (list_users_from-rest t (suc (length db.tables.users)) 0 [] (
          let n = length-map vip_config_row t.users in
          let m = ap (λ s. length s.users) e in omega arith)).at
        db e;
}
