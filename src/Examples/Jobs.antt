-- ===== src/Examples/Jobs.antt =====
-- The scheduler with a list in the place of gocron, and the sync of levels in the shop.
use ai_token_mall.Prelude.{
  ℕ, ◌≤◌, ◌<◌, ◌≡◌, refl, sym, ap, ◌∙◌, arith, Bool, true, false, not, ◌&&◌, Option, none, some,
  List, [], ◌∷◌, ◌++◌, ◌==◌, String, if◌then◌else◌, count_where, inl, inr, Bool-cases,
}
use ai_token_mall.Prelude.Int.{ℤ, pos}
use ai_token_mall.Prelude.Keys.{Unique}
use ai_token_mall.Text.{codes, codes_eq, codes_eq_refl, eq_of_codes_eq}
use ai_token_mall.Store.Leaves.{Leaves}
use ai_token_mall.Bot.{
  BotScheduleConfig, Gocron, Job, Scheduler, handle, job_name, module_ai_token_mall,
}
use ai_token_mall.Bot.Mirrors.{IsGocron, Mirrors, handle-Mirrors}
use ai_token_mall.Bot.Schedule.{handle_runs_enabled}
use ai_token_mall.VipSync.{run_vip_level_sync}
use ai_token_mall.VipSync.Laws.{Climbs, vip_sync-Climbs}
use ai_token_mall.Examples.{shop}

-- The tags and the intervals of the jobs.
abbrev Jobs : Type 0
Jobs = List (List ℕ × ℤ)

unfoldable without_tag : List ℕ → Jobs → Jobs
without_tag tag [] = []
without_tag tag (j ∷ js) =
    let rest = without_tag tag js in if codes_eq tag j.0 then rest else j ∷ rest

unfoldable tagged : List ℕ → Jobs → List ℤ
tagged tag [] = []
tagged tag (j ∷ js) = let rest = tagged tag js in if codes_eq j.0 tag then j.1 ∷ rest else rest

abbrev list_scheduler : Gocron Jobs
list_scheduler = record {
  every_do = λ d name js. (true, js ++ (name, d) ∷ []);
  remove_by_tags = without_tag;
  start_async = λ js. js;
  stop = λ js. js;
}

tagged-append :
    (name tag : List ℕ) (d : ℤ) (js : Jobs)
    → tagged tag (js ++ (name, d) ∷ [])
      ≡ (if codes_eq name tag then tagged tag js ++ d ∷ [] else tagged tag js)
unfolding tagged
tagged-append name tag d [] = ground arith
tagged-append name tag d (j ∷ js) = ground (arith, tagged-append name tag d js)

apart : (j name tag : List ℕ) → codes_eq name j ≡ false → name ≡ tag → codes_eq j tag ≡ false
apart j name tag kept e = elim (Bool-cases (codes_eq j tag)) [
  | inr other ↦ other
  | inl same ↦
      let back : codes_eq name j ≡ true =
        ap (λ n. codes_eq name n) (eq_of_codes_eq j tag same ∙ sym e) ∙ codes_eq_refl name in
      ground arith
]

tagged-without_tag :
    (name tag : List ℕ) (js : Jobs)
    → tagged tag (without_tag name js) ≡ (if codes_eq name tag then [] else tagged tag js)
unfolding tagged without_tag
tagged-without_tag name tag [] = ground arith
tagged-without_tag name tag (j ∷ js) =
    let ih = tagged-without_tag name tag js in
    elim (Bool-cases (codes_eq name j.0)) [
      | inl gone ↦
          let p : codes_eq j.0 tag ≡ codes_eq name tag =
            ap (λ n. codes_eq n tag) (sym (eq_of_codes_eq name j.0 gone)) in
          ground arith
      | inr kept ↦
          let other : codes_eq name tag ≡ true → codes_eq j.0 tag ≡ false =
            λ e. apart j.0 name tag kept (eq_of_codes_eq name tag e) in
          ground arith
    ]

list_scheduler-IsGocron : IsGocron list_scheduler (λ tag js. tagged tag js)
list_scheduler-IsGocron = record {
  removes = tagged-without_tag;
  adds = λ d name tag js. tagged-append name tag d js;
  starts = λ tag js. refl;
  stops = λ tag js. refl;
}

-- Intervals in nanoseconds, for the numbers of the column.
abbrev differ : ℕ → ℕ → Bool
differ a b = not (a == b)

abbrev duration_of : ℕ → ℤ
duration_of d = pos d

abbrev idle_scheduler : Scheduler Jobs ℕ
idle_scheduler = record { ns = []; job_map = []; config_map = []; started = false }

abbrev schedule_row : String → ℕ → ℤ → BotScheduleConfig ℕ
schedule_row task seconds enabled = record {
  id = 1;
  module_name = module_ai_token_mall;
  task_name = codes task;
  interval_seconds = seconds;
  is_enabled = enabled;
  is_strategy_enabled = some (pos 1);
}

abbrev schedule_table : List (BotScheduleConfig ℕ)
schedule_table =
    schedule_row "coupon_expire" 60_000_000_000 (pos 1)
    ∷ schedule_row "vip_level_sync" 5_000_000_000 (pos 0)
    ∷ []

idle-Mirrors : Mirrors list_scheduler differ duration_of tagged idle_scheduler
unfolding tagged ai_token_mall.Prelude.TextMap.lookup
idle-Mirrors name = (refl, refl)

handle-Mirrors_example :
    Mirrors list_scheduler differ duration_of tagged
      (handle list_scheduler differ duration_of [] (some schedule_table) idle_scheduler)
handle-Mirrors_example =
    handle-Mirrors list_scheduler differ duration_of tagged list_scheduler-IsGocron []
      (some schedule_table) idle_scheduler idle-Mirrors

handle_runs_enabled_example :
    tagged
      (job_name module_ai_token_mall (codes "coupon_expire"))
      (handle list_scheduler differ duration_of [] (some schedule_table) idle_scheduler).ns
    ≡ pos 60_000_000_000 ∷ []
unfolding ai_token_mall.Bot.get_handle_func ai_token_mall.Bot.get_ai_token_mall_handle_func codes_eq
    ai_token_mall.Prelude.find_last ai_token_mall.Prelude.select
handle_runs_enabled_example =
    handle_runs_enabled list_scheduler differ duration_of tagged list_scheduler-IsGocron
      (λ d name g. refl) (λ a b h. same a b h) (codes "coupon_expire") Job.coupon_expire
      schedule_table idle_scheduler refl idle-Mirrors
  where
    same : (a b : ℕ) → differ a b ≡ false → duration_of a ≡ duration_of b
    same a b h = ap pos (ground arith)

shop-Unique : Unique (λ u. u.id) shop.users
unfolding count_where
shop-Unique k = ground arith

vip_sync-Climbs_example : Leaves run_vip_level_sync (Climbs shop) shop
vip_sync-Climbs_example = vip_sync-Climbs shop shop-Unique
