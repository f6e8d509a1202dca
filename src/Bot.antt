-- ===== src/Bot.antt =====
-- application/bot/scheduler.go with application/core-service/bot_schedule_config: the scheduler that
-- keeps one recurring job for each enabled row of the table bot_schedule_config. A text is a list
-- of code points. The library gocron and the floating-point numbers of the intervals are arguments.
pub mod Mirrors
pub mod Schedule
use ai_token_mall.Prelude.{
  ℕ, ◌+◌, ◌*◌, Bool, true, false, not, ◌&&◌, ◌||◌, Option, none, some, List, [], ◌∷◌, ◌++◌, ◌==◌,
  if◌then◌else◌, select, length,
}
use ai_token_mall.Prelude.Int.{ℤ, pos, ltb_ℤ, eqb_ℤ}
use ai_token_mall.Prelude.TextMap.{lookup, delete, insert, keys, mem_key}
use ai_token_mall.Text.{codes, codes_eq}

-- A row; the columns that no code reads have no field.
pub record BotScheduleConfig (F : Type 0) : Type 0 where
  pub id : ℕ
  pub module_name : List ℕ
  pub task_name : List ℕ
  pub interval_seconds : F
  pub is_enabled : ℤ
  pub is_strategy_enabled : Option ℤ

-- What the code calls of gocron: `every_do` is Every, Tag, Name and Do in one, and its Boolean says
-- that Do returned no error.
pub record Gocron (G : Type 0) : Type 0 where
  pub every_do : ℤ → List ℕ → G → Bool × G
  pub remove_by_tags : List ℕ → G → G
  pub start_async : G → G
  pub stop : G → G

pub data Job : Type 0 where
  subscription_lifecycle vip_level_sync coupon_expire : Job

abbrev pub module_ai_token_mall : List ℕ
module_ai_token_mall = codes "ai_token_mall"

unfoldable pub get_ai_token_mall_handle_func : List ℕ → Option Job
get_ai_token_mall_handle_func task_name =
    if codes_eq task_name (codes "subscription_lifecycle")
    then some subscription_lifecycle
    else if codes_eq task_name (codes "vip_level_sync")
    then some vip_level_sync
    else if codes_eq task_name (codes "coupon_expire")
    then some coupon_expire
    else none

unfoldable pub get_handle_func : List ℕ → List ℕ → Option Job
get_handle_func module_name task_name =
    if codes_eq module_name module_ai_token_mall
    then get_ai_token_mall_handle_func task_name
    else none

abbrev pub job_name : List ℕ → List ℕ → List ℕ
job_name module_name task_name = module_name ++ b'-' ∷ task_name

-- `jobMap` keeps handles that the code only tests against nil.
pub record Scheduler (G F : Type 0) : Type 0 where
  pub ns : G
  pub job_map : List (List ℕ × Unit {0})
  pub config_map : List (List ℕ × F)
  pub started : Bool

abbrev pub has : {V : Type 0} → List ℕ → List (List ℕ × V) → Bool
has name m = elim (lookup codes_eq name m) [ some v ↦ true | none ↦ false ]

-- The row is selected by `where`: with ids by them alone.
abbrev pub selected : {F : Type 0} → List ℕ → BotScheduleConfig F → Bool
selected [] c =
    codes_eq c.module_name module_ai_token_mall
    && eqb_ℤ c.is_enabled (pos 1)
    && elim c.is_strategy_enabled [ some flag ↦ eqb_ℤ flag (pos 1) | none ↦ false ]
selected (id ∷ ids) c = mem_key (λ a b. a == b) c.id (id ∷ ids)

-- None stands for an error of the database.
unfoldable pub get_all_configs :
    {F : Type 0}
    → List ℕ
    → Option (List (BotScheduleConfig F))
    → Option (ℕ × List (BotScheduleConfig F))
get_all_configs config_ids none = none
get_all_configs config_ids (some table) =
    let list = select (selected config_ids) table in some (length list, list)

module _ {G F : Type 0} (gocron : Gocron G) (differ : F → F → Bool) (duration_of : F → ℤ) where
  -- `time.Duration(config.IntervalSeconds * float64(time.Second))`, a millisecond at least.
  abbrev pub interval_of : F → ℤ
  interval_of seconds =
      if ltb_ℤ (duration_of seconds) (pos 1_000_000) then pos 1_000_000 else duration_of seconds

  -- `RemoveByTags` and the two deletions.
  abbrev pub drop_job : List ℕ → Scheduler G F → Scheduler G F
  drop_job name s = record s {
    ns = gocron.remove_by_tags name s.ns;
    job_map = delete codes_eq name s.job_map;
    config_map = delete codes_eq name s.config_map;
  }

  -- The loop over the keys of `jobMap`; `wanted` is the local map of configs.
  unfoldable pub remove_disabled :
      {V : Type 0} → List (List ℕ × V) → List (List ℕ) → Scheduler G F → Scheduler G F
  remove_disabled wanted [] s = s
  remove_disabled wanted (name ∷ names) s =
      remove_disabled wanted names (if has name wanted then s else drop_job name s)

  abbrev pub record_job : List ℕ → F → Bool × G → Scheduler G F → Scheduler G F
  record_job name seconds (true, ns) s = record s {
    ns = ns;
    job_map = insert codes_eq name tt s.job_map;
    config_map = insert codes_eq name seconds s.config_map;
  }
  record_job name seconds (false, ns) s = record s { ns = ns }

  unfoldable pub create_job : List ℕ → F → Scheduler G F → Scheduler G F
  create_job name seconds s =
      record_job name seconds (gocron.every_do (interval_of seconds) name s.ns) s

  abbrev pub needs_update : List ℕ → F → Scheduler G F → Bool
  needs_update name seconds s = has name s.job_map && elim (lookup codes_eq name s.config_map) [
    | some saved ↦ differ saved seconds
    | none ↦ true
  ]

  -- The body of the loop over the configs, for a task that is known.
  unfoldable pub update_job : List ℕ → F → Scheduler G F → Scheduler G F
  unfolding create_job
  update_job name seconds s =
      if not (needs_update name seconds s) && has name s.job_map
      then s
      else create_job name seconds (if needs_update name seconds s then drop_job name s else s)

  -- A task without a function is skipped.
  unfoldable pub update_known : Option Job → List ℕ → F → Scheduler G F → Scheduler G F
  unfolding update_job
  update_known none name seconds s = s
  update_known (some job) name seconds s = update_job name seconds s

  unfoldable pub schedule : List (BotScheduleConfig F) → Scheduler G F → Scheduler G F
  unfolding update_known
  schedule [] s = s
  schedule (c ∷ configs) s =
      let handle_func = get_handle_func c.module_name c.task_name in
      let name = job_name c.module_name c.task_name in
      schedule configs (update_known handle_func name c.interval_seconds s)

  unfoldable pub configs_by_name :
      List (BotScheduleConfig F)
      → List (List ℕ × BotScheduleConfig F)
      → List (List ℕ × BotScheduleConfig F)
  configs_by_name [] m = m
  configs_by_name (c ∷ configs) m =
      configs_by_name configs (insert codes_eq (job_name c.module_name c.task_name) c m)

  abbrev pub start : Scheduler G F → Scheduler G F
  start s = if s.started then s else record s { ns = gocron.start_async s.ns; started = true }

  unfoldable pub handle_configs : ℕ → List (BotScheduleConfig F) → Scheduler G F → Scheduler G F
  unfolding configs_by_name remove_disabled schedule
  handle_configs total bot_configs s =
      let kept = remove_disabled (configs_by_name bot_configs []) (keys codes_eq s.job_map) s in
      if total == 0 || length bot_configs == 0 then kept else schedule bot_configs kept

  -- `Handle`, on what the database answers.
  unfoldable pub handle :
      List ℕ → Option (List (BotScheduleConfig F)) → Scheduler G F → Scheduler G F
  unfolding handle_configs get_all_configs
  handle config_ids table s = elim (get_all_configs config_ids table) [
    | none ↦ start s
    | some fetched ↦ handle_configs fetched.0 fetched.1 (start s)
  ]

  unfoldable pub remove_all : List (List ℕ) → G → G
  remove_all [] ns = ns
  remove_all (name ∷ names) ns = remove_all names (gocron.remove_by_tags name ns)

  -- `Stop`
  unfoldable pub stop : Scheduler G F → Scheduler G F
  unfolding remove_all
  stop s = record {
    ns = gocron.stop (remove_all (keys codes_eq s.job_map) s.ns);
    job_map = [];
    config_map = [];
    started = false;
  }
