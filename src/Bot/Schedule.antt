-- ===== src/Bot/Schedule.antt =====
-- application/bot/scheduler.go: after `Handle` the jobs that run are those of the enabled rows.
use ai_token_mall.Prelude.{
  ℕ, Bool, true, false, not, ◌&&◌, ◌||◌, Option, none, some, List, [], ◌∷◌, ◌++◌, ◌==◌, ◌≡◌, refl,
  sym, ap, ◌∙◌, arith, if◌then◌else◌, Bool-cases, Option-cases, inl, inr, suc, length, select,
  find_last, exists_where, All,
}
use ai_token_mall.Prelude.Int.{ℤ}
use ai_token_mall.Prelude.TextMap.{lookup, insert, keys, mem_key, lookup_absent}
use ai_token_mall.Text.{codes_eq, eq_of_codes_eq}
use ai_token_mall.Bot.{
  BotScheduleConfig, Gocron, Job, selected, Scheduler, has, interval_of, drop_job, remove_disabled,
  create_job, needs_update, update_job, update_known, schedule, configs_by_name, start,
  handle_configs, handle, get_all_configs, get_handle_func, job_name, module_ai_token_mall,
  record_job,
}
use ai_token_mall.Bot.Mirrors.{
  IsGocron, Mirrors, recorded, texts_insert, start-Mirrors, remove_disabled-Mirrors,
  update_known-Mirrors,
}

-- The rows of the module that the scheduler serves.
abbrev Ours : {F : Type 0} → BotScheduleConfig F → Type 0
Ours c = codes_eq c.module_name module_ai_token_mall ≡ true

select-Ours :
    {F : Type 0} (table : List (BotScheduleConfig F)) → All Ours (select (selected []) table)
unfolding select
select-Ours [] = tt
select-Ours (c ∷ table) = elim (Bool-cases (selected [] c)) [
  | inl s ↦ rw s ((ground arith), select-Ours table)
  | inr s ↦ rw s (select-Ours table)
]

-- Names of jobs of one module differ where the tasks do.
job_name_eq :
    {F : Type 0} (c : BotScheduleConfig F) (task : List ℕ)
    → Ours c
    → codes_eq (job_name c.module_name c.task_name) (job_name module_ai_token_mall task)
      ≡ codes_eq c.task_name task
job_name_eq c task o =
    rw (eq_of_codes_eq c.module_name module_ai_token_mall o) (unfold codes_eq in refl)

has-configs_by_name :
    {G F : Type 0} (gocron : Gocron G) (differ : F → F → Bool) (duration_of : F → ℤ) (task : List ℕ)
    (configs : List (BotScheduleConfig F)) (m : List (List ℕ × BotScheduleConfig F))
    → All Ours configs
    → has (job_name module_ai_token_mall task) (configs_by_name gocron differ duration_of configs m)
      ≡ (exists_where (λ c. codes_eq c.task_name task) configs
          || has (job_name module_ai_token_mall task) m)
unfolding configs_by_name exists_where
has-configs_by_name gocron differ duration_of task [] m h = refl
has-configs_by_name gocron differ duration_of task (c ∷ configs) m h =
    let name = job_name c.module_name c.task_name in
    let ins = texts_insert name (job_name module_ai_token_mall task) c m in
    let ih =
      has-configs_by_name gocron differ duration_of task configs (insert codes_eq name c m) h.1 in
    ground (arith, job_name_eq c task h.0)

find_last-none :
    {A : Type 0} (p : A → Bool) (xs : List A) → find_last p xs ≡ none → exists_where p xs ≡ false
unfolding find_last exists_where
find_last-none p [] h = refl
find_last-none p (x ∷ xs) h = elim (Option-cases (find_last p xs)) [
  | inl e ↦ let ih = find_last-none p xs e in ground arith
  | inr (y, e) ↦ ground arith
]

module _ {G F : Type 0} (gocron : Gocron G) (differ : F → F → Bool) (duration_of : F → ℤ)
    (jobs : List ℕ → G → List ℤ) (laws : IsGocron gocron jobs)
    (creates : (d : ℤ) (name : List ℕ) (g : G) → (gocron.every_do d name g).0 ≡ true)
    (same_duration : (a b : F) → differ a b ≡ false → duration_of a ≡ duration_of b) where
  create_job_jobs :
      (name tag : List ℕ) (seconds : F) (s : Scheduler G F)
      → jobs tag (create_job gocron differ duration_of name seconds s).ns ≡ (
          if codes_eq name tag
          then jobs tag s.ns ++ interval_of gocron differ duration_of seconds ∷ []
          else jobs tag s.ns)
  unfolding create_job
  create_job_jobs name tag seconds s =
      let d = interval_of gocron differ duration_of seconds in
      let added = laws.adds d name tag s.ns in
      record_jobs (gocron.every_do d name s.ns) (creates d name s.ns) added
    where
      record_jobs :
          (r : Bool × G)
          → r.0 ≡ true
          → jobs tag r.1 ≡ (
              if r.0 && codes_eq name tag
              then jobs tag s.ns ++ interval_of gocron differ duration_of seconds ∷ []
              else jobs tag s.ns)
          → jobs tag (record_job gocron differ duration_of name seconds r s).ns ≡ (
              if codes_eq name tag
              then jobs tag s.ns ++ interval_of gocron differ duration_of seconds ∷ []
              else jobs tag s.ns)
      record_jobs (true, ns) h a = a
      record_jobs (false, ns) h a = ground arith

  idle :
      (name : List ℕ) (s : Scheduler G F)
      → Mirrors gocron differ duration_of jobs s
      → has name s.job_map ≡ false
      → jobs name s.ns ≡ []
  idle name s m free = let h = m name in ground (arith, h.0, h.1)

  current_job :
      (name : List ℕ) (seconds : F) (s : Scheduler G F)
      → Mirrors gocron differ duration_of jobs s
      → needs_update gocron differ duration_of name seconds s ≡ false
      → has name s.job_map ≡ true
      → jobs name s.ns ≡ interval_of gocron differ duration_of seconds ∷ []
  current_job name seconds s m current running =
      elim (Option-cases (lookup codes_eq name s.config_map)) [
        | inl gone ↦ ground arith
        | inr (saved, found) ↦
            let kept : differ saved seconds ≡ false = ground arith in
            let same = same_duration saved seconds kept in
            let h = (m name).0 in
            let runs : jobs name s.ns ≡ interval_of gocron differ duration_of saved ∷ [] =
              h ∙ rw (recorded, found) refl in
            runs ∙ rw same refl
      ]

  -- A job that is there under a name is there under the same name.
  at_tag :
      (name tag : List ℕ) (s : Scheduler G F) (ds : List ℤ)
      → jobs name s.ns ≡ ds
      → jobs tag s.ns ≡ (if codes_eq name tag then ds else jobs tag s.ns)
  at_tag name tag s ds h = elim (Bool-cases (codes_eq name tag)) [
    | inl same ↦ rw same (ap (λ n. jobs n s.ns) (sym (eq_of_codes_eq name tag same)) ∙ h)
    | inr other ↦ rw other refl
  ]

  update_job_jobs :
      (name tag : List ℕ) (seconds : F) (s : Scheduler G F)
      → Mirrors gocron differ duration_of jobs s
      → jobs tag (update_job gocron differ duration_of name seconds s).ns ≡ (
          if codes_eq name tag
          then interval_of gocron differ duration_of seconds ∷ []
          else jobs tag s.ns)
  unfolding update_job create_job
  update_job_jobs name tag seconds s m =
      elim (Bool-cases (needs_update gocron differ duration_of name seconds s)) [
        | inl update ↦
            let removed = laws.removes name tag s.ns in
            let made =
              create_job_jobs name tag seconds (drop_job gocron differ duration_of name s) in
            rw update (ground arith)
        | inr current ↦ elim (Bool-cases (has name s.job_map)) [
          | inl running ↦
              rw (current, running)
                (at_tag name tag s _ (current_job name seconds s m current running))
          | inr free ↦
              rw (current, free)
                (let made = create_job_jobs name tag seconds s in
                  let empty = at_tag name tag s [] (idle name s m free) in ground arith)
        ]
      ]

  -- What one row does to the jobs of a task that is known.
  row_jobs :
      (task : List ℕ) (job : Job) (c : BotScheduleConfig F) (s : Scheduler G F) (o : Option Job)
      → get_handle_func module_ai_token_mall task ≡ some job
      → get_handle_func c.module_name c.task_name ≡ o
      → Ours c
      → Mirrors gocron differ duration_of jobs s
      → jobs
          (job_name module_ai_token_mall task)
          (update_known gocron differ duration_of o
            (job_name c.module_name c.task_name)
            c.interval_seconds
            s).ns
        ≡ (if codes_eq c.task_name task
            then interval_of gocron differ duration_of c.interval_seconds ∷ []
            else jobs (job_name module_ai_token_mall task) s.ns)
  unfolding update_known
  row_jobs task job c s (some f) known task_known o m =
      rw (← job_name_eq c task o)
        (update_job_jobs _ (job_name module_ai_token_mall task) c.interval_seconds s m)
  row_jobs task job c s none known unknown o m = elim (Bool-cases (codes_eq c.task_name task)) [
    | inr other ↦ rw other refl
    | inl same ↦
        let e : get_handle_func c.module_name c.task_name ≡ some job =
          ap (λ n. get_handle_func n c.task_name) (eq_of_codes_eq c.module_name _ o)
          ∙ ap (get_handle_func module_ai_token_mall) (eq_of_codes_eq c.task_name task same)
          ∙ known in
        ground arith
  ]

  -- The last row decides, or what ran before.
  either :
      (c : BotScheduleConfig F) (b : Bool) (js : List ℤ)
      → (if b then interval_of gocron differ duration_of c.interval_seconds ∷ [] else js)
        ≡ elim (if b then some c else none) as (λ o. List ℤ) [
          | some d ↦ interval_of gocron differ duration_of d.interval_seconds ∷ []
          | none ↦ js
        ]
  either c true js = refl
  either c false js = refl

  schedule_jobs :
      (task : List ℕ) (job : Job) (configs : List (BotScheduleConfig F)) (s : Scheduler G F)
      → get_handle_func module_ai_token_mall task ≡ some job
      → All Ours configs
      → Mirrors gocron differ duration_of jobs s
      → jobs (job_name module_ai_token_mall task) (schedule gocron differ duration_of configs s).ns
        ≡ elim (find_last (λ c. codes_eq c.task_name task) configs) [
          | some c ↦ interval_of gocron differ duration_of c.interval_seconds ∷ []
          | none ↦ jobs (job_name module_ai_token_mall task) s.ns
        ]
  unfolding schedule find_last
  schedule_jobs task job [] s known o m = refl
  schedule_jobs task job (c ∷ configs) s known o m =
      let name = job_name c.module_name c.task_name in
      let f = get_handle_func c.module_name c.task_name in
      let tag = job_name module_ai_token_mall task in
      let row = row_jobs task job c s f known refl o.0 m in
      let m' =
        update_known-Mirrors gocron differ duration_of jobs laws f name c.interval_seconds s m in
      let ih = schedule_jobs task job configs _ known o.1 m' in
      elim (Option-cases (find_last (λ c. codes_eq c.task_name task) configs)) [
        | inl last ↦ ih ∙ rw last (row ∙ either c (codes_eq c.task_name task) (jobs tag s.ns))
        | inr (d, later) ↦ ih ∙ rw later refl
      ]

  drop_jobs :
      (kept : Bool) (name tag : List ℕ) (s : Scheduler G F)
      → jobs tag (if kept then s else drop_job gocron differ duration_of name s).ns
        ≡ (if not kept && codes_eq name tag then [] else jobs tag s.ns)
  drop_jobs true name tag s = refl
  drop_jobs false name tag s = laws.removes name tag s.ns

  remove_disabled_jobs :
      {V : Type 0} (wanted : List (List ℕ × V)) (names : List (List ℕ)) (tag : List ℕ)
      (s : Scheduler G F)
      → jobs tag (remove_disabled gocron differ duration_of wanted names s).ns
        ≡ (if mem_key codes_eq tag names && not (has tag wanted) then [] else jobs tag s.ns)
  unfolding remove_disabled mem_key
  remove_disabled_jobs wanted [] tag s = refl
  remove_disabled_jobs wanted (name ∷ names) tag s =
      let ih =
        remove_disabled_jobs wanted names tag
          (if has name wanted then s else drop_job gocron differ duration_of name s) in
      let dropped = drop_jobs (has name wanted) name tag s in
      let same : codes_eq name tag ≡ true → has name wanted ≡ has tag wanted =
        λ e. ap (λ n. has n wanted) (eq_of_codes_eq name tag e) in
      ih
      ∙ rw dropped (
          cut (codes_eq name tag) (mem_key codes_eq tag names) (has name wanted) (has tag wanted)
            same (jobs tag s.ns))
    where
      cut :
          (here rest kept wanted : Bool)
          → (here ≡ true → kept ≡ wanted)
          → (js : List ℤ)
          → (if rest && not wanted then [] else (if not kept && here then [] else js))
            ≡ (if (if here then true else rest) && not wanted then [] else js)
      cut here rest kept wanted same js = ground arith

  skip_empty :
      (configs : List (BotScheduleConfig F)) (s : Scheduler G F)
      → (if length configs == 0 || length configs == 0
          then s
          else schedule gocron differ duration_of configs s)
        ≡ schedule gocron differ duration_of configs s
  unfolding schedule
  skip_empty [] s = refl
  skip_empty (c ∷ configs) s =
      let more : (suc (length configs) == 0) ≡ false = ground arith in rw more refl

  -- A job that no row asks for is removed.
  removed_jobs :
      (task : List ℕ) (configs : List (BotScheduleConfig F)) (s : Scheduler G F)
      → All Ours configs
      → Mirrors gocron differ duration_of jobs s
      → exists_where (λ c. codes_eq c.task_name task) configs ≡ false
      → jobs
          (job_name module_ai_token_mall task)
          (remove_disabled gocron differ duration_of
            (configs_by_name gocron differ duration_of configs [])
            (keys codes_eq s.job_map)
            s).ns
        ≡ []
  removed_jobs task configs s o m unasked =
      let tag = job_name module_ai_token_mall task in
      let wanted = configs_by_name gocron differ duration_of configs [] in
      let names = keys codes_eq s.job_map in
      let unwanted : has tag wanted ≡ false =
        has-configs_by_name gocron differ duration_of task configs [] o
        ∙ rw unasked (unfold lookup in refl) in
      let left = remove_disabled_jobs wanted names tag s in
      elim (Bool-cases (mem_key codes_eq tag names)) [
        | inl running ↦ left ∙ rw (running, unwanted) refl
        | inr absent ↦
            let no_job = lookup_absent codes_eq tag s.job_map absent in
            let free : has tag s.job_map ≡ false = rw (has, no_job) refl in
            left ∙ rw absent (idle tag s m free)
      ]

  -- With the rows of the database and while gocron creates what it is asked to, after `Handle` the
  -- jobs of each task of the program are exactly one with the interval of its last enabled row, and
  -- none where no row is enabled.
  pub handle_runs_enabled :
      (task : List ℕ) (job : Job) (table : List (BotScheduleConfig F)) (s : Scheduler G F)
      → get_handle_func module_ai_token_mall task ≡ some job
      → Mirrors gocron differ duration_of jobs s
      → jobs
          (job_name module_ai_token_mall task)
          (handle gocron differ duration_of [] (some table) s).ns
        ≡ elim (find_last (λ c. codes_eq c.task_name task) (select (selected []) table)) [
          | some c ↦ interval_of gocron differ duration_of c.interval_seconds ∷ []
          | none ↦ []
        ]
  unfolding handle handle_configs get_all_configs
  handle_runs_enabled task job table s known m =
      let configs = select (selected []) table in
      let tag = job_name module_ai_token_mall task in
      let begun = start gocron differ duration_of s in
      let wanted = configs_by_name gocron differ duration_of configs [] in
      let names = keys codes_eq begun.job_map in
      let kept = remove_disabled gocron differ duration_of wanted names begun in
      let begun_m = start-Mirrors gocron differ duration_of jobs laws s m in
      let kept_m =
        remove_disabled-Mirrors gocron differ duration_of jobs laws wanted names begun begun_m in
      let ours = select-Ours table in
      ap (λ r. jobs tag r.ns) (skip_empty configs kept)
      ∙ schedule_jobs task job configs kept known ours kept_m
      ∙ (elim (Option-cases (find_last (λ c. codes_eq c.task_name task) configs)) [
        | inr (c, last) ↦ rw last refl
        | inl unasked ↦
            rw unasked
              (removed_jobs task configs begun ours begun_m (find_last-none _ configs unasked))
      ])
