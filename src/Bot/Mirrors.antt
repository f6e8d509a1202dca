-- ===== src/Bot/Mirrors.antt =====
-- application/bot/scheduler.go: the jobs that run are those that the scheduler's maps name.
use ai_token_mall.Prelude.{
  ℕ, Bool, true, false, ◌&&◌, ◌||◌, Option, none, some, List, [], ◌∷◌, ◌++◌, ◌==◌, ◌≡◌, refl, sym,
  ap, ◌∙◌, arith, if◌then◌else◌, Bool-cases, inl, inr, length, select,
}
use ai_token_mall.Prelude.Int.{ℤ}
use ai_token_mall.Prelude.TextMap.{
  lookup, delete, insert, keys, mem_key, lookup-delete, lookup-insert, lookup_absent,
}
use ai_token_mall.Text.{codes_eq, codes_eq_refl, eq_of_codes_eq}
use ai_token_mall.Bot.{
  BotScheduleConfig, Gocron, Job, selected, Scheduler, has, interval_of, drop_job, remove_disabled,
  record_job, create_job, needs_update, update_job, update_known, schedule, configs_by_name, start,
  handle_configs, handle, get_all_configs, get_handle_func, remove_all, stop,
}

-- How gocron behaves, as far as `jobs` sees it: the intervals of the jobs that carry a tag.
pub record IsGocron {G : Type 0} (gocron : Gocron G) (jobs : List ℕ → G → List ℤ) : Type 0 where
  pub removes :
      (name tag : List ℕ) (g : G)
      → jobs tag (gocron.remove_by_tags name g) ≡ (if codes_eq name tag then [] else jobs tag g)
  pub adds :
      (d : ℤ) (name tag : List ℕ) (g : G)
      → jobs tag (gocron.every_do d name g).1 ≡ (
          if (gocron.every_do d name g).0 && codes_eq name tag
          then jobs tag g ++ d ∷ []
          else jobs tag g)
  pub starts : (tag : List ℕ) (g : G) → jobs tag (gocron.start_async g) ≡ jobs tag g
  pub stops : (tag : List ℕ) (g : G) → jobs tag (gocron.stop g) ≡ jobs tag g

abbrev pub texts_delete :
    {V : Type 0} (j k : List ℕ) (m : List (List ℕ × V))
    → lookup codes_eq k (delete codes_eq j m) ≡ (if codes_eq j k then none else lookup codes_eq k m)
texts_delete = lookup-delete codes_eq eq_of_codes_eq codes_eq_refl

abbrev pub texts_insert :
    {V : Type 0} (j k : List ℕ) (v : V) (m : List (List ℕ × V))
    → lookup codes_eq k (insert codes_eq j v m)
      ≡ (if codes_eq j k then some v else lookup codes_eq k m)
texts_insert = lookup-insert codes_eq eq_of_codes_eq codes_eq_refl

module _ {G F : Type 0} (gocron : Gocron G) (differ : F → F → Bool) (duration_of : F → ℤ)
    (jobs : List ℕ → G → List ℤ) where
  -- The jobs that the map of intervals asks for under a name.
  abbrev pub recorded : Scheduler G F → List ℕ → List ℤ
  recorded s name = elim (lookup codes_eq name s.config_map) [
    | some seconds ↦ interval_of gocron differ duration_of seconds ∷ []
    | none ↦ []
  ]

  -- Under each name there runs one job with the interval of the map, or none; both maps have the
  -- same names.
  abbrev pub MirrorsAt : Scheduler G F → List ℕ → Type 0
  MirrorsAt s name =
      (jobs name s.ns ≡ recorded s name) × (has name s.job_map ≡ has name s.config_map)

  abbrev pub Mirrors : Scheduler G F → Type 0
  Mirrors s = (name : List ℕ) → MirrorsAt s name

  Mirrors-if :
      (b : Bool) (s r : Scheduler G F) → Mirrors s → Mirrors r → Mirrors (if b then s else r)
  Mirrors-if true s r m k = m
  Mirrors-if false s r m k = k

  module _ (laws : IsGocron gocron jobs) where
    drop_job-Mirrors :
        (name : List ℕ) (s : Scheduler G F)
        → Mirrors s
        → Mirrors (drop_job gocron differ duration_of name s)
    drop_job-Mirrors name s m tag =
        let r = laws.removes name tag s.ns in
        let c = texts_delete name tag s.config_map in
        let j = texts_delete name tag s.job_map in
        let h = m tag in (ground (arith, h.0), ground (arith, h.1))

    -- A name without a job gets the job that was created, or nothing.
    record_job-Mirrors :
        (name : List ℕ) (seconds : F) (r : Bool × G) (s : Scheduler G F)
        → Mirrors s
        → has name s.job_map ≡ false
        → ((tag : List ℕ)
            → jobs tag r.1 ≡ (
                if r.0 && codes_eq name tag
                then jobs tag s.ns ++ interval_of gocron differ duration_of seconds ∷ []
                else jobs tag s.ns))
        → Mirrors (record_job gocron differ duration_of name seconds r s)
    record_job-Mirrors name seconds (false, ns) s m free added tag =
        let h = m tag in let a = added tag in (ground arith, h.1)
    record_job-Mirrors name seconds (true, ns) s m free added tag =
        let h = m tag in
        let a = added tag in
        let c = texts_insert name tag seconds s.config_map in
        let j = texts_insert name tag tt s.job_map in
        elim (Bool-cases (codes_eq name tag)) [
          | inr other ↦ (ground (arith, h.0), ground (arith, h.1))
          | inl same ↦
              let unused : has tag s.job_map ≡ false =
                ap (λ n. has n s.job_map) (sym (eq_of_codes_eq name tag same)) ∙ free in
              (ground (arith, h.0, h.1), ground (arith, h.1))
        ]

    create_job-Mirrors :
        (name : List ℕ) (seconds : F) (s : Scheduler G F)
        → Mirrors s
        → has name s.job_map ≡ false
        → Mirrors (create_job gocron differ duration_of name seconds s)
    unfolding create_job
    create_job-Mirrors name seconds s m free =
        record_job-Mirrors name seconds _ s m free (λ tag. laws.adds _ name tag s.ns)

    dropped :
        (name : List ℕ) (s : Scheduler G F)
        → has name (drop_job gocron differ duration_of name s).job_map ≡ false
    dropped name s = let j = texts_delete name name s.job_map in ground (arith, codes_eq_refl name)

    pub update_job-Mirrors :
        (name : List ℕ) (seconds : F) (s : Scheduler G F)
        → Mirrors s
        → Mirrors (update_job gocron differ duration_of name seconds s)
    unfolding update_job
    update_job-Mirrors name seconds s m =
        elim (Bool-cases (needs_update gocron differ duration_of name seconds s)) [
          | inl update ↦
              rw update
                (create_job-Mirrors name seconds _ (drop_job-Mirrors name s m) (dropped name s))
          | inr current ↦ elim (Bool-cases (has name s.job_map)) [
            | inl running ↦ rw (current, running) m
            | inr free ↦ rw (current, free) (create_job-Mirrors name seconds s m free)
          ]
        ]

    pub update_known-Mirrors :
        (o : Option Job) (name : List ℕ) (seconds : F) (s : Scheduler G F)
        → Mirrors s
        → Mirrors (update_known gocron differ duration_of o name seconds s)
    unfolding update_known
    update_known-Mirrors none name seconds s m = m
    update_known-Mirrors (some job) name seconds s m = update_job-Mirrors name seconds s m

    schedule-Mirrors :
        (configs : List (BotScheduleConfig F)) (s : Scheduler G F)
        → Mirrors s
        → Mirrors (schedule gocron differ duration_of configs s)
    unfolding schedule
    schedule-Mirrors [] s m = m
    schedule-Mirrors (c ∷ configs) s m =
        schedule-Mirrors configs _ (
          update_known-Mirrors (get_handle_func c.module_name c.task_name) _ c.interval_seconds s m)

    pub remove_disabled-Mirrors :
        {V : Type 0} (wanted : List (List ℕ × V)) (names : List (List ℕ)) (s : Scheduler G F)
        → Mirrors s
        → Mirrors (remove_disabled gocron differ duration_of wanted names s)
    unfolding remove_disabled
    remove_disabled-Mirrors wanted [] s m = m
    remove_disabled-Mirrors wanted (name ∷ names) s m =
        remove_disabled-Mirrors wanted names _
          (Mirrors-if (has name wanted) s _ m (drop_job-Mirrors name s m))

    pub start-Mirrors :
        (s : Scheduler G F) → Mirrors s → Mirrors (start gocron differ duration_of s)
    start-Mirrors s m =
        Mirrors-if s.started s _ m (λ tag. (laws.starts tag s.ns ∙ (m tag).0, (m tag).1))

    -- `Handle` keeps the running jobs and both maps in step, whichever rows the database gives, if any,
    -- and whichever jobs gocron refuses.
    pub handle-Mirrors :
        (ids : List ℕ) (table : Option (List (BotScheduleConfig F))) (s : Scheduler G F)
        → Mirrors s
        → Mirrors (handle gocron differ duration_of ids table s)
    unfolding handle handle_configs get_all_configs
    handle-Mirrors ids none s m = start-Mirrors s m
    handle-Mirrors ids (some table) s m =
        let configs = select (selected ids) table in
        let kept =
          remove_disabled-Mirrors (configs_by_name gocron differ duration_of configs [])
            (keys codes_eq (start gocron differ duration_of s).job_map) _ (start-Mirrors s m) in
        Mirrors-if (length configs == 0 || length configs == 0) _ _ kept
          (schedule-Mirrors configs _ kept)

    remove_all_jobs :
        (names : List (List ℕ)) (tag : List ℕ) (g : G)
        → jobs tag (remove_all gocron differ duration_of names g)
          ≡ (if mem_key codes_eq tag names then [] else jobs tag g)
    unfolding remove_all mem_key
    remove_all_jobs [] tag g = refl
    remove_all_jobs (name ∷ names) tag g =
        let r = laws.removes name tag g in
        let ih = remove_all_jobs names tag (gocron.remove_by_tags name g) in ground arith

    -- After `Stop` no job runs and the maps are empty.
    pub stop-Mirrors :
        (s : Scheduler G F)
        → Mirrors s
        → (tag : List ℕ) → jobs tag (stop gocron differ duration_of s).ns ≡ []
    unfolding stop
    stop-Mirrors s m tag = elim (Bool-cases (mem_key codes_eq tag (keys codes_eq s.job_map))) [
      | inl running ↦
          laws.stops tag _ ∙ remove_all_jobs (keys codes_eq s.job_map) tag s.ns ∙ rw running refl
      | inr absent ↦
          let no_job = lookup_absent codes_eq tag s.job_map absent in
          let h = m tag in
          let none_left : jobs tag s.ns ≡ [] = ground (arith, h.0, h.1) in
          laws.stops tag _
          ∙ remove_all_jobs (keys codes_eq s.job_map) tag s.ns
          ∙ rw absent none_left
    ]
