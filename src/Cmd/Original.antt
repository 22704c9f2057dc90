-- ===== src/Cmd/Original.antt =====
-- Without the cgroup flags (cmd/process-exporter/main.go) the collector (collector/process_collector.go)
-- sends what it sent before there were any.
use process_exporter.Prelude.{
  ◌≡◌, refl, sym, ap, ◌∙◌, ℕ, false, Bool-cases, inl, inr, Option, none, some, some_inj, List, ◌++◌,
  append-nil, subst, Float64, IsIn, Every, Every-map, Map, Text, arith,
}
use process_exporter.Proc.Types.{Iter, MatchNamer}
use process_exporter.Proc.Tracker.Defs.{CollectErrors}
use process_exporter.Proc.Tracker.Cycle.{Env}
use process_exporter.Proc.Grouper.Group.{Group}
use process_exporter.Proc.Grouper.Defs.{Grouper, update_groups}
use process_exporter.Config.Matchers.{Engine}
use process_exporter.Config.Settings.{CgroupConfig}
use process_exporter.Collector.Metric.{Metric}
use process_exporter.Collector.ProcessDescs
use process_exporter.Collector.Scrape.{
  ProcessCollectorOption, NamedProcessCollector, after_first, after_update, start_collector,
  new_process_collector, scrape, describe, started, if_some_cgroup,
}
use process_exporter.Collector.Announced.Scraped.{scrape_is_announced}
use process_exporter.Cmd.Options.{
  Flags, Surroundings, wants_cgroups, options_for, select, configure,
}

module _ {F : Type 0} ⦃fl : Float64 F⦄ where
  after_first-cgroup :
      (p q : NamedProcessCollector F) (u : Grouper F × CollectErrors × Option (Map Text (Group F)))
      → after_first p u ≡ some q
      → q.cgroup ≡ p.cgroup
  after_first-cgroup p q (g, errs, none) e = cc
  after_first-cgroup p q (g, errs, some groups) e = sym (ap (λ made. made.cgroup) (some_inj e))

  after_update-cgroup :
      (p q : NamedProcessCollector F)
      (u : Option (Grouper F × CollectErrors × Option (Map Text (Group F))))
      → after_update p u ≡ some (some q)
      → q.cgroup ≡ p.cgroup
  after_update-cgroup p q none e = cc
  after_update-cgroup p q (some u) e = after_first-cgroup p q u (some_inj e)

  started-cgroup :
      (fuel : ℕ) (env : Env) (iter : Iter F) (options : ProcessCollectorOption)
      (p : NamedProcessCollector F)
      → started fuel env iter options (some none) ≡ some (some p)
      → p.cgroup ≡ none
  unfolding started start_collector
  started-cgroup fuel env iter options p e =
      after_update-cgroup (start_collector options none) p
        (update_groups fuel env iter (start_collector {F = F} options none).grouper) e

  new_process_collector-cgroup :
      (fuel : ℕ) (env : Env) (iter : Iter F) (options : ProcessCollectorOption)
      (p : NamedProcessCollector F)
      → options.cgroup ≡ none
      → new_process_collector fuel env iter options ≡ some (some p)
      → p.cgroup ≡ none
  unfolding new_process_collector
  new_process_collector-cgroup fuel env iter options p off e = elim (Bool-cases options.fs_opens) [
    | inl opens ↦ started-cgroup fuel env iter options p (rw (off, opens) at e)
    | inr fails ↦ ground (arith, rw fails at e)
  ]

module _ {R T : Type 0} (engine : Engine R T) where
  options_for-cgroup :
      (flags : Flags) (around : Surroundings) (selected : Option (MatchNamer × CgroupConfig))
      (options : ProcessCollectorOption)
      → wants_cgroups flags ≡ false
      → options_for engine flags around selected ≡ some options
      → options.cgroup ≡ none
  options_for-cgroup flags around none options off e = cc
  options_for-cgroup flags around (some (namer, settings)) options off e =
      sym (ap (λ o. o.cgroup) (some_inj e)) ∙ rw off refl

module _ {R T F : Type 0} ⦃fl : Float64 F⦄ (engine : Engine R T) where
  -- Without a cgroup flag, whatever the other flags and the configuration file are, the collector that
  -- the program makes sends no metric but those of the processes and of the scrape itself.
  pub only_original_metrics :
      (flags : Flags) (around : Surroundings) (options : ProcessCollectorOption) (fuel fuel' : ℕ)
      (env env' : Env) (iter iter' : Iter F) (p p' : NamedProcessCollector F) (ms : List (Metric F))
      → wants_cgroups flags ≡ false
      → configure engine flags around ≡ some options
      → new_process_collector fuel env iter options ≡ some (some p)
      → scrape fuel' env' iter' p ≡ some (p', ms)
      → Every (λ m. IsIn m.desc ProcessDescs.process_descs) ms
  unfolding configure describe
  only_original_metrics flags around options fuel fuel' env env' iter iter' p p' ms off c e k =
      let cgroup =
        new_process_collector-cgroup fuel env iter options p
          (options_for-cgroup engine flags around (select engine flags around) options off c) e in
      Every-map
        (λ m h.
          subst (λ ds. IsIn m.desc ds)
            (ap (λ o. ProcessDescs.process_descs ++ if_some_cgroup o) cgroup
              ∙ append-nil ProcessDescs.process_descs)
            h.1)
        (scrape_is_announced fuel' env' iter' p p' ms k)
