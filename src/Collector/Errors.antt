-- ===== src/Collector/Errors.antt =====
-- What a scrape does to the counters of errors, and what it sends (collector/process_collector.go).
use process_exporter.Prelude.{
  ◌≡◌, ◌↔◌, refl, ℕ, Bool, true, Option, none, some, some_inj, List, [], ◌∷◌, ◌++◌, Text, Map, get,
  bytes_eq, Float64, add64, IsIn, Any-append, inl, inr, sym, ap, ◌∙◌, Bool-cases, ◌==◌, subst,
}
use process_exporter.Proc.Types.{Iter}
use process_exporter.Proc.Tracker.Defs.{CollectErrors}
use process_exporter.Proc.Tracker.Scan
use process_exporter.Proc.Tracker.Cycle.{Env, update_all, finish_cycle}
use process_exporter.Proc.Grouper.Group.{Group}
use process_exporter.Proc.Grouper.Defs.{Grouper, update_groups}
use process_exporter.Collector.Metric.{Metric, gauge_value}
use process_exporter.Collector.ProcessDescs
use process_exporter.Collector.Families.{CgroupCollector}
use process_exporter.Collector.Scrape.{
  NamedProcessCollector, if_cgroup, scraped, float_of, counts_metrics, scrape_group, error_metrics,
  cgroups_end, scrape_groups, finish_scrape, scrape,
}
use process_exporter.Collector.Failures.{IsSentOnFailure, IsIn-failed}

IsIn-left : {A : Type 0} (x : A) (xs ys : List A) → IsIn x xs → IsIn x (xs ++ ys)
IsIn-left x xs ys i = (Any-append (λ y. y ≡ x) xs ys).1 (inl i)

module _ {F : Type 0} ⦃fl : Float64 F⦄ where
  -- An iterator that fails makes the whole `Update` fail.
  update_groups-close_fails :
      (fuel : ℕ) (env : Env) (iter : Iter F) (g : Grouper F)
      → iter.close_fails ≡ true
      → (g' : Grouper F) × (errs : CollectErrors) × (update_groups fuel env iter g
          ≡ some (g', errs, none))
  unfolding update_groups update_all finish_cycle Scan.update Scan.finish_update
  update_groups-close_fails fuel env iter g e = rw e (_, _, refl)

  -- If closing the iterator fails, the update of the groups fails, and yet the scrape ends: it
  -- counts one scrape error and the soft errors of the scan, and sends exactly the counters of
  -- errors with their new values and, where there is a cgroup collector, the metrics of the cgroups
  -- that the configured paths select and the counters of skipped cgroups and dropped patterns.
  pub failed_scrape_sends_errors :
      (fuel : ℕ) (env : Env) (iter : Iter F) (p : NamedProcessCollector F)
      → iter.close_fails ≡ true
      → (g : Grouper F) × (errs : CollectErrors) × (p' : NamedProcessCollector F) × (ms : List
          (Metric F))
        × (update_groups fuel env iter p.grouper ≡ some (g, errs, none))
        × (scrape fuel env iter p ≡ some (p', ms))
        × (p'.scrape_errors ≡ add64 p.scrape_errors 1)
        × (p'.scrape_partial_errors ≡ add64 p.scrape_partial_errors errs.partial)
        × ((m : Metric F) → IsIn m ms ↔ IsSentOnFailure p errs m)
  unfolding scrape finish_scrape error_metrics
  failed_scrape_sends_errors fuel env iter p e =
      let (g, errs, u) = update_groups-close_fails fuel env iter p.grouper e in
      let done = finish_scrape p (g, errs, none) in
      (g, errs, done.0, done.1, u, ap (scraped p) u, refl, refl, IsIn-failed p errs)

  finish_scrape-read_errors :
      (p : NamedProcessCollector F)
      (updated : Grouper F × CollectErrors × Option (Map Text (Group F)))
      → (finish_scrape p updated).0.scrape_proc_read_errors ≡ p.scrape_proc_read_errors
  unfolding finish_scrape
  finish_scrape-read_errors p (g, errs, none) = refl
  finish_scrape-read_errors p (g, errs, some groups) = refl

  scraped-read_errors :
      (p p' : NamedProcessCollector F) (ms : List (Metric F))
      (u : Option (Grouper F × CollectErrors × Option (Map Text (Group F))))
      → scraped p u ≡ some (p', ms)
      → p'.scrape_proc_read_errors ≡ p.scrape_proc_read_errors
  scraped-read_errors p p' ms none e = cc
  scraped-read_errors p p' ms (some updated) e =
      sym (ap (λ done. done.0.scrape_proc_read_errors) (some_inj e))
      ∙ finish_scrape-read_errors p updated

  -- No scrape changes the counter of failed reads, whatever reads fail during it.
  pub read_errors_frozen :
      (fuel : ℕ) (env : Env) (iter : Iter F) (p p' : NamedProcessCollector F) (ms : List (Metric F))
      → scrape fuel env iter p ≡ some (p', ms)
      → p'.scrape_proc_read_errors ≡ p.scrape_proc_read_errors
  unfolding scrape
  read_errors_frozen fuel env iter p p' ms e =
      scraped-read_errors p p' ms (update_groups fuel env iter p.grouper) e

  -- The number of processes of a group, as it is sent.
  abbrev pub num_procs_metric : Text → Group F → Metric F
  num_procs_metric gname grp = record {
    desc = ProcessDescs.num_procs_desc;
    value_type = gauge_value;
    value = float_of grp.procs;
    label_values = gname ∷ [];
  }

  same_metric :
      (name gname : Text) (first grp : Group F)
      → name ≡ gname
      → first ≡ grp
      → num_procs_metric name first ≡ num_procs_metric gname grp
  same_metric name gname first grp e k = rw (e, k) refl

  num_procs-IsIn :
      (smaps threads : Bool) (gname : Text) (grp : Group F) (cgroup : Option (CgroupCollector F))
      → IsIn (num_procs_metric gname grp) (scrape_group smaps threads gname grp cgroup).1
  unfolding scrape_group counts_metrics
  num_procs-IsIn smaps threads gname grp cgroup = inl refl

  groups-IsIn :
      (smaps threads : Bool) (groups : Map Text (Group F)) (cgroup : Option (CgroupCollector F))
      (gname : Text) (grp : Group F)
      → get gname groups ≡ some grp
      → IsIn (num_procs_metric gname grp) (scrape_groups smaps threads groups cgroup).1
  unfolding scrape_groups get
  groups-IsIn smaps threads [] cgroup gname grp e = cc
  groups-IsIn smaps threads ((other, first) ∷ groups) cgroup gname grp e =
      let both =
        Any-append (λ y. y ≡ num_procs_metric gname grp)
          (scrape_group smaps threads other first cgroup).1
          (scrape_groups smaps threads groups
            (scrape_group smaps threads other first cgroup).0).1 in
      elim (Bool-cases (other == gname)) [
        | inl same ↦ both.1 (
            inl (
              subst (λ m. IsIn m (scrape_group smaps threads other first cgroup).1)
                (same_metric other gname first grp ((bytes_eq.equal_iff other gname).0 same)
                  (some_inj (rw same at e)))
                (num_procs-IsIn smaps threads other first cgroup)))
        | inr differs ↦ both.1 (
            inr (
              groups-IsIn smaps threads groups (scrape_group smaps threads other first cgroup).0
                gname grp (rw differs at e)))
      ]

  -- If the update of the groups succeeds, the scrape ends, counts no scrape error, and sends for
  -- each group that the update returns the number of its processes under the name of the group.
  pub groups_all_sent :
      (fuel : ℕ) (env : Env) (iter : Iter F) (p : NamedProcessCollector F) (g : Grouper F)
      (errs : CollectErrors) (groups : Map Text (Group F))
      → update_groups fuel env iter p.grouper ≡ some (g, errs, some groups)
      → (p' : NamedProcessCollector F) × (ms : List (Metric F)) × (scrape fuel env iter p
          ≡ some (p', ms))
        × (p'.grouper ≡ g)
        × (p'.scrape_errors ≡ p.scrape_errors)
        × (p'.scrape_partial_errors ≡ add64 p.scrape_partial_errors errs.partial)
        × ((gname : Text) (grp : Group F)
            → get gname groups ≡ some grp
            → IsIn (num_procs_metric gname grp) ms)
  unfolding scrape finish_scrape
  groups_all_sent fuel env iter p g errs groups u =
      let done = finish_scrape p (g, errs, some groups) in
      let ms = (scrape_groups p.smaps p.threads groups p.cgroup).1 in
      let errors = error_metrics (record p {
        grouper = g;
        scrape_partial_errors = add64 p.scrape_partial_errors errs.partial;
      }) in
      let end = (if_cgroup (scrape_groups p.smaps p.threads groups p.cgroup).0 cgroups_end).1 in
      (
        done.0,
        done.1,
        ap (scraped p) u,
        refl,
        refl,
        refl,
        λ gname grp e. IsIn-left (num_procs_metric gname grp) (ms ++ errors) end (
            IsIn-left (num_procs_metric gname grp) ms errors
              (groups-IsIn p.smaps p.threads groups p.cgroup gname grp e)),
      )
