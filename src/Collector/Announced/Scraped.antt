-- ===== src/Collector/Announced/Scraped.antt =====
-- What a whole scrape sends is announced (collector/process_collector.go, `scrape`).
use process_exporter.Prelude.{
  ℕ, ◌≡◌, Option, some, List, [], ◌∷◌, Text, Map, Float64, IsIn, Every, nil, Every-map, none,
  Every-append, Bool, subst, some_inj, add64,
}
use process_exporter.Proc.Grouper.Group.{Group}
use process_exporter.Collector.Metric.{Metric, IsLabelled}
use process_exporter.Collector.Families.{CgroupCollector}
use process_exporter.Collector.Labels.{Every-when}
use process_exporter.Collector.Cgroups.{collect_group}
use process_exporter.Proc.Types.{Iter}
use process_exporter.Proc.Tracker.Defs.{CollectErrors}
use process_exporter.Proc.Tracker.Cycle.{Env}
use process_exporter.Proc.Grouper.Defs.{Grouper, update_groups}
use process_exporter.Collector.Scrape.{
  if_cgroup, scrape_group, scrape_groups, cgroups_end, finish_scrape, scraped, scrape, describe,
  NamedProcessCollector,
}
use process_exporter.Collector.Announced.{
  IsAnnounced, counts_metrics-IsAnnounced, wchan_metrics-IsAnnounced, smaps_metrics-IsAnnounced,
  threads_metrics-IsAnnounced, error_metrics-IsAnnounced,
}
use process_exporter.Collector.Announced.Cgroups.{
  collect_group-IsAnnounced, cgroups_end-IsAnnounced, moved,
}

module _ {F : Type 0} ⦃fl : Float64 F⦄ where
  -- The collector that a step leaves is there if and only if there was one.
  pub data AreAlike : Option (CgroupCollector F) → Option (CgroupCollector F) → Type 0 where
    absent : AreAlike none none
    present : (c c' : CgroupCollector F) → AreAlike (some c) (some c')

  across :
      {cgroup cgroup' : Option (CgroupCollector F)} {ms : List (Metric F)}
      → AreAlike cgroup cgroup'
      → Every (IsAnnounced cgroup') ms
      → Every (IsAnnounced cgroup) ms
  across absent h = h
  across (present c c') h = moved c' c h

  alike_refl : (cgroup : Option (CgroupCollector F)) → AreAlike cgroup cgroup
  alike_refl none = absent
  alike_refl (some c) = present c c

  alike_trans : {a b c : Option (CgroupCollector F)} → AreAlike a b → AreAlike b c → AreAlike a c
  alike_trans absent h = h
  alike_trans (present c c') (present _ c'') = present c c''

  if_cgroup-IsAnnounced :
      (cgroup : Option (CgroupCollector F))
      (run : CgroupCollector F → CgroupCollector F × List (Metric F))
      → ((c : CgroupCollector F) → Every (IsAnnounced (some c)) (run c).1)
      → Every (IsAnnounced cgroup) (if_cgroup cgroup run).1
        × AreAlike cgroup (if_cgroup cgroup run).0
  if_cgroup-IsAnnounced none run h = (nil, absent)
  if_cgroup-IsAnnounced (some c) run h = (h c, present c (run c).0)

  scrape_group-IsAnnounced :
      (smaps threads : Bool) (gname : Text) (grp : Group F) (cgroup : Option (CgroupCollector F))
      → Every (IsAnnounced cgroup) (scrape_group smaps threads gname grp cgroup).1
        × AreAlike cgroup (scrape_group smaps threads gname grp cgroup).0
  unfolding scrape_group
  scrape_group-IsAnnounced smaps threads gname grp cgroup =
      let (ours, alike) =
        if_cgroup-IsAnnounced cgroup (λ c. collect_group c gname grp)
          (λ c. collect_group-IsAnnounced c gname grp) in
      (
        Every-append
            (Every-append
              (Every-append
                (Every-append (counts_metrics-IsAnnounced cgroup gname grp)
                  (wchan_metrics-IsAnnounced cgroup gname grp.wchans))
                ours)
              (Every-when _ (smaps_metrics-IsAnnounced cgroup gname grp)))
            (Every-when _ (threads_metrics-IsAnnounced cgroup gname grp.threads)),
        alike,
      )

  scrape_groups-IsAnnounced :
      (smaps threads : Bool) (groups : Map Text (Group F)) (cgroup : Option (CgroupCollector F))
      → Every (IsAnnounced cgroup) (scrape_groups smaps threads groups cgroup).1
        × AreAlike cgroup (scrape_groups smaps threads groups cgroup).0
  unfolding scrape_groups
  scrape_groups-IsAnnounced smaps threads [] cgroup = (nil, alike_refl cgroup)
  scrape_groups-IsAnnounced smaps threads ((gname, grp) ∷ groups) cgroup =
      let (first, alike) = scrape_group-IsAnnounced smaps threads gname grp cgroup in
      let (rest, alike') =
        scrape_groups-IsAnnounced smaps threads groups
          (scrape_group smaps threads gname grp cgroup).0 in
      (Every-append first (across alike rest), alike_trans alike alike')

  finish_scrape-IsAnnounced :
      (p : NamedProcessCollector F)
      (updated : Grouper F × CollectErrors × Option (Map Text (Group F)))
      → Every (IsAnnounced p.cgroup) (finish_scrape p updated).1
  unfolding finish_scrape
  finish_scrape-IsAnnounced p (g, errs, none) =
      Every-append
        (error_metrics-IsAnnounced p.cgroup (record p {
          grouper = g;
          scrape_partial_errors = add64 p.scrape_partial_errors errs.partial;
          scrape_errors = add64 p.scrape_errors 1;
        }))
        (if_cgroup-IsAnnounced p.cgroup cgroups_end cgroups_end-IsAnnounced).0
  finish_scrape-IsAnnounced p (g, errs, some groups) =
      let (sent, alike) = scrape_groups-IsAnnounced p.smaps p.threads groups p.cgroup in
      Every-append
        (Every-append sent (
          error_metrics-IsAnnounced p.cgroup (record p {
            grouper = g;
            scrape_partial_errors = add64 p.scrape_partial_errors errs.partial;
          })))
        (across alike
          (if_cgroup-IsAnnounced (scrape_groups p.smaps p.threads groups p.cgroup).0 cgroups_end
            cgroups_end-IsAnnounced).0)

  scraped-IsAnnounced :
      (p p' : NamedProcessCollector F) (ms : List (Metric F))
      (u : Option (Grouper F × CollectErrors × Option (Map Text (Group F))))
      → scraped p u ≡ some (p', ms)
      → Every (IsAnnounced p.cgroup) ms
  scraped-IsAnnounced p p' ms none e = cc
  scraped-IsAnnounced p p' ms (some updated) e =
      subst (λ done. Every (IsAnnounced p.cgroup) done.1) (some_inj e)
        (finish_scrape-IsAnnounced p updated)

  -- Every metric of a scrape has a value for each label of its descriptor, and its descriptor is one
  -- of those that `Describe` sends.
  pub scrape_is_announced :
      (fuel : ℕ) (env : Env) (iter : Iter F) (p p' : NamedProcessCollector F) (ms : List (Metric F))
      → scrape fuel env iter p ≡ some (p', ms)
      → Every (λ m. IsLabelled m × IsIn m.desc (describe p)) ms
  unfolding scrape describe
  scrape_is_announced fuel env iter p p' ms e =
      Every-map (λ m h. (h.labelled, h.announced))
        (scraped-IsAnnounced p p' ms (update_groups fuel env iter p.grouper) e)
