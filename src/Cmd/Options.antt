-- ===== src/Cmd/Options.antt =====
-- cmd/process-exporter/main.go: from the flags to the options of the collector. `none` is a call of
-- `log.Fatalf`. The namer of a configuration file is a parameter, like the file.
use process_exporter.Prelude.{
  Bool, true, not, ◌||◌, Option, none, some, [], Text, ℤ, pos, is_zero, is_empty, if◌then◌else◌,
}
use process_exporter.Proc.Types.{MatchNamer}
use process_exporter.Cgroup.Reader.{Root}
use process_exporter.Config.Matchers.{Engine}
use process_exporter.Config.Settings.{CgroupConfig}
use process_exporter.Collector.Cgroups.{CgroupCollectorOption}
use process_exporter.Collector.Scrape.{ProcessCollectorOption}
use process_exporter.Cmd.NameMapper.{
  NameMapper, Mapped, mapped, refused, split_commas, parse_name_mapper, map_name, list_names,
}

-- The flags that reach the collector.
pub record Flags : Type 0 where
  pub proc_names : Text
  pub name_mapping : Text
  pub children : Bool
  pub threads : Bool
  pub smaps : Bool
  pub config_path : Text
  pub recheck : Bool
  pub recheck_time_limit : ℤ
  pub remove_empty_groups : Bool
  pub cgroup_psi : Bool
  pub cgroup_memory : Bool
  pub cgroup_cpu : Bool
  pub cgroup_pids : Bool
  pub cgroup_io : Bool

-- What the program finds: the answer of `config.ReadFile`, whether the path of the process file system
-- can be opened, and the root of the cgroup file system.
pub record Surroundings : Type 0 where
  pub config_file : Option (MatchNamer × CgroupConfig)
  pub fs_opens : Bool
  pub cgroup_root : Option Root

abbrev pub zero_cgroup_config : CgroupConfig
zero_cgroup_config = record {
  psi_windows = [];
  memory_stat_fields = [];
  paths = [];
  max_paths = pos 0;
}

abbrev pub names_any : Flags → Bool
names_any flags = not (is_empty flags.name_mapping) || not (is_empty flags.proc_names)

abbrev pub wants_cgroups : Flags → Bool
wants_cgroups flags =
    flags.cgroup_psi || flags.cgroup_memory || flags.cgroup_cpu || flags.cgroup_pids
    || flags.cgroup_io

module _ {R T : Type 0} (engine : Engine R T) where
  abbrev pub namer_of_mapper : Text → Mapped (NameMapper R) → Option (MatchNamer × CgroupConfig)
  namer_of_mapper names (refused e) = none
  namer_of_mapper names (mapped m) =
      some (map_name engine (list_names (split_commas names) m), zero_cgroup_config)

  -- The namer and the cgroup settings.
  unfoldable pub select : Flags → Surroundings → Option (MatchNamer × CgroupConfig)
  unfolding parse_name_mapper
  select flags around =
      let from_flags =
        namer_of_mapper flags.proc_names (parse_name_mapper engine flags.name_mapping) in
      if is_empty flags.config_path
      then from_flags
      else if names_any flags
      then none
      else around.config_file

  abbrev pub cgroup_option : Flags → Surroundings → CgroupConfig → CgroupCollectorOption
  cgroup_option flags around settings = record {
    opened = around.cgroup_root;
    psi = flags.cgroup_psi;
    memory = flags.cgroup_memory;
    cpu = flags.cgroup_cpu;
    pids = flags.cgroup_pids;
    io = flags.cgroup_io;
    config = settings;
  }

  abbrev pub options_for :
      Flags → Surroundings → Option (MatchNamer × CgroupConfig) → Option ProcessCollectorOption
  options_for flags around none = none
  options_for flags around (some (namer, settings)) = some (record {
    fs_opens = around.fs_opens;
    children = flags.children;
    threads = flags.threads;
    gather_smaps = flags.smaps;
    namer = namer;
    recheck = if is_zero flags.recheck_time_limit then flags.recheck else true;
    recheck_time_limit = flags.recheck_time_limit;
    remove_empty_groups = flags.remove_empty_groups;
    cgroup = if wants_cgroups flags then some (cgroup_option flags around settings) else none;
  })

  -- The part of `main` between `flag.Parse` and `NewProcessCollector`.
  unfoldable pub configure : Flags → Surroundings → Option ProcessCollectorOption
  unfolding select
  configure flags around = options_for flags around (select flags around)
