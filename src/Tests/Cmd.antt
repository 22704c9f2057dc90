-- ===== src/Tests/Cmd.antt =====
-- The theorems on the command line at concrete inputs.
use process_exporter.Prelude.{
  ℕ, ◌≡◌, ◌≢◌, ◌↔◌, ◌⊎◌, refl, true, false, Option, none, some, List, [], ◌∷◌, Text, bytes, pos,
  get, bytes_eq, put, IsIn, Every,
}
use process_exporter.Proc.Types.{ProcAttributes, id_beq, Iter}
use process_exporter.Proc.Tracker.Cycle.{update_all, lookup_uid}
use process_exporter.Proc.Tracker.Scan.{update, handle_proc}
use process_exporter.Proc.Tracker.Defs.{update_proc, track}
use process_exporter.Proc.Tracker.Ancestry.{check_ancestry, parent_id}
use process_exporter.Collector.Scrape.{
  new_process_collector, scrape, ProcessCollectorOption, NamedProcessCollector, start_collector,
}
use process_exporter.Cmd.NameMapper.{
  map_name, list_names, PrefixRegex, NameMapper, mapped, split_commas, parse_name_mapper, name_from,
}
use process_exporter.Config.Matchers.{Engine, join_words}
use process_exporter.Collector.Metric.{Metric}
use process_exporter.Collector.ProcessDescs
use process_exporter.Cmd.Listed.{
  AreAccepted, parse_name_mapper_accepts, mapped_name_ignores_list, listed_name_is_tracked,
}
use process_exporter.Cmd.Options.{Flags, Surroundings, configure}
use process_exporter.Cmd.Original.{only_original_metrics}
use process_exporter.Tests.Data.{proc_of, nat_float, two_procs, env_at}

-- Every text is an expression, which captures the whole line.
abbrev engine : Engine Text Text
engine = record {
  compile = λ s. some s;
  find_submatch = λ r s. some (s ∷ s ∷ []);
  subexp_names = λ r. [];
  base = λ s. s;
  parse_template = λ s. some s;
  execute = λ t params. t;
}

parse_name_mapper_accepts_example :
    ((m : NameMapper Text) × (parse_name_mapper engine (bytes "upstart,(--user)") ≡ mapped m)) ↔ (
      (bytes "upstart,(--user)" ≡ [])
      ⊎ AreAccepted engine (split_commas (bytes "upstart,(--user)")))
parse_name_mapper_accepts_example = parse_name_mapper_accepts engine (bytes "upstart,(--user)")

abbrev upstart : PrefixRegex Text
upstart = record { prefix = bytes "upstart:"; regex = bytes "(--user)" }

abbrev mapper : NameMapper Text
mapper = (bytes "upstart", some upstart) ∷ []

abbrev attrs_of : Text → ProcAttributes
attrs_of name = record {
  name = name;
  cmdline = bytes "--system" ∷ [];
  cgroups = [];
  username = [];
  pid = 3;
  start_time = 0;
}

-- "upstart:--system" is not listed, and yet the process is named.
mapped_name_ignores_list_example :
    map_name engine
      (list_names (bytes "bash" ∷ bytes "upstart:--user" ∷ []) mapper)
      (attrs_of (bytes "upstart"))
    ≡ (true, bytes "upstart:--system")
unfolding get name_from join_words
mapped_name_ignores_list_example =
    mapped_name_ignores_list engine (bytes "bash" ∷ bytes "upstart:--user" ∷ []) mapper
      (attrs_of (bytes "upstart")) upstart refl

listed_name_is_tracked_example :
    ((bytes "bash" ≢ [])
      → IsIn (bytes "bash") (bytes "bash" ∷ [])
      → map_name engine (list_names (bytes "bash" ∷ []) mapper) (attrs_of (bytes "bash"))
        ≡ (true, bytes "bash"))
    × (¬ IsIn (bytes "bash") (bytes "bash" ∷ [])
        → map_name engine (list_names (bytes "bash" ∷ []) mapper) (attrs_of (bytes "bash"))
          ≡ (false, []))
unfolding get
listed_name_is_tracked_example =
    listed_name_is_tracked engine (bytes "bash" ∷ []) mapper (attrs_of (bytes "bash")) refl

abbrev flags : Flags
flags = record {
  proc_names = bytes "worker";
  name_mapping = [];
  children = true;
  threads = true;
  smaps = false;
  config_path = [];
  recheck = false;
  recheck_time_limit = pos 0;
  remove_empty_groups = false;
  cgroup_psi = false;
  cgroup_memory = false;
  cgroup_cpu = false;
  cgroup_pids = false;
  cgroup_io = false;
}

abbrev around : Surroundings
around = record { config_file = none; fs_opens = true; cgroup_root = none }

abbrev some_options : Option ProcessCollectorOption → ProcessCollectorOption
some_options (some o) = o
some_options none = record {
  fs_opens = true;
  children = false;
  threads = false;
  gather_smaps = false;
  namer = λ attrs. (false, []);
  recheck = false;
  recheck_time_limit = pos 0;
  remove_empty_groups = false;
  cgroup = none;
}

abbrev options : ProcessCollectorOption
options = some_options (configure engine flags around)

abbrev no_procs : Iter ℕ
no_procs = record two_procs { procs = [] }

abbrev one_proc : Iter ℕ
one_proc = record two_procs { procs = proc_of 10 1 ∷ [] }

abbrev some_collector : Option (Option (NamedProcessCollector ℕ)) → NamedProcessCollector ℕ
some_collector (some (some p)) = p
some_collector _ = start_collector options none

abbrev collector : NamedProcessCollector ℕ
collector = some_collector (new_process_collector 3 (env_at 50) no_procs options)

abbrev some_scrape :
    Option (NamedProcessCollector ℕ × List (Metric ℕ)) → NamedProcessCollector ℕ × List (Metric ℕ)
some_scrape (some done) = done
some_scrape none = (collector, [])

abbrev scraped_then : NamedProcessCollector ℕ × List (Metric ℕ)
scraped_then = some_scrape (scrape 3 (env_at 60) one_proc collector)

configured : configure engine flags around ≡ some options
unfolding configure
configured = refl

collector_made : new_process_collector 3 (env_at 50) no_procs options ≡ some (some collector)
unfolding configure new_process_collector update_all update handle_proc get lookup_uid put map_name
    list_names track
collector_made = refl

scraped_again : scrape 3 (env_at 60) one_proc collector ≡ some (scraped_then.0, scraped_then.1)
unfolding configure scrape new_process_collector update_all update handle_proc get lookup_uid put
    map_name list_names track id_beq update_proc check_ancestry parent_id
scraped_again = refl

only_original_metrics_example : Every (λ m. IsIn m.desc ProcessDescs.process_descs) scraped_then.1
only_original_metrics_example =
    only_original_metrics engine flags around options 3 3 (env_at 50) (env_at 60) no_procs one_proc
      collector scraped_then.0 scraped_then.1 refl configured collector_made scraped_again
