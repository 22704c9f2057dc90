-- ===== src/Proc/Procfs/Identity.antt =====
-- The identity of a process and its static details (proc/read.go, `GetProcID` and `GetStatic`).
use process_exporter.Prelude.{◌≡◌, refl, sym, ap, ◌∙◌, Option, none, some, List, Text, Time}
use process_exporter.Proc.Types.{ProcId, Static, Read, ok, err}
use process_exporter.Proc.Procfs.{
  Reply, got, failed, ProcStat, ProcStatus, Library, Fs, ProcCache, new_cache, cached_slice, kept,
  with_procid, id_from, get_stat, get_cmd_line, get_status, get_proc_id,
}
use process_exporter.Proc.Procfs.Details.{
  or_zero_value, zero_stat, static_status, static_stat, static_cmdline, start_time_of, get_static,
}

abbrev start_of : Read Static → Time
start_of (ok static) = static.start_time
start_of (err e) = 0

module _ {W H M : Type 0} (lib : Library W H M) (fs : Fs M) where
  -- The cache holds the reading from which the identity was made.
  abbrev HasIdentity : ProcCache H → ProcId → Type 0
  HasIdentity p id =
      (p.procid ≡ some id) × (stat : ProcStat) × (p.stat ≡ some stat) × (id ≡ id_from lib p stat)

  with_procid-HasIdentity :
      (h : H) (x : Reply ProcStat × W) (id : ProcId) (p : ProcCache H) (w : W)
      → with_procid lib (kept (λ s q. record q { stat = some s }) (new_cache h) x) ≡ (got id, p, w)
      → HasIdentity p id × (p.handle ≡ h)
  with_procid-HasIdentity h (failed e, w0) id p w e' = cc
  with_procid-HasIdentity h (got stat, w0) id p w e =
      let same : id_from lib (new_cache h) stat ≡ id =
        ap (λ r. or_zero_value (id_from lib (new_cache h) stat) r.0) e in
      let handle : h ≡ p.handle = ap (λ r. r.1.handle) e in
      (
        (
          sym (ap (λ r. r.1.procid) e) ∙ ap some same,
          stat,
          sym (ap (λ r. r.1.stat) e),
          sym same ∙ ap (λ x. record { pid = lib.pid x; start_time_rel = stat.starttime }) handle,
        ),
        sym handle,
      )

  static_status-start_time :
      (cmdline : Option (List Text)) (stat : ProcStat) (x : Reply ProcStatus × ProcCache H × W)
      (static : Static) (p : ProcCache H) (w : W)
      → static_status lib fs cmdline stat x ≡ (ok static, p, w)
      → static.start_time ≡ start_time_of fs.boot_time stat.starttime
  static_status-start_time cmdline stat (failed e, q, w0) static p w h = cc
  static_status-start_time cmdline stat (got status, q, w0) static p w h =
      sym (ap (λ r. start_of r.0) h)

  static_stat-start_time :
      (cmdline : Option (List Text)) (stat : ProcStat) (x : Reply ProcStat × ProcCache H × W)
      (static : Static) (p : ProcCache H) (w : W)
      → x.0 ≡ got stat
      → static_stat lib fs cmdline x ≡ (ok static, p, w)
      → static.start_time ≡ start_time_of fs.boot_time stat.starttime
  static_stat-start_time cmdline stat (failed e, q, w0) static p w known h = cc
  static_stat-start_time cmdline stat (got read, q, w0) static p w known h =
      static_status-start_time cmdline read (get_status lib q w0) static p w h
      ∙ ap (λ r. start_time_of fs.boot_time (or_zero_value zero_stat r).starttime) known

  get_stat-known :
      (p : ProcCache H) (stat : ProcStat) (w : W)
      → p.stat ≡ some stat
      → (get_stat lib p w).0 ≡ got stat
  unfolding get_stat
  get_stat-known p stat w known = rw known refl

  static_cmdline-start_time :
      (stat : ProcStat) (x : Reply (Option (List Text)) × ProcCache H × W) (static : Static)
      (p : ProcCache H) (w : W)
      → x.1.stat ≡ some stat
      → static_cmdline lib fs x ≡ (ok static, p, w)
      → static.start_time ≡ start_time_of fs.boot_time stat.starttime
  static_cmdline-start_time stat (failed e, q, w0) static p w known h = cc
  static_cmdline-start_time stat (got cmdline, q, w0) static p w known h =
      static_stat-start_time cmdline stat (get_stat lib q w0) static p w
        (get_stat-known q stat w0 known) h

  kept-stat :
      (p : ProcCache H) (x : Reply (Option (List Text)) × W)
      → (kept (λ s q. record q { cmdline = s }) p x).1.stat ≡ p.stat
  kept-stat p (got line, w) = refl
  kept-stat p (failed e, w) = refl

  cached_slice-stat :
      (cmdline : Option (List Text)) (p : ProcCache H) (w : W)
      → (cached_slice cmdline (λ s q. record q { cmdline = s }) (lib.cmd_line p.handle) p w).1.stat
        ≡ p.stat
  cached_slice-stat none p w = kept-stat p (lib.cmd_line p.handle w)
  cached_slice-stat (some line) p w = refl

  get_static-start_time :
      (p : ProcCache H) (stat : ProcStat) (static : Static) (p' : ProcCache H) (w w' : W)
      → p.stat ≡ some stat
      → get_static lib fs p w ≡ (ok static, p', w')
      → static.start_time ≡ start_time_of fs.boot_time stat.starttime
  unfolding get_static get_cmd_line
  get_static-start_time p stat static p' w w' known h =
      static_cmdline-start_time stat (get_cmd_line lib p w) static p' w'
        (cached_slice-stat p.cmdline p w ∙ known) h

  -- Once `GetProcID` has succeeded on a new process, it returns the same identity again without
  -- reading, and if `GetStatic` succeeds, in whatever state the world is by then, the start time that
  -- it returns is that of the identity.
  pub identity_is_kept :
      (h : H) (w w' : W) (id : ProcId) (p : ProcCache H)
      → get_proc_id lib (new_cache h) w ≡ (got id, p, w')
      → ((now : W) → get_proc_id lib p now ≡ (got id, p, now))
        × (id.pid ≡ lib.pid h)
        × ((static : Static) (p' : ProcCache H) (now after : W)
            → get_static lib fs p now ≡ (ok static, p', after)
            → static.start_time ≡ start_time_of fs.boot_time id.start_time_rel)
  unfolding get_proc_id get_stat
  identity_is_kept h w w' id p e =
      let ((same, stat, known, made), handle) =
        with_procid-HasIdentity h (lib.new_stat h w) id p w' e in
      (
        (λ now. rw same refl),
        ap (λ i. i.pid) made ∙ ap lib.pid handle,
        λ static p' now after k.
            get_static-start_time p stat static p' now after known k
            ∙ ap (λ i. start_time_of fs.boot_time i.start_time_rel) (sym made),
      )
