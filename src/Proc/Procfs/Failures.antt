-- ===== src/Proc/Procfs/Failures.antt =====
-- The errors of `GetCounts` and `GetMetrics` (proc/read.go) as `handleProc` (proc/tracker.go) takes
-- them, and the readings from which the metrics come.
use process_exporter.Proc.Tracker.Defs.{TrackedProc, Tracker}
use process_exporter.Prelude.{
  refl, ◌≡◌, Float64, ℕ, ap, sym, ◌∙◌, some, none, Bool-cases, Time, inl, inr, Option,
}
use process_exporter.Proc.Types.{
  ProcId, Memory, ReadError, other_error, err, Counts, Read, States, ok, Metrics, Proc,
}
use process_exporter.Proc.Procfs.{
  kept, get_wchan, SmapsRollup, Reply, got, failed, ProcStat, ProcStatus, Library, Fs, ProcCache,
  get_status, get_stat,
}
use process_exporter.Proc.Procfs.Details.{or_zero_value, zero_stat, zero_status}
use process_exporter.Proc.Tracker.Scan.{handle_metrics}
use process_exporter.Proc.Procfs.Metrics.{
  gather, add_smaps, metrics_end, memory_from, counts_stat, counts_status, get_metrics, get_counts,
  metrics_limits, soften, metrics_counts, get_states,
}

abbrev error_of : {A : Type 0} → Read A → ReadError
error_of (ok a) = other_error
error_of (err e) = e

abbrev metrics_of : {F : Type 0} → Metrics F → Read (Metrics F × ℕ) → Metrics F
metrics_of m (ok read) = read.0
metrics_of m (err e) = m

as_pair : {A B : Type 0} {a : A} {x : A × B} → x.0 ≡ a → x ≡ (a, x.1)
as_pair {x = x} k = ap (λ b. (b, x.1)) k

module _ {W H M : Type 0} (lib : Library W H M) (fs : Fs M) where
  add_smaps-vm_swap :
      (memory : Memory) (x : Reply SmapsRollup × W)
      → (add_smaps lib fs memory x).0.vm_swap_bytes ≡ memory.vm_swap_bytes
  add_smaps-vm_swap memory (got smaps, w) = refl
  add_smaps-vm_swap memory (failed e, w) = refl

  gather-vm_swap :
      (h : H) (memory : Memory) (w : W)
      → (gather lib fs h memory w).0.vm_swap_bytes ≡ memory.vm_swap_bytes
  unfolding gather
  gather-vm_swap h memory w = elim (Bool-cases fs.gather_smaps) [
    | inl on ↦ rw on (add_smaps-vm_swap memory (lib.smaps_rollup h w))
    | inr off ↦ rw off refl
  ]

  kept-reply :
      {A : Type 0} (store : A → ProcCache H → ProcCache H) (p : ProcCache H) (x : Reply A × W)
      → (kept store p x).0 ≡ x.0
  kept-reply store p (got a, w) = refl
  kept-reply store p (failed e, w) = refl

module _ {W H M : Type 0} (lib : Library W H M) (fs : Fs M) {F : Type 0} ⦃fl : Float64 F⦄ where
  counts_status-err :
      (stat : ProcStat) (x : Reply ProcStatus × ProcCache H × W) (e : ReadError) (w : W)
      → counts_status lib fs {F = F} stat x ≡ (err e, w)
      → e ≡ other_error
  counts_status-err stat (failed f, p, w0) e w h = cc
  counts_status-err stat (got status, p, w0) e w h = cc

  counts_stat-err :
      (x : Reply ProcStat × ProcCache H × W) (e : ReadError) (w : W)
      → counts_stat lib fs {F = F} x ≡ (err e, w)
      → e ≡ other_error
  counts_stat-err (failed f, p, w0) e w h = cc
  counts_stat-err (got stat, p, w0) e w h = counts_status-err stat (get_status lib p w0) e w h

  metrics_limits-err :
      (counts : Counts F) (stat : ProcStat) (states : States) (status : ProcStatus)
      (numfds : Reply ℕ) (p : ProcCache H) (soft : ℕ) (x : Reply ℕ × W) (e : ReadError) (w : W)
      → metrics_limits lib fs counts stat states status numfds p soft x ≡ (err e, w)
      → e ≡ other_error
  metrics_limits-err counts stat states status numfds p soft (failed f, w0) e w h = cc
  metrics_limits-err counts stat states status numfds p soft (got limit, w0) e w h = cc

  metrics_counts-err :
      (p : ProcCache H) (x : Read (Counts F × ℕ) × W) (e : ReadError) (w : W)
      → ((f : ReadError) → x.0 ≡ err f → f ≡ other_error)
      → metrics_counts lib fs p x ≡ (err e, w)
      → e ≡ other_error
  metrics_counts-err p (err f, w0) e w known h = sym (ap (λ r. error_of r.0) h) ∙ known f refl
  metrics_counts-err p (ok (counts, soft), w0) e w known h =
      let (stat, p1, w1) = get_stat lib p w0 in
      let (states, w2) = get_states lib fs p1 w1 in
      let (status, p2, w3) = get_status lib p1 w2 in
      let (numfds, w4) = lib.file_descriptors_len p2.handle w3 in
      metrics_limits-err counts (or_zero_value zero_stat stat) states
        (or_zero_value zero_status status) numfds p2 (soften lib fs numfds soft)
        (lib.open_files_limit p2.handle w4) e w h

  get_metrics-err :
      (p : ProcCache H) (e : ReadError) (w w' : W)
      → get_metrics lib fs {F = F} p w ≡ (err e, w')
      → e ≡ other_error
  unfolding get_metrics get_counts
  get_metrics-err p e w w' h =
      metrics_counts-err p (get_counts lib fs {F = F} p w) e w'
        (λ f k. counts_stat-err (get_stat lib p w) f (get_counts lib fs {F = F} p w).1 (as_pair k))
        h

  -- Whenever `GetMetrics` fails, also because the process has vanished, `handleProc` leaves the tracker
  -- as it was and counts one failed read: the error is never the one for a process that has vanished.
  pub metrics_failure_is_counted :
      (p : ProcCache H) (e : ReadError) (w w' : W) (q : Proc F) (now : Time) (id : ProcId)
      (known : Option (TrackedProc F)) (t : Tracker F)
      → get_metrics lib fs {F = F} p w ≡ (err e, w')
      → handle_metrics q now id known t (get_metrics lib fs p w).0
        ≡ (t, none, record { read = 1; partial = 0 })
  unfolding handle_metrics
  metrics_failure_is_counted p e w w' q now id known t h =
      rw (ap (λ r. r.0) h, get_metrics-err p e w w' h) refl

  metrics_limits-ok :
      (counts : Counts F) (stat : ProcStat) (states : States) (status : ProcStatus)
      (numfds : Reply ℕ) (p : ProcCache H) (soft : ℕ) (x : Reply ℕ × W) (m : Metrics F) (soft' : ℕ)
      (w : W)
      → metrics_limits lib fs counts stat states status numfds p soft x ≡ (ok (m, soft'), w)
      → (m.counts ≡ counts) × (m.memory.vm_swap_bytes ≡ status.vm_swap)
  metrics_limits-ok counts stat states status numfds p soft (failed f, w0) m soft' w h = cc
  metrics_limits-ok counts stat states status numfds p soft (got limit, w0) m soft' w h =
      let made : (metrics_end lib fs counts stat states status numfds limit p soft w0).0
          ≡ ok (m, soft') =
        ap (λ r. r.0) h in
      (
        sym (ap (λ r. (metrics_of m r).counts) made),
        sym (ap (λ r. (metrics_of m r).memory.vm_swap_bytes) made)
            ∙ gather-vm_swap lib fs (get_wchan lib p w0).1.handle (memory_from lib fs stat status)
                (get_wchan lib p w0).2,
      )

  -- With a cached `stat` and no cached `status`, which is how `handleProc` calls it, `GetMetrics`
  -- takes its counters from the reading of `status` in `GetCounts`, and reads `status` again for the
  -- swap: if that second read fails, the swap is 0.
  pub status_is_read_twice :
      (p : ProcCache H) (stat : ProcStat) (counts : Counts F) (m : Metrics F) (soft soft' : ℕ)
      (w w' w'' : W)
      → get_counts lib fs (record p { stat = some stat; status = none }) w ≡ (ok (counts, soft), w')
      → get_metrics lib fs (record p { stat = some stat; status = none }) w ≡ (ok (m, soft'), w'')
      → (m.counts ≡ counts)
        × (m.memory.vm_swap_bytes
            ≡ (or_zero_value zero_status (lib.new_status p.handle w').0).vm_swap)
  unfolding get_metrics get_stat get_status get_states
  status_is_read_twice p stat counts m soft soft' w w' w'' c h =
      let q = record p { stat = some stat; status = none } in
      let second = get_status lib q w' in
      let ends = lib.file_descriptors_len second.1.handle second.2 in
      let (same, swap) =
        metrics_limits-ok counts stat (get_states lib fs q w').0
          (or_zero_value zero_status second.0) ends.0 second.1 (soften lib fs ends.0 soft)
          (lib.open_files_limit second.1.handle ends.1) m soft' w'' (rw c at h) in
      (
        same,
        swap
            ∙ ap (λ r. (or_zero_value zero_status r).vm_swap)
                (kept-reply lib fs (λ s x. record x { status = some s }) q
                  (lib.new_status p.handle w')),
      )
