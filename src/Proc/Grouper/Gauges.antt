-- ===== src/Proc/Grouper/Gauges.antt =====
-- The gauges of a group: sums over the processes of this cycle, and the oldest start time.
use process_exporter.Prelude.{
  ℕ, ◌+◌, ◌%◌, ◌≤◌, ◌<◌, ◌≡◌, refl, ap, ◌∙◌, sym, subst, some, some_inj, List, [], ◌∷◌, arith, Text,
  Time, Float64, get, bytes_eq, All, u64, add64, to_u64, if◌then◌else◌, ◌⊎◌, inl, inr, Option,
}
use process_exporter.Proc.Types.{Counts}
use process_exporter.Proc.Tracker.Defs.{Update}
use process_exporter.Proc.Grouper.Group.{
  Group, groupadd, zero_group, add_memory, add_open_fds, is_known, older, Threads,
}
use process_exporter.Proc.Counts.{add_states}
use process_exporter.Proc.Grouper.Defs.{Grouper, groups}
use process_exporter.Proc.Grouper.Reports.{reports_of}
use process_exporter.Proc.Grouper.Folds.{add_all}
use process_exporter.Proc.Grouper.Totals.{folded, finished, group_of_reports}

-- Names the fields of a group that are sums.
pub data Gauge : Type 0 where
  procs num_threads open_fds : Gauge
  resident_bytes virtual_bytes vm_swap_bytes proportional_bytes proportional_swap_bytes : Gauge
  running sleeping waiting zombie other : Gauge

module _ {F : Type 0} where
  abbrev pub gauge : Gauge → Group F → ℕ
  gauge procs grp = grp.procs
  gauge num_threads grp = grp.num_threads
  gauge open_fds grp = grp.open_fds
  gauge resident_bytes grp = grp.memory.resident_bytes
  gauge virtual_bytes grp = grp.memory.virtual_bytes
  gauge vm_swap_bytes grp = grp.memory.vm_swap_bytes
  gauge proportional_bytes grp = grp.memory.proportional_bytes
  gauge proportional_swap_bytes grp = grp.memory.proportional_swap_bytes
  gauge running grp = grp.states.running
  gauge sleeping grp = grp.states.sleeping
  gauge waiting grp = grp.states.waiting
  gauge zombie grp = grp.states.zombie
  gauge other grp = grp.states.other

  -- What one report brings: an unknown count of descriptors brings nothing.
  abbrev pub share : Gauge → Update F → ℕ
  share procs ts = 1
  share num_threads ts = ts.num_threads
  share open_fds ts = if is_known ts.filedesc.open_count then to_u64 ts.filedesc.open_count else 0
  share resident_bytes ts = ts.memory.resident_bytes
  share virtual_bytes ts = ts.memory.virtual_bytes
  share vm_swap_bytes ts = ts.memory.vm_swap_bytes
  share proportional_bytes ts = ts.memory.proportional_bytes
  share proportional_swap_bytes ts = ts.memory.proportional_swap_bytes
  share running ts = ts.states.running
  share sleeping ts = ts.states.sleeping
  share waiting ts = ts.states.waiting
  share zombie ts = ts.states.zombie
  share other ts = ts.states.other

  unfoldable pub share_total : Gauge → List (Update F) → ℕ
  share_total k [] = 0
  share_total k (ts ∷ tracked) = share k ts + share_total k tracked

  unfoldable pub starts : List (Update F) → List Time
  starts [] = []
  starts (ts ∷ tracked) = ts.start ∷ starts tracked

abbrev pub Among : ℕ → List ℕ → Type 0
Among x [] = ⊥
Among x (y ∷ ys) = (x ≡ y) ⊎ Among x ys

gauge-zero_group :
    (F : Type 0) (fl : Float64 F) (k : Gauge) → gauge k (zero_group {F = F} ⦃fl = fl⦄) ≡ 0
unfolding zero_group
gauge-zero_group F fl procs = refl
gauge-zero_group F fl _ = refl

older_bounds :
    (oldest start : Time)
    → 0 < start
    → (older oldest start ≤ start)
      × (0 < oldest → older oldest start ≤ oldest)
      × (0 < older oldest start)
      × ((older oldest start ≡ start) ⊎ (older oldest start ≡ oldest))
unfolding older
older_bounds oldest start h = ground arith

chosen {ℓ} :
    {A : Type ℓ} (o a b start : ℕ)
    → (o ≡ a) ⊎ A
    → (a ≡ start) ⊎ (a ≡ b)
    → (o ≡ b) ⊎ ((o ≡ start) ⊎ A)
chosen o a b start (inl e) (inl f) = inr (inl (e ∙ f))
chosen o a b start (inl e) (inr f) = inl (e ∙ f)
chosen o a b start (inr x) f = inr (inr x)

module _ {F : Type 0} ⦃fl : Float64 F⦄ where
  gauge-groupadd :
      (k : Gauge) (grp : Group F) (ts : Update F)
      → gauge k grp < u64
      → gauge k (groupadd grp ts) ≡ (gauge k grp + share k ts) % u64
  unfolding groupadd add_memory add_open_fds add_states add64
  gauge-groupadd procs grp ts h = refl
  gauge-groupadd open_fds grp ts h = ground arith
  gauge-groupadd _ grp ts h = refl

  gauge-add_all :
      (k : Gauge) (tracked : List (Update F)) (grp : Group F)
      → gauge k grp < u64
      → gauge k (add_all tracked grp) ≡ (gauge k grp + share_total k tracked) % u64
  unfolding add_all share_total
  gauge-add_all k [] grp h = omega arith
  gauge-add_all k (ts ∷ tracked) grp h =
      let step = gauge-groupadd k grp ts h in
      gauge-add_all k tracked (groupadd grp ts) (rw step (omega arith)) ∙ rw step (omega arith)

  gauge-finished :
      (k : Gauge) (grp : Group F) (old : Option (Counts F)) (threads : List (Threads F))
      → gauge k (finished grp old threads) ≡ gauge k grp
  gauge-finished procs grp old threads = refl
  gauge-finished _ grp old threads = refl

  -- In a group that is returned with reports, the number of processes and of threads, the known
  -- open descriptors, the memory and the states are the sums over the reports, modulo 2^64.
  pub gauges_are_sums :
      (gname : Text) (tracked : List (Update F)) (g : Grouper F) (ts : Update F)
      (rest : List (Update F)) (grp : Group F) (k : Gauge)
      → reports_of gname tracked ≡ ts ∷ rest
      → get gname (groups tracked g).1 ≡ some grp
      → gauge k grp ≡ share_total k (reports_of gname tracked) % u64
  unfolding share_total add_all
  gauges_are_sums gname tracked g ts rest grp k h e =
      let (threads, seen, accum) = group_of_reports gname tracked g ts rest h in
      let start = gauge-zero_group F fl k in
      ap (gauge k) (some_inj (sym e ∙ seen))
      ∙ gauge-finished k (folded ts rest) _ threads
      ∙ gauge-add_all k (ts ∷ rest) zero_group (rw start (omega arith))
      ∙ omega (arith, start, ap (share_total k) h)

  oldest_start_time-groupadd :
      (grp : Group F) (ts : Update F)
      → (groupadd grp ts).oldest_start_time ≡ older grp.oldest_start_time ts.start
  unfolding groupadd
  oldest_start_time-groupadd grp ts = refl

  oldest-add_all :
      (tracked : List (Update F)) (grp : Group F)
      → All (λ t. 0 < t) (starts tracked)
      → 0 < grp.oldest_start_time
      → ((add_all tracked grp).oldest_start_time ≤ grp.oldest_start_time)
        × All (λ t. (add_all tracked grp).oldest_start_time ≤ t) (starts tracked)
        × (((add_all tracked grp).oldest_start_time ≡ grp.oldest_start_time)
            ⊎ Among (add_all tracked grp).oldest_start_time (starts tracked))
  unfolding add_all starts
  oldest-add_all [] grp h pos = (omega arith, tt, inl refl)
  oldest-add_all (ts ∷ tracked) grp h pos =
      let step = oldest_start_time-groupadd grp ts in
      let (below, kept, set, one) = older_bounds grp.oldest_start_time ts.start h.0 in
      let (le, all, among) = oldest-add_all tracked (groupadd grp ts) h.1 (rw step set) in
      (
        omega (arith, step, kept pos),
        (omega (arith, step), all),
        chosen _ _ grp.oldest_start_time ts.start among
            (subst (λ a. (a ≡ ts.start) ⊎ (a ≡ grp.oldest_start_time)) (sym step) one),
      )

  first_start :
      (ts : Update F) → 0 < ts.start → (groupadd zero_group ts).oldest_start_time ≡ ts.start
  unfolding groupadd zero_group older
  first_start ts h = refl

  -- If all start times of a group's processes are set, the oldest start time with which the group
  -- is returned is one of them, and none of them is earlier.
  pub oldest_is_minimum :
      (gname : Text) (tracked : List (Update F)) (g : Grouper F) (ts : Update F)
      (rest : List (Update F)) (grp : Group F)
      → reports_of gname tracked ≡ ts ∷ rest
      → get gname (groups tracked g).1 ≡ some grp
      → All (λ t. 0 < t) (starts (ts ∷ rest))
      → All (λ t. grp.oldest_start_time ≤ t) (starts (ts ∷ rest))
        × Among grp.oldest_start_time (starts (ts ∷ rest))
  unfolding starts
  oldest_is_minimum gname tracked g ts rest grp h e set =
      let (threads, seen, accum) = group_of_reports gname tracked g ts rest h in
      let same : grp.oldest_start_time ≡ (folded ts rest).oldest_start_time =
        ap (λ (x : Group F). x.oldest_start_time) (some_inj (sym e ∙ seen)) in
      let first = first_start ts set.0 in
      let o = (folded ts rest).oldest_start_time in
      let (le, all, among) = oldest-add_all rest (groupadd zero_group ts) set.1 (rw first set.0) in
      subst (λ o. All (λ t. o ≤ t) (starts (ts ∷ rest)) × Among o (starts (ts ∷ rest))) (sym same)
        ((omega (arith, first), all), subst (λ s. (o ≡ s) ⊎ Among o (starts rest)) first among)
