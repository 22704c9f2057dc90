-- ===== src/Proc/Procfs/Visits.antt =====
-- The loop of `GetThreads` over the iterator (proc/read.go), against a walk through the list.
use process_exporter.Prelude.{
  ℕ, zero, suc, ◌+◌, ◌<◌, ◌≡◌, refl, ap, ◌∙◌, Bool, false, Option, none, some, List, [], ◌∷◌, ℤ,
  pos, negsuc, length, nth, Float64, arith,
}
use process_exporter.Proc.Types.{Thread}
use process_exporter.Proc.Procfs.{got, Library, Fs, ProcCache, new_cache}
use process_exporter.Proc.Procfs.Listing.{
  ProcIterator, next_index, opened, proc_at, next, close, read_thread, append_some, read_threads,
  at_least_two, thread_fs, all_procs, get_threads,
}

-- The index before `n`.
abbrev before : ℕ → ℤ
before zero = negsuc zero
before (suc n) = pos n

next_index-before : (n : ℕ) → next_index (before n) ≡ pos n
next_index-before zero = refl
next_index-before (suc n) = refl

-- The iterator after the last call of `Next`.
abbrev pub ended : {H : Type 0} → List H → Bool → ℕ → ProcIterator H
ended procs fails n = record { procs = procs; idx = pos n; fails = fails; current = none }

plus_zero : (n : ℕ) → n ≡ n + 0
plus_zero n = omega arith

zero_plus : {A : Type 0} (k : ℕ) (xs : List A) → nth (0 + k) xs ≡ nth k xs
zero_plus k xs = ap (λ j. nth j xs) (omega arith)

zero_plus_length : (n : ℕ) → 0 + n ≡ n
zero_plus_length n = omega arith

plus_suc : (n k : ℕ) → suc n + k ≡ n + suc k
plus_suc n k = omega arith

module _ {W H M : Type 0} (lib : Library W H M) (fs : Fs M) {F : Type 0} ⦃fl : Float64 F⦄ where
  -- Each process of the list is read once, in order.
  unfoldable pub read_all : List H → List (Thread F) → W → List (Thread F) × W
  read_all [] threads w = (threads, w)
  read_all (h ∷ procs) threads w =
      let (thread, w') = read_thread lib fs (new_cache h) w in
      read_all procs (append_some lib fs threads thread) w'

  read_threads_from :
      (fuel n : ℕ) (procs rest : List H) (fails : Bool) (current : Option (ProcCache H))
      (threads : List (Thread F)) (w : W)
      → ((k : ℕ) → nth (n + k) procs ≡ nth k rest)
      → length rest < fuel
      → read_threads lib fs fuel
          (record { procs = procs; idx = before n; fails = fails; current = current })
          threads
          w
        ≡ some (
          (read_all rest threads w).0,
          ended procs fails (n + length rest),
          (read_all rest threads w).1,
        )
  unfolding read_threads next read_all
  read_threads_from zero n procs rest fails current threads w at h = ground (arith, h)
  read_threads_from (suc fuel) n procs [] fails current threads w at h =
      let here : nth n procs ≡ none = ap (λ k. nth k procs) (omega arith) ∙ at 0 in
      rw (read_threads, next_index-before n, here, next_index-before n, proc_at, here)
        (ap (λ i. some (threads, ended procs fails i, w)) (plus_zero n))
  read_threads_from (suc fuel) n procs (r ∷ rest) fails current threads w at h =
      let here : nth n procs ≡ some r = ap (λ k. nth k procs) (omega arith) ∙ at 0 in
      let first = read_thread lib {F = F} fs (new_cache r) w in
      let others = read_all rest (append_some lib fs threads first.0) first.1 in
      rw (read_threads, next_index-before n, here, next_index-before n, proc_at, here)
        (read_threads_from fuel (suc n) procs rest fails (some (new_cache r))
            (append_some lib fs threads first.0) first.1
            (λ k. ap (λ j. nth j procs) (plus_suc n k) ∙ at (suc k)) (omega (arith, h))
          ∙ ap (λ i. some (others.0, ended procs fails i, others.1)) (plus_suc n (length rest)))

  -- On fuel above the number of processes, the loop `for iter.Next()` over a new iterator ends, having
  -- read each process once and in order, and leaves the iterator behind the last one.
  pub thread_loop_visits_all :
      (fuel : ℕ) (procs : List H) (fails : Bool) (w : W)
      → length procs < fuel
      → read_threads lib {F = F} fs fuel (opened procs fails) [] w
        ≡ some ((read_all procs [] w).0, ended procs fails (length procs), (read_all procs [] w).1)
  thread_loop_visits_all fuel procs fails w h =
      let read = read_all procs [] w in
      read_threads_from fuel 0 procs procs fails none [] w (λ k. zero_plus k procs) h
      ∙ ap (λ i. some (read.0, ended procs fails i, read.1)) (zero_plus_length (length procs))

module _ {W H M : Type 0} (lib : Library W H M) {F : Type 0} ⦃fl : Float64 F⦄ where
  -- If the threads of a process can be listed, `GetThreads` ends on fuel above their number, without
  -- an error, with what the walk through the list reads, or with none if these are fewer than two.
  pub get_threads_reads_all :
      (fuel : ℕ) (fs tfs : Fs M) (p : ProcCache H) (procs : List H) (w w1 w2 : W)
      → thread_fs lib fs (lib.pid p.handle) w ≡ (some tfs, w1)
      → lib.all_procs tfs.fs w1 ≡ (got procs, w2)
      → length procs < fuel
      → get_threads lib {F = F} fuel fs p w
        ≡ some (
          (at_least_two lib tfs (read_all lib tfs {F = F} procs [] w2).0, false),
          (read_all lib tfs {F = F} procs [] w2).1,
        )
  unfolding get_threads all_procs close next
  get_threads_reads_all fuel fs tfs p procs w w1 w2 t a h =
      rw (t, a, thread_loop_visits_all lib tfs {F = F} fuel procs false w2 h) refl
