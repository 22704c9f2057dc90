-- ===== src/Proc/Procfs/Ends.antt =====
-- `GetThreads` ends (proc/read.go): each process has finitely many threads.
use process_exporter.Prelude.{
  ℕ, suc, ◌<◌, ◌≡◌, refl, ap, true, false, Option, none, some, List, [], Float64, arith, length,
}
use process_exporter.Proc.Types.{id_eq}
use process_exporter.Proc.Procfs.{Reply, got, failed, Library, Fs, ProcCache}
use process_exporter.Proc.Procfs.Listing.{
  iterator_of, all_procs, thread_fs, read_threads, threads_result, threads_in, get_threads,
}
use process_exporter.Proc.Procfs.Visits.{thread_loop_visits_all}

-- There is a result.
abbrev pub HasEnded : {A : Type 0} → Option A → Type 0
HasEnded {A} x = (a : A) × (x ≡ some a)

-- No listing has more processes than `n`.
abbrev pub IsBounded : {W H M : Type 0} → Library W H M → ℕ → Type 0
IsBounded {W} {H} {M} lib n =
    (fs : M) (w : W) (procs : List H) → (lib.all_procs fs w).0 ≡ got procs → length procs < suc n

module _ {W H M : Type 0} (lib : Library W H M) {F : Type 0} ⦃fl : Float64 F⦄ (n : ℕ)
    (bound : IsBounded lib n) where
  loop-HasEnded :
      (tfs : Fs M) (x : Reply (List H) × W)
      → ((procs : List H) → x.0 ≡ got procs → length procs < suc n)
      → HasEnded (
          threads_result lib {F = F} tfs
            (read_threads lib tfs (suc n) (iterator_of lib x).0 [] (iterator_of lib x).1))
  loop-HasEnded tfs (got procs, w) h = (
    _,
    ap (threads_result lib tfs)
        (thread_loop_visits_all lib tfs {F = F} (suc n) procs false w (h procs refl)),
  )
  loop-HasEnded tfs (failed e, w) h = (
    _,
    ap (threads_result lib tfs)
        (thread_loop_visits_all lib tfs {F = F} (suc n) [] true w (omega arith)),
  )

  threads_in-HasEnded : (x : Option (Fs M) × W) → HasEnded (threads_in lib {F = F} (suc n) x)
  unfolding all_procs
  threads_in-HasEnded (none, w) = (_, refl)
  threads_in-HasEnded (some tfs, w) = loop-HasEnded tfs (lib.all_procs tfs.fs w) (bound tfs.fs w)

  pub get_threads-HasEnded :
      (fs : Fs M) (p : ProcCache H) (w : W) → HasEnded (get_threads lib {F = F} (suc n) fs p w)
  unfolding get_threads
  get_threads-HasEnded fs p w = threads_in-HasEnded (thread_fs lib fs (lib.pid p.handle) w)
