-- ===== src/Proc/Counts.antt =====
-- `Counts.Add`, `Counts.Sub` and `States.Add` of proc/read.go.
use process_exporter.Prelude.{ℕ, ◌≡◌, refl, Float64, add64, sub64}
use process_exporter.Proc.Types.{Counts, Delta, States}

-- Names the `uint64` counters, so that one statement speaks of all of them.
pub data Counter : Type 0 where
  read_bytes write_bytes major_page_faults minor_page_faults : Counter
  ctx_switch_voluntary ctx_switch_nonvoluntary : Counter

module _ {F : Type 0} where
  abbrev pub counter : Counter → Counts F → ℕ
  counter read_bytes c = c.read_bytes
  counter write_bytes c = c.write_bytes
  counter major_page_faults c = c.major_page_faults
  counter minor_page_faults c = c.minor_page_faults
  counter ctx_switch_voluntary c = c.ctx_switch_voluntary
  counter ctx_switch_nonvoluntary c = c.ctx_switch_nonvoluntary

module _ {F : Type 0} ⦃fl : Float64 F⦄ where
  unfoldable pub zero_counts : Counts F
  zero_counts = record {
    cpu_user_time = fl.fzero;
    cpu_system_time = fl.fzero;
    read_bytes = 0;
    write_bytes = 0;
    major_page_faults = 0;
    minor_page_faults = 0;
    ctx_switch_voluntary = 0;
    ctx_switch_nonvoluntary = 0;
  }

  unfoldable pub add_counts : Counts F → Delta F → Counts F
  add_counts c d = record {
    cpu_user_time = fl.fadd c.cpu_user_time d.cpu_user_time;
    cpu_system_time = fl.fadd c.cpu_system_time d.cpu_system_time;
    read_bytes = add64 c.read_bytes d.read_bytes;
    write_bytes = add64 c.write_bytes d.write_bytes;
    major_page_faults = add64 c.major_page_faults d.major_page_faults;
    minor_page_faults = add64 c.minor_page_faults d.minor_page_faults;
    ctx_switch_voluntary = add64 c.ctx_switch_voluntary d.ctx_switch_voluntary;
    ctx_switch_nonvoluntary = add64 c.ctx_switch_nonvoluntary d.ctx_switch_nonvoluntary;
  }

  unfoldable pub sub_counts : Counts F → Counts F → Delta F
  sub_counts c d = record {
    cpu_user_time = fl.fsub c.cpu_user_time d.cpu_user_time;
    cpu_system_time = fl.fsub c.cpu_system_time d.cpu_system_time;
    read_bytes = sub64 c.read_bytes d.read_bytes;
    write_bytes = sub64 c.write_bytes d.write_bytes;
    major_page_faults = sub64 c.major_page_faults d.major_page_faults;
    minor_page_faults = sub64 c.minor_page_faults d.minor_page_faults;
    ctx_switch_voluntary = sub64 c.ctx_switch_voluntary d.ctx_switch_voluntary;
    ctx_switch_nonvoluntary = sub64 c.ctx_switch_nonvoluntary d.ctx_switch_nonvoluntary;
  }

  -- `counter` goes through both operations.
  pub counter-add_counts :
      (k : Counter) (c d : Counts F)
      → counter k (add_counts c d) ≡ add64 (counter k c) (counter k d)
  unfolding add_counts
  counter-add_counts read_bytes c d = refl
  counter-add_counts _ c d = refl

  pub counter-sub_counts :
      (k : Counter) (c d : Counts F)
      → counter k (sub_counts c d) ≡ sub64 (counter k c) (counter k d)
  unfolding sub_counts
  counter-sub_counts read_bytes c d = refl
  counter-sub_counts _ c d = refl

pub counter-zero_counts :
    (F : Type 0) (fl : Float64 F) (k : Counter) → counter {F = F} k (zero_counts ⦃fl = fl⦄) ≡ 0
unfolding zero_counts
counter-zero_counts F fl read_bytes = refl
counter-zero_counts F fl _ = refl

abbrev pub zero_states : States
zero_states = record { running = 0; sleeping = 0; waiting = 0; zombie = 0; other = 0 }

unfoldable pub add_states : States → States → States
add_states s d = record {
  other = add64 s.other d.other;
  running = add64 s.running d.running;
  sleeping = add64 s.sleeping d.sleeping;
  waiting = add64 s.waiting d.waiting;
  zombie = add64 s.zombie d.zombie;
}
