-- ===== src/Boids/Handler.antt =====
-- modules/boids2d/Handler.h and modules/boids2d/Handler.cpp: what a message does to the boids and
-- the table's entry of its process. `log2` is that of the C library, `logarithmic` is
-- `BoidSharedContext::useLogarithmicAxis`, and `parse` is protobuf's parsing of the data.
pub mod Entries
use wall_mon.Base.Bytes.{or_else, decimal}
use wall_mon.Base.{
  ℕ, ◌+◌, String, Bool, true, false, Option, none, some, List, [], ◌∷◌, pos, negsuc, if◌then◌else◌,
}
use wall_mon.Base.Double.{Double, int, ratio}
use wall_mon.Processes.Collector.{ProcessMessage}
use wall_mon.Boids.TableItem.{
  BoidSharedContext, TableItem, set_destination, set_score, set_proc_name, set_host_name, set_pid,
  set_user, set_start_time, set_num_threads,
}
use wall_mon.Boids.Table.{Store, set_item, set_context}
use wall_mon.Boids.Data.{
  StatBase, Proc, Data, HostMessage, create_proc_key, find, update, key_changed,
}

abbrev network_max_in_and_out_bytes : ℕ
network_max_in_and_out_bytes = 52428800

module _ (d : Double) (log2 : d.Num → d.Num) (logarithmic : Bool) where
  -- A share of the greatest number of bytes, in percent.
  unfoldable pub of_max : Option ℕ → d.Num
  of_max bytes =
      d.mul (d.div (int d (or_else 0 bytes)) (int d network_max_in_and_out_bytes)) (int d 100)

  unfoldable pub update_process_statistics : ProcessMessage d.Num → StatBase d → StatBase d
  update_process_statistics m s = record {
    user_cpu_utilization = or_else (int d 0) m.user_cpu_utilization;
    system_cpu_utilization = or_else (int d 0) m.system_cpu_utilization;
    memory_utilization = or_else (int d 0) m.memory_utilization;
    network_in_utilization = of_max m.network_in_bytes;
    network_out_utilization = of_max m.network_out_bytes;
    storage_in_utilization = of_max m.storage_in_bytes;
    storage_out_utilization = of_max m.storage_out_bytes;
    num_samples = s.num_samples + 1;
  }

  unfoldable pub linear_to_logarithmic_axis_value : d.Num → d.Num
  linear_to_logarithmic_axis_value v = d.mul (d.add (log2 v) (int d 1)) (ratio d 125 10)

  abbrev on_axis : d.Num → d.Num
  on_axis v = if logarithmic then linear_to_logarithmic_axis_value v else v

  -- `FILTER_THRESHOLD` is 1.
  unfoldable pub filtered : d.Num → d.Num × d.Num → d.Num × d.Num
  filtered v at = if d.lt v (int d 1) then (d.num (negsuc 0), d.num (negsuc 0)) else at

  -- Where a boid goes that shows the sum of two values, and the share of `part` in it.
  unfoldable pub destination : d.Num → d.Num → d.Num → d.Num × d.Num
  destination a b part =
      let total = d.add a b in
      let share = if d.lt (int d 0) total then d.mul (d.div part total) (int d 100) else int d 50 in
      filtered (on_axis total) (on_axis total, share)

  unfoldable pub cpu_destination : StatBase d → d.Num × d.Num
  cpu_destination s =
      destination s.user_cpu_utilization s.system_cpu_utilization s.user_cpu_utilization

  unfoldable pub memory_destination : ProcessMessage d.Num → StatBase d → d.Num × d.Num
  memory_destination m s = filtered s.memory_utilization (
    on_axis s.memory_utilization,
    d.mul (or_else (int d 0) m.num_page_faults_per_sec) (ratio d 1 10),
  )

  unfoldable pub network_destination : StatBase d → d.Num × d.Num
  network_destination s =
      destination s.network_in_utilization s.network_out_utilization s.network_out_utilization

  unfoldable pub storage_destination : StatBase d → d.Num × d.Num
  storage_destination s =
      destination s.storage_in_utilization s.storage_out_utilization s.storage_out_utilization

  unfoldable pub new_score : StatBase d → d.Num
  new_score s =
      d.add
        (d.add
          (d.add (d.add s.user_cpu_utilization s.system_cpu_utilization)
            (d.mul (d.add s.network_in_utilization s.network_out_utilization) (ratio d 15 10)))
          (d.mul (d.add s.storage_in_utilization s.storage_out_utilization) (ratio d 15 10)))
        (d.mul s.memory_utilization (ratio d 5 10))

  -- A setter that is called if the field is there.
  abbrev given :
      {A : Type 0} → Option A → (A → TableItem d → TableItem d) → TableItem d → TableItem d
  given none f i = i
  given (some a) f i = f a i

  -- What the table's entry shows.
  unfoldable pub show_message : HostMessage d → TableItem d → TableItem d
  show_message hm i0 =
      let m = hm.message in
      let i1 : TableItem d = given m.process_name (set_proc_name d) i0 in
      let i2 : TableItem d = given m.user (set_user d) (set_host_name d hm.host_name i1) in
      let i3 : TableItem d = given m.start_time (set_start_time d) i2 in
      let i4 : TableItem d = given m.num_threads (λ n. set_num_threads d (decimal 10 n)) i3 in
      given m.pid (λ n. set_pid d (decimal 10 n)) i4

  unfoldable pub move_boid : ℕ → d.Num × d.Num → Store d → Store d
  move_boid boid (x, y) s = set_context d boid (set_destination d x y (s.context boid)) s

  -- The statistics, boids and entry of a process that goes on.
  unfoldable pub show_process : HostMessage d → Proc d → Store d → Proc d × Store d
  show_process hm p s0 =
      let stat = update_process_statistics hm.message p.stat in
      let s1 = move_boid p.visual.cpu (cpu_destination stat) s0 in
      let s2 = move_boid p.visual.memory (memory_destination hm.message stat) s1 in
      let s3 = move_boid p.visual.network (network_destination stat) s2 in
      let s4 = move_boid p.visual.storage (storage_destination stat) s3 in
      let item = show_message hm (s4.item p.visual.table_item) in
      (
        record p { stat = stat },
        set_item d p.visual.table_item (set_score d (new_score stat) item) s4,
      )

  -- `_HandleProcessMessage`.
  unfoldable pub handle_process_message :
      BoidSharedContext d → TableItem d → HostMessage d → Data d → Data d
  handle_process_message junk junk_item hm s =
      let (found, s') = update d junk junk_item hm s in
      elim found [
        | none ↦ s'
        | some p ↦
            let (q, store) = show_process hm p s'.store in
            record s' {
              store = store;
              proc_map =
                  key_changed (create_proc_key hm.host_name (or_else 0 hm.message.pid)) q
                    s'.proc_map;
            }
      ]

  -- The loop of `Handle`.
  unfoldable pub handle_all :
      BoidSharedContext d → TableItem d → List ℕ → List (ProcessMessage d.Num) → Data d → Data d
  handle_all junk junk_item host_name [] s = s
  handle_all junk junk_item host_name (m ∷ ms) s =
      handle_all junk junk_item host_name ms
        (handle_process_message junk junk_item (record { host_name = host_name; message = m }) s)

  -- `Handle`: nothing without an application, and an end of the program where parsing fails.
  unfoldable pub handle :
      Bool
      → (List ℕ → Option (List (ProcessMessage d.Num)))
      → BoidSharedContext d
      → TableItem d
      → List ℕ
      → List ℕ
      → Data d
      → Option (Data d)
  handle has_boids_app parse junk junk_item host_name payload s =
      if has_boids_app
      then elim (parse payload) [
        | none ↦ none
        | some ms ↦ some (handle_all junk junk_item host_name ms s)
      ]
      else some s
