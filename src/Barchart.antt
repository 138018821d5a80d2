-- ===== src/Barchart.antt =====
-- modules/barchart/Handler.h and modules/barchart/Handler.cpp: the loads of processes by their names,
-- and the bars of the greatest ones. A text is the list of its bytes, `parse` is protobuf's parsing
-- of the data; the log is left out.
pub mod Top
use wall_mon.Base.Bytes.{key_eq, key_less, or_else, decimal}
use wall_mon.Base.{
  ℕ, zero, suc, ◌+◌, ◌%◌, Bool, true, false, Option, none, some, List, [], ◌∷◌, ◌++◌, length, ltb,
  if◌then◌else◌,
}
use wall_mon.Base.Double.{Double, int, ratio}
use wall_mon.Processes.Collector.{ProcessMessage}

pub record ProcStat (d : Double) : Type 0 where
  pub user_cpu_load : d.Num
  pub system_cpu_load : d.Num

pub record ProcNameStat (d : Double) : Type 0 where
  pub proc_map : List (List ℕ × ProcStat d)
  pub user_cpu_load : d.Num
  pub system_cpu_load : d.Num

pub record BarData (d : Double) : Type 0 where
  pub label : List ℕ
  pub user : d.Num
  pub system : d.Num

-- The handler and the counters of its file.
pub record Handler (d : Double) : Type 0 where
  pub process_name_map : List (List ℕ × ProcNameStat d)
  pub num_unique_processes : ℕ
  pub num_messages_received : ℕ
  pub total_bytes_received : ℕ
  pub timestamp : d.Num

abbrev num_processes_to_display : ℕ
num_processes_to_display = 8

-- `std::map`, in the order of its keys.
module _ {V : Type 0} where
  unfoldable pub find : List ℕ → List (List ℕ × V) → Option V
  find k [] = none
  find k ((j, v) ∷ m) = let rest = find k m in if key_eq j k then some v else rest

  unfoldable pub put : List ℕ → V → List (List ℕ × V) → List (List ℕ × V)
  put k v [] = (k, v) ∷ []
  put k v ((j, w) ∷ m) =
      let rest : List (List ℕ × V) = put k v m in
      if key_eq j k then (k, v) ∷ m else if key_less k j then (k, v) ∷ (j, w) ∷ m else (j, w) ∷ rest

-- `ProcNameStat::CreateProcMapKey`.
unfoldable pub create_proc_map_key : List ℕ → ℕ → List ℕ
create_proc_map_key host_name pid = host_name ++ decimal 10 pid

module _ (d : Double) where
  unfoldable pub new_proc_stat : ProcStat d
  new_proc_stat = record { user_cpu_load = int d 0; system_cpu_load = int d 0 }

  unfoldable pub new_proc_name_stat : ProcNameStat d
  new_proc_name_stat = record { proc_map = []; user_cpu_load = int d 0; system_cpu_load = int d 0 }

  -- The loads of one process replace those it had, and change the sums of its name.
  unfoldable pub update_loads : List ℕ → d.Num → d.Num → ProcNameStat d → ProcNameStat d
  update_loads proc_key user system s =
      let old : ProcStat d = or_else new_proc_stat (find proc_key s.proc_map) in
      record {
        proc_map =
            put proc_key (record { user_cpu_load = user; system_cpu_load = system }) s.proc_map;
        user_cpu_load = d.add (d.sub s.user_cpu_load old.user_cpu_load) user;
        system_cpu_load = d.add (d.sub s.system_cpu_load old.system_cpu_load) system;
      }

  -- The loop of `Handle` for one process.
  unfoldable pub handle_process : List ℕ → ProcessMessage d.Num → Handler d → Handler d
  handle_process host_name m h =
      let process_name = or_else [] m.process_name in
      let proc_key = create_proc_map_key host_name (or_else 0 m.pid) in
      let stat : ProcNameStat d =
        or_else new_proc_name_stat (find process_name h.process_name_map) in
      let more : ℕ = elim (find proc_key stat.proc_map) [ none ↦ 1 | some p ↦ 0 ] in
      record h {
        num_unique_processes = h.num_unique_processes + more;
        process_name_map =
            put process_name
              (update_loads proc_key (or_else (int d 0) m.user_cpu_load)
                (or_else (int d 0) m.system_cpu_load) stat)
              h.process_name_map;
      }

  unfoldable pub handle_processes : List ℕ → List (ProcessMessage d.Num) → Handler d → Handler d
  handle_processes host_name [] h = h
  handle_processes host_name (m ∷ ms) h =
      handle_processes host_name ms (handle_process host_name m h)

  -- `MinHeapCompare` compares loads.
  unfoldable pub load : BarData d → d.Num
  load b = d.add b.user b.system

  -- `push_heap`: a vector in ascending order is a heap with its least element in front. `pop_heap`
  -- takes that one away.
  unfoldable pub push_heap : BarData d → List (BarData d) → List (BarData d)
  push_heap b [] = b ∷ []
  push_heap b (c ∷ heap) =
      let rest : List (BarData d) = push_heap b heap in
      if d.lt (load c) (load b) then c ∷ rest else b ∷ c ∷ heap

  -- The least of the kept ones makes place for a greater one.
  unfoldable pub replace_min : BarData d → List (BarData d) → List (BarData d)
  replace_min b [] = []
  replace_min b (least ∷ heap) =
      if d.lt (load least) (load b) then push_heap b heap else least ∷ heap

  -- A round of the loop that finds the processes with the most load; one bar is for the others.
  unfoldable pub keep_greatest : BarData d → List (BarData d) → List (BarData d)
  keep_greatest b heap =
      if ltb (length heap + 1) num_processes_to_display
      then push_heap b heap
      else replace_min b heap

  unfoldable pub find_greatest : List (BarData d) → List (BarData d) → List (BarData d)
  find_greatest [] heap = heap
  find_greatest (b ∷ bs) heap = find_greatest bs (keep_greatest b heap)

  -- The bars of the names, in the order of the map.
  unfoldable pub bars : List (List ℕ × ProcNameStat d) → List (BarData d)
  bars [] = []
  bars ((name, s) ∷ m) =
      record { label = name; user = s.user_cpu_load; system = s.system_cpu_load } ∷ bars m

  -- Sums over bars, added to and taken from a start.
  unfoldable pub plus : (BarData d → d.Num) → d.Num → List (BarData d) → d.Num
  plus f sum [] = sum
  plus f sum (b ∷ bs) = plus f (d.add sum (f b)) bs

  unfoldable pub minus : (BarData d → d.Num) → d.Num → List (BarData d) → d.Num
  minus f rest [] = rest
  minus f rest (b ∷ bs) = minus f (d.sub rest (f b)) bs

  -- In percent of the whole load.
  unfoldable pub relative : d.Num → BarData d → BarData d
  relative total b = record b {
    user = d.mul (d.div b.user total) (int d 100);
    system = d.mul (d.div b.system total) (int d 100);
  }

  unfoldable pub relatives : d.Num → List (BarData d) → List (BarData d)
  relatives total [] = []
  relatives total (b ∷ bs) = relative total b ∷ relatives total bs

  -- `sort` with `MinHeapCompare`: the greatest load first.
  unfoldable pub insert_greater : BarData d → List (BarData d) → List (BarData d)
  insert_greater b [] = b ∷ []
  insert_greater b (c ∷ bs) =
      let rest : List (BarData d) = insert_greater b bs in
      if d.lt (load b) (load c) then c ∷ rest else b ∷ c ∷ bs

  unfoldable pub sort_bars : List (BarData d) → List (BarData d)
  sort_bars [] = []
  sort_bars (b ∷ bs) = insert_greater b (sort_bars bs)

  -- `_UpdateBarChart`: the utilization and the bars that are rendered. "others" in bytes.
  unfoldable pub update_bar_chart : Handler d → d.Num × List (BarData d)
  update_bar_chart h =
      let all = bars h.process_name_map in
      let heap = find_greatest all [] in
      let user = plus (λ b. b.user) (int d 0) all in
      let system = plus (λ b. b.system) (int d 0) all in
      let total = d.add user system in
      let others = relative total (record {
        label = 111 ∷ 116 ∷ 104 ∷ 101 ∷ 114 ∷ 115 ∷ [];
        user = minus (λ b. b.user) user heap;
        system = minus (λ b. b.system) system heap;
      }) in
      (d.div total (int d 2900), sort_bars (relatives total heap ++ (others ∷ [])))

  -- `Handle` at the time `now`: the handler, and what is rendered if it is time.
  unfoldable pub handle :
      (List ℕ → Option (List (ProcessMessage d.Num)))
      → d.Num
      → List ℕ
      → List ℕ
      → Handler d
      → Option (Handler d × Option (d.Num × List (BarData d)))
  handle parse now host_name payload h = elim (parse payload) [
    | none ↦ none
    | some ms ↦
        let seen = handle_processes host_name ms h in
        let counted : Handler d = record seen {
          num_messages_received = seen.num_messages_received + 1;
          total_bytes_received = seen.total_bytes_received + length payload;
        } in
        if d.lt (d.div (int d 1) (int d 2)) (d.sub now h.timestamp)
        then some (record counted { timestamp = now }, some (update_bar_chart counted))
        else some (counted, none)
  ]
