-- ===== src/Tests/TableTests.antt =====
-- The table of modules/boids2d and its data.
use wall_mon.Base.Bytes.{key_eq, decimal}
use wall_mon.Base.{
  ℕ, ◌+◌, ◌≡◌, refl, arith, Bool, true, false, none, some, List, [], ◌∷◌, ℤ, pos, negsuc, length,
  get_elem?, get_or, ap, ltb, ◌==◌, ◌||◌, if◌then◌else◌,
}
use wall_mon.Base.Counts.{count}
use wall_mon.Processes.Collector.{ProcessMessage}
use wall_mon.Boids.Entity.{quad}
use wall_mon.Boids.TableItem.{BoidSharedContext, TableItem}
use wall_mon.Boids.Table.{
  Store, Table, add_item, add_items, remove_item, sort, insert_sorted, lower_keys, to_lower, lower,
  set_item, compared,
}
use wall_mon.Boids.Table.Groups.{occurrences, Grouped, add_items-Grouped}
use wall_mon.Boids.Table.Removal.{Removed, remove_item-Grouped}
use wall_mon.Boids.Table.Messages.{sort_table}
use wall_mon.Boids.Table.Selection.{sort_table-Selects}
use wall_mon.Boids.Data.{Data, create_proc_key}
use wall_mon.Boids.Data.Balance.{Balanced}
use wall_mon.Boids.Handler.Entries.{handle_hosts, handle_hosts-Balanced}
use wall_mon.Tests.Numbers.{whole}

abbrev item_of : List ℕ → TableItem whole
item_of key = record {
  key = key;
  r = 0;
  g = 0;
  b = 0;
  highlight_number = negsuc 0;
  score = pos 0;
  proc_name = [];
  host_name = [];
  pid = [];
  user = "";
  time = "";
  num_threads = [];
  boids = [];
}

abbrev context : BoidSharedContext whole
context = record {
  red = 0;
  green = 0;
  blue = 0;
  boid_shape = quad;
  is_highlighted = false;
  highlight_number = negsuc 0;
  destx = pos 0;
  desty = pos 0;
  tail_length = pos 0;
}

-- Items 3 and 9 have the key "X", all others "a".
abbrev store : Store whole
store = record {
  item = λ i. if (i == 3) || (i == 9) then item_of (88 ∷ []) else item_of (97 ∷ []);
  context = λ i. context;
}

abbrev groups : List (List ℕ)
groups = (3 ∷ []) ∷ (1 ∷ 2 ∷ []) ∷ []

groups-Grouped : Grouped whole store groups
groups-Grouped = (tt, ((λ e. differ e), tt), ((refl, tt), tt, tt))
  where
    differ : ◌≡◌ {A = List ℕ} (97 ∷ []) (88 ∷ []) → ⊥
    differ e = let heads : ◌≡◌ {A = ℕ} 97 88 = ap (λ l. get_or l 0 0) e in omega (arith, heads)

add_items-Grouped_example :
    (hs : List (List ℕ)) × (add_items whole store (4 ∷ 5 ∷ []) groups ≡ some hs)
    × Grouped whole store hs
    × ((j : ℕ) → occurrences j hs ≡ occurrences j groups + count j (4 ∷ 5 ∷ []))
add_items-Grouped_example = add_items-Grouped whole store (4 ∷ 5 ∷ []) groups groups-Grouped

added : add_items whole store (4 ∷ 5 ∷ []) groups ≡ some ((3 ∷ []) ∷ (1 ∷ 2 ∷ 4 ∷ 5 ∷ []) ∷ [])
unfolding add_items add_item key_eq
added = refl

remove_item-Grouped_example : Removed whole store 1 groups (remove_item 1 groups)
unfolding occurrences count
remove_item-Grouped_example =
    remove_item-Grouped whole store 1 groups groups-Grouped (omega arith) (λ e. differ e)
  where
    differ : ◌≡◌ {A = List ℕ} (1 ∷ 2 ∷ []) (1 ∷ []) → ⊥
    differ e = cc

-- The only item of the last group is not removed in a defined way.
removal_fails : remove_item 6 ((1 ∷ []) ∷ (6 ∷ []) ∷ []) ≡ none
unfolding remove_item
removal_fails = refl

-- After the alphabetical sort, another process "X" gets a group of its own.
split_group :
    add_item whole (compared whole groups store) 9 ((3 ∷ []) ∷ []) ≡ some ((3 ∷ []) ∷ (9 ∷ []) ∷ [])
unfolding add_item compared lower_keys set_item to_lower lower key_eq
split_group = refl

abbrev table : Table whole
table = record {
  items = groups;
  current_pixel_index = pos 0;
  item_height = pos 6;
  selected_item_index = some 0;
  add_queue = [];
  remove_queue = [];
  is_highlighted = false;
  is_top_level_table = true;
  is_master = true;
  startup_sort_done = true;
  process_termination_index = none;
  start_timestamp = pos 0;
}

-- Longer groups first.
abbrev longer : List ℕ → List ℕ → Bool
longer a b = ltb (length b) (length a)

sort_table-Selects_example :
    (u : Table whole) × (j : ℕ) × (sort_table whole longer table ≡ some u)
    × (u.selected_item_index ≡ some j)
    × (get_elem? u.items j ≡ some (3 ∷ []))
    × ((y : ℕ) → occurrences y u.items ≡ occurrences y table.items)
unfolding occurrences count
sort_table-Selects_example = sort_table-Selects whole longer table 0 3 [] refl refl (omega arith)

sorted : sort longer groups ≡ (1 ∷ 2 ∷ []) ∷ (3 ∷ []) ∷ []
unfolding sort insert_sorted
sorted = refl

abbrev data_start : Data whole
data_start = record {
  proc_map = [];
  scene = record {
    x = pos 0;
    y = pos 0;
    w = pos 100;
    h = pos 100;
    scale = pos 1;
    entity_list = [];
    entity_list_init = [];
  };
  table = table;
  store = store;
  next = 10;
}

abbrev message : ℕ → Bool → ProcessMessage ℤ
message pid is_terminated = record {
  is_terminated = some is_terminated;
  process_name = some (97 ∷ []);
  pid = some pid;
  user_cpu_load = none;
  system_cpu_load = none;
  user_cpu_utilization = some (pos 20);
  system_cpu_utilization = some (pos 10);
  memory_utilization = none;
  memory_bytes = none;
  io_in_bytes = none;
  io_out_bytes = none;
  network_in_bytes = none;
  network_out_bytes = none;
  storage_in_bytes = none;
  storage_out_bytes = none;
  num_read_system_calls_per_sec = none;
  num_write_system_calls_per_sec = none;
  user = none;
  start_time = none;
  num_threads = some 2;
  num_page_faults_per_sec = none;
}

-- Two hosts; a process of the first one terminates.
abbrev hosts : List (List ℕ × List (ProcessMessage ℤ))
hosts =
    (104 ∷ [], message 7 false ∷ message 8 false ∷ [])
    ∷ (105 ∷ [], message 7 false ∷ [])
    ∷ (104 ∷ [], message 7 true ∷ [])
    ∷ []

handle_hosts-Balanced_example :
    Balanced whole (handle_hosts whole (λ v. v) false context (item_of []) hosts data_start)
handle_hosts-Balanced_example =
    handle_hosts-Balanced whole (λ v. v) false context (item_of []) hosts data_start refl refl refl

-- Process 3 of host "h2" has the key of process 23 of host "h".
same_key : create_proc_key (104 ∷ 50 ∷ []) 3 ≡ create_proc_key (104 ∷ []) 23
unfolding create_proc_key decimal
same_key = refl
