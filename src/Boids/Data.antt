-- ===== src/Boids/Data.antt =====
-- modules/boids2d/DataContainers.h and modules/boids2d/DataContainers.cpp: the processes that are
-- shown, each with its four boids and its entry in the table. `new` takes the next number for the
-- address; a boid's context has the number of the boid.
pub mod Balance
pub mod Colour
use Prim.Native.Nat.{bit_xor}
use wall_mon.Base.Bytes.{key_eq, or_else, decimal}
use wall_mon.Base.Bytes.{key_eq, or_else, decimal}
use wall_mon.Base.{
  ℕ, zero, suc, ◌+◌, ◌*◌, ◌/◌, ◌%◌, ◌^◌, Bool, true, false, Option, none, some, List, [], ◌∷◌, ◌++◌,
  ltb, if◌then◌else◌,
}
use wall_mon.Base.Double.{Double, int}
use wall_mon.Processes.Collector.{ProcessMessage}
use wall_mon.Boids.Entity.{Shape, quad, triangle_up, diamond, polygon}
use wall_mon.Boids.Scene.{Scene, add_entity, remove_entity}
use wall_mon.Boids.TableItem.{BoidSharedContext, TableItem, make_context, make_item, add_boid}
use wall_mon.Boids.Table.{Store, Table, set_item, set_context}

-- The statistics of a process that are used; the sums stay 0.
pub record StatBase (d : Double) : Type 0 where
  pub user_cpu_utilization : d.Num
  pub system_cpu_utilization : d.Num
  pub memory_utilization : d.Num
  pub network_in_utilization : d.Num
  pub network_out_utilization : d.Num
  pub storage_in_utilization : d.Num
  pub storage_out_utilization : d.Num
  pub num_samples : ℕ

pub record VisualBase : Type 0 where
  pub cpu : ℕ
  pub memory : ℕ
  pub network : ℕ
  pub storage : ℕ
  pub table_item : ℕ

pub record Proc (d : Double) : Type 0 where
  pub stat : StatBase d
  pub visual : VisualBase

-- The map of the processes, and what of the application it works on: the scene of the boids, the
-- top table, the items and contexts. `next` is the next number.
pub record Data (d : Double) : Type 0 where
  pub proc_map : List (List ℕ × Proc d)
  pub scene : Scene d
  pub table : Table d
  pub store : Store d
  pub next : ℕ

-- A process message with its host's name.
pub record HostMessage (d : Double) : Type 0 where
  pub host_name : List ℕ
  pub message : ProcessMessage d.Num

-- `_CreateProcKey`; ten digits are enough for 32 bits.
unfoldable pub create_proc_key : List ℕ → ℕ → List ℕ
create_proc_key host_name pid = host_name ++ decimal 10 pid

-- An unsigned long.
abbrev word : ℕ → ℕ
word n = n % 2 ^ 64

-- The loop of `_OatHash`, and the hash.
unfoldable pub oat_mix : ℕ → List ℕ → ℕ
oat_mix h [] = h
oat_mix h (p ∷ ps) =
    let h1 = word (h + p) in
    let h2 = word (h1 + word (h1 * 2 ^ 10)) in oat_mix (bit_xor h2 (h2 / 2 ^ 6)) ps

unfoldable pub oat_hash : List ℕ → ℕ
oat_hash key =
    let h0 = oat_mix 0 key in
    let h1 = word (h0 + word (h0 * 2 ^ 3)) in
    let h2 = bit_xor h1 (h1 / 2 ^ 11) in word (h2 + word (h2 * 2 ^ 15))

-- A colour that is not too dark.
abbrev bright : ℕ → ℕ
bright c = if ltb c 20 then 20 else c

unfoldable pub name_to_rgb_color : List ℕ → ℕ × ℕ × ℕ
name_to_rgb_color name =
    let hash = oat_hash name in
    (bright (hash % 256), bright ((hash / 2 ^ 8) % 256), bright ((hash / 2 ^ 16) % 256))

module _ {V : Type 0} where
  -- `procMap` by its keys, of which it has each once.
  unfoldable pub find : List ℕ → List (List ℕ × V) → Option V
  find k [] = none
  find k ((j, v) ∷ m) = let rest = find k m in if key_eq j k then some v else rest

  unfoldable pub erase_key : List ℕ → List (List ℕ × V) → List (List ℕ × V)
  erase_key k [] = []
  erase_key k ((j, v) ∷ m) =
      let rest : List (List ℕ × V) = erase_key k m in if key_eq j k then m else (j, v) ∷ rest

  -- The object that the map has for a key is changed; the map itself is not.
  unfoldable pub key_changed : List ℕ → V → List (List ℕ × V) → List (List ℕ × V)
  key_changed k v [] = []
  key_changed k v ((j, w) ∷ m) =
      let rest : List (List ℕ × V) = key_changed k v m in
      if key_eq j k then (j, v) ∷ m else (j, w) ∷ rest

module _ (d : Double) where
  -- The constructor of `StatBase`.
  unfoldable pub zero_stat : StatBase d
  zero_stat = record {
    user_cpu_utilization = int d 0;
    system_cpu_utilization = int d 0;
    memory_utilization = int d 0;
    network_in_utilization = int d 0;
    network_out_utilization = int d 0;
    storage_in_utilization = int d 0;
    storage_out_utilization = int d 0;
    num_samples = 0;
  }

  -- `BoidsApp::CreateBoid` of a new context; `junk` is what the constructor leaves alone.
  unfoldable pub create_boid : BoidSharedContext d → ℕ × ℕ × ℕ → Shape → Data d → ℕ × Data d
  create_boid junk (red, green, blue) shape s = (
    s.next,
    record s {
      scene = add_entity d s.next s.scene;
      store = set_context d s.next (make_context d junk red green blue shape) s.store;
      next = suc s.next;
    },
  )

  -- `InitBoids`: four boids, and an entry of the table that has them all.
  unfoldable pub init_boids :
      BoidSharedContext d → TableItem d → List ℕ → Data d → VisualBase × Data d
  init_boids junk junk_item name s0 =
      let colour = name_to_rgb_color name in
      let (cpu, s1) = create_boid junk colour quad s0 in
      let (memory, s2) = create_boid junk colour triangle_up s1 in
      let (network, s3) = create_boid junk colour diamond s2 in
      let (storage, s4) = create_boid junk colour polygon s3 in
      let with_boid : ℕ → TableItem d → TableItem d = λ b. add_boid d b (s4.store.context b) in
      let item =
        with_boid storage
          (with_boid network (with_boid memory (with_boid cpu (make_item d junk_item name)))) in
      (
        record {
          cpu = cpu;
          memory = memory;
          network = network;
          storage = storage;
          table_item = s4.next;
        },
        record s4 {
          store = set_item d s4.next item s4.store;
          table = record s4.table { add_queue = s4.table.add_queue ++ (s4.next ∷ []) };
          next = suc s4.next;
        },
      )

  -- The part of `Update` for a process that has terminated.
  unfoldable pub remove_proc : List ℕ → Proc d → Data d → Data d
  remove_proc key proc s =
      let v = proc.visual in
      record s {
        proc_map = erase_key key s.proc_map;
        scene =
            remove_entity d v.storage (
              remove_entity d v.network (remove_entity d v.memory (remove_entity d v.cpu s.scene)));
        table = record s.table { remove_queue = s.table.remove_queue ++ (some v.table_item ∷ []) };
      }

  -- The part of `Update` for a process that is not in the map.
  unfoldable pub new_proc :
      BoidSharedContext d → TableItem d → List ℕ → List ℕ → Data d → Proc d × Data d
  new_proc junk junk_item key name s =
      let (visual, s') = init_boids junk junk_item name s in
      let proc : Proc d = record { stat = zero_stat; visual = visual } in
      (proc, record s' { proc_map = (key, proc) ∷ s'.proc_map })

  -- `Update`: the process, if it goes on.
  unfoldable pub update :
      BoidSharedContext d → TableItem d → HostMessage d → Data d → Option (Proc d) × Data d
  update junk junk_item m s =
      let key = create_proc_key m.host_name (or_else 0 m.message.pid) in
      let name = or_else [] m.message.process_name in
      let created : Proc d × Data d = new_proc junk junk_item key name s in
      if or_else false m.message.is_terminated
      then (none, elim (find key s.proc_map) [ none ↦ s | some proc ↦ remove_proc key proc s ])
      else elim (find key s.proc_map) [
        | none ↦ (some created.0, created.1)
        | some proc ↦ (some proc, s)
      ]
