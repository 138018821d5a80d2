-- ===== src/Boids/TableItem.antt =====
-- modules/boids2d/BoidSharedContext.cpp and modules/boids2d/TableItem.cpp: what a boid and a table
-- show of a process. A text is the list of its bytes, and a boid's context is known by a number,
-- which stands for its address. The mutexes are not modelled: an operation is one step.
use wall_mon.Base.{
  ℕ, String, Bool, true, false, List, [], ◌∷◌, ◌++◌, ℤ, negsuc, length, ◌==◌, if◌then◌else◌,
}
use wall_mon.Base.Double.{Double, int}
use wall_mon.Boids.Entity.{Shape}

pub record BoidSharedContext (d : Double) : Type 0 where
  pub red : ℕ
  pub green : ℕ
  pub blue : ℕ
  pub boid_shape : Shape
  pub is_highlighted : Bool
  pub highlight_number : ℤ
  pub destx : d.Num
  pub desty : d.Num
  pub tail_length : d.Num

pub record TableItem (d : Double) : Type 0 where
  pub key : List ℕ
  pub r : ℕ
  pub g : ℕ
  pub b : ℕ
  pub highlight_number : ℤ
  pub score : d.Num
  pub proc_name : List ℕ
  pub host_name : List ℕ
  pub pid : List ℕ
  pub user : String
  pub time : String
  pub num_threads : List ℕ
  pub boids : List ℕ

module _ (d : Double) where
  -- The constructor, where `junk` holds the fields that it leaves alone.
  unfoldable pub make_context : BoidSharedContext d → ℕ → ℕ → ℕ → Shape → BoidSharedContext d
  make_context junk red green blue shape = record junk {
    red = red;
    green = green;
    blue = blue;
    boid_shape = shape;
    is_highlighted = false;
  }

  unfoldable pub set_destination : d.Num → d.Num → BoidSharedContext d → BoidSharedContext d
  set_destination x y c = record c { destx = x; desty = y }

  unfoldable pub get_destination : BoidSharedContext d → d.Num × d.Num
  get_destination c = (c.destx, c.desty)

  unfoldable pub set_tail_length : d.Num → BoidSharedContext d → BoidSharedContext d
  set_tail_length length c = record c { tail_length = length }

  unfoldable pub enable_highlight : ℤ → BoidSharedContext d → BoidSharedContext d
  enable_highlight number c = record c { is_highlighted = true; highlight_number = number }

  unfoldable pub disable_highlight : BoidSharedContext d → BoidSharedContext d
  disable_highlight c = record c { is_highlighted = false }

  -- The constructor of `TableItem`; its colours are not set.
  unfoldable pub make_item : TableItem d → List ℕ → TableItem d
  make_item junk key = record junk {
    key = key;
    score = int d 0;
    highlight_number = negsuc 0;
    proc_name = [];
    host_name = [];
    pid = [];
    user = "";
    time = "";
    num_threads = [];
    boids = [];
  }

  unfoldable pub add_boid : ℕ → BoidSharedContext d → TableItem d → TableItem d
  add_boid address boid item =
      let coloured : TableItem d =
        if length item.boids == 0
        then record item { r = boid.red; g = boid.green; b = boid.blue }
        else item in
      record coloured { boids = item.boids ++ (address ∷ []) }

  unfoldable pub set_score : d.Num → TableItem d → TableItem d
  set_score score item = record item { score = score }

  unfoldable pub set_proc_name : List ℕ → TableItem d → TableItem d
  set_proc_name proc_name item = record item { proc_name = proc_name }

  unfoldable pub set_host_name : List ℕ → TableItem d → TableItem d
  set_host_name host_name item = record item { host_name = host_name }

  unfoldable pub set_pid : List ℕ → TableItem d → TableItem d
  set_pid pid item = record item { pid = pid }

  unfoldable pub set_user : String → TableItem d → TableItem d
  set_user user item = record item { user = user }

  unfoldable pub set_start_time : String → TableItem d → TableItem d
  set_start_time time item = record item { time = time }

  unfoldable pub set_num_threads : List ℕ → TableItem d → TableItem d
  set_num_threads num_threads item = record item { num_threads = num_threads }
