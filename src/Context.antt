-- ===== src/Context.antt =====
-- lib/Wallmon.h: class Context, which a monitor and the program share.
use wall_mon.Base.{
  ℕ, String, Bool, true, false, List, [], ◌∷◌, ◌++◌, ◌≡◌, append_assoc, append-nil, map, pos,
}
use wall_mon.Base.Double.{Double}

-- `STREAMER_ENTRY_PORT` of lib/Config.h.
abbrev pub streamer_entry_port : ℕ
streamer_entry_port = 51023

pub record Context (N : Type 0) : Type 0 where
  pub key : String
  pub servers : List (String × ℕ)
  pub sample_frequency_msec : N
  pub concurrent_execution : Bool
  pub include_statistics : Bool
  pub exits : Bool

unfoldable pub init : (d : Double) → Context d.Num
init d = record {
  key = "";
  servers = [];
  sample_frequency_msec = d.num (pos 1000);
  concurrent_execution = false;
  include_statistics = false;
  exits = false;
}

module _ {N : Type 0} where
  unfoldable pub add_server : String × ℕ → Context N → Context N
  add_server address c = record c { servers = c.servers ++ (address ∷ []) }

  -- `AddServer(string)`, at the port where servers listen.
  unfoldable pub add_server_default : String → Context N → Context N
  unfolding add_server
  add_server_default name c = add_server (name, streamer_entry_port) c

  -- The loops of both `AddServers`.
  unfoldable pub add_server_list : List (String × ℕ) → Context N → Context N
  add_server_list [] c = c
  add_server_list (a ∷ as') c = add_server_list as' (add_server a c)

  unfoldable pub add_servers : List String → Context N → Context N
  add_servers [] c = c
  add_servers (s ∷ ss) c = add_servers ss (add_server (s, streamer_entry_port) c)

  unfoldable pub exit : Context N → Context N
  exit c = record c { exits = true }

  -- `AddServers` appends all the addresses in order, the names with the default port, and changes
  -- nothing else.
  pub add_servers_lem :
      (names : List String) (c : Context N)
      → add_servers names c
        ≡ record c { servers = c.servers ++ map (λ s. (s, streamer_entry_port)) names }
  unfolding add_servers add_server
  add_servers_lem [] c = rw append-nil
  add_servers_lem (s ∷ ss) c = rw (add_servers_lem ss, append_assoc)
