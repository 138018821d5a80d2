-- ===== src/Boids/Handler/Entries.antt =====
-- The entries that modules/boids2d/Handler.cpp keeps in the table.
use wall_mon.Base.Bytes.{or_else}
use wall_mon.Base.{ℕ, ◌≡◌, refl, ap, ◌∙◌, arith, Bool, Option, none, some, List, [], ◌∷◌}
use wall_mon.Base.Counts.{count}
use wall_mon.Base.Double.{Double}
use wall_mon.Processes.Collector.{ProcessMessage}
use wall_mon.Boids.TableItem.{BoidSharedContext, TableItem}
use wall_mon.Boids.Data.{Proc, Data, HostMessage, create_proc_key, key_changed, update}
use wall_mon.Boids.Data.Balance.{
  entries, removals_of, Balanced, update-Balanced, entries-key_changed, Own, update-Own,
}
use wall_mon.Boids.Handler.{handle_process_message, handle_all, show_process}

module _ (d : Double) (log2 : d.Num → d.Num) (logarithmic : Bool) (junk : BoidSharedContext d)
    (junk_item : TableItem d) where
  handle_process_message-Balanced :
      (m : HostMessage d) (s : Data d)
      → Balanced d s
      → Balanced d (handle_process_message d log2 logarithmic junk junk_item m s)
  unfolding handle_process_message show_process
  handle_process_message-Balanced m s b =
      go (update d junk junk_item m s) (update-Balanced d junk junk_item m s b).balanced
        (update-Own d junk junk_item m s)
    where
      go :
          (r : Option (Proc d) × Data d)
          → Balanced d r.1
          → Own d (create_proc_key m.host_name (or_else 0 m.message.pid)) r
          → Balanced d (elim r.0 [
            | none ↦ r.1
            | some p ↦
                let (q, store) = show_process d log2 logarithmic m p r.1.store in
                record r.1 {
                  store = store;
                  proc_map =
                      key_changed
                        (create_proc_key m.host_name (or_else 0 m.message.pid))
                        q
                        r.1.proc_map;
                }
          ])
      go (none, t) b o = b
      go (some p, t) b o = record {
        in_or_out = λ x.
            b.in_or_out x
            ∙ omega (
              arith,
              entries-key_changed d x _ p (show_process d log2 logarithmic m p t.store).0 t.proc_map
                  o refl,
            );
        once = b.once;
        fresh = b.fresh;
      }

  start :
      (s : Data d)
      → s.proc_map ≡ []
      → s.table.add_queue ≡ []
      → s.table.remove_queue ≡ []
      → Balanced d s
  unfolding count entries removals_of
  start s p a r =
      let none_in : (x : ℕ) → count x s.table.add_queue ≡ 0 = λ x. ap (count x) a in
      let none_here : (x : ℕ) → entries d x s.proc_map ≡ 0 = λ x. ap (entries d x) p in
      let none_out : (x : ℕ) → removals_of x s.table.remove_queue ≡ 0 = λ x. ap (removals_of x) r in
      record {
        in_or_out = λ x. omega (arith, none_in x, none_here x, none_out x);
        once = λ x. omega (arith, none_in x);
        fresh = λ x h. none_in x;
      }

  kept :
      (host_name : List ℕ) (ms : List (ProcessMessage d.Num)) (s : Data d)
      → Balanced d s
      → Balanced d (handle_all d log2 logarithmic junk junk_item host_name ms s)
  unfolding handle_all
  kept host_name [] s b = b
  kept host_name (m ∷ ms) s b =
      kept host_name ms _
        (handle_process_message-Balanced (record { host_name = host_name; message = m }) s b)

  -- Messages of hosts one after the other, each with its processes.
  unfoldable pub handle_hosts : List (List ℕ × List (ProcessMessage d.Num)) → Data d → Data d
  handle_hosts [] s = s
  handle_hosts ((host_name, ms) ∷ hosts) s =
      handle_hosts hosts (handle_all d log2 logarithmic junk junk_item host_name ms s)

  -- From a state with no process and empty queues, through the messages of any hosts: an item that
  -- has been put into the table is that of one process of the map, or else it has been taken out
  -- of the table once; no item is put in twice; and no item that is put in has the next number or a
  -- greater one.
  pub handle_hosts-Balanced :
      (hosts : List (List ℕ × List (ProcessMessage d.Num))) (s : Data d)
      → s.proc_map ≡ []
      → s.table.add_queue ≡ []
      → s.table.remove_queue ≡ []
      → Balanced d (handle_hosts hosts s)
  unfolding handle_hosts
  handle_hosts-Balanced hosts s p a r = go hosts s (start s p a r)
    where
      go :
          (hosts : List (List ℕ × List (ProcessMessage d.Num))) (s : Data d)
          → Balanced d s
          → Balanced d (handle_hosts hosts s)
      go [] s b = b
      go ((host_name, ms) ∷ hosts) s b = go hosts _ (kept host_name ms s b)
