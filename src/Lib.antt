-- ===== src/Lib.antt =====
-- WallMon measures the processes of a cluster's computers and shows them on a wall of displays. A
-- daemon on each computer samples, and streams messages to servers; a server receives them and
-- hands them to the handlers of the modules that show them. The path of a message through the
-- program, and the files that model its parts:
--   * Queue (lib/Queue.h): threads hand over items through a bounded queue. Queue/Threads has the
--     interleavings of threads in Push and Pop, Queue/Order and Queue/Progress what holds of them.
--   * Wire (daemon/StreamItem.cpp): the 4 byte header in network byte order, and the payload.
--   * ByteBuffer (lib/ByteBuffer.cpp): the bytes of a connection that are not yet routed.
--   * IoLogger (lib/IoLogger.cpp): counts bytes for the log.
--   * Sink (server/DataSink.cpp): accepts connections, reads into their buffers and cuts what has
--     arrived into messages: `accept_callback` is _AcceptCallback, `read_callback` is _ReadCallback,
--     whose loop is `read_messages` of Sink/Reader. Sink/Framing is about the cutting, Sink/Clients
--     and Sink/Lifetime about the book-keeping, from the start through any sequence of callbacks.
--   * Router (server/DataRouter.cpp): hands a message to the handler that is registered for its
--     key, `route_item` for each item from the queue.
--   * Streamer (daemon/Streamer.cpp): the daemon's connections (Streamer/Setup), the sending of a
--     message on each of its sockets (Streamer/Sending), and the loss of connections
--     (Streamer/Cleanup). Streamer/Delivery has the whole stream, Streamer/EndToEnd joins it to Sink.
--   * Scheduler (daemon/Scheduler.cpp): `timer_callback` of Scheduler/Callback samples a collector,
--     sets its timer and queues the message; Scheduler/Timing is about what it leaves.
--   * Dispatcher (lib/MonitorDispatcher.cpp): loads and stops monitors, which it registers with a
--     Manager, for a server the Router (Dispatcher/Lifecycle).
--   * Processes: which processes are new (Processes/Pids, lib/PidMonitor.cpp), the counters of one
--     (Processes/Monitor, lib/LinuxProcessMonitorLight.cpp), and a sample of all of them
--     (Processes/Collector, lib/ProcessCollector.cpp).
--   * WallView (lib/WallView.cpp): a grid of tiles on the wall, and in WallView/Grid where each is.
--   * Boids (modules/boids2d): a handler's application on the wall. Boids/Entity has what is touched,
--     `handle_hit` and `run_callbacks` (Boids/Entity/Speed: how fast it moves); Boids/Scene the scenes
--     of entities (Boids/Scene/Life: from `add_entity` to `remove_entity`; Boids/Scene/Hits: what is
--     at a point); Boids/Events how the events of a touch find their entity, `filter_and_route_event`
--     (Boids/Events/Routing). Boids/Table is the table of processes: Boids/Table/Loop its OnLoop,
--     Boids/Table/Messages what the state messages do, Boids/Table/Touches the positions of touches
--     and rows, Boids/Table/Groups, Removal and Selection what holds of the groups. Boids/Data has
--     the map of processes, Boids/Handler what a message does to it (Boids/Handler/Entries).
--     Boids/Boid moves a boid (Boids/Boid/Tail: how long its tail gets), Boids/Button is a button
--     with its animation (Boids/Button/Animation), Boids/Fps the pace of the frames,
--     and Boids/Mouse makes events of the mouse (Boids/Mouse/Ids: which ids they have).
--   * Barchart (modules/barchart/Handler.cpp): the loads of processes by name, and in Barchart/Top
--     which of them get a bar.
--   * Gnuplot (modules/gnuplot): the intervals of the measurement and the controller of the sample
--     frequency in Gnuplot/Intervals, the order of samples in Gnuplot/Schedule; the handler of
--     samples in Gnuplot/Sampling, with its maps in Filing, what they hold in Kept and the samples
--     of several hosts in Hosts.
--   * Stat (lib/Stat.h): samples of values and their statistics, Stat/Adding and Stat/Extremes.
--   * Context, Message (lib/Wallmon.h, lib/stubs/Wallmon.proto): what monitors and program share.
-- Base has names of the libraries, lists and arrays, C integers, maps from strings
-- and numbers, and the record
-- Double of the operations on doubles, whose arithmetic is a parameter of what uses it.
--
-- A C++ object is a record, a method that changes it is a function to the new record. A failed
-- assertion, a failed CHECK, LOG(FATAL) and undefined behaviour are `none`. Memory that is not
-- initialised is a parameter `junk`. Unsigned arithmetic is modulo 2^32 or 2^64; a signed int is a
-- ℤ, or a number where the code keeps it from being negative. The sizes of messages and of buffers,
-- which come from outside, are `none` where they overflow an int; counters (events, samples, touches,
-- frames) are taken not to get that far.
--
-- `read_messages` runs on fuel, which `read_callback` sets to the number of bytes in the buffer:
-- each round of the loop takes a header of 4 bytes at least, or ends the loop. The loop of _SendAll
-- recurses on the answers of the kernel, and is `none` when they are used up.
-- `decimal` of Base/Bytes has fuel for ten digits, enough for a number of 32 bits.
-- `set_difference` of Processes/Pids has one more unit of fuel than both ranges have elements.
--
-- Not modelled: sockets, libev, files below /proc, the class loader, protobuf's encoding and
-- the drawing of the modules. What the code gets from them is an argument of the operation that
-- uses it.
mod Base
pub mod Queue
pub mod ByteBuffer
pub mod Wire
pub mod Context
pub mod Message
pub mod Router
pub mod IoLogger
pub mod Sink
pub mod Streamer
pub mod Boids
pub mod Barchart
pub mod Gnuplot
pub mod WallView
pub mod Stat
pub mod Dispatcher
pub mod Scheduler
pub mod Processes
mod Tests
