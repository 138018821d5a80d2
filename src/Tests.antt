-- ===== src/Tests.antt =====
-- Runs of the model on small inputs, and the theorems at inputs that meet their hypotheses.
mod Numbers
mod QueueTests
mod BufferTests
mod SinkTests
mod RouterTests
mod StreamerTests
mod ProcessTests
mod SchedulerTests
mod DispatcherTests
mod StatTests
mod ButtonTests
mod BoidTests
mod TableTests
mod ChartTests
mod GnuplotTests
mod WallViewTests
