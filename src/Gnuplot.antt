-- ===== src/Gnuplot.antt =====
-- modules/gnuplot: the measurements of the program's own load.
pub mod Intervals
pub mod Schedule
pub mod Sampling
