-- ===== src/Boids.antt =====
-- modules/boids2d: the module that draws the processes as boids in an application on the display
-- wall.
pub mod Entity
pub mod Scene
pub mod Events
pub mod TableItem
pub mod Table
pub mod Data
pub mod Handler
pub mod Boid
pub mod Fps
pub mod Button
pub mod Mouse
