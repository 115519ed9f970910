-- ===== src/Worker.antt =====
-- Around the worker server: start and reload (worker.py), the metrics (metrics.py), the test helper
-- (testing.py), the bootstrap of trust (trust.py) and the older transport (wire.py and transport.py).
pub mod Reload
pub mod Start
pub mod Metrics
pub mod Testing
pub mod Trust
pub mod Router
pub mod Pilotctl
