-- ===== src/Worker.antt =====
-- The process that holds the workers' keys (adn/worker_executor.py).
pub mod Sessions
pub mod Lifetime
