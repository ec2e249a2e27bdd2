-- ===== src/Syncx.antt =====
-- The package syncx: syncx/waitgroup.go and syncx/completiontimer.go.
pub mod WaitGroup
pub mod CompletionTimer
mod Tests
