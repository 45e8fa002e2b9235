-- ===== src/Agent.antt =====
-- cmd/hosa/main.go: how the parts are put together. A log line of `main` is a `Line`, before `Sprintf`
-- turns it into text.
pub mod Meminfo
pub mod Wiring
pub mod React
pub mod Loop
