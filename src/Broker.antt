-- ===== src/Broker.antt =====
-- internal/broker: the validation of results.
pub mod Results
