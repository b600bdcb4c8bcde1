-- ===== src/Validation.antt =====
-- python/src/cekat_event_sdk/validation.py, in three parts: the configuration of a client, the
-- normalisation of event properties, and the request body.
pub mod Origin
pub mod Config
pub mod Properties
pub mod Order
pub mod Body
