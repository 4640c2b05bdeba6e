-- ===== src/Model.antt =====
-- implementations/python/lib/src/anycall/model.py.
pub mod Dataclass
pub mod Request
pub mod Response
pub mod Keys
pub mod RoundTrip
