-- ===== src/Util.antt =====
-- lib/src/util/: what the four programs share beside the wire.
pub mod ThreadManager
