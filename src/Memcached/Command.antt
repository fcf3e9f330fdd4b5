-- ===== src/Memcached/Command.antt =====
-- src/memcached/command.rs: the commands that the probe sends. The trait `Command` is a data type
-- with a constructor for each command, and its method a function by cases.
pub mod Set
pub mod Get
pub mod Decode
use probes.Prelude.Bytes.{Bytes}

pub data Command : Type 0 where
  set : Set.Set → Command
  get : Get.Get → Command

unfoldable pub as_bytes : Command → Bytes
as_bytes (set c) = Set.as_bytes c
as_bytes (get c) = Get.as_bytes c
