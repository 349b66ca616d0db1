-- ===== src/Types/Entity.antt =====
-- `FileEntity` of src/fs/types.ts and `SyncRecord` of src/sync/types.ts. A sentinel stays what it is
-- in the source: `hash` is "" and `mtime` is 0 where there is no value. `backendMeta` is never read.
use obsidian_air_sync.Prelude.{ℕ, Bool, Option, Eq, ℕ_discrete}
use obsidian_air_sync.Prelude.Text.{Str}

pub data PathAuthority : Type 0 where
  actual_resolved requested_echo : PathAuthority

-- The algorithm is an open set of ids.
pub record RemoteChecksum : Type 0 where
  pub algo : Str
  pub value : Str

pub record FileEntity : Type 0 where
  pub path : Str
  pub path_authority : Option PathAuthority
  pub identity_key : Option Str
  pub is_directory : Bool
  pub size : ℕ
  pub mtime : ℕ
  pub hash : Str
  pub remote_checksum : Option RemoteChecksum

pub record SyncRecord : Type 0 where
  pub path : Str
  pub hash : Str
  pub local_mtime : ℕ
  pub remote_mtime : ℕ
  pub local_size : ℕ
  pub remote_size : ℕ
  pub remote_checksum : Option RemoteChecksum
  pub remote_identity_key : Str
  pub synced_at : ℕ

pub record MixedEntity : Type 0 where
  pub path : Str
  pub local : Option FileEntity
  pub remote : Option FileEntity
  pub prev_sync : Option SyncRecord

unfoldable pub SyncRecord-discrete : Discrete SyncRecord
unfolding ℕ_discrete
SyncRecord-discrete = hlevel ℕ_discrete

instance unfoldable pub record_eq : Eq SyncRecord
unfolding SyncRecord-discrete
record_eq = record { dec = SyncRecord-discrete }

pub data SyncSide : Type 0 where
  local remote : SyncSide

instance unfoldable pub side_eq : Eq SyncSide
side_eq = record { dec = hlevel }
