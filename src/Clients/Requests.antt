-- ===== src/Clients/Requests.antt =====
-- The requests of the cache (packages/clients/src/courier/v1/cache.rs). A set is a list of its
-- members.
use hurry.Prelude.{String, Option, List}
use hurry.Clients.Glibc.{GlibcVersion}
use hurry.Clients.Saved.{SavedUnit, SavedUnitHash}

pub record CargoSaveUnitRequest : Type 0 where
  pub unit : SavedUnit
  pub resolved_target : String
  pub linux_glibc_version : Option GlibcVersion

pub record CargoRestoreRequest : Type 0 where
  pub units : List SavedUnitHash
  pub host_glibc_version : Option GlibcVersion
