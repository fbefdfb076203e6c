-- ===== src/Snapshot.antt =====
-- dcontext/src/snapshot.rs, with the two conversions between snapshots and stores from
-- dcontext/src/lib.rs.
use dcontext.Base.{String, ◌&&◌, List, [], not}
use dcontext.Base.HashMap.{filter}
use dcontext.Config.{Config}
use dcontext.Scope.{Values}
use dcontext.Registry.{RegistryMap}
use dcontext.Registry.Reads.{is_local_key, is_valid_value}
use dcontext.Store.{ContextStore, from_values_with_chain}
use dcontext.Store.Lookup.{collect_values}
use dcontext.Store.Chain.{scope_chain}

pub record ContextSnapshot (D : Type 0) : Type 0 where
  pub values : Values D
  pub scope_chain : List String

module _ {D : Type 0} where
  -- `ContextSnapshot::empty`, which is also its `Default`.
  abbrev pub empty : ContextSnapshot D
  empty = record { values = []; scope_chain = [] }

  unfoldable pub capture_with_registry : Config → ContextStore D → RegistryMap D → ContextSnapshot D
  capture_with_registry config store registry = record {
    values = filter (λ k v. not (is_local_key registry k)) (collect_values store);
    scope_chain = scope_chain config store;
  }

  unfoldable pub store_from_snapshot_with_registry :
      ContextSnapshot D → RegistryMap D → ContextStore D
  store_from_snapshot_with_registry snap registry =
      from_values_with_chain
        (filter (λ k v. is_valid_value registry k v && not (is_local_key registry k)) snap.values)
        snap.scope_chain
