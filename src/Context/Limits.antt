-- ===== src/Context/Limits.antt =====
-- Processes whose limits differ: `set_max_scope_chain_len` of dcontext/src/config.rs is called in each.
use dcontext.Base.{◌≡◌, ap, refl, String, List, [], ◌∷◌, ◌++◌, some}
use dcontext.Config.{Config}
use dcontext.Store.Chain
use dcontext.Store.Chain.{limit_chain, full_chain}
use dcontext.Store.Names.{full_chain-from_values_with_chain}
use dcontext.Snapshot.{ContextSnapshot, store_from_snapshot_with_registry}
use dcontext.Context.{Env, scope_chain, store_from_snapshot}

-- A process with limits of its own.
abbrev pub under : {D : Type 0} → Env D → Config → Env D
under env limits = record env { config = limits }

-- A chain of names that is cut in one process after the other.
abbrev pub cut_in : List Config → List String → List String
cut_in [] chain = chain
cut_in (limits ∷ processes) chain = cut_in processes (limit_chain limits.max_scope_chain_len chain)

pub cut_in-append :
    (processes : List Config) (limits : Config) (chain : List String)
    → cut_in (processes ++ limits ∷ []) chain
      ≡ limit_chain limits.max_scope_chain_len (cut_in processes chain)
cut_in-append [] limits chain = refl
cut_in-append (p ∷ processes) limits chain =
    cut_in-append processes limits (limit_chain p.max_scope_chain_len chain)

module _ {D : Type 0} where
  pub scope_chain-restored :
      (env : Env D) (snap : ContextSnapshot D)
      → scope_chain env (some (store_from_snapshot env snap))
        ≡ limit_chain env.config.max_scope_chain_len snap.scope_chain
  unfolding scope_chain store_from_snapshot store_from_snapshot_with_registry Chain.scope_chain
  scope_chain-restored env snap =
      ap (limit_chain env.config.max_scope_chain_len)
        (full_chain-from_values_with_chain _ snap.scope_chain)
