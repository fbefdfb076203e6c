-- ===== src/Store/Visible.antt =====
-- What `get_value` returns after each operation.
use dcontext.Base.{
  ℕ, ◌+◌, ◌<◌, ◌≡◌, refl, ◌∙◌, sym, String, Option, none, some, List, [], ◌∷◌, arith, unwrap_or,
  or_else, string_eq, ◌==◌, if◌then◌else◌, Option-cases, inl, inr,
}
use native.Mathlib.Decide.{dec_lt}
use dcontext.Base.HashMap.{get, insert, extend, get-insert}
use dcontext.Value.{Value}
use dcontext.Scope.{ScopeNode, Values}
use dcontext.Registry.{RegistryMap}
use dcontext.Registry.Reads.{cached_keys}
use dcontext.Store.{ContextStore, max_scope_depth, freeze, fork_child}
use dcontext.Store.Shape.{IsLinked, IsWellFormed}
use dcontext.Store.Lookup.{set_value, find_local, find_frozen, find_fallback, get_value}
use dcontext.Store.Push.{effective_values, push_scope}
use dcontext.Store.Keeps.{real_child, push_scope-real, push_scope-dead}

module _ {D : Type 0} where
  -- After a write, its key shows the value, and every other key shows what it showed.
  pub get_value-set_value :
      (k j : String) (v : Value D) (s : ContextStore D)
      → get_value (set_value k v s).0 j ≡ (if k == j then some v else get_value s j)
  unfolding set_value get_value
  get_value-set_value k j v s = ground (arith, get-insert j k v s.current_values)

  -- Every entry of a table is the value that the store shows.
  abbrev Agrees : ContextStore D → Values D → Type 0
  Agrees s m = (k : String) (v : Value D) → get k m ≡ some v → get_value s k ≡ some v

  insert-Agrees :
      (s : ContextStore D) (k : String) (v : Value D) (m : Values D)
      → get_value s k ≡ some v
      → Agrees s m
      → Agrees s (insert k v m)
  insert-Agrees s k v m h a j w e =
      ground (arith, get-insert j k v m, string_eq.same_iff k j, a j w)

  cached-Agrees :
      (s : ContextStore D) (m : Values D) (keys : List String)
      → Agrees s m
      → Agrees s (extend m (effective_values s keys))
  unfolding effective_values extend
  cached-Agrees s m [] a = a
  cached-Agrees s m (k ∷ keys) a = elim (Option-cases (get_value s k)) [
    | inl unset ↦ rw (unset, effective_values) (cached-Agrees s m keys a)
    | inr (v, set) ↦
        rw (set, effective_values)
          (cached-Agrees s (insert k v m) keys (insert-Agrees s k v m set a))
  ]

  find_local_below :
      (b : ℕ) (k : String) (n : ScopeNode D) (p : List (ScopeNode D))
      → b < n.depth
      → find_local b k (n ∷ p) ≡ or_else (get k n.values) (find_local b k p)
  unfolding find_local
  find_local_below b k n p h = ground arith

  get_value_parts :
      (s : ContextStore D) (k : String)
      → get_value s k
        ≡ or_else
            (get k s.current_values)
            (or_else (find_local (unwrap_or 0 s.scope_barrier) k s.scope_chain) (find_fallback s k))
  unfolding get_value
  get_value_parts s k = ground arith

  pub get_value-depth :
      (d : ℕ) (s : ContextStore D) (k : String)
      → get_value (record s { depth = d }) k ≡ get_value s k
  unfolding get_value
  get_value-depth d s k = refl

  real_child-Agrees :
      (registry : RegistryMap D) (name : Option String) (s : ContextStore D)
      → Agrees s (real_child registry name s).current_values
  unfolding real_child get
  real_child-Agrees registry name s k v e =
      sym (get_value-depth (s.depth + 1) s k)
      ∙ cached-Agrees (record s { depth = s.depth + 1 }) [] (cached_keys registry) (λ i u q. cc) k v
          e

  pub get_value-real_child :
      (registry : RegistryMap D) (name : Option String) (s : ContextStore D) (k : String)
      → IsWellFormed s
      → get_value (real_child registry name s) k ≡ get_value s k
  unfolding real_child find_fallback
  get_value-real_child registry name s k w =
      let t = real_child registry name s in
      let b = unwrap_or 0 s.scope_barrier in
      elim (Option-cases (get k t.current_values)) [
        | inl unset ↦
            get_value_parts t k
            ∙ ground (
              arith,
              unset,
              find_local_below b k (freeze s s.depth) s.scope_chain
                  (omega (arith, w.below, w.levels)),
              get_value_parts s k,
            )
        | inr (v, set) ↦
            get_value_parts t k ∙ ground (arith, set, real_child-Agrees registry name s k v set)
      ]

  -- On a well-formed store, a new scope, real or dead, shows at each key what was shown before
  -- it.
  pub get_value-push_scope :
      (registry : RegistryMap D) (name : Option String) (s : ContextStore D) (k : String)
      → IsWellFormed s
      → get_value (push_scope registry name s).0 k ≡ get_value s k
  get_value-push_scope registry name s k w = elim (dec_lt max_scope_depth s.depth) [
    | no real ↦
        rw (push_scope-real registry name s (omega arith))
          (get_value-real_child registry name s k w)
    | yes dead ↦
        rw (push_scope-dead registry name s dead w.bounded) (get_value-depth (s.depth + 1) s k)
  ]

  find_local-find_frozen :
      (k : String) (chain : List (ScopeNode D))
      → IsLinked chain
      → find_local 0 k chain ≡ find_frozen k chain
  unfolding find_local find_frozen
  find_local-find_frozen k [] l = refl
  find_local-find_frozen k (n ∷ p) l = ground (arith, find_local-find_frozen k p)

  -- A well-formed store with no barrier shows at each key what its fork shows, and where the fork
  -- shows nothing, what the frozen parent of the store holds.
  pub get_value-fork_child :
      (s : ContextStore D) (k : String)
      → IsWellFormed s
      → s.scope_barrier ≡ none
      → get_value s k ≡ or_else (get_value (fork_child s) k) (find_frozen k s.frozen_parent)
  unfolding get_value find_fallback find_local find_frozen get
  get_value-fork_child s k w no_barrier =
      ground (arith, find_local-find_frozen k s.scope_chain w.linked)

  -- A fork of a fresh fork shows nothing at any key, whatever the first store holds.
  get_value-fork_fork :
      (s : ContextStore D) (k : String) → get_value (fork_child (fork_child s)) k ≡ none
  unfolding get_value find_fallback find_local find_frozen get
  get_value-fork_fork s k = refl
