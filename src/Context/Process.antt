-- ===== src/Context/Process.antt =====
-- The threads of a process over one registry: their calls in any order, tasks polled on any of
-- them, stores that move between them, and registrations and limits that are set meanwhile.
use dcontext.Base.{
  or_else, ℕ, ◌≡◌, refl, none, some, List, [], ◌∷◌, ◌++◌, String, inl, inr, to_list, if◌then◌else◌,
  nat_eqb, Bool-cases, string_eq,
}
use mathlib.Core.Path.{subst}
use dcontext.Base.HashMap.{get}
use dcontext.Config.{set_max_context_size, set_max_scope_chain_len}
use dcontext.Registry.Phases.{RegistryCall, call}
use dcontext.Store.{ContextStore, new_store, fork_child}
use dcontext.Store.Shape.{IsWellFormed}
use dcontext.Store.Lookup.{get_value, collect_values, find_frozen}
use dcontext.Store.Keeps.{new_store-IsWellFormed}
use dcontext.Store.Rewind.{unwind}
use dcontext.Store.Pop.{pop_scope}
use dcontext.Context.{Env, Cell, AttachGuard}
use dcontext.Context.Reach.{
  Thread, Step, Pick, All, All-Pick, IsReady, IsIntact, GuardIsReady, ready,
}
use dcontext.Context.Reach.Safe.{Step-IsSafe}

-- What is a thread's own: the cell, the attach guards, and what polls that have begun on it have
-- taken out of the cell, the last first.
pub record Local (D : Type 0) : Type 0 where
  pub cell : Cell D
  pub guards : List (AttachGuard D)
  pub outer : List (Cell D)

-- The stores are detached: in wrappers of futures, or held by a client.
pub record Process (D : Type 0) : Type 0 where
  pub env : Env D
  pub threads : ℕ → Local D
  pub stores : List (ContextStore D)

module _ {D : Type 0} where
  abbrev pub thread : ℕ → Process D → Thread D
  thread i p = record {
    cell = (p.threads i).cell;
    guards = (p.threads i).guards;
    stores = p.stores;
  }

  abbrev pub update : ℕ → Local D → (ℕ → Local D) → ℕ → Local D
  update i l threads j = if nat_eqb i j then l else threads j

  pub data Move (p : Process D) : Process D → Type 0 where
    calls :
        (i : ℕ) (t : Thread D)
        → Step p.env (thread i p) t
        → Move p (record p {
          threads = update i (record (p.threads i) { cell = t.cell; guards = t.guards }) p.threads;
          stores = t.stores;
        })
    -- The two `replace` of `WithContext::poll`, with anything between them.
    begins_poll :
        (i : ℕ) (s : ContextStore D) (rest : List (ContextStore D))
        → Pick (ContextStore D) s p.stores rest
        → Move p (record p {
          threads =
              update i
                (record (p.threads i) {
                  cell = some s;
                  outer = (p.threads i).cell ∷ (p.threads i).outer;
                })
                p.threads;
          stores = rest;
        })
    ends_poll :
        (i : ℕ) (prev : Cell D) (rest : List (Cell D))
        → (p.threads i).outer ≡ prev ∷ rest
        → Move p (record p {
          threads = update i (record (p.threads i) { cell = prev; outer = rest }) p.threads;
          stores = to_list (p.threads i).cell ++ p.stores;
        })
    registers :
        (c : RegistryCall D)
        → Move p (record p { env = record p.env { globals = call c p.env.globals } })
    limits_size :
        (n : ℕ)
        → Move p (record p { env = record p.env { config = set_max_context_size n p.env.config } })
    limits_chain :
        (n : ℕ)
        → Move p
            (record p { env = record p.env { config = set_max_scope_chain_len n p.env.config } })

  pub data Run (p : Process D) : Process D → Type 0 where
    started : Run p p
    moved : {q r : Process D} → Run p q → Move q r → Run p r

  -- No thread has made a call, and nothing is detached.
  abbrev pub fresh : Env D → Process D
  fresh env = record {
    env = env;
    threads = λ i. record { cell = some new_store; guards = []; outer = [] };
    stores = [];
  }

  abbrev LocalIsSafe : Local D → Type 0
  LocalIsSafe l = IsReady l.cell × All GuardIsReady l.guards × All IsReady l.outer

  abbrev ProcessIsSafe : Process D → Type 0
  ProcessIsSafe p = ((i : ℕ) → LocalIsSafe (p.threads i)) × All IsIntact p.stores

  update-LocalIsSafe :
      (i : ℕ) (l : Local D) (threads : ℕ → Local D)
      → LocalIsSafe l
      → ((j : ℕ) → LocalIsSafe (threads j))
      → (j : ℕ) → LocalIsSafe (update i l threads j)
  update-LocalIsSafe i l threads one all j = elim (Bool-cases (nat_eqb i j)) [
    | inl same ↦ rw same one
    | inr other ↦ rw other (all j)
  ]

  kept-IsIntact :
      (cell : Cell D) (stores : List (ContextStore D))
      → IsReady cell
      → All IsIntact stores
      → All IsIntact (to_list cell ++ stores)
  kept-IsIntact none stores w all = all
  kept-IsIntact (some s) stores w all = (w, all)

  Move-IsSafe : {p q : Process D} → Move p q → ProcessIsSafe p → ProcessIsSafe q
  Move-IsSafe {p} (calls i t step) (locals, stores) =
      let (w, gs, outer) = locals i in
      let (w', gs', stores') = Step-IsSafe p.env step (w, gs, stores) in
      (update-LocalIsSafe i _ p.threads (w', gs', outer) locals, stores')
  Move-IsSafe {p} (begins_poll i s rest pick) (locals, stores) =
      let (w, gs, outer) = locals i in
      let (ws, others) = All-Pick IsIntact pick stores in
      (update-LocalIsSafe i _ p.threads (ws, gs, (w, outer)) locals, others)
  Move-IsSafe {p} (ends_poll i prev rest e) (locals, stores) =
      let (w, gs, outer) = locals i in
      let (w', outer') : All IsReady (prev ∷ rest) = subst (All IsReady) e outer in
      (
        update-LocalIsSafe i _ p.threads (w', gs, outer') locals,
        kept-IsIntact (p.threads i).cell p.stores w stores,
      )
  Move-IsSafe (registers c) safe = safe
  Move-IsSafe (limits_size n) safe = safe
  Move-IsSafe (limits_chain n) safe = safe

  Run-IsSafe : {env : Env D} {p : Process D} → Run (fresh env) p → ProcessIsSafe p
  Run-IsSafe started = (λ i. ((new_store-IsWellFormed, (refl, tt)), tt, tt), tt)
  Run-IsSafe (moved before move) = Move-IsSafe move (Run-IsSafe before)

  -- In a process of any threads, after any calls of them in any order, with guards dropped in any
  -- order and scope guards more than once, tasks polled on any thread and inside each other, each
  -- store used on whatever thread, and keys registered, the registry frozen and limits set at any
  -- time, where each push finds a depth below the largest `usize`: the cell of each thread holds
  -- a store, the store is well-formed, no barrier is active in it, its collected values agree with
  -- its reads at every key, it shows what its fork shows and where that is nothing what its own
  -- frozen parent holds, and `pop_scope` to any depth ends where the description without a loop
  -- says.
  pub Run-cell :
      {env : Env D} {p : Process D} (i : ℕ)
      → Run (fresh env) p
      → (s : ContextStore D) × ((p.threads i).cell ≡ some s)
        × IsWellFormed s
        × (s.scope_barrier ≡ none)
        × ((k : String) → get k (collect_values s) ≡ get_value s k)
        × ((k : String)
            → get_value s k ≡ or_else (get_value (fork_child s) k) (find_frozen k s.frozen_parent))
        × ((e : ℕ) → (pop_scope e s).0 ≡ unwind e s)
  Run-cell {p = p} i run = ready (p.threads i).cell ((Run-IsSafe run).0 i).0
