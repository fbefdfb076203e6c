-- ===== src/Store/Names.antt =====
-- What `scope_chain` lists.
use dcontext.Base.{
  ℕ, zero, suc, ◌+◌, ◌-◌, ◌≤◌, ◌<◌, ◌≡◌, refl, ap, ◌∙◌, sym, String, Option, none, some, List, [],
  ◌∷◌, ◌++◌, arith, length, drop, take, length-drop, length-append, drop-append, drop-drop,
  take-append-drop, unwrap_or, min, if◌then◌else◌, reverse, to_list, ltb, ltb_of_le, lt→ltb,
}
use mathlib.Core.List.{append-nil, append_assoc, reverse-cons}
use native.Mathlib.Decide.{dec_lt}
use dcontext.Config.{Config}
use dcontext.Scope.{ScopeNode, Values}
use dcontext.Registry.{RegistryMap}
use dcontext.Store.{ContextStore, max_scope_depth, freeze, from_values_with_chain}
use dcontext.Store.Shape.{IsWellFormed}
use dcontext.Store.Push.{push_scope}
use dcontext.Store.Chain.{
  name_above, local_names, parent_names, frozen_names, full_chain, limit_chain, scope_chain,
}
use dcontext.Store.Keeps.{real_child, push_scope-real, push_scope-dead}

limit_chain_over :
    (n : ℕ) (chain : List String)
    → 0 < n
    → n < length chain
    → limit_chain n chain ≡ drop (length chain - n) chain
unfolding limit_chain
limit_chain_over n chain pos over = ground arith

limit_chain_under : (n : ℕ) (chain : List String) → length chain ≤ n → limit_chain n chain ≡ chain
unfolding limit_chain
limit_chain_under n chain h = ground arith

name_above-to_list :
    (base d : ℕ) (name : Option String) → base < d → name_above base d name ≡ to_list name
name_above-to_list base d none h = refl
name_above-to_list base d (some name) h = ground arith

reverse-to_list :
    (name : Option String) (names : List String)
    → reverse (to_list name ++ names) ≡ reverse names ++ to_list name
reverse-to_list none names = sym (append-nil (reverse names))
reverse-to_list (some name) names = reverse-cons name names

name_above_deep :
    (base d d' : ℕ) (name : Option String)
    → base < d
    → base < d'
    → name_above base d name ≡ name_above base d' name
name_above_deep base d d' none h h' = refl
name_above_deep base d d' (some name) h h' = ground arith

pub limit_chain-limit_chain :
    (n : ℕ) (chain : List String) → limit_chain n (limit_chain n chain) ≡ limit_chain n chain
limit_chain-limit_chain zero chain = unfold limit_chain in refl
limit_chain-limit_chain (suc n) chain = elim (dec_lt (suc n) (length chain)) [
  | yes over ↦
      rw (limit_chain_over (suc n) chain (omega arith) over)
        (limit_chain_under (suc n) _ (omega (arith, length-drop (length chain - suc n) chain)))
  | no under ↦ ap (limit_chain (suc n)) (limit_chain_under (suc n) chain (omega arith))
]

limit_chain-drop :
    (n : ℕ) (chain : List String) → limit_chain (suc n) chain ≡ drop (length chain - suc n) chain
limit_chain-drop n chain = elim (dec_lt (suc n) (length chain)) [
  | yes over ↦ limit_chain_over (suc n) chain (omega arith) over
  | no under ↦
      limit_chain_under (suc n) chain (omega arith)
      ∙ ap (λ k. drop k chain) (let e : 0 ≡ length chain - suc n = omega arith in e)
]

-- Names that a limit drops before more are added would be dropped after it as well.
pub limit_chain-append :
    (n : ℕ) (chain more : List String)
    → limit_chain n (limit_chain n chain ++ more) ≡ limit_chain n (chain ++ more)
limit_chain-append zero chain more = unfold limit_chain in refl
limit_chain-append (suc n) chain more =
    let k = length chain - suc n in
    let lengths = length-append (drop k chain) more in
    ap (λ c. limit_chain (suc n) (c ++ more)) (limit_chain-drop n chain)
    ∙ limit_chain-drop n (drop k chain ++ more)
    ∙ ap (drop (length (drop k chain ++ more) - suc n))
        (sym (drop-append k chain more (omega arith)))
    ∙ drop-drop k (length (drop k chain ++ more) - suc n) (length (chain ++ more) - suc n)
        (chain ++ more) (omega (arith, lengths, length-drop k chain, length-append chain more))
    ∙ sym (limit_chain-drop n (chain ++ more))

module _ {D : Type 0} where
  pub full_chain-from_values_with_chain :
      (values : Values D) (chain : List String)
      → full_chain (from_values_with_chain values chain) ≡ chain
  unfolding full_chain parent_names frozen_names local_names
  full_chain-from_values_with_chain values chain = append-nil chain

  -- With a positive limit the scope chain is the end of the full chain: some names at its front
  -- are dropped, and what is left is as long as the limit and the full chain allow.
  pub scope_chain-suffix :
      (config : Config) (s : ContextStore D)
      → 0 < config.max_scope_chain_len
      → (dropped : List String) × (dropped ++ scope_chain config s ≡ full_chain s)
        × (length (scope_chain config s) ≡ min config.max_scope_chain_len (length (full_chain s)))
  unfolding scope_chain
  scope_chain-suffix config s pos =
      let n = config.max_scope_chain_len in
      let chain = full_chain s in
      elim (dec_lt n (length chain)) [
        | yes over ↦ rw (limit_chain_over n chain pos over) (
          take (length chain - n) chain,
          take-append-drop (length chain - n) chain,
          omega (arith, length-drop (length chain - n) chain),
        )
        | no under ↦ rw (limit_chain_under n chain (omega arith)) ([], refl, omega arith)
      ]

  local_names_below :
      (base b : ℕ) (n : ScopeNode D) (p : List (ScopeNode D))
      → b < n.depth
      → local_names base b (n ∷ p) ≡ name_above base n.depth n.name ++ local_names base b p
  unfolding local_names
  local_names_below base b n p h = ground arith

  pub full_chain-real_child :
      (registry : RegistryMap D) (name : Option String) (s : ContextStore D)
      → IsWellFormed s
      → full_chain (real_child registry name s) ≡ full_chain s ++ to_list name
  unfolding full_chain real_child parent_names
  full_chain-real_child registry name s w =
      let base = s.remote_chain_base_depth in
      rw (name_above-to_list base (s.depth + 1) name (omega (arith, w.based, w.positive))) (
        rw
          (local_names_below base (unwrap_or 0 s.scope_barrier) (freeze s s.depth) s.scope_chain
            (omega (arith, w.below, w.levels)))
          (rw (reverse-to_list name _) (simp append_assoc)))

  pub full_chain-depth :
      (d : ℕ) (s : ContextStore D)
      → s.remote_chain_base_depth < d
      → s.remote_chain_base_depth < s.depth
      → full_chain (record s { depth = d }) ≡ full_chain s
  unfolding full_chain parent_names
  full_chain-depth d s h h' =
      rw (name_above_deep s.remote_chain_base_depth d s.depth s.current_name h h')

  pub full_chain-push_scope :
      (registry : RegistryMap D) (name : Option String) (s : ContextStore D)
      → IsWellFormed s
      → full_chain (push_scope registry name s).0
        ≡ full_chain s ++ (if ltb max_scope_depth s.depth then [] else to_list name)
  full_chain-push_scope registry name s w = elim (dec_lt max_scope_depth s.depth) [
    | no real ↦ rw (push_scope-real registry name s (omega arith)) (
        rw (ltb_of_le max_scope_depth s.depth (omega arith))
          (full_chain-real_child registry name s w))
    | yes dead ↦ rw (push_scope-dead registry name s dead w.bounded) (
        rw (lt→ltb max_scope_depth s.depth dead) (
          full_chain-depth (s.depth + 1) s (omega (arith, w.based)) (omega (arith, w.based))
          ∙ sym (append-nil (full_chain s))))
  ]

  -- On a well-formed store, a named scope adds its name to the end of the full chain, which is
  -- then cut to the limit; beyond the depth limit it adds nothing.
  pub scope_chain-push_scope :
      (config : Config) (registry : RegistryMap D) (name : String) (s : ContextStore D)
      → IsWellFormed s
      → scope_chain config (push_scope registry (some name) s).0
        ≡ limit_chain config.max_scope_chain_len
            (full_chain s ++ (if ltb max_scope_depth s.depth then [] else name ∷ []))
  unfolding scope_chain
  scope_chain-push_scope config registry name s w =
      ap (limit_chain config.max_scope_chain_len) (full_chain-push_scope registry (some name) s w)
