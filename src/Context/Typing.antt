-- ===== src/Context/Typing.antt =====
-- Types of variables in a stack of scopes: every operation of `Spec` keeps them.
use dcontext.Base.{
  ℕ, ◌-◌, ap, ◌≡◌, ◌∙◌, String, Option, some, List, [], ◌∷◌, arith, string_eq, ◌==◌, Bool-cases,
  inl, inr,
}
use dcontext.Base.HashMap.{get}
use dcontext.Value.{Value}
use dcontext.Registry.{RegistryMap, Registration}
use dcontext.Store.Spec.{Level, Stack, cut, close_level, open_level, write_top}

module _ {D : Type 0} (registry : RegistryMap D) where
  -- The value may stand under the key.
  abbrev pub Fits : String → Value D → Type 0
  Fits k v = (r : Registration D) → get k registry ≡ some r → v.type_id ≡ r.type_id

  abbrev pub LevelIsTyped : Level D → Type 0
  LevelIsTyped l = (k : String) (v : Value D) → l.value_at k ≡ some v → Fits k v

  abbrev pub AllTyped : List (Level D) → Type 0
  AllTyped [] = Unit
  AllTyped (l ∷ outer) = LevelIsTyped l × AllTyped outer

  abbrev pub StackIsTyped : Stack D → Type 0
  StackIsTyped st = LevelIsTyped st.top × AllTyped st.outer

  pub open_level-IsTyped :
      (name : Option String) (st : Stack D) → StackIsTyped st → StackIsTyped (open_level name st)
  open_level-IsTyped name st t = ground (arith, t)

  pub write_top-IsTyped :
      (k : String) (v : Value D) (st : Stack D)
      → Fits k v
      → StackIsTyped st
      → StackIsTyped (write_top k v st)
  write_top-IsTyped k v st f t = (
    λ j w found r here. elim (Bool-cases (k == j)) [
      | inl same ↦
          let fits = f r (ap (λ x. get x registry) ((string_eq.same_iff k j).0 same) ∙ here) in
          ground (arith, same, fits)
      | inr other ↦ t.0 j w (let q : st.top.value_at j ≡ some w = ground (arith, other) in q) r here
    ],
    t.1,
  )

  cut-IsTyped :
      (n : ℕ) (outer : List (Level D)) (st : Stack D)
      → AllTyped outer
      → StackIsTyped st
      → StackIsTyped (cut n outer st)
  unfolding cut
  cut-IsTyped n [] st a t = t
  cut-IsTyped n (l ∷ outer) st a t = ground (arith, cut-IsTyped n outer st a.1 t)

  pub close_level-IsTyped :
      (e : ℕ) (st : Stack D) → StackIsTyped st → StackIsTyped (close_level e st)
  unfolding close_level
  close_level-IsTyped e st t = ground (arith, cut-IsTyped (e - 1) st.outer st t.1 t)
