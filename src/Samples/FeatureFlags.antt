-- ===== src/Samples/FeatureFlags.antt =====
-- samples/src/bin/feature_flags.rs.
use dcontext.Base.{[], ◌∷◌, Bool, true, false, if◌then◌else◌, string_eq}
use dcontext.Value.{TypeId}
use dcontext.Registry.Register.{new_builder}
use dcontext.Samples.Program.{
  Program, ◌>>=◌, ◌>>◌, flag, println, register, initialize, set, get_unwrap, push_scope,
  drop_scope,
}

pub record Flags : Type 0 where
  pub dark_mode : Bool
  pub new_pricing : Bool
  pub beta_search : Bool

-- There is one type of values, `FeatureFlags`.
abbrev pub Data : Type 0
Data = Flags

abbrev flags_type : TypeId
flags_type = 1

unfoldable pub render_pricing : Program Data (Unit {0})
render_pricing = do
  flags ← get_unwrap flags_type "features"
  (if flags.new_pricing
      then println "  pricing: showing NEW pricing model" []
      else println "  pricing: showing standard pricing" [])

unfoldable pub render_page : Program Data (Unit {0})
unfolding render_pricing
render_page = do
  flags ← get_unwrap flags_type "features"
  println "Rendering page:" []
  println "  dark_mode   = {}" (flag flags.dark_mode ∷ [])
  println "  beta_search = {}" (flag flags.beta_search ∷ [])
  render_pricing

-- `main`, with the flags that it sets.
unfoldable pub body : Flags → Program Data (Unit {0})
unfolding render_pricing render_page
body first = do
  builder ← register flags_type "features" new_builder
  initialize builder
  set flags_type "features" first
  render_page
  guard ← push_scope "pricing-ab-test"
  flags ← get_unwrap flags_type "features"
  set flags_type "features" (record flags { new_pricing = true })
  println "\n--- A/B test scope ---" []
  render_pricing
  drop_scope guard
  println "\n--- After A/B scope ---" []
  render_pricing

unfoldable pub main : Program Data (Unit {0})
unfolding body
main = body (record { dark_mode = true; new_pricing = false; beta_search = true })
