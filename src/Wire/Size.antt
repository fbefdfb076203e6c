-- ===== src/Wire/Size.antt =====
-- The parts of a successful serialisation, and its size.
use dcontext.Base.{
  ◌≡◌, ◌≤◌, ◌<◌, ap, ◌∙◌, sym, String, List, ok, >>=-eq-ok, arith, string_eq, nat_eq, length,
}
use dcontext.Config.{Config, check_size}
use dcontext.Value.{Bytes, Serde}
use dcontext.Scope.{Values}
use dcontext.Registry.{RegistryMap}
use dcontext.Wire.{WireEntry, Bincode, wire_version}
use dcontext.Wire.Encode.{serialize_entries, serialize_from}
use dcontext.Wire.Sound.{map_err-eq-ok}

module _ {D : Type 0} (serde : Serde D) (registry : RegistryMap D) where
  pub serialize_from_parts :
      (bincode : Bincode) (config : Config) (values : Values D) (chain : List String)
      {bytes : Bytes}
      → serialize_from serde bincode config registry values chain ≡ ok bytes
      → (entries : List WireEntry) × (serialize_entries serde registry values ≡ ok entries)
        × (bincode.serialize
              (record { version = wire_version; entries = entries; scope_chain = chain })
            ≡ ok bytes)
        × (check_size config (length bytes) ≡ ok tt)
  unfolding serialize_from
  serialize_from_parts bincode config values chain {bytes} h =
      let (entries, encoded, h1) = >>=-eq-ok _ _ h in
      let (raw, written, h2) = >>=-eq-ok _ _ h1 in
      let (unit, fits, h3) = >>=-eq-ok (check_size config (length raw)) _ h2 in
      let e : raw ≡ bytes = ground arith in
      (
        entries,
        encoded,
        map_err-eq-ok _ _ written ∙ ap ok e,
        ap (λ x. check_size config (length x)) (sym e) ∙ fits,
      )

  -- With a positive limit on the size, bytes that `serialize_from` makes are not longer than the
  -- limit.
  length-serialize_from :
      (bincode : Bincode) (config : Config) (values : Values D) (chain : List String)
      {bytes : Bytes}
      → 0 < config.max_context_size
      → serialize_from serde bincode config registry values chain ≡ ok bytes
      → length bytes ≤ config.max_context_size
  unfolding check_size
  length-serialize_from bincode config values chain {bytes} pos h =
      let (entries, encoded, written, fits) = serialize_from_parts bincode config values chain h in
      ground arith
