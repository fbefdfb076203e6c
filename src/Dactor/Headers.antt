-- ===== src/Dactor/Headers.antt =====
-- dcontext-dactor/src/header.rs, and dactor's typed header map as an interface: what is inserted
-- at a type is what is read at that type, and other types are left.
use dcontext.Base.{◌≡◌, String, Option, none, some}
use dcontext.Value.{Bytes}
use dcontext.Snapshot.{ContextSnapshot}

pub record ContextHeader : Type 0 where
  pub bytes : Bytes

abbrev pub from_bytes : Bytes → ContextHeader
from_bytes bytes = record { bytes = bytes }

pub record ContextSnapshotHeader (D : Type 0) : Type 0 where
  pub snapshot : ContextSnapshot D

abbrev pub wire_header_name : String
wire_header_name = "dcontext.wire"

abbrev pub snapshot_header_name : String
snapshot_header_name = "dcontext.snapshot"

-- `HeaderValue::to_bytes` of the two headers: what goes over the wire.
abbrev pub wire_to_bytes : ContextHeader → Option Bytes
wire_to_bytes h = some h.bytes

abbrev pub snapshot_to_bytes : {D : Type 0} → ContextSnapshotHeader D → Option Bytes
snapshot_to_bytes h = none

pub record HeaderMap (D : Type 0) : Type 1 where
  pub Headers : Type 0
  pub insert_wire : ContextHeader → Headers → Headers
  pub get_wire : Headers → Option ContextHeader
  pub insert_snapshot : ContextSnapshotHeader D → Headers → Headers
  pub get_snapshot : Headers → Option (ContextSnapshotHeader D)
  pub get_wire-insert_wire : (h : ContextHeader) (m : Headers) → get_wire (insert_wire h m) ≡ some h
  pub get_snapshot-insert_snapshot :
      (h : ContextSnapshotHeader D) (m : Headers) → get_snapshot (insert_snapshot h m) ≡ some h
  pub get_snapshot-insert_wire :
      (h : ContextHeader) (m : Headers) → get_snapshot (insert_wire h m) ≡ get_snapshot m
