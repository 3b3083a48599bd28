-- ===== src/Dispatcher/Mapping.antt =====
-- The mapping of src/pyDE1/dispatcher/mapping.py: the tree of a resource, and which devices it needs.
use Prim.Native.String.{String}
use py_de.Base.{ℕ, Bool, true, false, ◌&&◌, ◌||◌, not, Option, List, if◌then◌else◌}
use py_de.Json.{Json}

-- The members of TO, a subclass of PackedAttr, and a register of MMR0x80LowAddr.
pub data Target : Type 0 where
  de1 flow_sequencer scale scale_processor thermometer scanner packed_attr mmr : Target

-- The types that a value is compared with.
pub data PyType : Type 0 where
  int float bool str none_type dict list bytes bytearray : PyType

-- What a request carries: a value, or the bytes of a profile or of a firmware.
pub data Content : Type 0 where
  parsed : Json → Content
  raw : List ℕ → Content

-- IsAt, without the paths of the attributes. The type is given by its arguments, or alone if it has
-- none; an internal type by the values of its members.
pub record IsAt : Type 0 where
  pub target : Target
  pub v_type : List PyType
  pub read_only : Bool
  pub internal_type : Option (Content → Bool)
  pub if_not_ready : Bool

-- A dict of mappings, the place of a value, or something else.
mutual
  pub data Mapping : Type 0 where
    is_at : IsAt → Mapping
    tree : Entries → Mapping
    other : Mapping

  pub data Entries : Type 0 where
    no_entries : Entries
    entry : String → Mapping → Entries → Entries

abbrev is_de1 : Target → Bool
is_de1 de1 = true
is_de1 _ = false

abbrev is_mmr : Target → Bool
is_mmr mmr = true
is_mmr _ = false

abbrev is_packed_attr : Target → Bool
is_packed_attr packed_attr = true
is_packed_attr _ = false

abbrev is_scale : Target → Bool
is_scale scale = true
is_scale _ = false

unfoldable pub requires_connected_de1 : IsAt → Bool
requires_connected_de1 a =
    is_de1 a.target && not a.if_not_ready || is_mmr a.target || is_packed_attr a.target

unfoldable pub requires_connected_scale : IsAt → Bool
requires_connected_scale a = is_scale a.target && not a.if_not_ready

-- `results`, with the keys "DE1" and "Scale"
pub record Targets : Type 0 where
  pub de1 : Bool
  pub scale : Bool

abbrev pub no_targets : Targets
no_targets = record { de1 = false; scale = false }

-- The two tests on an `IsAt`, which only ever set a result.
unfoldable pub mark : IsAt → Targets → Targets
mark a t = record {
  de1 = if requires_connected_de1 a then true else t.de1;
  scale = if requires_connected_scale a then true else t.scale;
}

-- `_mapping_requires_inner`, which stops at a mapping that leaves both results set.
unfoldable mutual
  pub requires_inner : Mapping → Targets → Targets
  requires_inner (is_at a) t = mark a t
  requires_inner (tree es) t = requires_entries es t
  requires_inner other t = t

  pub requires_entries : Entries → Targets → Targets
  requires_entries no_entries t = t
  requires_entries (entry k m es) t =
      let t' = requires_inner m t in
      let rest = requires_entries es t' in if t'.de1 && t'.scale then t' else rest

unfoldable pub mapping_requires : Entries → Targets
unfolding requires_inner
mapping_requires es = requires_entries es no_targets
