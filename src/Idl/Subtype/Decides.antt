-- ===== src/Idl/Subtype/Decides.antt =====
-- The check of subtype.c decides the relation, on types without names.
use lucid.Base.{◌≡◌, ◌⊎◌}
use lucid.Idl.Subtype.{Ref, Kind, Node}
use lucid.Idl.Subtype.Check.{Check}
use lucid.Idl.Subtype.Layers.{Ends}
use lucid.Idl.Subtype.Relation.{Sub, SubParts}
use lucid.Idl.Subtype.Judges.{Judges}
use lucid.Idl.Subtype.Lists.{}

module _ (type_at : Ref → Node) where
  -- The rule for vectors, and those behind it.
  abbrev VecRule : Ref → Ref → Type 0
  VecRule t1 t2 =
      ((type_at t1).kind ≡ Kind.vec)
      × ((type_at t2).kind ≡ Kind.vec)
      × Sub type_at (type_at t1).inner (type_at t2).inner

  abbrev FurtherRule : Ref → Ref → Type 0
  FurtherRule t1 t2 = ((type_at t2).kind ≡ Kind.opt) ⊎ SubParts type_at t1 t2
