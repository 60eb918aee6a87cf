-- ===== src/Idl/Value.antt =====
-- c_candid/runtime/runtime/include/idl/value.h and the constructors of src/value.c.
-- A float is its bit pattern: the runtime only moves the bits.
use lucid.Base.{ℕ, Bool, List}
use lucid.Base.Int.{ℤ}
use lucid.Idl.Types.{Label}

mutual
  pub data Value : Type 0 where
    null : Value
    bool : Bool → Value
    nat int : List ℕ → Value
    nat8 nat16 nat32 nat64 : ℕ → Value
    int8 int16 int32 int64 : ℤ → Value
    float32 float64 : ℕ → Value
    text : List ℕ → Value
    reserved : Value
    principal service : List ℕ → Value
    func : List ℕ → List ℕ → Value
    opt_none : Value
    opt_some : Value → Value
    vec : Values → Value
    record_of : ValueFields → Value
    variant : ℕ → ValueFields → Value
    blob : List ℕ → Value

  pub data Values : Type 0 where
    no_values : Values
    value : Value → Values → Values

  pub data ValueFields : Type 0 where
    no_fields : ValueFields
    field : Label → Value → ValueFields → ValueFields
