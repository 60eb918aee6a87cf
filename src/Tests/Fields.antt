-- ===== src/Tests/Fields.antt =====
-- The theorems on field ids at three fields, two of one id, and at a short name.
use lucid.Base.{ℕ, ◌≤◌, ◌≡◌, ◌↔◌, List, [], ◌∷◌, some, length}
use lucid.Status.{ok}
use lucid.Idl.Hash.{FieldId, idl_field_id_sort, idl_field_id_verify_unique}
use lucid.Idl.Hash.Order.{
  with_id, IsSorted, idl_field_id_sort-IsSorted, idl_field_id_verify_unique-sort_iff,
}

abbrev fields : List FieldId
fields =
    record { id = 9; index = 0 } ∷ record { id = 4; index = 1 } ∷ record { id = 9; index = 2 } ∷ []

idl_field_id_sort-IsSorted_example :
    IsSorted (idl_field_id_sort fields) × (with_id 9 (idl_field_id_sort fields) ≡ with_id 9 fields)
idl_field_id_sort-IsSorted_example = idl_field_id_sort-IsSorted fields 9

idl_field_id_verify_unique-sort_iff_example :
    (idl_field_id_verify_unique (some (idl_field_id_sort fields)) ≡ ok tt)
    ↔ ((id : ℕ) → length (with_id id fields) ≤ 1)
idl_field_id_verify_unique-sort_iff_example = idl_field_id_verify_unique-sort_iff fields
