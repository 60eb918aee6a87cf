-- ===== src/Idl/Hash.antt =====
-- c_candid/runtime/runtime/src/hash.c: the hash of a field name, and the order of field ids.
pub mod Order
pub mod Polynomial
use lucid.Base.{ℕ, ◌+◌, ◌*◌, ◌%◌, ◌^◌, List, [], ◌∷◌, Option, none, some, ltb, ◌==◌, if◌then◌else◌}
use lucid.Base.Word.{size_mod}
use lucid.Status.{Result, ok, err, invalid_arg}

-- The list is the bytes before the NUL, none a NULL pointer. A uint32_t wraps around.
abbrev pub hash_from : ℕ → List ℕ → ℕ
hash_from hash [] = hash
hash_from hash (c ∷ text) = hash_from ((hash * 223 + c) % 2 ^ 32) text

unfoldable pub idl_hash : Option (List ℕ) → ℕ
idl_hash none = 0
idl_hash (some text) = hash_from 0 text

pub record FieldId : Type 0 where
  pub id : ℕ
  pub index : ℕ

-- The inner loop: what stands before `key` is given from its end, and what is above `key` moves up.
unfoldable pub insert_key : FieldId → List FieldId → List FieldId
insert_key key [] = key ∷ []
insert_key key (field ∷ before) =
    let below = insert_key key before in
    if ltb key.id field.id then field ∷ below else key ∷ field ∷ before

abbrev pub reverse_onto : List FieldId → List FieldId → List FieldId
reverse_onto [] rest = rest
reverse_onto (field ∷ before) rest = reverse_onto before (field ∷ rest)

-- The outer loop: the sorted part, from its end, and the fields behind it.
unfoldable pub sort_from : List FieldId → List FieldId → List FieldId
unfolding insert_key
sort_from before [] = reverse_onto before []
sort_from before (key ∷ fields) = sort_from (insert_key key before) fields

unfoldable pub idl_field_id_sort : List FieldId → List FieldId
unfolding sort_from
idl_field_id_sort [] = []
idl_field_id_sort (field ∷ fields) = sort_from (field ∷ []) fields

abbrev pub adjacent_differ : FieldId → List FieldId → Result (Unit {0})
adjacent_differ last [] = ok tt
adjacent_differ last (field ∷ fields) =
    let rest = adjacent_differ field fields in if last.id == field.id then err invalid_arg else rest

-- none is a NULL pointer with a length above 0.
unfoldable pub idl_field_id_verify_unique : Option (List FieldId) → Result (Unit {0})
idl_field_id_verify_unique none = err invalid_arg
idl_field_id_verify_unique (some []) = ok tt
idl_field_id_verify_unique (some (field ∷ fields)) = adjacent_differ field fields
