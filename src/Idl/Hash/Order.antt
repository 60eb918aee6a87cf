-- ===== src/Idl/Hash/Order.antt =====
-- Field ids after the sort: ascending, with the fields of one id in their order.
use lucid.Base.{ℕ, ◌≤◌, ◌<◌, ◌≡◌, refl, sym, subst, ◌∙◌, ap, arith, ◌↔◌}
use lucid.Base.{
  Bool, true, false, List, [], ◌∷◌, some, length, ◌==◌, if◌then◌else◌, Bool-cases, inl, inr,
}
use lucid.Status.{ok}
use lucid.Idl.Hash.{
  FieldId, insert_key, reverse_onto, sort_from, idl_field_id_sort, idl_field_id_verify_unique,
  adjacent_differ,
}

-- The fields of one id, in their order.
unfoldable pub with_id : ℕ → List FieldId → List FieldId
with_id id [] = []
with_id id (field ∷ fields) =
    let rest = with_id id fields in if id == field.id then field ∷ rest else rest

-- Every id is at most the next one.
abbrev pub IsSorted : List FieldId → Type 0
IsSorted [] = Unit {0}
IsSorted (field ∷ []) = Unit {0}
IsSorted (field ∷ next ∷ fields) = (field.id ≤ next.id) × IsSorted (next ∷ fields)

abbrev IsDown : List FieldId → Type 0
IsDown [] = Unit {0}
IsDown (field ∷ []) = Unit {0}
IsDown (field ∷ next ∷ fields) = (next.id ≤ field.id) × IsDown (next ∷ fields)

abbrev Meets : List FieldId → List FieldId → Type 0
Meets [] rest = Unit {0}
Meets (field ∷ before) [] = Unit {0}
Meets (field ∷ before) (next ∷ rest) = field.id ≤ next.id

reverse_onto-IsSorted :
    (before rest : List FieldId)
    → IsDown before
    → IsSorted rest
    → Meets before rest
    → IsSorted (reverse_onto before rest)
reverse_onto-IsSorted [] rest d s m = s
reverse_onto-IsSorted (f ∷ []) [] d s m = tt
reverse_onto-IsSorted (f ∷ []) (g ∷ rest) d s m = (m, s)
reverse_onto-IsSorted (f ∷ e ∷ before) [] (le, d) s m =
    reverse_onto-IsSorted (e ∷ before) (f ∷ []) d tt le
reverse_onto-IsSorted (f ∷ e ∷ before) (g ∷ rest) (le, d) s m =
    reverse_onto-IsSorted (e ∷ before) (f ∷ g ∷ rest) d (m, s) le

insert_key-IsDown :
    (key : FieldId) (before : List FieldId) → IsDown before → IsDown (insert_key key before)
unfolding insert_key
insert_key-IsDown key [] d = tt
insert_key-IsDown key (f ∷ []) d = ground arith
insert_key-IsDown key (f ∷ e ∷ before) d = ground (arith, insert_key-IsDown key (e ∷ before))

with_id-insert_key :
    (id : ℕ) (key : FieldId) (before : List FieldId)
    → with_id id (insert_key key before) ≡ with_id id (key ∷ before)
unfolding insert_key with_id
with_id-insert_key id key [] = refl
with_id-insert_key id key (f ∷ before) = ground (arith, with_id-insert_key id key before)

with_id-reverse_onto :
    (id : ℕ) (before rest : List FieldId)
    → with_id id (reverse_onto before rest) ≡ reverse_onto (with_id id before) (with_id id rest)
unfolding with_id
with_id-reverse_onto id [] rest = refl
with_id-reverse_onto id (f ∷ before) rest = elim (Bool-cases (id == f.id)) [
  | inl same ↦ with_id-reverse_onto id before (f ∷ rest) ∙ ground (arith, same)
  | inr other ↦ with_id-reverse_onto id before (f ∷ rest) ∙ ground (arith, other)
]

sort_from-IsSorted :
    (before fields : List FieldId) → IsDown before → IsSorted (sort_from before fields)
unfolding sort_from
sort_from-IsSorted before [] d = reverse_onto-IsSorted before [] d tt (meets_nothing before)
  where
    meets_nothing : (before : List FieldId) → Meets before []
    meets_nothing [] = tt
    meets_nothing (f ∷ before) = tt
sort_from-IsSorted before (key ∷ fields) d =
    sort_from-IsSorted (insert_key key before) fields (insert_key-IsDown key before d)

with_id-sort_from :
    (id : ℕ) (before fields : List FieldId)
    → with_id id (sort_from before fields) ≡ reverse_onto (with_id id before) (with_id id fields)
unfolding sort_from with_id
with_id-sort_from id before [] = with_id-reverse_onto id before []
with_id-sort_from id before (key ∷ fields) =
    with_id-sort_from id (insert_key key before) fields
    ∙ ap (λ l. reverse_onto l (with_id id fields)) (with_id-insert_key id key before)
    ∙ moved (id == key.id)
  where
    moved :
        (b : Bool)
        → reverse_onto
            (if b then key ∷ with_id id before else with_id id before)
            (with_id id fields)
          ≡ reverse_onto
              (with_id id before)
              (if b then key ∷ with_id id fields else with_id id fields)
    moved true = refl
    moved false = refl

-- The sort leaves the ids ascending and, for each id, the same fields in the same order: it is
-- stable, and loses and adds none.
pub idl_field_id_sort-IsSorted :
    (fields : List FieldId) (id : ℕ)
    → IsSorted (idl_field_id_sort fields)
      × (with_id id (idl_field_id_sort fields) ≡ with_id id fields)
unfolding idl_field_id_sort with_id
idl_field_id_sort-IsSorted [] id = (tt, refl)
idl_field_id_sort-IsSorted (f ∷ fields) id =
    (sort_from-IsSorted (f ∷ []) fields tt, with_id-sort_from id (f ∷ []) fields ∙ ground arith)

absent :
    (id : ℕ) (f : FieldId) (fields : List FieldId)
    → id < f.id
    → IsSorted (f ∷ fields)
    → with_id id (f ∷ fields) ≡ []
unfolding with_id
absent id f [] h s = ground arith
absent id f (g ∷ fields) h (le, s) = ground (arith, absent id g fields (omega arith) s)

ids_apart : (f g : FieldId) → (f.id == g.id) ≡ false → f.id ≤ g.id → f.id < g.id
ids_apart f g other le = ground (arith, other, le)

with_id-here :
    (f : FieldId) (fields : List FieldId) (id : ℕ)
    → (id == f.id) ≡ true
    → with_id id (f ∷ fields) ≡ f ∷ with_id id fields
unfolding with_id
with_id-here f fields id same = rw same refl

with_id-other :
    (f : FieldId) (fields : List FieldId) (id : ℕ)
    → (id == f.id) ≡ false
    → with_id id (f ∷ fields) ≡ with_id id fields
unfolding with_id
with_id-other f fields id other = rw other refl

tail_once :
    (f g : FieldId) (fields : List FieldId) (id : ℕ)
    → length (with_id id (f ∷ g ∷ fields)) ≤ 1
    → length (with_id id (g ∷ fields)) ≤ 1
tail_once f g fields id h = elim (Bool-cases (id == f.id)) [
  | inl same ↦ omega (arith, h, ap length (with_id-here f (g ∷ fields) id same))
  | inr other ↦ omega (arith, h, ap length (with_id-other f (g ∷ fields) id other))
]

adjoin_once :
    (f g : FieldId) (fields : List FieldId) (id : ℕ)
    → f.id < g.id
    → IsSorted (g ∷ fields)
    → length (with_id id (g ∷ fields)) ≤ 1
    → length (with_id id (f ∷ g ∷ fields)) ≤ 1
adjoin_once f g fields id h s once = elim (Bool-cases (id == f.id)) [
  | inl same ↦
      let below : id < g.id = ground (arith, same, h) in
      omega (
        arith,
        ap length (with_id-here f (g ∷ fields) id same),
        ap length (absent id g fields below s),
      )
  | inr other ↦ omega (arith, once, ap length (with_id-other f (g ∷ fields) id other))
]

adjacent_differ_iff :
    (f : FieldId) (fields : List FieldId)
    → IsSorted (f ∷ fields)
    → (adjacent_differ f fields ≡ ok tt) ↔ ((id : ℕ) → length (with_id id (f ∷ fields)) ≤ 1)
unfolding with_id
adjacent_differ_iff f [] s = (λ e id. ground arith, λ h. refl)
adjacent_differ_iff f (g ∷ fields) (le, s) = elim (Bool-cases (f.id == g.id)) [
  | inl same ↦ (λ e. absurd (ground (arith, same, e)), λ h. absurd (ground (arith, same, h f.id)))
  | inr other ↦ (
    λ e id.
        adjoin_once f g fields id (ids_apart f g other le) s
          ((adjacent_differ_iff g fields s).0 (ground (arith, other, e)) id),
    λ h.
        ground
          (arith, other, (adjacent_differ_iff g fields s).1 (λ id. tail_once f g fields id (h id))),
  )
]

unique_iff :
    (fields : List FieldId)
    → IsSorted fields
    → (idl_field_id_verify_unique (some fields) ≡ ok tt)
      ↔ ((id : ℕ) → length (with_id id fields) ≤ 1)
unfolding idl_field_id_verify_unique with_id
unique_iff [] s = (λ e id. omega arith, λ h. refl)
unique_iff (f ∷ fields) s = adjacent_differ_iff f fields s

-- Where the sorted ids are handed to it, the test for unique ids succeeds exactly if no id stands
-- twice among the fields that were sorted.
pub idl_field_id_verify_unique-sort_iff :
    (fields : List FieldId)
    → (idl_field_id_verify_unique (some (idl_field_id_sort fields)) ≡ ok tt)
      ↔ ((id : ℕ) → length (with_id id fields) ≤ 1)
idl_field_id_verify_unique-sort_iff fields = (
  λ e id.
      subst (λ l. length l ≤ 1) (idl_field_id_sort-IsSorted fields id).1
        ((unique_iff (idl_field_id_sort fields) (idl_field_id_sort-IsSorted fields 0).0).0 e id),
  λ h.
      (unique_iff (idl_field_id_sort fields) (idl_field_id_sort-IsSorted fields 0).0).1
        (λ id. subst (λ l. length l ≤ 1) (sym (idl_field_id_sort-IsSorted fields id).1) (h id)),
)
