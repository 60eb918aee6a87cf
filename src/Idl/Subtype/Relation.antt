-- ===== src/Idl/Subtype/Relation.antt =====
-- When a type is a subtype of another, as the Candid specification has it, on types without names. Types
-- and their fields are as the store of subtype.c has them.
use lucid.Base.{ℕ, true, List, [], ◌∷◌, none, some, ◌≡◌, ◌⊎◌, ◌||◌}
use lucid.Idl.Types.{Name}
use lucid.Idl.Subtype.{Ref, Kind, ◌is◌, Node}
use lucid.Idl.Subtype.Check.{find_field, find_service_method, is_primitive}

-- The rules without premises on other types.
abbrev pub BaseRule : Kind → Kind → Type 0
BaseRule k1 k2 =
    (k2 ≡ Kind.reserved)
    ⊎ ((k1 ≡ Kind.empty)
        ⊎ (((k1 ≡ Kind.nat) × (k2 ≡ Kind.int)) ⊎ ((k1 ≡ k2) × (is_primitive k1 ≡ true))))

module _ (type_at : Ref → Node) where
  -- A field of such a type may be missing.
  abbrev pub MayMiss : Ref → Type 0
  MayMiss t =
      ((type_at t).kind is Kind.null
        || (type_at t).kind is Kind.reserved
        || (type_at t).kind is Kind.opt)
      ≡ true

  mutual
    pub data Sub : Ref → Ref → Type 0 where
      same : {t1 t2 : Ref} → t1 ≡ t2 → Sub t1 t2
      base : {t1 t2 : Ref} → BaseRule (type_at t1).kind (type_at t2).kind → Sub t1 t2
      vecs :
          {t1 t2 : Ref}
          → (type_at t1).kind ≡ Kind.vec
          → (type_at t2).kind ≡ Kind.vec
          → Sub (type_at t1).inner (type_at t2).inner
          → Sub t1 t2
      to_opt : {t1 t2 : Ref} → (type_at t2).kind ≡ Kind.opt → Sub t1 t2
      parts : {t1 t2 : Ref} → SubParts t1 t2 → Sub t1 t2

    pub data SubParts : Ref → Ref → Type 0 where
      records :
          {t1 t2 : Ref}
          → (type_at t1).kind ≡ Kind.record_of
          → (type_at t2).kind ≡ Kind.record_of
          → SubRecord (type_at t1).fields (type_at t2).fields
          → SubParts t1 t2
      variants :
          {t1 t2 : Ref}
          → (type_at t1).kind ≡ Kind.variant
          → (type_at t2).kind ≡ Kind.variant
          → SubVariant (type_at t1).fields (type_at t2).fields
          → SubParts t1 t2
      funcs :
          {t1 t2 : Ref}
          → (type_at t1).kind ≡ Kind.func
          → (type_at t2).kind ≡ Kind.func
          → SubArgs (type_at t1).args (type_at t2).args
          → SubRets (type_at t1).rets (type_at t2).rets
          → (type_at t1).modes ≡ (type_at t2).modes
          → SubParts t1 t2
      services :
          {t1 t2 : Ref}
          → (type_at t1).kind ≡ Kind.service
          → (type_at t2).kind ≡ Kind.service
          → SubService (type_at t1).methods (type_at t2).methods
          → SubParts t1 t2

    -- Every field of the second is in the first, or may be missing.
    pub data SubRecord : List (ℕ × Ref) → List (ℕ × Ref) → Type 0 where
      no_field : {fields1 : List (ℕ × Ref)} → SubRecord fields1 []
      found_field :
          {fields1 fields2 : List (ℕ × Ref)} {id : ℕ} {t1 t2 : Ref}
          → find_field fields1 id ≡ some t1
          → Sub t1 t2
          → SubRecord fields1 fields2
          → SubRecord fields1 ((id, t2) ∷ fields2)
      missing_field :
          {fields1 fields2 : List (ℕ × Ref)} {id : ℕ} {t2 : Ref}
          → find_field fields1 id ≡ none
          → MayMiss t2
          → SubRecord fields1 fields2
          → SubRecord fields1 ((id, t2) ∷ fields2)

    -- Every field of the first is in the second.
    pub data SubVariant : List (ℕ × Ref) → List (ℕ × Ref) → Type 0 where
      no_choice : {fields2 : List (ℕ × Ref)} → SubVariant [] fields2
      choice :
          {fields1 fields2 : List (ℕ × Ref)} {id : ℕ} {t1 t2 : Ref}
          → find_field fields2 id ≡ some t2
          → Sub t1 t2
          → SubVariant fields1 fields2
          → SubVariant ((id, t1) ∷ fields1) fields2

    -- Arguments go the other way round; those that only the second has may be missing.
    pub data SubArgs : List Ref → List Ref → Type 0 where
      no_arg : SubArgs [] []
      further_arg :
          {t2 : Ref} {args2 : List Ref} → MayMiss t2 → SubArgs [] args2 → SubArgs [] (t2 ∷ args2)
      both_args :
          {t1 t2 : Ref} {args1 args2 : List Ref}
          → Sub t2 t1
          → SubArgs args1 args2
          → SubArgs (t1 ∷ args1) (t2 ∷ args2)

    -- The results that the second has.
    pub data SubRets : List Ref → List Ref → Type 0 where
      no_ret : {rets1 : List Ref} → SubRets rets1 []
      both_rets :
          {t1 t2 : Ref} {rets1 rets2 : List Ref}
          → Sub t1 t2
          → SubRets rets1 rets2
          → SubRets (t1 ∷ rets1) (t2 ∷ rets2)

    -- Every method of the second is in the first.
    pub data SubService : List (Name × Ref) → List (Name × Ref) → Type 0 where
      no_method : {methods1 : List (Name × Ref)} → SubService methods1 []
      found_method :
          {methods1 methods2 : List (Name × Ref)} {name : Name} {t1 t2 : Ref}
          → find_service_method methods1 name ≡ some t1
          → Sub t1 t2
          → SubService methods1 methods2
          → SubService methods1 ((name, t2) ∷ methods2)
