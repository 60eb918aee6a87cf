-- ===== src/Idl/Subtype/Kinds.antt =====
-- The kinds of types of subtype.c: equal codes are equal kinds.
use lucid.Base.{List, [], ◌∷◌, some, get_elem?, ap, sym, ◌∙◌, ==_iff, ◌≡◌, refl, true}
use lucid.Idl.Subtype.{Kind, kind_code, ◌is◌}

-- The kinds in the order of their codes.
abbrev kinds : List Kind
kinds =
    Kind.null
    ∷ (Kind.bool
        ∷ (Kind.nat
            ∷ (Kind.int
                ∷ (Kind.nat8
                    ∷ (Kind.nat16
                        ∷ (Kind.nat32
                            ∷ (Kind.nat64
                                ∷ (Kind.int8
                                    ∷ (Kind.int16
                                        ∷ (Kind.int32
                                            ∷ (Kind.int64
                                                ∷ (Kind.float32
                                                    ∷ (Kind.float64
                                                        ∷ (Kind.text
                                                            ∷ (Kind.reserved
                                                            ∷ (Kind.empty
                                                            ∷ (Kind.principal
                                                            ∷ (Kind.opt
                                                            ∷ (Kind.vec
                                                            ∷ (Kind.record_of
                                                            ∷ (Kind.variant
                                                            ∷ (Kind.func
                                                            ∷ (Kind.service
                                                            ∷ (Kind.var ∷ []))))))))))))))))))))))))

kind_at : (k : Kind) → get_elem? kinds (kind_code k) ≡ some k
kind_at Kind.null = refl
kind_at _ = refl

pub is_eq : (a b : Kind) → a is b ≡ true → a ≡ b
is_eq a b h =
    unwrap (
      sym (kind_at a) ∙ ap (get_elem? kinds) ((==_iff (kind_code a) (kind_code b)).0 h) ∙ kind_at b)
  where
    unwrap : some a ≡ some b → a ≡ b
    unwrap e = cc
