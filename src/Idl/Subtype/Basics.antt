-- ===== src/Idl/Subtype/Basics.antt =====
-- The rules of subtype.c without premises, its comparison of modes, and the lengths that it compares.
use lucid.Base.{
  ◌≤◌, true, List, [], ◌∷◌, ◌≡◌, refl, ap, ap₂, subst, arith, inl, inr, length, ◌==◌, ◌&&◌,
  Bool-cases,
}
use lucid.Idl.Types.{FuncMode, query, oneway, composite_query}
use lucid.Idl.Subtype.{Ref, Kind, kind_code, ◌is◌, Node}
use lucid.Idl.Subtype.Check.{is_ok, is_primitive, mode_code, modes_equal, check_base_subtype_rules}
use lucid.Idl.Subtype.Kinds.{is_eq}
use lucid.Idl.Subtype.Relation.{
  BaseRule, SubArgs, no_arg, further_arg, both_args, SubRets, no_ret, both_rets,
}
use lucid.Idl.Subtype.Judges.{}
use lucid.Idl.Subtype.Lists.{}

pub base_sound : (k1 k2 : Kind) → is_ok (check_base_subtype_rules k1 k2) ≡ true → BaseRule k1 k2
base_sound k1 k2 h = elim (Bool-cases (k2 is Kind.reserved)) [
  | inl e ↦ inl (is_eq k2 Kind.reserved e)
  | inr n1 ↦ elim (Bool-cases (k1 is Kind.empty)) [
    | inl e ↦ inr (inl (is_eq k1 Kind.empty e))
    | inr n2 ↦ elim (Bool-cases (k1 is Kind.nat && k2 is Kind.int)) [
      | inl e ↦
          inr (
            inr
              (inl (is_eq k1 Kind.nat (ground (arith, e)), is_eq k2 Kind.int (ground (arith, e)))))
      | inr n3 ↦ elim (Bool-cases (k1 is k2 && is_primitive k1)) [
        | inl e ↦ inr (inr (inr (is_eq k1 k2 (ground (arith, e)), ground (arith, e))))
        | inr n4 ↦ absurd (ground (arith, h, n1, n2, n3, n4))
      ]
    ]
  ]
]

pub base_complete : (k1 k2 : Kind) → BaseRule k1 k2 → is_ok (check_base_subtype_rules k1 k2) ≡ true
base_complete k1 k2 (inl e) = let code = ap kind_code e in ground (arith, code)
base_complete k1 k2 (inr (inl e)) = let code = ap kind_code e in ground (arith, code)
base_complete k1 k2 (inr (inr (inl (e, f)))) =
    let code1 = ap kind_code e in let code2 = ap kind_code f in ground (arith, code1, code2)
base_complete k1 k2 (inr (inr (inr (e, h)))) = let code = ap kind_code e in ground (arith, code, h)

mode_eq : (a b : FuncMode) → mode_code a == mode_code b ≡ true → a ≡ b
mode_eq query query h = refl
mode_eq oneway oneway h = refl
mode_eq composite_query composite_query h = refl
mode_eq query oneway h = cc
mode_eq query composite_query h = cc
mode_eq oneway query h = cc
mode_eq oneway composite_query h = cc
mode_eq composite_query query h = cc
mode_eq composite_query oneway h = cc

pub modes_sound : (ms ns : List FuncMode) → modes_equal ms ns ≡ true → ms ≡ ns
modes_sound [] [] h = refl
modes_sound [] (b ∷ ns) h = cc
modes_sound (a ∷ ms) [] h = cc
modes_sound (a ∷ ms) (b ∷ ns) h =
    ap₂ ◌∷◌ (mode_eq a b (ground (arith, h))) (modes_sound ms ns (ground (arith, h)))

modes_refl : (ms : List FuncMode) → modes_equal ms ms ≡ true
modes_refl [] = refl
modes_refl (a ∷ ms) = ground (arith, modes_refl ms)

pub modes_complete : (ms ns : List FuncMode) → ms ≡ ns → modes_equal ms ns ≡ true
modes_complete ms ns e = subst (λ xs. modes_equal ms xs ≡ true) e (modes_refl ms)

module _ (type_at : Ref → Node) where
  pub args_length :
      (args1 args2 : List Ref) → SubArgs type_at args1 args2 → length args1 ≤ length args2
  args_length _ _ no_arg = omega arith
  args_length _ _ (further_arg p q) = omega arith
  args_length _ _ (both_args {args1 = args1} {args2 = args2} p q) =
      omega (arith, args_length args1 args2 q)

  pub rets_length :
      (rets1 rets2 : List Ref) → SubRets type_at rets1 rets2 → length rets2 ≤ length rets1
  rets_length _ _ no_ret = omega arith
  rets_length _ _ (both_rets {rets1 = rets1} {rets2 = rets2} p q) =
      omega (arith, rets_length rets1 rets2 q)
