-- ===== src/Idl/Subtype/Composite.antt =====
-- The checks of subtype.c on records, variants, functions and services decide the relation.
use lucid.Base.{
  ℕ, suc, Bool, true, false, Option, ◌≡◌, refl, sym, ap, ◌∙◌, arith, length, ◌||◌, ◌&&◌, ltb,
}
use lucid.Idl.Types.{Name}
use lucid.Idl.Subtype.{Ref, Kind, kind_code, ◌is◌, Node, SubtypeResult, subtype_fail}
use lucid.Idl.Subtype.Check.{
  Check, pure, check_args, check_rets, check_func_subtype, check_composite,
}
use lucid.Idl.Subtype.Kinds.{is_eq}
use lucid.Idl.Subtype.Relation.{
  Sub, SubParts, records, variants, funcs, services, SubRecord, SubVariant, SubArgs, SubRets,
  SubService,
}
use lucid.Idl.Subtype.Judges.{Judges, Judges-pure, Judges-fail, Judges-iff, Judges-if, Judges-and}
use lucid.Idl.Subtype.Lists.{
  record-Judges, variant-Judges, service-Judges, args-Judges, rets-Judges,
}
use lucid.Idl.Subtype.Basics.{modes_sound, modes_complete, args_length, rets_length}

-- Kinds of different codes are different.
apart : (a b : Kind) {k : Kind} → k ≡ a → k ≡ b → (a is b) ≡ false → ⊥
apart a b e f h = let code = ap kind_code (sym e ∙ f) in ground (arith, h, code)

and_true : (x y : Bool) → (x && y) ≡ true → (x ≡ true) × (y ≡ true)
and_true true y h = (refl, h)
and_true false y h = cc

pub both_kinds : (a b k1 k2 : Kind) → (k1 is a && k2 is b) ≡ true → (k1 ≡ a) × (k2 ≡ b)
both_kinds a b k1 k2 h = let (e, f) = and_true (k1 is a) (k2 is b) h in (is_eq k1 a e, is_eq k2 b f)

-- Equal kinds pass the test.
pub test_kinds : (a b : Kind) {k1 k2 : Kind} → k1 ≡ a → k2 ≡ b → (k1 is a && k2 is b) ≡ true
test_kinds a b e f =
    let code1 = ap kind_code e in let code2 = ap kind_code f in ground (arith, code1, code2)

pub mismatch : {b : Bool} → b ≡ false → b ≡ true → ⊥
mismatch e f = let bad = sym e ∙ f in cc

module _ (type_at : Ref → Node) where
  abbrev FuncRule : Node → Node → Type 0
  FuncRule n1 n2 =
      SubArgs type_at n1.args n2.args × (SubRets type_at n1.rets n2.rets × (n1.modes ≡ n2.modes))

  module _ (no_name : (t : Ref) → (type_at t).kind is Kind.var ≡ false) (find : Name → Option Ref)
      (links : ℕ) where
    module _ (check : Ref → Ref → Check SubtypeResult)
        (judged : (a b : Ref) → Judges (check a b) (Sub type_at a b)) where
      func-Judges :
          (n1 n2 : Node)
          → Judges (check_func_subtype type_at find (suc links) check n1 n2) (FuncRule n1 n2)
      unfolding check_func_subtype
      func-Judges n1 n2 =
          Judges-if _ (pure subtype_fail) _ (FuncRule n1 n2)
            (λ short. Judges-fail (FuncRule n1 n2) (λ p. too_short short p.0 p.1.0))
            (λ fine.
              Judges-and (check_args type_at find (suc links) check n1.args n2.args) _
                (SubArgs type_at n1.args n2.args)
                (SubRets type_at n1.rets n2.rets × (n1.modes ≡ n2.modes))
                (args-Judges type_at no_name find links check judged n1.args n2.args)
                (Judges-and (check_rets type_at find (suc links) check n1.rets n2.rets) _
                  (SubRets type_at n1.rets n2.rets) (n1.modes ≡ n2.modes)
                  (rets-Judges type_at no_name find links check judged n1.rets n2.rets)
                  (Judges-pure _ (n1.modes ≡ n2.modes) (
                    λ passed. modes_sound n1.modes n2.modes (ground (arith, passed)),
                    λ e. ground (arith, modes_complete n1.modes n2.modes e),
                  ))))
        where
          too_short :
              (ltb (length n2.args) (length n1.args) || ltb (length n1.rets) (length n2.rets))
                ≡ true
              → SubArgs type_at n1.args n2.args
              → SubRets type_at n1.rets n2.rets
              → ⊥
          too_short short p q = ground (
            arith,
            short,
            args_length type_at n1.args n2.args p,
            rets_length type_at n1.rets n2.rets q,
          )

      pub composite-Judges :
          (t1 t2 : Ref)
          → Judges
              (check_composite type_at find (suc links) check (type_at t1) (type_at t2))
              (SubParts type_at t1 t2)
      unfolding check_composite
      composite-Judges t1 t2 =
          Judges-if (k1 is Kind.record_of && k2 is Kind.record_of) _ _ Goal
            (λ e.
              let (p, q) = both_kinds Kind.record_of Kind.record_of k1 k2 e in
              Judges-iff _ (SubRecord type_at (type_at t1).fields (type_at t2).fields) Goal
                (records p q) (record_part p)
                (record-Judges type_at no_name find links check judged _ _))
            (λ no_record.
              Judges-if (k1 is Kind.variant && k2 is Kind.variant) _ _ Goal
                (λ e.
                  let (p, q) = both_kinds Kind.variant Kind.variant k1 k2 e in
                  Judges-iff _ (SubVariant type_at (type_at t1).fields (type_at t2).fields) Goal
                    (variants p q) (variant_part p)
                    (variant-Judges type_at no_name find links check judged _ _))
                (λ no_variant.
                  Judges-if (k1 is Kind.func && k2 is Kind.func) _ _ Goal
                    (λ e.
                      let (p, q) = both_kinds Kind.func Kind.func k1 k2 e in
                      Judges-iff _ (FuncRule (type_at t1) (type_at t2)) Goal
                        (λ h. funcs p q h.0 h.1.0 h.1.1) (func_part p)
                        (func-Judges (type_at t1) (type_at t2)))
                    (λ no_func.
                      Judges-if (k1 is Kind.service && k2 is Kind.service) _ _ Goal
                        (λ e.
                          let (p, q) = both_kinds Kind.service Kind.service k1 k2 e in
                          Judges-iff _
                            (SubService type_at (type_at t1).methods (type_at t2).methods) Goal
                            (services p q) (service_part p)
                            (service-Judges type_at no_name find links check judged _ _))
                        (λ no_service.
                          Judges-fail Goal (no_part no_record no_variant no_func no_service)))))
        where
          k1 : Kind
          k1 = (type_at t1).kind

          k2 : Kind
          k2 = (type_at t2).kind

          Goal : Type 0
          Goal = SubParts type_at t1 t2

          record_part :
              k1 ≡ Kind.record_of → Goal → SubRecord type_at (type_at t1).fields (type_at t2).fields
          record_part e (records p q h) = h
          record_part e (variants p q h) = absurd (apart Kind.record_of Kind.variant e p refl)
          record_part e (funcs p q h h' m) = absurd (apart Kind.record_of Kind.func e p refl)
          record_part e (services p q h) = absurd (apart Kind.record_of Kind.service e p refl)

          variant_part :
              k1 ≡ Kind.variant → Goal → SubVariant type_at (type_at t1).fields (type_at t2).fields
          variant_part e (records p q h) = absurd (apart Kind.variant Kind.record_of e p refl)
          variant_part e (variants p q h) = h
          variant_part e (funcs p q h h' m) = absurd (apart Kind.variant Kind.func e p refl)
          variant_part e (services p q h) = absurd (apart Kind.variant Kind.service e p refl)

          func_part : k1 ≡ Kind.func → Goal → FuncRule (type_at t1) (type_at t2)
          func_part e (records p q h) = absurd (apart Kind.func Kind.record_of e p refl)
          func_part e (variants p q h) = absurd (apart Kind.func Kind.variant e p refl)
          func_part e (funcs p q h h' m) = (h, (h', m))
          func_part e (services p q h) = absurd (apart Kind.func Kind.service e p refl)

          service_part :
              k1 ≡ Kind.service
              → Goal
              → SubService type_at (type_at t1).methods (type_at t2).methods
          service_part e (records p q h) = absurd (apart Kind.service Kind.record_of e p refl)
          service_part e (variants p q h) = absurd (apart Kind.service Kind.variant e p refl)
          service_part e (funcs p q h h' m) = absurd (apart Kind.service Kind.func e p refl)
          service_part e (services p q h) = h

          no_part :
              (k1 is Kind.record_of && k2 is Kind.record_of) ≡ false
              → (k1 is Kind.variant && k2 is Kind.variant) ≡ false
              → (k1 is Kind.func && k2 is Kind.func) ≡ false
              → (k1 is Kind.service && k2 is Kind.service) ≡ false
              → Goal
              → ⊥
          no_part a b c d (records p q h) =
              mismatch a (test_kinds Kind.record_of Kind.record_of p q)
          no_part a b c d (variants p q h) = mismatch b (test_kinds Kind.variant Kind.variant p q)
          no_part a b c d (funcs p q h h' m) = mismatch c (test_kinds Kind.func Kind.func p q)
          no_part a b c d (services p q h) = mismatch d (test_kinds Kind.service Kind.service p q)
