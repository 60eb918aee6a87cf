-- ===== src/Idl/Subtype/Lists.antt =====
-- The checks of subtype.c over fields, arguments, results and methods decide the relation.
use lucid.Base.{
  ℕ, suc, Bool, true, false, List, [], ◌∷◌, Option, none, some, ◌≡◌, refl, sym, ap, ◌∙◌, subst,
  arith, if◌then◌else◌, ◌↔◌,
}
use lucid.Idl.Types.{Name}
use lucid.Idl.Subtype.{Ref, Kind, ◌is◌, Node, SubtypeResult, subtype_fail, Gamma}
use lucid.Idl.Subtype.Check.{
  Check, ◌>>=◌, pure, is_fail, find_field, find_service_method, trace_ref, resolve_type,
  optional_like, idl_type_is_optional_like, check_record_subtype, check_variant_subtype, check_args,
  check_rets, check_service_subtype,
}
use lucid.Idl.Subtype.Relation.{
  MayMiss, Sub, SubRecord, no_field, found_field, missing_field, SubVariant, no_choice, choice,
  SubArgs, no_arg, further_arg, both_args, SubRets, no_ret, both_rets, SubService, no_method,
  found_method,
}
use lucid.Idl.Subtype.Judges.{Judges, Judges-ok, Judges-fail, Judges-iff, Judges-if, Judges-and}

clash : {A : Type 0} {a : A} {o : Option A} → o ≡ none → o ≡ some a → ⊥
clash e f = let bad = sym e ∙ f in cc

unique : {A : Type 0} {a b : A} {o : Option A} → o ≡ some a → o ≡ some b → a ≡ b
unique e f = let both = sym e ∙ f in cc

module _ (type_at : Ref → Node) (no_name : (t : Ref) → (type_at t).kind is Kind.var ≡ false)
    (find : Name → Option Ref) (links : ℕ) where
  like_run :
      (t : Ref) (g : Gamma)
      → idl_type_is_optional_like type_at find (suc links) t g
        ≡ some (optional_like type_at find (suc links) (some t), g)
  unfolding idl_type_is_optional_like resolve_type trace_ref ◌>>=◌
  like_run t g = ground (arith, no_name t)

  like-Judges :
      (t : Ref) (rest : Check SubtypeResult) (Q : Type 0)
      → Judges rest Q
      → Judges
          (idl_type_is_optional_like type_at find (suc links) t >>= λ like.
            if like then rest else pure subtype_fail)
          (MayMiss type_at t × Q)
  unfolding ◌>>=◌
  like-Judges t rest Q h g r g' e =
      by_like g r g' (optional_like type_at find (suc links) (some t)) refl (
        sym (
          ap
            (λ o. elim o [
              | none ↦ none
              | some (like, g') ↦ (if like then rest else pure subtype_fail) g'
            ])
            (like_run t g))
        ∙ e)
    where
      by_like :
          (g : Gamma) (r : SubtypeResult) (g' : Gamma) (b : Bool)
          → optional_like type_at find (suc links) (some t) ≡ b
          → (if b then rest else pure subtype_fail) g ≡ some (r, g')
          → (is_fail r ≡ false) ↔ (MayMiss type_at t × Q)
      by_like g r g' b like run =
          Judges-if b rest (pure subtype_fail) (MayMiss type_at t × Q)
            (λ is_like.
              Judges-iff rest Q (MayMiss type_at t × Q) (λ q. (like ∙ is_like, q)) (λ p. p.1) h)
            (λ unlike. Judges-fail (MayMiss type_at t × Q) (λ p. apart (sym (like ∙ unlike) ∙ p.0)))
            g r g' run
        where
          apart : ◌≡◌ {A = Bool} false true → ⊥
          apart e = cc

  module _ (check : Ref → Ref → Check SubtypeResult)
      (judged : (a b : Ref) → Judges (check a b) (Sub type_at a b)) where
    pub record-Judges :
        (fields1 fields2 : List (ℕ × Ref))
        → Judges
            (check_record_subtype type_at find (suc links) check fields1 fields2)
            (SubRecord type_at fields1 fields2)
    unfolding check_record_subtype
    record-Judges fields1 [] = Judges-ok (SubRecord type_at fields1 []) no_field
    record-Judges fields1 ((id, t2) ∷ fields2) =
        by_field (find_field fields1 id) refl (record-Judges fields1 fields2)
      where
        Goal : Type 0
        Goal = SubRecord type_at fields1 ((id, t2) ∷ fields2)

        rest : Check SubtypeResult
        rest = check_record_subtype type_at find (suc links) check fields1 fields2

        inner_found :
            (t1 : Ref)
            → find_field fields1 id ≡ some t1
            → Goal
            → Sub type_at t1 t2 × SubRecord type_at fields1 fields2
        inner_found t1 e (found_field {t1 = u} f p q) =
            (subst (λ t. Sub type_at t t2) (unique f e) p, q)
        inner_found t1 e (missing_field f p q) = absurd (clash f e)

        inner_missing :
            find_field fields1 id ≡ none
            → Goal
            → MayMiss type_at t2 × SubRecord type_at fields1 fields2
        inner_missing e (found_field f p q) = absurd (clash e f)
        inner_missing e (missing_field f p q) = (p, q)

        by_field :
            (o : Option Ref)
            → find_field fields1 id ≡ o
            → Judges rest (SubRecord type_at fields1 fields2)
            → Judges
                (elim o [
                  | some t1 ↦ check t1 t2 >>= λ r. if is_fail r then pure subtype_fail else rest
                  | none ↦ idl_type_is_optional_like type_at find (suc links) t2 >>= λ like.
                      if like then rest else pure subtype_fail
                ])
                Goal
        by_field (some t1) e h =
            Judges-iff _ (Sub type_at t1 t2 × SubRecord type_at fields1 fields2) Goal
              (λ p. found_field e p.0 p.1) (inner_found t1 e)
              (Judges-and (check t1 t2) rest _ _ (judged t1 t2) h)
        by_field none e h =
            Judges-iff _ (MayMiss type_at t2 × SubRecord type_at fields1 fields2) Goal
              (λ p. missing_field e p.0 p.1) (inner_missing e) (like-Judges t2 rest _ h)

    pub variant-Judges :
        (fields1 fields2 : List (ℕ × Ref))
        → Judges
            (check_variant_subtype type_at find (suc links) check fields1 fields2)
            (SubVariant type_at fields1 fields2)
    unfolding check_variant_subtype
    variant-Judges [] fields2 = Judges-ok (SubVariant type_at [] fields2) no_choice
    variant-Judges ((id, t1) ∷ fields1) fields2 =
        by_field (find_field fields2 id) refl (variant-Judges fields1 fields2)
      where
        Goal : Type 0
        Goal = SubVariant type_at ((id, t1) ∷ fields1) fields2

        rest : Check SubtypeResult
        rest = check_variant_subtype type_at find (suc links) check fields1 fields2

        inner :
            (t2 : Ref)
            → find_field fields2 id ≡ some t2
            → Goal
            → Sub type_at t1 t2 × SubVariant type_at fields1 fields2
        inner t2 e (choice f p q) = (subst (Sub type_at t1) (unique f e) p, q)

        none_there : find_field fields2 id ≡ none → Goal → ⊥
        none_there e (choice f p q) = clash e f

        by_field :
            (o : Option Ref)
            → find_field fields2 id ≡ o
            → Judges rest (SubVariant type_at fields1 fields2)
            → Judges
                (elim o [
                  | none ↦ pure subtype_fail
                  | some t2 ↦ check t1 t2 >>= λ r. if is_fail r then pure subtype_fail else rest
                ])
                Goal
        by_field (some t2) e h =
            Judges-iff _ (Sub type_at t1 t2 × SubVariant type_at fields1 fields2) Goal
              (λ p. choice e p.0 p.1) (inner t2 e)
              (Judges-and (check t1 t2) rest _ _ (judged t1 t2) h)
        by_field none e h = Judges-fail Goal (none_there e)

    pub service-Judges :
        (methods1 methods2 : List (Name × Ref))
        → Judges
            (check_service_subtype type_at find (suc links) check methods1 methods2)
            (SubService type_at methods1 methods2)
    unfolding check_service_subtype
    service-Judges methods1 [] = Judges-ok (SubService type_at methods1 []) no_method
    service-Judges methods1 ((name, t2) ∷ methods2) =
        by_name (find_service_method methods1 name) refl (service-Judges methods1 methods2)
      where
        Goal : Type 0
        Goal = SubService type_at methods1 ((name, t2) ∷ methods2)

        rest : Check SubtypeResult
        rest = check_service_subtype type_at find (suc links) check methods1 methods2

        inner :
            (t1 : Ref)
            → find_service_method methods1 name ≡ some t1
            → Goal
            → Sub type_at t1 t2 × SubService type_at methods1 methods2
        inner t1 e (found_method f p q) = (subst (λ t. Sub type_at t t2) (unique f e) p, q)

        none_there : find_service_method methods1 name ≡ none → Goal → ⊥
        none_there e (found_method f p q) = clash e f

        by_name :
            (o : Option Ref)
            → find_service_method methods1 name ≡ o
            → Judges rest (SubService type_at methods1 methods2)
            → Judges
                (elim o [
                  | none ↦ pure subtype_fail
                  | some t1 ↦ check t1 t2 >>= λ r. if is_fail r then pure subtype_fail else rest
                ])
                Goal
        by_name (some t1) e h =
            Judges-iff _ (Sub type_at t1 t2 × SubService type_at methods1 methods2) Goal
              (λ p. found_method e p.0 p.1) (inner t1 e)
              (Judges-and (check t1 t2) rest _ _ (judged t1 t2) h)
        by_name none e h = Judges-fail Goal (none_there e)

    pub args-Judges :
        (args1 args2 : List Ref)
        → Judges
            (check_args type_at find (suc links) check args1 args2)
            (SubArgs type_at args1 args2)
    unfolding check_args
    args-Judges [] [] = Judges-ok (SubArgs type_at [] []) no_arg
    args-Judges [] (a2 ∷ args2) =
        Judges-iff _ (MayMiss type_at a2 × SubArgs type_at [] args2)
          (SubArgs type_at [] (a2 ∷ args2)) (λ p. further_arg p.0 p.1) inner
          (like-Judges a2 _ _ (args-Judges [] args2))
      where
        inner : SubArgs type_at [] (a2 ∷ args2) → MayMiss type_at a2 × SubArgs type_at [] args2
        inner (further_arg p q) = (p, q)
    args-Judges (a1 ∷ args1) [] = Judges-fail (SubArgs type_at (a1 ∷ args1) []) (λ h. elim h [ ])
    args-Judges (a1 ∷ args1) (a2 ∷ args2) =
        Judges-iff _ (Sub type_at a2 a1 × SubArgs type_at args1 args2)
          (SubArgs type_at (a1 ∷ args1) (a2 ∷ args2)) (λ p. both_args p.0 p.1) inner
          (Judges-and (check a2 a1) _ _ _ (judged a2 a1) (args-Judges args1 args2))
      where
        inner :
            SubArgs type_at (a1 ∷ args1) (a2 ∷ args2)
            → Sub type_at a2 a1 × SubArgs type_at args1 args2
        inner (both_args p q) = (p, q)

    pub rets-Judges :
        (rets1 rets2 : List Ref)
        → Judges
            (check_rets type_at find (suc links) check rets1 rets2)
            (SubRets type_at rets1 rets2)
    unfolding check_rets
    rets-Judges rets1 [] = Judges-ok (SubRets type_at rets1 []) no_ret
    rets-Judges [] (r2 ∷ rets2) = Judges-fail (SubRets type_at [] (r2 ∷ rets2)) (λ h. elim h [ ])
    rets-Judges (r1 ∷ rets1) (r2 ∷ rets2) =
        Judges-iff _ (Sub type_at r1 r2 × SubRets type_at rets1 rets2)
          (SubRets type_at (r1 ∷ rets1) (r2 ∷ rets2)) (λ p. both_rets p.0 p.1) inner
          (Judges-and (check r1 r2) _ _ _ (judged r1 r2) (rets-Judges rets1 rets2))
      where
        inner :
            SubRets type_at (r1 ∷ rets1) (r2 ∷ rets2)
            → Sub type_at r1 r2 × SubRets type_at rets1 rets2
        inner (both_rets p q) = (p, q)
