-- ===== src/Idl/Subtype/Ends.antt =====
-- Where types are built from types below them and there are no names, the subtype check ends.
use lucid.Base.{ℕ, zero, suc, ◌+◌, ◌<◌, ◌≡◌, refl, arith, Bool, true, false, ◌&&◌, ◌||◌, All}
use lucid.Base.{List, [], ◌∷◌, Option, none, some, ◌==◌, if◌then◌else◌}
use lucid.Idl.Types.{Name}
use lucid.Idl.Subtype.{Ref, Kind, ◌is◌, Node, SubtypeResult, subtype_ok, subtype_fail, OptReport}
use lucid.Idl.Subtype.Check.{
  Check, ◌>>=◌, pure, is_ok, is_fail, find_field, find_service_method, check_base_subtype_rules,
  trace_ref, resolve_type, optional_like, idl_type_is_optional_like,
}
use lucid.Idl.Subtype.Check.{
  check_vec_subtype, check_opt_subtype_opt, check_opt_subtype_wrap, check_record_subtype,
  check_variant_subtype, check_args, check_rets, check_func_subtype, check_service_subtype,
  check_opt_rules, check_composite, check_rules,
}
use lucid.Idl.Subtype.Check.{subtype_check_impl}
use lucid.Idl.Subtype.Layers.{
  Ends, pure-Ends, bind-Ends, if-Ends, either-Ends, option-Ends, find_field-All, find_method-All,
  Below, IsLayered,
}

module _ (type_at : Ref → Node) (rank : Ref → ℕ) (layered : IsLayered type_at rank)
    (find : Name → Option Ref) (links : ℕ) where
  resolve-Ends : (t : Ref) → Ends (resolve_type type_at find (suc links) t)
  unfolding Ends resolve_type trace_ref
  resolve-Ends t g = (some t, g, ground (arith, layered.no_name t))

  like-Ends : (t : Ref) → Ends (idl_type_is_optional_like type_at find (suc links) t)
  unfolding idl_type_is_optional_like
  like-Ends t =
      bind-Ends _ _ (resolve-Ends t) (λ o. pure-Ends (optional_like type_at find (suc links) o))

  wrap_resolved :
      (t : Ref) (f : Option Ref → Check SubtypeResult)
      → ((o : Option Ref) → Ends (f o))
      → Ends (resolve_type type_at find (suc links) t >>= f)
  wrap_resolved t f h = bind-Ends _ _ (resolve-Ends t) h

  -- The check ends on types of a lower rank together.
  module _ (check : Ref → Ref → Check SubtypeResult) (x y : ℕ)
      (ends : (a b : Ref) → rank a + rank b < x + y → Ends (check a b)) where
    rest-Ends :
        (a b : Ref) (rest : Check SubtypeResult)
        → rank a + rank b < x + y
        → Ends rest
        → Ends (check a b >>= λ r. if is_fail r then pure subtype_fail else rest)
    rest-Ends a b rest l h =
        bind-Ends _ _ (ends a b l)
          (λ r. if-Ends (is_fail r) _ _ (λ _. pure-Ends subtype_fail) (λ _. h))

    unless-Ends :
        (t : Ref) (rest : Check SubtypeResult)
        → Ends rest
        → Ends (
            idl_type_is_optional_like type_at find (suc links) t >>= λ like.
            if like then rest else pure subtype_fail)
    unless-Ends t rest h =
        bind-Ends _ _ (like-Ends t)
          (λ like. if-Ends like _ _ (λ _. h) (λ _. pure-Ends subtype_fail))

    record-Ends :
        (fields1 fields2 : List (ℕ × Ref))
        → All (λ (f : ℕ × Ref). Below rank x f.1) fields1
        → All (λ (f : ℕ × Ref). Below rank y f.1) fields2
        → Ends (check_record_subtype type_at find (suc links) check fields1 fields2)
    unfolding check_record_subtype
    record-Ends fields1 [] h k = pure-Ends subtype_ok
    record-Ends fields1 ((id, t2) ∷ fields2) h (p, k) =
        by_field (find_field fields1 id) refl (record-Ends fields1 fields2 h k)
      where
        by_field :
            (o : Option Ref)
            → find_field fields1 id ≡ o
            → Ends (check_record_subtype type_at find (suc links) check fields1 fields2)
            → Ends (elim o [
              | some t1 ↦ check t1 t2 >>= λ r.
                  if is_fail r
                  then pure subtype_fail
                  else check_record_subtype type_at find (suc links) check fields1 fields2
              | none ↦ idl_type_is_optional_like type_at find (suc links) t2 >>= λ like.
                  if like
                  then check_record_subtype type_at find (suc links) check fields1 fields2
                  else pure subtype_fail
            ])
        by_field none e r = unless-Ends t2 _ r
        by_field (some t1) e r =
            rest-Ends t1 t2 _ (omega (arith, find_field-All (Below rank x) fields1 id t1 h e, p)) r

    variant-Ends :
        (fields1 fields2 : List (ℕ × Ref))
        → All (λ (f : ℕ × Ref). Below rank x f.1) fields1
        → All (λ (f : ℕ × Ref). Below rank y f.1) fields2
        → Ends (check_variant_subtype type_at find (suc links) check fields1 fields2)
    unfolding check_variant_subtype
    variant-Ends [] fields2 h k = pure-Ends subtype_ok
    variant-Ends ((id, t1) ∷ fields1) fields2 (p, h) k =
        option-Ends (find_field fields2 id) _ _ (pure-Ends subtype_fail) (λ t2 e.
          rest-Ends t1 t2 _ (omega (arith, find_field-All (Below rank y) fields2 id t2 k e, p))
            (variant-Ends fields1 fields2 h k))

    service-Ends :
        (methods1 methods2 : List (Name × Ref))
        → All (λ (m : Name × Ref). Below rank x m.1) methods1
        → All (λ (m : Name × Ref). Below rank y m.1) methods2
        → Ends (check_service_subtype type_at find (suc links) check methods1 methods2)
    unfolding check_service_subtype
    service-Ends methods1 [] h k = pure-Ends subtype_ok
    service-Ends methods1 ((name, t2) ∷ methods2) h (p, k) =
        option-Ends (find_service_method methods1 name) _ _ (pure-Ends subtype_fail) (λ t1 e.
          rest-Ends t1 t2 _ (omega (arith, find_method-All (Below rank x) methods1 name t1 h e, p))
            (service-Ends methods1 methods2 h k))

    args-Ends :
        (args1 args2 : List Ref)
        → All (Below rank x) args1
        → All (Below rank y) args2
        → Ends (check_args type_at find (suc links) check args1 args2)
    unfolding check_args
    args-Ends [] [] h k = pure-Ends subtype_ok
    args-Ends [] (a2 ∷ args2) h (q, k) = unless-Ends a2 _ (args-Ends [] args2 h k)
    args-Ends (a1 ∷ args1) [] h k = pure-Ends subtype_fail
    args-Ends (a1 ∷ args1) (a2 ∷ args2) (p, h) (q, k) =
        rest-Ends a2 a1 _ (omega (arith, p, q)) (args-Ends args1 args2 h k)

    rets-Ends :
        (rets1 rets2 : List Ref)
        → All (Below rank x) rets1
        → All (Below rank y) rets2
        → Ends (check_rets type_at find (suc links) check rets1 rets2)
    unfolding check_rets
    rets-Ends rets1 [] h k = pure-Ends subtype_ok
    rets-Ends [] (r2 ∷ rets2) h k = pure-Ends subtype_fail
    rets-Ends (r1 ∷ rets1) (r2 ∷ rets2) (p, h) (q, k) =
        rest-Ends r1 r2 _ (omega (arith, p, q)) (rets-Ends rets1 rets2 h k)

    func-Ends :
        (n1 n2 : Node)
        → All (Below rank x) n1.args
        → All (Below rank y) n2.args
        → All (Below rank x) n1.rets
        → All (Below rank y) n2.rets
        → Ends (check_func_subtype type_at find (suc links) check n1 n2)
    unfolding check_func_subtype
    func-Ends n1 n2 a1 a2 r1 r2 = either-Ends _ _ _ (pure-Ends subtype_fail) (
        bind-Ends _ _ (args-Ends n1.args n2.args a1 a2) (λ r.
          either-Ends (is_fail r) _ _ (pure-Ends subtype_fail) (
            bind-Ends _ _ (rets-Ends n1.rets n2.rets r1 r2)
              (λ r'. either-Ends (is_fail r') _ _ (pure-Ends subtype_fail) (pure-Ends _)))))

  module _ (check : Ref → Ref → Check SubtypeResult) (t1 t2 : Ref)
      (ends : (a b : Ref) → rank a + rank b < rank t1 + rank t2 → Ends (check a b)) where
    composite-Ends : Ends (check_composite type_at find (suc links) check (type_at t1) (type_at t2))
    unfolding check_composite
    composite-Ends =
        let x = rank t1 in
        let y = rank t2 in
        either-Ends _ _ _
          (record-Ends check x y ends (type_at t1).fields (type_at t2).fields (layered.fields t1)
            (layered.fields t2))
          (either-Ends _ _ _
            (variant-Ends check x y ends (type_at t1).fields (type_at t2).fields (layered.fields t1)
              (layered.fields t2))
            (either-Ends _ _ _
              (func-Ends check x y ends (type_at t1) (type_at t2) (layered.args t1)
                (layered.args t2) (layered.rets t1) (layered.rets t2))
              (either-Ends _ _ _
                (service-Ends check x y ends (type_at t1).methods (type_at t2).methods
                  (layered.methods t1) (layered.methods t2))
                (pure-Ends subtype_fail))))

    wrap-Ends :
        (type_at t2).kind is Kind.opt ≡ true
        → Ends (check_opt_subtype_wrap type_at find (suc links) check t1 (type_at t2))
    unfolding check_opt_subtype_wrap
    wrap-Ends e = bind-Ends _ _ (resolve-Ends (type_at t2).inner) (λ o.
        option-Ends o _ _ (pure-Ends subtype_fail) (λ inner_t2 _.
          bind-Ends _ _ (like-Ends inner_t2) (λ like.
            either-Ends like _ _ (pure-Ends subtype_fail) (
              bind-Ends _ _
                (ends t1 (type_at t2).inner (omega (arith, layered.inner t2 (ground (arith, e)))))
                (λ r. pure-Ends _)))))

    opt-Ends :
        (report : OptReport)
        → (type_at t2).kind is Kind.opt ≡ true
        → Ends (check_opt_rules type_at find (suc links) check report t1 (type_at t1) (type_at t2))
    unfolding check_opt_rules check_opt_subtype_opt
    opt-Ends report e = either-Ends _ _ _ (pure-Ends subtype_ok) (
        bind-Ends _ _
          (if-Ends ((type_at t1).kind is Kind.opt && (type_at t2).kind is Kind.opt) _ _
            (λ both.
              bind-Ends _ _
                (ends (type_at t1).inner (type_at t2).inner (
                  omega (
                    arith,
                    layered.inner t1 (ground (arith, both)),
                    layered.inner t2 (ground (arith, e)),
                  )))
                (λ r. pure-Ends _))
            (λ _. pure-Ends subtype_fail))
          (λ r. either-Ends (is_ok r) _ _ (pure-Ends r) (
            bind-Ends _ _ (wrap-Ends e)
              (λ r'. either-Ends (is_ok r') _ _ (pure-Ends r') (pure-Ends _)))))

    rules-Ends :
        (report : OptReport) → Ends (check_rules type_at find (suc links) check report t1 t2)
    unfolding check_rules check_vec_subtype
    rules-Ends report =
        let n1 = type_at t1 in
        let n2 = type_at t2 in
        either-Ends (is_ok (check_base_subtype_rules n1.kind n2.kind)) _ _ (pure-Ends subtype_ok) (
          bind-Ends _ _
            (if-Ends (n1.kind is Kind.vec && n2.kind is Kind.vec) _ _
              (λ both. ends n1.inner n2.inner (
                omega (
                  arith,
                  layered.inner t1 (ground (arith, both)),
                  layered.inner t2 (ground (arith, both)),
                )))
              (λ _. pure-Ends subtype_fail))
            (λ r.
              either-Ends (is_fail r) _ _
                (if-Ends (n2.kind is Kind.opt) _ _ (λ e. opt-Ends report e) (λ _. composite-Ends))
                (pure-Ends r)))

  -- Where no type is a name and the types in a type have a lower rank than it, the subtype check of any
  -- two types ends in a result, for any table, with fuel above the sum of their ranks.
  pub subtype_check_impl-Ends :
      (hash : Ref → Ref → ℕ) (malloc : ℕ → Bool) (report : OptReport) (fuel : ℕ) (t1 t2 : Ref)
      → rank t1 + rank t2 < fuel
      → Ends (subtype_check_impl type_at find (suc links) hash malloc report fuel t1 t2)
  unfolding subtype_check_impl
  subtype_check_impl-Ends hash malloc report zero t1 t2 h = absurd (omega (arith, h))
  subtype_check_impl-Ends hash malloc report (suc fuel) t1 t2 h =
      let check = subtype_check_impl type_at find (suc links) hash malloc report fuel in
      let ends : (a b : Ref) → rank a + rank b < rank t1 + rank t2 → Ends (check a b) =
        λ a b l. subtype_check_impl-Ends hash malloc report fuel a b (omega (arith, l, h)) in
      either-Ends (t1 == t2) _ _ (pure-Ends subtype_ok) (
        if-Ends ((type_at t1).kind is Kind.var || (type_at t2).kind is Kind.var) _ _
          (λ name. absurd (clash name (layered.no_name t1) (layered.no_name t2)))
          (λ _. rules-Ends check t1 t2 ends report))
    where
      clash :
          (type_at t1).kind is Kind.var || (type_at t2).kind is Kind.var ≡ true
          → (type_at t1).kind is Kind.var ≡ false
          → (type_at t2).kind is Kind.var ≡ false
          → ⊥
      clash e f g = ground (arith, e, f, g)
