-- ===== src/Idl/Subtype/Rules.antt =====
-- Each rule of the subtype check takes no assumption away, if the checks that it makes do not.
use lucid.Base.{
  ℕ, ◌<◌, ◌≡◌, refl, sym, ◌∙◌, subst, arith, Bool, true, false, Option-cases, ◌&&◌, inl, inr,
}
use lucid.Base.{List, [], ◌∷◌, Option, none, some, if◌then◌else◌, length, All}
use lucid.Idl.Types.{Name}
use lucid.Idl.Subtype.{
  Ref, Kind, ◌is◌, Node, SubtypeResult, subtype_ok, subtype_fail, OptReport, Gamma, has_pair,
  idl_gamma_contains,
}
use lucid.Idl.Subtype.Check.{
  Check, ◌>>=◌, pure, is_ok, is_fail, find_field, find_service_method, check_base_subtype_rules,
  trace_ref, resolve_type, optional_like, idl_type_is_optional_like,
}
use lucid.Idl.Subtype.Check.{
  check_vec_subtype, check_opt_subtype_opt, check_opt_subtype_wrap, check_record_subtype,
  check_variant_subtype, check_args, check_rets, check_func_subtype, check_service_subtype,
  check_opt_rules, check_composite, check_rules,
}

-- No pair stands twice.
abbrev pub AreOnce : List (Ref × Ref) → Type 0
AreOnce [] = Unit {0}
AreOnce ((a, b) ∷ entries) = (has_pair entries a b ≡ false) × AreOnce entries

-- A table whose array has as many buckets as it says, with no pair twice in a bucket.
abbrev pub IsGamma : Gamma → Type 0
IsGamma g = (length g.buckets ≡ g.bucket_count) × (0 < g.bucket_count) × All AreOnce g.buckets

module _ (hash : Ref → Ref → ℕ) where
  -- The pairs of the first table are in the second, but for those excepted.
  abbrev pub Grows : (Ref → Ref → Bool) → Gamma → Gamma → Type 0
  Grows except g g' =
      IsGamma g'
      × ((a b : Ref)
          → except a b ≡ false
          → idl_gamma_contains hash g a b ≡ true
          → idl_gamma_contains hash g' a b ≡ true)

  abbrev pub Keeps : {A : Type 0} → (Ref → Ref → Bool) → Check A → Type 0
  Keeps {A = A} except m =
      (g : Gamma) → IsGamma g → (a : A) (g' : Gamma) → m g ≡ some (a, g') → Grows except g g'

  module _ (except : Ref → Ref → Bool) where
    pub pure-Keeps : {A : Type 0} (a : A) → Keeps except (pure a)
    pure-Keeps {A = A} a g v a' g' run = subst (Grows except g) (same run) (v, λ x y e h. h)
      where
        same : ◌≡◌ {A = Option (A × Gamma)} (some (a, g)) (some (a', g')) → g ≡ g'
        same e = cc

    pub bind-Keeps :
        {A B : Type 0} (m : Check A) (f : A → Check B)
        → Keeps except m
        → ((a : A) → Keeps except (f a))
        → Keeps except (m >>= f)
    unfolding ◌>>=◌
    bind-Keeps {A = A} {B = B} m f hm hf g v b g' run = elim (Option-cases (m g)) [
      | inl stops ↦ absurd (nothing (sym (stopped stops) ∙ run))
      | inr ((a, g₁), goes) ↦
          let (v₁, first) = hm g v a g₁ goes in
          let (v', second) = hf a g₁ v₁ b g' (sym (went a g₁ goes) ∙ run) in
          (v', λ x y e h. second x y e (first x y e h))
    ]
      where
        nothing : ◌≡◌ {A = Option (B × Gamma)} none (some (b, g')) → ⊥
        nothing e = cc

        stopped : m g ≡ none → (m >>= f) g ≡ none
        stopped e = ground (arith, e)

        went : (a : A) (g₁ : Gamma) → m g ≡ some (a, g₁) → (m >>= f) g ≡ f a g₁
        went a g₁ e = ground (arith, e)

    pub if-Keeps :
        {A : Type 0} (b : Bool) (x y : Check A)
        → Keeps except x
        → Keeps except y
        → Keeps except (if b then x else y)
    if-Keeps true x y hx hy = hx
    if-Keeps false x y hx hy = hy

    option-Keeps :
        {A B : Type 0} (o : Option A) (x : Check B) (f : A → Check B)
        → Keeps except x
        → ((a : A) → Keeps except (f a))
        → Keeps except (elim o [ none ↦ x | some a ↦ f a ])
    option-Keeps none x f hx hf = hx
    option-Keeps (some a) x f hx hf = hf a

    module _ (type_at : Ref → Node) (find : Name → Option Ref) (links : ℕ) where
      pub resolve-Keeps : (t : Ref) → Keeps except (resolve_type type_at find links t)
      unfolding resolve_type
      resolve-Keeps t g v o g' run = by_trace (trace_ref type_at find links links t) refl
        where
          nothing : ◌≡◌ {A = Option (Option Ref × Gamma)} none (some (o, g')) → ⊥
          nothing e = cc

          by_trace :
              (r : Option (Option Ref))
              → trace_ref type_at find links links t ≡ r
              → Grows except g g'
          by_trace none e = absurd (nothing (sym (ground (arith, e)) ∙ run))
          by_trace (some o') e = pure-Keeps o' g v o g' (sym (ground (arith, e)) ∙ run)

      like-Keeps : (t : Ref) → Keeps except (idl_type_is_optional_like type_at find links t)
      unfolding idl_type_is_optional_like
      like-Keeps t =
          bind-Keeps _ _ (resolve-Keeps t) (λ o. pure-Keeps (optional_like type_at find links o))

      module _ (check : Ref → Ref → Check SubtypeResult)
          (keeps : (a b : Ref) → Keeps except (check a b)) where
        -- Unless the check fails, the rest is checked.
        rest-Keeps :
            (a b : Ref) (rest : Check SubtypeResult)
            → Keeps except rest
            → Keeps except (check a b >>= λ r. if is_fail r then pure subtype_fail else rest)
        rest-Keeps a b rest h =
            bind-Keeps _ _ (keeps a b) (λ r. if-Keeps (is_fail r) _ _ (pure-Keeps subtype_fail) h)

        unless-Keeps :
            (t : Ref) (rest : Check SubtypeResult)
            → Keeps except rest
            → Keeps except (
                idl_type_is_optional_like type_at find links t >>= λ like.
                if like then rest else pure subtype_fail)
        unless-Keeps t rest h =
            bind-Keeps _ _ (like-Keeps t) (λ like. if-Keeps like _ _ h (pure-Keeps subtype_fail))

        record-Keeps :
            (fields1 fields2 : List (ℕ × Ref))
            → Keeps except (check_record_subtype type_at find links check fields1 fields2)
        unfolding check_record_subtype
        record-Keeps fields1 [] = pure-Keeps subtype_ok
        record-Keeps fields1 ((id, t2) ∷ fields2) =
            by_field (find_field fields1 id) (record-Keeps fields1 fields2)
          where
            by_field :
                (o : Option Ref)
                → Keeps except (check_record_subtype type_at find links check fields1 fields2)
                → Keeps except (elim o [
                  | some t1 ↦ check t1 t2 >>= λ r.
                      if is_fail r
                      then pure subtype_fail
                      else check_record_subtype type_at find links check fields1 fields2
                  | none ↦ idl_type_is_optional_like type_at find links t2 >>= λ like.
                      if like
                      then check_record_subtype type_at find links check fields1 fields2
                      else pure subtype_fail
                ])
            by_field none h = unless-Keeps t2 _ h
            by_field (some t1) h = rest-Keeps t1 t2 _ h

        variant-Keeps :
            (fields1 fields2 : List (ℕ × Ref))
            → Keeps except (check_variant_subtype type_at find links check fields1 fields2)
        unfolding check_variant_subtype
        variant-Keeps [] fields2 = pure-Keeps subtype_ok
        variant-Keeps ((id, t1) ∷ fields1) fields2 =
            option-Keeps (find_field fields2 id) _ _ (pure-Keeps subtype_fail)
              (λ t2. rest-Keeps t1 t2 _ (variant-Keeps fields1 fields2))

        service-Keeps :
            (methods1 methods2 : List (Name × Ref))
            → Keeps except (check_service_subtype type_at find links check methods1 methods2)
        unfolding check_service_subtype
        service-Keeps methods1 [] = pure-Keeps subtype_ok
        service-Keeps methods1 ((name, t2) ∷ methods2) =
            option-Keeps (find_service_method methods1 name) _ _ (pure-Keeps subtype_fail)
              (λ t1. rest-Keeps t1 t2 _ (service-Keeps methods1 methods2))

        args-Keeps :
            (args1 args2 : List Ref)
            → Keeps except (check_args type_at find links check args1 args2)
        unfolding check_args
        args-Keeps [] [] = pure-Keeps subtype_ok
        args-Keeps [] (a2 ∷ args2) = unless-Keeps a2 _ (args-Keeps [] args2)
        args-Keeps (a1 ∷ args1) [] = pure-Keeps subtype_fail
        args-Keeps (a1 ∷ args1) (a2 ∷ args2) = rest-Keeps a2 a1 _ (args-Keeps args1 args2)

        rets-Keeps :
            (rets1 rets2 : List Ref)
            → Keeps except (check_rets type_at find links check rets1 rets2)
        unfolding check_rets
        rets-Keeps rets1 [] = pure-Keeps subtype_ok
        rets-Keeps [] (r2 ∷ rets2) = pure-Keeps subtype_fail
        rets-Keeps (r1 ∷ rets1) (r2 ∷ rets2) = rest-Keeps r1 r2 _ (rets-Keeps rets1 rets2)

        func-Keeps :
            (n1 n2 : Node) → Keeps except (check_func_subtype type_at find links check n1 n2)
        unfolding check_func_subtype
        func-Keeps n1 n2 = if-Keeps _ _ _ (pure-Keeps subtype_fail) (
            bind-Keeps _ _ (args-Keeps n1.args n2.args) (λ r.
              if-Keeps (is_fail r) _ _ (pure-Keeps subtype_fail) (
                bind-Keeps _ _ (rets-Keeps n1.rets n2.rets)
                  (λ r'. if-Keeps (is_fail r') _ _ (pure-Keeps subtype_fail) (pure-Keeps _)))))

        composite-Keeps :
            (n1 n2 : Node) → Keeps except (check_composite type_at find links check n1 n2)
        unfolding check_composite
        composite-Keeps n1 n2 = if-Keeps _ _ _ (record-Keeps n1.fields n2.fields) (
            if-Keeps _ _ _ (variant-Keeps n1.fields n2.fields) (
              if-Keeps _ _ _ (func-Keeps n1 n2)
                (if-Keeps _ _ _ (service-Keeps n1.methods n2.methods) (pure-Keeps subtype_fail))))

        wrap-Keeps :
            (t1 : Ref) (n2 : Node)
            → Keeps except (check_opt_subtype_wrap type_at find links check t1 n2)
        unfolding check_opt_subtype_wrap
        wrap-Keeps t1 n2 = bind-Keeps _ _ (resolve-Keeps n2.inner) (λ o.
            option-Keeps o _ _ (pure-Keeps subtype_fail) (λ inner_t2.
              bind-Keeps _ _ (like-Keeps inner_t2) (λ like.
                if-Keeps like _ _ (pure-Keeps subtype_fail)
                  (bind-Keeps _ _ (keeps t1 n2.inner) (λ r. pure-Keeps _)))))

        opt-Keeps :
            (report : OptReport) (t1 : Ref) (n1 n2 : Node)
            → Keeps except (check_opt_rules type_at find links check report t1 n1 n2)
        unfolding check_opt_rules check_opt_subtype_opt
        opt-Keeps report t1 n1 n2 = if-Keeps _ _ _ (pure-Keeps subtype_ok) (
            bind-Keeps _ _
              (if-Keeps _ _ _ (bind-Keeps _ _ (keeps n1.inner n2.inner) (λ r. pure-Keeps _))
                (pure-Keeps subtype_fail))
              (λ r. if-Keeps (is_ok r) _ _ (pure-Keeps r) (
                bind-Keeps _ _ (wrap-Keeps t1 n2)
                  (λ r'. if-Keeps (is_ok r') _ _ (pure-Keeps r') (pure-Keeps _)))))

        pub rules-Keeps :
            (report : OptReport) (t1 t2 : Ref)
            → Keeps except (check_rules type_at find links check report t1 t2)
        unfolding check_rules check_vec_subtype
        rules-Keeps report t1 t2 =
            let n1 = type_at t1 in
            let n2 = type_at t2 in
            if-Keeps (is_ok (check_base_subtype_rules n1.kind n2.kind)) _ _ (pure-Keeps subtype_ok)
              (bind-Keeps _ _
                (if-Keeps (n1.kind is Kind.vec && n2.kind is Kind.vec) _ _ (keeps n1.inner n2.inner)
                  (pure-Keeps subtype_fail))
                (λ r.
                  if-Keeps (is_fail r) _ _
                    (if-Keeps (n2.kind is Kind.opt) _ _ (opt-Keeps report t1 n1 n2)
                      (composite-Keeps n1 n2))
                    (pure-Keeps r)))
