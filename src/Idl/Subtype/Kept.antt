-- ===== src/Idl/Subtype/Kept.antt =====
-- What a subtype check does to the table of assumptions: it takes none away that was there.
use lucid.Base.{
  ℕ, zero, suc, ◌≡◌, refl, ap, sym, ◌∙◌, subst, arith, Bool, true, false, Bool-cases, ◌||◌, inl,
  inr,
}
use lucid.Base.{Option, none, some, ◌==◌}
use lucid.Idl.Types.{Name}
use lucid.Idl.Subtype.{
  Ref, Kind, ◌is◌, Node, SubtypeResult, subtype_ok, subtype_fail, OptReport, Gamma,
  idl_gamma_contains, idl_gamma_insert, idl_gamma_remove,
}
use lucid.Idl.Subtype.Check.{Check, is_fail}
use lucid.Idl.Subtype.Check.{
  drop_pair, check_resolved, check_assumed, subtype_check_var_case, subtype_check_impl,
}
use lucid.Idl.Subtype.Rules.{
  Grows, Keeps, pure-Keeps, bind-Keeps, if-Keeps, resolve-Keeps, rules-Keeps,
}
use lucid.Idl.Subtype.Entries.{is_pair}
use lucid.Idl.Subtype.Table.{nothing_excepted, remove-Grows, insert-cases}

module _ (hash : Ref → Ref → ℕ) where
  pub weaken :
      {A : Type 0} (except : Ref → Ref → Bool) (m : Check A)
      → Keeps hash nothing_excepted m
      → Keeps hash except m
  weaken except m h g v a g' run =
      let (v', kept) = h g v a g' run in (v', λ x y e p. kept x y refl p)

  module _ (type_at : Ref → Node) (find : Name → Option Ref) (links : ℕ) (malloc : ℕ → Bool) where
    module _ (check : Ref → Ref → Check SubtypeResult)
        (keeps : (a b : Ref) → Keeps hash nothing_excepted (check a b)) where
      drop-Keeps :
          (t1 t2 : Ref)
          → Keeps hash (is_pair t1 t2) (drop_pair type_at find links check hash malloc t1 t2)
      unfolding drop_pair
      drop-Keeps t1 t2 g v r g' run =
          subst (Grows hash (is_pair t1 t2) g) (same run) (remove-Grows hash g t1 t2 v)
        where
          same :
              ◌≡◌ {A = Option (SubtypeResult × Gamma)}
                (some (subtype_fail, idl_gamma_remove hash g t1 t2))
                (some (r, g'))
              → idl_gamma_remove hash g t1 t2 ≡ g'
          same e = cc

      resolved-Keeps :
          (t1 t2 : Ref) (o1 o2 : Option Ref)
          → Keeps hash
              (is_pair t1 t2)
              (check_resolved type_at find links check hash malloc t1 t2 o1 o2)
      unfolding check_resolved
      resolved-Keeps t1 t2 none o2 = drop-Keeps t1 t2
      resolved-Keeps t1 t2 (some r1) none = drop-Keeps t1 t2
      resolved-Keeps t1 t2 (some r1) (some r2) =
          bind-Keeps hash (is_pair t1 t2) (check r1 r2) _
            (weaken (is_pair t1 t2) (check r1 r2) (keeps r1 r2))
            (λ r.
              if-Keeps hash (is_pair t1 t2) (is_fail r) _ _ (drop-Keeps t1 t2)
                (pure-Keeps hash (is_pair t1 t2) r))

      assumed-Keeps :
          (t1 t2 : Ref)
          → Keeps hash (is_pair t1 t2) (check_assumed type_at find links check hash malloc t1 t2)
      unfolding check_assumed
      assumed-Keeps t1 t2 =
          bind-Keeps hash (is_pair t1 t2) _ _
            (resolve-Keeps hash (is_pair t1 t2) type_at find links t1)
            (λ o1.
              bind-Keeps hash (is_pair t1 t2) _ _
                (resolve-Keeps hash (is_pair t1 t2) type_at find links t2)
                (λ o2. resolved-Keeps t1 t2 o1 o2))

      -- The pair that is removed is the one that was added.
      var-Keeps :
          (t1 t2 : Ref)
          → Keeps hash nothing_excepted
              (subtype_check_var_case type_at find links check hash malloc t1 t2)
      unfolding subtype_check_var_case
      var-Keeps t1 t2 g v r g' run = elim (insert-cases hash malloc g t1 t2 v) [
        | inl refused ↦
            pure-Keeps hash nothing_excepted subtype_ok g v r g' (sym (answered refused) ∙ run)
        | inr (new, (g₁, added, (v₁, grown))) ↦
            let (v', kept) = assumed-Keeps t1 t2 g₁ v₁ r g' (sym (went_on g₁ added) ∙ run) in
            (v', λ a b e h. kept a b (other new a b h) (grown a b e h))
      ]
        where
          answered :
              idl_gamma_insert hash malloc g t1 t2 ≡ (false, g)
              → subtype_check_var_case type_at find links check hash malloc t1 t2 g
                ≡ some (subtype_ok, g)
          answered e = ground (arith, e)

          went_on :
              (g₁ : Gamma)
              → idl_gamma_insert hash malloc g t1 t2 ≡ (true, g₁)
              → subtype_check_var_case type_at find links check hash malloc t1 t2 g
                ≡ check_assumed type_at find links check hash malloc t1 t2 g₁
          went_on g₁ e = ground (arith, e)

          same_pair : (a b : Ref) → is_pair t1 t2 a b ≡ true → (t1 ≡ a) × (t2 ≡ b)
          same_pair a b e = (ground (arith, e), ground (arith, e))

          other :
              idl_gamma_contains hash g t1 t2 ≡ false
              → (a b : Ref) → idl_gamma_contains hash g a b ≡ true
              → is_pair t1 t2 a b ≡ false
          other new a b h = elim (Bool-cases (is_pair t1 t2 a b)) [
            | inr differs ↦ differs
            | inl equal ↦
                let (e, f) = same_pair a b equal in
                absurd (
                  clash (
                    sym new
                    ∙ ap (λ x. idl_gamma_contains hash g x t2) e
                    ∙ ap (λ y. idl_gamma_contains hash g a y) f
                    ∙ h))
          ]
            where
              clash : false ≡ true → ⊥
              clash e = ground (arith, e)

    pub impl-Keeps :
        (report : OptReport) (fuel : ℕ) (t1 t2 : Ref)
        → Keeps hash nothing_excepted
            (subtype_check_impl type_at find links hash malloc report fuel t1 t2)
    unfolding subtype_check_impl
    impl-Keeps report zero t1 t2 = λ g v r g' run. absurd (nothing r g' run)
      where
        nothing :
            (r : SubtypeResult) (g' : Gamma)
            → ◌≡◌ {A = Option (SubtypeResult × Gamma)} none (some (r, g'))
            → ⊥
        nothing r g' e = cc
    impl-Keeps report (suc fuel) t1 t2 =
        let check = subtype_check_impl type_at find links hash malloc report fuel in
        let keeps = impl-Keeps report fuel in
        if-Keeps hash nothing_excepted (t1 == t2) _ _ (pure-Keeps hash nothing_excepted subtype_ok)
          (if-Keeps hash nothing_excepted
            ((type_at t1).kind is Kind.var || (type_at t2).kind is Kind.var) _ _
            (var-Keeps check keeps t1 t2)
            (rules-Keeps hash nothing_excepted type_at find links check keeps report t1 t2))
