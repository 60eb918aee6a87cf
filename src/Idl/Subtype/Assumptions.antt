-- ===== src/Idl/Subtype/Assumptions.antt =====
-- What a subtype check does to the table of assumptions, and to the pair that it assumes itself.
use lucid.Base.{
  ℕ, zero, suc, ◌≡◌, refl, ap, sym, ◌∙◌, subst, arith, Bool, true, false, Option-cases,
  if◌then◌else◌, ◌≢◌, ◌||◌, inl, inr,
}
use lucid.Base.{Option, none, some, ◌==◌}
use lucid.Idl.Types.{Name}
use lucid.Idl.Subtype.{
  Ref, Kind, ◌is◌, Node, SubtypeResult, subtype_ok, subtype_fail, OptReport, Gamma,
  idl_gamma_contains, idl_gamma_insert, idl_gamma_remove,
}
use lucid.Idl.Subtype.Check.{Check, pure, ◌>>=◌, is_fail}
use lucid.Idl.Subtype.Check.{
  drop_pair, check_resolved, check_assumed, subtype_check_var_case, subtype_check_impl,
}
use lucid.Idl.Subtype.Rules.{IsGamma, Keeps, resolve-Keeps}
use lucid.Idl.Subtype.Entries.{is_pair}
use lucid.Idl.Subtype.Table.{nothing_excepted, remove_lacks, insert-cases}
use lucid.Idl.Subtype.Kept.{weaken, impl-Keeps}

module _ (hash : Ref → Ref → ℕ) (type_at : Ref → Node) (find : Name → Option Ref) (links : ℕ)
    (malloc : ℕ → Bool) where
  module _ (check : Ref → Ref → Check SubtypeResult)
      (keeps : (a b : Ref) → Keeps hash nothing_excepted (check a b)) where
    -- A check that fails leaves the pair out of the table.
    module _ (t1 t2 : Ref) where
      abbrev Lacks : Check SubtypeResult → Type 0
      Lacks m =
          (g : Gamma)
          → IsGamma g
          → (g' : Gamma) → m g ≡ some (subtype_fail, g')
          → idl_gamma_contains hash g' t1 t2 ≡ false

      drop-Lacks : Lacks (drop_pair type_at find links check hash malloc t1 t2)
      unfolding drop_pair
      drop-Lacks g v g' run =
          subst (λ h. idl_gamma_contains hash h t1 t2 ≡ false) (same run)
            (remove_lacks hash g t1 t2 v)
        where
          same :
              ◌≡◌ {A = Option (SubtypeResult × Gamma)}
                (some (subtype_fail, idl_gamma_remove hash g t1 t2))
                (some (subtype_fail, g'))
              → idl_gamma_remove hash g t1 t2 ≡ g'
          same e = cc

      pure-Lacks : (r : SubtypeResult) → is_fail r ≡ false → Lacks (pure r)
      pure-Lacks r h g v g' run = absurd (clash (sym h ∙ ap is_fail (same run)))
        where
          same :
              ◌≡◌ {A = Option (SubtypeResult × Gamma)} (some (r, g)) (some (subtype_fail, g'))
              → r ≡ subtype_fail
          same e = cc

          clash : false ≡ true → ⊥
          clash e = cc

      bind-Lacks :
          {A : Type 0} (m : Check A) (f : A → Check SubtypeResult)
          → Keeps hash (is_pair t1 t2) m
          → ((a : A) → Lacks (f a))
          → Lacks (m >>= f)
      unfolding ◌>>=◌
      bind-Lacks {A = A} m f hm hf g v g' run = elim (Option-cases (m g)) [
        | inl stops ↦ absurd (nothing (sym (stopped stops) ∙ run))
        | inr ((a, g₁), goes) ↦ hf a g₁ (hm g v a g₁ goes).0 g' (sym (went a g₁ goes) ∙ run)
      ]
        where
          nothing : ◌≡◌ {A = Option (SubtypeResult × Gamma)} none (some (subtype_fail, g')) → ⊥
          nothing e = cc

          stopped : m g ≡ none → (m >>= f) g ≡ none
          stopped e = ground (arith, e)

          went : (a : A) (g₁ : Gamma) → m g ≡ some (a, g₁) → (m >>= f) g ≡ f a g₁
          went a g₁ e = ground (arith, e)

      either_Lacks :
          (b : Bool) (x y : Check SubtypeResult)
          → Lacks x
          → (b ≡ false → Lacks y)
          → Lacks (if b then x else y)
      either_Lacks true x y hx hy = hx
      either_Lacks false x y hx hy = hy refl

      resolved-Lacks :
          (o1 o2 : Option Ref)
          → Lacks (check_resolved type_at find links check hash malloc t1 t2 o1 o2)
      unfolding check_resolved
      resolved-Lacks none o2 = drop-Lacks
      resolved-Lacks (some r1) none = drop-Lacks
      resolved-Lacks (some r1) (some r2) =
          bind-Lacks (check r1 r2) _ (weaken hash (is_pair t1 t2) (check r1 r2) (keeps r1 r2))
            (λ r. either_Lacks (is_fail r) _ _ drop-Lacks (pure-Lacks r))

      assumed-Lacks : Lacks (check_assumed type_at find links check hash malloc t1 t2)
      unfolding check_assumed
      assumed-Lacks =
          bind-Lacks _ _ (resolve-Keeps hash (is_pair t1 t2) type_at find links t1) (λ o1.
            bind-Lacks _ _ (resolve-Keeps hash (is_pair t1 t2) type_at find links t2)
              (λ o2. resolved-Lacks o1 o2))

      var-Lacks : Lacks (subtype_check_var_case type_at find links check hash malloc t1 t2)
      unfolding subtype_check_var_case
      var-Lacks g v g' run = elim (insert-cases hash malloc g t1 t2 v) [
        | inl refused ↦ pure-Lacks subtype_ok refl g v g' (sym (answered refused) ∙ run)
        | inr (new, (g₁, added, (v₁, grown))) ↦
            assumed-Lacks g₁ v₁ g' (sym (went_on g₁ added) ∙ run)
      ]
        where
          answered :
              idl_gamma_insert hash malloc g t1 t2 ≡ (false, g)
              → subtype_check_var_case type_at find links check hash malloc t1 t2 g
                ≡ some (subtype_ok, g)
          answered e = ground (arith, e)

          went_on :
              (g₁ : Gamma)
              → idl_gamma_insert hash malloc g t1 t2 ≡ (true, g₁)
              → subtype_check_var_case type_at find links check hash malloc t1 t2 g
                ≡ check_assumed type_at find links check hash malloc t1 t2 g₁
          went_on g₁ e = ground (arith, e)

  impl-Lacks :
      (report : OptReport) (fuel : ℕ) (t1 t2 : Ref)
      → t1 ≢ t2
      → ((type_at t1).kind is Kind.var || (type_at t2).kind is Kind.var) ≡ true
      → Lacks
          (subtype_check_impl type_at find links hash malloc report fuel)
          (impl-Keeps hash type_at find links malloc report fuel)
          t1
          t2
          (subtype_check_impl type_at find links hash malloc report fuel t1 t2)
  unfolding subtype_check_impl
  impl-Lacks report zero t1 t2 differ named g v g' run = cc
  impl-Lacks report (suc fuel) t1 t2 differ named g v g' run =
      let again = subtype_check_impl type_at find links hash malloc report fuel in
      var-Lacks again (impl-Keeps hash type_at find links malloc report fuel) t1 t2 g v g'
        (sym named_run ∙ run)
    where
      apart : (t1 == t2) ≡ false
      apart = ground (arith, differ)

      named_run :
          subtype_check_impl type_at find links hash malloc report (suc fuel) t1 t2 g
          ≡ subtype_check_var_case type_at find links
              (subtype_check_impl type_at find links hash malloc report fuel)
              hash
              malloc
              t1
              t2
              g
      named_run = rw apart (rw named refl)

  -- From a table whose array is of the size it says, with no pair twice in a bucket, a subtype check
  -- that ends leaves such a table, and every pair that was assumed before is still assumed, whatever
  -- the answer. Where the types are different and one of them is a name, a check that fails leaves
  -- their pair not assumed.
  pub subtype_check_impl-Grows :
      (report : OptReport) (fuel : ℕ) (t1 t2 : Ref) (g g' : Gamma) (r : SubtypeResult)
      → IsGamma g
      → subtype_check_impl type_at find links hash malloc report fuel t1 t2 g ≡ some (r, g')
      → IsGamma g'
        × ((a b : Ref)
            → idl_gamma_contains hash g a b ≡ true
            → idl_gamma_contains hash g' a b ≡ true)
        × (t1 ≢ t2
            → ((type_at t1).kind is Kind.var || (type_at t2).kind is Kind.var) ≡ true
            → r ≡ subtype_fail
            → idl_gamma_contains hash g' t1 t2 ≡ false)
  subtype_check_impl-Grows report fuel t1 t2 g g' r v run =
      let (v', kept) = impl-Keeps hash type_at find links malloc report fuel t1 t2 g v r g' run in
      (
        v',
        λ a b h. kept a b refl h,
        λ differ named failed.
            impl-Lacks report fuel t1 t2 differ named g v g' (run ∙ ap (λ x. some (x, g')) failed),
      )
