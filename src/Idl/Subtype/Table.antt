-- ===== src/Idl/Subtype/Table.antt =====
-- The table of assumptions: what adding and removing a pair does to the others.
use lucid.Base.{
  ℕ, suc, ◌-◌, ◌≡◌, ap, sym, ◌∙◌, subst, arith, Bool, true, false, Bool-cases, Option-cases, ◌⊎◌,
  inl, inr,
}
use lucid.Base.{List, [], ◌∷◌, none, some, ◌==◌, ==_iff, if◌then◌else◌, length-set, set}
use lucid.Base.Array.{get_at, get_at-set}
use lucid.Idl.Arena.{Arena, idl_arena_alloc}
use lucid.Idl.Subtype.{
  Ref, Gamma, has_pair, unlink, pair_bucket, idl_gamma_contains, idl_gamma_insert, idl_gamma_remove,
  gamma_entry_size,
}
use lucid.Idl.Subtype.Rules.{IsGamma, AreOnce, Grows}
use lucid.Idl.Subtype.Entries.{
  is_pair, unlink-other, unlink-AreOnce, unlink-none, AreOnce-at, AreOnce-set,
}

abbrev pub nothing_excepted : Ref → Ref → Bool
nothing_excepted a b = false

module _ (hash : Ref → Ref → ℕ) where
  -- Another entry list in the bucket of a pair.
  module _ (g : Gamma) (v : IsGamma g) (t1 t2 : Ref) (entries : List (Ref × Ref)) (arena : Arena)
      (count : ℕ) where
    abbrev rebucketed : Gamma
    rebucketed = record g {
      arena = arena;
      buckets = set g.buckets (pair_bucket hash g t1 t2) entries;
      count = count;
    }

    rebucketed-IsGamma : AreOnce entries → IsGamma rebucketed
    rebucketed-IsGamma once = (
      length-set g.buckets (pair_bucket hash g t1 t2) entries ∙ v.0,
      v.1,
      AreOnce-set g.buckets (pair_bucket hash g t1 t2) entries v.2 once,
    )

    -- The bucket of the pair is the new one.
    rebucketed_lacks :
        has_pair entries t1 t2 ≡ false → idl_gamma_contains hash rebucketed t1 t2 ≡ false
    unfolding idl_gamma_contains
    rebucketed_lacks gone =
        let i = pair_bucket hash g t1 t2 in
        let same : (i == i) ≡ true = ground arith in
        ap (λ es. has_pair es t1 t2)
          (get_at-set [] g.buckets i i entries (omega (arith, v.0, v.1))
            ∙ ap (λ c. if c then entries else get_at [] g.buckets i) same)
        ∙ gone

    rebucketed-contains :
        (a b : Ref)
        → (has_pair (get_at [] g.buckets (pair_bucket hash g t1 t2)) a b ≡ true
            → has_pair entries a b ≡ true)
        → idl_gamma_contains hash g a b ≡ true
        → idl_gamma_contains hash rebucketed a b ≡ true
    unfolding idl_gamma_contains
    rebucketed-contains a b same h =
        elim (Bool-cases (pair_bucket hash g t1 t2 == pair_bucket hash g a b)) [
          | inl here ↦
              let at_it : pair_bucket hash g t1 t2 ≡ pair_bucket hash g a b =
                (==_iff (pair_bucket hash g t1 t2) (pair_bucket hash g a b)).0 here in
              ap (λ es. has_pair es a b)
                (after (pair_bucket hash g a b)
                  ∙ ap (λ c. if c then entries else get_at [] g.buckets (pair_bucket hash g a b))
                      here)
              ∙ same (ap (λ (i : ℕ). has_pair (get_at [] g.buckets i) a b) at_it ∙ h)
          | inr elsewhere ↦
              ap (λ es. has_pair es a b)
                (after (pair_bucket hash g a b)
                  ∙ ap (λ c. if c then entries else get_at [] g.buckets (pair_bucket hash g a b))
                      elsewhere)
              ∙ h
        ]
      where
        after :
            (i : ℕ)
            → get_at [] (set g.buckets (pair_bucket hash g t1 t2) entries) i
              ≡ (if pair_bucket hash g t1 t2 == i then entries else get_at [] g.buckets i)
        after i =
            get_at-set [] g.buckets (pair_bucket hash g t1 t2) i entries (omega (arith, v.0, v.1))

  bucket_AreOnce :
      (g : Gamma)
      → IsGamma g
      → (t1 t2 : Ref) → AreOnce (get_at [] g.buckets (pair_bucket hash g t1 t2))
  bucket_AreOnce g v t1 t2 = AreOnce-at g.buckets (pair_bucket hash g t1 t2) v.2

  absent :
      (g : Gamma) (t1 t2 : Ref)
      → idl_gamma_contains hash g t1 t2 ≡ false
      → has_pair (get_at [] g.buckets (pair_bucket hash g t1 t2)) t1 t2 ≡ false
  unfolding idl_gamma_contains
  absent g t1 t2 e = e

  -- A pair that is removed is not there.
  pub remove_lacks :
      (g : Gamma) (t1 t2 : Ref)
      → IsGamma g
      → idl_gamma_contains hash (idl_gamma_remove hash g t1 t2) t1 t2 ≡ false
  unfolding idl_gamma_remove
  remove_lacks g t1 t2 v =
      elim (Option-cases (unlink (get_at [] g.buckets (pair_bucket hash g t1 t2)) t1 t2)) [
        | inl missing ↦
            ap (λ g'. idl_gamma_contains hash g' t1 t2) (as_before missing)
            ∙ unfold idl_gamma_contains in unlink-none _ t1 t2 missing
        | inr (entries, found) ↦
            ap (λ g'. idl_gamma_contains hash g' t1 t2) (removed entries found)
            ∙ rebucketed_lacks g v t1 t2 entries g.arena (g.count - 1)
                (unlink-AreOnce _ entries t1 t2 (bucket_AreOnce g v t1 t2) found).1
      ]
    where
      as_before :
          unlink (get_at [] g.buckets (pair_bucket hash g t1 t2)) t1 t2 ≡ none
          → idl_gamma_remove hash g t1 t2 ≡ g
      as_before e = ground (arith, e)

      removed :
          (entries : List (Ref × Ref))
          → unlink (get_at [] g.buckets (pair_bucket hash g t1 t2)) t1 t2 ≡ some entries
          → idl_gamma_remove hash g t1 t2 ≡ rebucketed g v t1 t2 entries g.arena (g.count - 1)
      removed entries e = ground (arith, e)

  pub remove-Grows :
      (g : Gamma) (t1 t2 : Ref)
      → IsGamma g
      → Grows hash (is_pair t1 t2) g (idl_gamma_remove hash g t1 t2)
  unfolding idl_gamma_remove
  remove-Grows g t1 t2 v =
      elim (Option-cases (unlink (get_at [] g.buckets (pair_bucket hash g t1 t2)) t1 t2)) [
        | inl missing ↦
            subst (Grows hash (is_pair t1 t2) g) (sym (as_before missing)) (v, λ a b e h. h)
        | inr (entries, found) ↦
            subst (Grows hash (is_pair t1 t2) g) (sym (removed entries found)) (
              rebucketed-IsGamma g v t1 t2 entries g.arena (g.count - 1)
                  (unlink-AreOnce _ entries t1 t2 (bucket_AreOnce g v t1 t2) found).0,
              λ a b e h.
                  rebucketed-contains g v t1 t2 entries g.arena (g.count - 1) a b
                    (λ there.
                      unlink-other (get_at [] g.buckets (pair_bucket hash g t1 t2)) entries t1 t2 a
                        b found e there)
                    h,
            )
      ]
    where
      as_before :
          unlink (get_at [] g.buckets (pair_bucket hash g t1 t2)) t1 t2 ≡ none
          → idl_gamma_remove hash g t1 t2 ≡ g
      as_before e = ground (arith, e)

      removed :
          (entries : List (Ref × Ref))
          → unlink (get_at [] g.buckets (pair_bucket hash g t1 t2)) t1 t2 ≡ some entries
          → idl_gamma_remove hash g t1 t2 ≡ rebucketed g v t1 t2 entries g.arena (g.count - 1)
      removed entries e = ground (arith, e)

  -- A pair that is added was not there.
  pub insert-cases :
      (malloc : ℕ → Bool) (g : Gamma) (t1 t2 : Ref)
      → IsGamma g
      → (idl_gamma_insert hash malloc g t1 t2 ≡ (false, g))
        ⊎ ((idl_gamma_contains hash g t1 t2 ≡ false)
            × ((g' : Gamma) × (idl_gamma_insert hash malloc g t1 t2 ≡ (true, g'))
                × Grows hash nothing_excepted g g'))
  unfolding idl_gamma_insert has_pair
  insert-cases malloc g t1 t2 v = elim (Bool-cases (idl_gamma_contains hash g t1 t2)) [
    | inl there ↦ inl (ground (arith, there))
    | inr new ↦ elim (Option-cases (idl_arena_alloc malloc g.arena gamma_entry_size)) [
      | inl refused ↦ inl (ground (arith, new, refused))
      | inr ((entry, arena), granted) ↦
          let entries = (t1, t2) ∷ get_at [] g.buckets (pair_bucket hash g t1 t2) in
          inr (
            new,
            (
              rebucketed g v t1 t2 entries arena (suc g.count),
              ground (arith, new, granted),
              (
                rebucketed-IsGamma g v t1 t2 entries arena (suc g.count)
                    (absent g t1 t2 new, bucket_AreOnce g v t1 t2),
                λ a b e h.
                    rebucketed-contains g v t1 t2 entries arena (suc g.count) a b
                      (λ there. ground (arith, there)) h,
              ),
            ),
          )
    ]
  ]
