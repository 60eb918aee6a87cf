-- ===== src/Idl/Subtype/Entries.antt =====
-- The entries of a bucket of the table of assumptions: what taking one out leaves.
use lucid.Base.{
  ℕ, zero, suc, ◌≡◌, refl, ap, sym, ◌∙◌, subst, arith, Bool, true, false, Bool-cases, Option-cases,
  ◌&&◌, ◌⊎◌, inl, inr,
}
use lucid.Base.{List, [], ◌∷◌, Option, none, some, ◌==◌, set, All}
use lucid.Base.Array.{get_at}
use lucid.Idl.Subtype.{Ref, has_pair, unlink}
use lucid.Idl.Subtype.Rules.{AreOnce}

abbrev pub is_pair : Ref → Ref → Ref → Ref → Bool
is_pair t1 t2 a b = t1 == a && t2 == b

pub unlink-other :
    (entries entries' : List (Ref × Ref)) (t1 t2 a b : Ref)
    → unlink entries t1 t2 ≡ some entries'
    → is_pair t1 t2 a b ≡ false
    → has_pair entries a b ≡ true
    → has_pair entries' a b ≡ true
unfolding unlink has_pair
unlink-other [] entries' t1 t2 a b run other h = absurd (ground (arith, h))
unlink-other ((x, y) ∷ entries) entries' t1 t2 a b run other h =
    elim (Bool-cases (x == t1 && y == t2)) [
      | inl here ↦ ground (arith, h, other, here, head here)
      | inr further ↦ elim (Option-cases (unlink entries t1 t2)) [
        | inl missing ↦ absurd (nothing (sym (not_there further missing) ∙ run))
        | inr (rest, found) ↦
            let kept = unlink-other entries rest t1 t2 a b found other in
            let same = shape (sym (there further rest found) ∙ run) in
            subst (λ es. has_pair es a b ≡ true) same (ground (arith, kept, h))
      ]
    ]
  where
    nothing : ◌≡◌ {A = Option (List (Ref × Ref))} none (some entries') → ⊥
    nothing e = cc

    shape :
        {es : List (Ref × Ref)}
        → ◌≡◌ {A = Option (List (Ref × Ref))} (some es) (some entries')
        → es ≡ entries'
    shape e = cc

    head : x == t1 && y == t2 ≡ true → entries ≡ entries'
    head e = shape (sym (ground (arith, e)) ∙ run)

    not_there :
        x == t1 && y == t2 ≡ false
        → unlink entries t1 t2 ≡ none
        → unlink ((x, y) ∷ entries) t1 t2 ≡ none
    not_there e f = ground (arith, e, f)

    there :
        x == t1 && y == t2 ≡ false
        → (rest : List (Ref × Ref)) → unlink entries t1 t2 ≡ some rest
        → unlink ((x, y) ∷ entries) t1 t2 ≡ some ((x, y) ∷ rest)
    there e rest f = ground (arith, e, f)

-- What is left behind an entry that is taken out.
unlink-cases :
    (x y : Ref) (entries : List (Ref × Ref)) (t1 t2 : Ref) (entries' : List (Ref × Ref))
    → unlink ((x, y) ∷ entries) t1 t2 ≡ some entries'
    → ((x ≡ t1) × (y ≡ t2) × (entries' ≡ entries))
      ⊎ ((x == t1 && y == t2 ≡ false)
          × ((rest : List (Ref × Ref)) × (unlink entries t1 t2 ≡ some rest)
              × (entries' ≡ (x, y) ∷ rest)))
unfolding unlink
unlink-cases x y entries t1 t2 entries' run = elim (Bool-cases (x == t1 && y == t2)) [
  | inl here ↦ inl (ground (arith, here), ground (arith, here), ground (arith, here, run))
  | inr further ↦ elim (Option-cases (unlink entries t1 t2)) [
    | inl missing ↦ absurd (ground (arith, run, further, missing))
    | inr (rest, found) ↦ inr (further, (rest, found, ground (arith, run, further, found)))
  ]
]

unlink-nil : (t1 t2 : Ref) (entries : List (Ref × Ref)) → unlink [] t1 t2 ≡ some entries → ⊥
unfolding unlink
unlink-nil t1 t2 entries e = cc

-- No entry is there that was not.
unlink-fewer :
    (entries entries' : List (Ref × Ref)) (t1 t2 a b : Ref)
    → unlink entries t1 t2 ≡ some entries'
    → has_pair entries a b ≡ false
    → has_pair entries' a b ≡ false
unfolding has_pair
unlink-fewer [] entries' t1 t2 a b run h = absurd (unlink-nil t1 t2 entries' run)
unlink-fewer ((x, y) ∷ entries) entries' t1 t2 a b run h =
    elim (unlink-cases x y entries t1 t2 entries' run) [
      | inl (_, _, same) ↦ ground (arith, h, same)
      | inr (_, (rest, found, same)) ↦
          ground (arith, h, same, unlink-fewer entries rest t1 t2 a b found)
    ]

pub unlink-AreOnce :
    (entries entries' : List (Ref × Ref)) (t1 t2 : Ref)
    → AreOnce entries
    → unlink entries t1 t2 ≡ some entries'
    → AreOnce entries' × (has_pair entries' t1 t2 ≡ false)
unlink-AreOnce [] entries' t1 t2 once run = absurd (unlink-nil t1 t2 entries' run)
unlink-AreOnce ((x, y) ∷ entries) entries' t1 t2 (new, once) run =
    elim (unlink-cases x y entries t1 t2 entries' run) [
      | inl (e, f, same) ↦ (
        subst AreOnce (sym same) once,
        ap (λ es. has_pair es t1 t2) same
            ∙ sym (ap (λ a. has_pair entries a y) e ∙ ap (λ b. has_pair entries t1 b) f)
            ∙ new,
      )
      | inr (differs, (rest, found, same)) ↦
          let (once', gone) = unlink-AreOnce entries rest t1 t2 once found in
          (
            subst AreOnce (sym same) (unlink-fewer entries rest t1 t2 x y found new, once'),
            ap (λ es. has_pair es t1 t2) same ∙ lacks rest differs gone,
          )
    ]
  where
    lacks :
        (rest : List (Ref × Ref))
        → x == t1 && y == t2 ≡ false
        → has_pair rest t1 t2 ≡ false
        → has_pair ((x, y) ∷ rest) t1 t2 ≡ false
    lacks rest differs gone = unfold has_pair in ground (arith, differs, gone)

pub unlink-none :
    (entries : List (Ref × Ref)) (t1 t2 : Ref)
    → unlink entries t1 t2 ≡ none
    → has_pair entries t1 t2 ≡ false
unfolding unlink has_pair
unlink-none [] t1 t2 e = refl
unlink-none ((x, y) ∷ entries) t1 t2 e = elim (Option-cases (unlink entries t1 t2)) [
  | inl missing ↦ ground (arith, e, missing, unlink-none entries t1 t2 missing)
  | inr (rest, found) ↦ ground (arith, e, found)
]

pub AreOnce-at : (bs : List (List (Ref × Ref))) (i : ℕ) → All AreOnce bs → AreOnce (get_at [] bs i)
unfolding get_at
AreOnce-at [] i h = tt
AreOnce-at (es ∷ bs) zero (h, hs) = h
AreOnce-at (es ∷ bs) (suc i) (h, hs) = AreOnce-at bs i hs

pub AreOnce-set :
    (bs : List (List (Ref × Ref))) (i : ℕ) (entries : List (Ref × Ref))
    → All AreOnce bs
    → AreOnce entries
    → All AreOnce (set bs i entries)
AreOnce-set [] i entries h once = tt
AreOnce-set (es ∷ bs) zero entries (h, hs) once = (once, hs)
AreOnce-set (es ∷ bs) (suc i) entries (h, hs) once = (h, AreOnce-set bs i entries hs once)
