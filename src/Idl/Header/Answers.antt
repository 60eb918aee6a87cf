-- ===== src/Idl/Header/Answers.antt =====
-- What the readers of header.c answer to bytes that lie ahead.
use lucid.Base.{ℕ, zero, suc, ◌+◌, ◌/◌, ◌%◌, ◌^◌, ◌<◌, Bool, true, false, inl, inr, Bool-cases}
use lucid.Base.{
  List, [], ◌++◌, append_assoc, append-nil, ◌≡◌, refl, sym, ◌∙◌, ap, subst, arith, All, All-append,
  ltb, ◌==◌,
}
use lucid.Base.{some, length, length-append, drop-length_append, take-length_append}
use lucid.Base.Int.{ℤ, pos, negsuc, IsSigned}
use lucid.Base.Word.{IsSize, size_mod}
use lucid.Status.{Result, ok, err, stuck}
use lucid.Status
use lucid.Leb128.{IsByte, sleb128_encode, sleb128_decode}
use lucid.Leb128.Groups.{groups, sleb128_emit-groups}
use lucid.Leb128.Signed.{sleb128_decode-encode}
use lucid.Idl.Serializer.Wire.{bytes_of, uleb, uleb_decode, uleb-IsByte}
use lucid.Idl.Header.Read.{
  Parse, pure, lift, ◌>>=◌, ◌>>◌, require, read_uleb128, read_sleb128, read_window, skip_window,
}

-- The groups of a signed number.
unfoldable pub sleb : ℤ → List ℕ
sleb v = bytes_of (sleb128_encode v (some 10))

groups-IsByte : (k : ℕ) (v : ℤ) → All IsByte (groups k v)
unfolding groups
groups-IsByte zero (pos n) = (omega arith, tt)
groups-IsByte zero (negsuc n) = (omega arith, tt)
groups-IsByte (suc k) (pos n) = elim (Bool-cases (n / 64 == 0)) [
  | inl last ↦ rw last (omega arith, tt)
  | inr more ↦ rw more (omega arith, groups-IsByte k (pos (n / 128)))
]
groups-IsByte (suc k) (negsuc n) = elim (Bool-cases (n / 64 == 0)) [
  | inl last ↦ rw last (omega arith, tt)
  | inr more ↦ rw more (omega arith, groups-IsByte k (negsuc (n / 128)))
]

sleb-groups : (v : ℤ) → IsSigned 63 v → sleb v ≡ groups 9 v
unfolding sleb sleb128_encode
sleb-groups (pos n) h = ap bytes_of (sleb128_emit-groups 9 (pos n) (omega arith) h)
sleb-groups (negsuc n) h = ap bytes_of (sleb128_emit-groups 9 (negsuc n) (omega arith) h)

sleb-IsByte : (v : ℤ) → IsSigned 63 v → All IsByte (sleb v)
sleb-IsByte v h = subst (All IsByte) (sym (sleb-groups v h)) (groups-IsByte 9 v)

sleb_decode :
    (v : ℤ) (rest : List ℕ)
    → IsSigned 63 v
    → sleb128_decode (some (sleb v ++ rest)) ≡ ok (v, length (sleb v))
unfolding sleb
sleb_decode v rest h = let (bytes, e, d, _) = sleb128_decode-encode v rest h in rw e d

-- In front of any bytes, in an input whose length fits a size_t, `p` answers `r`; where that is a value,
-- `p` has moved over `bytes` and no more.
pub record Answers {A : Type 0} (p : Parse A) (bytes : List ℕ) (r : Result A) : Type 0 where
  pub are_bytes : All IsByte bytes
  pub answer :
      (before rest : List ℕ)
      → IsSize (length (before ++ (bytes ++ rest)))
      → All IsByte rest
      → p (before ++ (bytes ++ rest)) (length before)
        ≡ Status.◌>>=◌ r (λ a. ok (a, length before + length bytes))

lengths :
    (before bytes rest : List ℕ)
    → length (before ++ (bytes ++ rest)) ≡ length before + (length bytes + length rest)
lengths before bytes rest =
    length-append before (bytes ++ rest) ∙ ap (λ n. length before + n) (length-append bytes rest)

pub Answers-pure : {A : Type 0} (a : A) → Answers (pure a) [] (ok a)
Answers-pure a = record { are_bytes = tt; answer = λ before rest size h. ground arith }

pub Answers-bind :
    {A B : Type 0} (p : Parse A) (q : A → Parse B) (xs ys : List ℕ) (a : A) (r : Result B)
    → Answers p xs (ok a)
    → Answers (q a) ys r
    → Answers (p >>= q) (xs ++ ys) r
Answers-bind {B = B} p q xs ys a r first_part second_part = record {
  are_bytes = All-append IsByte xs ys first_part.are_bytes second_part.are_bytes;
  answer = λ before rest size h.
      let split : before ++ ((xs ++ ys) ++ rest) ≡ before ++ (xs ++ (ys ++ rest)) =
        ap (λ t. before ++ t) (append_assoc xs ys rest) in
      let shift : before ++ (xs ++ (ys ++ rest)) ≡ (before ++ xs) ++ (ys ++ rest) =
        sym (append_assoc before xs (ys ++ rest)) in
      let first =
        first_part.answer before (ys ++ rest) (subst (λ t. IsSize (length t)) split size)
          (All-append IsByte ys rest second_part.are_bytes h) in
      let second =
        second_part.answer (before ++ xs) rest (subst (λ t. IsSize (length t)) (split ∙ shift) size)
          h in
      let stop : length (before ++ xs) + length ys ≡ length before + length (xs ++ ys) =
        omega (arith, length-append before xs, length-append xs ys) in
      let answer : ℕ → Result (B × ℕ) = λ n. Status.◌>>=◌ r (λ b. ok (b, n)) in
      rw split (
        rw first (
          subst
            (λ t. q a t (length before + length xs) ≡ answer (length before + length (xs ++ ys)))
            (sym shift)
            (subst
              (λ n.
                q a ((before ++ xs) ++ (ys ++ rest)) n ≡ answer (length before + length (xs ++ ys)))
              (length-append before xs) (second ∙ ap answer stop))));
}

-- A reader followed by a pure step.
pub Answers-map :
    {A B : Type 0} (p : Parse A) (f : A → B) (xs : List ℕ) (a : A)
    → Answers p xs (ok a)
    → Answers (p >>= λ x. pure (f x)) xs (ok (f a))
Answers-map p f xs a part = record {
  are_bytes = part.are_bytes;
  answer = λ before rest size h. rw (part.answer before rest size h);
}

-- A test that passes.
pub Answers-require :
    {B : Type 0} (b : Bool) (r : Result (Unit {0})) (q : Parse B) (ys : List ℕ) (s : Result B)
    → b ≡ true
    → Answers q ys s
    → Answers (require b r >> q) ys s
Answers-require b r q ys s h part = record {
  are_bytes = part.are_bytes;
  answer = λ before rest size hr. rw h (part.answer before rest size hr);
}

-- A result that may be an error.
pub Answers-lift :
    {A B : Type 0} (s : Result A) (q : A → Parse B) (ys : List ℕ) (f : A → Result B)
    → All IsByte ys
    → ((a : A) → s ≡ ok a → Answers (q a) ys (f a))
    → Answers (lift s >>= q) ys (Status.◌>>=◌ s f)
Answers-lift (ok a) q ys f h k = k a refl
Answers-lift (err e) q ys f h k = record { are_bytes = h; answer = λ before rest size hr. refl }
Answers-lift stuck q ys f h k = record { are_bytes = h; answer = λ before rest size hr. refl }

pub read_uleb128-Answers : (n : ℕ) → n < 2 ^ 64 → Answers read_uleb128 (uleb n) (ok n)
unfolding read_uleb128
read_uleb128-Answers n small = record {
  are_bytes = uleb-IsByte n small;
  answer = λ before rest size hr.
      let long = lengths before (uleb n) rest in
      let enough : ltb (length (before ++ (uleb n ++ rest))) (length before) ≡ false =
        ground (arith, long) in
      let low : (length before + length (uleb n)) % size_mod ≡ length before + length (uleb n) =
        omega (arith, long) in
      rw enough (
        rw (drop-length_append before (uleb n ++ rest))
          (rw (uleb_decode n rest small hr) (rw low refl)));
}

pub read_sleb128-Answers : (v : ℤ) → IsSigned 63 v → Answers read_sleb128 (sleb v) (ok v)
unfolding read_sleb128
read_sleb128-Answers v small = record {
  are_bytes = sleb-IsByte v small;
  answer = λ before rest size hr.
      let long = lengths before (sleb v) rest in
      let enough : ltb (length (before ++ (sleb v ++ rest))) (length before) ≡ false =
        ground (arith, long) in
      let low : (length before + length (sleb v)) % size_mod ≡ length before + length (sleb v) =
        omega (arith, long) in
      rw enough (
        rw (drop-length_append before (sleb v ++ rest))
          (rw (sleb_decode v rest small) (rw low refl)));
}

pub read_window-Answers :
    (bytes : List ℕ) → All IsByte bytes → Answers (read_window (length bytes)) bytes (ok bytes)
unfolding read_window
read_window-Answers bytes h = record {
  are_bytes = h;
  answer = λ before rest size hr. ground (
    arith,
    lengths before bytes rest,
    drop-length_append before (bytes ++ rest),
    length-append bytes rest,
    take-length_append bytes rest,
  );
}

pub skip_window-Answers :
    (bytes : List ℕ) → All IsByte bytes → Answers (skip_window (length bytes)) bytes (ok tt)
unfolding skip_window
skip_window-Answers bytes h = record {
  are_bytes = h;
  answer = λ before rest size hr. ground (arith, lengths before bytes rest);
}

-- What is left to do reads nothing.
pub Answers-last :
    {A B : Type 0} (p : Parse A) (q : A → Parse B) (xs : List ℕ) (a : A) (r : Result B)
    → Answers p xs (ok a)
    → Answers (q a) [] r
    → Answers (p >>= q) xs r
Answers-last p q xs a r first_part second_part =
    subst (λ bytes. Answers (p >>= q) bytes r) (append-nil xs)
      (Answers-bind p q xs [] a r first_part second_part)
