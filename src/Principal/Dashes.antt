-- ===== src/Principal/Dashes.antt =====
-- The characters that the encoder writes, and the dashes between them.
use lucid.Base.{
  ℕ, suc, ◌+◌, ◌-◌, ◌*◌, ◌/◌, ◌%◌, ◌^◌, ◌≤◌, ◌<◌, ◌≡◌, refl, ap, sym, ◌∙◌, subst, arith, true,
  false, Bool-cases, ◌&&◌, ◌⊎◌, inl, inr,
}
use lucid.Base.{
  List, [], ◌∷◌, ◌++◌, append_assoc, append-nil, Option, none, some, ltb, leb, ◌==◌, length,
  length-append, All, bit_and,
}
use lucid.Base.Bits.{bit_and_low}
use lucid.Leb128.{IsByte}
use lucid.Principal.{base32_char, encode_from, remove_dashes, dash_step, dash_from}
use lucid.Principal.Base32.{base32_char-not_dash}
use lucid.Principal.RoundTrip.{after_byte, encode_0, encode_1, encode_2, encode_3, encode_4}

remove_dashes-append : (a b : List ℕ) → remove_dashes (a ++ b) ≡ remove_dashes a ++ remove_dashes b
unfolding remove_dashes
remove_dashes-append [] b = refl
remove_dashes-append (x ∷ a) b = ground (arith, remove_dashes-append a b)

-- Characters as many as `n`, and no dash.
abbrev pub IsPlain : ℕ → List ℕ → Type 0
IsPlain n chars = (length chars ≡ n) × (remove_dashes chars ≡ chars)

char-IsPlain :
    (d n : ℕ) (chars : List ℕ) → d < 32 → IsPlain n chars → IsPlain (suc n) (base32_char d ∷ chars)
unfolding remove_dashes
char-IsPlain d n chars h (size, plain) =
    (ap suc size, ground (arith, base32_char-not_dash d h, plain))

abbrev PlainAt : ℕ → List ℕ → Type 0
PlainAt bits input =
    (buffer : ℕ) → IsPlain ((8 * length input + bits + 4) / 5) (encode_from input buffer bits)

pub resized : (m n : ℕ) (a b : List ℕ) → a ≡ b → m ≡ n → IsPlain m b → IsPlain n a
resized m n a b e f p = subst (λ xs. IsPlain n xs) (sym e) (subst (λ k. IsPlain k b) f p)

pub encode-IsPlain :
    (input : List ℕ)
    → All IsByte input
    → PlainAt 0 input × PlainAt 1 input × PlainAt 2 input × PlainAt 3 input × PlainAt 4 input
unfolding encode_from remove_dashes
encode-IsPlain [] bytes = ((λ buffer. (refl, refl)), last 1, last 2, last 3, last 4)
  where
    last :
        (bits buffer : ℕ)
        → IsPlain 1 (base32_char (bit_and (buffer * 2 ^ (5 - bits) % 2 ^ 32) 0x1F) ∷ [])
    last bits buffer =
        char-IsPlain (bit_and (buffer * 2 ^ (5 - bits) % 2 ^ 32) 0x1F) 0 []
          (omega (arith, bit_and_low 5 (buffer * 2 ^ (5 - bits) % 2 ^ 32))) (refl, refl)
encode-IsPlain (byte ∷ input) (h, bytes) =
    let (p_0, p_1, p_2, p_3, p_4) = encode-IsPlain input bytes in
    (
      (λ buffer. resized _ _ _ _ (encode_0 byte buffer input h) (omega arith) (
          char-IsPlain (after_byte buffer byte / 2 ^ 3 % 32) _ _ (omega arith)
            (p_3 (after_byte buffer byte)))),
      (λ buffer. resized _ _ _ _ (encode_1 byte buffer input h) (omega arith) (
          char-IsPlain (after_byte buffer byte / 2 ^ 4 % 32) _ _ (omega arith)
            (p_4 (after_byte buffer byte)))),
      (λ buffer. resized _ _ _ _ (encode_2 byte buffer input h) (omega arith) (
          char-IsPlain (after_byte buffer byte / 2 ^ 5 % 32) _ _ (omega arith) (
            char-IsPlain (after_byte buffer byte / 2 ^ 0 % 32) _ _ (omega arith)
              (p_0 (after_byte buffer byte))))),
      (λ buffer. resized _ _ _ _ (encode_3 byte buffer input h) (omega arith) (
          char-IsPlain (after_byte buffer byte / 2 ^ 6 % 32) _ _ (omega arith) (
            char-IsPlain (after_byte buffer byte / 2 ^ 1 % 32) _ _ (omega arith)
              (p_1 (after_byte buffer byte))))),
      (λ buffer. resized _ _ _ _ (encode_4 byte buffer input h) (omega arith) (
          char-IsPlain (after_byte buffer byte / 2 ^ 7 % 32) _ _ (omega arith) (
            char-IsPlain (after_byte buffer byte / 2 ^ 2 % 32) _ _ (omega arith)
              (p_2 (after_byte buffer byte))))),
    )

-- How many dashes go between characters `i` to `i + n - 1` and in front of them.
abbrev pub dashes : ℕ → ℕ → ℕ
dashes i n = (i + n - 1) / 5 - (i - 1) / 5

-- The text with its dashes, if it fits.
abbrev pub Dashed : ℕ → List ℕ → ℕ → List ℕ → Option (List ℕ) → Type 0
Dashed room chars i text r =
    ((t : List ℕ) × (r ≡ some t)
      × (length t ≡ length text + length chars + dashes i (length chars))
      × (length t ≤ room)
      × (remove_dashes t ≡ remove_dashes text ++ remove_dashes chars))
    ⊎ ((r ≡ none) × (room < length text + length chars + dashes i (length chars)))

Dashed-next :
    (room c i : ℕ) (cs text added : List ℕ) (r : Option (List ℕ))
    → remove_dashes added ≡ remove_dashes (c ∷ [])
    → length text + 1 + dashes i 1 ≡ length (text ++ added)
    → Dashed room cs (suc i) (text ++ added) r
    → Dashed room (c ∷ cs) i text r
Dashed-next room c i cs text added r same size (inl (t, run, long, fits, plain)) = inl (
  t,
  run,
  omega (arith, long, size),
  fits,
  plain
      ∙ ap (λ a. a ++ remove_dashes cs)
          (remove_dashes-append text added ∙ ap (λ a. remove_dashes text ++ a) same)
      ∙ append_assoc (remove_dashes text) (remove_dashes (c ∷ [])) (remove_dashes cs)
      ∙ ap (λ a. remove_dashes text ++ a) (sym (remove_dashes-append (c ∷ []) cs)),
)
Dashed-next room c i cs text added r same size (inr (run, over)) =
    inr (run, omega (arith, over, size))

pub dash_from-Dashed :
    (room : ℕ) (chars : List ℕ) (i : ℕ) (text : List ℕ)
    → length text ≤ room
    → Dashed room chars i text (dash_from room chars i text)
unfolding dash_from remove_dashes
dash_from-Dashed room [] i text h = inl (text, refl, omega arith, h, sym (append-nil _))
dash_from-Dashed room (c ∷ cs) i text h = elim (Bool-cases (leb room (length text))) [
  | inl full ↦ inr (none_run (stop_full full), ground (arith, full))
  | inr roomy ↦ elim (Bool-cases (ltb 0 i && i % 5 == 0)) [
    | inr plain ↦
        let added = c ∷ [] in
        let size = length-append text added in
        subst (Dashed room (c ∷ cs) i text) (sym (some_run (step_plain roomy plain))) (
          Dashed-next room c i cs text added _ refl (ground (arith, size, plain))
            (dash_from-Dashed room cs (suc i) (text ++ added) (ground (arith, size, roomy))))
    | inl fifth ↦ elim (Bool-cases (leb room (length text + 1))) [
      | inl full ↦ inr (none_run (stop_dash roomy fifth full), ground (arith, full, fifth))
      | inr more ↦
          let added = 45 ∷ c ∷ [] in
          let size = length-append text added in
          subst (Dashed room (c ∷ cs) i text) (sym (some_run (step_dash roomy fifth more))) (
            Dashed-next room c i cs text added _ refl (ground (arith, size, fifth))
              (dash_from-Dashed room cs (suc i) (text ++ added) (ground (arith, size, more))))
    ]
  ]
]
  where
    none_run : dash_step room c i text ≡ none → dash_from room (c ∷ cs) i text ≡ none
    none_run e = ground (arith, e)

    some_run :
        {text' : List ℕ}
        → dash_step room c i text ≡ some text'
        → dash_from room (c ∷ cs) i text ≡ dash_from room cs (suc i) text'
    some_run e = ground (arith, e)

    stop_full : leb room (length text) ≡ true → dash_step room c i text ≡ none
    stop_full e = unfold dash_step in ground (arith, e)

    stop_dash :
        leb room (length text) ≡ false
        → ltb 0 i && i % 5 == 0 ≡ true
        → leb room (length text + 1) ≡ true
        → dash_step room c i text ≡ none
    stop_dash e f g = unfold dash_step in ground (arith, e, f, g)

    step_plain :
        leb room (length text) ≡ false
        → ltb 0 i && i % 5 == 0 ≡ false
        → dash_step room c i text ≡ some (text ++ c ∷ [])
    step_plain e f = unfold dash_step in ground (arith, e, f)

    step_dash :
        leb room (length text) ≡ false
        → ltb 0 i && i % 5 == 0 ≡ true
        → leb room (length text + 1) ≡ false
        → dash_step room c i text ≡ some (text ++ 45 ∷ c ∷ [])
    step_dash e f g = unfold dash_step in ground (arith, e, f, g)
