-- ===== src/Principal/Parse.antt =====
-- What reading a text returns, for any text.
use lucid.Base.{
  ℕ, ◌+◌, ◌-◌, ◌*◌, ◌/◌, ◌%◌, ◌^◌, ◌≤◌, ◌<◌, ◌≡◌, refl, ap, sym, ◌∙◌, subst, arith, Bool, true,
  false, Bool-cases, Option-cases, not, ◌&&◌, ◌||◌, ◌⊎◌, inl, inr,
}
use lucid.Base.{
  List, [], ◌∷◌, ◌++◌, append-nil, if◌then◌else◌, Option, none, some, ltb, leb, ◌==◌, length, All,
  All-append, bit_and, bit_or,
}
use lucid.Base.Bits.{bit_and_low}
use lucid.Base.Array.{get_at}
use lucid.Leb128.{IsByte}
use lucid.Principal.{
  finish_decode, decode_step, decode_from, base32_decode, base32_decode_table, is_space,
  remove_dashes, check_crc, crc_bytes,
}
use lucid.Principal.{Parsed, parsed, invalid_arg, overrun, ic_principal_from_text}
use lucid.Principal.Text.{check_crc-crc_bytes}
use lucid.Principal.Sealed.{IsPrincipal, sealed, check_crc-cases}

-- What is decoded, if anything is, are bytes.
abbrev BytesIn : Option (List ℕ) → Type 0
BytesIn none = Unit {0}
BytesIn (some bytes) = All IsByte bytes

finish_decode-BytesIn :
    (buffer bits : ℕ) (out : List ℕ) → All IsByte out → BytesIn (finish_decode buffer bits out)
unfolding finish_decode
finish_decode-BytesIn buffer bits out h =
    elim (Bool-cases (ltb 0 bits && not (bit_and buffer (2 ^ bits - 1) == 0))) [
      | inl left ↦ rw left tt
      | inr clean ↦ rw clean h
    ]

-- A round fails, leaves the output, or writes one byte.
decode_step-cases :
    (cap char buffer bits : ℕ) (out : List ℕ)
    → (decode_step cap char buffer bits out ≡ none)
      ⊎ ((buffer' : ℕ) × (left : ℕ) × (added : List ℕ) × (decode_step cap char buffer bits out
            ≡ some (buffer', left, out ++ added))
          × All IsByte added)
unfolding decode_step
decode_step-cases cap char buffer bits out = elim (Bool-cases (is_space char)) [
  | inl space ↦ inr (buffer, bits, [], ground (arith, space, append-nil out), tt)
  | inr visible ↦ elim (Option-cases (get_at none base32_decode_table char)) [
    | inl unknown ↦ inl (ground (arith, visible, unknown))
    | inr (val, known) ↦
        let buffer' = bit_or val (buffer * 2 ^ 5 % 2 ^ 32) in
        let byte = bit_and (buffer' / 2 ^ (bits + 5 - 8)) 0xFF in
        elim (Bool-cases (leb 8 (bits + 5))) [
          | inr few ↦
              inr (buffer', bits + 5, [], ground (arith, visible, known, few, append-nil out), tt)
          | inl full ↦ elim (Bool-cases (leb cap (length out))) [
            | inl no_room ↦ inl (ground (arith, visible, known, full, no_room))
            | inr room ↦ inr (
              buffer',
              bits + 5 - 8,
              byte ∷ [],
              ground (arith, visible, known, full, room),
              (omega (arith, bit_and_low 8 (buffer' / 2 ^ (bits + 5 - 8))), tt),
            )
          ]
        ]
  ]
]

decode_from-BytesIn :
    (cap : ℕ) (chars : List ℕ) (buffer bits : ℕ) (out : List ℕ)
    → All IsByte out
    → BytesIn (decode_from cap chars buffer bits out)
unfolding decode_from
decode_from-BytesIn cap [] buffer bits out h = finish_decode-BytesIn buffer bits out h
decode_from-BytesIn cap (char ∷ chars) buffer bits out h = elim (Bool-cases (char == 0)) [
  | inl nul ↦ subst BytesIn (sym (ended nul)) (finish_decode-BytesIn buffer bits out h)
  | inr other ↦ elim (decode_step-cases cap char buffer bits out) [
    | inl fails ↦ subst BytesIn (sym (failed other fails)) tt
    | inr (buffer', left, added, run, bytes) ↦ subst BytesIn (sym (went_on other run)) (
        decode_from-BytesIn cap chars buffer' left (out ++ added)
          (All-append IsByte out added h bytes))
  ]
]
  where
    ended :
        char == 0 ≡ true
        → decode_from cap (char ∷ chars) buffer bits out ≡ finish_decode buffer bits out
    ended e = ground (arith, e)

    failed :
        char == 0 ≡ false
        → decode_step cap char buffer bits out ≡ none
        → decode_from cap (char ∷ chars) buffer bits out ≡ none
    failed e f = ground (arith, e, f)

    went_on :
        char == 0 ≡ false
        → {buffer' left : ℕ} {out' : List ℕ}
        → decode_step cap char buffer bits out ≡ some (buffer', left, out')
        → decode_from cap (char ∷ chars) buffer bits out ≡ decode_from cap chars buffer' left out'
    went_on e f = ground (arith, e, f)

base32-BytesIn : (chars : List ℕ) → BytesIn (base32_decode chars 33)
unfolding base32_decode
base32-BytesIn chars = decode_from-BytesIn 33 chars 0 0 [] tt

-- The characters of a text that are not dashes are 8 to 64, and decode to a principal behind its
-- checksum.
abbrev pub IsText : List ℕ → List ℕ → Type 0
IsText text bytes =
    (8 ≤ length (remove_dashes text))
    × (length (remove_dashes text) ≤ 64)
    × IsPrincipal bytes
    × (base32_decode (remove_dashes text) 33 ≡ some (sealed bytes))

abbrev Answer : List ℕ → Parsed → Type 0
Answer text r = (r ≡ invalid_arg) ⊎ ((bytes : List ℕ) × (r ≡ parsed bytes) × IsText text bytes)

-- The principal that the text is of, or the status where it is of none.
abbrev pub Checked : List ℕ → Parsed → Type 0
Checked text r =
    ((r ≡ invalid_arg) × ((bytes : List ℕ) → IsText text bytes → ⊥))
    ⊎ ((bytes : List ℕ) × (r ≡ parsed bytes) × IsText text bytes)

accepted :
    (text bytes : List ℕ) → IsText text bytes → ic_principal_from_text (some text) ≡ parsed bytes
unfolding ic_principal_from_text remove_dashes
accepted [] bytes (low, _, _, _) = absurd (omega (arith, low))
accepted (c ∷ cs) bytes (low, high, (some_byte, few, are_bytes), decoded) =
    let valid = check_crc-crc_bytes bytes some_byte few in
    let long : ltb (length (sealed bytes)) 5 ≡ false = long_enough in
    ground (arith, low, high, decoded, valid, long)
  where
    long_enough : ltb (length (sealed bytes)) 5 ≡ false
    long_enough = unfold crc_bytes in ground (arith, some_byte)

Answer-Checked :
    (text : List ℕ)
    → Answer text (ic_principal_from_text (some text))
    → Checked text (ic_principal_from_text (some text))
Answer-Checked text (inr found) = inr found
Answer-Checked text (inl refused) =
    inl (refused, λ bytes h. clash bytes (sym refused ∙ accepted text bytes h))
  where
    clash : (bytes : List ℕ) → invalid_arg ≡ parsed bytes → ⊥
    clash bytes e = cc

abbrev is_badly_sized : List ℕ → Bool
is_badly_sized text =
    length text == 0
    || (ltb (length (remove_dashes text)) 8 || ltb 64 (length (remove_dashes text)))

-- Reading any text overruns the local array exactly if the text has 72 characters or more that are not
-- dashes. Else it returns a principal of 1 to 29 bytes, where 8 to 64 characters are not dashes and
-- decode to the bytes behind their checksum; or the status for an invalid argument, where there is no
-- such principal.
pub ic_principal_from_text-cases :
    (text : List ℕ)
    → ((72 ≤ length (remove_dashes text)) × (ic_principal_from_text (some text) ≡ overrun))
      ⊎ ((length (remove_dashes text) < 72) × Checked text (ic_principal_from_text (some text)))
unfolding ic_principal_from_text remove_dashes
ic_principal_from_text-cases text = elim (Bool-cases (leb 72 (length (remove_dashes text)))) [
  | inl long ↦ inl (ground (arith, long), too_long text long)
  | inr short ↦ inr (
    ground (arith, short),
    Answer-Checked text (elim (Bool-cases (is_badly_sized text)) [
      | inl badly ↦ inl (ground (arith, short, badly))
      | inr sized ↦ by_decoded (base32_decode (remove_dashes text) 33) refl short sized
    ]),
  )
]
  where
    too_long :
        (t : List ℕ)
        → leb 72 (length (remove_dashes t)) ≡ true
        → ic_principal_from_text (some t) ≡ overrun
    too_long [] e = absurd (ground (arith, e))
    too_long (c ∷ cs) e = ground (arith, e)

    undecoded :
        base32_decode (remove_dashes text) 33 ≡ none
        → leb 72 (length (remove_dashes text)) ≡ false
        → is_badly_sized text ≡ false
        → ic_principal_from_text (some text) ≡ invalid_arg
    undecoded e short sized = ground (arith, e, short, sized)

    decoded :
        {full : List ℕ}
        → base32_decode (remove_dashes text) 33 ≡ some full
        → leb 72 (length (remove_dashes text)) ≡ false
        → is_badly_sized text ≡ false
        → ic_principal_from_text (some text)
          ≡ (if ltb (length full) 5 then invalid_arg else check_crc full)
    decoded e short sized = ground (arith, e, short, sized)

    by_decoded :
        (o : Option (List ℕ))
        → base32_decode (remove_dashes text) 33 ≡ o
        → leb 72 (length (remove_dashes text)) ≡ false
        → is_badly_sized text ≡ false
        → Answer text (ic_principal_from_text (some text))
    by_decoded none e short sized = inl (undecoded e short sized)
    by_decoded (some full) e short sized = elim (Bool-cases (ltb (length full) 5)) [
      | inl few ↦ inl (decoded e short sized ∙ ground (arith, few))
      | inr enough ↦
          let run : ic_principal_from_text (some text) ≡ check_crc full =
            decoded e short sized ∙ ground (arith, enough) in
          elim (check_crc-cases full (decoded_bytes full e)) [
            | inl refused ↦ inl (run ∙ refused)
            | inr (bytes, found, valid, is) ↦ inr (
              bytes,
              run ∙ found,
              (ground (arith, sized), ground (arith, sized), valid, e ∙ ap some is),
            )
          ]
    ]
      where
        decoded_bytes :
            (full : List ℕ) → base32_decode (remove_dashes text) 33 ≡ some full → All IsByte full
        decoded_bytes full e = subst BytesIn e (base32-BytesIn (remove_dashes text))
