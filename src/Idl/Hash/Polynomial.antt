-- ===== src/Idl/Hash/Polynomial.antt =====
-- The hash of a field name as a number in base 223.
use lucid.Base.{ℕ, ◌+◌, ◌*◌, ◌/◌, ◌%◌, ◌^◌, ◌<◌, ◌≡◌, sym, ◌∙◌, ap, arith}
use lucid.Base.{List, [], ◌∷◌, some, length}
use native.Mathlib.Nat.{add-mul-mod_self_right, div-add-mod', pow-suc}
use lucid.Idl.Hash.{idl_hash, hash_from}

-- The value of a text in base 223, its first byte the most significant.
unfoldable pub base_223 : List ℕ → ℕ
base_223 [] = 0
base_223 (c ∷ text) = c * 223 ^ length text + base_223 text

mod_times : (n p b : ℕ) → (n % 2 ^ 32 * p + b) % 2 ^ 32 ≡ (n * p + b) % 2 ^ 32
mod_times n p b =
    sym (add-mul-mod_self_right (n % 2 ^ 32 * p + b) (n / 2 ^ 32 * p) (2 ^ 32))
    ∙ ap (λ (k : ℕ). k % 2 ^ 32) {y = n * p + b}
        (omega (arith, ap (λ (k : ℕ). k * p) (div-add-mod' n (2 ^ 32))))

hash_from_lem :
    (hash : ℕ) (text : List ℕ)
    → hash < 2 ^ 32
    → hash_from hash text ≡ (hash * 223 ^ length text + base_223 text) % 2 ^ 32
unfolding base_223
hash_from_lem hash [] h = omega arith
hash_from_lem hash (c ∷ text) h =
    let next = hash * 223 + c in
    hash_from_lem (next % 2 ^ 32) text (omega arith)
    ∙ mod_times next (223 ^ length text) (base_223 text)
    ∙ ap (λ (k : ℕ). k % 2 ^ 32) {x = next * 223 ^ length text + base_223 text}
        (omega (arith, ap (λ (k : ℕ). hash * k) (pow-suc 223 (length text))))

-- The hash of a name is its value in base 223, in 32 bits.
pub idl_hash-base_223 : (text : List ℕ) → idl_hash (some text) ≡ base_223 text % 2 ^ 32
unfolding idl_hash
idl_hash-base_223 text = hash_from_lem 0 text (omega arith) ∙ omega arith
