-- ===== src/Status.antt =====
-- c_candid/runtime/runtime/include/idl/base.h and src/base.c: the status codes of the runtime, and
-- a call that ends in a value or in a status other than IDL_STATUS_OK.
use lucid.Base.{Option, none, some, ◌≡◌, refl, ◌⊎◌, inl, inr}
use Prim.Native.String.{String}

-- Every status but IDL_STATUS_OK, which is a result's `ok`.
pub data Error : Type 0 where
  overflow truncated alloc invalid_arg unsupported : Error

-- `stuck` is no status: the code has no result there, since a loop does not end or an access goes
-- outside its buffer.
pub data Result {ℓ} (A : Type ℓ) : Type ℓ where
  ok : A → Result A
  err : Error → Result A
  stuck : Result A

-- `idl_status_message`; none is IDL_STATUS_OK.
unfoldable pub status_message : Option Error → String
status_message none = "ok"
status_message (some overflow) = "overflow"
status_message (some truncated) = "truncated input"
status_message (some alloc) = "allocation failure"
status_message (some invalid_arg) = "invalid argument"
status_message (some unsupported) = "unsupported operation"

infixl 5 ◌>>=◌
abbrev pub ◌>>=◌ {ℓ κ} : {A : Type ℓ} {B : Type κ} → Result A → (A → Result B) → Result B
ok a >>= f = f a
err e >>= f = err e
stuck >>= f = stuck

abbrev pub map_ok {ℓ κ} : {A : Type ℓ} {B : Type κ} → (A → B) → Result A → Result B
map_ok f (ok a) = ok (f a)
map_ok f (err e) = err e
map_ok f stuck = stuck

pub Result-cases {ℓ} :
    {A : Type ℓ} (r : Result A)
    → ((a : A) × (r ≡ ok a)) ⊎ (((e : Error) × (r ≡ err e)) ⊎ (r ≡ stuck))
Result-cases (ok a) = inl (a, refl)
Result-cases (err e) = inr (inl (e, refl))
Result-cases stuck = inr (inr refl)
