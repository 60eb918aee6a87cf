-- ===== src/Base/Word.antt =====
-- The widths of the target, wasm32: a size_t and a pointer have 32 bits.
use Prim.Native.Nat.{ℕ, ◌^◌, ◌<◌}

abbrev pub size_mod : ℕ
size_mod = 2 ^ 32

abbrev pub IsSize : ℕ → Type 0
IsSize n = n < size_mod
