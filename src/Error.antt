-- ===== src/Error.antt =====
-- `ALICETextError` and `Result` of `src/lib.rs`. An I/O or JSON error stands for every error of the
-- wrapped type; a message is the text that the source gives, without the value that it quotes or
-- what a library adds to it.
pub mod Laws
use alice_text.Prelude.{ℕ, Option, none, some}
use Prim.Native.String.{String}

pub data Error : Type 0 where
  io : Error
  invalid_magic : Error
  invalid_version : ℕ → ℕ → Error
  decompression_error : String → Error
  encoding_error : String → Error
  json_error : Error

pub data Result {ℓ} (T : Type ℓ) : Type ℓ where
  err : Error → Result T
  ok : T → Result T

module _ {ℓ} {T : Type ℓ} where
  -- `ok_or_else` and `map_err`: a missing result is the error.
  abbrev pub or_error : Option T → Error → Result T
  or_error (some value) why = ok value
  or_error none why = err why

  -- The operator `?`: an error leaves the function.
  infixl 5 ◌>>=◌
  abbrev pub ◌>>=◌ {κ} : {U : Type κ} → Result T → (T → Result U) → Result U
  err why >>= rest = err why
  ok value >>= rest = rest value
