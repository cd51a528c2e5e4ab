-- ===== src/Error/Laws.antt =====
-- What a result that succeeds tells of the steps it is made of.
use alice_text.Prelude.{◌≡◌, refl, ap, Option, none, some, ◌≢◌}
use alice_text.Error.{Error, Result, ok, err, or_error, ◌>>=◌}

module _ {ℓ} {T : Type ℓ} where
  value_or : T → Result T → T
  value_or d (err e) = d
  value_or d (ok v) = v

  pub ok-injective : {a b : T} → ok a ≡ ok b → a ≡ b
  unfolding value_or
  ok-injective {a} e = ap (value_or a) e

  pub err-ne-ok : {e : Error} {a : T} → err e ≢ ok a
  err-ne-ok {e} {a} h = cc

  pub or_error-ok : (o : Option T) (e : Error) {a : T} → or_error o e ≡ ok a → o ≡ some a
  or_error-ok none e h = cc
  or_error-ok (some v) e h = ap some (ok-injective h)

  pub bind-ok {κ} :
      {U : Type κ} (r : Result T) (rest : T → Result U) {b : U}
      → (r >>= rest) ≡ ok b
      → (a : T) × (r ≡ ok a) × (rest a ≡ ok b)
  bind-ok (err e) rest {b} h = cc
  bind-ok (ok v) rest {b} h = (v, refl, h)
