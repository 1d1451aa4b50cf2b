-- ===== src/Prelude/Run.antt =====
-- How a piece of Go code ends: with a value, with a panic, blocked for ever, or, in the model of a
-- loop, with the fuel gone.
use gopl.Prelude.{◌≡◌, refl}

pub data Run {ℓ} (A : Type ℓ) : Type ℓ where
  finished : A → Run A
  panics : Run A
  blocks : Run A
  out_of_fuel : Run A

infixl 5 ◌>>=◌
abbrev pub ◌>>=◌ {ℓ κ} : {A : Type ℓ} {B : Type κ} → Run A → (A → Run B) → Run B
finished a >>= f = f a
panics >>= f = panics
blocks >>= f = blocks
out_of_fuel >>= f = out_of_fuel

-- A composition that ends with a value has a first part that does.
pub bind-finished {ℓ κ} :
    {A : Type ℓ} {B : Type κ} (m : Run A) (f : A → Run B) (b : B)
    → (m >>= f) ≡ finished b
    → (a : A) × (m ≡ finished a) × (f a ≡ finished b)
bind-finished (finished a) f b e = (a, refl, e)
bind-finished panics f b e = cc
bind-finished blocks f b e = cc
bind-finished out_of_fuel f b e = cc

pub finished_inj {ℓ} : {A : Type ℓ} {a b : A} → finished a ≡ finished b → a ≡ b
finished_inj e = cc
