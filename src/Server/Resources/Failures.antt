-- ===== src/Server/Resources/Failures.antt =====
-- What an answer of the store says when it succeeds.
use kestrai.Prelude.{◌≡◌, ap, sym, ◌∙◌, Option, none, some, Result, ok, err, inl, inr}
use kestrai.Store.{Record, Error, other}
use kestrai.Store.Operations.Reading.{OrFails}
use kestrai.Store.Contract.{answer}

pub no_success :
    {D : Type 0} (r : Result Error (Record D)) (y : Error) (x : Record D)
    → OrFails r (err y)
    → r ≡ ok x
    → ⊥
no_success r y x (inl h) e = let bad : err y ≡ ok x = sym h ∙ e in cc
no_success r y x (inr (text, h)) e = let bad : err (other text) ≡ ok x = sym h ∙ e in cc

pub get_ok :
    {D : Type 0} (r : Result Error (Record D)) (held : Option (Result Error (Record D)))
    (x : Record D)
    → OrFails r (answer held)
    → r ≡ ok x
    → held ≡ some (ok x)
get_ok r none x (inl h) e = cc
get_ok r (some y) x (inl h) e = ap some (sym h ∙ e)
get_ok r held x (inr (text, h)) e = let bad : err (other text) ≡ ok x = sym h ∙ e in cc
