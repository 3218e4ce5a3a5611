-- ===== src/Storage/Monad.antt =====
-- Go methods on a state that return `(value, error)`: what they change stays changed when they fail.
use rawth.Base.{Outcome, ok, err, panic, stuck}
use rawth.Storage.Fault.{Fault}

abbrev pub M : Type 0 → Type 0 → Type 0
M S A = S → Outcome Fault A × S

-- What follows a call: it goes on with the value, and an error ends the method.
abbrev pub and_then : {S A B : Type 0} → Outcome Fault A × S → (A → M S B) → Outcome Fault B × S
and_then (ok a, s) f = f a s
and_then (err e, s) f = (err e, s)
and_then (panic, s) f = (panic, s)
and_then (stuck, s) f = (stuck, s)

infixl 5 ◌>>=◌ ◌>>◌
abbrev pub ◌>>=◌ : {S A B : Type 0} → M S A → (A → M S B) → M S B
◌>>=◌ m f s = and_then (m s) f

abbrev pub ◌>>◌ : {S B : Type 0} → M S (Unit {0}) → M S B → M S B
m >> k = m >>= λ _. k

abbrev pub pure : {S A : Type 0} → A → M S A
pure a s = (ok a, s)

abbrev pub lift : {S A : Type 0} → Outcome Fault A → M S A
lift r s = (r, s)

abbrev pub raise : {S A : Type 0} → Fault → M S A
raise e s = (err e, s)

abbrev pub gets : {S A : Type 0} → (S → A) → M S A
gets f s = (ok (f s), s)

abbrev pub modify : {S : Type 0} → (S → S) → M S (Unit {0})
modify f s = (ok tt, f s)
