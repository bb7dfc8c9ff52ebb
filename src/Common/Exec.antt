-- ===== src/Common/Exec.antt =====
-- Python code that changes a state and may raise: the state comes back beside an error too, since
-- what was written before the raise stays written.
use Prim.Native.String.{String}
use mathlib.Core.Option.{Option, none, some}
use mathlib.Core.List.{List, [], ◌∷◌}

-- The exceptions that the code meets. `exception` is `Exception(message)`; `out_of_fuel` is none of
-- Python's: it says that the bound given to a recursion was too small.
pub data Error : Type 0 where
  does_not_exist multiple_objects key_error attribute_error type_error value_error : Error
  http404 index_error syntax_error integrity_error authentication_failed time_limit soft_time_limit
        system_exit out_of_fuel :
      Error
  exception not_found : String → Error

pub data Result {ℓ} (A : Type ℓ) : Type ℓ where
  ok : A → Result A
  err : Error → Result A

abbrev pub Exec {ℓ} : Type ℓ → Type ℓ → Type ℓ
Exec S A = S → Result A × S

module _ {ℓ} {S A : Type ℓ} where
  abbrev pub pure : A → Exec S A
  pure a s = (ok a, s)

  abbrev pub raise : Error → Exec S A
  raise e s = (err e, s)

  abbrev pub lift : Result A → Exec S A
  lift r s = (r, s)

  abbrev pub gets : (S → A) → Exec S A
  gets f s = (ok (f s), s)

  -- a value that is there, or the exception
  abbrev pub need : Error → Option A → Exec S A
  need e none s = (err e, s)
  need e (some a) s = (ok a, s)

  abbrev pub caught : (Error → Exec S A) → Result A × S → Result A × S
  caught h (ok a, s) = (ok a, s)
  caught h (err e, s) = h e s

  -- try: m, except Exception as e: h(e)
  abbrev pub attempt : Exec S A → (Error → Exec S A) → Exec S A
  attempt m h s = caught h (m s)

abbrev pub modify : {S : Type 0} → (S → S) → Exec S Unit
modify f s = (ok tt, f s)

module _ {ℓ} {S A B : Type ℓ} where
  abbrev pub after : (A → Exec S B) → Result A × S → Result B × S
  after f (ok a, s) = f a s
  after f (err e, s) = (err e, s)

  infixl 10 ◌>>=◌ ◌>>◌
  abbrev pub ◌>>=◌ : Exec S A → (A → Exec S B) → Exec S B
  ◌>>=◌ m f s = after f (m s)

  abbrev pub ◌>>◌ : Exec S A → Exec S B → Exec S B
  ◌>>◌ m n s = after (λ _. n) (m s)

-- for x in xs: body(x)
abbrev pub for_each {ℓ} : {S : Type 0} {A : Type ℓ} → (A → Exec S Unit) → List A → Exec S Unit
for_each body [] = pure tt
for_each body (x ∷ xs) = body x >> for_each body xs
