-- ===== src/Exec.antt =====
-- Exceptions (app/domain/shared/exceptions.py) and methods that change state and may raise. What
-- was written before a raise stays written, so the state comes back beside the error too.
use cortex_rag.Base.{Text, text, Bool, true, false, Option, none, some, if◌then◌else◌, []}
use cortex_rag.Base.Str.{is_empty}

-- `DomainError` and its subclasses.
pub data ErrorClass : Type 0 where
  domain_error entity_not_found validation conflict service_unavailable : ErrorClass

-- The other exceptions that reach the program's handlers: what Python's enums and `zip` raise, an
-- abstract method, a constraint of the database, and what a library or a service raises.
pub data Exception : Type 0 where
  domain : ErrorClass → Text → Exception
  value_error : Text → Exception
  not_implemented : Exception
  integrity_error : Text → Exception
  external_error : Text → Exception

abbrev pub default_message : ErrorClass → Text
default_message domain_error = text "A domain error occurred."
default_message entity_not_found = text "The requested entity was not found."
default_message validation = text "A domain validation rule was violated."
default_message conflict = text "The operation conflicts with the current state."
default_message service_unavailable =
    text "An external service is temporarily unavailable. Please try again shortly."

-- `DomainError.__init__`: `message or self.default_message`
abbrev pub new_error : ErrorClass → Option Text → Exception
new_error c none = domain c (default_message c)
new_error c (some m) = domain c (if is_empty m then default_message c else m)

-- `str(exc)`
abbrev pub str_of : Exception → Text
str_of (domain _ m) = m
str_of (value_error m) = m
str_of not_implemented = []
str_of (integrity_error m) = m
str_of (external_error m) = m

pub data Result {ℓ} (A : Type ℓ) : Type ℓ where
  ok : A → Result A
  err : Exception → Result A

abbrev pub is_ok {ℓ} : {A : Type ℓ} → Result A → Bool
is_ok (ok _) = true
is_ok (err _) = false

abbrev pub and_then {ℓ κ} : {A : Type ℓ} {B : Type κ} → Result A → (A → Result B) → Result B
and_then (ok a) f = f a
and_then (err e) f = err e

abbrev pub Exec {ℓ κ} : Type ℓ → Type κ → Type (ℓ ⊔ κ)
Exec S A = S → Result A × S

module _ {ℓ κ} {S : Type ℓ} {A : Type κ} where
  abbrev pub pure : A → Exec S A
  pure a s = (ok a, s)

  abbrev pub raise : Exception → Exec S A
  raise e s = (err e, s)

  abbrev pub lift : Result A → Exec S A
  lift r s = (r, s)

  abbrev pub gets : (S → A) → Exec S A
  gets f s = (ok (f s), s)

  -- `if value is None: raise e`
  abbrev pub or_raise : Exception → Option A → Exec S A
  or_raise e none = raise e
  or_raise e (some a) = pure a

module _ {ℓ κ} {S : Type ℓ} {A B : Type κ} where
  abbrev pub continue : Result A → (A → Exec S B) → Exec S B
  continue (ok a) f s = f a s
  continue (err e) f s = (err e, s)

  infixl 10 ◌>>=◌ ◌>>◌
  abbrev pub ◌>>=◌ : Exec S A → (A → Exec S B) → Exec S B
  ◌>>=◌ m f s = continue (m s).0 f (m s).1

  abbrev pub ◌>>◌ : Exec S A → Exec S B → Exec S B
  m >> n = m >>= λ _. n

module _ {ℓ} {S : Type ℓ} where
  abbrev pub modify : (S → S) → Exec S (Unit {0})
  modify f s = (ok tt, f s)

  -- `if test: raise e`
  abbrev pub raise_if : Bool → Exception → Exec S (Unit {0})
  raise_if b e s = (if b then err e else ok tt, s)
