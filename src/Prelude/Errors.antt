-- ===== src/Prelude/Errors.antt =====
-- A Go call that returns a value or an error, and the chains of such calls in which each returns
-- early on an error.
use mathlib.Core.Bool.{Bool, true, false}

pub data Fallible {ℓ κ} (E : Type κ) (A : Type ℓ) : Type (ℓ ⊔ κ) where
  ok : (value : A) → Fallible E A
  err : (error : E) → Fallible E A

module _ {κ} {E : Type κ} where
  infixl 5 ◌>>=◌ ◌>>◌
  abbrev pub ◌>>=◌ {ℓ μ} :
      {A : Type ℓ} {B : Type μ} (call : Fallible E A) (next : A → Fallible E B) → Fallible E B
  call >>= next = elim call [ ok value ↦ next value | err error ↦ err error ]

  abbrev pub ◌>>◌ {ℓ} :
      {B : Type ℓ} (test : Fallible E (Unit {0})) (next : Fallible E B) → Fallible E B
  test >> next = elim test [ ok passed ↦ next | err error ↦ err error ]

  -- Return the error unless the test holds.
  abbrev pub check : Bool → E → Fallible E (Unit {0})
  check holds error = elim holds [ true ↦ ok tt | false ↦ err error ]
