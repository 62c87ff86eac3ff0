-- ===== src/Protos/Http2/Hpack/Outcome.antt =====
-- What a step of the HPACK decoder gives: a value, `false`, or undefined behaviour of C++.
use wave_x.Prelude.{Bool, true, false, if◌then◌else◌}

pub data Outcome {ℓ} (A : Type ℓ) : Type ℓ where
  ok : A → Outcome A
  refused : Outcome A
  undefined : Outcome A

module _ {ℓ κ} {A : Type ℓ} {B : Type κ} where
  infixl 5 ◌>=>◌
  abbrev pub ◌>=>◌ : Outcome A → (A → Outcome B) → Outcome B
  ok a >=> f = f a
  refused >=> f = refused
  undefined >=> f = undefined

-- A predicate of the value, where there is one.
pub data OkAll {A : Type 0} (P : A → Type 0) : Outcome A → Type 0 where
  of_ok : {a : A} → P a → OkAll P (ok a)
  of_refused : OkAll P refused
  of_undefined : OkAll P undefined

module _ {A : Type 0} {P : A → Type 0} where
  pub OkAll-if : (b : Bool) {x y : Outcome A} → OkAll P x → OkAll P y → OkAll P (if b then x else y)
  OkAll-if true p q = p
  OkAll-if false p q = q

  -- A predicate of the values that a step can continue with.
  pub OkAll-bind :
      {B : Type 0} {Q : B → Type 0} {o : Outcome B} {f : B → Outcome A}
      → OkAll Q o
      → ((b : B) → Q b → OkAll P (f b))
      → OkAll P (o >=> f)
  OkAll-bind (of_ok q) h = h _ q
  OkAll-bind of_refused h = of_refused
  OkAll-bind of_undefined h = of_undefined

  -- A step of which nothing is known.
  pub OkAll-then :
      {B : Type 0} (o : Outcome B) {f : B → Outcome A}
      → ((b : B) → OkAll P (f b))
      → OkAll P (o >=> f)
  OkAll-then (ok b) h = h b
  OkAll-then refused h = of_refused
  OkAll-then undefined h = of_undefined

  pub OkAll-map : {Q : A → Type 0} {o : Outcome A} → OkAll P o → ((a : A) → P a → Q a) → OkAll Q o
  OkAll-map (of_ok p) h = of_ok (h _ p)
  OkAll-map of_refused h = of_refused
  OkAll-map of_undefined h = of_undefined
