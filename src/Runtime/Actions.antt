-- ===== src/Runtime/Actions.antt =====
-- Methods: state that stays written after a throw, `try`, and the accesses that they are made of.
use thelight.Common.{ℕ, suc, String, Bool, Option, none, some, if◌then◌else◌}
use thelight.Runtime.World.{Result, ok, err, Worker, World, Setup}

abbrev pub Action : Type 0 → Type 0 → Type 0 → Type 0
Action F S A = World F S → Result A × World F S

-- A method that returns nothing
abbrev pub Method : Type 0 → Type 0 → Type 0
Method F S = Action F S (Unit {0})

-- What follows a value, a throw, and either.
module _ {F S A : Type 0} where
  abbrev pub after_ok :
      {B : Type 0} → (A → Action F S B) → Result A × World F S → Result B × World F S
  after_ok f (ok a, w) = f a w
  after_ok f (err e, w) = (err e, w)

  abbrev pub after_err : (String → Action F S A) → Result A × World F S → Result A × World F S
  after_err handler (ok a, w) = (ok a, w)
  after_err handler (err e, w) = handler e w

  abbrev pub with_result : Result A → {B : Type 0} → Result B × World F S → Result A × World F S
  with_result r (ok b, w) = (r, w)
  with_result r (err e, w) = (err e, w)

infixl 5 ◌>>=◌ ◌>>◌
unfoldable pub ◌>>=◌ : {F S A B : Type 0} → Action F S A → (A → Action F S B) → Action F S B
◌>>=◌ m f w = after_ok f (m w)

abbrev pub ◌>>◌ : {F S A B : Type 0} → Action F S A → Action F S B → Action F S B
m >> k = m >>= λ _. k

module _ {F S : Type 0} where
  unfoldable pub pure : {A : Type 0} → A → Action F S A
  pure a w = (ok a, w)

  unfoldable pub raise : {A : Type 0} → String → Action F S A
  raise e w = (err e, w)

  unfoldable pub skip : Method F S
  skip w = (ok tt, w)

  unfoldable pub gets : {A : Type 0} → (World F S → A) → Action F S A
  gets f w = (ok (f w), w)

  unfoldable pub modify : (World F S → World F S) → Method F S
  modify f w = (ok tt, f w)

  unfoldable pub set : (Worker F → Worker F) → Method F S
  set f w = (ok tt, record w { worker = f w.worker })

  -- `try { m } catch (e) { handler(e) }`
  unfoldable pub catching : {A : Type 0} → Action F S A → (String → Action F S A) → Action F S A
  catching m handler w = after_err handler (m w)

  -- `try { m } finally { k }`
  unfoldable pub finally : Method F S → Method F S → Method F S
  finally m k w = with_result (m w).0 (k (m w).1)

  -- `if (x === null) m else f(x)`
  unfoldable pub if_null :
      {A B : Type 0} → Option A → Action F S B → (A → Action F S B) → Action F S B
  if_null none m f = m
  if_null (some a) m f = f a

  unfoldable pub when : Bool → Method F S → Method F S
  when b m = if b then m else skip

  -- A call outside of the store: time passes, and so do the other processes.
  unfoldable pub await : {A : Type 0} → Setup F S → (S → Result A × S) → Action F S A
  await env m w =
      let (r, s) = m w.outside in
      let tick = suc w.tick in
      (r, record w { outside = s; tick = tick; owners = env.others tick w.owners })

  -- `Date.now()`
  abbrev pub now : Setup F S → World F S → ℕ
  now env w = env.clock w.tick
