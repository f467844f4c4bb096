-- ===== src/Runtime/Keeps.antt =====
-- Relations between the state before and after a method, proved step by step.
use thelight.Common.{
  refl, String, Bool, true, false, Option, none, some, if◌then◌else◌, ◌≡◌, sym, subst,
}
use thelight.Runtime.World.{Result, ok, err, World}
use thelight.Runtime.Actions.{
  Action, Method, ◌>>=◌, after_ok, after_err, with_result, pure, raise, skip, gets, catching,
  finally, when, if_null,
}

pub record IsPreorder {F S : Type 0} (R : World F S → World F S → Type 0) : Type 0 where
  pub stays : (w : World F S) → R w w
  pub joins : (u v w : World F S) → R u v → R v w → R u w

-- Whatever the method returns or throws, the state before and the state after are related.
pub record Keeps {F S A : Type 0} (R : World F S → World F S → Type 0) (m : Action F S A)
    : Type 0 where
  pub at_every : (w : World F S) → R w (m w).1

module _ {F S : Type 0} {R : World F S → World F S → Type 0} (r : IsPreorder R) where
  after_ok-keeps :
      {A B : Type 0} (w : World F S) (x : Result A × World F S) (f : A → Action F S B)
      → R w x.1
      → ((a : A) → Keeps R (f a))
      → R w (after_ok f x).1
  after_ok-keeps w (ok a, w') f h next = r.joins w w' _ h ((next a).at_every w')
  after_ok-keeps w (err e, w') f h next = h

  pub Keeps-bind :
      {A B : Type 0} {m : Action F S A} {f : A → Action F S B}
      → Keeps R m
      → ((a : A) → Keeps R (f a))
      → Keeps R (m >>= f)
  unfolding ◌>>=◌
  Keeps-bind {m = m} {f = f} first next = record {
    at_every = λ w. after_ok-keeps w (m w) f (first.at_every w) next;
  }

  after_err-keeps :
      {A : Type 0} (w : World F S) (x : Result A × World F S) (f : String → Action F S A)
      → R w x.1
      → ((e : String) → Keeps R (f e))
      → R w (after_err f x).1
  after_err-keeps w (ok a, w') f h next = h
  after_err-keeps w (err e, w') f h next = r.joins w w' _ h ((next e).at_every w')

  pub Keeps-catching :
      {A : Type 0} {m : Action F S A} {f : String → Action F S A}
      → Keeps R m
      → ((e : String) → Keeps R (f e))
      → Keeps R (catching m f)
  unfolding catching
  Keeps-catching {m = m} {f = f} first next = record {
    at_every = λ w. after_err-keeps w (m w) f (first.at_every w) next;
  }

  with_result-state :
      {A B : Type 0} (w : World F S) (a : Result A) (x : Result B × World F S)
      → R w x.1
      → R w (with_result a x).1
  with_result-state w a (ok b, w') h = h
  with_result-state w a (err e, w') h = h

  pub Keeps-finally : {m k : Method F S} → Keeps R m → Keeps R k → Keeps R (finally m k)
  unfolding finally
  Keeps-finally {m = m} {k = k} first last = record {
    at_every = λ w.
        with_result-state w (m w).0 (k (m w).1)
          (r.joins w (m w).1 _ (first.at_every w) (last.at_every (m w).1));
  }

  pub Keeps-if :
      {A : Type 0} {m k : Action F S A} (b : Bool)
      → Keeps R m
      → Keeps R k
      → Keeps R (if b then m else k)
  Keeps-if true h h' = h
  Keeps-if false h h' = h'

  pub Keeps-if_null :
      {A B : Type 0} {m : Action F S B} {f : A → Action F S B} (o : Option A)
      → Keeps R m
      → ((a : A) → Keeps R (f a))
      → Keeps R (if_null o m f)
  unfolding if_null
  Keeps-if_null none h next = h
  Keeps-if_null (some a) h next = next a

  -- A method that changes nothing
  pub Keeps-same : {A : Type 0} {m : Action F S A} → ((w : World F S) → (m w).1 ≡ w) → Keeps R m
  Keeps-same {m = m} same = record { at_every = λ w. subst (R w) (sym (same w)) (r.stays w) }

  pub Keeps-pure : {A : Type 0} (a : A) → Keeps R (pure a)
  unfolding pure
  Keeps-pure a = record { at_every = λ w. r.stays w }

  pub Keeps-raise : {A : Type 0} (e : String) → Keeps R (raise {A = A} e)
  unfolding raise
  Keeps-raise e = record { at_every = λ w. r.stays w }

  pub Keeps-skip : Keeps R skip
  unfolding skip
  Keeps-skip = record { at_every = λ w. r.stays w }

  pub Keeps-gets : {A : Type 0} (f : World F S → A) → Keeps R (gets f)
  unfolding gets
  Keeps-gets f = record { at_every = λ w. r.stays w }

  pub Keeps-when : {m : Method F S} (b : Bool) → Keeps R m → Keeps R (when b m)
  unfolding when skip
  Keeps-when true h = h
  Keeps-when false h = Keeps-skip

-- Related by the one, so related by the other.
pub Keeps-weaken :
    {F S A : Type 0} {R Q : World F S → World F S → Type 0} {m : Action F S A}
    → ((w w' : World F S) → R w w' → Q w w')
    → Keeps R m
    → Keeps Q m
Keeps-weaken {m = m} weaker h = record { at_every = λ w. weaker w (m w).1 (h.at_every w) }

-- What follows a throw is not run.
pub Keeps-after_raise :
    {F S A B : Type 0} {R : World F S → World F S → Type 0} (r : IsPreorder R) (e : String)
    (f : A → Action F S B)
    → Keeps R (raise {A = A} e >>= f)
unfolding ◌>>=◌ raise
Keeps-after_raise r e f = record { at_every = λ w. r.stays w }

-- The same, from the states where a condition holds
pub record Meets {F S A : Type 0} (P : World F S → Type 0) (R : World F S → World F S → Type 0)
    (m : Action F S A) : Type 0 where
  pub at_each : (w : World F S) → P w → R w (m w).1

abbrev pub Carries : {F S : Type 0} → (World F S → Type 0) → World F S → World F S → Type 0
Carries P w w' = P w → P w'

pub Carries-IsPreorder : {F S : Type 0} (P : World F S → Type 0) → IsPreorder (Carries P)
Carries-IsPreorder P = record { stays = λ w h. h; joins = λ u v w f g h. g (f h) }

module _ {F S : Type 0} {R : World F S → World F S → Type 0} (r : IsPreorder R) {A B : Type 0}
    {Q : A → World F S → Type 0} {f : A → Action F S B} where
  after_ok-then :
      (w : World F S) (x : Result A × World F S)
      → R w x.1
      → ((a : A) → x.0 ≡ ok a → Q a x.1)
      → ((a : A) → Meets (Q a) R (f a))
      → R w (after_ok f x).1
  after_ok-then w (ok a, w') h q next = r.joins w w' _ h ((next a).at_each w' (q a refl))
  after_ok-then w (err e, w') h q next = h

  -- Two steps, where the second relies on what the first has found out
  pub Meets-then :
      {P : World F S → Type 0} {m : Action F S A}
      → Keeps R m
      → ((w : World F S) → P w → (a : A) → (m w).0 ≡ ok a → Q a (m w).1)
      → ((a : A) → Meets (Q a) R (f a))
      → Meets P R (m >>= f)
  unfolding ◌>>=◌
  Meets-then {m = m} first found next = record {
    at_each = λ w p. after_ok-then w (m w) (first.at_every w) (found w p) next;
  }

pub Meets-weaken :
    {F S A : Type 0} {P Q : World F S → Type 0} {R : World F S → World F S → Type 0}
    {m : Action F S A}
    → ((w : World F S) → P w → Q w)
    → Meets Q R m
    → Meets P R m
Meets-weaken h m = record { at_each = λ w p. m.at_each w (h w p) }

module _ {F S : Type 0} {P : World F S → Type 0} {R : World F S → World F S → Type 0}
    (r : IsPreorder R) where
  after_ok-meets :
      {A B : Type 0} (w : World F S) (x : Result A × World F S) (f : A → Action F S B)
      → R w x.1
      → P x.1
      → ((a : A) → Meets P R (f a))
      → R w (after_ok f x).1
  after_ok-meets w (ok a, w') f h p next = r.joins w w' _ h ((next a).at_each w' p)
  after_ok-meets w (err e, w') f h p next = h

  pub Meets-bind :
      {A B : Type 0} {m : Action F S A} {f : A → Action F S B}
      → Keeps R m
      → Keeps (Carries P) m
      → ((a : A) → Meets P R (f a))
      → Meets P R (m >>= f)
  unfolding ◌>>=◌
  Meets-bind {m = m} {f = f} first carried next = record {
    at_each = λ w p. after_ok-meets w (m w) f (first.at_every w) (carried.at_every w p) next;
  }

  pub Meets-Keeps : {A : Type 0} {m : Action F S A} → Keeps R m → Meets P R m
  Meets-Keeps h = record { at_each = λ w _. h.at_every w }

  pub Meets-after :
      {A B : Type 0} {m : Action F S A} {f : A → Action F S B}
      → Meets P R m
      → ((a : A) → Keeps R (f a))
      → Meets P R (m >>= f)
  unfolding ◌>>=◌
  Meets-after {m = m} {f = f} first next = record {
    at_each = λ w p. after_ok-keeps r w (m w) f (first.at_each w p) next;
  }

  pub Meets-if :
      {A : Type 0} {m k : Action F S A} (b : Bool)
      → Meets P R m
      → Meets P R k
      → Meets P R (if b then m else k)
  Meets-if true h h' = h
  Meets-if false h h' = h'

  pub Meets-if_null :
      {A B : Type 0} {m : Action F S B} {f : A → Action F S B} (x : Option A)
      → Meets P R m
      → ((a : A) → Meets P R (f a))
      → Meets P R (if_null x m f)
  unfolding if_null
  Meets-if_null none h next = h
  Meets-if_null (some a) h next = next a

  pub Meets-when : {m : Method F S} (b : Bool) → Meets P R m → Meets P R (when b m)
  unfolding when skip
  Meets-when true h = h
  Meets-when false h = Meets-Keeps (Keeps-skip r)
