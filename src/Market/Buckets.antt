-- ===== src/Market/Buckets.antt =====
-- What `aggregateClosedBars` yields is aligned, in order, and closed.
use thelight.Common.{
  ℕ, suc, ◌+◌, ◌*◌, ◌/◌, ◌%◌, ◌≤◌, ◌<◌, ◌≡◌, refl, sym, subst, ap, ◌∙◌, ◌≢◌, inl, inr, Bool, false,
  Bool-cases, none, some, List, [], ◌∷◌, ◌==◌, ==_iff, ltb, arith, if◌then◌else◌,
}
use native.Mathlib.Nat.{div-mul-le_self, le-div_iff_mul-le, mul-le-mul_right, suc-mul, mul-mod_left}
use thelight.Number.{Num}
use thelight.Types.{ClosedBar}
use thelight.Market.{bucket_start, at_time, merged, aggregate, aggregate_closed_bars}

quotient_mono : (w t t' : ℕ) → 0 < w → t ≤ t' → t / w ≤ t' / w
quotient_mono w t t' h le =
    let fits : t / w * w ≤ t = div-mul-le_self t w in (le-div_iff_mul-le h).1 (omega arith)

bucket-next :
    (w t t' : ℕ)
    → 0 < w
    → t ≤ t'
    → bucket_start w t ≢ bucket_start w t'
    → bucket_start w t + w ≤ bucket_start w t'
unfolding bucket_start
bucket-next w t t' h le other =
    let mono = quotient_mono w t t' h le in
    let apart : t / w ≢ t' / w = λ e. other (ap (λ q. q * w) e) in
    let next : suc (t / w) ≤ t' / w = omega arith in
    let more : suc (t / w) * w ≤ t' / w * w = mul-le-mul_right w next in
    let split = suc-mul (t / w) w in omega arith

-- Times that do not decrease, from `from`
abbrev pub InOrder : {F : Type 0} → ℕ → List (ClosedBar F) → Type 0
InOrder from [] = Unit
InOrder from (bar ∷ rest) = (from ≤ bar.t) × InOrder bar.t rest

-- The time of the newest bar
abbrev pub newest : {F : Type 0} → ℕ → List (ClosedBar F) → ℕ
newest from [] = from
newest from (bar ∷ rest) = newest bar.t rest

-- Buckets that start at `from` or later, one width apart at least, each at a multiple of the width and
-- ended by `until`.
abbrev pub Buckets : {F : Type 0} → ℕ → ℕ → ℕ → List (ClosedBar F) → Type 0
Buckets width until from [] = Unit
Buckets width until from (b ∷ bs) =
    (from ≤ b.t) × (b.t % width ≡ 0) × (b.t + width ≤ until) × Buckets width until (b.t + width) bs

Buckets-weaken :
    {F : Type 0} (width until from later : ℕ) (bs : List (ClosedBar F))
    → from ≤ later
    → Buckets width until later bs
    → Buckets width until from bs
Buckets-weaken width until from later [] h k = k
Buckets-weaken width until from later (b ∷ bs) h (start, aligned, ended, k) =
    (omega arith, aligned, ended, k)

newest-le :
    {F : Type 0} (from : ℕ) (source : List (ClosedBar F))
    → InOrder from source
    → from ≤ newest from source
newest-le from [] h = omega arith
newest-le from (bar ∷ rest) (le, h) = let later = newest-le bar.t rest h in omega arith

bucket-le : (w t : ℕ) → bucket_start w t ≤ t
unfolding bucket_start
bucket-le w t = div-mul-le_self t w

bucket-aligned : (w t : ℕ) → bucket_start w t % w ≡ 0
unfolding bucket_start
bucket-aligned w t = mul-mod_left (t / w) w

if_some :
    {A : Type 0} (b : Bool) (x y : A)
    → (if b then none else some x) ≡ some y
    → (b ≡ false) × (x ≡ y)
if_some b x y h = ground (arith, h)

module _ {F : Type 0} ⦃num : Num F⦄ where
  aggregate-Buckets :
      (width p : ℕ) (source : List (ClosedBar F)) (bucket : ClosedBar F)
      → 0 < width
      → InOrder p source
      → bucket.t ≡ bucket_start width p
      → Buckets width
          (newest p source)
          (bucket_start width p)
          (aggregate width source (some bucket) (bucket_start width p))
  unfolding aggregate
  aggregate-Buckets width p [] bucket h order at = tt
  aggregate-Buckets width p (bar ∷ rest) bucket h (le, order) at =
      elim (Bool-cases (bucket_start width bar.t == bucket_start width p)) [
        | inl same ↦
            let here = (==_iff _ _).0 same in
            rw (same, aggregate)
              (rw (sym here)
                (aggregate-Buckets width bar.t rest (merged bucket bar) h order (at ∙ sym here)))
        | inr other ↦
            let apart : bucket_start width p ≢ bucket_start width bar.t = λ e.
              cc ((==_iff (bucket_start width bar.t) (bucket_start width p)).1 (sym e), other) in
            let step = bucket-next width p bar.t h le apart in
            let fits = bucket-le width bar.t in
            let late = newest-le bar.t rest order in
            rw (other, aggregate)
              (
                omega arith,
                rw at (bucket-aligned width p),
                omega arith,
                Buckets-weaken width _ _ _ _ (omega arith) (
                    aggregate-Buckets width bar.t rest (at_time (bucket_start width bar.t) bar) h
                      order refl),
              )
      ]

  aggregate-start :
      (width : ℕ) (source : List (ClosedBar F))
      → 0 < width
      → InOrder 0 source
      → Buckets width (newest 0 source) 0 (aggregate width source none 0)
  unfolding aggregate
  aggregate-start width [] h order = tt
  aggregate-start width (bar ∷ rest) h (le, order) =
      Buckets-weaken width _ _ _ _ (omega arith)
        (aggregate-Buckets width bar.t rest (at_time (bucket_start width bar.t) bar) h order refl)

  -- For bars whose times do not decrease, what is yielded are buckets of the interval: each starts at
  -- a multiple of the interval's width, the next starts after it has ended, and it had ended when the
  -- newest bar was received.
  pub aggregate_closed :
      (interval_minutes : ℕ) (source yielded : List (ClosedBar F))
      → InOrder 0 source
      → aggregate_closed_bars interval_minutes source ≡ some yielded
      → Buckets (interval_minutes * 60000) (newest 0 source) 0 yielded
  unfolding aggregate_closed_bars
  aggregate_closed interval_minutes source yielded order e =
      let (positive, same) = if_some (ltb interval_minutes 1) _ yielded e in
      let wide : 0 < interval_minutes * 60000 = ground (arith, positive) in
      subst (λ ys. Buckets (interval_minutes * 60000) (newest 0 source) 0 ys) same
        (aggregate-start (interval_minutes * 60000) source wide order)
