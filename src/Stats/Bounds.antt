-- ===== src/Stats/Bounds.antt =====
-- The extremes of pkg/stats: `MinRTT` and `MaxRTT` against all the samples of a history.
use mathlib.Core.List.{Memᴰ}
use netping.Common.{
  ◌⊎◌, ap, zero, if◌then◌else◌, ℕ, suc, ◌<◌, Str, ◌≡◌, refl, sym, ap, ◌∙◌, Bool, true, false,
  Bool-cases, ◌⊎◌, inl, inr, List, [], ◌∷◌, ◌++◌, Time, two64, inc, Floats, IsOrder, All,
  All-append, All-map, arith, if◌then◌else◌,
}
use netping.Stats.{Statistics, Options, new_statistics, record_success, record_failure}
use netping.Stats.Replay.{Outcome, success, failure, successes, samples, replay, history}

Memᴰ-append_left {ℓ} :
    {A : Type ℓ} {a : A} (ys : List A) {xs : List A} → Memᴰ a xs → Memᴰ a (xs ++ ys)
Memᴰ-append_left ys (Memᴰ.head e) = Memᴰ.head e
Memᴰ-append_left ys (Memᴰ.tail m) = Memᴰ.tail (Memᴰ-append_left ys m)

Memᴰ-append_last {ℓ} : {A : Type ℓ} (a : A) (xs : List A) → Memᴰ a (xs ++ a ∷ [])
Memᴰ-append_last a [] = Memᴰ.head refl
Memᴰ-append_last a (x ∷ xs) = Memᴰ.tail (Memᴰ-append_last a xs)

module _ {F32 : Type 0} (lt : F32 → F32 → Bool) where
  -- No sample is below `lo`, none is above `hi`, and both are samples.
  pub record AreExtremes (lo hi : F32) (xs : List F32) : Type 0 where
    pub within : All (λ x. (lt x lo ≡ false) × (lt hi x ≡ false)) xs
    pub lo_taken : Memᴰ lo xs
    pub hi_taken : Memᴰ hi xs

  module _ (order : IsOrder lt) where
    single : (r : F32) → AreExtremes r r (r ∷ [])
    single r = record {
      within = ((order.irrefl r, order.irrefl r), tt);
      lo_taken = Memᴰ.head refl;
      hi_taken = Memᴰ.head refl;
    }

    lower : (lo r x : F32) → lt x lo ≡ false → lt x (if lt r lo then r else lo) ≡ false
    lower lo r x h = ground (arith, order.trans x r lo)

    raise : (hi r x : F32) → lt hi x ≡ false → lt (if lt hi r then r else hi) x ≡ false
    raise hi r x h = ground (arith, order.trans hi r x)

    extend :
        (lo hi r : F32) (xs : List F32)
        → AreExtremes lo hi xs
        → AreExtremes (if lt r lo then r else lo) (if lt hi r then r else hi) (xs ++ r ∷ [])
    extend lo hi r xs h = record {
      within =
          All-append InRange xs (r ∷ [])
            (All-map (λ x. (lt x lo ≡ false) × (lt hi x ≡ false)) InRange
              (λ x p. (lower lo r x p.0, raise hi r x p.1)) xs h.within)
            ((lower_self (Bool-cases (lt r lo)), raise_self (Bool-cases (lt hi r))), tt);
      lo_taken = taken_lo (Bool-cases (lt r lo));
      hi_taken = taken_hi (Bool-cases (lt hi r));
    }
      where
        InRange : F32 → Type 0
        InRange x =
            (lt x (if lt r lo then r else lo) ≡ false) × (lt (if lt hi r then r else hi) x ≡ false)

        lower_self : (lt r lo ≡ true) ⊎ (lt r lo ≡ false) → lt r (if lt r lo then r else lo) ≡ false
        lower_self (inl e) = rw e (order.irrefl r)
        lower_self (inr e) = rw e e

        raise_self : (lt hi r ≡ true) ⊎ (lt hi r ≡ false) → lt (if lt hi r then r else hi) r ≡ false
        raise_self (inl e) = rw e (order.irrefl r)
        raise_self (inr e) = rw e e

        taken_lo :
            (lt r lo ≡ true) ⊎ (lt r lo ≡ false) → Memᴰ (if lt r lo then r else lo) (xs ++ r ∷ [])
        taken_lo (inl e) = rw e (Memᴰ-append_last r xs)
        taken_lo (inr e) = rw e (Memᴰ-append_left (r ∷ []) h.lo_taken)

        taken_hi :
            (lt hi r ≡ true) ⊎ (lt hi r ≡ false) → Memᴰ (if lt hi r then r else hi) (xs ++ r ∷ [])
        taken_hi (inl e) = rw e (Memᴰ-append_last r xs)
        taken_hi (inr e) = rw e (Memᴰ-append_left (r ∷ []) h.hi_taken)

samples_none : {F32 : Type 0} (os : List (Outcome F32)) → successes os ≡ 0 → samples os ≡ []
samples_none [] h = refl
samples_none (success r t ∷ os) h = absurd (omega arith)
samples_none (failure e t ∷ os) h = samples_none os h

module _ {F32 F64 : Type 0} (fl : Floats F32 F64) (order : IsOrder fl.lt32) where
  -- The extremes that the record holds, once there is a sample.
  pub record HasExtremes (os : List (Outcome F32)) (s : Statistics F32 F64) : Type 0 where
    pub counted : s.count_rtt ≡ successes os
    pub extreme : (successes os ≡ 0) ⊎ AreExtremes fl.lt32 s.min_rtt s.max_rtt (samples os)

  first_fields :
      (r : F32) (t : Time) (s : Statistics F32 F64)
      → s.count_rtt ≡ 0
      → let s' = record_success fl r t s in (s'.count_rtt ≡ 1) × (s'.min_rtt ≡ r) × (s'.max_rtt ≡ r)
  unfolding record_success
  first_fields r t s c = ground arith

  later_fields :
      (r : F32) (t : Time) (s : Statistics F32 F64) {n : ℕ}
      → s.count_rtt ≡ suc n
      → let s' = record_success fl r t s in
        (s'.count_rtt ≡ inc (suc n))
        × (s'.min_rtt ≡ (if fl.lt32 r s.min_rtt then r else s.min_rtt))
        × (s'.max_rtt ≡ (if fl.lt32 s.max_rtt r then r else s.max_rtt))
  unfolding record_success
  later_fields r t s c = ground arith

  first_success :
      (r : F32) (t : Time) (s : Statistics F32 F64) (os : List (Outcome F32))
      → s.count_rtt ≡ 0
      → successes os ≡ 0
      → HasExtremes (success r t ∷ os) (record_success fl r t s)
  first_success r t s os c z =
      let f = first_fields r t s c in
      record {
        counted = f.0 ∙ ap suc (sym z);
        extreme = inr (rw (f.1, f.2, samples_none os z) (single fl.lt32 order r));
      }

  later_success :
      (r : F32) (t : Time) (s : Statistics F32 F64) (os : List (Outcome F32)) (n : ℕ)
      → s.count_rtt ≡ suc n
      → suc (suc n) < two64
      → successes os ≡ suc n
      → AreExtremes fl.lt32 s.min_rtt s.max_rtt (samples os)
      → HasExtremes (success r t ∷ os) (record_success fl r t s)
  unfolding inc
  later_success r t s os n c bound z h =
      let f = later_fields r t s c in
      record {
        counted = f.0 ∙ omega arith;
        extreme = inr (rw (f.1, f.2) (extend fl.lt32 order s.min_rtt s.max_rtt r (samples os) h));
      }

  kept_by_failure :
      (e : Str) (t : Time) (s : Statistics F32 F64) (os : List (Outcome F32))
      → HasExtremes os s
      → HasExtremes (failure e t ∷ os) (record_failure fl e t s)
  unfolding record_failure
  kept_by_failure e t s os h = record { counted = h.counted; extreme = h.extreme }

  kept_by_success :
      (r : F32) (t : Time) (s : Statistics F32 F64) (os : List (Outcome F32))
      → suc (successes os) < two64
      → HasExtremes os s
      → HasExtremes (success r t ∷ os) (record_success fl r t s)
  kept_by_success r t s os bound h = go (successes os) refl h.extreme
    where
      go :
          (n : ℕ)
          → successes os ≡ n
          → (successes os ≡ 0) ⊎ AreExtremes fl.lt32 s.min_rtt s.max_rtt (samples os)
          → HasExtremes (success r t ∷ os) (record_success fl r t s)
      go zero e x = first_success r t s os (h.counted ∙ e) e
      go (suc n) e (inl z) = absurd (omega arith)
      go (suc n) e (inr x) = later_success r t s os n (h.counted ∙ e) (omega arith) e x

  -- Where `<` on float32 is irreflexive and transitive: after any history of fewer than 2^64
  -- successes that starts from new statistics, `CountRTT` is their number and, once there is
  -- one, `MinRTT` and `MaxRTT` are the extremes of all the round-trip times that were recorded,
  -- those that have left the window included: none is below the one or above the other, and each
  -- of the two is one of them.
  pub history-HasExtremes :
      (now : Time) (opts : Options) (os : List (Outcome F32))
      → successes os < two64
      → HasExtremes os (history fl now opts os)
  unfolding replay
  history-HasExtremes now opts [] bound = record {
    counted = unfold new_statistics in refl;
    extreme = inl refl;
  }
  history-HasExtremes now opts (success r t ∷ os) bound =
      kept_by_success r t (history fl now opts os) os bound
        (history-HasExtremes now opts os (omega arith))
  history-HasExtremes now opts (failure e t ∷ os) bound =
      kept_by_failure e t (history fl now opts os) os (history-HasExtremes now opts os bound)
