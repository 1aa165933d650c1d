-- ===== src/Stats/Window.antt =====
-- The sample window of pkg/stats: `RTT` keeps the newest 5000 round-trip times.
use netping.Common.{
  ◌≡◌, refl, sym, Str, ◌∙◌, inl, inr, List, [], ◌∷◌, ◌++◌, ltb, Bool-cases, Time, Floats, length,
  last, arith, last-append-last, last_all,
}
use netping.Stats.{
  Statistics, Options, clip, max_samples, new_statistics, record_success, record_failure,
}
use netping.Stats.Replay.{Outcome, success, failure, samples, replay, history}

clip_lem {ℓ} : {A : Type ℓ} (xs : List A) → clip xs ≡ last max_samples xs
clip_lem xs = elim (Bool-cases (ltb max_samples (length xs))) [
  | inl more ↦ rw more
  | inr few ↦ rw few (sym (last_all max_samples xs (ground arith)))
]

module _ {F32 F64 : Type 0} (fl : Floats F32 F64) where
  rtt-record_success :
      (r : F32) (t : Time) (s : Statistics F32 F64)
      → (record_success fl r t s).rtt ≡ clip (s.rtt ++ r ∷ [])
  unfolding record_success
  rtt-record_success r t s = ground arith

  rtt-record_failure :
      (e : Str) (t : Time) (s : Statistics F32 F64) → (record_failure fl e t s).rtt ≡ s.rtt
  unfolding record_failure
  rtt-record_failure e t s = refl

  rtt-new_statistics : (now : Time) (opts : Options) → (new_statistics fl now opts).rtt ≡ []
  unfolding new_statistics
  rtt-new_statistics now opts = refl

module _ {F32 F64 : Type 0} (fl : Floats F32 F64) (now : Time) (opts : Options) where
  -- After any history the samples kept are the newest 5000 round-trip times of all those that were
  -- recorded, in the order in which they were recorded (all of them, while there are no more).
  pub rtt-history :
      (os : List (Outcome F32)) → (history fl now opts os).rtt ≡ last max_samples (samples os)
  unfolding replay
  rtt-history [] = rtt-new_statistics fl now opts
  rtt-history (success r t ∷ os) =
      rw (rtt-record_success fl r t (history fl now opts os), rtt-history os)
        (clip_lem (last max_samples (samples os) ++ r ∷ [])
          ∙ last-append-last max_samples (samples os) (r ∷ []))
  rtt-history (failure e t ∷ os) =
      rtt-record_failure fl e t (history fl now opts os) ∙ rtt-history os
