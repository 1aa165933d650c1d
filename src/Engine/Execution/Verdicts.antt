-- ===== src/Engine/Execution/Verdicts.antt =====
-- The verdicts on the pings of a trigger request, and their retries (pkg/engine/dynamic.go).
use netping.Common.{
  ℕ, zero, suc, ◌+◌, ◌≡◌, refl, codes, contains, has_prefix, Bool, true, false, not, ◌&&◌, ltb,
  none, Floats, is_some, arith, ◌⊎◌, if_cases, if◌then◌else◌, inl, inr,
}
use netping.Prober.{ProbeResult, rounds}
use netping.Engine.Plans.{Texts, Plan}
use netping.Engine.Execution.{Outside, Verdict, rtt_millis, sla_text, judge_trigger}
use netping.Engine.Execution.Loop.{trigger_round, trigger_retries, may_retry, trigger_attempt}

module _ {F32 F64 : Type 0} (fl : Floats F32 F64) where
  -- A verdict that agrees with its result: it says failure exactly if there is an error, and its
  -- latency is that of the result.
  pub record IsAgreed (v : Verdict F64) : Type 0 where
    pub verdict : v.is_failure ≡ is_some v.res.err
    pub measured : v.rtt_ms ≡ rtt_millis fl v.res

module _ {F32 F64 W : Type 0} (fl : Floats F32 F64) (texts : Texts F64) (world : Outside W) where
  judge_trigger-IsAgreed :
      (limit : F64) (res : ProbeResult) → IsAgreed fl (judge_trigger fl texts limit res)
  unfolding judge_trigger
  judge_trigger-IsAgreed limit res = ground arith

  contains-sla_text :
      (rtt limit : F64) → contains (codes "SLA threshold") (sla_text fl texts rtt limit) ≡ true
  unfolding contains has_prefix sla_text
  contains-sla_text rtt limit = refl

  trigger_retries-IsAgreed :
      (plan : Plan F64) (left n : ℕ) (last : Verdict F64) (w : W)
      → IsAgreed fl last
      → IsAgreed fl (trigger_retries fl texts world plan left n last w).0
  unfolding trigger_retries trigger_round
  trigger_retries-IsAgreed plan zero n last w h = h
  trigger_retries-IsAgreed plan (suc left) n last w h =
      if_cases {A = Verdict F64 × W} (λ r. IsAgreed fl r.0)
        (trigger_round fl texts world plan n w).is_cancelled (λ c. h)
        (λ c.
          if_cases {A = Verdict F64 × W} (λ r. IsAgreed fl r.0)
            (trigger_round fl texts world plan n w).next.is_failure
            (λ f. trigger_retries-IsAgreed plan left (n + 1) _ _ (judge_trigger-IsAgreed _ _))
            (λ f. judge_trigger-IsAgreed _ _))

  either :
      (b : Bool) (x y : Verdict F64 × W)
      → IsAgreed fl x.0
      → IsAgreed fl y.0
      → IsAgreed fl (if b then x else y).0
  either true x y h k = h
  either false x y h k = k

  pub trigger_attempt-IsAgreed :
      (plan : Plan F64) (w : W) → IsAgreed fl (trigger_attempt fl texts world plan w).0
  unfolding trigger_attempt
  trigger_attempt-IsAgreed plan w =
      let (res, w1) = world.ping plan.timeout w in
      let first = judge_trigger fl texts plan.max_latency_ms res in
      either (first.is_failure && ltb 0 plan.retries && may_retry first.res.err)
        (trigger_retries fl texts world plan (rounds plan.retries) 0 first w1) (first, w1)
        (trigger_retries-IsAgreed plan (rounds plan.retries) 0 first w1
          (judge_trigger-IsAgreed plan.max_latency_ms res))
        (judge_trigger-IsAgreed plan.max_latency_ms res)

  no_retry :
      (limit : F64) (res : ProbeResult)
      → res.err ≡ none
      → let v = judge_trigger fl texts limit res in
        (v.is_failure ≡ false) ⊎ (may_retry v.res.err ≡ false)
  unfolding judge_trigger
  no_retry limit res h =
      if_cases {A = Verdict F64} (λ v. (v.is_failure ≡ false) ⊎ (may_retry v.res.err ≡ false))
        (not (is_some res.err) && fl.lt64 fl.zero64 limit && fl.le64 limit (rtt_millis fl res))
        (λ c. inr (rw (contains-sla_text (rtt_millis fl res) limit) refl)) (λ c. inl (rw h refl))

  -- A first ping that is answered is not repeated, also if its latency breaches the limit: where the
  -- first ping of a probe has no error, its verdict is that of the probe, and the outside is left as
  -- the ping left it.
  pub trigger_attempt_answered :
      (plan : Plan F64) (w : W)
      → (world.ping plan.timeout w).0.err ≡ none
      → trigger_attempt fl texts world plan w ≡ (
        judge_trigger fl texts plan.max_latency_ms (world.ping plan.timeout w).0,
        (world.ping plan.timeout w).1,
      )
  unfolding trigger_attempt
  trigger_attempt_answered plan w h =
      ground (arith, no_retry plan.max_latency_ms (world.ping plan.timeout w).0 h)
