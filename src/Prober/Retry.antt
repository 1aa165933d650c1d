-- ===== src/Prober/Retry.antt =====
-- The verdicts and the retries of the probing loop (pkg/probers/probers.go).
use netping.Common.{
  ◌⊎◌, ℕ, zero, suc, ◌+◌, ◌≤◌, ◌<◌, Bool, true, false, ◌&&◌, ◌≡◌, refl, ap, if_cases, ◌∙◌, is_some,
  Duration, two63, Floats, ltb, arith,
}
use netping.Utils.{nano_to_millisecond, draw_if}
use netping.Prober.{
  ProbeResult, World, Prober, Attempt, Round, rounds, judge, retry_round, retry_loop, attempt,
}

module _ {F32 F64 W : Type 0} (fl : Floats F32 F64) (world : World F32 F64 W) where
  -- A verdict that agrees with the result it goes with: it says failure exactly if there is an
  -- error, and a success is within the latency limit, where there is one.
  pub record IsJudged (max_latency : F64) (a : Attempt F32) : Type 0 where
    pub verdict : a.is_failure ≡ is_some a.res.err
    pub measured : a.rtt_ms ≡ nano_to_millisecond fl a.res.rtt
    pub within :
        (a.is_failure ≡ true)
        ⊎ ((fl.lt64 fl.zero64 max_latency && fl.lt64 max_latency (fl.to64 a.rtt_ms)) ≡ false)

  judge-IsJudged :
      (max_latency : F64) (res : ProbeResult)
      → IsJudged max_latency (judge fl world max_latency res)
  unfolding judge
  judge-IsJudged max_latency res = ground arith

  -- The three ways in which a round of the loop goes on.
  retry_cases {κ} :
      (C : Attempt F32 × W → Type κ) (p : Prober F32 F64) (left n : ℕ) (last : Attempt F32) (w : W)
      → let r = retry_round fl world p n w in
        (r.is_cancelled ≡ true → C (last, r.slept))
        → (r.is_cancelled ≡ false
            → r.next.is_failure ≡ true
            → C (retry_loop fl world p left (n + 1) r.next r.pinged))
        → (r.is_cancelled ≡ false → r.next.is_failure ≡ false → C (r.next, r.pinged))
        → C (retry_loop fl world p (suc left) n last w)
  unfolding retry_loop
  retry_cases C p left n last w cut again done =
      if_cases C (retry_round fl world p n w).is_cancelled cut
        (λ c. if_cases C (retry_round fl world p n w).next.is_failure (again c) (done c))

  first-IsJudged :
      (p : Prober F32 F64) (w : W)
      → IsJudged p.opts.max_latency (judge fl world p.opts.max_latency (world.ping p.timeout w).0)
  first-IsJudged p w = judge-IsJudged p.opts.max_latency (world.ping p.timeout w).0

  next-IsJudged :
      (p : Prober F32 F64) (n : ℕ) (w : W)
      → IsJudged p.opts.max_latency (retry_round fl world p n w).next
  unfolding retry_round
  next-IsJudged p n w = judge-IsJudged p.opts.max_latency _

  retry_loop-IsJudged :
      (p : Prober F32 F64) (left n : ℕ) (last : Attempt F32) (w : W)
      → IsJudged p.opts.max_latency last
      → IsJudged p.opts.max_latency (retry_loop fl world p left n last w).0
  retry_loop-IsJudged p zero n last w h = unfold retry_loop in h
  retry_loop-IsJudged p (suc left) n last w h =
      retry_cases (λ r. IsJudged p.opts.max_latency r.0) p left n last w (λ c. h)
        (λ c f. retry_loop-IsJudged p left (n + 1) _ _ (next-IsJudged p n w))
        (λ c f. next-IsJudged p n w)

  -- The attempt that a tick makes, retries included, has a verdict that agrees with its result: it
  -- counts as a failure exactly if its result carries an error, its latency is that of its result,
  -- and a success is not above the latency limit, where a limit is set.
  pub attempt-IsJudged :
      (p : Prober F32 F64) (w : W) → IsJudged p.opts.max_latency (attempt fl world p w).0
  unfolding attempt
  attempt-IsJudged p w =
      if_cases {A = Attempt F32 × W} (λ r. IsJudged p.opts.max_latency r.0)
        ((judge fl world p.opts.max_latency (world.ping p.timeout w).0).is_failure
          && ltb 0 p.opts.retries)
        (λ c. retry_loop-IsJudged p (rounds p.opts.retries) 0 _ _ (first-IsJudged p w))
        (λ c. first-IsJudged p w)

  module _ (pings : W → ℕ)
      (ping_counts : (d : Duration) (w : W) → pings (world.ping d w).1 ≡ pings w + 1)
      (sleep_keeps : (d : Duration) (w : W) → pings (world.sleep d w).1 ≡ pings w)
      (draw_keeps : (w : W) → pings (world.draw w).1 ≡ pings w) where
    drawn_pings : (jitter : Bool) (w : W) → pings (draw_if jitter world.draw w).1 ≡ pings w
    drawn_pings true w = draw_keeps w
    drawn_pings false w = refl

    slept_pings :
        (p : Prober F32 F64) (n : ℕ) (w : W) → pings (retry_round fl world p n w).slept ≡ pings w
    unfolding retry_round
    slept_pings p n w = sleep_keeps _ _ ∙ drawn_pings p.opts.retry_jitter w

    pinged_pings :
        (p : Prober F32 F64) (n : ℕ) (w : W)
        → pings (retry_round fl world p n w).pinged ≡ pings w + 1
    unfolding retry_round
    pinged_pings p n w =
        ping_counts _ _ ∙ ap (λ k. k + 1) (sleep_keeps _ _ ∙ drawn_pings p.opts.retry_jitter w)

    -- Within the rounds, and all of them used where no sleep is cut short and the last ping failed.
    abbrev Spent : Prober F32 F64 → ℕ → W → Attempt F32 × W → Type 0
    Spent p left w r =
        (pings w ≤ pings r.1)
        × (pings r.1 ≤ pings w + left)
        × (((d : Duration) (v : W) → (world.sleep d v).0 ≡ false)
            → r.0.is_failure ≡ true
            → pings r.1 ≡ pings w + left)

    not_cancelled :
        (p : Prober F32 F64) (n : ℕ) (w : W)
        → ((d : Duration) (v : W) → (world.sleep d v).0 ≡ false)
        → (retry_round fl world p n w).is_cancelled ≡ false
    unfolding retry_round
    not_cancelled p n w c = c _ _

    retry_loop-Spent :
        (p : Prober F32 F64) (left n : ℕ) (last : Attempt F32) (w : W)
        → Spent p left w (retry_loop fl world p left n last w)
    retry_loop-Spent p zero n last w =
        unfold retry_loop in (omega arith, omega arith, λ c f. omega arith)
    retry_loop-Spent p (suc left) n last w =
        retry_cases (Spent p (suc left) w) p left n last w
          (λ cut. (
            omega (arith, slept_pings p n w),
            omega (arith, slept_pings p n w),
            λ c f. absurd (clash cut (not_cancelled p n w c)),
          ))
          (λ c f.
            more (retry_loop fl world p left (n + 1) r.next r.pinged)
              (retry_loop-Spent p left (n + 1) r.next r.pinged) (pinged_pings p n w))
          (λ c f. (
            omega (arith, pinged_pings p n w),
            omega (arith, pinged_pings p n w),
            λ _ g. absurd (clash g f),
          ))
      where
        r : Round F32 W
        r = retry_round fl world p n w

        clash : {b : Bool} → b ≡ true → b ≡ false → ⊥
        clash e f = cc

        more :
            {v : W} (r : Attempt F32 × W)
            → Spent p left v r
            → pings v ≡ pings w + 1
            → Spent p (suc left) w r
        more r h e = (omega arith, omega arith, λ c f. omega (arith, h.2 c f))

    abbrev AttemptSpent : Prober F32 F64 → W → Attempt F32 × W → Type 0
    AttemptSpent p w r =
        (pings w < pings r.1)
        × (pings r.1 ≤ pings w + 1 + p.opts.retries)
        × (((d : Duration) (v : W) → (world.sleep d v).0 ≡ false)
            → r.0.is_failure ≡ true
            → pings r.1 ≡ pings w + 1 + p.opts.retries)

    rounds_lem : (n : ℕ) → n < two63 → rounds n ≡ n
    rounds_lem n h = ground arith

    attempt-Spent :
        (p : Prober F32 F64) (w : W)
        → p.opts.retries < two63
        → AttemptSpent p w (attempt fl world p w)
    unfolding attempt
    attempt-Spent p w h =
        if_cases {A = Attempt F32 × W} (AttemptSpent p w) (first.is_failure && ltb 0 p.opts.retries)
          (λ c.
            with_retries (retry_loop fl world p (rounds p.opts.retries) 0 first w')
              (retry_loop-Spent p (rounds p.opts.retries) 0 first w'))
          (λ c. (
            omega (arith, ping_counts p.timeout w),
            omega (arith, ping_counts p.timeout w),
            λ _ f. no_retries c f,
          ))
      where
        w' : W
        w' = (world.ping p.timeout w).1

        first : Attempt F32
        first = judge fl world p.opts.max_latency (world.ping p.timeout w).0

        with_retries :
            (r : Attempt F32 × W)
            → Spent p (rounds p.opts.retries) (world.ping p.timeout w).1 r
            → AttemptSpent p w r
        with_retries r s = (
          omega (arith, ping_counts p.timeout w),
          omega (arith, rounds_lem p.opts.retries h, ping_counts p.timeout w),
          λ c f. omega (arith, s.2 c f, rounds_lem p.opts.retries h, ping_counts p.timeout w),
        )

        no_retries :
            (first.is_failure && ltb 0 p.opts.retries) ≡ false
            → first.is_failure ≡ true
            → pings (world.ping p.timeout w).1 ≡ pings w + 1 + p.opts.retries
        no_retries c f = ground (arith, ping_counts p.timeout w)

    -- With a count of the pings that a ping raises by one, and that sleeping and drawing random
    -- numbers leave alone: an attempt makes at least one ping and at most one more than the number
    -- of retries that is configured (below 2^63).
    pub attempt_pings :
        (p : Prober F32 F64) (w : W)
        → p.opts.retries < two63
        → let r = attempt fl world p w in
          (pings w < pings r.1) × (pings r.1 ≤ pings w + 1 + p.opts.retries)
    attempt_pings p w h = let s = attempt-Spent p w h in (s.0, s.1)

    -- With a count of the pings that a ping raises by one, and that sleeping and drawing random
    -- numbers leave alone: an attempt that ends in failure, where no sleep is ever cut short by a
    -- cancelled context, has made all of its pings, one more than the number of retries (which is
    -- below 2^63).
    pub attempt_pings_used_up :
        (p : Prober F32 F64) (w : W)
        → p.opts.retries < two63
        → ((d : Duration) (v : W) → (world.sleep d v).0 ≡ false)
        → (attempt fl world p w).0.is_failure ≡ true
        → pings (attempt fl world p w).1 ≡ pings w + 1 + p.opts.retries
    attempt_pings_used_up p w h uncut f = (attempt-Spent p w h).2 uncut f
