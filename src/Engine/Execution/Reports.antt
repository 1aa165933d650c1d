-- ===== src/Engine/Execution/Reports.antt =====
-- What the response to a trigger request reports (pkg/engine/dynamic.go).
use mathlib.Core.List.{map-append}
use netping.Common.{
  ℕ, zero, suc, ◌+◌, ◌%◌, ◌<◌, ◌≡◌, refl, sym, subst, ap, ◌∙◌, ◌⊎◌, inl, inr, not, ltb, some, List,
  [], ◌∷◌, ◌++◌, map, Time, Floats, is_some, two64, inc, length, arith, if_cases, if◌then◌else◌,
}
use netping.Stats.{Statistics, record_success, snapshot}
use netping.Utils.{classify_error}
use netping.Engine.Responses.{SingleProbeItem, TriggerResponse}
use netping.Engine.Plans.{Texts, Plan}
use netping.Engine.Execution.{
  Outside, Verdict, Run, rtt_millis, fail_trigger, succeed_trigger, item_of, event_of,
}
use netping.Engine.Execution.Loop.{account, one_probe, probe_loop, start, respond, execute_plan}
use netping.Engine.Execution.Items.{
  one_to, hits, misses, hits-append, misses-append, newest, newest-append, of_event, of_item,
  next_events,
}
use netping.Engine.Execution.Verdicts.{IsAgreed, trigger_attempt-IsAgreed}

module _ {F32 F64 : Type 0} (fl : Floats F32 F64) where
  -- The locals after a probe, against its item.
  pub record Reflects (run : Run F32 F64) (i : SingleProbeItem F64) : Type 0 where
    pub newest : newest run.items ≡ some i
    pub success : i.success ≡ not (is_some run.last_res.err)
    pub latency : i.rtt_ms ≡ rtt_millis fl run.last_res
    pub error : i.error ≡ run.last_error
    pub code : i.error_code ≡ run.last_code

  -- The locals after `n` probes that started with the statistics `s`.
  pub record IsReport (plan : Plan F64) (s : Statistics F32 F64) (n : ℕ) (run : Run F32 F64)
      : Type 0 where
    pub numbered : map (λ i. i.sequence) run.items ≡ one_to n
    pub succeeded :
        run.stat.total_successful_probes ≡ (s.total_successful_probes + hits run.items) % two64
    pub failed :
        run.stat.total_unsuccessful_probes
        ≡ (s.total_unsuccessful_probes + misses run.items) % two64
    pub reflects : (n ≡ 0) ⊎ ((i : SingleProbeItem F64) × Reflects run i)
    pub events : map of_event run.events ≡ (if plan.is_broadcast then map of_item run.items else [])

module _ {F32 F64 : Type 0} (fl : Floats F32 F64) where
  -- The response after the probes, against the locals: it is about the last probe, counts all probes
  -- of the statistics, and lists the probes where there are several.
  pub record IsResponse (run : Run F32 F64) (response : TriggerResponse F64) : Type 0 where
    pub item : SingleProbeItem F64
    pub last : newest run.items ≡ some item
    pub success : response.success ≡ item.success
    pub latency : response.rtt_ms ≡ item.rtt_ms
    pub error : response.error ≡ item.error
    pub code : response.error_code ≡ item.error_code
    pub total_success : response.total_success ≡ run.stat.total_successful_probes
    pub total_failed : response.total_failed ≡ run.stat.total_unsuccessful_probes
    pub probes : response.probes ≡ (if ltb 1 (length run.items) then run.items else [])

module _ {F32 F64 : Type 0} (fl : Floats F32 F64) (texts : Texts F64) where
  respond-IsResponse :
      (plan : Plan F64) (later now : Time) (run : Run F32 F64) (i : SingleProbeItem F64)
      → Reflects fl run i
      → IsResponse fl run (respond fl texts plan later now run)
  unfolding respond snapshot
  respond-IsResponse plan later now run i h = record {
    item = i;
    last = h.newest;
    success = sym h.success;
    latency = sym h.latency;
    error = sym h.error;
    code = sym h.code;
    total_success = refl;
    total_failed = refl;
    probes = refl;
  }

  won :
      (now : Time) (v : Verdict F64) (s : Statistics F32 F64)
      → ((succeed_trigger fl now v s).total_successful_probes ≡ inc s.total_successful_probes)
        × ((succeed_trigger fl now v s).total_unsuccessful_probes ≡ s.total_unsuccessful_probes)
  unfolding succeed_trigger record_success
  won now v s = ground arith

  account-Reflects :
      (plan : Plan F64) (n : ℕ) (v : Verdict F64) (now later : Time) (run : Run F32 F64)
      → IsAgreed fl v
      → Reflects fl (account fl texts plan n v now later run) (item_of fl texts n now v)
  unfolding account item_of
  account-Reflects plan n v now later run a = record {
    newest = newest-append run.items _;
    success = ap not a.verdict;
    latency = a.measured;
    error = refl;
    code = refl;
  }

  counted :
      (now : Time) (v : Verdict F64) (s : Statistics F32 F64)
      → let t =
          if v.is_failure
          then fail_trigger now (classify_error v.res.err) s
          else succeed_trigger fl now v s in
        (t.total_successful_probes
          ≡ (if v.is_failure then s.total_successful_probes else inc s.total_successful_probes))
        × (t.total_unsuccessful_probes ≡ (
            if v.is_failure then inc s.total_unsuccessful_probes else s.total_unsuccessful_probes))
  unfolding fail_trigger
  counted now v s = ground (arith, won now v s)

  next_hits :
      (a b n : ℕ) (now : Time) (v : Verdict F64) (is : List (SingleProbeItem F64))
      → b ≡ (a + hits is) % two64
      → (if v.is_failure then b else inc b)
        ≡ (a + hits (is ++ item_of fl texts n now v ∷ [])) % two64
  unfolding item_of inc
  next_hits a b n now v is h = ground (arith, hits-append is (item_of fl texts n now v))

  next_misses :
      (a b n : ℕ) (now : Time) (v : Verdict F64) (is : List (SingleProbeItem F64))
      → b ≡ (a + misses is) % two64
      → (if v.is_failure then inc b else b)
        ≡ (a + misses (is ++ item_of fl texts n now v ∷ [])) % two64
  unfolding item_of inc
  next_misses a b n now v is h = ground (arith, misses-append is (item_of fl texts n now v))

  account-IsReport :
      (plan : Plan F64) (s : Statistics F32 F64) (n : ℕ) (v : Verdict F64) (now later : Time)
      (run : Run F32 F64)
      → IsAgreed fl v
      → IsReport fl plan s n run
      → IsReport fl plan s (suc n) (account fl texts plan (suc n) v now later run)
  unfolding account
  account-IsReport plan s n v now later run a h = record {
    numbered =
        map-append (λ i. i.sequence) run.items (item_of fl texts (suc n) now v ∷ [])
        ∙ unfold item_of in ap (λ is. is ++ suc n ∷ []) h.numbered;
    succeeded =
        (counted now v run.stat).0
        ∙ next_hits s.total_successful_probes run.stat.total_successful_probes (suc n) now v
            run.items h.succeeded;
    failed =
        (counted now v run.stat).1
        ∙ next_misses s.total_unsuccessful_probes run.stat.total_unsuccessful_probes (suc n) now v
            run.items h.failed;
    reflects =
        inr (item_of fl texts (suc n) now v, account-Reflects plan (suc n) v now later run a);
    events =
        next_events plan.is_broadcast _ (item_of fl texts (suc n) now v) run.events run.items
          (unfold item_of event_of in refl) h.events;
  }

module _ {F32 F64 : Type 0} (fl : Floats F32 F64) (texts : Texts F64) where
  responded :
      (plan : Plan F64) (s : Statistics F32 F64) (n : ℕ) (later now : Time) (run : Run F32 F64)
      → 0 < n
      → IsReport fl plan s n run
      → IsReport fl plan s n run × IsResponse fl run (respond fl texts plan later now run)
  responded plan s n later now run some_probe h = (h, reflected h.reflects)
    where
      reflected :
          (n ≡ 0) ⊎ ((i : SingleProbeItem F64) × Reflects fl run i)
          → IsResponse fl run (respond fl texts plan later now run)
      reflected (inl e) = absurd (omega arith)
      reflected (inr (i, r)) = respond-IsResponse fl texts plan later now run i r

module _ {F32 F64 W : Type 0} (fl : Floats F32 F64) (texts : Texts F64) (world : Outside W) where
  one_probe-IsReport :
      (plan : Plan F64) (s : Statistics F32 F64) (n : ℕ) (run : Run F32 F64) (w : W)
      → IsReport fl plan s n run
      → IsReport fl plan s (suc n) (one_probe fl texts world plan (suc n) run w).0
  unfolding one_probe
  one_probe-IsReport plan s n run w h =
      account-IsReport fl texts plan s n _ _ _ run (trigger_attempt-IsAgreed fl texts world plan _)
        h

  probe_loop-IsReport :
      (plan : Plan F64) (s : Statistics F32 F64) (left n : ℕ) (run : Run F32 F64) (w : W)
      → IsReport fl plan s n run
      → IsReport fl plan s (n + left) (probe_loop fl texts world plan left (suc n) run w).0
  unfolding probe_loop
  probe_loop-IsReport plan s zero n run w h = let e : n + 0 ≡ n = omega arith in rw e h
  probe_loop-IsReport plan s (suc left) n run w h =
      let e : n + suc left ≡ suc n + left = omega arith in
      let f : suc n + 1 ≡ suc (suc n) = omega arith in
      let (r, w') = one_probe fl texts world plan (suc n) run w in
      rw e (
        subst
          (λ k. IsReport fl plan s (suc n + left) (probe_loop fl texts world plan left k r w').0)
          (sym f)
          (probe_loop-IsReport plan s left (suc n) r w' (one_probe-IsReport plan s n run w h)))

  start-IsReport :
      (plan : Plan F64) (s : Statistics F32 F64)
      → s.total_successful_probes < two64
      → s.total_unsuccessful_probes < two64
      → IsReport fl plan s 0 (start s)
  start-IsReport plan s a b = record {
    numbered = refl;
    succeeded = omega arith;
    failed = omega arith;
    reflects = inl refl;
    events = if_cases (λ es. [] ≡ es) plan.is_broadcast (λ e. refl) (λ e. refl);
  }

  -- The execution of a request that makes `n` probes (at least one), on statistics whose totals are
  -- those of 64-bit counters, whatever the pings answer: the items are numbered 1 to n; the totals
  -- of the statistics have grown by the numbers of successful and of failed items, modulo 2^64; one
  -- event for each item, with its verdict, latency and error class, goes to the broadcaster if the
  -- request asks for it, and none otherwise; and the response has the verdict, the latency and the
  -- error of the last item, the totals of the statistics, and the items if there are several.
  pub execute_plan-IsReport :
      (plan : Plan F64) (s : Statistics F32 F64) (w : W)
      → 0 < plan.count
      → s.total_successful_probes < two64
      → s.total_unsuccessful_probes < two64
      → let r = (execute_plan fl texts world plan s w).0 in
        IsReport fl plan s plan.count r.0 × IsResponse fl r.0 r.1
  unfolding execute_plan
  execute_plan-IsReport plan s w some_probe a b =
      let e : 0 + plan.count ≡ plan.count = omega arith in
      let (run, w1) = probe_loop fl texts world plan plan.count 1 (start s) w in
      responded fl texts plan s plan.count _ _ run some_probe (
        subst (λ n. IsReport fl plan s n run) e
          (probe_loop-IsReport plan s plan.count 0 (start s) w (start-IsReport plan s a b)))
