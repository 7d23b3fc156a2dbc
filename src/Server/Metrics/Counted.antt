-- ===== src/Server/Metrics/Counted.antt =====
-- The metrics of the chats count what has happened, however the chats interleave.
use tfai_go.Base.{◌≡◌, ◌∙◌, refl, ap, ◌+◌, List, ◌∷◌, ◌++◌, length, length-append, arith}
use tfai_go.Server.Chat.{Outcome}
use tfai_go.Server.Metrics.{
  outcome_label, new_chat_metrics, Phase, streaming, counted, observed, Chats, count_request,
  observe_duration, leave, Step, begins, counts, observes, leaves, panics, Reach, here, next,
}
use tfai_go.Server.Metrics.Past.{
  idle, Past, after_step, past, same, times, uncounted, pending, uncounted-append, pending-append,
  inc-same,
}

-- What the metrics say in a state, of what has happened.
pub record IsCounted (t : Chats) (p : Past) : Type 0 where
  pub active : t.metrics.active_streams ≡ length t.running
  pub requests : (o : Outcome) → t.metrics.requests_total (outcome_label o) ≡ times o p.outcomes
  pub durations :
      (o : Outcome)
      → t.metrics.durations (outcome_label o) + pending o t.running ≡ times o p.outcomes
  pub all : p.begun ≡ length p.outcomes + p.panicked + uncounted t.running

-- One chat that runs goes from a phase to the next, or leaves.
module _ (s : Chats) (p : Past) (before behind : List Phase) (h : IsCounted s p) where
  counts-IsCounted :
      (o : Outcome)
      → s.running ≡ before ++ streaming ∷ behind
      → IsCounted
          (record { metrics = count_request s.metrics o; running = before ++ counted o ∷ behind })
          (record p { outcomes = o ∷ p.outcomes })
  unfolding count_request
  counts-IsCounted o e = record {
    active = omega (
      arith,
      h.active ∙ ap length e,
      length-append before (streaming ∷ behind),
      length-append before (counted o ∷ behind),
    );
    requests = λ a. inc-same s.metrics.requests_total a o ∙ ap (λ k. same a o + k) (h.requests a);
    durations = λ a. omega (
      arith,
      h.durations a,
      ap (pending a) e,
      pending-append a before (streaming ∷ behind),
      pending-append a before (counted o ∷ behind),
    );
    all = omega (
      arith,
      h.all,
      ap uncounted e,
      uncounted-append before (streaming ∷ behind),
      uncounted-append before (counted o ∷ behind),
    );
  }

  observes-IsCounted :
      (o : Outcome)
      → s.running ≡ before ++ counted o ∷ behind
      → IsCounted
          (record { metrics = observe_duration s.metrics o; running = before ++ observed ∷ behind })
          p
  unfolding observe_duration
  observes-IsCounted o e = record {
    active = omega (
      arith,
      h.active ∙ ap length e,
      length-append before (counted o ∷ behind),
      length-append before (observed ∷ behind),
    );
    requests = h.requests;
    durations = λ a. omega (
      arith,
      inc-same s.metrics.durations a o,
      h.durations a,
      ap (pending a) e,
      pending-append a before (counted o ∷ behind),
      pending-append a before (observed ∷ behind),
    );
    all = omega (
      arith,
      h.all,
      ap uncounted e,
      uncounted-append before (counted o ∷ behind),
      uncounted-append before (observed ∷ behind),
    );
  }

  leaves-IsCounted :
      s.running ≡ before ++ observed ∷ behind
      → IsCounted (record { metrics = leave s.metrics; running = before ++ behind }) p
  unfolding leave
  leaves-IsCounted e = record {
    active = omega (
      arith,
      h.active ∙ ap length e,
      length-append before (observed ∷ behind),
      length-append before behind,
    );
    requests = h.requests;
    durations = λ a. omega (
      arith,
      h.durations a,
      ap (pending a) e,
      pending-append a before (observed ∷ behind),
      pending-append a before behind,
    );
    all = omega (
      arith,
      h.all,
      ap uncounted e,
      uncounted-append before (observed ∷ behind),
      uncounted-append before behind,
    );
  }

  panics-IsCounted :
      s.running ≡ before ++ streaming ∷ behind
      → IsCounted
          (record { metrics = leave s.metrics; running = before ++ behind })
          (record p { panicked = p.panicked + 1 })
  unfolding leave
  panics-IsCounted e = record {
    active = omega (
      arith,
      h.active ∙ ap length e,
      length-append before (streaming ∷ behind),
      length-append before behind,
    );
    requests = h.requests;
    durations = λ a. omega (
      arith,
      h.durations a,
      ap (pending a) e,
      pending-append a before (streaming ∷ behind),
      pending-append a before behind,
    );
    all = omega (
      arith,
      h.all,
      ap uncounted e,
      uncounted-append before (streaming ∷ behind),
      uncounted-append before behind,
    );
  }

Step-IsCounted :
    {s t : Chats} (p : Past) (st : Step s t) → IsCounted s p → IsCounted t (after_step p st)
Step-IsCounted {s} p (begins e) h = rw e (record {
  active = omega (arith, h.active);
  requests = h.requests;
  durations = h.durations;
  all = omega (arith, h.all);
})
Step-IsCounted {s} p (counts o before behind r e) h =
    rw e (counts-IsCounted s p before behind h o r)
Step-IsCounted {s} p (observes o before behind r e) h =
    rw e (observes-IsCounted s p before behind h o r)
Step-IsCounted {s} p (leaves before behind r e) h = rw e (leaves-IsCounted s p before behind h r)
Step-IsCounted {s} p (panics before behind r e) h = rw e (panics-IsCounted s p before behind h r)

-- However the chats interleave, at every moment: the gauge of active streams is the number of the chats that run;
-- the counter of requests is, for each outcome, the number of the chats counted with it; the observed durations of
-- an outcome are as many, but for the chats that are between the two calls; and the chats that were begun are those
-- that are counted, those whose Query panicked, and those that run and are not counted yet. So once no chat runs,
-- the gauge is zero, the counter and the durations agree, and only chats that panicked are missing from them.
pub Reach-IsCounted : {t : Chats} (r : Reach idle t) → IsCounted t (past r)
unfolding new_chat_metrics
Reach-IsCounted here = record {
  active = refl;
  requests = λ o. refl;
  durations = λ o. refl;
  all = refl;
}
Reach-IsCounted (next r st) = Step-IsCounted (past r) st (Reach-IsCounted r)
