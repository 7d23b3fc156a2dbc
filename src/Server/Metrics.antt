-- ===== src/Server/Metrics.antt =====
-- The metrics of internal/server/metrics.go, and what handleChat and metricsMiddleware do to them. Requests run at
-- the same time, so the chats are a step relation: a step is one change that one of them makes.
pub mod Counted
pub mod Past
use tfai_go.Base.{
  ◌≡◌, ℕ, ◌+◌, ◌-◌, Bool, true, false, List, [], ◌∷◌, ◌++◌, Bytes, codes, bytes_eq, ◌&&◌, ◌==◌,
  if◌then◌else◌,
}
use tfai_go.Server.Chat.{Outcome, completed, failed, timed_out, ChatResponse, refused, streamed}

-- The value of the label "outcome"
pub outcome_label : Outcome → Bytes
outcome_label completed = codes "ok"
outcome_label failed = codes "error"
outcome_label timed_out = codes "timeout"

-- A counter vector with one label: its values so far, by label
abbrev pub Counters : Type 0
Counters = Bytes → ℕ

-- WithLabelValues(label).Inc()
pub inc : Counters → Bytes → Counters
inc counters label other = if bytes_eq other label then counters other + 1 else counters other

-- chatRequestsTotal, the observations of chatDurationSeconds, and chatActiveStreams
pub record ChatMetrics : Type 0 where
  pub requests_total : Counters
  pub durations : Counters
  pub active_streams : ℕ

-- newServerMetrics
pub new_chat_metrics : ChatMetrics
new_chat_metrics = record {
  requests_total = λ label. 0;
  durations = λ label. 0;
  active_streams = 0;
}

-- A chat that has passed the guards and has not returned: Query runs; or the request is counted, with an outcome,
-- and its duration is not observed yet; or both are done.
pub data Phase : Type 0 where
  streaming : Phase
  counted : Outcome → Phase
  observed : Phase

pub record Chats : Type 0 where
  pub metrics : ChatMetrics
  pub running : List Phase

-- chatActiveStreams.Inc()
abbrev pub begin : Chats → Chats
begin s = record {
  metrics = record s.metrics { active_streams = s.metrics.active_streams + 1 };
  running = streaming ∷ s.running;
}

-- chatRequestsTotal, for an outcome
pub count_request : ChatMetrics → Outcome → ChatMetrics
unfolding outcome_label inc
count_request m outcome = record m { requests_total = inc m.requests_total (outcome_label outcome) }

-- chatDurationSeconds, for an outcome
pub observe_duration : ChatMetrics → Outcome → ChatMetrics
unfolding outcome_label inc
observe_duration m outcome = record m { durations = inc m.durations (outcome_label outcome) }

-- chatActiveStreams.Dec(), which is deferred
pub leave : ChatMetrics → ChatMetrics
leave m = record m { active_streams = m.active_streams - 1 }

-- One change, by one of the chats that run or by a new one. A chat leaves when its handler has observed the duration,
-- or when Query panics: the deferred call runs then as well.
pub data Step (s : Chats) (t : Chats) : Type 0 where
  begins : t ≡ begin s → Step s t
  counts :
      (outcome : Outcome) (before behind : List Phase)
      → s.running ≡ before ++ streaming ∷ behind
      → t ≡ record {
        metrics = count_request s.metrics outcome;
        running = before ++ counted outcome ∷ behind;
      }
      → Step s t
  observes :
      (outcome : Outcome) (before behind : List Phase)
      → s.running ≡ before ++ counted outcome ∷ behind
      → t ≡ record {
        metrics = observe_duration s.metrics outcome;
        running = before ++ observed ∷ behind;
      }
      → Step s t
  leaves :
      (before behind : List Phase)
      → s.running ≡ before ++ observed ∷ behind
      → t ≡ record { metrics = leave s.metrics; running = before ++ behind }
      → Step s t
  panics :
      (before behind : List Phase)
      → s.running ≡ before ++ streaming ∷ behind
      → t ≡ record { metrics = leave s.metrics; running = before ++ behind }
      → Step s t

pub data Reach (s : Chats) : Chats → Type 0 where
  here : Reach s s
  next : {t u : Chats} → Reach s t → Step t u → Reach s u
