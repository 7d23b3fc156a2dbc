-- ===== src/Server/Health/Ready.antt =====
-- When the server reports that it is ready.
use tfai_go.Base.{
  ◌≡◌, ◌≢◌, ℕ, ◌↔◌, ◌∙◌, refl, sym, inl, inr, arith, Bool, true, false, none, List, [], ◌∷◌, ◌++◌,
  append_assoc, append-nil, map, All, Option-cases, Bool-cases,
}
use tfai_go.Server.Health.{Pinger, multi_ping, check_of, ReadyCheck, probe, handle_ready}

-- What `probe` makes of the pingers, whatever it has gathered: the checks of all, and whether no ping fails.
probe_lem :
    (all_ok : Bool) (checks : List ReadyCheck) (pingers : List Pinger)
    → ((probe all_ok checks pingers).checks ≡ checks ++ map check_of pingers)
      × (((probe all_ok checks pingers).ready ≡ true)
          ↔ ((all_ok ≡ true) × (multi_ping pingers ≡ none)))
unfolding probe multi_ping check_of
probe_lem all_ok checks [] = (rw append-nil refl, (λ h. (h, refl), λ (h, _). h))
probe_lem all_ok checks (p ∷ pingers) = elim (Option-cases p.ping) [
  | inl e ↦
      let c : ReadyCheck = record { name = p.name; is_ok = true; error = [] } in
      let (all, ready) = probe_lem all_ok (checks ++ c ∷ []) pingers in
      rw e (all ∙ append_assoc checks (c ∷ []) (map check_of pingers), ready)
  | inr (m, e) ↦
      let c : ReadyCheck = record { name = p.name; is_ok = false; error = m } in
      let (all, ready) = probe_lem false (checks ++ c ∷ []) pingers in
      rw e (
        all ∙ append_assoc checks (c ∷ []) (map check_of pingers),
        (λ h. cc (ready.0 h).0, λ (_, h). cc),
      )
]

multi_ping-none :
    (pingers : List Pinger) → (multi_ping pingers ≡ none) ↔ All (λ p. p.ping ≡ none) pingers
unfolding multi_ping
multi_ping-none [] = (λ h. tt, λ h. refl)
multi_ping-none (p ∷ pingers) = elim (Option-cases p.ping) [
  | inl e ↦
      rw e (λ h. (refl, (multi_ping-none pingers).0 h), λ (_, h). (multi_ping-none pingers).1 h)
  | inr (m, e) ↦ rw e (λ h. cc, λ (h, _). cc)
]

-- GET /api/ready lists the result of every probe, in order; it answers 200 with `ready` exactly when no
-- probe fails, which is when MultiPinger.Ping returns nil, and 503 without `ready` otherwise.
pub handle_ready-multi_ping :
    (pingers : List Pinger)
    → let (status, resp) = handle_ready pingers in
      (resp.checks ≡ map check_of pingers)
      × ((status ≡ 200) ↔ (multi_ping pingers ≡ none))
      × ((status ≡ 503) ↔ (multi_ping pingers ≢ none))
      × ((resp.ready ≡ true) ↔ All (λ p. p.ping ≡ none) pingers)
unfolding handle_ready
handle_ready-multi_ping pingers =
    let (all, ready) = probe_lem true [] pingers in
    let none_fails = multi_ping-none pingers in
    elim (Bool-cases (probe true [] pingers).ready) [
      | inl e ↦
          let q : multi_ping pingers ≡ none = (ready.0 e).1 in
          (
            all,
            (λ _. q, λ _. rw e refl),
            (λ h. absurd (differ (rw e at h)), λ ne. absurd (ne q)),
            (λ _. none_fails.0 q, λ _. e),
          )
      | inr e ↦
          let f : multi_ping pingers ≢ none = λ q. cc (e, ready.1 (refl, q)) in
          (
            all,
            (λ h. absurd (differ (sym (rw e at h))), λ q. absurd (f q)),
            (λ _. f, λ _. rw e refl),
            (λ h. cc (e, h), λ a. absurd (f (none_fails.1 a))),
          )
    ]
  where
    differ : ¬ (◌≡◌ {A = ℕ} 200 503)
    differ h = ground arith
