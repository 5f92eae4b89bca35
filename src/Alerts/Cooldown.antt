-- ===== src/Alerts/Cooldown.antt =====
-- `evaluateAlertRules` of services/alertService.ts alerts on what is breached, once in a cooldown.
use coldfi.Prelude.{
  ℕ, ◌+◌, ◌*◌, leb, ◌==◌, ==_refl, Bool, true, false, ◌&&◌, ◌≡◌, refl, Option, none, some, List, [],
  ◌∷◌, any, All, select, Bool-cases, inl, inr, arith,
}
use coldfi.Alerts.Rules.{
  Reading, AlertRule, Alert, Metrics, compare_values, is_recent, check_cooldown, evaluate_value,
  evaluate_rules, evaluate_alert_rules, get_metric_value,
}
use coldfi.Alerts.Spacing.{IsSpaced, HasCooldown, evaluations, evaluations-IsSpaced}

-- the rule has a value now, which its condition and threshold find breached
abbrev pub is_breached : AlertRule → Option Reading → Bool
is_breached r none = false
is_breached r (some v) = compare_values v r.condition r.threshold

-- an alert of the rule that is no older than the cooldown
abbrev pub is_fresh : ℕ → AlertRule → Alert → Bool
is_fresh now r a = a.rule_id == r.id && leb now (a.created_at + r.cooldown_minutes * 60_000)

fresh_of_recent :
    (now : ℕ) (r : AlertRule) (history : List Alert)
    → any (is_recent r.id r.cooldown_minutes now) history ≡ true
    → any (is_fresh now r) history ≡ true
fresh_of_recent now r [] h = h
fresh_of_recent now r (a ∷ history) h = ground (arith, fresh_of_recent now r history)

-- the evaluation of a rule adds at most one alert, at the front
evaluate_value-any :
    (p : Alert → Bool) (now : ℕ) (r : AlertRule) (v : Option Reading) (history : List Alert)
    → any p history ≡ true
    → any p (evaluate_value now r v history) ≡ true
unfolding evaluate_value
evaluate_value-any p now r none history h = h
evaluate_value-any p now r (some v) history h = ground arith

evaluate_rules-any :
    (p : Alert → Bool) (now : ℕ) (m : Metrics) (rules : List AlertRule) (history : List Alert)
    → any p history ≡ true
    → any p (evaluate_rules now m rules history) ≡ true
unfolding evaluate_rules
evaluate_rules-any p now m [] history h = h
evaluate_rules-any p now m (r ∷ rules) history h =
    evaluate_rules-any p now m rules _
      (evaluate_value-any p now r (get_metric_value r.metric m) history h)

evaluate_value_fresh :
    (now : ℕ) (r : AlertRule) (v : Option Reading) (history : List Alert)
    → is_breached r v ≡ true
    → any (is_fresh now r) (evaluate_value now r v history) ≡ true
unfolding evaluate_value check_cooldown
evaluate_value_fresh now r none history h = cc
evaluate_value_fresh now r (some v) history h =
    elim (Bool-cases (any (is_recent r.id r.cooldown_minutes now) history)) [
      | inl t ↦ rw (h, t) (fresh_of_recent now r history t)
      | inr f ↦
          let at_once : leb now (now + r.cooldown_minutes * 60_000) ≡ true = ground arith in
          rw (h, f, ==_refl r.id, at_once) refl
    ]

evaluate_rules_fresh :
    (now : ℕ) (m : Metrics) (rules : List AlertRule) (history : List Alert)
    → All
        (λ r.
          is_breached r (get_metric_value r.metric m) ≡ true
          → any (is_fresh now r) (evaluate_rules now m rules history) ≡ true)
        rules
unfolding evaluate_rules
evaluate_rules_fresh now m [] history = tt
evaluate_rules_fresh now m (r ∷ rules) history =
    let value = get_metric_value r.metric m in
    (
      λ breached.
          evaluate_rules-any (is_fresh now r) now m rules (evaluate_value now r value history)
            (evaluate_value_fresh now r value history breached),
      evaluate_rules_fresh now m rules (evaluate_value now r value history),
    )

-- Where the rules with an id have one cooldown, and the alerts of the rule are at least that far
-- apart, then after any evaluations, at any times and with any metrics, and one evaluation more:
-- the alerts of the rule are still at least the cooldown apart; and every rule that is enabled and
-- that the last evaluation finds breached has an alert that is no older than its cooldown.
pub evaluate_alert_rules_once :
    (rule cooldown : ℕ) (rules : List AlertRule)
    → All (HasCooldown rule cooldown) rules
    → (runs : List (ℕ × Metrics)) (now : ℕ) (m : Metrics) (history : List Alert)
    → IsSpaced rule cooldown history
    → let after = evaluate_alert_rules rules now m (evaluations rules runs history) in
      IsSpaced rule cooldown after
      × All
          (λ r.
            is_breached r (get_metric_value r.metric m) ≡ true → any (is_fresh now r) after ≡ true)
          (select (λ (r : AlertRule). r.enabled) rules)
unfolding evaluate_alert_rules
evaluate_alert_rules_once rule cooldown rules same runs now m history h =
    let before = evaluations-IsSpaced rule cooldown rules same runs history h in
    (
      evaluations-IsSpaced rule cooldown rules same ((now, m) ∷ []) _ before,
      evaluate_rules_fresh now m (select (λ (r : AlertRule). r.enabled) rules) _,
    )
