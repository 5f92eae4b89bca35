-- ===== src/Alerts/Spacing.antt =====
-- The alerts that `evaluateAlertRules` of services/alertService.ts creates, and the cooldown.
use coldfi.Prelude.{
  ℕ, ◌+◌, ◌-◌, ◌*◌, ◌≤◌, ltb, ◌==◌, ==_iff, true, false, ◌≡◌, refl, sym, ap, ◌∙◌, Option, none,
  some, List, [], ◌∷◌, any, All, All-select, if◌then◌else◌, Bool-cases, inl, inr, arith,
}
use coldfi.Alerts.Rules.{
  Reading, AlertRule, Alert, Metrics, compare_values, is_recent, check_cooldown, evaluate_value,
  evaluate_rules, evaluate_alert_rules, get_metric_value, disk_use, Disk, disk_space, lt, whole,
  percent,
}

-- The alerts of a rule, the latest first, are at least the cooldown apart.
abbrev pub IsSpaced : ℕ → ℕ → List Alert → Type 0
IsSpaced rule cooldown [] = Unit
IsSpaced rule cooldown (a ∷ history) =
    ((a.rule_id == rule) ≡ true
      → All
          (λ (b : Alert).
            (b.rule_id == rule) ≡ true → b.created_at + cooldown * 60_000 ≤ a.created_at)
          history)
    × IsSpaced rule cooldown history

-- a rule with the id has the cooldown
abbrev pub HasCooldown : ℕ → ℕ → AlertRule → Type 0
HasCooldown rule cooldown r = (r.id == rule) ≡ true → r.cooldown_minutes ≡ cooldown

cooled :
    (rule cooldown now : ℕ) (history : List Alert)
    → any (is_recent rule cooldown now) history ≡ false
    → All
        (λ (b : Alert). (b.rule_id == rule) ≡ true → b.created_at + cooldown * 60_000 ≤ now)
        history
cooled rule cooldown now [] h = tt
cooled rule cooldown now (a ∷ history) h = elim (Bool-cases (is_recent rule cooldown now a)) [
  | inl t ↦ cc
  | inr f ↦ ((λ named. ground arith), cooled rule cooldown now history (sym (rw (f) refl) ∙ h))
]

module _ (rule cooldown : ℕ) where
  evaluate_value-IsSpaced :
      (now : ℕ) (r : AlertRule) (v : Option Reading) (history : List Alert)
      → HasCooldown rule cooldown r
      → IsSpaced rule cooldown history
      → IsSpaced rule cooldown (evaluate_value now r v history)
  unfolding evaluate_value check_cooldown
  evaluate_value-IsSpaced now r none history same h = h
  evaluate_value-IsSpaced now r (some v) history same h =
      elim (Bool-cases (compare_values v r.condition r.threshold)) [
        | inr f ↦ rw (f) h
        | inl t ↦ elim (Bool-cases (any (is_recent r.id r.cooldown_minutes now) history)) [
          | inl recent ↦ rw (t, recent) h
          | inr f ↦ rw (t, f) ((λ named. spaced named f), h)
        ]
      ]
    where
      spaced :
          (r.id == rule) ≡ true
          → any (is_recent r.id r.cooldown_minutes now) history ≡ false
          → All
              (λ (b : Alert). (b.rule_id == rule) ≡ true → b.created_at + cooldown * 60_000 ≤ now)
              history
      spaced named f =
          let free : any (is_recent rule cooldown now) history ≡ false =
            ap (λ c. any (is_recent rule c now) history) (sym (same named))
            ∙ ap (λ i. any (is_recent i r.cooldown_minutes now) history)
                (sym ((==_iff r.id rule).0 named))
            ∙ f in
          cooled rule cooldown now history free

  pub evaluate_rules-IsSpaced :
      (now : ℕ) (m : Metrics) (rules : List AlertRule) (history : List Alert)
      → All (HasCooldown rule cooldown) rules
      → IsSpaced rule cooldown history
      → IsSpaced rule cooldown (evaluate_rules now m rules history)
  unfolding evaluate_rules
  evaluate_rules-IsSpaced now m [] history same h = h
  evaluate_rules-IsSpaced now m (r ∷ rules) history (s, same) h =
      evaluate_rules-IsSpaced now m rules _ same
        (evaluate_value-IsSpaced now r (get_metric_value r.metric m) history s h)

-- the evaluations one after the other, each with its time
abbrev pub evaluations : List AlertRule → List (ℕ × Metrics) → List Alert → List Alert
evaluations rules [] history = history
evaluations rules ((now, m) ∷ later) history =
    evaluations rules later (evaluate_alert_rules rules now m history)

pub evaluations-IsSpaced :
    (rule cooldown : ℕ) (rules : List AlertRule)
    → All (HasCooldown rule cooldown) rules
    → (runs : List (ℕ × Metrics)) (history : List Alert) → IsSpaced rule cooldown history
    → IsSpaced rule cooldown (evaluations rules runs history)
unfolding evaluate_alert_rules
evaluations-IsSpaced rule cooldown rules same [] history h = h
evaluations-IsSpaced rule cooldown rules same ((now, m) ∷ later) history h =
    evaluations-IsSpaced rule cooldown rules same later _ (
      evaluate_rules-IsSpaced rule cooldown now m _ history
        (All-select (HasCooldown rule cooldown) (λ (r : AlertRule). r.enabled) rules same) h)

-- the rule 'Low Disk Space' of the migration
abbrev pub IsLowDiskRule : AlertRule → Type 0
IsLowDiskRule r = (r.metric ≡ disk_space) × (r.condition ≡ lt) × (r.threshold ≡ whole 10)

-- The rule 'Low Disk Space' of the migration creates no alert, at any time and with any history,
-- while at least a tenth of the disk is in use, so not on a disk that is full.
pub low_disk_silent :
    (now : ℕ) (d : Disk) (r : AlertRule) (m : Metrics) (history : List Alert)
    → IsLowDiskRule r
    → m.disk ≡ some d
    → d.blocks * d.bsize ≤ 10 * (d.blocks * d.bsize - d.bfree * d.bsize)
    → evaluate_value now r (get_metric_value r.metric m) history ≡ history
unfolding evaluate_value
low_disk_silent now d r m history (metric, condition, threshold) has used =
    ap (λ k. evaluate_value now r (get_metric_value k m) history) metric
    ∙ ap (λ o. evaluate_value now r (disk_use o) history) has
    ∙ silent (d.blocks * d.bsize) (d.bfree * d.bsize) used
  where
    silent :
        (total free : ℕ)
        → total ≤ 10 * (total - free)
        → evaluate_value now r
            (if ltb 0 total then some (percent (total - free) total) else none)
            history
          ≡ history
    silent total free h = elim (Bool-cases (ltb 0 total)) [
      | inr f ↦ rw (f) refl
      | inl t ↦
          let above : ltb ((total - free) * 100 * 1) (10 * total) ≡ false = ground arith in
          rw (t, condition, threshold, above) refl
    ]
