-- ===== src/Alerts/Tests.antt =====
-- The rule on disk space, and a rule on memory with a cooldown of thirty minutes.
use coldfi.Prelude.{ℕ, All, any, List, ◌≡◌, refl, true, some, [], ◌∷◌, arith}
use coldfi.Alerts.Rules.{
  evaluate_alert_rules, AlertRule, Metrics, Disk, disk_space, memory, lt, gt, whole,
  get_metric_value, evaluate_value,
}
use coldfi.Alerts.Cooldown.{is_breached, is_fresh, evaluate_alert_rules_once}
use coldfi.Alerts.Spacing.{IsSpaced, evaluations, low_disk_silent}

abbrev low_disk : AlertRule
low_disk = record {
  id = 1;
  metric = disk_space;
  condition = lt;
  threshold = whole 10;
  enabled = true;
  cooldown_minutes = 60;
}

abbrev high_memory : AlertRule
high_memory = record {
  id = 2;
  metric = memory;
  condition = gt;
  threshold = whole 90;
  enabled = true;
  cooldown_minutes = 30;
}

abbrev full_disk : Disk
full_disk = record { blocks = 1000; bfree = 0; bsize = 4096 }

abbrev strained : Metrics
strained = record {
  hourly_breakdown = [];
  disk = some full_disk;
  total_mem = 100;
  free_mem = 2;
  average_durations = [];
  registrations = [];
  total_connections = 10;
  active_connections = 1;
}

abbrev both_rules : List AlertRule
both_rules = low_disk ∷ high_memory ∷ []

abbrev earlier : List (ℕ × Metrics)
earlier = (1000, strained) ∷ (61_000, strained) ∷ []

-- two alerts in thirty-three minutes, and not three
evaluate_alert_rules_once_example :
    IsSpaced 2 30
      (evaluate_alert_rules both_rules 2_000_000 strained (evaluations both_rules earlier []))
    × All
        (λ r.
          is_breached r (get_metric_value r.metric strained) ≡ true
          → any (is_fresh 2_000_000 r) (
              evaluate_alert_rules both_rules 2_000_000 strained
                (evaluations both_rules earlier []))
            ≡ true)
        both_rules
evaluate_alert_rules_once_example =
    evaluate_alert_rules_once 2 30 both_rules ((λ named. cc), ((λ named. refl), tt)) earlier
      2_000_000 strained [] tt

low_disk_silent_example :
    evaluate_value 1000 low_disk (get_metric_value disk_space strained) [] ≡ []
low_disk_silent_example =
    low_disk_silent 1000 full_disk low_disk strained [] (refl, refl, refl) refl (omega arith)
