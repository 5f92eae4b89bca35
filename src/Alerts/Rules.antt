-- ===== src/Alerts/Rules.antt =====
-- packages/backend/src/services/alertService.ts. A number is a fraction, and the time is in
-- milliseconds. What the monitoring service and the system report is an argument; where they
-- throw, the rule is skipped as for a metric without a value.
use coldfi.Prelude.{
  ℕ, ◌+◌, ◌-◌, ◌*◌, ltb, leb, max, ◌==◌, Bool, false, ◌&&◌, Option, none, some, List, [], ◌∷◌, any,
  select, if◌then◌else◌,
}

pub record Reading : Type 0 where
  pub over : ℕ
  pub under : ℕ

pub data Metric : Type 0 where
  error_rate disk_space memory p99_latency reg_rate queue_depth ssl_expiry db_connections : Metric
  other_metric : Metric

pub data Condition : Type 0 where
  gt lt ge le eq other_condition : Condition

pub data Severity : Type 0 where
  info warning critical : Severity

pub record AlertRule : Type 0 where
  pub id : ℕ
  pub metric : Metric
  pub condition : Condition
  pub threshold : Reading
  pub enabled : Bool
  pub cooldown_minutes : ℕ

pub record Alert : Type 0 where
  pub rule_id : ℕ
  pub metric : Metric
  pub actual_value : Reading
  pub threshold : Reading
  pub severity : Severity
  pub created_at : ℕ

-- one hour of `hourlyBreakdown`
pub record Hour : Type 0 where
  pub error_4xx : ℕ
  pub error_5xx : ℕ
  pub total_calls : ℕ

pub record Disk : Type 0 where
  pub blocks : ℕ
  pub bfree : ℕ
  pub bsize : ℕ

pub record Metrics : Type 0 where
  pub hourly_breakdown : List Hour
  -- none where `statfs` fails
  pub disk : Option Disk
  pub total_mem : ℕ
  pub free_mem : ℕ
  pub average_durations : List ℕ
  pub registrations : List ℕ
  pub total_connections : ℕ
  pub active_connections : ℕ

abbrev pub whole : ℕ → Reading
whole n = record { over = n; under = 1 }

-- `(part / total) * 100`
abbrev pub percent : ℕ → ℕ → Reading
percent part total = record { over = part * 100; under = total }

abbrev pub last_hour : List Hour → Option Hour
last_hour [] = none
last_hour (h ∷ []) = some h
last_hour (h ∷ g ∷ hs) = last_hour (g ∷ hs)

abbrev pub hour_rate : Option Hour → Option Reading
hour_rate none = none
hour_rate (some h) =
    if h.total_calls == 0 then none else some (percent (h.error_4xx + h.error_5xx) h.total_calls)

abbrev pub disk_use : Option Disk → Option Reading
disk_use none = none
disk_use (some d) =
    let total = d.blocks * d.bsize in
    if ltb 0 total then some (percent (total - d.bfree * d.bsize) total) else none

abbrev pub maximum : List ℕ → ℕ
maximum [] = 0
maximum (n ∷ ns) = max n (maximum ns)

abbrev pub sum : List ℕ → ℕ
sum [] = 0
sum (n ∷ ns) = n + sum ns

abbrev pub get_metric_value : Metric → Metrics → Option Reading
get_metric_value error_rate m = hour_rate (last_hour m.hourly_breakdown)
get_metric_value disk_space m = disk_use m.disk
get_metric_value memory m = some (percent (m.total_mem - m.free_mem) m.total_mem)
get_metric_value p99_latency m = some (whole (maximum m.average_durations))
get_metric_value reg_rate m = some (whole (sum m.registrations))
get_metric_value queue_depth m = none
get_metric_value ssl_expiry m = none
get_metric_value db_connections m =
    if ltb 0 m.total_connections
    then some (percent m.active_connections m.total_connections)
    else some (whole 0)
get_metric_value other_metric m = none

abbrev pub compare_values : Reading → Condition → Reading → Bool
compare_values v gt t = ltb (t.over * v.under) (v.over * t.under)
compare_values v lt t = ltb (v.over * t.under) (t.over * v.under)
compare_values v ge t = leb (t.over * v.under) (v.over * t.under)
compare_values v le t = leb (v.over * t.under) (t.over * v.under)
compare_values v eq t = (v.over * t.under) == (t.over * v.under)
compare_values v other_condition t = false

-- the quotient by a threshold of 0 is infinite, but not a number for a value of 0
abbrev pub get_severity : AlertRule → Reading → Severity
get_severity rule v =
    let mine = v.over * rule.threshold.under in
    let base = rule.threshold.over * v.under in
    if base == 0
    then (if mine == 0 then info else critical)
    else if leb (base * 2) mine
    then critical
    else if leb (base * 6) (mine * 5)
    then warning
    else info

abbrev pub is_recent : ℕ → ℕ → ℕ → Alert → Bool
is_recent rule cooldown now a = a.rule_id == rule && ltb now (a.created_at + cooldown * 60_000)

unfoldable pub check_cooldown : ℕ → ℕ → ℕ → List Alert → Bool
check_cooldown rule cooldown now history = any (is_recent rule cooldown now) history

abbrev pub new_alert : ℕ → AlertRule → Reading → Alert
new_alert now rule v = record {
  rule_id = rule.id;
  metric = rule.metric;
  actual_value = v;
  threshold = rule.threshold;
  severity = get_severity rule v;
  created_at = now;
}

-- from the test of `value === null` on; the latest alert comes first
unfoldable pub evaluate_value : ℕ → AlertRule → Option Reading → List Alert → List Alert
unfolding check_cooldown
evaluate_value now rule none history = history
evaluate_value now rule (some v) history =
    if compare_values v rule.condition rule.threshold
    then (if check_cooldown rule.id rule.cooldown_minutes now history
        then history
        else new_alert now rule v ∷ history)
    else history

unfoldable pub evaluate_rules : ℕ → Metrics → List AlertRule → List Alert → List Alert
unfolding evaluate_value
evaluate_rules now m [] history = history
evaluate_rules now m (rule ∷ rules) history =
    evaluate_rules now m rules (evaluate_value now rule (get_metric_value rule.metric m) history)

unfoldable pub evaluate_alert_rules : List AlertRule → ℕ → Metrics → List Alert → List Alert
unfolding evaluate_rules
evaluate_alert_rules rules now m history =
    evaluate_rules now m (select (λ (r : AlertRule). r.enabled) rules) history
