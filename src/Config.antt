-- ===== src/Config.antt =====
-- engine/config.py: the settings that the modelled code reads, with their defaults. Probe times are
-- whole milliseconds, the stability floors and weights millionths.
use infinity_proxy.Prelude.{
  ℕ, zero, suc, ◌-◌, Bool, true, false, Option, none, some, List, [], ◌∷◌, ltb, if◌then◌else◌,
}
use infinity_proxy.Stability.{Policy}

pub record Settings : Type 0 where
  pub tunnel_port_start : ℕ
  pub tunnel_port_end : ℕ
  pub batch_size : ℕ
  pub probe_budget_per_refresh : ℕ
  pub dead_retest_budget : ℕ
  pub throughput_enabled : Bool
  pub throughput_min_kb_s : ℕ
  pub health_interval_s : ℕ
  pub max_misses : ℕ
  pub stability_enabled : Bool
  pub stability_min_probes : ℕ
  pub stability_min_avail : ℕ
  pub stability_weight_avail : ℕ
  pub stability_weight_speed : ℕ
  pub stability_window_s : ℕ
  pub stability_max_age_s : ℕ
  pub stability_working_set : ℕ
  pub stability_working_set_cadence_s : ℕ
  pub stability_reprobe_min_s : ℕ
  pub host_pick_ttl_s : ℕ

abbrev pub default_settings : Settings
default_settings = record {
  tunnel_port_start = 10000;
  tunnel_port_end = 59999;
  batch_size = 50;
  probe_budget_per_refresh = 5000;
  dead_retest_budget = 200;
  throughput_enabled = true;
  throughput_min_kb_s = 200;
  health_interval_s = 30;
  max_misses = 2;
  stability_enabled = false;
  stability_min_probes = 6;
  stability_min_avail = 400_000;
  stability_weight_avail = 600_000;
  stability_weight_speed = 400_000;
  stability_window_s = 3600;
  stability_max_age_s = 21600;
  stability_working_set = 256;
  stability_working_set_cadence_s = 300;
  stability_reprobe_min_s = 120;
  host_pick_ttl_s = 60;
}

unfoldable pub count_up : ℕ → ℕ → List ℕ
count_up zero from = []
count_up (suc n) from = from ∷ count_up n (suc from)

-- `none` is the ValueError of a range that ends before it starts.
unfoldable pub tunnel_ports : Settings → Option (List ℕ)
tunnel_ports c =
    if ltb c.tunnel_port_end c.tunnel_port_start
    then none
    else some (count_up (suc c.tunnel_port_end - c.tunnel_port_start) c.tunnel_port_start)

-- the arguments that the assigner hands to score_nodes
unfoldable pub policy : Settings → Policy
policy c = record {
  min_probes = c.stability_min_probes;
  min_avail = c.stability_min_avail;
  weight_avail = c.stability_weight_avail;
  weight_speed = c.stability_weight_speed;
  max_age_s = some c.stability_max_age_s;
}
