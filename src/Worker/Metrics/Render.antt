-- ===== src/Worker/Metrics/Render.antt =====
-- `render` of metrics.py: the lines of the text format, over code points. The texts of numbers are
-- a parameter.
use Prim.Native.Char.{code}
use pilot_langgraph.Prelude.{
  ℕ, ◌≡◌, ap, ◌∙◌, Option, none, some, List, [], ◌∷◌, ◌++◌, map, length, drop, drop-length-append,
  String,
}
use pilot_langgraph.Server.Types.{Registration}
use pilot_langgraph.Server.Stats.{percentile}
use pilot_langgraph.Server.Registry.{Worker}
use pilot_langgraph.Server.Introspect.{items, sort_items}
use pilot_langgraph.Worker.Metrics.{
  escape_label, quote, newline, read_label, read_label-escape_label,
}

abbrev pub codes : String → List ℕ
codes String.[] = []
codes (String.◌∷◌ c s) = code c ∷ codes s

-- A sample of a metric: its `handler` label, if it has one, and the text of its value.
abbrev pub Sample : Type 0
Sample = Option String × List ℕ

pub record Metric : Type 0 where
  pub name : String
  pub help_text : String
  pub mtype : String
  pub samples : List Sample

-- Up to the value of the label.
unfoldable pub label_start : String → List ℕ
label_start name = codes name ++ codes "{handler=\""

unfoldable pub sample_line : String → Sample → List ℕ
unfolding label_start
sample_line name (none, value) = codes name ++ codes " " ++ value
sample_line name (some handler, value) =
    label_start name ++ (escape_label (codes handler) ++ quote ∷ (codes "} " ++ value))

unfoldable pub metric_lines : Metric → List (List ℕ)
unfolding sample_line
metric_lines m =
    (codes "# HELP " ++ codes m.name ++ codes " " ++ codes m.help_text)
    ∷ (codes "# TYPE " ++ codes m.name ++ codes " " ++ codes m.mtype)
    ∷ map (sample_line m.name) m.samples

abbrev pub join_lines : List (List ℕ) → List ℕ
join_lines [] = []
join_lines (l ∷ ls) = l ++ newline ∷ join_lines ls

module _ (show_int show_tenths show_hundredths : ℕ → List ℕ) where
  abbrev pub handler_samples : (Registration → List ℕ) → Worker → List Sample
  handler_samples value w = map (λ e. (some e.0, value e.1)) (sort_items (items w.regs w.handlers))

  unfoldable pub metrics : ℕ → ℕ → Worker → List Metric
  metrics uptime in_flight w =
      record {
        name = "pilot_worker_uptime_seconds";
        help_text = "Worker process uptime in seconds.";
        mtype = "gauge";
        samples = (none, show_tenths uptime) ∷ [];
      }
      ∷ record {
        name = "pilot_worker_inflight_handlers";
        help_text = "Currently-executing handler tasks.";
        mtype = "gauge";
        samples = (none, show_int in_flight) ∷ [];
      }
      ∷ record {
        name = "pilot_worker_calls_total";
        help_text = "Total handler invocations across all handlers.";
        mtype = "counter";
        samples = (none, show_int w.total_calls) ∷ [];
      }
      ∷ record {
        name = "pilot_worker_errors_total";
        help_text = "Total handler errors across all handlers.";
        mtype = "counter";
        samples = (none, show_int w.total_errors) ∷ [];
      }
      ∷ record {
        name = "pilot_handler_calls_total";
        help_text = "Total invocations per handler.";
        mtype = "counter";
        samples = handler_samples (λ reg. show_int reg.stats.calls) w;
      }
      ∷ record {
        name = "pilot_handler_errors_total";
        help_text = "Total errors per handler.";
        mtype = "counter";
        samples = handler_samples (λ reg. show_int reg.stats.errors) w;
      }
      ∷ record {
        name = "pilot_handler_latency_ms_p50";
        help_text = "Median latency over the last 256 calls (ms).";
        mtype = "gauge";
        samples = handler_samples (λ reg. show_hundredths (percentile 50 reg.stats)) w;
      }
      ∷ record {
        name = "pilot_handler_latency_ms_p95";
        help_text = "P95 latency over the last 256 calls (ms).";
        mtype = "gauge";
        samples = handler_samples (λ reg. show_hundredths (percentile 95 reg.stats)) w;
      }
      ∷ []

  abbrev pub all_lines : List Metric → List (List ℕ)
  all_lines [] = []
  all_lines (m ∷ ms) = metric_lines m ++ all_lines ms

  unfoldable pub render : ℕ → ℕ → Worker → List ℕ
  unfolding metric_lines metrics
  render uptime in_flight w = join_lines (all_lines (metrics uptime in_flight w))

-- A reader of a sample's line that takes the label behind its start gets the handler's name as it
-- was, and behind it the closing brace and the value, whatever characters the name has.
pub sample_line-read_label :
    (name handler : String) (value : List ℕ)
    → read_label (drop (length (label_start name)) (sample_line name (some handler, value)))
      ≡ some (codes handler, codes "} " ++ value)
unfolding sample_line
sample_line-read_label name handler value =
    ap read_label (
      drop-length-append (label_start name)
        (escape_label (codes handler) ++ quote ∷ (codes "} " ++ value)))
    ∙ read_label-escape_label (codes handler) (codes "} " ++ value)
