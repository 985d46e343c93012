-- ===== src/Runtime/Observability.antt =====
-- internal/observability/observability.go: the logger, the metrics and the provider of traces.
use golden_path_control_plan.Prelude.{
  String, Option, none, some, List, [], ◌∷◌, ◌++◌, ◌+◌, is_blank, trim_space, if◌then◌else◌,
}
use golden_path_control_plan.Fallible.{Fallible, done, failed, prefixed}
use golden_path_control_plan.Stateful.{Stateful, ◌>>◌, check}
use golden_path_control_plan.Domain.Validation.{wrap}
use golden_path_control_plan.Config.Settings.{ObservabilityConfig}
use golden_path_control_plan.Runtime.Process.{
  Host, Machine, Resource, Collector, go_collector, process_collector, own,
}

module _ {S : Type 0} (host : Host S) where
  unfoldable pub new_logger : String → Fallible host.Level
  new_logger level =
      prefixed "observability: parse log level: " (host.unmarshal_level (host.os.to_lower level))

  -- The calls of `Register` one after another
  unfoldable pub register_all : List Collector → List Collector → Fallible (List Collector)
  register_all before [] = done before
  register_all before (c ∷ cs) =
      let rest = register_all (before ++ c ∷ []) cs in
      elim (host.register before c) [ none ↦ rest | some e ↦ failed e ]

  unfoldable pub new_metrics : String → Fallible (List Collector)
  unfolding register_all
  new_metrics namespace = register_all [] (
      go_collector
      ∷ process_collector
      ∷ own namespace "http_requests_total"
      ∷ own namespace "http_request_duration_seconds"
      ∷ own namespace "worker_jobs_total"
      ∷ [])

  -- `otel.SetTracerProvider` of a new provider, which is the result
  unfoldable pub start_provider : Option String → Stateful (Machine S) (Resource (Option String))
  start_provider endpoint m =
      let provider : Resource (Option String) = record { number = m.made; made_of = endpoint } in
      (done provider, record m { providers = provider ∷ m.providers; made = m.made + 1 })

  unfoldable pub setup_tracing :
      ObservabilityConfig → Stateful (Machine S) (Resource (Option String))
  unfolding start_provider
  setup_tracing cfg = do
    check (wrap "observability: create resource: " (host.new_resource cfg.service_name))
    let endpoint = trim_space cfg.otlp_endpoint
    if is_blank cfg.otlp_endpoint
        then start_provider none
        else (check (wrap "observability: create otlp exporter: " (host.new_exporter endpoint))
            >> start_provider (some endpoint))
