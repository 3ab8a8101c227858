-- ===== src/Audit/Naming.antt =====
-- `_swap`, `audit_graph`, `config_graph` and `is_audit_graph` of holonbridge/audit.py.
-- `none` stands for the `ValueError` of a name that does not end in ":holons".
use holon_bridge_python.Prelude.Text.{drop_suffix}
use Prim.Native.String.{◌++◌ as str_append}
use mathlib.Core.Option
use holon_bridge_python.Prelude.{String, Option, none, some, Bool, ◌||◌, ◌==◌}

unfoldable pub swap : String → String → Option String
swap holons_graph tail =
    Option.map (λ base. str_append base tail) (drop_suffix ":holons" holons_graph)

unfoldable pub audit_graph : String → Option String
unfolding swap
audit_graph holons_graph = swap holons_graph ":audit"

unfoldable pub config_graph : String → Option String
unfolding swap
config_graph holons_graph = swap holons_graph ":audit:config"

unfoldable pub is_audit_graph : String → String → Option Bool
unfolding audit_graph config_graph
is_audit_graph target holons_graph = elim (audit_graph holons_graph) [
  | none ↦ none
  | some log ↦ elim (config_graph holons_graph) [
    | none ↦ none
    | some config ↦ some (target == log || target == config)
  ]
]
