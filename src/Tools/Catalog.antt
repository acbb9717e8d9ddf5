-- ===== src/Tools/Catalog.antt =====
-- internal/tools/catalog.go: every declared tool with its actions and the shapes of their parameters.
-- Descriptions are left out; a timeout is in nanoseconds, and 0 where none is declared.
use aegisops_ai.Base.{
  ℕ, ◌*◌, ◌^◌, Bool, true, false, String, List, [], ◌∷◌, Option, none, some, Float, zero_float, pos,
}
use Prim.Native.String.{◌++◌ as append}
use aegisops_ai.Domain.ToolCall.{Value, str, bool, int}
use aegisops_ai.Gates.Registry.{
  ParamSpec, string_kind, int_kind, bool_kind, ActionDescriptor, ToolDescriptor,
}

text_spec : Bool → Option Value → String → ℕ → ParamSpec
text_spec required default pattern max_len = record {
  kind = string_kind;
  required = required;
  default = default;
  enum = [];
  pattern_text = pattern;
  min = zero_float;
  max = zero_float;
  max_len = pos max_len;
}

flag_spec : ParamSpec
flag_spec = record {
  kind = bool_kind;
  required = false;
  default = some (bool false);
  enum = [];
  pattern_text = "";
  min = zero_float;
  max = zero_float;
  max_len = pos 0;
}

whole : ℕ → Float
whole n = Float.num (n * 2 ^ 1074)

int_spec : Bool → Option Value → ℕ → ℕ → ParamSpec
unfolding whole
int_spec required default low high = record {
  kind = int_kind;
  required = required;
  default = default;
  enum = [];
  pattern_text = "";
  min = whole low;
  max = whole high;
  max_len = pos 0;
}

unfoldable pub container_name : ParamSpec
unfolding text_spec
container_name = text_spec true none "[a-zA-Z0-9][a-zA-Z0-9_.-]*" 255

unfoldable pub k8s_name : ParamSpec
unfolding text_spec
k8s_name = text_spec true none "[a-z0-9]([-a-z0-9]*[a-z0-9])?" 253

unfoldable pub k8s_namespace : ParamSpec
unfolding text_spec
k8s_namespace = text_spec false (some (str "default")) "[a-z0-9]([-a-z0-9]*[a-z0-9])?" 253

unfoldable pub tail_lines : ParamSpec
unfolding int_spec
tail_lines = int_spec false (some (int (pos 200))) 1 10000

abbrev path_segment : String
path_segment = "[a-zA-Z0-9_][a-zA-Z0-9_.-]*"

absolute_path_re : String
absolute_path_re = append "/(" (append path_segment (append "/)*" path_segment))

relative_path_re : String
relative_path_re = append "(" (append path_segment (append "/)*" path_segment))

unfoldable pub service_name : ParamSpec
unfolding text_spec
service_name = text_spec true none "[a-zA-Z0-9][a-zA-Z0-9_.@-]*" 255

seconds : ℕ → ℕ
seconds n = n * 1000000000

reads : List (String × ParamSpec) → ActionDescriptor
reads params = record { params = params; mutating = false; timeout = 0 }

changes : ℕ → List (String × ParamSpec) → ActionDescriptor
changes timeout params = record { params = params; mutating = true; timeout = timeout }

unfoldable pub docker : ToolDescriptor
unfolding reads changes seconds flag_spec int_spec container_name tail_lines
docker = record {
  name = "docker";
  actions =
      ("list_containers", reads (("all", flag_spec) ∷ []))
      ∷ ("inspect_container", reads (("container", container_name) ∷ []))
      ∷ ("logs", reads (("container", container_name) ∷ ("tail", tail_lines) ∷ []))
      ∷ (
        "restart_container",
        changes (seconds 120) (
            ("container", container_name)
            ∷ ("timeout_seconds", int_spec false (some (int (pos 10))) 1 300)
            ∷ []),
      )
      ∷ ("start_container", changes 0 (("container", container_name) ∷ []))
      ∷ ("delete_volume", changes 0 (("volume", container_name) ∷ []))
      ∷ [];
}

unfoldable pub kubernetes : ToolDescriptor
unfolding reads changes seconds flag_spec int_spec text_spec k8s_name k8s_namespace tail_lines
kubernetes = record {
  name = "kubernetes";
  actions =
      (
        "get_pods",
        reads (("namespace", k8s_namespace) ∷ ("selector", text_spec false none "" 512) ∷ []),
      )
      ∷ ("describe_pod", reads (("pod", k8s_name) ∷ ("namespace", k8s_namespace) ∷ []))
      ∷ (
        "logs",
        reads (
            ("pod", k8s_name)
            ∷ ("namespace", k8s_namespace)
            ∷ ("tail", tail_lines)
            ∷ ("previous", flag_spec)
            ∷ []),
      )
      ∷ (
        "restart_deployment",
        changes (seconds 300) (("deployment", k8s_name) ∷ ("namespace", k8s_namespace) ∷ []),
      )
      ∷ (
        "scale_deployment",
        changes (seconds 300) (
            ("deployment", k8s_name)
            ∷ ("namespace", k8s_namespace)
            ∷ ("replicas", int_spec true none 0 1000)
            ∷ []),
      )
      ∷ (
        "rollback_deployment",
        changes (seconds 600) (("deployment", k8s_name) ∷ ("namespace", k8s_namespace) ∷ []),
      )
      ∷ ("delete_namespace", changes 0 (("namespace", k8s_name) ∷ []))
      ∷ [];
}

unfoldable pub linux : ToolDescriptor
unfolding reads changes seconds text_spec tail_lines service_name absolute_path_re
linux = record {
  name = "linux";
  actions =
      (
        "read_metrics",
        reads (("host", text_spec false none "[a-zA-Z0-9]([-a-zA-Z0-9.]*[a-zA-Z0-9])?" 253) ∷ []),
      )
      ∷ (
        "read_file",
        reads (("path", text_spec true none absolute_path_re 4096) ∷ ("tail", tail_lines) ∷ []),
      )
      ∷ ("restart_service", changes (seconds 120) (("service", service_name) ∷ []))
      ∷ [];
}

unfoldable pub monitoring : ToolDescriptor
unfolding reads text_spec int_spec
monitoring = record {
  name = "monitoring";
  actions =
      ("query", reads (("query", text_spec true none "" 4096) ∷ []))
      ∷ (
        "query_range",
        reads (
            ("query", text_spec true none "" 4096)
            ∷ ("minutes", int_spec false (some (int (pos 30))) 1 10080)
            ∷ []),
      )
      ∷ ("alerts", reads [])
      ∷ [];
}

unfoldable pub security : ToolDescriptor
unfolding reads seconds text_spec k8s_name k8s_namespace
security = record {
  name = "security";
  actions =
      (
        "scan_image",
        record (reads (("image", text_spec true none "[a-zA-Z0-9][a-zA-Z0-9_.:/@-]*" 512) ∷ [])) {
          timeout = seconds 300;
        },
      )
      ∷ ("check_config", reads (("target", k8s_name) ∷ ("namespace", k8s_namespace) ∷ []))
      ∷ [];
}

revision_spec : Bool → Option Value → ParamSpec
unfolding text_spec
revision_spec required default = text_spec required default "[a-zA-Z0-9_./~^-]+" 100

unfoldable pub git : ToolDescriptor
unfolding reads text_spec revision_spec relative_path_re
git = record {
  name = "git";
  actions =
      (
        "diff",
        reads (
            ("from", revision_spec true none)
            ∷ ("to", revision_spec false (some (str "HEAD")))
            ∷ []),
      )
      ∷ (
        "read",
        reads (
            ("path", text_spec true none relative_path_re 4096)
            ∷ ("revision", revision_spec false (some (str "HEAD")))
            ∷ []),
      )
      ∷ [];
}

unfoldable pub database : ToolDescriptor
unfolding changes seconds text_spec
database = record {
  name = "database";
  actions =
      (
        "restart",
        changes (seconds 600)
            (("instance", text_spec true none "[a-zA-Z0-9][a-zA-Z0-9_.-]*" 255) ∷ []),
      )
      ∷ ("drop_table", changes 0 (("table", text_spec true none "[a-zA-Z_][a-zA-Z0-9_]*" 128) ∷ []))
      ∷ ("truncate", changes 0 (("table", text_spec true none "[a-zA-Z_][a-zA-Z0-9_]*" 128) ∷ []))
      ∷ (
        "delete_database",
        changes 0 (("database", text_spec true none "[a-zA-Z_][a-zA-Z0-9_]*" 128) ∷ []),
      )
      ∷ [];
}

unfoldable pub catalog : List ToolDescriptor
unfolding docker kubernetes linux monitoring security git database
catalog = docker ∷ kubernetes ∷ linux ∷ monitoring ∷ security ∷ git ∷ database ∷ []
