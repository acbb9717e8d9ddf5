-- ===== src/Agents/Wording.antt =====
-- internal/agents/specialists.go and reasoning.go: summarise, the reading of a remediation plan, and
-- the texts of an incident that the intents carry.
pub mod Fits
use aegisops_ai.Base.{
  ℕ, zero, suc, ◌+◌, ◌-◌, Bool, true, false, ◌||◌, ◌&&◌, String, str_eq, Option, none, some, List,
  [], ◌∷◌, if◌then◌else◌, leb, byte_len, is_space, code, Char, ◌==◌,
}
use Prim.Native.String
use Prim.Native.Char.{len_utf8}
use text.Mathlib.Text.{starts_with}
use aegisops_ai.Domain.ToolCall.{Params}
use aegisops_ai.Domain.Timeline.{max_event_message_len}

trim_left : String → String
unfolding is_space
trim_left String.[] = ""
trim_left (String.◌∷◌ c s) = if is_space (code c) then trim_left s else String.◌∷◌ c s

-- `c`, unless it is a space at the end.
before_end : Char → String → String
unfolding is_space
before_end c String.[] = if is_space (code c) then "" else String.◌∷◌ c ""
before_end c (String.◌∷◌ d s) = String.◌∷◌ c (String.◌∷◌ d s)

trim_right : String → String
unfolding before_end
trim_right String.[] = ""
trim_right (String.◌∷◌ c s) = before_end c (trim_right s)

-- strings.TrimSpace.
unfoldable pub trim_space : String → String
unfolding trim_left trim_right
trim_space s = trim_right (trim_left s)

-- What stands for `n` bytes of a character that is cut in two.
broken_bytes : ℕ → String
broken_bytes zero = ""
broken_bytes (suc n) = String.◌++◌ "?" (broken_bytes n)

-- s[:n], for n up to len(s).
unfoldable pub cut : ℕ → String → String
unfolding broken_bytes
cut n String.[] = ""
cut n (String.◌∷◌ c s) =
    let more = cut (n - len_utf8 c) s in
    if leb (len_utf8 c) n then String.◌∷◌ c more else broken_bytes n

unfoldable pub summarise : String → String
unfolding trim_space cut
summarise s =
    if leb (byte_len (trim_space s)) max_event_message_len
    then trim_space s
    else String.◌++◌ (cut (max_event_message_len - 1) (trim_space s)) "…"

-- s[i+1:] behind the first line feed, or the text itself where there is none.
after_line : String → Option String
after_line String.[] = none
after_line (String.◌∷◌ c s) = if code c == 10 then some s else after_line s

or_else : Option String → String → String
or_else none s = s
or_else (some t) s = t

-- strings.TrimSuffix(s, "```").
without_fence : String → String
without_fence String.[] = ""
without_fence (String.◌∷◌ c s) =
    let rest = without_fence s in if str_eq (String.◌∷◌ c s) "```" then "" else String.◌∷◌ c rest

unfoldable pub strip_code_fence : String → String
unfolding after_line or_else without_fence trim_space
strip_code_fence s =
    if starts_with s "```" then without_fence (trim_space (or_else (after_line s) s)) else s

pub record Plan : Type 0 where
  pub summary : String
  pub tool : String
  pub action : String
  -- a nil map is the empty one
  pub params : Params
  pub reason : String

check_plan : Option Plan → Option Plan
check_plan none = none
check_plan (some plan) =
    if str_eq plan.tool "" || str_eq plan.action "" || str_eq plan.reason ""
    then none
    else some plan

-- parseRemediation; `unmarshal` is json.Unmarshal into a plan.
unfoldable pub parse_remediation : (String → Option Plan) → String → Option Plan
unfolding check_plan strip_code_fence trim_space
parse_remediation unmarshal content = check_plan (unmarshal (strip_code_fence (trim_space content)))

unfoldable pub prom_ql_for : String → String
prom_ql_for service =
    if str_eq service ""
    then "up"
    else String.◌++◌ "rate(http_requests_total{job=\""
        (String.◌++◌ service "\",status=~\"5..\"}[5m])")

unfoldable pub namespace_for : String → String
namespace_for environment =
    if str_eq environment "production"
      || str_eq environment "staging"
      || str_eq environment "development"
    then environment
    else "default"
