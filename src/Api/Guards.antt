-- ===== src/Api/Guards.antt =====
-- api/deps.py and the dependencies of the routes in api/routes.py: the key of a request, and the mode
-- of the deployment. `compare_digest` is equality of texts, which it is where they are ASCII; on any
-- other text it raises, and the request does not pass.
pub mod Writes
use quant_execution_engine.Prelude.{
  Bool, true, false, ◌||◌, Option, none, some, String, same_text, is_empty, if◌then◌else◌,
}

-- The settings that the guards read.
pub record KeySettings : Type 0 where
  pub api_key : Option String
  pub read_api_key : Option String
  pub public_mode : Bool

-- What a guard does: it lets the request pass, or raises.
pub data Verdict : Type 0 where
  passed unauthorized unavailable read_key_forbidden public_mode : Verdict

abbrev then_ask : Verdict → Verdict → Verdict
then_ask passed next = next
then_ask refusal next = refusal

-- `request.headers.get("X-API-Key", "")`
abbrev pub header_or_empty : Option String → String
header_or_empty none = ""
header_or_empty (some s) = s

equals_full : Option String → String → Bool
equals_full none key = false
equals_full (some full) key = same_text key full

is_read_among : Option String → Option String → String → Bool
unfolding equals_full
is_read_among none full provided = false
is_read_among (some read) full provided =
    if is_empty read
    then false
    else if equals_full full read
    then false
    else same_text provided read

-- `_is_read_key`
unfoldable pub is_read_key : KeySettings → String → Bool
unfolding is_read_among
is_read_key s provided = is_read_among s.read_api_key s.api_key provided

unfoldable pub full_key_of : KeySettings → Option String → String → Verdict
full_key_of s none provided = unavailable
full_key_of s (some full) provided =
    if same_text provided full
    then passed
    else if is_read_key s provided
    then read_key_forbidden
    else unauthorized

unfoldable pub require_api_key : KeySettings → Option String → Verdict
unfolding full_key_of
require_api_key s header = full_key_of s s.api_key (header_or_empty header)

either_key_of : KeySettings → Option String → String → Verdict
either_key_of s none provided = unavailable
either_key_of s (some full) provided =
    if same_text provided full || is_read_key s provided then passed else unauthorized

unfoldable pub require_read_or_full_key : KeySettings → Option String → Verdict
unfolding either_key_of
require_read_or_full_key s header = either_key_of s s.api_key (header_or_empty header)

unfoldable pub require_owner_mode : KeySettings → Verdict
require_owner_mode s = if s.public_mode then public_mode else passed

-- The routes of api/routes.py, api/streams.py and api/audit.py, by their functions.
pub data Route : Type 0 where
  health capabilities submit_order get_order get_account get_positions get_open_orders : Route
  get_order_history get_venue_orders cancel_order amend_order kill_switch_state : Route
  kill_switch_engage kill_switch_disengage : Route
  order_book_snapshot order_book_stream order_stream audit_export order_audit : Route

abbrev owned : KeySettings → Option String → Verdict
owned s header = then_ask (require_api_key s header) (require_owner_mode s)

abbrev readable : KeySettings → Option String → Verdict
readable s header = then_ask (require_read_or_full_key s header) (require_owner_mode s)

-- The guards among the dependencies of each route of api/routes.py, in their order, and of its
-- router where another file has the route.
unfoldable pub admit : Route → KeySettings → Option String → Verdict
admit health s header = passed
admit capabilities s header = require_api_key s header
admit submit_order s header = owned s header
admit get_order s header = require_api_key s header
admit get_account s header = readable s header
admit get_positions s header = readable s header
admit get_open_orders s header = readable s header
admit get_order_history s header = readable s header
admit get_venue_orders s header = readable s header
admit cancel_order s header = owned s header
admit amend_order s header = owned s header
admit kill_switch_state s header = owned s header
admit kill_switch_engage s header = owned s header
admit kill_switch_disengage s header = owned s header
admit order_book_snapshot s header = require_api_key s header
admit order_book_stream s header = require_api_key s header
admit order_stream s header = require_api_key s header
admit audit_export s header = owned s header
admit order_audit s header = owned s header
