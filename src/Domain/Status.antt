-- ===== src/Domain/Status.antt =====
-- orderService/internal/domain/models/shared/order.go and shared/models/user_roles.go: the
-- enumerations, each a Go uint16, and their texts.
use spot_order_grpc.Prelude.{String, ◌≡◌, refl, str_eq, if◌then◌else◌}

pub data OrderType : Type 0 where
  type_unspecified limit market stop_loss take_profit : OrderType

pub data OrderStatus : Type 0 where
  unspecified created pending filled cancelled : OrderStatus

-- (s OrderStatus) String()
unfoldable pub status_string : OrderStatus → String
status_string created = "created"
status_string pending = "pending"
status_string filled = "filled"
status_string cancelled = "cancelled"
status_string unspecified = "unspecified"

unfoldable pub from_string : String → OrderStatus
from_string s =
    if str_eq s "created"
    then created
    else if str_eq s "pending"
    then pending
    else if str_eq s "filled"
    then filled
    else if str_eq s "cancelled"
    then cancelled
    else unspecified

-- (t OrderType) String()
unfoldable pub type_string : OrderType → String
type_string limit = "limit"
type_string market = "market"
type_string stop_loss = "stop_loss"
type_string take_profit = "take_profit"
type_string type_unspecified = "unspecified"

-- Reading back the text of a status gives the status, for every status.
pub from_string-status_string : (s : OrderStatus) → from_string (status_string s) ≡ s
unfolding from_string status_string
from_string-status_string unspecified = refl
from_string-status_string created = refl
from_string-status_string pending = refl
from_string-status_string filled = refl
from_string-status_string cancelled = refl
