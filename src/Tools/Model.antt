-- ===== src/Tools/Model.antt =====
-- Sources, classifications and the statuses of a tool request:
-- backend/crates/modules/tools/src/model.rs.
use customer_service_chat_sy.Base.{Bool, true, false, Text, codes}

pub data ToolSource : Type 0 where
  builtin tenant : ToolSource

-- `ToolSource::as_str`.
abbrev pub source_text : ToolSource → Text
source_text builtin = codes "builtin"
source_text tenant = codes "tenant"

pub data Classification : Type 0 where
  auto approval : Classification

abbrev pub classification_text : Classification → Text
classification_text auto = codes "auto"
classification_text approval = codes "approval"

pub data ToolRequestStatus : Type 0 where
  pending refused awaiting_approval approved executing succeeded : ToolRequestStatus
  failed timed_out denied expired cancelled : ToolRequestStatus

-- `ToolRequestStatus::as_str`.
abbrev pub status_text : ToolRequestStatus → Text
status_text pending = codes "pending"
status_text refused = codes "refused"
status_text awaiting_approval = codes "awaiting_approval"
status_text approved = codes "approved"
status_text executing = codes "executing"
status_text succeeded = codes "succeeded"
status_text failed = codes "failed"
status_text timed_out = codes "timed_out"
status_text denied = codes "denied"
status_text expired = codes "expired"
status_text cancelled = codes "cancelled"

-- `ToolRequestStatus::is_terminal`.
abbrev pub is_terminal : ToolRequestStatus → Bool
is_terminal refused = true
is_terminal succeeded = true
is_terminal failed = true
is_terminal timed_out = true
is_terminal denied = true
is_terminal expired = true
is_terminal cancelled = true
is_terminal _ = false
