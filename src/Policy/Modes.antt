-- ===== src/Policy/Modes.antt =====
-- The other modes of bywaf/plugin/context/policy.py, from the global variable and the metadata.
use bywaf.Prelude.{◌||◌, if◌then◌else◌, Option, Text, text_eq, codes, strip}
use bywaf.Policy.{Mode, WideLower, lower, or_text, mode_named}

pub data SchemaMode : Type 0 where
  strict lenient : SchemaMode

unfoldable pub schema_mode_named : Text → SchemaMode
schema_mode_named s =
    if text_eq s (codes "off")
      || text_eq s (codes "false")
      || text_eq s (codes "no")
      || text_eq s (codes "0")
    then lenient
    else strict

unfoldable pub schema_validation_mode : WideLower → Option Text → Option Text → SchemaMode
schema_validation_mode wide configured metadata =
    schema_mode_named (lower wide (strip (or_text configured (or_text metadata (codes "strict")))))

unfoldable pub topic_contract_mode : WideLower → Option Text → Option Text → Mode
topic_contract_mode wide configured metadata =
    mode_named (lower wide (strip (or_text configured (or_text metadata (codes "audit")))))

unfoldable pub unregistered_topic_mode : WideLower → Option Text → Option Text → Mode
unregistered_topic_mode wide configured metadata =
    mode_named (lower wide (strip (or_text configured (or_text metadata (codes "audit")))))
