-- ===== src/Frontend/Errors.antt =====
-- `Agent::Wire::SyncError`: the errors that the host answers with by name, and those that the agent
-- library hands it.
use libre_darwin.Base.{ℕ}

pub data SyncError : Type 0 where
  unknown_card unsupported_on_this_card unsupported_signature_parameter : SyncError
  not_authorized communication_error rate_limited input_too_large invalid_request : SyncError
  no_result unknown_config_key read_only_config invalid_config_value : SyncError
  master_list_replayed unsupported_protocol : SyncError
  library_error : ℕ → SyncError
