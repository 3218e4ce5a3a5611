-- ===== src/Storage/Fault.antt =====
-- The errors that internal/storage returns, one constructor for each message.
use rawth.Base.{ℕ}

pub data Fault : Type 0 where
  key_empty key_too_long value_too_long : Fault
  internal_overflow leaf_overflow : Fault
  page_too_small truncated_child truncated_key_length truncated_key_data : Fault
  truncated_leaf_lengths truncated_leaf_data : Fault
  unknown_node_type : ℕ → Fault
  page_out_of_range : ℕ → Fault
  wrong_page_length : ℕ → Fault
  free_header_page : Fault
  bad_magic : Fault
  unsupported_version unexpected_page_size : ℕ → Fault
  read_failed write_failed sync_failed : Fault
  key_not_found : Fault
