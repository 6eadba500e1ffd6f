-- ===== src/Protocol/Constants.antt =====
-- The numbers of the v1 wire format (the constants of python/gatherlink/protocol.py).
use gatherlink.Prelude.{ℕ, ◌-◌, ◌^◌}

abbrev pub gatherlink_protocol_version : ℕ
gatherlink_protocol_version = 1

abbrev pub gatherlink_kind_data : ℕ
gatherlink_kind_data = 0

abbrev pub gatherlink_kind_control : ℕ
gatherlink_kind_control = 1

abbrev pub gatherlink_kind_mask : ℕ
gatherlink_kind_mask = 0b0000_0011

abbrev pub gatherlink_fragment_present : ℕ
gatherlink_fragment_present = 0b0000_0100

abbrev pub gatherlink_kind_flags_reserved_mask : ℕ
gatherlink_kind_flags_reserved_mask = 0b1111_1000

abbrev pub gatherlink_v1_header_len : ℕ
gatherlink_v1_header_len = 14

abbrev pub gatherlink_fragment_metadata_len : ℕ
gatherlink_fragment_metadata_len = 10

abbrev pub service_id_control_metadata : ℕ
service_id_control_metadata = 1

abbrev pub user_service_id_start : ℕ
user_service_id_start = 256

abbrev pub default_service_id : ℕ
default_service_id = user_service_id_start

abbrev pub control_payload_version : ℕ
control_payload_version = 1

abbrev pub u16_max : ℕ
u16_max = 2 ^ 16 - 1

abbrev pub u32_max : ℕ
u32_max = 2 ^ 32 - 1

abbrev pub u64_max : ℕ
u64_max = 2 ^ 64 - 1

abbrev pub sequence_space : ℕ
sequence_space = 2 ^ 64
