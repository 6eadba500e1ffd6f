-- ===== src/Paths/Mtu.antt =====
-- python/gatherlink/paths/mtu.py: the frame MTU of a path, and when it is lowered. What the platform
-- reads of an interface is an argument, and so is what `int` makes of a status counter.
pub mod Bounds
pub mod Descent
use gatherlink.Prelude.{ℕ, Bool, true, false, not, ◌||◌, Option, none, some, String, if◌then◌else◌}
use gatherlink.Prelude.Int.{ℤ, pos, ◌+ℤ◌, ◌-ℤ◌, eq_ℤ, ltb_ℤ, max_ℤ, min_ℤ, floor_div}
use gatherlink.Text.{Text}

abbrev pub default_safe_frame_mtu : ℤ
default_safe_frame_mtu = pos 1200

abbrev pub min_gatherlink_frame_mtu : ℤ
min_gatherlink_frame_mtu = pos 64

abbrev pub v1_base_header_len : ℤ
v1_base_header_len = pos 14

abbrev pub v2_base_header_len : ℤ
v2_base_header_len = pos 13

pub record PathMtuObservation : Type 0 where
  pub link_mtu : ℤ
  pub configured_frame_mtu : ℤ
  pub frame_mtu : ℤ
  pub payload_mtu : ℤ
  pub status : String
  pub source : String
  pub updated_at : Text
  pub carrier_max_datagram_size : Option ℤ

pub record PathMtuDowngradeRecommendation : Type 0 where
  pub path_name : Text
  pub current_frame_mtu : ℤ
  pub recommended_frame_mtu : ℤ
  pub trigger : String
  pub reason : String

abbrev pub changed : PathMtuDowngradeRecommendation → Bool
changed r = ltb_ℤ r.recommended_frame_mtu r.current_frame_mtu

-- `detect_interface_mtu(interface) or max(configured_frame_mtu, DEFAULT_SAFE_FRAME_MTU)`
abbrev pub link_mtu_or_safe : Option ℤ → ℤ → ℤ
link_mtu_or_safe none configured = max_ℤ configured default_safe_frame_mtu
link_mtu_or_safe (some mtu) configured =
    if eq_ℤ mtu (pos 0) then max_ℤ configured default_safe_frame_mtu else mtu

-- `min(ceilings)`
abbrev pub min_ceiling : ℤ → ℤ → Option ℤ → ℤ
min_ceiling configured link none = min_ℤ configured link
min_ceiling configured link (some carrier) = min_ℤ (min_ℤ configured link) carrier

unfoldable pub observe_path_mtu : Option ℤ → ℤ → ℤ → Option ℤ → Text → PathMtuObservation
observe_path_mtu detected configured frame_header_len carrier now =
    let link = link_mtu_or_safe detected configured in
    let frame = max_ℤ (min_ceiling configured link carrier) min_gatherlink_frame_mtu in
    record {
      link_mtu = link;
      configured_frame_mtu = configured;
      frame_mtu = frame;
      payload_mtu = max_ℤ (frame -ℤ frame_header_len) (pos 0);
      status = if eq_ℤ configured frame then "ok" else "clamped";
      source = "interface";
      updated_at = now;
      carrier_max_datagram_size = carrier;
    }

-- A status counter: it is missing, `int` raises on it, or `int` makes a number of it.
pub data Counter : Type 0 where
  missing unreadable : Counter
  number : ℤ → Counter

abbrev pub status_int : Counter → ℤ
status_int missing = pos 0
status_int unreadable = pos 0
status_int (number n) = max_ℤ (pos 0) n

pub record PathStatus : Type 0 where
  pub packet_too_large_packets : Counter
  pub datagram_too_large_packets : Counter
  pub fragmentation_failed_packets : Counter

-- Some packet was too large, or could not be fragmented.
abbrev pub has_symptom : PathStatus → Bool
has_symptom status =
    not (
      eq_ℤ
        (status_int status.packet_too_large_packets +ℤ status_int status.datagram_too_large_packets)
        (pos 0))
    || not (eq_ℤ (status_int status.fragmentation_failed_packets) (pos 0))

abbrev pub decrement : ℤ → ℤ
decrement current = max_ℤ (pos 80) (floor_div current 16)

abbrev pub recommend_for_symptom : Text → ℤ → PathStatus → Option PathMtuDowngradeRecommendation
recommend_for_symptom path_name current status =
    if has_symptom status
    then some (record {
      path_name = path_name;
      current_frame_mtu = current;
      recommended_frame_mtu = max_ℤ min_gatherlink_frame_mtu (current -ℤ decrement current);
      trigger = "too_large_or_fragmentation_failed";
      reason = "explicit too-large or fragmentation-failed counters increased";
    })
    else none

unfoldable pub recommend_path_mtu_downgrade :
    Text → ℤ → PathStatus → Option ℤ → Option PathMtuDowngradeRecommendation
recommend_path_mtu_downgrade path_name current status none =
    recommend_for_symptom path_name current status
recommend_path_mtu_downgrade path_name current status (some carrier) =
    if ltb_ℤ carrier current
    then some (record {
      path_name = path_name;
      current_frame_mtu = current;
      recommended_frame_mtu = max_ℤ min_gatherlink_frame_mtu carrier;
      trigger = "carrier_max_datagram_size";
      reason = "carrier max datagram size is below current frame MTU";
    })
    else recommend_for_symptom path_name current status
