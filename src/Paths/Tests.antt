-- ===== src/Paths/Tests.antt =====
-- Runs of python/gatherlink/paths on samples.
use gatherlink.Prelude.{ℕ, ◌≡◌, refl, [], none, some, arith}
use gatherlink.Prelude.Int.{ℤ, pos}
use gatherlink.Paths.Mtu.{
  PathStatus, number, missing, unreadable, min_gatherlink_frame_mtu, observe_path_mtu,
  recommend_path_mtu_downgrade,
}
use gatherlink.Paths.Mtu.Bounds.{IsSafeMtu, observe_path_mtu-IsSafeMtu}
use gatherlink.Paths.Mtu.Descent.{
  IsLowered, recommend_path_mtu_downgrade-IsLowered, descend, descend-least,
}

observe_path_mtu-IsSafeMtu_example :
    IsSafeMtu
      (some (pos 1500))
      (pos 1400)
      (pos 14)
      (some (pos 1300))
      (observe_path_mtu (some (pos 1500)) (pos 1400) (pos 14) (some (pos 1300)) [])
observe_path_mtu-IsSafeMtu_example =
    observe_path_mtu-IsSafeMtu (some (pos 1500)) (pos 1400) (pos 14) (some (pos 1300)) []

abbrev ill_status : PathStatus
ill_status = record {
  packet_too_large_packets = number (pos 3);
  datagram_too_large_packets = missing;
  fragmentation_failed_packets = unreadable;
}

recommended :
    recommend_path_mtu_downgrade [] (pos 1400) ill_status none
    ≡ some (record {
      path_name = [];
      current_frame_mtu = pos 1400;
      recommended_frame_mtu = pos 1313;
      trigger = "too_large_or_fragmentation_failed";
      reason = "explicit too-large or fragmentation-failed counters increased";
    })
unfolding recommend_path_mtu_downgrade gatherlink.Prelude.Int.◌+ℤ◌ gatherlink.Prelude.Int.◌-ℤ◌
recommended = refl

recommend_path_mtu_downgrade-IsLowered_example : IsLowered (pos 1400) (record {
  path_name = [];
  current_frame_mtu = pos 1400;
  recommended_frame_mtu = pos 1313;
  trigger = "too_large_or_fragmentation_failed";
  reason = "explicit too-large or fragmentation-failed counters increased";
})
recommend_path_mtu_downgrade-IsLowered_example =
    recommend_path_mtu_downgrade-IsLowered [] (pos 1400) ill_status none (omega arith) recommended

descend-least_example : descend 17 [] (pos 1400) ill_status none ≡ min_gatherlink_frame_mtu
unfolding gatherlink.Prelude.Int.◌+ℤ◌
descend-least_example = descend-least 17 [] (pos 1400) ill_status refl (omega arith) (omega arith)
