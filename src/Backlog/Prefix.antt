-- ===== src/Backlog/Prefix.antt =====
-- A lost prefix is exactly the sequences between the server's acknowledgement and the first record.
use power_monitor_sensor_hea.Base.{
  ℕ, ◌+◌, ◌≤◌, ◌<◌, ◌≡◌, arith, Bool, true, false, ◌&&◌, ◌⊎◌, IsU64,
}
use power_monitor_sensor_hea.Backlog.{
  prefix_none, prefix_confirmed, prefix_not_confirmed, no_prefix, detect_missing_prefix,
}

-- Nothing is reported only if no sequence lies between the two; a gap is reported only with storage
-- that is ready and completely searched, and then with its first and last sequence and their number.
pub detect_missing_prefix_cases :
    (acknowledgement earliest : ℕ) (ready complete : Bool)
    → IsU64 acknowledgement
    → IsU64 earliest
    → let (prefix, status) = detect_missing_prefix acknowledgement ready complete earliest in
      ((status ≡ prefix_none) × (prefix ≡ no_prefix) × (earliest ≤ acknowledgement + 1))
      ⊎ ((status ≡ prefix_not_confirmed)
          × (prefix ≡ no_prefix)
          × (acknowledgement + 1 < earliest)
          × (ready && complete ≡ false))
      ⊎ ((status ≡ prefix_confirmed)
          × (acknowledgement + 1 < earliest)
          × (ready && complete ≡ true)
          × (prefix.first_sequence ≡ acknowledgement + 1)
          × (prefix.last_sequence + 1 ≡ earliest)
          × (acknowledgement + prefix.count + 1 ≡ earliest))
unfolding detect_missing_prefix
detect_missing_prefix_cases acknowledgement earliest ready complete ha he = ground arith
