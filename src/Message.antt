-- ===== src/Message.antt =====
-- lib/stubs/Wallmon.proto: the fields of WallmonMessage that daemon and server set. A field that
-- is not set is `none`. The encoding is protobuf's, and a parameter where it is used.
use wall_mon.Base.{ℕ, String, Option, none, List}

pub record Message (N : Type 0) : Type 0 where
  pub key : String
  pub payload : Option (List ℕ)
  pub hostname : Option String
  pub daemon_timestamp_msec : Option N
  pub sample_frequency_msec : Option N
  pub sample_duration_msec : Option N
  pub schedule_drift_msec : Option N
  pub schedule_duration_msec : Option N
  pub actual_hz : Option ℕ
  pub collector_sequence_number : Option ℕ
  pub daemon_queue_size : Option ℕ
  pub daemon_num_server_connections : Option ℕ
  pub network_message_size_bytes : Option ℕ
  pub server_sequence_number : Option ℕ
  pub server_queue_size : Option ℕ
  pub server_timestamp_msec : Option N
  pub previous_handler_execution_time_msec : Option N

-- A message with nothing set but its key.
unfoldable pub with_key : {N : Type 0} → String → Message N
with_key k = record {
  key = k;
  payload = none;
  hostname = none;
  daemon_timestamp_msec = none;
  sample_frequency_msec = none;
  sample_duration_msec = none;
  schedule_drift_msec = none;
  schedule_duration_msec = none;
  actual_hz = none;
  collector_sequence_number = none;
  daemon_queue_size = none;
  daemon_num_server_connections = none;
  network_message_size_bytes = none;
  server_sequence_number = none;
  server_queue_size = none;
  server_timestamp_msec = none;
  previous_handler_execution_time_msec = none;
}
