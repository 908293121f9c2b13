-- ===== src/Transport/Presets.antt =====
-- The QoS profiles of transport/qos/qos_profile_conf.cpp, with the policies of
-- transport/config/qos_profile.h by their numbers.
use hnu_middleware.Base.{ℕ}
use hnu_middleware.Transport.Attributes.{QosProfile}

abbrev pub history_system_default : ℕ
history_system_default = 0

abbrev pub history_keep_last : ℕ
history_keep_last = 1

abbrev pub history_keep_all : ℕ
history_keep_all = 2

abbrev pub reliability_reliable : ℕ
reliability_reliable = 1

abbrev pub reliability_best_effort : ℕ
reliability_best_effort = 2

abbrev pub durability_transient_local : ℕ
durability_transient_local = 1

abbrev pub durability_volatile : ℕ
durability_volatile = 2

abbrev pub qos_history_depth_system_default : ℕ
qos_history_depth_system_default = 0

abbrev pub qos_mps_system_default : ℕ
qos_mps_system_default = 0

-- `CreateQosProfile`: the size of the messages stays as the constructor leaves it.
unfoldable pub create_qos_profile : ℕ → ℕ → ℕ → ℕ → ℕ → QosProfile
create_qos_profile history depth mps reliability durability = record {
  history = history;
  depth = depth;
  mps = mps;
  msg_size = 0;
  reliability = reliability;
  durability = durability;
}

abbrev pub qos_profile_default : QosProfile
qos_profile_default =
    create_qos_profile history_keep_last 1 qos_mps_system_default reliability_reliable
      durability_volatile

abbrev pub qos_profile_sensor_data : QosProfile
qos_profile_sensor_data =
    create_qos_profile history_keep_last 5 qos_mps_system_default reliability_best_effort
      durability_volatile

abbrev pub qos_profile_parameters : QosProfile
qos_profile_parameters =
    create_qos_profile history_keep_last 1000 qos_mps_system_default reliability_reliable
      durability_volatile

abbrev pub qos_profile_services_default : QosProfile
qos_profile_services_default =
    create_qos_profile history_keep_last 10 qos_mps_system_default reliability_reliable
      durability_transient_local

abbrev pub qos_profile_param_event : QosProfile
qos_profile_param_event =
    create_qos_profile history_keep_last 1000 qos_mps_system_default reliability_reliable
      durability_volatile

abbrev pub qos_profile_system_default : QosProfile
qos_profile_system_default =
    create_qos_profile history_system_default qos_history_depth_system_default
      qos_mps_system_default reliability_reliable durability_transient_local

abbrev pub qos_profile_tf_static : QosProfile
qos_profile_tf_static =
    create_qos_profile history_keep_all 10 qos_mps_system_default reliability_reliable
      durability_transient_local

abbrev pub qos_profile_topo_change : QosProfile
qos_profile_topo_change =
    create_qos_profile history_keep_all 10 qos_mps_system_default reliability_reliable
      durability_transient_local
