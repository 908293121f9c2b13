-- ===== src/Transport/Attributes.antt =====
-- `QosProfile` (transport/config/qos_profile.h) and `RoleAttributes`
-- (transport/config/RoleAttributes.h), with the codecs that `SERIALIZE(...)` makes of them.
pub mod Laws
use hnu_middleware.Base.{ℕ, List, []}
use hnu_middleware.Serialize.Codec.{Codec}
use hnu_middleware.Serialize.Stream.{int32, uint32, uint64}
use hnu_middleware.Serialize.Words.{word_codec}
use hnu_middleware.Serialize.Text.{string_codec}
use hnu_middleware.Serialize.Custom.{no_args, args, members}

-- The three policies are unscoped enums of small non-negative values, which are written by their
-- underlying type, `unsigned int`.
pub record QosProfile : Type 0 where
  pub history : ℕ
  pub depth : ℕ
  pub mps : ℕ
  pub msg_size : ℕ
  pub reliability : ℕ
  pub durability : ℕ

abbrev pub QosArgs : Type 0
QosArgs = ℕ × (ℕ × (ℕ × (ℕ × (ℕ × (ℕ × Unit {0})))))

abbrev pub qos_args : QosProfile → QosArgs
qos_args q = (q.history, (q.depth, (q.mps, (q.msg_size, (q.reliability, (q.durability, tt))))))

abbrev pub set_qos_args : QosProfile → QosArgs → QosProfile
set_qos_args q (h, (d, (m, (z, (r, (u, _)))))) = record {
  history = h;
  depth = d;
  mps = m;
  msg_size = z;
  reliability = r;
  durability = u;
}

-- The defaults of the members: HISTORY_KEEP_LAST, RELIABILITY_RELIABLE, DURABILITY_VOLATILE.
abbrev pub default_qos : QosProfile
default_qos = record {
  history = 1;
  depth = 2;
  mps = 3;
  msg_size = 0;
  reliability = 1;
  durability = 2;
}

abbrev pub uint32_codec : Codec ℕ
uint32_codec = word_codec uint32 4

abbrev pub uint64_codec : Codec ℕ
uint64_codec = word_codec uint64 8

abbrev pub int32_codec : Codec ℕ
int32_codec = word_codec int32 4

unfoldable pub qos_codec : Codec QosProfile
qos_codec = members qos_args set_qos_args default_qos (
    args uint32_codec (
      args uint32_codec
        (args uint32_codec (args uint32_codec (args uint32_codec (args uint32_codec no_args))))))

pub record RoleAttributes : Type 0 where
  pub host_name : List ℕ
  pub host_ip : List ℕ
  pub process_id : ℕ
  pub channel_name : List ℕ
  pub channel_id : ℕ
  pub qos_profile : QosProfile
  pub id : ℕ
  pub node_name : List ℕ
  pub node_id : ℕ
  pub message_type : List ℕ

abbrev pub RoleArgs : Type 0
RoleArgs =
    List ℕ × (List ℕ × (ℕ × (List ℕ × (QosProfile × (ℕ × (List ℕ × (ℕ × (List ℕ × Unit {0}))))))))

-- The members listed in `SERIALIZE(...)`; `channel_id` is not one of them.
abbrev pub role_args : RoleAttributes → RoleArgs
role_args a = (
  a.host_name,
  (
    a.host_ip,
    (
      a.process_id,
      (a.channel_name, (a.qos_profile, (a.id, (a.node_name, (a.node_id, (a.message_type, tt)))))),
    ),
  ),
)

abbrev pub set_role_args : RoleAttributes → RoleArgs → RoleAttributes
set_role_args a (hn, (ip, (pid, (cn, (q, (i, (nn, (ni, (mt, _))))))))) = record a {
  host_name = hn;
  host_ip = ip;
  process_id = pid;
  channel_name = cn;
  qos_profile = q;
  id = i;
  node_name = nn;
  node_id = ni;
  message_type = mt;
}

-- The numbers that no initialiser sets are 0 here.
abbrev pub default_role : RoleAttributes
default_role = record {
  host_name = [];
  host_ip = [];
  process_id = 0;
  channel_name = [];
  channel_id = 0;
  qos_profile = default_qos;
  id = 0;
  node_name = [];
  node_id = 0;
  message_type = [];
}

abbrev pub role_args_codec : Codec RoleArgs
role_args_codec = args string_codec (
    args string_codec (
      args int32_codec (
        args string_codec (
          args qos_codec (
            args uint64_codec
              (args string_codec (args uint64_codec (args string_codec no_args))))))))

unfoldable pub role_codec : Codec RoleAttributes
role_codec = members role_args set_role_args default_role role_args_codec
