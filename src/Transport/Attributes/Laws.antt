-- ===== src/Transport/Attributes/Laws.antt =====
-- What survives the serialization of a QoS profile and of role attributes.
use hnu_middleware.Base.{ℕ, ◌^◌, ◌<◌, ◌≤◌, ◌≡◌, refl, true, some, List, length}
use hnu_middleware.Serialize.Bytes.{ByteOrder}
use hnu_middleware.Serialize.Codec.{IsLawful}
use hnu_middleware.Serialize.Stream.{
  Stream, empty_stream, stream_of, int_limit, int32, uint32, uint64,
}
use hnu_middleware.Serialize.Words.Laws.{word_codec-IsLawful}
use hnu_middleware.Serialize.Text.Laws.{string_codec-IsLawful}
use hnu_middleware.Serialize.Custom.{members}
use hnu_middleware.Serialize.Custom.Laws.{
  no_args-IsLawful, args-IsLawful, serializable-IsLawful, members-IsLawful,
}
use hnu_middleware.Serialize.RoundTrip.{read-write}
use hnu_middleware.Serialize.Stream.Reserve.{room}
use hnu_middleware.Transport.Attributes.{
  QosProfile, qos_args, set_qos_args, default_qos, uint32_codec, uint64_codec, int32_codec,
  qos_codec, RoleAttributes, RoleArgs, role_args, role_args_codec, role_codec,
}

abbrev pub u32-IsLawful : IsLawful uint32_codec (λ v. v < 256 ^ 4)
u32-IsLawful = word_codec-IsLawful uint32 4

abbrev pub u64-IsLawful : IsLawful uint64_codec (λ v. v < 256 ^ 8)
u64-IsLawful = word_codec-IsLawful uint64 8

abbrev pub i32-IsLawful : IsLawful int32_codec (λ v. v < 256 ^ 4)
i32-IsLawful = word_codec-IsLawful int32 4

-- Each number fits in its member.
abbrev pub IsQos : QosProfile → Type 0
IsQos q =
    (q.history < 2 ^ 32)
    × ((q.depth < 2 ^ 32)
        × ((q.mps < 2 ^ 32)
            × ((q.msg_size < 2 ^ 32)
                × ((q.reliability < 2 ^ 32) × ((q.durability < 2 ^ 32) × Unit {0})))))

-- A QoS profile reads back whole.
unfoldable pub qos_codec-IsLawful : IsLawful qos_codec IsQos
unfolding qos_codec
qos_codec-IsLawful =
    members-IsLawful
      (args-IsLawful u32-IsLawful (
        args-IsLawful u32-IsLawful (
          args-IsLawful u32-IsLawful (
            args-IsLawful u32-IsLawful
              (args-IsLawful u32-IsLawful (args-IsLawful u32-IsLawful no_args-IsLawful))))))
      qos_args set_qos_args default_qos (λ old v. refl)

abbrev pub IsText : List ℕ → Type 0
IsText t = length t < int_limit

abbrev pub IsRoleArgs : RoleArgs → Type 0
IsRoleArgs (hn, (ip, (pid, (cn, (q, (i, (nn, (ni, (mt, _))))))))) =
    IsText hn
    × (IsText ip
        × ((pid < 2 ^ 32)
            × (IsText cn
                × (IsQos q
                    × ((i < 2 ^ 64) × (IsText nn × ((ni < 2 ^ 64) × (IsText mt × Unit {0}))))))))

-- Each number fits in its member, and each string's length in an `int`.
abbrev pub IsRole : RoleAttributes → Type 0
IsRole a = IsRoleArgs (role_args a)

unfoldable pub role_args-IsLawful : IsLawful role_args_codec IsRoleArgs
role_args-IsLawful = args-IsLawful string_codec-IsLawful (
    args-IsLawful string_codec-IsLawful (
      args-IsLawful i32-IsLawful (
        args-IsLawful string_codec-IsLawful (
          args-IsLawful qos_codec-IsLawful (
            args-IsLawful u64-IsLawful (
              args-IsLawful string_codec-IsLawful (
                args-IsLawful u64-IsLawful
                  (args-IsLawful string_codec-IsLawful no_args-IsLawful))))))))

-- The bytes that role attributes are written as.
unfoldable pub role_bytes : RoleAttributes → List ℕ
role_bytes a = (serializable-IsLawful role_args-IsLawful).encode (role_args a)

-- Role attributes written on one host and read on another, into attributes that held `old`: all
-- members come back but the channel id, which is not in the list of `SERIALIZE` and stays as it was.
pub read-write_role :
    (sender receiver : ByteOrder) (v old : RoleAttributes)
    → IsRole v
    → length (role_bytes v) ≤ room
    → (s : Stream) × (role_codec.write sender v (empty_stream sender) ≡ some s)
      × ((r : Stream) × (role_codec.read receiver old (stream_of receiver s.buf)
            ≡ some (true, record v { channel_id = old.channel_id }, r)))
unfolding role_codec members role_bytes
read-write_role sender receiver v old valid fits =
    let (s, e, (r, e', _)) =
      read-write (serializable-IsLawful role_args-IsLawful) sender receiver (role_args v)
        (role_args old) valid fits in
    (s, e, (r, rw e'))
