-- ===== src/Transport/Rtps.antt =====
-- `AttributesFiller` (transport/rtps/attributes_filler.cpp): the attributes of a Fast RTPS writer and
-- reader for a QoS profile. The library's constants are the parameter `Kinds`; an object is filled in
-- from what its constructor left. A depth is the bit pattern of an `int32_t`.
use hnu_middleware.Base.{
  ℕ, ◌+◌, ◌*◌, ◌/◌, ◌%◌, ◌^◌, ◌<◌, ◌≤◌, ◌≡◌, ◌≢◌, ◌↔◌, ◌⊎◌, inl, inr, refl, ap, ◌∙◌, Bool, false,
  List, [], ◌∷◌, ltb, ◌==◌, ==_refl, ne→==_false, if◌then◌else◌, not, arith,
}
use native.Mathlib.Nat.{le-div_iff_mul-le, div-lt_iff_lt-mul}
use hnu_middleware.Transport.Attributes.{QosProfile}
use hnu_middleware.Transport.Presets.{
  history_keep_last, history_keep_all, reliability_reliable, reliability_best_effort,
  durability_transient_local, durability_volatile, qos_history_depth_system_default,
}

-- The constants of the library
pub record Kinds : Type 0 where
  pub no_key : ℕ
  pub endpoint_best_effort : ℕ
  pub transient_local_durability : ℕ
  pub volatile_durability : ℕ
  pub best_effort_reliability : ℕ
  pub reliable_reliability : ℕ
  pub keep_last_history : ℕ
  pub keep_all_history : ℕ

-- The policies that a writer and a reader have alike
pub record Policies : Type 0 where
  pub durability : ℕ
  pub reliability : ℕ
  pub history : ℕ
  pub depth : ℕ

-- `Tatt` with its name, type and key, and `hatt.payloadMaxSize`
pub record Topic : Type 0 where
  pub topic_name : List ℕ
  pub topic_data_type : List ℕ
  pub topic_kind : ℕ
  pub payload_max_size : ℕ
  pub endpoint_reliability : ℕ

-- `heartbeat_period`
pub record Duration : Type 0 where
  pub seconds : ℕ
  pub nanosec : ℕ

pub record WriterAttributes : Type 0 where
  pub topic : Topic
  pub maximum_reserved_caches : ℕ
  pub policies : Policies
  pub heartbeat_period : Duration

pub record ReaderAttributes : Type 0 where
  pub topic : Topic
  pub policies : Policies

-- "string"
abbrev pub string_type : List ℕ
string_type = 115 ∷ 116 ∷ 114 ∷ 105 ∷ 110 ∷ 103 ∷ []

-- `mps` within the limits of the heartbeat
unfoldable pub limited_mps : ℕ → ℕ
limited_mps mps = if ltb 1024 mps then 1024 else if ltb mps 64 then 64 else mps

-- `heartbeat_period` for a rate that is not 0
unfoldable pub heartbeat : ℕ → Duration
unfolding limited_mps
heartbeat mps =
    let fractions = 256 * 2 ^ 32 / limited_mps mps in
    record { seconds = fractions / 2 ^ 32 % 2 ^ 32; nanosec = fractions % 2 ^ 32 }

-- A switch whose value is one of its cases does not depend on what was set before.
switched_alike :
    {v a b : ℕ} (x y old other : ℕ)
    → (v ≡ a) ⊎ (v ≡ b)
    → (if v == a then x else if v == b then y else old)
      ≡ (if v == a then x else if v == b then y else other)
switched_alike {a = a} x y old other (inl e) = rw (ap (λ k. k == a) e ∙ ==_refl a) refl
switched_alike {b = b} x y old other (inr e) = rw (ap (λ k. k == b) e ∙ ==_refl b) refl

module _ (kinds : Kinds) where
  -- The three switches of `FillInWriterAttr`, the first with the name of a history policy for the
  -- durability of the same number
  unfoldable pub writer_policies : QosProfile → Policies → Policies
  writer_policies qos old = record {
    durability =
        if qos.durability == history_keep_last
        then kinds.transient_local_durability
        else if qos.durability == durability_volatile
        then kinds.volatile_durability
        else old.durability;
    reliability =
        if qos.reliability == reliability_best_effort
        then kinds.best_effort_reliability
        else if qos.reliability == reliability_reliable
        then kinds.reliable_reliability
        else old.reliability;
    history =
        if qos.history == history_keep_last
        then kinds.keep_last_history
        else if qos.history == history_keep_all
        then kinds.keep_all_history
        else old.history;
    depth = if not (qos.depth == qos_history_depth_system_default) then qos.depth else old.depth;
  }

  -- The three switches of `FillInReaderAttr`
  unfoldable pub reader_policies : QosProfile → Policies → Policies
  reader_policies qos old = record {
    durability =
        if qos.durability == durability_transient_local
        then kinds.transient_local_durability
        else if qos.durability == durability_volatile
        then kinds.volatile_durability
        else old.durability;
    reliability =
        if qos.reliability == reliability_best_effort
        then kinds.best_effort_reliability
        else if qos.reliability == reliability_reliable
        then kinds.reliable_reliability
        else old.reliability;
    history =
        if qos.history == history_keep_last
        then kinds.keep_last_history
        else if qos.history == history_keep_all
        then kinds.keep_all_history
        else old.history;
    depth = if not (qos.depth == qos_history_depth_system_default) then qos.depth else old.depth;
  }

  -- `FillInWriterAttr`
  unfoldable pub fill_in_writer_attr :
      List ℕ → QosProfile → WriterAttributes → Bool × WriterAttributes
  unfolding writer_policies heartbeat
  fill_in_writer_attr channel_name qos old =
      let policies = writer_policies qos old.policies in
      (
        ltb policies.depth (2 ^ 31),
        record {
          topic = record {
            topic_name = channel_name;
            topic_data_type = string_type;
            topic_kind = kinds.no_key;
            payload_max_size = (qos.msg_size + 255) % 2 ^ 32;
            endpoint_reliability = kinds.endpoint_best_effort;
          };
          maximum_reserved_caches = 50;
          policies = policies;
          heartbeat_period = if not (qos.mps == 0) then heartbeat qos.mps else old.heartbeat_period;
        },
      )

  -- `FillInReaderAttr`
  unfoldable pub fill_in_reader_attr :
      List ℕ → QosProfile → ReaderAttributes → Bool × ReaderAttributes
  unfolding reader_policies
  fill_in_reader_attr channel_name qos old =
      let policies = reader_policies qos old.policies in
      (
        ltb policies.depth (2 ^ 31),
        record {
          topic = record {
            topic_name = channel_name;
            topic_data_type = string_type;
            topic_kind = kinds.no_key;
            payload_max_size = 255;
            endpoint_reliability = kinds.endpoint_best_effort;
          };
          policies = policies;
        },
      )

  policies-agree :
      (qos : QosProfile) (w r : Policies)
      → (qos.durability ≡ durability_transient_local) ⊎ (qos.durability ≡ durability_volatile)
      → (qos.reliability ≡ reliability_best_effort) ⊎ (qos.reliability ≡ reliability_reliable)
      → (qos.history ≡ history_keep_last) ⊎ (qos.history ≡ history_keep_all)
      → qos.depth ≢ qos_history_depth_system_default
      → writer_policies qos w ≡ reader_policies qos r
  unfolding writer_policies reader_policies
  policies-agree qos w r d rel h set =
      let depth_set : (qos.depth == qos_history_depth_system_default) ≡ false =
        ne→==_false qos.depth qos_history_depth_system_default set in
      rw
        (
          switched_alike kinds.transient_local_durability kinds.volatile_durability w.durability
              r.durability d,
          switched_alike kinds.best_effort_reliability kinds.reliable_reliability w.reliability
              r.reliability rel,
          switched_alike kinds.keep_last_history kinds.keep_all_history w.history r.history h,
          depth_set,
        )
        refl

  -- A writer and a reader that are filled in for one channel and one profile, which sets the durability, the
  -- reliability, the history and the depth, have the same policies, whatever policies each had before; they
  -- have the same topic name and are accepted alike. But their payload limits are the same exactly where the
  -- profile's message size is a multiple of 2^32.
  pub fill_in-agree :
      (channel_name : List ℕ) (qos : QosProfile) (w : WriterAttributes) (r : ReaderAttributes)
      → (qos.durability ≡ durability_transient_local) ⊎ (qos.durability ≡ durability_volatile)
      → (qos.reliability ≡ reliability_best_effort) ⊎ (qos.reliability ≡ reliability_reliable)
      → (qos.history ≡ history_keep_last) ⊎ (qos.history ≡ history_keep_all)
      → qos.depth ≢ qos_history_depth_system_default
      → ((fill_in_writer_attr channel_name qos w).0 ≡ (fill_in_reader_attr channel_name qos r).0)
        × ((fill_in_writer_attr channel_name qos w).1.policies
            ≡ (fill_in_reader_attr channel_name qos r).1.policies)
        × ((fill_in_writer_attr channel_name qos w).1.topic.topic_name
            ≡ (fill_in_reader_attr channel_name qos r).1.topic.topic_name)
        × (((fill_in_writer_attr channel_name qos w).1.topic.payload_max_size
              ≡ (fill_in_reader_attr channel_name qos r).1.topic.payload_max_size)
            ↔ (qos.msg_size % 2 ^ 32 ≡ 0))
  unfolding fill_in_writer_attr fill_in_reader_attr
  fill_in-agree channel_name qos w r d rel h set =
      let same = policies-agree qos w.policies r.policies d rel h set in
      (ap (λ p. ltb p.depth (2 ^ 31)) same, same, refl, (λ e. omega arith, λ e. omega arith))

limited_mps-bounds : (mps : ℕ) → (64 ≤ limited_mps mps) × (limited_mps mps ≤ 1024)
unfolding limited_mps
limited_mps-bounds mps = ground arith

limited_mps-fast : (mps : ℕ) → 256 < mps → 256 < limited_mps mps
unfolding limited_mps
limited_mps-fast mps fast = ground arith

whole_period : (q : ℕ) → q < 2 ^ 34 + 1 → q / 2 ^ 32 % 2 ^ 32 * 2 ^ 32 + q % 2 ^ 32 ≡ q
whole_period q most = omega arith

at_most_four : (q : ℕ) → q < 2 ^ 34 + 1 → q / 2 ^ 32 % 2 ^ 32 ≤ 4
at_most_four q most = omega arith

below_one_second :
    (q : ℕ) → 2 ^ 30 ≤ q → q < 2 ^ 32 → (q / 2 ^ 32 % 2 ^ 32 ≡ 0) × (10 ^ 9 < q % 2 ^ 32)
below_one_second q least short = (omega arith, omega arith)

period-bounds :
    (m : ℕ) → 64 ≤ m → m ≤ 1024 → (2 ^ 30 ≤ 256 * 2 ^ 32 / m) × (256 * 2 ^ 32 / m < 2 ^ 34 + 1)
period-bounds m low high = (
  (le-div_iff_mul-le {k = m} {x = 2 ^ 30} {y = 256 * 2 ^ 32} (omega arith)).1 (omega arith),
  (div-lt_iff_lt-mul {k = m} {x = 256 * 2 ^ 32} {y = 2 ^ 34 + 1} (omega arith)).1 (omega arith),
)

-- The heartbeat period of a writer, for a rate that is not 0, is 256 over the rate, which is first
-- brought within 64 and 1024, in units of 2^-32 s: at least a quarter of a second, with at most four
-- whole seconds.
pub heartbeat-fractions :
    (mps : ℕ)
    → mps ≢ 0
    → ((heartbeat mps).seconds * 2 ^ 32 + (heartbeat mps).nanosec ≡ 256 * 2 ^ 32 / limited_mps mps)
      × (2 ^ 30 ≤ (heartbeat mps).seconds * 2 ^ 32 + (heartbeat mps).nanosec)
      × ((heartbeat mps).seconds ≤ 4)
unfolding heartbeat
heartbeat-fractions mps some_rate =
    let (low, high) = limited_mps-bounds mps in
    let (least, most) = period-bounds (limited_mps mps) low high in
    let q = 256 * 2 ^ 32 / limited_mps mps in
    (whole_period q most, omega (arith, whole_period q most), at_most_four q most)

-- From a rate of 257 on, the period of a writer has no whole seconds, and its field `nanosec` is above
-- 10^9.
pub heartbeat-nanosec :
    (mps : ℕ) → 256 < mps → ((heartbeat mps).seconds ≡ 0) × (10 ^ 9 < (heartbeat mps).nanosec)
unfolding heartbeat
heartbeat-nanosec mps fast =
    let (low, high) = limited_mps-bounds mps in
    let (least, most) = period-bounds (limited_mps mps) low high in
    let faster = limited_mps-fast mps fast in
    let short =
      (div-lt_iff_lt-mul {k = limited_mps mps} {x = 256 * 2 ^ 32} {y = 2 ^ 32} (omega arith)).1
        (omega arith) in
    below_one_second (256 * 2 ^ 32 / limited_mps mps) least short
