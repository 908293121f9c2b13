-- ===== src/Tests/Rtps.antt =====
-- The attributes of writers and readers at fixed inputs.
use hnu_middleware.Base.{ℕ, ◌%◌, ◌^◌, ◌<◌, ◌≡◌, ◌↔◌, inl, inr, refl, true, List, [], ◌∷◌, arith}
use hnu_middleware.Transport.Presets.{create_qos_profile, qos_profile_parameters}
use hnu_middleware.Transport.Rtps.{
  Kinds, Policies, Topic, WriterAttributes, ReaderAttributes, heartbeat, fill_in_writer_attr,
  fill_in_reader_attr, writer_policies, fill_in-agree, heartbeat-nanosec,
}

-- The library's constants, as some numbers
abbrev kinds : Kinds
kinds = record {
  no_key = 0;
  endpoint_best_effort = 1;
  transient_local_durability = 2;
  volatile_durability = 3;
  best_effort_reliability = 4;
  reliable_reliability = 5;
  keep_last_history = 6;
  keep_all_history = 7;
}

abbrev unset : Policies
unset = record { durability = 3; reliability = 4; history = 6; depth = 1 }

abbrev no_topic : Topic
no_topic = record {
  topic_name = [];
  topic_data_type = [];
  topic_kind = 0;
  payload_max_size = 0;
  endpoint_reliability = 0;
}

abbrev writer : WriterAttributes
writer = record {
  topic = no_topic;
  maximum_reserved_caches = 0;
  policies = unset;
  heartbeat_period = record { seconds = 3; nanosec = 0 };
}

-- A reader does not start with a writer's policies.
abbrev reader : ReaderAttributes
reader = record { topic = no_topic; policies = record unset { durability = 2; reliability = 5 } }

abbrev name : List ℕ
name = 97 ∷ []

fill_in-agree_example :
    ((fill_in_writer_attr kinds name qos_profile_parameters writer).0
      ≡ (fill_in_reader_attr kinds name qos_profile_parameters reader).0)
    × ((fill_in_writer_attr kinds name qos_profile_parameters writer).1.policies
        ≡ (fill_in_reader_attr kinds name qos_profile_parameters reader).1.policies)
    × ((fill_in_writer_attr kinds name qos_profile_parameters writer).1.topic.topic_name
        ≡ (fill_in_reader_attr kinds name qos_profile_parameters reader).1.topic.topic_name)
    × (((fill_in_writer_attr kinds name qos_profile_parameters writer).1.topic.payload_max_size
          ≡ (fill_in_reader_attr kinds name qos_profile_parameters reader).1.topic.payload_max_size)
        ↔ (qos_profile_parameters.msg_size % 2 ^ 32 ≡ 0))
unfolding create_qos_profile
fill_in-agree_example =
    fill_in-agree kinds name qos_profile_parameters writer reader (inr refl) (inr refl) (inl refl)
      (omega arith)

accepted : (fill_in_writer_attr kinds name qos_profile_parameters writer).0 ≡ true
unfolding fill_in_writer_attr writer_policies create_qos_profile
accepted = refl

heartbeat-nanosec_example : ((heartbeat 1000).seconds ≡ 0) × (10 ^ 9 < (heartbeat 1000).nanosec)
heartbeat-nanosec_example = heartbeat-nanosec 1000 (omega arith)
