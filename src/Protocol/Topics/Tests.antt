-- ===== src/Protocol/Topics/Tests.antt =====
-- Inputs for packages/esp-claw-protocol/src/topics.ts.
use senior_io_t_platform_arc.Prelude.{
  ◌≡◌, refl, none, some, [], ◌∷◌, arith, units, ok, err, join, split, trim,
}
use senior_io_t_platform_arc.Protocol.Topics.{
  status, command, build_topic, parse_topic, base_topic_required, device_id_required, leaf_text,
  single_segment_wildcard_filter_for_leaf,
}
use senior_io_t_platform_arc.Protocol.Topics.RoundTrip.{parse_topic-build_topic}

build_topic_tests :
    (build_topic (units "espclaw/acme//") (units "ecda") command
      ≡ ok (units "espclaw/acme/ecda/command"))
    × (build_topic (units "  ") (units "ecda") command ≡ err base_topic_required)
    × (build_topic (units "espclaw") (units "") command ≡ err device_id_required)
    × (single_segment_wildcard_filter_for_leaf status ≡ units "+/+/status")
unfolding build_topic trim single_segment_wildcard_filter_for_leaf
build_topic_tests = (refl, refl, refl, refl)

parse_topic_tests :
    (parse_topic (units "espclaw/ecda") ≡ none)
    × (parse_topic (units "/a//b/ecda/status")
        ≡ some
            (record { base_topic = units "a/b"; device_id = units "ecda"; leaf = units "status" }))
unfolding parse_topic split join
parse_topic_tests = (refl, refl)

parse_topic-build_topic_example :
    parse_topic (units "espclaw/acme/ecda/command")
    ≡ some (record {
      base_topic = units "espclaw/acme";
      device_id = units "ecda";
      leaf = units "command";
    })
unfolding leaf_text join
parse_topic-build_topic_example =
    parse_topic-build_topic (units "espclaw") (units "acme" ∷ []) 2 (units "ecda") command
      (units "espclaw/acme/ecda/command") (ground arith) (ground arith) build_topic_tests.0
