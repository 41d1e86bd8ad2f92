-- ===== src/Protocol/Topics/RoundTrip.antt =====
-- packages/esp-claw-protocol/src/topics.ts: what `parseTopic` makes of the topics that `buildTopic` makes.
use senior_io_t_platform_arc.Prelude.{
  ℕ, ◌+◌, ◌-◌, ◌≡◌, sym, ap, ◌∙◌, false, ◌||◌, List, [], ◌∷◌, ◌++◌, arith, ◌<◌, length, is_nil, All,
  Text, join, some, length-append, get_elem?-append, take-append, get_elem?, ltb, ok, if_err-eq-ok,
  ok-injective, trim,
}
use mathlib.Core.List.{append_assoc}
use senior_io_t_platform_arc.Protocol.Topics.{
  Leaf, status, leaf_text, trim_trailing_slashes, levels, build_topic, parse_topic, parse_levels,
  base_topic_required, device_id_required,
}
use senior_io_t_platform_arc.Protocol.Topics.Joins.{
  IsLevel, slashes, trim_trailing_slashes-join, levels-join, join-two, is_nil-join,
}

leaf_text-IsLevel : (leaf : Leaf) → IsLevel (leaf_text leaf)
unfolding leaf_text
leaf_text-IsLevel status = ground arith
leaf_text-IsLevel _ = ground arith

All-two :
    (ss : List Text) (d l : Text)
    → All IsLevel ss
    → IsLevel d
    → IsLevel l
    → All IsLevel (ss ++ d ∷ l ∷ [])
All-two [] d l h hd hl = (hd, (hl, tt))
All-two (s ∷ ss) d l h hd hl = (h.0, All-two ss d l h.1 hd hl)

-- The parts cut out of levels that end in two more.
parse_levels-append :
    (ss : List Text) (d l : Text)
    → 0 < length ss
    → is_nil (join b'/' ss) ≡ false
    → is_nil d ≡ false
    → is_nil l ≡ false
    → parse_levels (ss ++ d ∷ l ∷ [])
      ≡ some (record { base_topic = join b'/' ss; device_id = d; leaf = l })
unfolding parse_levels
parse_levels-append ss d l full hs hd hl =
    let n : length (ss ++ d ∷ l ∷ []) ≡ length ss + 2 = length-append ss (d ∷ l ∷ []) in
    let two : length (ss ++ d ∷ l ∷ []) - 2 ≡ length ss = omega arith in
    let one : length (ss ++ d ∷ l ∷ []) - 1 ≡ length (ss ++ d ∷ []) =
      omega (arith, length-append ss (d ∷ [])) in
    let long : ltb (length (ss ++ d ∷ l ∷ [])) 3 ≡ false = ground arith in
    let leaf : get_elem? (ss ++ d ∷ l ∷ []) (length (ss ++ d ∷ [])) ≡ some l =
      rw (← append_assoc ss (d ∷ []) (l ∷ [])) (get_elem?-append (ss ++ d ∷ []) [] l) in
    rw (
      long,
      two,
      one,
      take-append ss (d ∷ l ∷ []),
      get_elem?-append ss (l ∷ []) d,
      leaf,
      hs,
      hd,
      hl,
    )

-- What a topic holds, once its two arguments have passed.
build_topic-ok :
    (base_topic device_id : Text) (leaf : Leaf) (topic : Text)
    → build_topic base_topic device_id leaf ≡ ok topic
    → topic ≡ trim_trailing_slashes base_topic ++ (b'/' ∷ device_id ++ (b'/' ∷ leaf_text leaf))
unfolding build_topic
build_topic-ok base_topic device_id leaf topic e =
    let inner =
      if_err-eq-ok (is_nil base_topic || is_nil (trim base_topic)) base_topic_required _ e in
    let last =
      if_err-eq-ok (is_nil device_id || is_nil (trim device_id)) device_id_required _ inner.1 in
    ok-injective (sym last.1)

parse_topic_parts :
    (topic : Text) (parts : List Text)
    → levels topic ≡ parts
    → parse_topic topic ≡ parse_levels parts
unfolding parse_topic
parse_topic_parts topic parts e = ap parse_levels e

-- Wherever building succeeds, on a base topic of one or more levels that any number of slashes
-- follows and a device id of one level, parsing gives back the base topic without those slashes,
-- the device id and the leaf.
pub parse_topic-build_topic :
    (s : Text) (ss : List Text) (n : ℕ) (device_id : Text) (leaf : Leaf) (topic : Text)
    → All IsLevel (s ∷ ss)
    → IsLevel device_id
    → build_topic (join b'/' (s ∷ ss) ++ slashes n) device_id leaf ≡ ok topic
    → parse_topic topic
      ≡ some
          (record { base_topic = join b'/' (s ∷ ss); device_id = device_id; leaf = leaf_text leaf })
parse_topic-build_topic s ss n device_id leaf topic hs hd e =
    let built =
      build_topic-ok _ device_id leaf topic e
      ∙ ap (λ (t : Text). t ++ (b'/' ∷ device_id ++ (b'/' ∷ leaf_text leaf)))
          (trim_trailing_slashes-join s ss n hs)
      ∙ sym (join-two s ss device_id (leaf_text leaf)) in
    let il = leaf_text-IsLevel leaf in
    let parts =
      ap levels built
      ∙ levels-join s (ss ++ device_id ∷ leaf_text leaf ∷ [])
          (All-two (s ∷ ss) device_id (leaf_text leaf) hs hd il) in
    parse_topic_parts topic _ parts
    ∙ parse_levels-append (s ∷ ss) device_id (leaf_text leaf) (omega arith)
        (is_nil-join s ss hs.0.0) hd.0 il.0
