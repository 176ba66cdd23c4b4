-- ===== src/Utterances/Tests.antt =====
-- Utterances in lower case, with text functions that keep ASCII letters.
use zj_cyber_workbench.Prelude.{
  leb, nat_eq, ◌&&◌, ◌||◌, length, filter, contains, ◌≤◌, ◌≡◌, refl, ◌≢◌, ◌↔◌, true, false, [],
}
use zj_cyber_workbench.Utterances.{
  codes, non_topic_component_keys, starts_with, extend, visit, scan, is_non_topic_key,
  TextFunctions, canonical_utterance_key, is_non_topic_utterance,
}
use zj_cyber_workbench.Utterances.Keys.{
  acknowledgement_keys, negative_acknowledgement_keys, continuation_keys, politeness_keys,
}
use zj_cyber_workbench.Utterances.Splitting.{Splits, is_non_topic_key_iff}

abbrev ascii : TextFunctions
ascii = record {
  nfkc = λ s. s;
  casefold = λ s. s;
  is_alnum = λ c. leb b'a' c && leb c b'z' || leb 128 c;
}

all_open : Unit {0}
unfolding is_non_topic_utterance is_non_topic_key canonical_utterance_key non_topic_component_keys
    scan visit extend starts_with filter contains acknowledgement_keys negative_acknowledgement_keys
    continuation_keys politeness_keys
all_open = tt

thanks_go_on : is_non_topic_utterance ascii (codes "ok, thanks; go on") ≡ true
unfolding all_open
thanks_go_on = refl

topic : is_non_topic_utterance ascii (codes "ok, scan it") ≡ false
unfolding all_open
topic = refl

in_chinese : is_non_topic_utterance ascii (codes "好的继续") ≡ true
unfolding all_open
in_chinese = refl

is_non_topic_key_iff_example :
    (is_non_topic_key non_topic_component_keys (codes "okgoon") ≡ true) ↔ (
      (codes "okgoon" ≢ [])
      × (length (codes "okgoon") ≤ 96)
      × Splits non_topic_component_keys (codes "okgoon"))
is_non_topic_key_iff_example = is_non_topic_key_iff non_topic_component_keys (codes "okgoon")
