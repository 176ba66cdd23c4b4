-- ===== src/Utterances.antt =====
-- core/conversation/utterances.py: short utterances that hold no topic for retrieval. A text is the
-- list of its code points. Unicode normalisation, case folding and the alphanumeric test are
-- Python's, and parameters here.
pub mod Keys
pub mod Splitting
mod Tests
use Prim.Native.Char.{code}
use zj_cyber_workbench.Prelude.{
  ltb, if◌then◌else◌, ◌==◌, nat_eq, ◌&&◌, length, filter, contains, ℕ, zero, suc, ◌+◌, String, Bool,
  true, false, List, [], ◌∷◌, ◌++◌, map,
}
use Keys.{acknowledgement_keys, negative_acknowledgement_keys, continuation_keys, politeness_keys}

abbrev pub codes : String → List ℕ
codes String.[] = []
codes (String.◌∷◌ c s) = code c ∷ codes s

-- `_NON_TOPIC_MAX_KEY_CHARS`
abbrev pub non_topic_max_key_chars : ℕ
non_topic_max_key_chars = 96

-- `_NON_TOPIC_COMPONENT_KEYS`. The source sorts the keys by length; the loop below only collects
-- positions, so that the order does not matter.
unfoldable pub non_topic_component_keys : List (List ℕ)
non_topic_component_keys =
    map codes (
      acknowledgement_keys ++ negative_acknowledgement_keys ++ continuation_keys ++ politeness_keys)

-- `text.startswith(component)`
unfoldable pub starts_with : List ℕ → List ℕ → Bool
starts_with text [] = true
starts_with [] (c ∷ cs) = false
starts_with (x ∷ xs) (c ∷ cs) = x == c && starts_with xs cs

abbrev pub drop : ℕ → List ℕ → List ℕ
drop zero xs = xs
drop (suc n) [] = []
drop (suc n) (x ∷ xs) = drop n xs

module _ (key : List ℕ) where
  -- The inner loop, for one start position that is reachable.
  unfoldable pub extend : ℕ → List (List ℕ) → List ℕ → List ℕ
  extend start [] reachable = reachable
  extend start (component ∷ rest) reachable = extend start rest (
      if starts_with (drop start key) component
      then (start + length component) ∷ reachable
      else reachable)

  -- One round of the outer loop.
  unfoldable pub visit : List (List ℕ) → ℕ → List ℕ → List ℕ
  visit components start reachable =
      if contains reachable start then extend start components reachable else reachable

  -- `for start in range(...)`: the rounds left and the current start.
  unfoldable pub scan : List (List ℕ) → ℕ → ℕ → List ℕ → List ℕ
  scan components zero start reachable = reachable
  scan components (suc rounds) start reachable =
      scan components rounds (start + 1) (visit components start reachable)

unfoldable pub is_non_topic_key : List (List ℕ) → List ℕ → Bool
is_non_topic_key components [] = false
is_non_topic_key components (c ∷ cs) =
    let key = c ∷ cs in
    if ltb non_topic_max_key_chars (length key)
    then false
    else contains (scan key components (length key) 0 (0 ∷ [])) (length key)

-- Python's text functions that the module calls.
pub record TextFunctions : Type 0 where
  pub nfkc : List ℕ → List ℕ
  pub casefold : List ℕ → List ℕ
  pub is_alnum : ℕ → Bool

module _ (t : TextFunctions) where
  unfoldable pub canonical_utterance_key : List ℕ → List ℕ
  canonical_utterance_key value = filter t.is_alnum (t.casefold (t.nfkc value))

  unfoldable pub is_non_topic_utterance : List ℕ → Bool
  is_non_topic_utterance text =
      is_non_topic_key non_topic_component_keys (canonical_utterance_key text)
