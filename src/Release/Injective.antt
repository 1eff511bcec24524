-- ===== src/Release/Injective.antt =====
-- What canonical JSON says of a value (scripts/verify_release.py).
use agent_delegation_network.Json.{Json}
use agent_delegation_network.Prelude.{ap, refl, sym, ◌↔◌, ◌∙◌, ◌≡◌}
use agent_delegation_network.Release.Canonical.{canonical, canonical_json}
use agent_delegation_network.Release.Printed.{canonical-print, sort_keys}
use agent_delegation_network.Release.Reader.RoundTrip.{print-injective}
use agent_delegation_network.Text.Strings.{characters, characters-of_list}

-- Two values have the same canonical JSON exactly if they are the same but for the order of the keys
-- in their dicts.
pub canonical_json_iff :
    (v w : Json) → (canonical_json v ≡ canonical_json w) ↔ (sort_keys v ≡ sort_keys w)
unfolding canonical_json
canonical_json_iff v w = (
  λ e. print-injective (sort_keys v) (sort_keys w) (
      sym (canonical-print v)
      ∙ (sym (characters-of_list (canonical v))
          ∙ (ap characters e ∙ (characters-of_list (canonical w) ∙ canonical-print w)))),
  λ e. rw (canonical-print v, canonical-print w, e) refl,
)
