-- ===== src/Behavior/Tests.antt =====
-- The theorem on behaviours at a concrete input.
use byzantine_agreement.Common.{
  ℕ, ◌≡◌, ◌⊎◌, refl, true, false, ◌&&◌, List, [], ◌∷◌, ok, throw, Exception, codes, Text,
}
use byzantine_agreement.Behavior.{exhibits, get_malicious_behavior}
use byzantine_agreement.Behavior.Flags.{
  Flag, bit, named, all_known, permitted, get_malicious_behavior_lem,
}

abbrev given : List Text
given = codes "delay_send" ∷ codes "silent" ∷ []

both : get_malicious_behavior given false ≡ ok 3
unfolding get_malicious_behavior
both = refl

get_malicious_behavior_lem_example :
    ((all_known given && permitted false given ≡ true)
      × ((b : ℕ) × (get_malicious_behavior given false ≡ ok b)
          × ((f : Flag) → exhibits b (bit f) ≡ named f given)))
    ⊎ ((all_known given && permitted false given ≡ false)
        × (get_malicious_behavior given false ≡ throw Exception.validation_error))
get_malicious_behavior_lem_example = get_malicious_behavior_lem given false
