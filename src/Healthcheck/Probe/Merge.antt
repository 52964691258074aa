-- ===== src/Healthcheck/Probe/Merge.antt =====
-- Merging the answers of several sources: the first that says something of a field wins.
use proxydeck.Prelude.{◌≡◌, refl, [], ◌∷◌}
use proxydeck.Strings.{Text, is_empty}
use proxydeck.Healthcheck.Probe.{ProbeInfo, first_text, merge_probe_info}

first_text_assoc : (a b c : Text) → first_text (first_text a b) c ≡ first_text a (first_text b c)
unfolding is_empty
first_text_assoc [] b c = refl
first_text_assoc (x ∷ a) b c = refl

first_text_idem : (a : Text) → first_text a a ≡ a
unfolding is_empty
first_text_idem [] = refl
first_text_idem (x ∷ a) = refl

-- The way in which merges are grouped makes no difference, and merging a source with itself changes
-- nothing.
merge_probe_info_assoc :
    (a b c : ProbeInfo)
    → (merge_probe_info (merge_probe_info a b) c ≡ merge_probe_info a (merge_probe_info b c))
      × (merge_probe_info a a ≡ a)
unfolding merge_probe_info
merge_probe_info_assoc a b c = (
  λ i. record {
    ip = first_text_assoc a.ip b.ip c.ip i;
    city = first_text_assoc a.city b.city c.city i;
    country = first_text_assoc a.country b.country c.country i;
    region = first_text_assoc a.region b.region c.region i;
    org = first_text_assoc a.org b.org c.org i;
  },
  λ i. record {
    ip = first_text_idem a.ip i;
    city = first_text_idem a.city i;
    country = first_text_idem a.country i;
    region = first_text_idem a.region i;
    org = first_text_idem a.org i;
  },
)
