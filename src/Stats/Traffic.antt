-- ===== src/Stats/Traffic.antt =====
-- What `RecordTraffic` does to the counters.
use proxydeck.Prelude.{◌≡◌, ◌∷◌, ◌++◌}
use proxydeck.Strings.{Text, lit, text_eq}
use proxydeck.Redis.{Redis}
use proxydeck.Redis.Pipeline.{Pipeline}
use proxydeck.Stats.Keys.{text_eq_append}

pub same_key :
    (uid a b : Text)
    → text_eq (lit "usage:" ++ (uid ++ b':' ∷ a)) (lit "usage:" ++ (uid ++ b':' ∷ b)) ≡ text_eq a b
unfolding text_eq
same_key uid a b = text_eq_append uid (b':' ∷ a) (b':' ∷ b)
