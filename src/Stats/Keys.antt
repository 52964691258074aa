-- ===== src/Stats/Keys.antt =====
-- Which of the keys of the counters are different.
use proxydeck.Prelude.{◌≡◌, refl, true, false, [], ◌∷◌, ◌++◌, arith}
use proxydeck.Strings.{Text, lit, text_eq}
use proxydeck.Strings.Split.{has_prefix, Lacks}
use proxydeck.Redis.{conn_key}

-- A common beginning does not matter.
pub text_eq_append : (a b c : Text) → text_eq (a ++ b) (a ++ c) ≡ text_eq b c
unfolding text_eq
text_eq_append [] b c = refl
text_eq_append (d ∷ a) b c = ground (arith, text_eq_append a b c)

-- What follows a colon has no part in a prefix without one.
has_prefix-append :
    (a b p : Text) → Lacks b':' p → has_prefix a p ≡ false → has_prefix (a ++ b':' ∷ b) p ≡ false
unfolding has_prefix
has_prefix-append a b [] lacks h = ground arith
has_prefix-append [] b (d ∷ p) lacks h = ground arith
has_prefix-append (c ∷ a) b (d ∷ p) lacks h = ground (arith, has_prefix-append a b p lacks.1)

prefix-ne : (x y p : Text) → has_prefix x p ≡ false → has_prefix y p ≡ true → text_eq x y ≡ false
unfolding has_prefix text_eq
prefix-ne x y [] h k = ground arith
prefix-ne [] [] (d ∷ p) h k = ground arith
prefix-ne [] (c ∷ y) (d ∷ p) h k = refl
prefix-ne (b ∷ x) [] (d ∷ p) h k = refl
prefix-ne (b ∷ x) (c ∷ y) (d ∷ p) h k = ground (arith, prefix-ne x y p)

-- The counters of a user are not those of a node, unless the user's id begins like them.
pub user_key-ne-node_key :
    (uid rest node : Text)
    → has_prefix uid (lit "node") ≡ false
    → text_eq (lit "usage:" ++ (uid ++ b':' ∷ rest)) (lit "usage:node:" ++ node) ≡ false
unfolding text_eq has_prefix
user_key-ne-node_key uid rest node h =
    prefix-ne (uid ++ b':' ∷ rest) (lit "node:" ++ node) (lit "node")
      (has_prefix-append uid rest (lit "node") (ground arith) h) refl

-- The counter of a user's connections is none of those that traffic goes to.
pub conn_key-ne-usage : (uid rest : Text) → text_eq (conn_key uid) (lit "usage:" ++ rest) ≡ false
unfolding conn_key text_eq
conn_key-ne-usage uid rest = refl
