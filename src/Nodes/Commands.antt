-- ===== src/Nodes/Commands.antt =====
-- The commands of redisstore/store.go and selector/service.go on nodes, sets and sticky keys, as an
-- interface. The laws state what the commands do when they succeed.
use proxydeck.Prelude.{
  ℕ, ◌≡◌, Bool, true, false, ◌&&◌, ◌==◌, List, [], ◌∷◌, Option, none, some, All, if◌then◌else◌,
}
use proxydeck.Errors.{Result, ok}
use proxydeck.Strings.{Text, lit, text_eq}
use proxydeck.Strings.Split.{has_prefix}
use proxydeck.Strings.Number.{format_uint}
use proxydeck.Model.{ProxyNode}
use proxydeck.Redis.{Err}
use proxydeck.Subscription.Protocol.{one_of}

-- The commands of a transaction: SET of a node's JSON, DEL, SADD and SREM.
pub data Command : Type 0 where
  set_node : Text → ProxyNode → Command
  del_keys : List Text → Command
  s_add s_rem : Text → ℕ → Command

-- Whether an id is a member of the set at a key behind the commands.
abbrev pub member_after : Text → ℕ → List Command → Bool → Bool
member_after k id [] b = b
member_after k id (set_node j n ∷ cs) b = member_after k id cs b
member_after k id (del_keys js ∷ cs) b = member_after k id cs (if one_of k js then false else b)
member_after k id (s_add j i ∷ cs) b =
    member_after k id cs (if text_eq k j && (id == i) then true else b)
member_after k id (s_rem j i ∷ cs) b =
    member_after k id cs (if text_eq k j && (id == i) then false else b)

-- The node at a key behind the commands.
abbrev pub entry_after : Text → List Command → Option ProxyNode → Option ProxyNode
entry_after k [] o = o
entry_after k (set_node j n ∷ cs) o = entry_after k cs (if text_eq k j then some n else o)
entry_after k (del_keys js ∷ cs) o = entry_after k cs (if one_of k js then none else o)
entry_after k (s_add j i ∷ cs) o = entry_after k cs o
entry_after k (s_rem j i ∷ cs) o = entry_after k cs o

pub record NodeRedis : Type 1 where
  pub State : Type 0
  -- what a transaction, a set, a node's key and a sticky key hold
  pub has : State → Text → ℕ → Bool
  pub entry : State → Text → Option ProxyNode
  pub pointer : State → Text → Option ℕ
  -- GET and decoding of a node; GET of a number; SET of a number
  pub get_node : Text → State → Result ProxyNode
  pub get_uint : Text → State → Result ℕ
  pub set_uint : Text → ℕ → State → Err × State
  -- KEYS, DEL, SINTER (of one key: SMEMBERS) and a transaction
  pub keys : Text → State → Result (List Text)
  pub del : List Text → State → Err × State
  pub s_inter : List Text → State → Result (List Text)
  pub exec : List Command → State → Err × State
  pub get_node_ok :
      (k : Text) (s : State) (n : ProxyNode) → get_node k s ≡ ok n → entry s k ≡ some n
  pub get_uint_ok : (k : Text) (s : State) (i : ℕ) → get_uint k s ≡ ok i → pointer s k ≡ some i
  pub set_uint_ok :
      (k : Text) (i : ℕ) (s t : State)
      → set_uint k i s ≡ (none, t)
      → (pointer t k ≡ some i)
        × ((j : Text) (id : ℕ) → has t j id ≡ has s j id)
        × ((j : Text) → entry t j ≡ entry s j)
  pub del_ok :
      (ks : List Text) (s t : State)
      → del ks s ≡ (none, t)
      → ((k : Text) → pointer t k ≡ (if one_of k ks then none else pointer s k))
        × ((k : Text) (id : ℕ) → has t k id ≡ (if one_of k ks then false else has s k id))
        × ((k : Text) → entry t k ≡ (if one_of k ks then none else entry s k))
  pub keys_ok :
      (s : State) (ks : List Text)
      → keys (lit "sticky:*") s ≡ ok ks
      → All (λ k. has_prefix k (lit "sticky:") ≡ true) ks
        × ((k : Text) (i : ℕ)
            → has_prefix k (lit "sticky:") ≡ true
            → pointer s k ≡ some i
            → one_of k ks ≡ true)
  pub s_inter_ok :
      (ks ms : List Text) (s : State)
      → s_inter ks s ≡ ok ms
      → All (λ m. (id : ℕ) × (m ≡ format_uint id) × All (λ k. has s k id ≡ true) ks) ms
  pub exec_ok :
      (cs : List Command) (s t : State)
      → exec cs s ≡ (none, t)
      → ((k : Text) (id : ℕ) → has t k id ≡ member_after k id cs (has s k id))
        × ((k : Text) → entry t k ≡ entry_after k cs (entry s k))
        × ((k : Text) → pointer t k ≡ pointer s k)
