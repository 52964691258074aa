-- ===== src/Admin.antt =====
-- backend/internal/adminapi/server.go: what the handlers answer. A request is what gin decodes; the
-- decoder's error is an argument.
pub mod Sessions
pub mod Columns
pub mod Users
pub mod Subscriptions
pub mod Nodes
use proxydeck.Prelude.{ℕ, ◌⊎◌, Option, none, some}
use proxydeck.Prelude.Int.{ℤ}
use proxydeck.Errors.{Error}
use proxydeck.Strings.{Text, lit}
use proxydeck.Model.{User, Subscription, ProxyNode}
use proxydeck.Subscription.Value.{Fields}

-- The body of an answer: nothing, an error, `{"ok": true}`, a user's name, a row, a user's row with
-- the count of connections, how many nodes an import stored, or a node with the tag and the description that
-- are shown.
pub data Body : Type 0 where
  empty done : Body
  failure : Error → Body
  username : Text → Body
  user_row : User → Body
  user_view : User → ℤ → Body
  subscription_row : Subscription → Body
  imported : ℕ → Body
  node_view : Text → Text ⊎ Fields → ProxyNode → Body

-- `cookie` is the value and the age that the answer gives to `admin_token`.
pub record Reply : Type 0 where
  pub status : ℕ
  pub cookie : Option (Text × ℤ)
  pub body : Body

abbrev pub reply : ℕ → Body → Reply
reply status body = record { status = status; cookie = none; body = body }

abbrev pub fail : ℕ → Error → Reply
fail status e = reply status (failure e)
