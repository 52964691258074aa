-- ===== src/Subscription/Node.antt =====
-- `parsedNode` of subscription/service.go, and the text that is its key in the node table.
use proxydeck.Prelude.{Bool, List, [], ◌∷◌, ◌++◌, Option, none, some}
use proxydeck.Errors.{Result, ok, err, message}
use proxydeck.Prelude.Int.{ℤ}
use proxydeck.Strings.{Text, lit}
use proxydeck.Strings.Number.{format_int}
use proxydeck.Subscription.Value.{Fields, field, text, int}

pub record ParsedNode : Type 0 where
  pub protocol : Text
  pub host : Text
  pub port : ℤ
  pub username : Text
  pub password : Text
  pub tls_enabled : Bool
  pub tls_skip_verify : Bool
  pub server_name : Text
  pub tag : Text
  pub expected_region : Text
  pub raw_json : Text

-- `%s:%d`
unfoldable pub host_port : Text → ℤ → Text
host_port host port = host ++ (lit ":" ++ format_int port)

-- `%s://%s:%d`
unfoldable pub node_key : Text → Text → ℤ → Text
unfolding host_port
node_key protocol host port = protocol ++ (lit "://" ++ host_port host port)

-- The entries that the description of a node has in every format, before those of its own.
unfoldable pub node_fields : Text → Text → Text → ℤ → Text → Fields → Fields
node_fields source protocol server port tag rest = field (lit "source_format") (text source) (
    field (lit "type") (text protocol) (
      field (lit "server") (text server)
        (field (lit "server_port") (int port) (field (lit "tag") (text tag) rest))))

-- `if len(nodes) == 0 { return nil, … }`
abbrev pub or_empty : Text → Result (List ParsedNode) → Result (List ParsedNode)
or_empty why (ok []) = err (message why)
or_empty why (ok (node ∷ nodes)) = ok (node ∷ nodes)
or_empty why (err e) = err e

-- `append(nodes, node)` behind `if !ok { continue }`
abbrev pub add_node : Option ParsedNode → List ParsedNode → List ParsedNode
add_node none nodes = nodes
add_node (some node) nodes = node ∷ nodes
