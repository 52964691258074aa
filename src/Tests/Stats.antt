-- ===== src/Tests/Stats.antt =====
-- The theorems on stats/service.go at a request of a user.
use proxydeck.Prelude.{ap, sym, none, if◌then◌else◌, List}
use proxydeck.Prelude.Int.{ℤ, pos, ◌+ℤ◌}
use proxydeck.Strings.{Text, lit, text_eq}
use proxydeck.Redis.{Err}
use proxydeck.Redis.Reference.{Counters, reference}
use proxydeck.Redis.Pipeline.{Pipeline, Command, applied}
use proxydeck.Stats.{TrafficRecord, record_traffic}
use proxydeck.Stats.Flush.{Accounts, flush_write}
use proxydeck.Tests.{idle}

abbrev exec : List Command → Counters → Err × Counters
exec cs s = (none, λ j. applied j cs (s j))

abbrev transactions : Pipeline reference
transactions = record {
  exec = exec;
  exec_ok = λ cs s t h j. sym (ap (λ (p : Err × Counters). p.1 j) h);
}

abbrev entry : TrafficRecord
entry = record {
  uid = lit "alice";
  node_id = 7;
  region = lit "US";
  upload = pos 10;
  download = pos 20;
  requests = pos 1;
}

abbrev counted : Counters
counted = (record_traffic reference transactions (lit "2024010100") entry idle).1

abbrev add_usage : Text → ℤ → ℤ → Counters → Err × Counters
add_usage uid n m d = (none, λ j. if text_eq j uid then d j +ℤ n else d j)

abbrev accounts : Accounts
accounts = record {
  Table = Counters;
  used = λ d. d;
  add_usage = add_usage;
  add_usage_ok = λ uid n m d d' h j. sym (ap (λ (p : Err × Counters). p.1 j) h);
}

abbrev flushed : Counters × Counters
flushed =
    (flush_write reference transactions accounts (lit "alice") (pos 10, pos 20) idle counted).1
