-- ===== src/Healthcheck/Rounds.antt =====
-- `CheckAll` and `CheckNodes` of healthcheck/service.go. `check` is `CheckOne` with its lookup of the
-- node; `healthy` reads the column of a node.
use proxydeck.Prelude.{ℕ, suc, Bool, true, false, List, [], ◌∷◌, none, some, length}
use proxydeck.Errors.{Result, ok, err}
use proxydeck.Model.{ProxyNode}
use proxydeck.Redis.{Err}

pub record Summary : Type 0 where
  pub total : ℕ
  pub healthy : ℕ
  pub unhealthy : ℕ
  pub failed : ℕ
  pub checked_ids : List ℕ

abbrev pub count_failed : Err → Summary → Summary
count_failed none m = m
count_failed (some e) m = record m { failed = suc m.failed }

abbrev pub count_health : Result Bool → Summary → Summary
count_health (err e) m = record m { unhealthy = suc m.unhealthy }
count_health (ok true) m = record m { healthy = suc m.healthy }
count_health (ok false) m = record m { unhealthy = suc m.unhealthy }

module _ {S : Type 0} (check : ℕ → S → Err × S) (healthy : ℕ → S → Result Bool) where
  -- the loop of `CheckAll`, which drops the errors
  unfoldable pub check_rows : List ProxyNode → S → S
  check_rows [] s = s
  check_rows (node ∷ nodes) s = check_rows nodes (check node.id s).1

  abbrev pub check_all : Result (List ProxyNode) → S → Err × S
  check_all (err e) s = (some e, s)
  check_all (ok nodes) s = (none, check_rows nodes s)

  unfoldable pub check_loop : List ℕ → Summary → S → Summary × S
  check_loop [] m s = (m, s)
  check_loop (id ∷ ids) m s =
      let p = check id s in check_loop ids (count_health (healthy id p.1) (count_failed p.0 m)) p.1

  unfoldable pub check_nodes : List ℕ → S → Summary × S
  unfolding check_loop
  check_nodes ids s =
      check_loop ids
        (record { total = length ids; healthy = 0; unhealthy = 0; failed = 0; checked_ids = ids }) s
