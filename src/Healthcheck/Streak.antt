-- ===== src/Healthcheck/Streak.antt =====
-- When a node loses its health.
use proxydeck.Prelude.{ℕ, zero, suc, ◌<◌, ◌^◌, ◌≡◌, refl, ap, ◌∙◌, true, false, ◌&&◌, arith}
use proxydeck.Prelude.Int.{ℤ, pos, ◌+ℤ◌, ltb_ℤ, wrap64}
use proxydeck.Model.{ProxyNode}
use proxydeck.Healthcheck.Probe.{ProbeInfo}
use proxydeck.Healthcheck.{mark_failure, mark_success}

-- `n` failed checks in a row, at the instants that `now` gives
pub failures : ℤ → (ℕ → ℤ) → ℕ → ProxyNode → ProxyNode
failures max_fail_count now zero node = node
failures max_fail_count now (suc n) node =
    mark_failure max_fail_count (now n) (failures max_fail_count now n node)

next_count : (n : ℕ) → suc n < 2 ^ 63 → wrap64 (pos n +ℤ pos 1) ≡ pos (suc n)
unfolding wrap64 ◌+ℤ◌
next_count n h = ground arith

failed_health :
    (m t : ℤ) (node : ProxyNode) (k : ℕ)
    → node.fail_count ≡ pos k
    → suc k < 2 ^ 63
    → (mark_failure m t node).healthy ≡ (node.healthy && ltb_ℤ (pos (suc k)) m)
unfolding mark_failure
failed_health m t node k e h =
    ap (λ (c : ℤ). node.healthy && ltb_ℤ c m)
      (ap (λ (c : ℤ). wrap64 (c +ℤ pos 1)) e ∙ next_count k h)

stricter :
    (m : ℤ) (k : ℕ)
    → (ltb_ℤ (pos (suc k)) m && ltb_ℤ (pos (suc (suc k))) m) ≡ ltb_ℤ (pos (suc (suc k))) m
stricter m k = ground arith

module _ (m : ℤ) (now : ℕ → ℤ) (node : ProxyNode) (fresh : node.fail_count ≡ pos 0)
    (well : node.healthy ≡ true) where
  failures-count : (n : ℕ) → n < 2 ^ 63 → (failures m now n node).fail_count ≡ pos n
  unfolding failures mark_failure
  failures-count zero h = fresh
  failures-count (suc n) h =
      ap (λ (c : ℤ). wrap64 (c +ℤ pos 1)) (failures-count n (omega arith)) ∙ next_count n h

  failures-healthy :
      (n : ℕ) → suc n < 2 ^ 63 → (failures m now (suc n) node).healthy ≡ ltb_ℤ (pos (suc n)) m
  unfolding failures
  failures-healthy zero h = failed_health m (now 0) node 0 fresh h ∙ rw well
  failures-healthy (suc n) h =
      let ih = failures-healthy n (omega arith) in
      let c = failures-count (suc n) (omega arith) in
      failed_health m (now (suc n)) (failures m now (suc n) node) (suc n) c h
      ∙ (ap (λ b. b && ltb_ℤ (pos (suc (suc n))) m) ih ∙ stricter m n)

-- After a successful check and then `n + 1` failed ones, whatever the node was like before, it has
-- failed `n + 1` times, if that fits in `int64`, and it is healthy exactly if that is below the limit.
pub failures_after_success :
    (m latency checked : ℤ) (info : ProbeInfo) (node : ProxyNode) (now : ℕ → ℤ) (n : ℕ)
    → suc n < 2 ^ 63
    → let end = failures m now (suc n) (mark_success info latency checked node) in
      (end.fail_count ≡ pos (suc n)) × (end.healthy ≡ ltb_ℤ (pos (suc n)) m)
unfolding mark_success
failures_after_success m latency checked info node now n h =
    let start = mark_success info latency checked node in
    (failures-count m now start refl refl (suc n) h, failures-healthy m now start refl refl n h)

-- A node that is not healthy stays so through any number of failed checks.
failures_stay_down :
    (m : ℤ) (now : ℕ → ℤ) (n : ℕ) (node : ProxyNode)
    → node.healthy ≡ false
    → (failures m now n node).healthy ≡ false
unfolding failures mark_failure
failures_stay_down m now zero node h = h
failures_stay_down m now (suc n) node h = rw (failures_stay_down m now n node h)
