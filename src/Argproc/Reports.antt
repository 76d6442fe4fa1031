-- ===== src/Argproc/Reports.antt =====
-- argproc/argproc.go: what the quotas of a proc string tell the stats.
--
-- Identities are numbers, as in the models of the stats and of the quotas.
use scat.Prelude.{ℕ, true, false, none, some, List, [], ◌∷◌}
use scat.Prelude.Dict.{lookup, insert}
use scat.Stats.{Quota, Statsd, counter}
use scat.Stores.Quota.{Man, add_res_quota, add_use}

-- An assignment to fields of `st.Counter(id).Quota`.
unfoldable pub set_quota : (Quota → Quota) → ℕ → Statsd → Statsd
unfolding counter
set_quota f id st =
    let st' = counter st id in
    elim (lookup id st'.counters) [
      | none ↦ st'
      | some c ↦ record st' { counters = insert id (record c { quota = f c.quota }) st'.counters }
    ]

-- The filter of `newArgQuota`, for each quota that is read.
unfoldable pub report_max : ℕ → ℕ → Statsd → Statsd
unfolding set_quota
report_max id max st = set_quota (λ q. record q { max = max }) id st

-- `OnUse`
unfoldable pub on_use : ℕ → ℕ → ℕ → Statsd → Statsd
unfolding set_quota
on_use id use_ max st = set_quota (λ q. record q { use_ = use_; max = max }) id st

-- `AddUse`, with its callback.
unfoldable pub use_reported : ℕ → ℕ → Man × Statsd → Man × Statsd
unfolding on_use add_use
use_reported id n w =
    let r = add_use w.0 id n in
    (r.0, elim r.1 [ none ↦ w.1 | some (use_, max) ↦ on_use id use_ max w.1 ])

-- `quotaInitReport.Ls`: the listing sees the stats, and may change them.
unfoldable pub quota_init_ls : {A : Type 0} → ℕ → (Statsd → A × Statsd) → Statsd → A × Statsd
unfolding set_quota
quota_init_ls id ls st =
    let r = ls (set_quota (λ q. record q { init = true }) id st) in
    (r.0, set_quota (λ q. record q { init = false }) id r.1)

-- The quotas of a proc string: each is told the stats when it is read, and then all are registered.
unfoldable pub reported : List (ℕ × ℕ) → Statsd → Statsd
unfolding report_max
reported [] st = st
reported ((id, max) ∷ qs) st = reported qs (report_max id max st)

unfoldable pub registered : List (ℕ × ℕ) → Man → Man
unfolding add_res_quota
registered [] m = m
registered ((id, max) ∷ qs) m = registered qs (add_res_quota m id max)
