-- ===== src/Icinga/Entities.antt =====
-- The counts over the hosts and the services: `get_host_stats`, `get_svc_stats`, `_sanitize_entity`
-- and the four `_trans` methods of src/diamond/collectors/icinga_stats/icinga_stats.py.
use fullerite.Base.{ℕ, zero, suc, ◌+◌, Option, none, some, List, [], ◌∷◌, ◌++◌}
use fullerite.Base.Int.{ℤ, pos, negsuc}
use fullerite.Base.Text.{Str, codes}
use fullerite.Base.Dict.{Dict, lookup}
use fullerite.Base.Result.{Result, ok, err, type_error, bind}
use fullerite.Python.{Float}
use fullerite.Icinga.Parse.{Entity}

-- The sane entity. None is a missing key or a text that is no integer.
pub record Sane : Type 0 where
  pub state : Option ℤ
  pub flapping : Option ℤ
  pub in_downtime : Option ℤ
  pub checked : Option ℤ
  pub scheduled : Option ℤ
  pub active_checks : ℕ
  pub passive_checks : ℕ

-- A value that is in [0, 1], and 0 for any other one.
abbrev pub zero_or_one : Option ℤ → ℕ
zero_or_one (some (pos zero)) = 0
zero_or_one (some (pos (suc zero))) = 1
zero_or_one v = 0

-- The passive checks of an entity whose active checks are known.
abbrev pub passive_beside : ℕ → Option ℤ → ℕ
passive_beside zero v = zero_or_one v
passive_beside (suc n) v = 0

-- `_trans_binary`, whose `int(None)` is a TypeError and not caught
unfoldable pub trans_binary : Option ℤ → Result ℕ
trans_binary none = err type_error
trans_binary (some n) = ok (zero_or_one (some n))

-- `_trans_dtime`
unfoldable pub trans_dtime : Option ℤ → Result ℕ
trans_dtime none = err type_error
trans_dtime (some (pos n)) = ok n
trans_dtime (some (negsuc n)) = ok 0

-- What the two kinds of entity have in common.
pub record Tally : Type 0 where
  pub total : ℕ
  pub flapping : ℕ
  pub in_downtime : ℕ
  pub checked : ℕ
  pub scheduled : ℕ
  pub active_checks : ℕ
  pub passive_checks : ℕ

abbrev pub no_tally : Tally
no_tally = record {
  total = 0;
  flapping = 0;
  in_downtime = 0;
  checked = 0;
  scheduled = 0;
  active_checks = 0;
  passive_checks = 0;
}

-- one more entity, with what the four values were translated to
abbrev pub grow : Sane → ℕ → ℕ → ℕ → ℕ → Tally → Tally
grow s f d c p t = record {
  total = t.total + 1;
  flapping = t.flapping + f;
  in_downtime = t.in_downtime + d;
  checked = t.checked + c;
  scheduled = t.scheduled + p;
  active_checks = t.active_checks + s.active_checks;
  passive_checks = t.passive_checks + s.passive_checks;
}

unfoldable pub tally_entity : Sane → Tally → Result Tally
unfolding trans_binary trans_dtime
tally_entity s t = bind (trans_binary s.flapping) λ f. bind (trans_dtime s.in_downtime) λ d.
    bind (trans_binary s.checked) λ c. bind (trans_binary s.scheduled) λ p. ok (grow s f d c p t)

pub record HostStates : Type 0 where
  pub up : ℕ
  pub down : ℕ
  pub unreachable : ℕ

pub record SvcStates : Type 0 where
  pub fine : ℕ
  pub warning : ℕ
  pub critical : ℕ
  pub unknown : ℕ

-- `_trans_host_state` and the increment of the counter that it names
unfoldable pub count_host_state : Option ℤ → HostStates → HostStates
count_host_state (some (pos zero)) h = record h { up = h.up + 1 }
count_host_state (some (pos (suc zero))) h = record h { down = h.down + 1 }
count_host_state v h = record h { unreachable = h.unreachable + 1 }

-- `_trans_svc_state` and the increment of the counter that it names
unfoldable pub count_svc_state : Option ℤ → SvcStates → SvcStates
count_svc_state (some (pos zero)) h = record h { fine = h.fine + 1 }
count_svc_state (some (pos (suc zero))) h = record h { warning = h.warning + 1 }
count_svc_state (some (pos (suc (suc zero)))) h = record h { critical = h.critical + 1 }
count_svc_state v h = record h { unknown = h.unknown + 1 }

module _ (fl : Float) where
  open fl use {parse_int}

  abbrev pub parse_or_none : Option Str → Option ℤ
  parse_or_none none = none
  parse_or_none (some s) = parse_int s

  -- `entity[key]` as an integer
  abbrev pub int_of : Str → Entity → Option ℤ
  int_of key entity = parse_or_none (lookup key entity)

  -- `_sanitize_entity`
  unfoldable pub sanitize_entity : Entity → Sane
  unfolding lookup
  sanitize_entity entity =
      let active = zero_or_one (int_of (codes "active_checks_enabled") entity) in
      record {
        state = int_of (codes "current_state") entity;
        flapping = int_of (codes "is_flapping") entity;
        in_downtime = int_of (codes "scheduled_downtime_depth") entity;
        checked = int_of (codes "has_been_checked") entity;
        scheduled = int_of (codes "should_be_scheduled") entity;
        active_checks = active;
        passive_checks = passive_beside active (int_of (codes "passive_checks_enabled") entity);
      }

  -- the loop of `get_host_stats`
  unfoldable pub count_hosts : List Entity → Tally → HostStates → Result (Tally × HostStates)
  unfolding sanitize_entity tally_entity count_host_state
  count_hosts [] t h = ok (t, h)
  count_hosts (host ∷ hosts) t h =
      let sane = sanitize_entity host in
      bind (tally_entity sane t) λ next. count_hosts hosts next (count_host_state sane.state h)

  -- the loop of `get_svc_stats`
  unfoldable pub count_svcs : List Entity → Tally → SvcStates → Result (Tally × SvcStates)
  unfolding sanitize_entity tally_entity count_svc_state
  count_svcs [] t h = ok (t, h)
  count_svcs (svc ∷ svcs) t h =
      let sane = sanitize_entity svc in
      bind (tally_entity sane t) λ next. count_svcs svcs next (count_svc_state sane.state h)

-- The metrics of a tally, with the counts of the states in between.
abbrev pub metric_name : Str → Str → Str
metric_name kind name = kind ++ b'.' ∷ name

abbrev pub tally_metrics : Str → Tally → Dict ℕ
tally_metrics kind t =
    (metric_name kind (codes "flapping"), t.flapping)
    ∷ (metric_name kind (codes "in_downtime"), t.in_downtime)
    ∷ (metric_name kind (codes "checked"), t.checked)
    ∷ (metric_name kind (codes "scheduled"), t.scheduled)
    ∷ (metric_name kind (codes "active_checks"), t.active_checks)
    ∷ (metric_name kind (codes "passive_checks"), t.passive_checks)
    ∷ []

unfoldable pub host_metrics : Tally → HostStates → Dict ℕ
host_metrics t h =
    (codes "hosts.total", t.total)
    ∷ (codes "hosts.ok", h.up)
    ∷ (codes "hosts.down", h.down)
    ∷ (codes "hosts.unreachable", h.unreachable)
    ∷ tally_metrics (codes "hosts") t

unfoldable pub svc_metrics : Tally → SvcStates → Dict ℕ
svc_metrics t h =
    (codes "services.total", t.total)
    ∷ (codes "services.ok", h.fine)
    ∷ (codes "services.warning", h.warning)
    ∷ (codes "services.critical", h.critical)
    ∷ (codes "services.unknown", h.unknown)
    ∷ tally_metrics (codes "services") t
