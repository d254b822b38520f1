-- ===== src/Runtime/Configure/Valid.antt =====
-- What a configured runtime can rely on.
use mini_gateway.Prelude.{
  All-imp, ℕ, suc, ◌<◌, ◌≡◌, ◌≢◌, ◌||◌, refl, ap, sym, Bool, true, false, not, String, Option, none,
  some, List, [], ◌∷◌, map, arith, All, Distinct, Fresh, Fresh-uncons, member, member-Absent,
  eq_iff, ok, >>=_returns, throw_if-eq-ok, Table, lookup, insert, lookup-insert, is_empty, leb,
  subst, ◌⊎◌, inl, inr, str_eq, length, ◌==◌,
}
use mini_gateway.Model.{GatewayConfig, CollectionGroup}
use mini_gateway.Scheduler.{create_policy}
use mini_gateway.Scheduler.Admit.{create_policy_keeps}
use mini_gateway.Runtime.{AcquisitionMode, poll, push, find_device}
use mini_gateway.Runtime.Lifecycle.{is_mode}
use mini_gateway.Runtime.Configure.{
  DriverInstance, EventPublisherInstance, configure_drivers, check_groups, configure_publishers,
  validate_and_configure, make_tasks,
}

-- A group has an id, a positive interval and timeout, and a device that is polled.
abbrev pub IsPolledGroup : Table AcquisitionMode → CollectionGroup → Type 0
IsPolledGroup modes g =
    (g.id ≢ "") × (0 < g.interval) × (0 < g.timeout) × (lookup g.device_id modes ≡ some poll)

is_mode_poll : (o : Option AcquisitionMode) → is_mode poll o ≡ true → o ≡ some poll
is_mode_poll none h = cc
is_mode_poll (some poll) h = refl
is_mode_poll (some push) h = cc

check_groups_sound :
    (modes : Table AcquisitionMode) (seen : List String) (groups : List CollectionGroup)
    → check_groups modes seen groups ≡ ok tt
    → All (IsPolledGroup modes) groups
      × Distinct (map (λ g. g.id) groups)
      × Fresh seen (map (λ g. g.id) groups)
unfolding check_groups
check_groups_sound modes seen [] h = (tt, tt, tt)
check_groups_sound modes seen (g ∷ gs) h =
    let (named, h₁) = throw_if-eq-ok (is_empty g.id || member g.id seen) _ _ h in
    let (positive, h₂) = throw_if-eq-ok (leb g.interval 0 || leb g.timeout 0) _ _ h₁ in
    let (polled, h₃) = throw_if-eq-ok (not (is_mode poll (lookup g.device_id modes))) _ _ h₂ in
    let (valid, distinct, fresh) = check_groups_sound modes (g.id ∷ seen) gs h₃ in
    let (absent, rest) = Fresh-uncons g.id seen (map (λ u. u.id) gs) fresh in
    let new : member g.id seen ≡ false = ground arith in
    (
      (
        (
          ground (arith, eq_iff g.id ""),
          ground arith,
          ground arith,
          is_mode_poll (lookup g.device_id modes) (ground arith),
        ),
        valid,
      ),
      (absent, distinct),
      ((member-Absent g.id seen).0 new, rest),
    )

tasks_ids :
    (start_time index : ℕ) (groups : List CollectionGroup)
    → map (λ t. t.group_id) (make_tasks start_time index groups) ≡ map (λ g. g.id) groups
unfolding make_tasks
tasks_ids start_time index [] = refl
tasks_ids start_time index (g ∷ gs) = ap (λ ids. g.id ∷ ids) (tasks_ids start_time (suc index) gs)

tasks_valid :
    (start_time index : ℕ) (groups : List CollectionGroup)
    → All (λ g. (g.id ≢ "") × (0 < g.interval)) groups
    → All (λ t. (t.group_id ≢ "") × (0 < t.interval)) (make_tasks start_time index groups)
unfolding make_tasks
tasks_valid start_time index [] h = tt
tasks_valid start_time index (g ∷ gs) h = (h.0, tasks_valid start_time (suc index) gs h.1)

-- The policy admits the tasks of groups with distinct ids and positive intervals.
pub create_policy-make_tasks :
    (start_time : ℕ) (groups : List CollectionGroup)
    → All (λ g. (g.id ≢ "") × (0 < g.interval)) groups
    → Distinct (map (λ g. g.id) groups)
    → create_policy (make_tasks start_time 0 groups) ≡ ok (make_tasks start_time 0 groups)
create_policy-make_tasks start_time groups valid distinct =
    create_policy_keeps (make_tasks start_time 0 groups) (
      tasks_valid start_time 0 groups valid,
      subst Distinct (sym (tasks_ids start_time 0 groups)) distinct,
    )

abbrev pub HasMode : Table AcquisitionMode → String → Type 0
HasMode modes id = (m : AcquisitionMode) × (lookup id modes ≡ some m)

HasMode-insert :
    (k : String) (m : AcquisitionMode) (modes : Table AcquisitionMode) (id : String)
    → (k ≡ id) ⊎ HasMode modes id
    → HasMode (insert k m modes) id
HasMode-insert k m modes id h = go (str_eq k id) refl h
  where
    go : (b : Bool) → str_eq k id ≡ b → (k ≡ id) ⊎ HasMode modes id → HasMode (insert k m modes) id
    go true e h = (m, simp (lookup-insert k id m modes, e))
    go false e (inl same) = absurd (ground (arith, eq_iff k id))
    go false e (inr (n, found)) = (n, simp (lookup-insert k id m modes, e, found))

-- One round of the loop over the drivers, when the loop returns.
configure_drivers_step :
    (config : GatewayConfig) (seen : List String) (modes : Table AcquisitionMode)
    (i : DriverInstance) (is : List DriverInstance) {result : List String × Table AcquisitionMode}
    → configure_drivers config seen modes (i ∷ is) ≡ ok result
    → (m : AcquisitionMode) × (configure_drivers config
          (i.device_id ∷ seen)
          (insert i.device_id m modes)
          is
        ≡ ok result)
unfolding configure_drivers
configure_drivers_step config seen modes i is h =
    let (a, h₁) = throw_if-eq-ok (is_empty i.device_id || not i.has_driver) _ _ h in
    let (b, h₂) = throw_if-eq-ok (member i.device_id seen) _ _ h₁ in
    let (device, h₃, found) = >>=_returns (find_device config i.device_id) _ h₂ in
    let (u, h₄, configured) = >>=_returns (i.configure device) _ h₃ in
    let (m, h₅, capable) = >>=_returns i.capabilities _ h₄ in (m, h₅)

configure_drivers_keeps :
    (config : GatewayConfig) (seen : List String) (modes : Table AcquisitionMode)
    (is : List DriverInstance) {result : List String × Table AcquisitionMode} (id : String)
    → configure_drivers config seen modes is ≡ ok result
    → HasMode modes id
    → HasMode result.1 id
unfolding configure_drivers
configure_drivers_keeps config seen modes [] {result} id h has =
    let same : modes ≡ result.1 = cc in subst (λ t. HasMode t id) same has
configure_drivers_keeps config seen modes (i ∷ is) id h has =
    let (m, rest) = configure_drivers_step config seen modes i is h in
    configure_drivers_keeps config (i.device_id ∷ seen) (insert i.device_id m modes) is id rest
      (HasMode-insert i.device_id m modes id (inr has))

configure_drivers_modes :
    (config : GatewayConfig) (seen : List String) (modes : Table AcquisitionMode)
    (is : List DriverInstance) {result : List String × Table AcquisitionMode}
    → configure_drivers config seen modes is ≡ ok result
    → All (HasMode result.1) (map (λ i. i.device_id) is)
configure_drivers_modes config seen modes [] h = tt
configure_drivers_modes config seen modes (i ∷ is) h =
    let (m, rest) = configure_drivers_step config seen modes i is h in
    (
      configure_drivers_keeps config (i.device_id ∷ seen) (insert i.device_id m modes) is
          i.device_id rest (HasMode-insert i.device_id m modes i.device_id (inl refl)),
      configure_drivers_modes config (i.device_id ∷ seen) (insert i.device_id m modes) is rest,
    )

pub record IsConfigured (config : GatewayConfig) (drivers : List DriverInstance)
    (modes : Table AcquisitionMode) (start_time : ℕ) : Type 0 where
  pub modes_known : All (HasMode modes) (map (λ i. i.device_id) drivers)
  pub groups : All (IsPolledGroup modes) config.groups
  pub schedule :
      create_policy (make_tasks start_time 0 config.groups)
      ≡ ok (make_tasks start_time 0 config.groups)

-- When `validate_and_configure` returns, every driver instance has a mode (so that `stop` stops each
-- driver once), every collection group has an id, a positive interval and timeout and a device
-- that is polled, and the scheduling policy admits the tasks that `start` makes of the groups, at
-- whatever time it is called.
pub validate_and_configure-IsConfigured :
    (config : GatewayConfig) (drivers : List DriverInstance)
    (event_publishers : List EventPublisherInstance) (start_time : ℕ)
    {modes : Table AcquisitionMode}
    → validate_and_configure config drivers event_publishers ≡ ok modes
    → IsConfigured config drivers modes start_time
unfolding validate_and_configure
validate_and_configure-IsConfigured config drivers event_publishers start_time {modes} h =
    let (configured, h₁, e) = >>=_returns (configure_drivers config [] [] drivers) _ h in
    let (sizes, h₂) = throw_if-eq-ok (not (length configured.0 == length config.devices)) _ _ h₁ in
    let (u, h₃, checked) = >>=_returns (check_groups configured.1 [] config.groups) _ h₂ in
    let (v, h₄, published) = >>=_returns (configure_publishers config [] event_publishers) _ h₃ in
    let same : configured.1 ≡ modes = cc in
    let (valid, distinct, fresh) = check_groups_sound configured.1 [] config.groups checked in
    record {
      modes_known =
          subst (λ t. All (HasMode t) (map (λ i. i.device_id) drivers)) same
            (configure_drivers_modes config [] [] drivers e);
      groups = subst (λ t. All (IsPolledGroup t) config.groups) same valid;
      schedule =
          create_policy-make_tasks start_time config.groups
            (All-imp (IsPolledGroup configured.1) (λ g. (g.id ≢ "") × (0 < g.interval))
              config.groups (λ g h. (h.0, h.1)) valid)
            distinct;
    }
