-- ===== src/Scheduler/Upsert.antt =====
-- `upsert_schedule` of sidecar/autoskill/db/scheduler.py.
use skill_kernel.Base.{
  ℕ, String, str_eq, str_eq_iff, Bool, true, false, ◌&&◌, List, [], ◌∷◌, ◌++◌, map, Option, none,
  some, ◌≡◌, ◌≢◌, refl, arith, ◌==◌, ==_refl, if◌then◌else◌, find?, Bool-cases, inl, inr, ◌⊎◌, leb,
  leb→le, ◌≤◌, ◌<◌, ◌^◌,
}
use skill_kernel.Jobs.Types.{Workspace, int4_max}
use skill_kernel.Jobs.Enqueue.{ensure_workspace, or_else}
use skill_kernel.Scheduler.Misfire.{Run, value, value_error, integer_out_of_range, is_supported}
use skill_kernel.Scheduler.Tick.{Schedule}

-- The keyword arguments.
pub record UpsertRequest : Type 0 where
  pub workspace_key : String
  pub name : String
  pub job_kind : String
  pub interval_seconds : ℕ
  pub next_run_at : ℕ
  pub payload : Option String
  pub enabled : Bool
  pub misfire_policy : String

-- The unique constraint `(workspace_id, name)`.
abbrev pub is_named : ℕ → String → Schedule → Bool
is_named ws name s = (s.workspace_id == ws) && str_eq s.name name

abbrev pub new_schedule : ℕ → ℕ → UpsertRequest → Schedule
new_schedule id ws r = record {
  schedule_id = id;
  workspace_id = ws;
  name = r.name;
  job_kind = r.job_kind;
  enabled = r.enabled;
  interval_seconds = r.interval_seconds;
  next_run_at = r.next_run_at;
  payload = or_else r.payload "{}";
  misfire_policy = r.misfire_policy;
}

-- `DO UPDATE SET …`
abbrev pub overwrite : UpsertRequest → Schedule → Schedule
overwrite r s = record s {
  job_kind = r.job_kind;
  enabled = r.enabled;
  interval_seconds = r.interval_seconds;
  next_run_at = r.next_run_at;
  payload = or_else r.payload "{}";
  misfire_policy = r.misfire_policy;
}

-- The row returned, whether it was created, and the table. The generated identifier is taken to be
-- new, so its primary key is not tested.
unfoldable pub put_schedule :
    ℕ → ℕ → UpsertRequest → List Schedule → Schedule × Bool × List Schedule
put_schedule fresh ws r ss = elim (find? (is_named ws r.name) ss) [
  | some old ↦
      (overwrite r old, false, map (λ s. if is_named ws r.name s then overwrite r s else s) ss)
  | none ↦ (new_schedule fresh ws r, true, ss ++ new_schedule fresh ws r ∷ [])
]

-- An interval that its column cannot hold is refused by the driver.
unfoldable pub upsert_schedule :
    ℕ
    → ℕ
    → UpsertRequest
    → List Workspace
    → List Schedule
    → Run (Schedule × Bool × List Workspace × List Schedule)
upsert_schedule fresh fresh_ws r workspaces ss =
    if is_supported r.misfire_policy
    then (if leb r.interval_seconds int4_max
        then (let (ws, workspaces') = ensure_workspace fresh_ws r.workspace_key workspaces in
            let (row, created, ss') = put_schedule fresh ws r ss in
            value (row, created, workspaces', ss'))
        else integer_out_of_range)
    else value_error

str_eq_self : (s : String) → str_eq s s ≡ true
str_eq_self s = (str_eq_iff s s).1 refl

is_named-new : (id ws : ℕ) (r : UpsertRequest) → is_named ws r.name (new_schedule id ws r) ≡ true
is_named-new id ws r = rw (==_refl ws) (str_eq_self r.name)

find?-overwritten :
    (ws : ℕ) (r : UpsertRequest) (ss : List Schedule) (old : Schedule)
    → find? (is_named ws r.name) ss ≡ some old
    → find? (is_named ws r.name) (map (λ s. if is_named ws r.name s then overwrite r s else s) ss)
      ≡ some (overwrite r old)
find?-overwritten ws r [] old e = cc
find?-overwritten ws r (s ∷ ss) old e = ground (arith, find?-overwritten ws r ss old)

find?-others :
    (ws ws' : ℕ) (name' : String) (r : UpsertRequest) (ss : List Schedule)
    → (ws' ≢ ws) ⊎ (name' ≢ r.name)
    → find? (is_named ws' name') (map (λ s. if is_named ws r.name s then overwrite r s else s) ss)
      ≡ find? (is_named ws' name') ss
find?-others ws ws' name' r [] other = refl
find?-others ws ws' name' r (s ∷ ss) other =
    ground (
      arith,
      find?-others ws ws' name' r ss other,
      str_eq_iff s.name name',
      str_eq_iff s.name r.name,
    )

find?-appended :
    (p : Schedule → Bool) (ss : List Schedule) (s : Schedule)
    → find? p ss ≡ none
    → p s ≡ true
    → find? p (ss ++ s ∷ []) ≡ some s
find?-appended p [] s h t = rw t
find?-appended p (x ∷ ss) s h t = ground (arith, find?-appended p ss s)

find?-not_appended :
    (p : Schedule → Bool) (ss : List Schedule) (s : Schedule)
    → p s ≡ false
    → find? p (ss ++ s ∷ []) ≡ find? p ss
find?-not_appended p [] s t = rw t
find?-not_appended p (x ∷ ss) s t = ground (arith, find?-not_appended p ss s)

-- What a lookup by workspace and name finds in the table afterwards.
abbrev pub Stored :
    ℕ → UpsertRequest → List Schedule → ℕ → String → Schedule × Bool × List Schedule → Type 0
Stored ws r ss ws' name' (row, created, ss') =
    (find? (is_named ws r.name) ss' ≡ some row)
    × (row ≡ overwrite r row)
    × (find? (is_named ws' name') ss' ≡ find? (is_named ws' name') ss)

put_schedule-Stored :
    (fresh ws : ℕ) (r : UpsertRequest) (ss : List Schedule) (ws' : ℕ) (name' : String)
    → (ws' ≢ ws) ⊎ (name' ≢ r.name)
    → Stored ws r ss ws' name' (put_schedule fresh ws r ss)
unfolding put_schedule
put_schedule-Stored fresh ws r ss ws' name' other = go (find? (is_named ws r.name) ss) refl
  where
    go :
        (o : Option Schedule)
        → find? (is_named ws r.name) ss ≡ o
        → Stored ws r ss ws' name' (put_schedule fresh ws r ss)
    go none e =
        rw (e, put_schedule)
          (
            find?-appended (is_named ws r.name) ss (new_schedule fresh ws r) e
                (is_named-new fresh ws r),
            refl,
            find?-not_appended (is_named ws' name') ss (new_schedule fresh ws r)
                (ground (arith, str_eq_iff r.name name')),
          )
    go (some old) e =
        rw (e, put_schedule)
          (find?-overwritten ws r ss old e, refl, find?-others ws ws' name' r ss other)

-- With an unsupported policy `upsert_schedule` raises, and so it does with an interval of 2 ^ 31
-- seconds or more. Otherwise it returns the row that the table then holds under the workspace and
-- name, and that row has the request's job kind, switch, interval, time, payload and policy; and a
-- lookup under any other workspace or name finds what it found before.
pub upsert_schedule-lookup :
    (fresh fresh_ws ws' : ℕ) (name' : String) (r : UpsertRequest) (workspaces : List Workspace)
    (ss : List Schedule)
    → (ws' ≢ (ensure_workspace fresh_ws r.workspace_key workspaces).0) ⊎ (name' ≢ r.name)
    → (is_supported r.misfire_policy ≡ false)
        × (upsert_schedule fresh fresh_ws r workspaces ss ≡ value_error)
      ⊎ (is_supported r.misfire_policy ≡ true)
        × (2 ^ 31 ≤ r.interval_seconds)
        × (upsert_schedule fresh fresh_ws r workspaces ss ≡ integer_out_of_range)
      ⊎ (is_supported r.misfire_policy ≡ true)
        × (r.interval_seconds < 2 ^ 31)
        × ((row : Schedule) × (created : Bool) × (ss' : List Schedule) × (upsert_schedule fresh
                fresh_ws r workspaces ss
              ≡ value (row, created, (ensure_workspace fresh_ws r.workspace_key workspaces).1, ss'))
            × Stored
                (ensure_workspace fresh_ws r.workspace_key workspaces).0
                r
                ss
                ws'
                name'
                (row, created, ss'))
unfolding upsert_schedule
upsert_schedule-lookup fresh fresh_ws ws' name' r workspaces ss other =
    elim (Bool-cases (is_supported r.misfire_policy)) [
      | inl known ↦ elim (Bool-cases (leb r.interval_seconds int4_max)) [
        | inl fits ↦ inr (
            inr (
              known,
              omega (arith, leb→le _ _ fits),
              (
                put.0,
                put.1,
                put.2,
                rw (known, fits),
                put_schedule-Stored fresh ws r ss ws' name' other,
              ),
            ))
        | inr large ↦ inr (inl (known, ground (arith, large), rw (known, large)))
      ]
      | inr unknown ↦ inl (unknown, rw unknown)
    ]
  where
    ws : ℕ
    ws = (ensure_workspace fresh_ws r.workspace_key workspaces).0

    put : Schedule × Bool × List Schedule
    put = put_schedule fresh ws r ss
