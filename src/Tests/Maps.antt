-- ===== src/Tests/Maps.antt =====
-- src/containers/promise_map.ts at concrete inputs.
use node_celery_ts.Prelude.{
  ℕ, ◌≡◌, refl, true, false, Bool, some, List, [], ◌∷◌, length, ◌==◌, ==_iff,
}
use node_celery_ts.JsMap
use node_celery_ts.JsMap.{Eq}
use node_celery_ts.PromiseMap.{
  World, MapData, plain, promise_like, value, error, given, timed_out, unsettled, with_reason,
  new_map, has, is_fulfilled, finish_resolve, resolve, reject, reject_all, get, delete, clear,
  fire_timer,
}
use node_celery_ts.PromiseMap.Rejecting.{waits, reject_all-AllRefused}
use node_celery_ts.PromiseMap.Timed.{IsTimed}
use node_celery_ts.PromiseMap.Firing.{run-IsTimed}
use node_celery_ts.PromiseMap.Stale.{deleted_key_fulfilled, cleared_timer_fires}
use node_celery_ts.PromiseMap.History.{
  Event, gets, deletes, resolves, comes_back, rejects, run, step, OneStatus, run-OneStatus,
}

abbrev nat_beq : ℕ → ℕ → Bool
nat_beq a b = a == b

instance abbrev nat_keys : Eq ℕ
nat_keys = record { beq = nat_beq; beq_iff = ==_iff }

abbrev Map : Type 0
Map = World ℕ ℕ ℕ

abbrev empty : Map
empty = new_map (some 1000)

-- Somebody waits for key 3.
abbrev waiting : Map
waiting = (get 3 empty).1

reject_all-AllRefused_example :
    let w' = (reject_all (given 6) waiting).1 in
    ((k : ℕ) → waits (JsMap.get k w'.entries) ≡ false)
    × ((k : ℕ)
        → waits (JsMap.get k waiting.entries) ≡ false
        → JsMap.get k w'.entries ≡ JsMap.get k waiting.entries)
    × (w'.promises ≡ waiting.promises)
    × ((k : ℕ) (d : MapData) (p : ℕ)
        → JsMap.get k waiting.entries ≡ some d
        → waits (some d) ≡ true
        → d.functions ≡ some p
        → waiting.states p ≡ unsettled
        → w'.states p ≡ with_reason (given 6))
reject_all-AllRefused_example = reject_all-AllRefused (given 6) waiting

abbrev history : List (Event ℕ ℕ ℕ)
history =
    gets 3
    ∷ resolves 3 (plain 8)
    ∷ resolves 4 promise_like
    ∷ comes_back 1 (error 2)
    ∷ deletes 4
    ∷ []

run-OneStatus_example :
    let w = run (new_map {K = ℕ} {V = ℕ} {E = ℕ} (some 1000)) history in
    (has 3 w ≡ true → OneStatus 3 w)
    × ((d : MapData) (p : ℕ)
        → JsMap.get 3 w.entries ≡ some d
        → d.functions ≡ some p
        → JsMap.get 3 w.promises ≡ some p)
run-OneStatus_example = run-OneStatus (some 1000) history 3

deleted_key_fulfilled_example :
    let w₁ = (resolve 3 (plain 8) empty).1 in
    let w₂ = (delete 3 w₁).1 in
    let w₃ = finish_resolve (length empty.resolving) (value 0) w₂ in
    (has 3 w₂ ≡ false) × (has 3 w₃ ≡ false) × (is_fulfilled 3 w₃ ≡ true)
unfolding JsMap.get new_map
deleted_key_fulfilled_example = deleted_key_fulfilled 3 8 (value 0) empty refl

cleared_timer_fires_example :
    let w = (resolve 3 (plain 8) empty).1 in
    let w₁ = (clear w).1 in
    let (p, w₂) = get 3 w₁ in
    let w₃ = fire_timer 0 3 w₂ in
    (w₁.timers ≡ w.timers)
    × (w₂.states p ≡ unsettled)
    × (w₃.states p ≡ with_reason timed_out)
    × (has 3 w₂ ≡ true)
    × (has 3 w₃ ≡ false)
cleared_timer_fires_example = cleared_timer_fires 0 3 (resolve 3 (plain 8) empty).1

-- Key 3 is resolved twice, key 4 is rejected and then deleted, and the first value comes.
abbrev timed_events : List (Event ℕ ℕ ℕ)
timed_events =
    resolves 3 (plain 8)
    ∷ resolves 3 (plain 9)
    ∷ rejects 4 (given 5)
    ∷ deletes 4
    ∷ comes_back 0 (value 0)
    ∷ []

run-IsTimed_example : IsTimed (run (new_map {K = ℕ} {V = ℕ} {E = ℕ} (some 1000)) timed_events)
run-IsTimed_example = run-IsTimed (some 1000) timed_events refl

-- One timer is left, the second one of key 3.
timers_left : (run (new_map {K = ℕ} {V = ℕ} {E = ℕ} (some 1000)) timed_events).timers ≡ (1, 3) ∷ []
unfolding run step resolve reject delete finish_resolve new_map JsMap.get JsMap.set
timers_left = refl
