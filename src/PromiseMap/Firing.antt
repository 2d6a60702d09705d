-- ===== src/PromiseMap/Firing.antt =====
-- Which timers of src/containers/promise_map.ts may fire after a history.
use node_celery_ts.Prelude.{ℕ, ◌≡◌, Bool, true, false, ◌&&◌, not, Option, List, [], ◌∷◌, arith}
use node_celery_ts.Text.Laws.{and-left, and-right}
use node_celery_ts.JsMap
use node_celery_ts.JsMap.{Eq}
use node_celery_ts.PromiseMap.{
  World, MapData, deleted, timed_out, remove_timer, new_map, reject_all, delete, fire_timer,
}
use node_celery_ts.PromiseMap.Linked.{IsLinked}
use node_celery_ts.PromiseMap.Timed.{
  IsTimed, get-IsTimed, do_delete-IsTimed, finish_resolve-IsTimed, resolve-IsTimed, reject-IsTimed,
  reject_keys-IsTimed, removed-IsTimed,
}
use node_celery_ts.PromiseMap.Owning.{
  IsOwned, get-IsOwned, do_delete-IsOwned, finish_resolve-IsOwned, resolve-IsOwned, reject-IsOwned,
  reject_keys-IsOwned,
}
use node_celery_ts.PromiseMap.History
use node_celery_ts.PromiseMap.History.{Event, step, run, new_map-IsLinked, step-IsLinked}

abbrev pub is_clear : {K V E : Type 0} → Event K V E → Bool
is_clear History.clears = true
is_clear _ = false

-- `clear` is not called.
abbrev pub never_clears : {K V E : Type 0} → List (Event K V E) → Bool
never_clears [] = true
never_clears (ev ∷ evs) = not (is_clear ev) && never_clears evs

module _ {K V E : Type 0} ⦃e : Eq K⦄ where
  pub record Safe (w : World K V E) : Type 0 where
    pub linked : IsLinked w
    pub owned : IsOwned w
    pub timed : IsTimed w

  step-Safe :
      (w : World K V E) (ev : Event K V E) → not (is_clear ev) ≡ true → Safe w → Safe (step w ev)
  unfolding step reject_all delete fire_timer
  step-Safe w (History.gets key) h s = record {
    linked = step-IsLinked w (History.gets key) s.linked;
    owned = get-IsOwned key w s.owned;
    timed = get-IsTimed key w (λ absent. ground (arith, s.owned key)) s.timed;
  }
  step-Safe w (History.deletes key) h s = record {
    linked = step-IsLinked w (History.deletes key) s.linked;
    owned = do_delete-IsOwned key deleted w s.owned;
    timed = do_delete-IsTimed key deleted w s.timed;
  }
  step-Safe w (History.resolves key input) h s = record {
    linked = step-IsLinked w (History.resolves key input) s.linked;
    owned = resolve-IsOwned key input w s.linked s.owned;
    timed = resolve-IsTimed key input w s.timed;
  }
  step-Safe w (History.rejects key reason) h s = record {
    linked = step-IsLinked w (History.rejects key reason) s.linked;
    owned = reject-IsOwned key reason w s.linked s.owned;
    timed = reject-IsTimed key reason w s.timed;
  }
  step-Safe w (History.rejects_all reason) h s = record {
    linked = step-IsLinked w (History.rejects_all reason) s.linked;
    owned = reject_keys-IsOwned w.entries reason w s.linked s.owned;
    timed = reject_keys-IsTimed w.entries reason w s.timed;
  }
  step-Safe w History.clears h s = cc
  step-Safe w (History.comes_back n a) h s = record {
    linked = step-IsLinked w (History.comes_back n a) s.linked;
    owned = finish_resolve-IsOwned n a w s.owned;
    timed = finish_resolve-IsTimed n a w s.timed;
  }
  step-Safe w (History.fires t key) h s =
      let w' = record w { timers = remove_timer t w.timers } in
      record {
        linked = step-IsLinked w (History.fires t key) s.linked;
        owned = do_delete-IsOwned key timed_out w' s.owned;
        timed = do_delete-IsTimed key timed_out w' (removed-IsTimed t w s.timed);
      }

  pub run-Safe :
      (w : World K V E) (evs : List (Event K V E))
      → never_clears evs ≡ true
      → Safe w
      → Safe (run w evs)
  unfolding run
  run-Safe w [] h s = s
  run-Safe w (ev ∷ evs) h s =
      run-Safe (step w ev) evs (and-right (not (is_clear ev)) (never_clears evs) h)
        (step-Safe w ev (and-left (not (is_clear ev)) (never_clears evs) h) s)

  pub new_map-Safe : (timeout : Option ℕ) → Safe (new_map timeout)
  unfolding new_map
  new_map-Safe timeout = record {
    linked = new_map-IsLinked V E timeout;
    owned = λ k. ground (arith, JsMap.get-nil {V = ℕ} k, JsMap.get-nil {V = MapData} k);
    timed = tt;
  }

  -- After any sequence of calls and turns from an empty map in which `clear` is not called, every
  -- timer that may still fire is the timer of the entry that its key has now: none is left of an
  -- entry that was deleted, replaced or timed again.
  pub run-IsTimed :
      (timeout : Option ℕ) (evs : List (Event K V E))
      → never_clears evs ≡ true
      → IsTimed (run (new_map {K = K} {V = V} {E = E} timeout) evs)
  run-IsTimed timeout evs h = (run-Safe (new_map timeout) evs h (new_map-Safe timeout)).timed
