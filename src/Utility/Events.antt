-- ===== src/Utility/Events.antt =====
-- filterMapEvent of src/utility.ts over a sequence of events.
use node_celery_ts.Prelude.{◌≡◌, refl, true, false, Option, none, some, List, [], ◌∷◌}
use node_celery_ts.Utility.{or_else, Listener, accept, filter_map_event, on_event, emit, emit_all}

module _ {ℓ κ} {V : Type ℓ} {U : Type κ} (filter_map : V → Option U) where
  -- The value of the first event that the filter accepts.
  abbrev first_some : List V → Option U
  first_some [] = none
  first_some (v ∷ vs) = or_else (filter_map v) (first_some vs)

  abbrev settled : Option U → Listener U
  settled none = filter_map_event
  settled (some u) = record { attached = false; resolved = true; promise = some u }

  emit_all-detached :
      (u : U) (vs : List V) → emit_all filter_map (settled (some u)) vs ≡ settled (some u)
  unfolding emit
  emit_all-detached u [] = refl
  emit_all-detached u (v ∷ vs) = emit_all-detached u vs

  -- Whatever events come, the promise of filterMapEvent has the value of the first one that the
  -- filter accepts, at which the listener is removed and resolved set; until then the promise is
  -- pending and the listener attached.
  pub emit_all-first_some :
      (vs : List V) → emit_all filter_map filter_map_event vs ≡ settled (first_some vs)
  unfolding emit on_event
  emit_all-first_some [] = refl
  emit_all-first_some (v ∷ vs) = after (filter_map v) (emit_all-first_some vs)
    where
      after :
          (o : Option U)
          → emit_all filter_map filter_map_event vs ≡ settled (first_some vs)
          → emit_all filter_map (accept filter_map filter_map_event o) vs
            ≡ settled (or_else o (first_some vs))
      after none h = h
      after (some u) h = emit_all-detached u vs
