-- ===== src/PromiseMap/State.antt =====
-- The data of src/containers/promise_map.ts, and the parts of the runtime that its methods touch:
-- promises, timers and awaited values.
use node_celery_ts.Prelude.{
  ℕ, zero, suc, ◌==◌, if◌then◌else◌, Bool, true, false, Option, none, some, List, [], ◌∷◌,
}

-- The enum `State`.
pub data Status : Type 0 where
  pending fulfilled rejected : Status

abbrev pub is_pending_status : Status → Bool
is_pending_status pending = true
is_pending_status _ = false

abbrev pub is_fulfilled_status : Status → Bool
is_fulfilled_status fulfilled = true
is_fulfilled_status _ = false

abbrev pub is_rejected_status : Status → Bool
is_rejected_status rejected = true
is_rejected_status _ = false

pub record MapData : Type 0 where
  pub functions : Option ℕ
  pub status : Status
  pub timer : Option ℕ

-- `V | PromiseLike<V>`; what a promise-like value will settle to is not known yet.
pub data Input (V : Type 0) : Type 0 where
  plain : V → Input V
  promise_like : Input V

-- A reason to reject with: the caller's, or one of the `Error`s that the class makes.
pub data Reason (E : Type 0) : Type 0 where
  given : E → Reason E
  deleted cleared timed_out : Reason E

pub data PromiseState (V E : Type 0) : Type 0 where
  unsettled : PromiseState V E
  follows : ℕ → PromiseState V E
  with_value : V → PromiseState V E
  with_reason : Reason E → PromiseState V E

pub record Resolution (K V : Type 0) : Type 0 where
  pub key : K
  pub input : Input V
  pub result : ℕ

-- What the awaited value came to.
pub data Awaited (V E : Type 0) : Type 0 where
  value : V → Awaited V E
  error : E → Awaited V E

abbrev pub remove_timer {ℓ} : {K : Type ℓ} → ℕ → List (ℕ × K) → List (ℕ × K)
remove_timer t [] = []
remove_timer t ((s, k) ∷ ts) = if s == t then remove_timer t ts else (s, k) ∷ remove_timer t ts

-- `clearTimeout(timer)`, if there is a timer.
abbrev pub clear_timer {ℓ} : {K : Type ℓ} → Option ℕ → List (ℕ × K) → List (ℕ × K)
clear_timer none ts = ts
clear_timer (some t) ts = remove_timer t ts

abbrev pub remove_at {ℓ} : {A : Type ℓ} → ℕ → List A → List A
remove_at i [] = []
remove_at zero (x ∷ xs) = xs
remove_at (suc i) (x ∷ xs) = x ∷ remove_at i xs

module _ (K V E : Type 0) where
  pub record World : Type 0 where
    pub promises : List (K × ℕ)
    pub entries : List (K × MapData)
    pub timeout : Option ℕ
    pub states : ℕ → PromiseState V E
    pub fresh : ℕ
    pub timers : List (ℕ × K)
    pub next_timer : ℕ
    pub resolving : List (Resolution K V)

-- `const entry = this.data.get(key); return !isUndefined(entry) && entry.status === ...`
abbrev pub status_is : (Status → Bool) → Option MapData → Bool
status_is test none = false
status_is test (some d) = test d.status

unfoldable pub remove_functions : MapData → MapData
remove_functions d = record d { functions = none }

module _ {V E : Type 0} where
  -- A promise is made in the given state.
  abbrev pub put_state : ℕ → PromiseState V E → (ℕ → PromiseState V E) → ℕ → PromiseState V E
  put_state p s states q = if q == p then s else states q

  abbrev pub settled_state : PromiseState V E → PromiseState V E → PromiseState V E
  settled_state s unsettled = s
  settled_state s (follows p) = follows p
  settled_state s (with_value v) = with_value v
  settled_state s (with_reason r) = with_reason r

  -- `resolve` or `reject` of a promise's functions: only the first call counts.
  abbrev pub settle_state : ℕ → PromiseState V E → (ℕ → PromiseState V E) → ℕ → PromiseState V E
  settle_state p s states = put_state p (settled_state s (states p)) states

  abbrev pub awaited_plain : Input V → Awaited V E → Awaited V E
  awaited_plain (plain v) a = value v
  awaited_plain promise_like a = a

  abbrev pub reject_functions : Option ℕ → Reason E → (ℕ → PromiseState V E) → ℕ → PromiseState V E
  reject_functions none reason states = states
  reject_functions (some p) reason states = settle_state p (with_reason reason) states

  unfoldable pub reject_entries :
      {K : Type 0} → List (K × MapData) → (ℕ → PromiseState V E) → ℕ → PromiseState V E
  reject_entries [] states = states
  reject_entries ((_, d) ∷ rest) states =
      reject_entries rest (reject_functions d.functions cleared states)
