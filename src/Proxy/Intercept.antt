-- ===== src/Proxy/Intercept.antt =====
-- The queue of requests that wait for the user (src/proxy/InterceptManager.{hpp,cpp}).
--
-- A method returns the manager after it and the callbacks that it called, in order; each locked
-- block of the source is one field update. The types of the request handle (a `shared_ptr`), of
-- the decision callback and of the notify callback are parameters: the manager only stores and
-- calls them. Every pointer in the queue comes from `make_shared`, so the null tests on `item`
-- always pass and are not written; an empty `std::function` is `none`.
pub mod Fifo
pub mod Removal
mod Tests
use burp_tui.Prelude.{
  ℕ, Bytes, Bool, true, false, not, Option, none, some, List, [], ◌∷◌, ◌++◌, ◌==◌, length, is_empty,
  remove_if, if◌then◌else◌,
}

pub data InterceptAction : Type 0 where
  forward drop : InterceptAction

-- `id` and `port` are bit patterns of 32 and 16 bits, which are only stored and compared.
pub record InterceptedRequest (R K : Type 0) : Type 0 where
  pub id : ℕ
  pub is_https : Bool
  pub host : Bytes
  pub port : ℕ
  pub request : R
  pub on_decision : Option K

pub record InterceptManager (R K N : Type 0) : Type 0 where
  pub intercept_enabled : Bool
  pub queue : List (InterceptedRequest R K)
  pub notify_callback : Option N

-- A call of a callback.
pub data Called (K N : Type 0) : Type 0 where
  decided : K → InterceptAction → Called K N
  notified : N → Called K N

module _ {R K N : Type 0} where
  -- The first state of the singleton.
  abbrev pub instance_init : InterceptManager R K N
  instance_init = record { intercept_enabled = false; queue = []; notify_callback = none }

  -- `if (item && item->onDecision) item->onDecision(action)`
  abbrev pub decide : InterceptAction → InterceptedRequest R K → List (Called K N)
  decide a item = elim item.on_decision [ none ↦ [] | some k ↦ decided k a ∷ [] ]

  -- `if (notify) notify()`
  abbrev pub notify : InterceptManager R K N → List (Called K N)
  notify m = elim m.notify_callback [ none ↦ [] | some n ↦ notified n ∷ [] ]

  -- the loops of `forwardAll` and `dropAll`
  pub decide_each : InterceptAction → List (InterceptedRequest R K) → List (Called K N)
  decide_each a [] = []
  decide_each a (item ∷ items) = decide a item ++ decide_each a items

  pub decide_all :
      InterceptAction → InterceptManager R K N → InterceptManager R K N × List (Called K N)
  decide_all a m = (record m { queue = [] }, decide_each a m.queue ++ notify m)

  abbrev pub forward_all : InterceptManager R K N → InterceptManager R K N × List (Called K N)
  forward_all m = decide_all forward m

  abbrev pub drop_all : InterceptManager R K N → InterceptManager R K N × List (Called K N)
  drop_all m = decide_all drop m

  pub set_intercept_enabled :
      Bool → InterceptManager R K N → InterceptManager R K N × List (Called K N)
  set_intercept_enabled enabled m =
      let m' = record m { intercept_enabled = enabled } in
      if not enabled then forward_all m' else (m', notify m')

  pub intercept_request :
      InterceptedRequest R K → InterceptManager R K N → InterceptManager R K N × List (Called K N)
  intercept_request item m = (record m { queue = m.queue ++ item ∷ [] }, notify m)

  pub has_pending : InterceptManager R K N → Bool
  has_pending m = not (is_empty m.queue)

  pub pending_count : InterceptManager R K N → ℕ
  pending_count m = length m.queue

  unfoldable pub peek_current : InterceptManager R K N → Option (InterceptedRequest R K)
  peek_current m = elim m.queue [ [] ↦ none | item ∷ _ ↦ some item ]

  -- `forwardCurrent` and `dropCurrent`, which differ in the action; `false` on an empty queue.
  unfoldable pub decide_current :
      InterceptAction → InterceptManager R K N → InterceptManager R K N × List (Called K N) × Bool
  decide_current a m = elim m.queue [
    | [] ↦ (m, [], false)
    | item ∷ rest ↦ (record m { queue = rest }, decide a item ++ notify m, true)
  ]

  abbrev pub forward_current :
      InterceptManager R K N → InterceptManager R K N × List (Called K N) × Bool
  forward_current m = decide_current forward m

  abbrev pub drop_current :
      InterceptManager R K N → InterceptManager R K N × List (Called K N) × Bool
  drop_current m = decide_current drop m

  -- `notify` is read only if something was erased.
  pub remove_by_id : ℕ → InterceptManager R K N → InterceptManager R K N × List (Called K N)
  remove_by_id id m =
      let kept = remove_if (λ item. item.id == id) m.queue in
      if length kept == length m.queue then (m, []) else (record m { queue = kept }, notify m)

  pub set_notify_callback : Option N → InterceptManager R K N → InterceptManager R K N
  set_notify_callback callback m = record m { notify_callback = callback }
  -- Any call of a method that changes the manager, from the network thread or the UI thread. The
  -- mutex makes each locked block one step.

pub data Call (R K N : Type 0) : Type 0 where
  enabling : Bool → Call R K N
  intercepting : InterceptedRequest R K → Call R K N
  forwarding dropping forwarding_all dropping_all : Call R K N
  removing : ℕ → Call R K N
  setting_callback : Option N → Call R K N

module _ {R K N : Type 0} where
  pub step : InterceptManager R K N → Call R K N → InterceptManager R K N × List (Called K N)
  step m (enabling b) = set_intercept_enabled b m
  step m (intercepting item) = intercept_request item m
  step m forwarding = let r = forward_current m in (r.0, r.1)
  step m dropping = let r = drop_current m in (r.0, r.1)
  step m forwarding_all = forward_all m
  step m dropping_all = drop_all m
  step m (removing id) = remove_by_id id m
  step m (setting_callback c) = (set_notify_callback c m, [])

  pub run : InterceptManager R K N → List (Call R K N) → InterceptManager R K N × List (Called K N)
  run m [] = (m, [])
  run m (c ∷ cs) =
      let (m', called) = step m c in let (m'', later) = run m' cs in (m'', called ++ later)
