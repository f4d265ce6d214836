-- ===== src/Util/Queues.antt =====
-- The two queues between threads (`TsQueue`, `EventQueue`). The mutex makes each method one step.
use burp_tui.Prelude.{
  ℕ, Bool, true, false, Option, none, some, List, [], ◌∷◌, ◌++◌, is_empty, length, ltb,
  if◌then◌else◌,
}
pub mod Order
mod Tests

module _ {T : Type 0} where
  -- The loop of `tryPopAll`: what is left of `q_`, and what was moved to `out`.
  unfoldable pub drain : List T → List T → List T × List T
  drain [] out = ([], out)
  drain (x ∷ q) out = drain q (out ++ x ∷ [])

  -- `TsQueue` is the list of its items, oldest first.
  unfoldable pub ts_push : T → List T → List T
  ts_push item q = q ++ item ∷ []

  unfoldable pub try_pop_all : List T → List T × List T
  unfolding drain
  try_pop_all q = drain q []

pub data TsCall (T : Type 0) : Type 0 where
  pushing : T → TsCall T
  draining : TsCall T

module _ {T : Type 0} where
  -- A history of calls: the queue at the end, and the items that were drained, in order.
  unfoldable pub ts_run : List (TsCall T) → List T → List T × List T
  unfolding ts_push try_pop_all
  ts_run [] q = (q, [])
  ts_run (pushing x ∷ cs) q = ts_run cs (ts_push x q)
  ts_run (draining ∷ cs) q =
      let (left, out) = try_pop_all q in let (end, later) = ts_run cs left in (end, out ++ later)

pub record EventQueue (T : Type 0) : Type 0 where
  pub q : List T
  pub max_size : ℕ

module _ {T : Type 0} where
  -- `none`: the caller waits on the condition variable.
  unfoldable pub push : T → EventQueue T → Option (EventQueue T)
  push item e =
      if ltb (length e.q) e.max_size then some (record e { q = e.q ++ item ∷ [] }) else none

  unfoldable pub pop : EventQueue T → Option (T × EventQueue T)
  pop e = elim e.q [ [] ↦ none | item ∷ rest ↦ some (item, record e { q = rest }) ]

pub data Attempt (T : Type 0) : Type 0 where
  to_push : T → Attempt T
  to_pop : Attempt T

-- The queue, the items whose push went through and those popped, both in order.
pub record Trace (T : Type 0) : Type 0 where
  pub queue : EventQueue T
  pub pushed : List T
  pub popped : List T

module _ {T : Type 0} where
  abbrev pub started : EventQueue T → Trace T
  started e = record { queue = e; pushed = []; popped = [] }

  -- A thread that tries and has to wait changes nothing.
  unfoldable pub attempt : Attempt T → Trace T → Trace T
  unfolding push pop
  attempt (to_push x) t = elim (push x t.queue) [
    | none ↦ t
    | some e ↦ record t { queue = e; pushed = t.pushed ++ x ∷ [] }
  ]
  attempt to_pop t = elim (pop t.queue) [
    | none ↦ t
    | some (x, e) ↦ record t { queue = e; popped = t.popped ++ x ∷ [] }
  ]

  unfoldable pub attempts : List (Attempt T) → Trace T → Trace T
  unfolding attempt
  attempts [] t = t
  attempts (a ∷ more) t = attempts more (attempt a t)
