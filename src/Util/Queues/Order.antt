-- ===== src/Util/Queues/Order.antt =====
-- No item is lost, doubled or overtaken.
use burp_tui.Prelude.{
  ℕ, suc, ◌≤◌, ◌≡◌, refl, sym, ap, ◌∙◌, Option, none, some, List, [], ◌∷◌, ◌++◌, arith,
  append_assoc, append-nil, choose, length, length-append, ltb, ltb→lt, Bool-cases, inl, inr,
}
use burp_tui.Util.Queues.{
  drain, ts_push, try_pop_all, TsCall, pushing, draining, ts_run, EventQueue, push, pop, Attempt,
  to_push, to_pop, Trace, attempt, attempts, started,
}

module _ {T : Type 0} where
  abbrev item_pushed : TsCall T → Option T
  item_pushed (pushing x) = some x
  item_pushed draining = none

  -- the items of the pushes among the calls
  abbrev pub items_pushed : List (TsCall T) → List T
  items_pushed = choose item_pushed

  pub drain_lem : (q out : List T) → drain q out ≡ ([], out ++ q)
  unfolding drain
  drain_lem [] out = ap (λ o. ([], o)) (sym (append-nil out))
  drain_lem (x ∷ q) out =
      drain_lem q (out ++ x ∷ []) ∙ ap (λ o. ([], o)) (append_assoc out (x ∷ []) q)

  -- Over any calls of `push` and `tryPopAll`, the items drained and then those still queued are
  -- those queued at first and then those pushed, in order; and a drain leaves the queue empty.
  pub ts_run_lem :
      (cs : List (TsCall T)) (q : List T)
      → ((ts_run cs q).1 ++ (ts_run cs q).0 ≡ q ++ items_pushed cs) × ((try_pop_all q).0 ≡ [])
  unfolding ts_run try_pop_all ts_push
  ts_run_lem [] q = (sym (append-nil q), rw (drain_lem q []) refl)
  ts_run_lem (pushing x ∷ cs) q = (
    (ts_run_lem cs (q ++ x ∷ [])).0 ∙ append_assoc q (x ∷ []) (items_pushed cs),
    rw (drain_lem q []) refl,
  )
  ts_run_lem (draining ∷ cs) q = (
    rw (drain_lem q [])
        (append_assoc q (ts_run cs []).1 (ts_run cs []).0 ∙ ap (q ++◌) (ts_run_lem cs []).0),
    rw (drain_lem q []) refl,
  )

  -- what a history of a queue with `n` places keeps
  abbrev IsFifo : List T → ℕ → Trace T → Type 0
  IsFifo start n t =
      (start ++ t.pushed ≡ t.popped ++ t.queue.q) × (length t.queue.q ≤ n) × (t.queue.max_size ≡ n)

  attempt-IsFifo :
      (start : List T) (n : ℕ) (a : Attempt T) (t : Trace T)
      → IsFifo start n t
      → IsFifo start n (attempt a t)
  unfolding attempt push pop
  attempt-IsFifo start n (to_push x) t (o, b, m) =
      elim (Bool-cases (ltb (length t.queue.q) t.queue.max_size)) [
        | inl h ↦
            let k = ltb→lt (length t.queue.q) t.queue.max_size h in
            let l = length-append t.queue.q (x ∷ []) in
            rw (attempt, push, h)
              (
                sym (append_assoc start t.pushed (x ∷ []))
                    ∙ ap (◌++ x ∷ []) o
                    ∙ append_assoc t.popped t.queue.q (x ∷ []),
                omega arith,
                m,
              )
        | inr h ↦ rw (attempt, push, h) (o, b, m)
      ]
  attempt-IsFifo start n to_pop t h = of_queue t.queue.q refl h
    where
      of_queue : (q : List T) → t.queue.q ≡ q → IsFifo start n t → IsFifo start n (attempt to_pop t)
      of_queue [] e h = rw (attempt, pop, e) h
      of_queue (y ∷ q) e (o, b, m) =
          rw (attempt, pop, e)
            (
              o ∙ ap (t.popped ++◌) e ∙ sym (append_assoc t.popped (y ∷ []) q),
              (let l : length t.queue.q ≡ suc (length q) = ap length e in omega arith),
              m,
            )

  -- Over any attempts to push and to pop, from a queue within its bound: the items queued at first
  -- and then those pushed are those popped and then those still queued, in order; and the queue
  -- stays within its bound, which stays the same.
  pub attempts_lem :
      (e : EventQueue T) (tries : List (Attempt T))
      → length e.q ≤ e.max_size
      → (e.q ++ (attempts tries (started e)).pushed
          ≡ (attempts tries (started e)).popped ++ (attempts tries (started e)).queue.q)
        × (length (attempts tries (started e)).queue.q ≤ e.max_size)
        × ((attempts tries (started e)).queue.max_size ≡ e.max_size)
  unfolding attempts
  attempts_lem e tries h = from tries (started e) (append-nil e.q, h, refl)
    where
      from :
          (tries : List (Attempt T)) (t : Trace T)
          → IsFifo e.q e.max_size t
          → IsFifo e.q e.max_size (attempts tries t)
      from [] t h = h
      from (a ∷ more) t h = from more (attempt a t) (attempt-IsFifo e.q e.max_size a t h)
