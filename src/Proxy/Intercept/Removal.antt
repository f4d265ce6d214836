-- ===== src/Proxy/Intercept/Removal.antt =====
-- Requests withdrawn by `removeById`, when a session closes.
use mathlib.Core.List.Sublist
use mathlib.Core.List.{Sublist, sublist-append_right}
use mathlib.Core.Path.{subst, subst₂, sym}
use burp_tui.Prelude.{
  ℕ, ◌+◌, ◌≤◌, ◌≡◌, ◌≢◌, refl, Bool, true, false, List, [], ◌∷◌, ◌++◌, append-nil, append_assoc,
  arith, ◌==◌, All, choose-append, length, remove_if, if◌then◌else◌, Bool-cases, inl, inr,
}
use burp_tui.Proxy.Intercept.{
  InterceptedRequest, InterceptManager, remove_by_id, Call, removing, intercepting, step, run,
}
use burp_tui.Proxy.Intercept.Fifo.{answered, waiting, submitted, submitted-cons, step-conserves}

module _ {R K : Type 0} where
  -- the queued requests of one transaction
  abbrev pub with_id : ℕ → List (InterceptedRequest R K) → List (InterceptedRequest R K)
  with_id j [] = []
  with_id j (item ∷ items) = if item.id == j then item ∷ with_id j items else with_id j items

  abbrev same_id : ℕ → InterceptedRequest R K → Bool
  same_id id item = item.id == id

  All-remove_if :
      (id : ℕ) (items : List (InterceptedRequest R K))
      → All (λ item. item.id ≢ id) (remove_if (same_id id) items)
  unfolding remove_if
  All-remove_if id [] = tt
  All-remove_if id (item ∷ items) = elim (Bool-cases (item.id == id)) [
    | inl e ↦ rw e (All-remove_if id items)
    | inr e ↦ rw e ((λ p. ground arith), All-remove_if id items)
  ]

  with_id-remove_if :
      (id j : ℕ) (items : List (InterceptedRequest R K))
      → j ≢ id
      → with_id j (remove_if (same_id id) items) ≡ with_id j items
  unfolding remove_if
  with_id-remove_if id j [] h = refl
  with_id-remove_if id j (item ∷ items) h = ground (arith, with_id-remove_if id j items)

  length-remove_if-le :
      (id : ℕ) (items : List (InterceptedRequest R K))
      → length (remove_if (same_id id) items) ≤ length items
  unfolding remove_if
  length-remove_if-le id [] = omega arith
  length-remove_if-le id (item ∷ items) = ground (arith, length-remove_if-le id items)

  -- Nothing was removed if the length stayed.
  remove_if_same :
      (id : ℕ) (items : List (InterceptedRequest R K))
      → length (remove_if (same_id id) items) ≡ length items
      → remove_if (same_id id) items ≡ items
  unfolding remove_if
  remove_if_same id [] h = refl
  remove_if_same id (item ∷ items) h =
      ground (arith, remove_if_same id items, length-remove_if-le id items)

  waiting-cons :
      (item : InterceptedRequest R K) (items : List (InterceptedRequest R K))
      → waiting (item ∷ items) ≡ waiting (item ∷ []) ++ waiting items
  waiting-cons item items = choose-append (λ x. x.on_decision) (item ∷ []) items

  keep_or_drop :
      (item : InterceptedRequest R K) (items kept : List (InterceptedRequest R K)) (b : Bool)
      → Sublist (waiting kept) (waiting items)
      → Sublist (waiting (if b then kept else item ∷ kept)) (waiting (item ∷ items))
  keep_or_drop item items kept true ih =
      subst (Sublist (waiting kept)) (sym (waiting-cons item items))
        (Sublist.trans ih (sublist-append_right (waiting (item ∷ [])) (waiting items)))
  keep_or_drop item items kept false ih =
      subst₂ Sublist (sym (waiting-cons item kept)) (sym (waiting-cons item items))
        (Sublist.append (Sublist.refl _) ih)

  waiting-remove_if :
      (id : ℕ) (items : List (InterceptedRequest R K))
      → Sublist (waiting (remove_if (same_id id) items)) (waiting items)
  unfolding remove_if
  waiting-remove_if id [] = Sublist.refl []
  waiting-remove_if id (item ∷ items) =
      keep_or_drop item items _ (item.id == id) (waiting-remove_if id items)

module _ {R K N : Type 0} (id : ℕ) (m : InterceptManager R K N) where
  queue-remove_by_id : (remove_by_id id m).0.queue ≡ remove_if (same_id id) m.queue
  unfolding remove_by_id
  queue-remove_by_id = ground (arith, remove_if_same id m.queue)

  answered-remove_by_id : answered (remove_by_id id m).1 ≡ []
  unfolding remove_by_id
  answered-remove_by_id = ground arith

  notified-remove_by_id :
      (remove_by_id id m).1 ≢ [] → length (remove_by_id id m).0.queue + 1 ≤ length m.queue
  unfolding remove_by_id
  notified-remove_by_id = ground (arith, length-remove_if-le id m.queue)

  -- After `removeById(id)` no request of the transaction is queued; the queued requests of every
  -- other transaction are as before, in their order; no decision callback was called; and the
  -- user interface is notified only if the queue became shorter.
  pub remove_by_id_lem :
      (j : ℕ)
      → All (λ item. item.id ≢ id) (remove_by_id id m).0.queue
        × (j ≢ id → with_id j (remove_by_id id m).0.queue ≡ with_id j m.queue)
        × (answered (remove_by_id id m).1 ≡ [])
        × ((remove_by_id id m).1 ≢ [] → length (remove_by_id id m).0.queue + 1 ≤ length m.queue)
  remove_by_id_lem j = (
    rw queue-remove_by_id (All-remove_if id m.queue),
    rw queue-remove_by_id (with_id-remove_if id j m.queue),
    answered-remove_by_id,
    notified-remove_by_id,
  )

module _ {R K N : Type 0} where
  step-Sublist :
      (m : InterceptManager R K N) (c : Call R K N)
      → Sublist
          (answered (step m c).1 ++ waiting (step m c).0.queue)
          (waiting m.queue ++ submitted (c ∷ []))
  unfolding step
  step-Sublist m (removing id) =
      rw (answered-remove_by_id id m, queue-remove_by_id id m, append-nil)
        (waiting-remove_if id m.queue)
  step-Sublist m (intercepting item) = rw (step-conserves m (intercepting item) tt) (Sublist.refl _)
  step-Sublist m c = rw (step-conserves m c tt) (Sublist.refl _)

  -- Over any history of calls, `removeById` among them: the decision callbacks called, followed by
  -- those still waiting, are a subsequence of those that waited at first and were handed over. So
  -- no request is decided twice, or decided and still queued, and none overtakes an older one.
  pub run-Sublist :
      (m : InterceptManager R K N) (cs : List (Call R K N))
      → Sublist
          (answered (run m cs).1 ++ waiting (run m cs).0.queue)
          (waiting m.queue ++ submitted cs)
  unfolding run
  run-Sublist m [] = rw append-nil (Sublist.refl _)
  run-Sublist m (c ∷ cs) =
      let (m', called) = step m c in
      rw (choose-append, append_assoc, submitted-cons c cs)
        (Sublist.trans (Sublist.append (Sublist.refl (answered called)) (run-Sublist m' cs))
          (simp (← append_assoc) (Sublist.append (step-Sublist m c) (Sublist.refl (submitted cs)))))
