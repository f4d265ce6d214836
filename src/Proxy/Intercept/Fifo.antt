-- ===== src/Proxy/Intercept/Fifo.antt =====
-- Every decision callback is called once, in the order in which the requests came.
use burp_tui.Prelude.{
  ◌≡◌, refl, sym, ◌∙◌, true, false, Option, none, some, List, [], ◌∷◌, ◌++◌, append_assoc, map,
  append-nil, arith, choose, choose-append,
}
use burp_tui.Proxy.Intercept.{
  InterceptAction, forward, InterceptedRequest, InterceptManager, Called, decided, notified, notify,
  decide_each, decide_all, set_intercept_enabled, intercept_request, decide_current,
  set_notify_callback, Call, enabling, intercepting, forwarding, dropping, forwarding_all,
  dropping_all, removing, setting_callback, step, run,
}

module _ {K N : Type 0} where
  -- the decision callback that a call is of
  abbrev pub callback : Called K N → Option K
  callback (decided k a) = some k
  callback (notified n) = none

  -- the decision callbacks called, in order
  abbrev pub answered : List (Called K N) → List K
  answered = choose callback

-- the decision callbacks that wait in the queue
abbrev pub waiting : {R K : Type 0} → List (InterceptedRequest R K) → List K
waiting = choose (λ item. item.on_decision)

answered-decide_each :
    {R K : Type 0} (N : Type 0) (a : InterceptAction) (items : List (InterceptedRequest R K))
    → answered (decide_each {N = N} a items) ≡ waiting items
unfolding decide_each
answered-decide_each N a [] = refl
answered-decide_each N a (item ∷ items) = ground (arith, answered-decide_each N a items)

module _ {K N : Type 0} where
  -- the decisions made, with their actions
  abbrev pub decision : Called K N → Option (K × InterceptAction)
  decision (decided k a) = some (k, a)
  decision (notified n) = none

  abbrev pub decisions : List (Called K N) → List (K × InterceptAction)
  decisions = choose decision

decisions-decide_each :
    {R K : Type 0} (N : Type 0) (a : InterceptAction) (items : List (InterceptedRequest R K))
    → decisions (decide_each {N = N} a items) ≡ map (λ k. (k, a)) (waiting items)
unfolding decide_each
decisions-decide_each N a [] = refl
decisions-decide_each N a (item ∷ items) = ground (arith, decisions-decide_each N a items)

module _ {R K N : Type 0} (m : InterceptManager R K N) where
  decisions-notify : decisions (notify m) ≡ []
  decisions-notify = ground arith

  -- Turning interception off leaves no request waiting: the queue is empty, and the callback of
  -- each request that waited was called once, in order, with the decision to forward.
  pub set_intercept_enabled_off :
      ((set_intercept_enabled false m).0.queue ≡ [])
      × (decisions (set_intercept_enabled false m).1 ≡ map (λ k. (k, forward)) (waiting m.queue))
  unfolding set_intercept_enabled decide_all
  set_intercept_enabled_off =
      (refl, simp (choose-append, decisions-decide_each N, decisions-notify, append-nil))

module _ {R K N : Type 0} where
  -- the request that a call hands over
  abbrev pub submission : Call R K N → Option (InterceptedRequest R K)
  submission (intercepting item) = some item
  submission _ = none

  abbrev pub submitted : List (Call R K N) → List K
  submitted cs = waiting (choose submission cs)

  -- No call of the history withdraws a request.
  abbrev pub NoRemoval : List (Call R K N) → Type 0
  NoRemoval [] = Unit
  NoRemoval (removing id ∷ cs) = ⊥
  NoRemoval (_ ∷ cs) = NoRemoval cs

  pub submitted-cons :
      (c : Call R K N) (cs : List (Call R K N))
      → submitted (c ∷ cs) ≡ submitted (c ∷ []) ++ submitted cs
  submitted-cons (intercepting item) cs = ground arith
  submitted-cons _ cs = refl

  head_NoRemoval :
      (c : Call R K N) (cs : List (Call R K N)) → NoRemoval (c ∷ cs) → NoRemoval (c ∷ [])
  head_NoRemoval (removing id) cs h = h
  head_NoRemoval _ cs h = tt

  tail_NoRemoval : (c : Call R K N) (cs : List (Call R K N)) → NoRemoval (c ∷ cs) → NoRemoval cs
  tail_NoRemoval (removing id) cs h = absurd h
  tail_NoRemoval _ cs h = h

  answered-notify : (m : InterceptManager R K N) → answered (notify m) ≡ []
  answered-notify m = ground arith

  answered-decide_all :
      (a : InterceptAction) (m : InterceptManager R K N)
      → answered (decide_all a m).1 ++ waiting (decide_all a m).0.queue ≡ waiting m.queue ++ []
  unfolding decide_all
  answered-decide_all a m =
      simp (choose-append, answered-notify, answered-decide_each N, append-nil)

  answered-decide_current :
      (a : InterceptAction) (m : InterceptManager R K N)
      → answered (decide_current a m).1 ++ waiting (decide_current a m).0.queue ≡ waiting m.queue
  unfolding decide_current
  answered-decide_current a m = ground arith

  pub step-conserves :
      (m : InterceptManager R K N) (c : Call R K N)
      → NoRemoval (c ∷ [])
      → answered (step m c).1 ++ waiting (step m c).0.queue ≡ waiting m.queue ++ submitted (c ∷ [])
  unfolding step set_intercept_enabled intercept_request set_notify_callback
  step-conserves m (enabling true) h = simp (answered-notify, append-nil)
  step-conserves m (enabling false) h =
      answered-decide_all _ (record m { intercept_enabled = false })
  step-conserves m (intercepting item) h = simp (answered-notify, choose-append)
  step-conserves m forwarding h = answered-decide_current _ m ∙ sym (append-nil _)
  step-conserves m dropping h = answered-decide_current _ m ∙ sym (append-nil _)
  step-conserves m forwarding_all h = answered-decide_all _ m
  step-conserves m dropping_all h = answered-decide_all _ m
  step-conserves m (removing id) h = absurd h
  step-conserves m (setting_callback c) h = simp append-nil

  -- From any state, over any history of calls without `removeById`: the decision callbacks called
  -- so far, in the order of the calls, followed by those still waiting in the queue, are the ones
  -- that waited at first followed by those handed over, each as often and in that order.
  pub run-conserves :
      (m : InterceptManager R K N) (cs : List (Call R K N))
      → NoRemoval cs
      → answered (run m cs).1 ++ waiting (run m cs).0.queue ≡ waiting m.queue ++ submitted cs
  unfolding run
  run-conserves m [] h = sym (append-nil _)
  run-conserves m (c ∷ cs) h =
      let m' = (step m c).0 in
      simp (choose-append, append_assoc, run-conserves m' cs (tail_NoRemoval c cs h))
        (simp (← append_assoc, step-conserves m c (head_NoRemoval c cs h))
          (rw (submitted-cons c cs) (simp append_assoc)))
