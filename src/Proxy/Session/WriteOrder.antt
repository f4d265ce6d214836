-- ===== src/Proxy/Session/WriteOrder.antt =====
-- The queue of writes to the client (`writeClient`, `doClientWrite`, `handleClientWrite`).
use burp_tui.Prelude.{
  Bytes, ◌≡◌, refl, sym, ap, ◌∙◌, Bool, true, false, Option, none, some, List, [], ◌∷◌, ◌++◌,
  append-nil, append_assoc, arith, is_empty, choose, choose-append, take, if◌then◌else◌, ◌==◌,
}
use burp_tui.Proxy.Net.{success}
use burp_tui.Proxy.Session.State.{
  Effect, async_write_client, timer_cancel, remove_pending, shutdown_client, shutdown_server,
  Session, emit, withdraw, close_client, close, write_client,
}
use burp_tui.Proxy.Session.Completions.{handle_client_write}

-- the buffer of a write to the client
abbrev client_buffer : Effect → Option Bytes
client_buffer (async_write_client b) = some b
client_buffer _ = none

-- the buffers whose write to the client was started, in order
abbrev pub sent : List Effect → List Bytes
sent = choose client_buffer

-- A call of `writeClient`, or a successful completion of the write in progress.
pub data WriteOp : Type 0 where
  push : Bytes → WriteOp
  complete : WriteOp

abbrev pub pushes : List WriteOp → List Bytes
pushes [] = []
pushes (push b ∷ ops) = b ∷ pushes ops
pushes (complete ∷ ops) = pushes ops

sent_emit : (e : Effect) (es : List Effect) → client_buffer e ≡ none → sent (es ++ e ∷ []) ≡ sent es
sent_emit e es h =
    choose-append client_buffer es (e ∷ []) ∙ ap (sent es ++◌) (none_lem e h) ∙ append-nil (sent es)
  where
    none_lem : (e : Effect) → client_buffer e ≡ none → sent (e ∷ []) ≡ []
    none_lem e h = ground arith

sent_if :
    {L : Type 0} (b : Bool) (s t : Session L) {c : List Bytes}
    → sent s.effects ≡ c
    → sent t.effects ≡ c
    → sent (if b then s else t).effects ≡ c
sent_if true s t h k = h
sent_if false s t h k = k

module _ {L : Type 0} where
  -- The session after the operations, and the buffers whose write completed. A write completes
  -- only where one is in progress.
  pub write_ops : Session L → List Bytes → List WriteOp → Session L × List Bytes
  write_ops s completed [] = (s, completed)
  write_ops s completed (push b ∷ ops) = write_ops (write_client b s) completed ops
  write_ops s completed (complete ∷ ops) =
      write_ops (if is_empty s.write_queue then s else handle_client_write success s)
        (completed ++ take 1 s.write_queue) ops

  -- The writes started are those completed and, where the queue is not empty, its front.
  abbrev InProgress : Session L → List Bytes → Type 0
  InProgress s completed = sent s.effects ≡ completed ++ take 1 s.write_queue

  sent-close : (s : Session L) → sent (close s).effects ≡ sent s.effects
  unfolding close
  sent-close s =
      let s1 = emit timer_cancel s in
      let s2 = withdraw s1 in
      let s3 = close_client s2 in
      sent_if s3.server_open (record (emit shutdown_server s3) { server_open = false }) s3
        (sent_emit shutdown_server s3.effects refl) refl
      ∙ sent_if s2.client_open (record (emit shutdown_client s2) { client_open = false }) s2
          (sent_emit shutdown_client s2.effects refl) refl
      ∙ sent_if (s.current_transaction.id == 0) s1
          (emit (remove_pending s.current_transaction.id) s1) refl
          (sent_emit (remove_pending s.current_transaction.id) s1.effects refl)
      ∙ sent_emit timer_cancel s.effects refl

  queue_close : (s : Session L) → (close s).write_queue ≡ s.write_queue
  unfolding close
  queue_close s = ground arith

  abbrev queued : List Bytes → Session L → Session L
  queued q s = record s { write_queue = q }

  push_lem :
      (b : Bytes) (s : Session L) (completed q : List Bytes)
      → InProgress (queued q s) completed
      → InProgress (write_client b (queued q s)) completed
        × ((write_client b (queued q s)).write_queue ≡ q ++ b ∷ [])
  unfolding write_client
  push_lem b s completed [] h = (
    choose-append client_buffer s.effects (async_write_client b ∷ [])
        ∙ ap (◌++ b ∷ []) (h ∙ append-nil completed),
    refl,
  )
  push_lem b s completed (x ∷ q) h = (h, refl)

  -- after the last write
  last_write :
      (b : Bool) (s : Session L)
      → (sent (if b then close s else s).effects ≡ sent s.effects)
        × ((if b then close s else s).write_queue ≡ s.write_queue)
  last_write true s = (sent-close s, queue_close s)
  last_write false s = (refl, refl)

  complete_lem :
      (s : Session L) (completed : List Bytes) (front : Bytes) (rest : List Bytes)
      → InProgress (queued (front ∷ rest) s) completed
      → InProgress (handle_client_write success (queued (front ∷ rest) s)) (completed ++ front ∷ [])
        × ((handle_client_write success (queued (front ∷ rest) s)).write_queue ≡ rest)
  unfolding handle_client_write
  complete_lem s completed front [] h =
      let (same, q) = last_write s.close_after_write (queued [] s) in
      (same ∙ h ∙ sym (append-nil _) ∙ ap (λ z. (completed ++ front ∷ []) ++ take 1 z) (sym q), q)
  complete_lem s completed front (y ∷ rest) h =
      (choose-append client_buffer s.effects (async_write_client y ∷ []) ∙ ap (◌++ y ∷ []) h, refl)

  -- Write operations keep the order.
  write_ops_order :
      (s : Session L) (completed q : List Bytes) (ops : List WriteOp)
      → InProgress (queued q s) completed
      → InProgress (write_ops (queued q s) completed ops).0 (write_ops (queued q s) completed ops).1
        × ((write_ops (queued q s) completed ops).1
              ++ (write_ops (queued q s) completed ops).0.write_queue
            ≡ completed ++ (q ++ pushes ops))
  unfolding write_ops
  write_ops_order s completed q [] h = (h, ap (completed ++◌) (sym (append-nil q)))
  write_ops_order s completed q (push b ∷ ops) h =
      let t = write_client b (queued q s) in
      let (p, e) = push_lem b s completed q h in
      let (kept, order) = write_ops_order t completed t.write_queue ops p in
      (
        kept,
        order ∙ ap (completed ++◌) (ap (◌++ pushes ops) e ∙ append_assoc q (b ∷ []) (pushes ops)),
      )
  write_ops_order s completed [] (complete ∷ ops) h =
      let (kept, order) =
        write_ops_order (queued [] s) (completed ++ []) [] ops (h ∙ sym (append-nil _)) in
      (kept, order ∙ ap (◌++ pushes ops) (append-nil completed))
  write_ops_order s completed (front ∷ rest) (complete ∷ ops) h =
      let t = handle_client_write success (queued (front ∷ rest) s) in
      let (p, e) = complete_lem s completed front rest h in
      let (kept, order) = write_ops_order t (completed ++ front ∷ []) t.write_queue ops p in
      (
        kept,
        order
            ∙ append_assoc completed (front ∷ []) _
            ∙ ap (λ x. completed ++ (front ∷ (x ++ pushes ops))) e,
      )

  -- From a session whose write queue is empty and that has sent nothing yet, over any calls of
  -- `writeClient` and successful completions: the completed buffers, followed by those in the
  -- queue, are the data handed over, in order; and the writes started are the completed ones and,
  -- exactly while the queue is not empty, one more, of its front.
  pub write_order :
      (s : Session L) (ops : List WriteOp)
      → s.write_queue ≡ []
      → sent s.effects ≡ []
      → ((write_ops s [] ops).1 ++ (write_ops s [] ops).0.write_queue ≡ pushes ops)
        × (sent (write_ops s [] ops).0.effects
            ≡ (write_ops s [] ops).1 ++ take 1 (write_ops s [] ops).0.write_queue)
  write_order s ops e h =
      let (kept, order) = write_ops_order s [] s.write_queue ops (rw e h) in
      (order ∙ ap (◌++ pushes ops) e, kept)
