-- ===== src/Util/Queues/Tests.antt =====
-- The queues at concrete inputs.
use burp_tui.Prelude.{ℕ, ◌≡◌, refl, [], ◌∷◌}
use burp_tui.Util.Queues.{EventQueue, to_push, to_pop, attempt, attempts, push, pop, started}

abbrev one_place : EventQueue ℕ
one_place = record { q = []; max_size = 1 }

-- the second push has to wait
waits :
    attempts (to_push 1 ∷ to_push 2 ∷ to_pop ∷ to_push 3 ∷ []) (started one_place)
    ≡ record { queue = record { q = 3 ∷ []; max_size = 1 }; pushed = 1 ∷ 3 ∷ []; popped = 1 ∷ [] }
unfolding attempts attempt push pop
waits = refl
