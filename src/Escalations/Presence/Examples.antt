-- ===== src/Escalations/Presence/Examples.antt =====
-- Connections at concrete inputs.
use customer_service_chat_sy.Base.{
  true, ◌≡◌, refl, [], ◌∷◌, ltb, contains, ℕ_eq, if◌then◌else◌, insert, lookup, arith,
}
use customer_service_chat_sy.Escalations.Presence.{
  Registry, connect, drop_guard, present_membership_ids, presence_revert,
}
use customer_service_chat_sy.Escalations.Presence.Held.{
  Steps, start, next, connects, drops, held, present_membership_ids-held,
}

-- A member with two windows closes one of them, while another comes and goes.
abbrev two_windows : Registry
two_windows = connect (connect (connect [] 7 1) 7 2) 7 1

abbrev one_window : Registry
one_window = (drop_guard (drop_guard two_windows 7 2).0 7 1).0

still_there : present_membership_ids one_window 7 ≡ 1 ∷ []
unfolding present_membership_ids connect drop_guard insert lookup
still_there = refl

closing-Steps : Steps (one_window, (7, 1) ∷ [])
closing-Steps =
    next
      (next
        (next (next (next start (connects 7 1 (omega arith))) (connects 7 2 (omega arith)))
          (connects 7 1 (omega arith)))
        (drops ((7, 1) ∷ []) ((7, 1) ∷ []) 7 2))
      (drops [] ((7, 1) ∷ []) 7 1)

present_membership_ids-held_example :
    (contains (present_membership_ids one_window 7) 1 ≡ ltb 0 (held ((7, 1) ∷ []) 7 1))
    × (presence_revert one_window true 7 1 (record { availability = []; audit_events = [] }) ≡ (
        if ltb 0 (held ((7, 1) ∷ []) 7 1)
        then record { availability = []; audit_events = [] }
        else presence_revert [] true 7 1 (record { availability = []; audit_events = [] })))
present_membership_ids-held_example =
    present_membership_ids-held closing-Steps 7 1 true
      (record { availability = []; audit_events = [] })
