-- ===== src/Idempotency/Examples.antt =====
-- Two requests with one key, for different paths.
use customer_service_chat_sy.Base.{ℕ, suc, ◌≡◌, refl, [], ◌∷◌, none, some, codes, lookup, text_eq}
use customer_service_chat_sy.Idempotency.{Request, Response, State, arrives, goes_on, cached, serve}
use customer_service_chat_sy.Idempotency.Overlap.{overlapping_run_twice}

-- A service that counts its runs and answers with the path.
abbrev echo : ℕ → Request → ℕ × Response
echo n request = (suc n, record { status = 200; headers = []; body = some request.path })

abbrev order : Request
order = record { key = some (codes "k1"); path = codes "/orders"; content = [] }

abbrev refund : Request
refund = record { key = some (codes "k1"); path = codes "/refunds"; content = [] }

abbrev ping : Request
ping = record { key = none; path = codes "/ping"; content = [] }

abbrev other : Request
other = record { key = some (codes "k2"); path = codes "/orders"; content = [] }

abbrev idle : State ℕ
idle = record { store = []; world = 0; waiting = [] }

overlapping_run_twice_example :
    let after_first =
      serve echo idle (arrives order ∷ arrives refund ∷ goes_on 1 ∷ goes_on 0 ∷ []) in
    let after_second = serve echo after_first (goes_on 0 ∷ goes_on 0 ∷ []) in
    (lookup (codes "k1") after_first.store ≡ some (cached (echo 0 order).1))
    × (after_second.world ≡ 2)
    × (lookup (codes "k1") after_second.store ≡ some (cached (echo 1 refund).1))
unfolding lookup
overlapping_run_twice_example =
    overlapping_run_twice echo idle order refund (codes "k1") refl refl refl
