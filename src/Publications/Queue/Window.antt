-- ===== src/Publications/Queue/Window.antt =====
-- The nightly window of `_data_change_not_before` in apps/publications/services.py.
use fire_dash_server.Prelude.{ℕ, ◌≡◌, ◌+◌, ◌%◌, ◌<◌, ◌≤◌, arith}
use fire_dash_server.Tablets.Store.{days, minutes}
use fire_dash_server.Publications.Queue.{data_change_not_before}

-- A build for a change of data waits for the next five minutes past midnight: a moment that is later than
-- now by a day at most.
pub data_change_not_before-window :
    (now : ℕ)
    → (now < data_change_not_before now)
      × (data_change_not_before now ≤ now + days 1)
      × (data_change_not_before now % days 1 ≡ minutes 5)
unfolding data_change_not_before
data_change_not_before-window now = ground arith
